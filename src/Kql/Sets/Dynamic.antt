-- ===== src/Kql/Sets/Dynamic.antt =====
-- `dynamicSet`, its `add`, and `readDynamicSet`.
use striem.Common.{
  ℕ, ◌+◌, ◌-◌, Bool, List, [], ◌∷◌, ◌++◌, Option, none, some, ltb, ◌==◌, if◌then◌else◌, length,
}
use striem.Common.Text.{Text, has_text}
use striem.Common.Result.{Result, ok, err, ◌>>=◌, ◌>>◌, fail_if}
use striem.Kql.Value.{Value}
use striem.Kql.Array.Elements.{Json, ArrayError, max_replacement_parts, dynamic_array}
use striem.Kql.Array.Concat.{text_bytes}
use striem.Kql.Sets.Key.{
  Tokens, SetError, too_many_values, too_much_storage, too_much_set_work, bad_input,
  max_set_storage_bytes, names_of, set_value_key,
}

-- The map is a list of its entries.
pub record DynamicSet : Type 0 where
  pub values : List (Text × Text)
  pub order : List Text
  pub size : ℕ

abbrev pub empty_set : DynamicSet
empty_set = record { values = []; order = []; size = 0 }

-- Whether a key exists.
abbrev pub has_key : Text → DynamicSet → Bool
has_key key set = has_text key (names_of set.values)

abbrev pub entry_bytes : Text → Text → ℕ
entry_bytes key raw = length key + length raw

unfoldable pub add : Text → Text → DynamicSet → Result SetError DynamicSet
add key raw set =
    if has_key key set
    then ok set
    else if length set.values == max_replacement_parts
    then err too_many_values
    else if ltb max_set_storage_bytes (entry_bytes key raw + set.size)
    then err too_much_storage
    else ok (record {
      values = set.values ++ (key, raw) ∷ [];
      order = set.order ++ key ∷ [];
      size = set.size + entry_bytes key raw;
    })

-- The loop over the elements of an array, with the work that is left.
unfoldable pub read_loop : Tokens → List Text → ℕ → DynamicSet → Result SetError (DynamicSet × ℕ)
read_loop k [] work current = ok (current, work)
read_loop k (element ∷ elements) work current = set_value_key k element work >>= λ (key, left).
    add key element current >>= λ longer. read_loop k elements left longer

-- None where the value is no array.
unfoldable pub set_of :
    Tokens → Result ArrayError (Option (List Text)) → ℕ → Result SetError (Option (DynamicSet × ℕ))
unfolding read_loop
set_of k (err e) work = err (bad_input e)
set_of k (ok none) work = ok none
set_of k (ok (some elements)) work = read_loop k elements work empty_set >>= λ read. ok (some read)

unfoldable pub read_dynamic_set :
    Tokens → Json → Value → ℕ → Result SetError (Option (DynamicSet × ℕ))
unfolding set_of
read_dynamic_set k j value work =
    fail_if (ltb work (text_bytes value)) too_much_set_work
    >> set_of k (dynamic_array j value) (work - text_bytes value)
