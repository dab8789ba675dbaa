-- ===== src/Kql/Sets/Operations.antt =====
-- `kqlSetOperation`, `kqlSetEquals` and `kqlJaccardIndex`. A loop over a map takes its entries in
-- the order of the list.
use striem.Common.{
  ℕ, ◌+◌, ◌-◌, Bool, true, false, ◌||◌, List, [], ◌∷◌, Option, none, some, ltb, ◌==◌, if◌then◌else◌,
  length,
}
use striem.Common.Text.{Text, same}
use striem.Common.Result.{Result, ok, err, ◌>>=◌, ◌>>◌, fail_if}
use striem.Kql.Value.{Value, null, real, boolean}
use striem.Kql.Array.Elements.{Json, ArrayError, rendered}
use striem.Kql.Array.Concat.{max_replacement_work}
use striem.Kql.Sets.Key.{
  Tokens, SetError, bad_input, bad_set_arity, unsupported_operation, both_empty, property_of,
}
use striem.Kql.Sets.Dynamic.{DynamicSet, has_key, entry_bytes, add, read_dynamic_set, empty_set}

pub data SetOperation : Type 0 where
  set_union set_intersect set_difference other_operation : SetOperation

unfoldable pub without_entry : Text → List (Text × Text) → List (Text × Text)
without_entry key [] = []
without_entry key ((k, raw) ∷ entries) =
    let rest = without_entry key entries in if same key k then rest else (k, raw) ∷ rest

-- `delete` with the bytes given back.
unfoldable pub delete_entry : Text → Text → DynamicSet → DynamicSet
unfolding without_entry
delete_entry key raw set = record {
  values = without_entry key set.values;
  order = set.order;
  size = set.size - entry_bytes key raw;
}

-- The raw value of a key that is there.
abbrev pub raw_of : Text → DynamicSet → Option Text
raw_of key set = property_of key set.values

abbrev pub or_nothing : Option Text → Text
or_nothing none = []
or_nothing (some raw) = raw

unfoldable pub union_loop : DynamicSet → List Text → DynamicSet → Result SetError DynamicSet
unfolding add property_of
union_loop current [] result = ok result
union_loop current (key ∷ keys) result =
    add key (or_nothing (raw_of key current)) result >>= λ longer. union_loop current keys longer

unfoldable pub intersect_loop : DynamicSet → List (Text × Text) → DynamicSet → DynamicSet
unfolding delete_entry
intersect_loop current [] result = result
intersect_loop current ((key, raw) ∷ entries) result =
    intersect_loop current entries
      (if has_key key current then result else delete_entry key raw result)

abbrev pub delete_if : Text → Option Text → DynamicSet → DynamicSet
delete_if key none set = set
delete_if key (some raw) set = delete_entry key raw set

unfoldable pub difference_loop : List (Text × Text) → DynamicSet → DynamicSet
unfolding delete_entry property_of
difference_loop [] result = result
difference_loop ((key, other) ∷ entries) result =
    difference_loop entries (delete_if key (raw_of key result) result)

-- One round for an argument behind the first.
unfoldable pub combine : SetOperation → DynamicSet → DynamicSet → Result SetError DynamicSet
unfolding union_loop intersect_loop difference_loop
combine set_union result current = union_loop current current.order result
combine set_intersect result current = ok (intersect_loop current result.values result)
combine set_difference result current = ok (difference_loop current.values result)
combine other_operation result current = ok result

-- An argument that is no array ends the function.
abbrev pub for_set {ℓ} :
    {A : Type ℓ}
    → (DynamicSet → ℕ → Result SetError (Option A))
    → Option (DynamicSet × ℕ)
    → Result SetError (Option A)
for_set next none = ok none
for_set next (some (set, left)) = next set left

-- The loop over the arguments behind the first.
unfoldable pub combine_all :
    Tokens → Json → SetOperation → DynamicSet → ℕ → List Value → Result SetError (Option DynamicSet)
unfolding combine
combine_all k j op result work [] = ok (some result)
combine_all k j op result work (v ∷ vs) =
    read_dynamic_set k j v work
    >>= for_set
        (λ current left. combine op result current >>= λ next. combine_all k j op next left vs)

-- The values that are left, in the order in which their keys came.
unfoldable pub kept_values : DynamicSet → List Text → List Text
unfolding property_of
kept_values set [] = []
kept_values set (key ∷ keys) = elim (raw_of key set) [
  | none ↦ kept_values set keys
  | some raw ↦ raw ∷ kept_values set keys
]

abbrev pub lifted : Result ArrayError Value → Result SetError Value
lifted (err e) = err (bad_input e)
lifted (ok v) = ok v

abbrev pub is_other : SetOperation → Bool
is_other other_operation = true
is_other _ = false

abbrev pub rendered_set : Json → Option DynamicSet → Result SetError Value
rendered_set j none = ok null
rendered_set j (some set) = lifted (rendered j (kept_values set set.order))

-- The first argument is the result of the first round.
unfoldable pub first_set :
    Tokens → Json → SetOperation → List Value → Result SetError (Option DynamicSet)
unfolding combine_all
first_set k j op [] = ok (some empty_set)
first_set k j op (v ∷ vs) =
    read_dynamic_set k j v max_replacement_work
    >>= for_set (λ first left. combine_all k j op first left vs)

unfoldable pub kql_set_operation : Tokens → Json → SetOperation → List Value → Result SetError Value
unfolding first_set kept_values
kql_set_operation k j op values =
    fail_if (ltb (length values) 2 || ltb 64 (length values)) bad_set_arity
    >> (fail_if (is_other op) unsupported_operation
        >> (first_set k j op values >>= λ set. rendered_set j set))

-- Both arguments are read before anything is compared.
unfoldable pub both_sets :
    Tokens → Json → Value → Value → Result SetError (Option (DynamicSet × DynamicSet))
both_sets k j left right =
    read_dynamic_set k j left max_replacement_work
    >>= for_set (λ a work. read_dynamic_set k j right work >>= for_set (λ b rest. ok (some (a, b))))

abbrev pub for_both :
    (DynamicSet → DynamicSet → Result SetError Value)
    → Option (DynamicSet × DynamicSet)
    → Result SetError Value
for_both next none = ok null
for_both next (some (a, b)) = next a b

-- The loop over the keys of the left set.
unfoldable pub all_exist : List (Text × Text) → DynamicSet → Bool
all_exist [] right = true
all_exist ((key, raw) ∷ entries) right =
    let rest = all_exist entries right in if has_key key right then rest else false

unfoldable pub equal_sets : DynamicSet → DynamicSet → Bool
unfolding all_exist
equal_sets left right =
    if length left.values == length right.values then all_exist left.values right else false

unfoldable pub kql_set_equals : Tokens → Json → Value → Value → Result SetError Value
unfolding both_sets equal_sets
kql_set_equals k j left right =
    both_sets k j left right >>= for_both (λ a b. ok (boolean (equal_sets a b)))

unfoldable pub intersection : List (Text × Text) → DynamicSet → ℕ
intersection [] right = 0
intersection ((key, raw) ∷ entries) right =
    (if has_key key right then 1 else 0) + intersection entries right

-- The number of keys in either set.
unfoldable pub union_count : DynamicSet → DynamicSet → ℕ
unfolding intersection
union_count left right = length left.values + length right.values - intersection left.values right

-- The division of floats is an argument; a float is its 64 bits.
unfoldable pub kql_jaccard_index :
    (ℕ → ℕ → ℕ) → Tokens → Json → Value → Value → Result SetError Value
unfolding both_sets union_count
kql_jaccard_index divide k j left right =
    both_sets k j left right
    >>= for_both (λ a b.
      if union_count a b == 0
      then err both_empty
      else ok (real (divide (intersection a.values b) (union_count a b))))
