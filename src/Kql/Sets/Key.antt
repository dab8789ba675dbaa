-- ===== src/Kql/Sets/Key.antt =====
-- `setValueKey`, `readSetKey` and `frameSetKey`: the key under which a JSON value is in a set.
use striem.Common.{
  ℕ, zero, suc, ◌+◌, ◌-◌, ◌*◌, Bool, true, false, ◌||◌, List, [], ◌∷◌, ◌++◌, Option, none, some,
  ltb, ◌==◌, if◌then◌else◌, length, is_some,
}
use striem.Common.Decimal.{decimal, format_int}
use striem.Common.Text.{Text, codes, same, sort_texts}
use striem.Common.Result.{Result, ok, err, ◌>>=◌, ◌>>◌, fail_if}
use striem.Kql.Array.Elements.{ArrayError, max_replacement_parts}
use striem.Kql.Scalar.{
  Parser, NormalizedNumber, text_scalar, boolean_scalar, number_scalar, normalize_number,
  decode_json_search_scalar,
}

abbrev pub max_set_key_depth : ℕ
max_set_key_depth = 64

abbrev pub max_set_storage_bytes : ℕ
max_set_storage_bytes = 8_388_608

pub data SetError : Type 0 where
  too_much_set_work unsupported_scalar too_deep too_many_nodes key_too_long : SetError
  invalid_json invalid_array invalid_object invalid_property repeated_property : SetError
  invalid_container unsupported_number trailing_data unfinished : SetError
  too_many_values too_much_storage bad_set_arity unsupported_operation both_empty : SetError
  bad_input : ArrayError → SetError

-- What `json.Decoder.Token` returns in succession. The list ends at the end of the input; a syntax
-- error is a token of its own, at which `More` still holds.
pub data Token : Type 0 where
  null_token open_array close_array open_object close_object bad_token : Token
  boolean_token : Bool → Token
  string_token number_token : Text → Token

-- The decoder of a raw value, with the parsers of scalars.
pub record Tokens : Type 0 where
  pub parser : Parser
  pub tokens : Text → List Token

-- `*work`, `*nodes` and the tokens that are left.
pub record KeyState : Type 0 where
  pub work : ℕ
  pub nodes : ℕ
  pub left : List Token

abbrev pub sign : Bool → Text
sign true = 45 ∷ []
sign false = 43 ∷ []

abbrev pub number_key : NormalizedNumber → Text
number_key n = 110 ∷ (sign n.negative ++ (n.digits ++ (58 ∷ format_int n.scale)))

abbrev pub boolean_key : Bool → Text
boolean_key true = 98 ∷ 49 ∷ []
boolean_key false = 98 ∷ 48 ∷ []

unfoldable pub frame_set_key : Text → Text → Result SetError Text
frame_set_key buffer key =
    let header = decimal (length key) in
    if ltb max_set_storage_bytes (length header + 1 + length key + length buffer + 1)
    then err key_too_long
    else ok (buffer ++ (header ++ (58 ∷ key)))

-- The key is paid for by its length.
unfoldable pub pay_key : Text → KeyState → Result SetError (Text × KeyState)
pay_key key st =
    if ltb st.work (length key)
    then err too_much_set_work
    else ok (key, record { work = st.work - length key; nodes = st.nodes; left = st.left })

-- The map `properties`, and its names in order.
abbrev pub names_of : List (Text × Text) → List Text
names_of [] = []
names_of ((name, child) ∷ entries) = name ∷ names_of entries

unfoldable pub property_of : Text → List (Text × Text) → Option Text
property_of name [] = none
property_of name ((k, child) ∷ entries) =
    if same name k then some child else property_of name entries

abbrev pub or_empty : Option Text → Text
or_empty none = []
or_empty (some s) = s

-- The loop over the sorted names.
unfoldable pub frame_properties : List (Text × Text) → Text → List Text → Result SetError Text
unfolding frame_set_key property_of
frame_properties properties buffer [] = ok buffer
frame_properties properties buffer (name ∷ names) = frame_set_key buffer name >>= λ named.
    frame_set_key named (or_empty (property_of name properties)) >>= λ framed.
    frame_properties properties framed names

abbrev pub with_left : List Token → KeyState → KeyState
with_left ts st = record { work = st.work; nodes = st.nodes; left = ts }

-- `*nodes--` and `*work--`.
abbrev pub visited : KeyState → KeyState
visited st = record { work = st.work - 1; nodes = st.nodes - 1; left = st.left }

abbrev pub number_key_of : Option NormalizedNumber → KeyState → Result SetError (Text × KeyState)
number_key_of none st = err unsupported_number
number_key_of (some n) st = pay_key (number_key n) st

unfoldable mutual
  unfolding pay_key property_of

  -- Each round, of whatever loop, takes fuel; `unfinished` is the end of the fuel.
  pub read_set_key : Parser → ℕ → ℕ → KeyState → Result SetError (Text × KeyState)
  read_set_key p zero depth st = err unfinished
  read_set_key p (suc fuel) depth st =
      fail_if (ltb max_set_key_depth depth) too_deep
      >> (fail_if (st.nodes == 0) too_many_nodes
          >> (fail_if (st.work == 0) too_much_set_work
              >> key_of_token p fuel depth st.left (visited st)))

  pub key_of_token : Parser → ℕ → ℕ → List Token → KeyState → Result SetError (Text × KeyState)
  key_of_token p zero depth ts st = err unfinished
  key_of_token p (suc fuel) depth [] st = err invalid_json
  key_of_token p (suc fuel) depth (null_token ∷ ts) st = pay_key (122 ∷ []) (with_left ts st)
  key_of_token p (suc fuel) depth (boolean_token b ∷ ts) st =
      pay_key (boolean_key b) (with_left ts st)
  key_of_token p (suc fuel) depth (string_token s ∷ ts) st = pay_key (115 ∷ s) (with_left ts st)
  key_of_token p (suc fuel) depth (number_token s ∷ ts) st =
      number_key_of (normalize_number p s) (with_left ts st)
  key_of_token p (suc fuel) depth (open_array ∷ ts) st =
      read_elements p fuel depth (97 ∷ 91 ∷ []) ts st >>= λ (key, after). pay_key key after
  key_of_token p (suc fuel) depth (open_object ∷ ts) st =
      read_properties p fuel depth [] ts st >>= λ (key, after). pay_key key after
  key_of_token p (suc fuel) depth (close_array ∷ ts) st = err invalid_container
  key_of_token p (suc fuel) depth (close_object ∷ ts) st = err invalid_container
  key_of_token p (suc fuel) depth (bad_token ∷ ts) st = err invalid_json

  -- The loop over the elements of an array.
  pub read_elements :
      Parser → ℕ → ℕ → Text → List Token → KeyState → Result SetError (Text × KeyState)
  read_elements p zero depth buffer ts st = err unfinished
  read_elements p (suc fuel) depth buffer [] st = err invalid_array
  read_elements p (suc fuel) depth buffer (close_array ∷ ts) st =
      ok (buffer ++ 93 ∷ [], with_left ts st)
  read_elements p (suc fuel) depth buffer (close_object ∷ ts) st = err invalid_array
  read_elements p (suc fuel) depth buffer (t ∷ ts) st =
      read_set_key p fuel (suc depth) (with_left (t ∷ ts) st) >>= λ (child, after).
      frame_set_key buffer child >>= λ longer. read_elements p fuel depth longer after.left after

  -- The loop over the properties of an object.
  pub read_properties :
      Parser
      → ℕ
      → ℕ
      → List (Text × Text)
      → List Token
      → KeyState
      → Result SetError (Text × KeyState)
  read_properties p zero depth properties ts st = err unfinished
  read_properties p (suc fuel) depth properties [] st = err invalid_object
  read_properties p (suc fuel) depth properties (close_object ∷ ts) st =
      frame_properties properties (111 ∷ 123 ∷ []) (sort_texts (names_of properties)) >>= λ buffer.
      ok (buffer ++ 125 ∷ [], with_left ts st)
  read_properties p (suc fuel) depth properties (close_array ∷ ts) st = err invalid_object
  read_properties p (suc fuel) depth properties (bad_token ∷ ts) st = err invalid_json
  read_properties p (suc fuel) depth properties (string_token name ∷ ts) st =
      fail_if (is_some (property_of name properties)) repeated_property
      >> (read_set_key p fuel (suc depth) (with_left ts st) >>= λ (child, after).
          read_properties p fuel depth (properties ++ (name, child) ∷ []) after.left after)
  read_properties p (suc fuel) depth properties (t ∷ ts) st = err invalid_property

-- The scalars are not given to the decoder.
pub scalar_key : Tokens → Text → Option Text
scalar_key k raw =
    if same raw (codes "null")
    then some (122 ∷ [])
    else elim (decode_json_search_scalar k.parser raw) [
      | none ↦ none
      | some (text_scalar s) ↦ some (115 ∷ s)
      | some (boolean_scalar s) ↦ some (boolean_key (same s (codes "true")))
      | some (number_scalar n) ↦ some (number_key n)
    ]

-- A decoded value, which is all of the input.
unfoldable pub at_end : Text → ℕ → List Token → Result SetError (Text × ℕ)
at_end key work [] = ok (key, work)
at_end key work (t ∷ ts) = err trailing_data

unfoldable pub pay_scalar : Option Text → ℕ → Result SetError (Text × ℕ)
pay_scalar none work = err unsupported_scalar
pay_scalar (some key) work =
    if ltb work (length key + 1) then err too_much_set_work else ok (key, work - (length key + 1))

abbrev pub is_container : Text → Bool
is_container [] = true
is_container (c ∷ s) = c == 91 || c == 123

unfoldable pub enough_fuel : List Token → ℕ
enough_fuel ts = 2 + 3 * length ts

-- The key and the work that is left.
unfoldable pub set_value_key : Tokens → Text → ℕ → Result SetError (Text × ℕ)
unfolding read_set_key at_end scalar_key pay_scalar enough_fuel
set_value_key k raw work =
    fail_if (ltb work (length raw)) too_much_set_work
    >> (if is_container raw
        then (read_set_key k.parser (enough_fuel (k.tokens raw)) 0 (record {
          work = work - length raw;
          nodes = max_replacement_parts;
          left = k.tokens raw;
        })
            >>= λ (key, after). at_end key after.work after.left)
        else pay_scalar (scalar_key k raw) (work - length raw))
