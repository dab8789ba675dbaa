-- ===== src/Kql/Array/Search.antt =====
-- `kqlArrayIndexOf` and `kqlSetHasElementTyped` of internal/database/kql_array_search.go. What
-- `packJSONValue` makes of the lookup is an argument.
pub mod Window
use striem.Common.{
  ℕ, zero, suc, ◌+◌, ◌-◌, Bool, true, false, ◌&&◌, ◌||◌, not, List, [], ◌∷◌, Option, none, some,
  ltb, ◌==◌, if◌then◌else◌, length, get_or,
}
use striem.Common.Int.{ℤ, pos, negsuc, pos_part, ltb_ℤ, leb_ℤ, eqb_ℤ, ◌+ℤ◌, ◌-ℤ◌}
use striem.Common.Text.{Text}
use striem.Common.Result.{Result, ok, err, ◌>>=◌, ◌>>◌, fail_if}
use striem.Kql.Value.{Value, null, integer, text, boolean}
use striem.Kql.Scalar.{Parser, KqlScalar, decode_json_search_scalar, sqlite_scalar_equal}
use striem.Kql.Array.Elements.{
  Json, ArrayError, max_replacement_bytes, too_many_options, zero_occurrence, untagged_datetime,
  lookup_too_long, bad_lookup, dynamic_array,
}
use striem.Kql.Array.Functions.{continue}

-- Whether an element decodes to a scalar that is equal to the needle.
unfoldable pub is_match : Parser → KqlScalar → Text → Bool
is_match p needle raw = elim (decode_json_search_scalar p raw) [
  | none ↦ false
  | some element ↦ sqlite_scalar_equal element needle
]

-- The loop from index `i` on, for `n` rounds.
unfoldable pub find_occurrence : Parser → KqlScalar → List Text → ℕ → ℕ → ℕ → Option ℕ
find_occurrence p needle elements i zero occurrence = none
find_occurrence p needle elements i (suc n) occurrence =
    let found = is_match p needle (get_or elements i []) in
    let left = if found then occurrence - 1 else occurrence in
    let rest = find_occurrence p needle elements (suc i) n left in
    if found && left == 0 then some i else rest

abbrev pub index_or_minus_one : Option ℕ → Value
index_or_minus_one none = integer (negsuc 0)
index_or_minus_one (some i) = integer (pos i)

-- A negative start counts from the end.
abbrev pub window_start : ℕ → ℤ → ℤ
window_start count start = if ltb_ℤ start (pos 0) then start +ℤ pos count else start

-- A negative length, which is -1, stands for no limit.
abbrev pub window_size : ℕ → ℕ → ℤ → ℕ
window_size count start size =
    if leb_ℤ (pos 0) size && ltb_ℤ size (pos (count - start)) then pos_part size else count - start

-- From the start on. The sums are within int64, since the start is negative or the sum is below the
-- number of elements.
unfoldable pub search_window : Parser → KqlScalar → List Text → ℤ → ℤ → ℕ → Value
unfolding find_occurrence
search_window p needle elements start size occurrence =
    let first = window_start (length elements) start in
    if ltb_ℤ first (pos 0)
    then null
    else if leb_ℤ (pos (length elements)) first
    then integer (negsuc 0)
    else index_or_minus_one (
        find_occurrence p needle elements (pos_part first)
          (window_size (length elements) (pos_part first) size) occurrence)

-- The three options, each an integer; none where one is not.
abbrev pub option_at : ℤ → List Value → ℤ
option_at default [] = default
option_at default (integer n ∷ vs) = n
option_at default (v ∷ vs) = default

abbrev pub rest_of : List Value → List Value
rest_of [] = []
rest_of (v ∷ vs) = vs

unfoldable pub are_integers : List Value → Bool
are_integers [] = true
are_integers (integer n ∷ vs) = are_integers vs
are_integers (v ∷ vs) = false

abbrev pub is_null : Value → Bool
is_null null = true
is_null _ = false

unfoldable pub check_lookup : Json → Value → Result ArrayError (Unit {0})
check_lookup j (text s) =
    fail_if (ltb max_replacement_bytes (length s)) lookup_too_long
    >> fail_if (not (j.valid s)) bad_lookup
check_lookup j _ = ok tt

-- From the lookup on.
unfoldable pub search_for :
    Parser
    → Json
    → List Text
    → Value
    → Bool
    → Result ArrayError Text
    → ℤ
    → ℤ
    → ℕ
    → Result ArrayError Value
unfolding search_window check_lookup
search_for p j elements lookup is_datetime packed start size occurrence =
    if is_null lookup
    then ok null
    else (fail_if is_datetime untagged_datetime
        >> (check_lookup j lookup
            >> (packed >>= λ raw. elim (decode_json_search_scalar p raw) [
              | none ↦ err bad_lookup
              | some needle ↦ ok (search_window p needle elements start size occurrence)
            ])))

-- From the options on.
unfoldable pub search_with :
    Parser
    → Json
    → List Text
    → Value
    → Bool
    → Result ArrayError Text
    → List Value
    → Result ArrayError Value
unfolding search_for are_integers
search_with p j elements lookup is_datetime packed options =
    let start = option_at (pos 0) options in
    let size = option_at (negsuc 0) (rest_of options) in
    let occurrence = option_at (pos 1) (rest_of (rest_of options)) in
    if not (are_integers options)
    then ok null
    else if ltb_ℤ size (negsuc 0) || ltb_ℤ occurrence (pos 0)
    then ok null
    else if eqb_ℤ occurrence (pos 0)
    then err zero_occurrence
    else search_for p j elements lookup is_datetime packed start size (pos_part occurrence)

unfoldable pub kql_array_index_of :
    Parser
    → Json
    → Value
    → Value
    → Bool
    → Result ArrayError Text
    → List Value
    → Result ArrayError Value
unfolding search_with
kql_array_index_of p j value lookup is_datetime packed options =
    if ltb 3 (length options)
    then err too_many_options
    else continue (dynamic_array j value)
        (λ elements. search_with p j elements lookup is_datetime packed options)

abbrev pub is_found : Value → Value
is_found (integer n) = boolean (leb_ℤ (pos 0) n)
is_found _ = null

unfoldable pub kql_set_has_element_typed :
    Parser → Json → Value → Value → Bool → Result ArrayError Text → Result ArrayError Value
unfolding kql_array_index_of
kql_set_has_element_typed p j value lookup is_datetime packed =
    kql_array_index_of p j value lookup is_datetime packed [] >>= λ index. ok (is_found index)
