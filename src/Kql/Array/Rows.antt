-- ===== src/Kql/Array/Rows.antt =====
-- `kqlZip`, `kqlArraySplit` and `kqlRepeat` of internal/database/kql_array_operations.go.
use striem.Common.{
  ℕ, zero, suc, ◌+◌, ◌-◌, ◌/◌, max, Bool, true, false, ◌||◌, List, [], ◌∷◌, ◌++◌, Option, none,
  some, ltb, leb, if◌then◌else◌, length, take, drop, get_or,
}
use striem.Common.Int.{ℤ, pos, pos_part, ltb_ℤ, ◌+ℤ◌}
use striem.Common.Text.{Text}
use striem.Common.Result.{Result, ok, err, ◌>>=◌, ◌>>◌, fail_if}
use striem.Kql.Value.{Value, null, integer, text}
use striem.Kql.Array.Elements.{
  Json, ArrayError, max_replacement_bytes, max_replacement_parts, bad_arity, too_much_work,
  too_many_cells, too_many_segments, bad_indices, bad_split_point, too_many_elements,
  untagged_datetime, result_too_long, dynamic_array, append_array_element, append_all,
}
use striem.Kql.Array.Concat.{text_bytes, max_replacement_work}
use striem.Kql.Array.Functions.{continue, empty_array}

-- An array of arrays: each is written by itself, and then appended.
unfoldable pub append_rows : Json → Text → List (List Text) → Result ArrayError Text
unfolding append_all append_array_element
append_rows j result [] = ok result
append_rows j result (row ∷ rows) = append_all j (91 ∷ []) row >>= λ written.
    append_array_element j result (written ++ 93 ∷ []) >>= λ longer. append_rows j longer rows

unfoldable pub rendered_rows : Json → List (List Text) → Result ArrayError Value
unfolding append_rows
rendered_rows j rows = append_rows j (91 ∷ []) rows >>= λ result. ok (text (result ++ 93 ∷ []))

abbrev pub json_null : Text
json_null = 110 ∷ 117 ∷ 108 ∷ 108 ∷ []

-- The arrays, and the length of the longest.
abbrev pub Arrays : Type 0
Arrays = List (List Text) × ℕ

abbrev pub in_front : List Text → Option Arrays → Option Arrays
in_front elements none = none
in_front elements (some (arrays, size)) = some (elements ∷ arrays, size)

-- An argument that is no array ends the function.
abbrev pub with_array {ℓ} :
    {A : Type ℓ}
    → (List Text → Result ArrayError (Option A))
    → Result ArrayError (Option (List Text))
    → Result ArrayError (Option A)
with_array next (err e) = err e
with_array next (ok none) = ok none
with_array next (ok (some elements)) = next elements

-- The loop over the arguments, of which there are `count`; none where one is no array.
unfoldable pub read_arrays : Json → ℕ → List Value → ℕ → ℕ → Result ArrayError (Option Arrays)
read_arrays j count [] work size = ok (some ([], size))
read_arrays j count (v ∷ vs) work size =
    fail_if (ltb work (text_bytes v)) too_much_work
    >> with_array
        (λ elements.
          fail_if (ltb (max_replacement_parts / count) (max size (length elements))) too_many_cells
          >> (read_arrays j count vs (work - text_bytes v) (max size (length elements)) >>= λ read.
              ok (in_front elements read)))
        (dynamic_array j v)

-- A row takes an element of each array, or null behind its end.
unfoldable pub zip_row : List (List Text) → ℕ → List Text
zip_row [] i = []
zip_row (array ∷ arrays) i = get_or array i json_null ∷ zip_row arrays i

-- The rows from index `i` on, for `n` rounds.
unfoldable pub zip_rows : List (List Text) → ℕ → ℕ → List (List Text)
unfolding zip_row
zip_rows arrays i zero = []
zip_rows arrays i (suc n) = zip_row arrays i ∷ zip_rows arrays (suc i) n

abbrev pub zip_arrays : Json → Option Arrays → Result ArrayError Value
zip_arrays j none = ok null
zip_arrays j (some (arrays, size)) = rendered_rows j (zip_rows arrays 0 size)

unfoldable pub kql_zip : Json → List Value → Result ArrayError Value
unfolding read_arrays zip_rows rendered_rows
kql_zip j values =
    fail_if (ltb (length values) 2 || ltb 64 (length values)) bad_arity
    >> (read_arrays j (length values) values max_replacement_work 0 >>= λ read. zip_arrays j read)

-- A split point, counted from the end where it is negative. The sum is within int64.
abbrev pub split_point : ℕ → ℤ → ℤ
split_point size index = if ltb_ℤ index (pos 0) then index +ℤ pos size else index

-- The loop that checks the split points.
unfoldable pub split_points : ℕ → ℕ → List ℤ → Result ArrayError (List ℕ)
split_points size previous [] = ok []
split_points size previous (index ∷ indices) =
    let point = split_point size index in
    fail_if (ltb_ℤ point (pos 0) || ltb_ℤ (pos size) point) bad_split_point
    >> (fail_if (ltb_ℤ point (pos previous)) bad_split_point
        >> (split_points size (pos_part point) indices >>= λ points. ok (pos_part point ∷ points)))

-- The elements between two points.
unfoldable pub segments_from : List Text → ℕ → List ℕ → List (List Text)
segments_from elements previous [] = []
segments_from elements previous (point ∷ points) =
    take (point - previous) (drop previous elements) ∷ segments_from elements point points

unfoldable pub split_segments : List Text → List ℤ → Result ArrayError (List (List Text))
unfolding split_points segments_from
split_segments elements indices = split_points (length elements) 0 indices >>= λ points.
    ok (segments_from elements 0 (points ++ length elements ∷ []))

-- The indices of an array, each read by `strconv.ParseInt`.
unfoldable pub parse_indices : (Text → Option ℤ) → List Text → Result ArrayError (List ℤ)
parse_indices parse_int [] = ok []
parse_indices parse_int (raw ∷ raws) = elim (parse_int raw) [
  | none ↦ err bad_indices
  | some index ↦ parse_indices parse_int raws >>= λ indices. ok (index ∷ indices)
]

abbrev pub array_indices :
    (Text → Option ℤ) → Result ArrayError (Option (List Text)) → Result ArrayError (List ℤ)
array_indices parse_int (err e) = err e
array_indices parse_int (ok none) = err bad_indices
array_indices parse_int (ok (some raws)) =
    fail_if (leb max_replacement_parts (length raws)) too_many_segments
    >> parse_indices parse_int raws

unfoldable pub split_indices : (Text → Option ℤ) → Json → Value → Result ArrayError (List ℤ)
unfolding parse_indices
split_indices parse_int j (integer index) = ok (index ∷ [])
split_indices parse_int j v = array_indices parse_int (dynamic_array j v)

unfoldable pub kql_array_split : (Text → Option ℤ) → Json → Value → Value → Result ArrayError Value
unfolding split_indices split_segments rendered_rows
kql_array_split parse_int j value indices_value = continue (dynamic_array j value) (λ elements.
    split_indices parse_int j indices_value >>= λ indices.
    split_segments elements indices >>= λ segments. rendered_rows j segments)

-- The loop of repeat, with the number of copies that are left.
unfoldable pub repeat_copies : Text → ℕ → Bool → Text → Text
repeat_copies encoded zero first result = result
repeat_copies encoded (suc n) first result =
    repeat_copies encoded n false ((if first then result else result ++ 44 ∷ []) ++ encoded)

-- From the encoded value on.
unfoldable pub repeat_encoded : Text → ℕ → Result ArrayError Value
unfolding repeat_copies
repeat_encoded encoded count =
    if ltb ((max_replacement_bytes - 1) / (length encoded + 1)) count
    then err result_too_long
    else ok (text (repeat_copies encoded count true (91 ∷ []) ++ 93 ∷ []))

-- What `packJSONValue` makes of the value is an argument.
unfoldable pub kql_repeat : Result ArrayError Text → Value → Bool → Result ArrayError Value
unfolding repeat_encoded
kql_repeat packed (integer (pos zero)) is_datetime = ok empty_array
kql_repeat packed (integer (pos (suc n))) is_datetime =
    fail_if (ltb max_replacement_parts (suc n)) too_many_elements
    >> (fail_if is_datetime untagged_datetime
        >> (packed >>= λ encoded. repeat_encoded encoded (suc n)))
kql_repeat packed _ is_datetime = ok null
