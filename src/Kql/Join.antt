-- ===== src/Kql/Join.antt =====
-- internal/database/kql_string_join.go: strcat_delim, strcat_array and strrep on bytes.
pub mod Limits
pub mod Repeats
pub mod Tests
use striem.Common.{
  ℕ, zero, suc, ◌+◌, ◌-◌, ◌*◌, min, Bool, true, false, not, ◌&&◌, ◌||◌, List, [], ◌∷◌, ◌++◌, Option,
  none, some, ltb, leb, ◌==◌, if◌then◌else◌, length,
}
use striem.Common.Int.{ℤ, pos, negsuc}
use striem.Common.Text.{Text, codes, same}
use striem.Common.Result.{Result, ok, err}
use striem.Kql.Value.{Value, null, integer, real, text, blob, boolean}
use striem.Kql.Array.Elements.{Json, ArrayError, dynamic_array}

abbrev pub max_character_string_bytes : ℕ
max_character_string_bytes = 4_194_304

-- `utf8.ValidString`, whether the driver passes a blob as a nil slice, `bytes.TrimSpace`, and
-- `json.Unmarshal` of a string.
pub record Driver : Type 0 where
  pub valid : Text → Bool
  pub nil_blob : Text → Bool
  pub trim : Text → Text
  pub unmarshal : Text → Option Text

pub data JoinError : Type 0 where
  delimiter_too_long bad_arity output_too_long input_too_long : JoinError
  bad_array : ArrayError → JoinError

valid_text : Driver → Text → Option Text
valid_text d s = if d.valid s then some s else none

-- The text of one value; NULL and a nil blob are empty.
unfoldable pub text_of : Driver → Value → Option Text
unfolding valid_text
text_of d null = some []
text_of d (blob b) = if d.nil_blob b then some [] else none
text_of d (text s) = valid_text d s
text_of d _ = none

-- A piece is written while there is room; the output is never longer than the limit.
unfoldable pub append_bounded : Text → Text → Option Text
append_bounded output piece =
    if ltb (max_character_string_bytes - length output) (length piece)
    then none
    else some (output ++ piece)

-- The delimiter, but before the first value, and the value.
abbrev pub then_text : Text → Option Text → Option Text
then_text value none = none
then_text value (some output) = append_bounded output value

unfoldable pub write_value : Text → Bool → Text → Text → Option Text
unfolding append_bounded
write_value delimiter first output value =
    then_text value (if first then some output else append_bounded output delimiter)

-- The loop over the values.
unfoldable pub join_values : Driver → Text → Bool → Text → List Value → Result JoinError Value
unfolding text_of write_value
join_values d delimiter first output [] = ok (text output)
join_values d delimiter first output (v ∷ vs) = elim (text_of d v) [
  | none ↦ ok null
  | some value ↦ elim (write_value delimiter first output value) [
    | none ↦ err output_too_long
    | some longer ↦ join_values d delimiter false longer vs
  ]
]

unfoldable pub strcat_delim : Driver → Value → List Value → Result JoinError Value
unfolding join_values
strcat_delim d (text delimiter) values =
    if ltb max_character_string_bytes (length delimiter)
    then err delimiter_too_long
    else if not (d.valid delimiter)
    then ok null
    else if ltb (length values) 2 || ltb 64 (length values)
    then err bad_arity
    else join_values d delimiter true [] values
strcat_delim d _ values = ok null

-- The loop over the elements of an array: a string is decoded, null is empty, all else compacted.
element_text : Driver → Json → Text → Option Text
element_text d j [] = j.compact []
element_text d j (c ∷ raw) =
    if c == 34
    then d.unmarshal (c ∷ raw)
    else (if same (c ∷ raw) (codes "null") then some [] else j.compact (c ∷ raw))

unfoldable pub join_elements :
    Driver → Json → Text → Bool → Text → List Text → Result JoinError Value
unfolding element_text write_value
join_elements d j delimiter first output [] = ok (text output)
join_elements d j delimiter first output (raw ∷ raws) = elim (element_text d j (d.trim raw)) [
  | none ↦ ok null
  | some value ↦ elim (write_value delimiter first output value) [
    | none ↦ err output_too_long
    | some longer ↦ join_elements d j delimiter false longer raws
  ]
]

unfoldable pub strcat_array : Driver → Json → Value → Value → Result JoinError Value
unfolding join_elements
strcat_array d j value (text delimiter) =
    if ltb max_character_string_bytes (length delimiter)
    then err delimiter_too_long
    else if not (d.valid delimiter)
    then ok null
    else elim (dynamic_array j value) [
      | err e ↦ err (bad_array e)
      | ok none ↦ ok null
      | ok (some elements) ↦ join_elements d j delimiter true [] elements
    ]
strcat_array d j value _ = ok null

-- The loop of strrep, with the number of copies that are left.
unfoldable pub repeat_loop : Text → Text → ℕ → Bool → Text → Text
repeat_loop value delimiter zero first output = output
repeat_loop value delimiter (suc n) first output =
    repeat_loop value delimiter n false ((if first then output else output ++ delimiter) ++ value)

unfoldable pub is_empty : Text → Bool
is_empty [] = true
is_empty (c ∷ s) = false

-- From the limits on the input on. The size is at most 2^33, far from the end of int64.
unfoldable pub strrep_within : Driver → Text → Text → ℕ → Result JoinError Value
unfolding repeat_loop is_empty
strrep_within d value delimiter count =
    if ltb max_character_string_bytes (length value)
      || ltb max_character_string_bytes (length delimiter)
    then err input_too_long
    else if not (d.valid value) || not (d.valid delimiter)
    then ok null
    else if ltb max_character_string_bytes
        (length value * min count 1024 + length delimiter * (min count 1024 - 1))
    then err output_too_long
    else if is_empty value && is_empty delimiter
    then ok (text [])
    else ok (text (repeat_loop value delimiter (min count 1024) true []))

unfoldable pub strrep : Driver → Value → Value → Value → Result JoinError Value
unfolding strrep_within
strrep d (text value) (integer (pos count)) (text delimiter) =
    if ltb count 1 || ltb 67_108_864 count then ok null else strrep_within d value delimiter count
strrep d _ _ _ = ok null
