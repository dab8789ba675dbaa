-- ===== src/Kql/Array/Elements.antt =====
-- `dynamicArray` and `appendArrayElement` of internal/database/kql_array_operations.go. The decoder
-- and the compaction of encoding/json and the test of UTF-8 are arguments.
use striem.Common.{
  ℕ, suc, ◌+◌, Bool, List, [], ◌∷◌, ◌++◌, Option, none, some, ltb, leb, if◌then◌else◌, length,
}
use striem.Common.Text.{Text}
use striem.Common.Result.{Result, ok, err}
use striem.Kql.Value.{Value, text}

abbrev pub max_replacement_bytes : ℕ
max_replacement_bytes = 4_194_304

abbrev pub max_replacement_parts : ℕ
max_replacement_parts = 65_536

-- How the elements of a text that starts with `[` end: with `]` and no more, at an element that is
-- not JSON, or in another way.
pub data Ending : Type 0 where
  closed unreadable unclosed : Ending

-- `scan` gives the elements that the decoder reads, and what is behind them.
pub record Json : Type 0 where
  pub valid : Text → Bool
  pub scan : Text → Option (List Text × Ending)
  pub compact : Text → Option Text

pub data ArrayError : Type 0 where
  input_too_long too_many_elements bad_element result_too_long : ArrayError
  bad_padding bad_arity too_much_work : ArrayError
  too_many_options zero_occurrence untagged_datetime lookup_too_long bad_lookup : ArrayError
  too_many_cells too_many_segments bad_indices bad_split_point : ArrayError

-- The loop tests the limit before it reads the next element.
pub counted : List Text → Ending → Result ArrayError (Option (List Text))
counted elements closed =
    if ltb max_replacement_parts (length elements)
    then err too_many_elements
    else ok (some elements)
counted elements unreadable =
    if leb max_replacement_parts (length elements) then err too_many_elements else ok none
counted elements unclosed =
    if ltb max_replacement_parts (length elements) then err too_many_elements else ok none

unfoldable pub dynamic_array : Json → Value → Result ArrayError (Option (List Text))
unfolding counted
dynamic_array j (text s) =
    if ltb max_replacement_bytes (length s)
    then err input_too_long
    else if j.valid s
    then elim (j.scan s) [ none ↦ ok none | some (elements, ending) ↦ counted elements ending ]
    else ok none
dynamic_array j _ = ok none

-- The room is compared as integers: the buffer may be longer than its limit here.
unfoldable pub append_array_element : Json → Text → Text → Result ArrayError Text
append_array_element j result element = elim (j.compact element) [
  | none ↦ err bad_element
  | some compact ↦
      let extra = if ltb 1 (length result) then suc (length compact) else length compact in
      if ltb max_replacement_bytes (extra + length result + 1)
      then err result_too_long
      else ok (if ltb 1 (length result) then result ++ 44 ∷ compact else result ++ compact)
]

-- The loop that appends elements.
unfoldable pub append_all : Json → Text → List Text → Result ArrayError Text
unfolding append_array_element
append_all j result [] = ok result
append_all j result (e ∷ es) = elim (append_array_element j result e) [
  | err x ↦ err x
  | ok longer ↦ append_all j longer es
]

-- The brackets around the loop.
unfoldable pub rendered : Json → List Text → Result ArrayError Value
unfolding append_all
rendered j elements = elim (append_all j (91 ∷ []) elements) [
  | err x ↦ err x
  | ok result ↦ ok (text (result ++ 93 ∷ []))
]
