-- ===== src/Kql/Array/RowTests.antt =====
-- zip, array_split, repeat and array_index_of on arrays of digits, and the theorems on them.
use striem.Common.{
  ◌==◌, if◌then◌else◌, ◌≡◌, refl, true, false, List, [], ◌∷◌, Option, none, some, arith,
}
use striem.Common.Int.{pos, negsuc, ◌+ℤ◌, ◌-ℤ◌, wrap64}
use striem.Common.Text.{Text, codes, same}
use striem.Common.Result.{ok}
use striem.Kql.Value.{Value, integer, text}
use striem.Kql.Scalar.{
  Parser, KqlScalar, number_scalar, decode_json_search_scalar, sqlite_scalar_equal,
}
use striem.Kql.Array.Elements.{
  Json, Ending, closed, unclosed, dynamic_array, append_array_element, append_all,
}
use striem.Kql.Array.Rows.{kql_zip, split_segments, kql_array_split, kql_repeat}
use striem.Kql.Array.Search.{is_match, search_window, kql_array_index_of}
use striem.Kql.Array.Search.Window.{AnswersSearch, search_window-AnswersSearch}
use striem.Kql.Array.Segments.{flat, AreSplitAt, split_segments-AreSplitAt}

abbrev digits : Text → List Text × Ending
digits [] = ([], unclosed)
digits (c ∷ s) =
    let (es, ending) = digits s in
    if c == 93 then ([], closed) else if c == 44 then (es, ending) else ((c ∷ []) ∷ es, ending)

abbrev scan_digits : Text → Option (List Text × Ending)
scan_digits [] = none
scan_digits (c ∷ s) = some (digits s)

abbrev json : Json
json = record { valid = λ _. true; scan = scan_digits; compact = some }

abbrev parser : Parser
parser = record { parse_int = λ _. some (pos 0); unmarshal_text = some }

abbrev three : Value
three = text (codes "[1,2,1]")

abbrev two : Value
two = text (codes "[3,4]")

abbrev elements : List Text
elements = codes "1" ∷ codes "2" ∷ codes "1" ∷ []

abbrev others : List Text
others = codes "3" ∷ codes "4" ∷ []

zips : kql_zip json (three ∷ two ∷ []) ≡ ok (text (codes "[[1,3],[2,4],[1,null]]"))
unfolding kql_zip dynamic_array append_array_element append_all
zips = refl

splits :
    kql_array_split (λ _. none) json three (integer (negsuc 0)) ≡ ok (text (codes "[[1,2],[1]]"))
unfolding kql_array_split dynamic_array append_array_element append_all ◌+ℤ◌
splits = refl

repeats : kql_repeat (ok (codes "7")) (integer (pos 3)) false ≡ ok (text (codes "[7,7,7]"))
unfolding kql_repeat
repeats = refl

finds :
    kql_array_index_of parser json three
      (text (codes "x"))
      false
      (ok (codes "1"))
      (integer (pos 1) ∷ [])
    ≡ ok (integer (pos 2))
unfolding kql_array_index_of dynamic_array decode_json_search_scalar same ◌+ℤ◌ is_match
    sqlite_scalar_equal wrap64 ◌-ℤ◌
finds = refl

cuts :
    split_segments elements (pos 1 ∷ negsuc 0 ∷ [])
    ≡ ok ((codes "1" ∷ []) ∷ (codes "2" ∷ []) ∷ (codes "1" ∷ []) ∷ [])
unfolding split_segments ◌+ℤ◌
cuts = refl

split_segments-AreSplitAt_example :
    (flat ((codes "1" ∷ []) ∷ (codes "2" ∷ []) ∷ (codes "1" ∷ []) ∷ []) ≡ elements)
    × AreSplitAt 3 0
        (pos 1 ∷ negsuc 0 ∷ [])
        ((codes "1" ∷ []) ∷ (codes "2" ∷ []) ∷ (codes "1" ∷ []) ∷ [])
split_segments-AreSplitAt_example =
    split_segments-AreSplitAt elements (pos 1 ∷ negsuc 0 ∷ [])
      ((codes "1" ∷ []) ∷ (codes "2" ∷ []) ∷ (codes "1" ∷ []) ∷ []) cuts

abbrev one : KqlScalar
one = number_scalar (record { negative = false; digits = codes "1"; scale = pos 0 })

search_window-AnswersSearch_example :
    AnswersSearch parser one elements
      (negsuc 1)
      (negsuc 0)
      1
      (search_window parser one elements (negsuc 1) (negsuc 0) 1)
search_window-AnswersSearch_example =
    search_window-AnswersSearch parser one elements (negsuc 1) (negsuc 0) 1 (omega arith)
