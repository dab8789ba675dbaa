-- ===== src/Kql/Array/Tests.antt =====
-- The array functions on arrays of digits, and the theorems on them.
use striem.Common.{
  ◌++◌, ◌==◌, if◌then◌else◌, ◌≡◌, refl, true, false, List, [], ◌∷◌, Option, none, some, arith,
}
use striem.Common.Int.{pos, negsuc, ◌+ℤ◌, ◌-ℤ◌, wrap64}
use striem.Common.Text.{Text, codes}
use striem.Common.Result.{ok}
use striem.Kql.Value.{Value, integer, text}
use striem.Kql.Array.Elements.{
  Json, Ending, closed, unclosed, dynamic_array, append_array_element, append_all, rendered,
}
use striem.Kql.Array.Functions.{
  reversed, kql_array_reverse, slice_bounds, kql_array_slice, rotate_offset, rotated_from,
  kql_array_rotate, default, fill_of, shift_count, shifted_at, shifted_from, kql_array_shift,
}
use striem.Kql.Array.Concat.{concat_loop, kql_array_concat, kql_array_concat-rendered}

-- A decoder of arrays of one-digit numbers.
abbrev digits : Text → List Text × Ending
digits [] = ([], unclosed)
digits (c ∷ s) =
    let (es, ending) = digits s in
    if c == 93 then ([], closed) else if c == 44 then (es, ending) else ((c ∷ []) ∷ es, ending)

abbrev scan_digits : Text → Option (List Text × Ending)
scan_digits [] = none
scan_digits (c ∷ s) = some (digits s)

abbrev json : Json
json = record { valid = λ _. true; scan = scan_digits; compact = some }

abbrev four : Value
four = text (codes "[1,2,3,4]")

abbrev elements : List Text
elements = codes "1" ∷ codes "2" ∷ codes "3" ∷ codes "4" ∷ []

reverses : kql_array_reverse json four ≡ ok (text (codes "[4,3,2,1]"))
unfolding kql_array_reverse dynamic_array reversed rendered append_all append_array_element
reverses = refl

slices :
    kql_array_slice json four (integer (negsuc 2)) (integer (pos 2)) ≡ ok (text (codes "[2,3]"))
unfolding kql_array_slice dynamic_array slice_bounds wrap64 ◌+ℤ◌ ◌-ℤ◌ rendered append_all
    append_array_element
slices = refl

rotates : kql_array_rotate json four (integer (pos 5)) false ≡ ok (text (codes "[2,3,4,1]"))
unfolding kql_array_rotate dynamic_array rotated_from rotate_offset rendered append_all
    append_array_element
rotates = refl

shifts :
    kql_array_shift json four (integer (negsuc 0)) default false ≡ ok (text (codes "[null,1,2,3]"))
unfolding kql_array_shift dynamic_array shifted_from shifted_at shift_count fill_of wrap64 ◌+ℤ◌ ◌-ℤ◌
    rendered append_all append_array_element
shifts = refl

four_decodes : dynamic_array json four ≡ ok (some elements)
unfolding dynamic_array
four_decodes = refl

concatenates : kql_array_concat json (four ∷ four ∷ []) ≡ ok (text (codes "[1,2,3,4,1,2,3,4]"))
unfolding kql_array_concat concat_loop dynamic_array append_all append_array_element
concatenates = refl

kql_array_concat-rendered_example :
    kql_array_concat json (four ∷ four ∷ []) ≡ rendered json (elements ++ elements)
kql_array_concat-rendered_example =
    kql_array_concat-rendered json (four ∷ four ∷ []) (elements ++ elements) (omega arith)
      (omega arith)
      (elements, elements, four_decodes, refl, (elements, [], four_decodes, refl, refl))
      (omega arith) (omega arith)
