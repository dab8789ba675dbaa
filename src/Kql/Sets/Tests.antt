-- ===== src/Kql/Sets/Tests.antt =====
-- Sets of digits, and the theorems on them.
use striem.Common.{
  ◌+◌, ◌*◌, ◌≡◌, ◌≢◌, refl, ◌↔◌, true, List, [], ◌∷◌, Option, none, some, ◌==◌, if◌then◌else◌,
}
use striem.Common.Int.{pos, ◌+ℤ◌, ◌-ℤ◌, wrap64}
use striem.Common.Decimal.{decimal, format_int}
use striem.Common.Text.{Text, codes, same, has_text, sort_texts}
use striem.Common.Result.{ok, err}
use striem.Kql.Value.{Value, text, boolean, real}
use striem.Kql.Array.Elements.{
  Json, Ending, closed, unclosed, dynamic_array, append_array_element, append_all, rendered,
}
use striem.Kql.Array.Concat.{max_replacement_work}
use striem.Kql.Scalar.{normalize_number, decode_json_search_scalar}
use striem.Kql.Sets.Key.{
  Tokens, Token, open_array, close_array, open_object, close_object, string_token, number_token,
  boolean_token, unfinished, set_value_key, frame_set_key, frame_properties, property_of,
}
use striem.Kql.Sets.Dynamic.{DynamicSet, has_key, add, read_dynamic_set}
use striem.Kql.Sets.Operations.{
  set_union, set_intersect, combine, lifted, first_set, kql_set_operation, both_sets,
  kql_set_equals, kql_jaccard_index,
}
use striem.Kql.Sets.Finishes.{set_value_key-ne-unfinished}
use striem.Kql.Sets.Shown.{raws_of, ShowsAll}
use striem.Kql.Sets.Results.{IsJoined, kql_set_operation-IsJoined}
use striem.Kql.Sets.Compare.{kql_set_equals-has_key}
use striem.Kql.Sets.Jaccard.{kql_jaccard_index-combine}

abbrev digits : Text → List Text × Ending
digits [] = ([], unclosed)
digits (c ∷ s) =
    let (es, ending) = digits s in
    if c == 93 then ([], closed) else if c == 44 then (es, ending) else ((c ∷ []) ∷ es, ending)

abbrev scan_digits : Text → Option (List Text × Ending)
scan_digits [] = none
scan_digits (c ∷ s) = some (digits s)

abbrev json : Json
json = record { valid = λ _. true; scan = scan_digits; compact = some }

-- The tokens of `[[],{"b":1,"a":true}]`, whatever the text.
abbrev nested : List Token
nested =
    open_array
    ∷ open_array
    ∷ close_array
    ∷ open_object
    ∷ string_token (codes "b")
    ∷ number_token (codes "1")
    ∷ string_token (codes "a")
    ∷ boolean_token true
    ∷ close_object
    ∷ close_array
    ∷ []

abbrev decoder : Tokens
decoder = record {
  parser = record { parse_int = λ _. some (pos 0); unmarshal_text = some };
  tokens = λ _. nested;
}

abbrev of_array : Value
of_array = text (codes "[1,2,2,3]")

abbrev of_other : Value
of_other = text (codes "[3,4,1]")

nested_key :
    set_value_key decoder (codes "[[],{}]") 1000 ≡ ok (codes "a[3:a[]20:o{1:a2:b11:b5:n+1:0}]", 927)
unfolding set_value_key frame_set_key decimal normalize_number ◌+ℤ◌ format_int wrap64 ◌-ℤ◌ same
    frame_properties sort_texts
nested_key = refl

-- What the arrays are read as.
abbrev first_set_read : DynamicSet
first_set_read = record {
  values =
      (codes "n+1:0", codes "1") ∷ (codes "n+2:0", codes "2") ∷ (codes "n+3:0", codes "3") ∷ [];
  order = codes "n+1:0" ∷ codes "n+2:0" ∷ codes "n+3:0" ∷ [];
  size = 18;
}

abbrev other_set_read : DynamicSet
other_set_read = record {
  values =
      (codes "n+3:0", codes "3") ∷ (codes "n+4:0", codes "4") ∷ (codes "n+1:0", codes "1") ∷ [];
  order = codes "n+3:0" ∷ codes "n+4:0" ∷ codes "n+1:0" ∷ [];
  size = 18;
}

first_reads :
    read_dynamic_set decoder json of_array max_replacement_work
    ≡ ok (some (first_set_read, 67_108_827))
unfolding read_dynamic_set dynamic_array set_value_key normalize_number decode_json_search_scalar
    ◌+ℤ◌ format_int wrap64 ◌-ℤ◌ same decimal add has_text
first_reads = refl

other_reads :
    read_dynamic_set decoder json of_other 67_108_827 ≡ ok (some (other_set_read, 67_108_799))
unfolding read_dynamic_set dynamic_array set_value_key normalize_number decode_json_search_scalar
    ◌+ℤ◌ format_int wrap64 ◌-ℤ◌ same decimal add has_text
other_reads = refl

intersects :
    kql_set_operation decoder json set_intersect (of_array ∷ of_other ∷ [])
    ≡ ok (text (codes "[1,3]"))
unfolding kql_set_operation first_set read_dynamic_set dynamic_array set_value_key normalize_number
    decode_json_search_scalar ◌+ℤ◌ format_int wrap64 ◌-ℤ◌ same decimal add combine rendered
    append_all append_array_element property_of has_text
intersects = refl

set_value_key-ne-unfinished_example : set_value_key decoder (codes "[[],{}]") 1000 ≢ err unfinished
set_value_key-ne-unfinished_example = set_value_key-ne-unfinished decoder (codes "[[],{}]") 1000

kql_set_operation-IsJoined_example :
    (final : DynamicSet) × IsJoined set_intersect first_set_read (other_set_read ∷ []) final
    × ((entries : List (Text × Text)) × ShowsAll final entries
        × (lifted (rendered json (raws_of entries)) ≡ ok (text (codes "[1,3]"))))
kql_set_operation-IsJoined_example =
    kql_set_operation-IsJoined decoder json set_intersect of_array (of_other ∷ []) first_set_read
      (other_set_read ∷ []) (text (codes "[1,3]"))
      (67_108_827, first_reads, (67_108_799, other_reads, tt)) intersects

both_read : both_sets decoder json of_array of_other ≡ ok (some (first_set_read, other_set_read))
unfolding both_sets
both_read = rw (first_reads, other_reads) refl

kql_set_equals-has_key_example :
    (kql_set_equals decoder json of_array of_other ≡ ok (boolean true))
    ↔ ((s : Text) → has_key s first_set_read ≡ has_key s other_set_read)
kql_set_equals-has_key_example =
    kql_set_equals-has_key decoder json of_array of_other first_set_read other_set_read both_read

abbrev common_set : DynamicSet
common_set = record {
  values = (codes "n+1:0", codes "1") ∷ (codes "n+3:0", codes "3") ∷ [];
  order = codes "n+1:0" ∷ codes "n+2:0" ∷ codes "n+3:0" ∷ [];
  size = 12;
}

abbrev joined_set : DynamicSet
joined_set = record {
  values =
      (codes "n+1:0", codes "1")
      ∷ (codes "n+2:0", codes "2")
      ∷ (codes "n+3:0", codes "3")
      ∷ (codes "n+4:0", codes "4")
      ∷ [];
  order = codes "n+1:0" ∷ codes "n+2:0" ∷ codes "n+3:0" ∷ codes "n+4:0" ∷ [];
  size = 24;
}

common_values : combine set_intersect first_set_read other_set_read ≡ ok common_set
unfolding combine same has_text
common_values = refl

joined_values : combine set_union first_set_read other_set_read ≡ ok joined_set
unfolding combine same has_text
joined_values = refl

kql_jaccard_index-combine_example :
    kql_jaccard_index (λ a b. 10 * a + b) decoder json of_array of_other ≡ ok (real 24)
kql_jaccard_index-combine_example =
    kql_jaccard_index-combine (λ a b. 10 * a + b) decoder json of_array of_other first_set_read
      other_set_read common_set joined_set both_read common_values joined_values
