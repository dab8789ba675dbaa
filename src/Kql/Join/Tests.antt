-- ===== src/Kql/Join/Tests.antt =====
-- Joins of short texts, and the theorems on them.
use striem.Common.{◌≡◌, refl, true, List, [], ◌∷◌, some, arith}
use striem.Common.Int.{pos}
use striem.Common.Text.{codes, same}
use striem.Common.Result.{ok, err}
use striem.Kql.Value.{Value, null, text, integer}
use striem.Kql.Array.Elements.{Json, closed, dynamic_array}
use striem.Kql.Join.{Driver, text_of, strcat_delim, strcat_array, strrep, bad_arity}
use striem.Kql.Join.Limits.{joined, bounded, strcat_delim_lem}

abbrev driver : Driver
driver = record {
  valid = λ s. true;
  nil_blob = λ b. true;
  trim = λ s. s;
  unmarshal = λ s. some (codes "text");
}

abbrev three : List Value
three = text (codes "ab") ∷ null ∷ text (codes "c") ∷ []

joins : strcat_delim driver (text (codes "-")) three ≡ ok (text (codes "ab--c"))
unfolding strcat_delim
joins = refl

one_value : strcat_delim driver (text (codes "-")) (null ∷ []) ≡ err bad_arity
unfolding strcat_delim
one_value = refl

abbrev elements : Json
elements = record {
  valid = λ s. true;
  scan = λ s. some (codes "12" ∷ codes "null" ∷ codes "\"a\"" ∷ [], closed);
  compact = λ s. some s;
}

joins_array :
    strcat_array driver elements (text (codes "[]")) (text (codes ","))
    ≡ ok (text (codes "12,,text"))
unfolding strcat_array dynamic_array same
joins_array = refl

repeats :
    strrep driver (text (codes "ab")) (integer (pos 3)) (text (codes "-"))
    ≡ ok (text (codes "ab-ab-ab"))
unfolding strrep
repeats = refl

strcat_delim_lem_example :
    strcat_delim driver (text (codes "-")) three
    ≡ bounded (joined (codes "-") (codes "ab" ∷ [] ∷ codes "c" ∷ []))
unfolding text_of
strcat_delim_lem_example =
    strcat_delim_lem driver (codes "-") three (codes "ab" ∷ [] ∷ codes "c" ∷ []) refl (omega arith)
      (omega arith) (omega arith) (refl, (refl, (refl, tt)))
