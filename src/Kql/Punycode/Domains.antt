-- ===== src/Kql/Punycode/Domains.antt =====
-- `splitDomainLabels` and the SQL functions punycode_from_string, punycode_to_string,
-- punycode_domain_to_string and punycode_domain_from_string, on bytes.
use striem.Common.{
  ℕ, Bool, true, false, not, ◌&&◌, ◌||◌, List, [], ◌∷◌, ◌++◌, Option, none, some, ltb, ◌==◌,
  if◌then◌else◌, length, take, drop,
}
use striem.Common.Text.{Text, codes, split_on}
use striem.Kql.Value.{Value, null, text, blob}
use striem.Kql.Punycode.{
  Outcome, done, failed, unfinished, is_ascii, punycode_encode, punycode_decode,
}

-- The runes of a text, none where it is not UTF-8, the text of runes, `strings.EqualFold`, and
-- whether the driver passes a blob as a nil slice, its NULL.
pub record Strings : Type 0 where
  pub runes_of : Text → Option Text
  pub of_runes : Text → Text
  pub equal_fold : Text → Text → Bool
  pub nil_blob : Text → Bool

-- `textArgument` where `sqliteNull` is false.
unfoldable pub text_argument : Strings → Value → Option Text
text_argument st (text s) = some s
text_argument st (blob b) = if st.nil_blob b then none else some b
text_argument st _ = none

-- A failure is an empty text.
abbrev pub encoded_text : Outcome → Text
encoded_text (done output) = output
encoded_text failed = []
encoded_text unfinished = []

abbrev pub decoded_text : Strings → Outcome → Text
decoded_text st (done output) = st.of_runes output
decoded_text st failed = []
decoded_text st unfinished = []

abbrev pub for_text : (Text → Value) → Option Text → Value
for_text next none = null
for_text next (some s) = next s

unfoldable pub kql_punycode_from_string : Strings → Value → Value
unfolding text_argument
kql_punycode_from_string st v =
    for_text (λ s. text (encoded_text (punycode_encode st.runes_of s))) (text_argument st v)

unfoldable pub kql_punycode_to_string : Strings → Value → Value
unfolding text_argument
kql_punycode_to_string st v =
    for_text (λ s. text (decoded_text st (punycode_decode s))) (text_argument st v)

-- The bytes of an ideographic or wide full stop.
abbrev pub is_wide_dot : ℕ → ℕ → ℕ → Bool
is_wide_dot a b c =
    (a == 0xe3 && b == 0x80 && c == 0x82)
    || (a == 0xef && b == 0xbc && c == 0x8e)
    || (a == 0xef && b == 0xbd && c == 0xa1)

unfoldable pub with_dots : Text → Text
with_dots [] = []
with_dots (a ∷ []) = a ∷ []
with_dots (a ∷ b ∷ []) = a ∷ b ∷ []
with_dots (a ∷ b ∷ c ∷ s) = elim (is_wide_dot a b c) [
  | true ↦ 46 ∷ with_dots s
  | false ↦ a ∷ with_dots (b ∷ c ∷ s)
]

unfoldable pub split_domain_labels : Text → List Text
unfolding with_dots
split_domain_labels domain = split_on 46 (with_dots domain)

-- `strings.Join` with dots.
unfoldable pub join_labels : List Text → Text
join_labels [] = []
join_labels (l ∷ []) = l
join_labels (l ∷ m ∷ ls) = l ++ 46 ∷ join_labels (m ∷ ls)

-- The loops over the labels; none where one fails.
abbrev pub label_then : Text → Option (List Text) → Option (List Text)
label_then l none = none
label_then l (some ls) = some (l ∷ ls)

abbrev pub encoded_label : Outcome → Option (List Text) → Option (List Text)
encoded_label (done output) rest = label_then (codes "xn--" ++ output) rest
encoded_label failed rest = none
encoded_label unfinished rest = none

unfoldable pub encode_labels : Strings → List Text → Option (List Text)
encode_labels st [] = some []
encode_labels st (l ∷ ls) =
    let rest = encode_labels st ls in
    if is_ascii l then label_then l rest else encoded_label (punycode_encode st.runes_of l) rest

abbrev pub decoded_label : Strings → Outcome → Option (List Text) → Option (List Text)
decoded_label st (done output) rest = label_then (st.of_runes output) rest
decoded_label st failed rest = none
decoded_label st unfinished rest = none

unfoldable pub decode_labels : Strings → List Text → Option (List Text)
decode_labels st [] = some []
decode_labels st (l ∷ ls) =
    let rest = decode_labels st ls in
    if ltb (length l) 4 || not (st.equal_fold (take 4 l) (codes "xn--"))
    then label_then l rest
    else decoded_label st (punycode_decode (drop 4 l)) rest

abbrev pub joined_or_empty : Option (List Text) → Value
joined_or_empty none = text []
joined_or_empty (some ls) = text (join_labels ls)

unfoldable pub kql_punycode_domain_to_string : Strings → Value → Value
unfolding text_argument split_domain_labels encode_labels join_labels
kql_punycode_domain_to_string st v =
    for_text (λ s. joined_or_empty (encode_labels st (split_domain_labels s))) (text_argument st v)

unfoldable pub kql_punycode_domain_from_string : Strings → Value → Value
unfolding text_argument decode_labels join_labels
kql_punycode_domain_from_string st v =
    for_text (λ s. joined_or_empty (decode_labels st (split_on 46 s))) (text_argument st v)
