-- ===== src/Kql/Punycode/Tests.antt =====
-- Punycode of small texts, and the theorems on it.
use striem.Kql.Value.{text}
use striem.Kql.Punycode.Domains.{
  Strings, kql_punycode_domain_to_string, kql_punycode_domain_from_string,
}
use striem.Common.{◌≡◌, refl, false, ◌++◌, [], ◌∷◌, Option, some, arith}
use mathlib.Core.Path.{subst}
use striem.Common.Text.{Text, codes, same, split_on}
use striem.Kql.Punycode.{
  done, failed, punycode_encode, punycode_decode, read_delta, digit_value, punycode_threshold,
  punycode_adapt, put_digits, encode_pass, encode_rune, least_rune,
}
use striem.Kql.Punycode.Decode.{Decodes, punycode_decode-Decodes}
use striem.Kql.Punycode.Round.{punycode_decode-encode}
use striem.Kql.Punycode.Handled.{AreRunes}
use striem.Kql.Punycode.Encode.{Encodes, punycode_encode-Encodes}

-- bücher
abbrev runes : Text
runes = 98 ∷ 252 ∷ 99 ∷ 104 ∷ 101 ∷ 114 ∷ []

encodes : punycode_encode (λ _. some runes) (codes "bu.cher") ≡ done (codes "bcher-kva")
unfolding punycode_encode encode_pass encode_rune put_digits punycode_threshold punycode_adapt
    least_rune
encodes = refl

decodes : punycode_decode (codes "bcher-kva") ≡ done runes
unfolding punycode_decode read_delta digit_value punycode_threshold punycode_adapt
decodes = refl

refuses : punycode_decode (codes "99999999") ≡ failed
unfolding punycode_decode read_delta digit_value punycode_threshold punycode_adapt
refuses = refl

punycode_decode-Decodes_example : Decodes 9 (punycode_decode (codes "bcher-kva"))
punycode_decode-Decodes_example = punycode_decode-Decodes (codes "bcher-kva")

are_runes : (rs : Text) → Path (Option Text) (some runes) (some rs) → AreRunes rs
are_runes rs h =
    let eq : runes ≡ rs = cc h in
    subst AreRunes eq
      (omega arith, (omega arith, (omega arith, (omega arith, (omega arith, (omega arith, tt))))))

punycode_encode-Encodes_example : Encodes (punycode_encode (λ _. some runes) (codes "bu.cher"))
punycode_encode-Encodes_example =
    punycode_encode-Encodes (λ _. some runes) (codes "bu.cher") are_runes

abbrev strings : Strings
strings = record {
  runes_of = λ _. some runes;
  of_runes = λ rs. rs;
  equal_fold = same;
  nil_blob = λ b. false;
}

-- The label with an umlaut, an ideographic full stop, and de.
domain_encodes :
    kql_punycode_domain_to_string strings
      (text (98 ∷ 0xc3 ∷ 0xbc ∷ 99 ∷ 104 ∷ 101 ∷ 114 ∷ 0xe3 ∷ 0x80 ∷ 0x82 ∷ 100 ∷ 101 ∷ []))
    ≡ text (codes "xn--bcher-kva.de")
unfolding kql_punycode_domain_to_string split_on punycode_encode encode_pass encode_rune put_digits
    punycode_threshold punycode_adapt least_rune
domain_encodes = refl

domain_decodes :
    kql_punycode_domain_from_string strings (text (codes "xn--bcher-kva.de"))
    ≡ text (runes ++ codes ".de")
unfolding kql_punycode_domain_from_string split_on same punycode_decode read_delta digit_value
    punycode_threshold punycode_adapt
domain_decodes = refl

punycode_decode-encode_example :
    (encoded : Text) × (punycode_encode (λ t. some t) (codes "ab-c") ≡ done encoded)
    × (punycode_decode encoded ≡ done (codes "ab-c"))
punycode_decode-encode_example =
    punycode_decode-encode (λ t. some t) (codes "ab-c") refl refl (omega arith)
