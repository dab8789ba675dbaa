-- ===== src/Kql/Punycode/Labels.antt =====
-- A domain of ASCII is kept by punycode_domain_to_string.
use striem.Common.{
  ℕ, ◌≡◌, refl, sym, ap, ◌∙◌, true, false, List, [], ◌∷◌, some, ◌==◌, if◌then◌else◌, Bool-cases,
  inl, inr, arith, ==_iff,
}
use striem.Common.Text.{Text, split_on, split_cons}
use striem.Kql.Value.{text}
use striem.Kql.Punycode.{is_ascii}
use striem.Kql.Punycode.Domains.{
  Strings, is_wide_dot, with_dots, join_labels, encode_labels, joined_or_empty,
  kql_punycode_domain_to_string,
}

abbrev AreAscii : List Text → Type 0
AreAscii [] = Unit {0}
AreAscii (l ∷ ls) = (is_ascii l ≡ true) × AreAscii ls

with_dots-ascii : (s : Text) → is_ascii s ≡ true → with_dots s ≡ s
unfolding with_dots
with_dots-ascii [] h = refl
with_dots-ascii (a ∷ []) h = refl
with_dots-ascii (a ∷ b ∷ []) h = refl
with_dots-ascii (a ∷ b ∷ c ∷ s) h =
    let narrow : is_wide_dot a b c ≡ false = ground (arith, h) in
    rw (with_dots, narrow) (ap (λ t. a ∷ t) (with_dots-ascii (b ∷ c ∷ s) (ground (arith, h))))

join_labels-split_cons :
    (c : ℕ) (ls : List Text) → join_labels (split_cons c ls) ≡ c ∷ join_labels ls
unfolding join_labels
join_labels-split_cons c [] = refl
join_labels-split_cons c (l ∷ []) = refl
join_labels-split_cons c (l ∷ m ∷ ls) = refl

split_step : (c : ℕ) (parts : List Text) → List Text
split_step c parts = if c == 46 then [] ∷ parts else split_cons c parts

-- A text has a part at least.
abbrev IsCovered : Text → List Text → Type 0
IsCovered s [] = ⊥
IsCovered s (l ∷ ls) = (join_labels (l ∷ ls) ≡ s) × (is_ascii s ≡ true → AreAscii (l ∷ ls))

split_step-IsCovered :
    (c : ℕ) (s : Text) (parts : List Text)
    → IsCovered s parts
    → IsCovered (c ∷ s) (split_step c parts)
unfolding split_step join_labels
split_step-IsCovered c s [] h = absurd h
split_step-IsCovered c s (l ∷ ls) (joins, ascii) = elim (Bool-cases (c == 46)) [
  | inl dot ↦
      rw (split_step, dot)
        (
          ap (λ t. 46 ∷ t) joins ∙ ap (λ d. d ∷ s) (sym ((==_iff c 46).0 dot)),
          λ h. (refl, ascii (ground (arith, h))),
        )
  | inr other ↦
      rw (split_step, other)
        (
          join_labels-split_cons c (l ∷ ls) ∙ ap (λ t. c ∷ t) joins,
          λ h. (ground (arith, h, (ascii (ground (arith, h))).0), (ascii (ground (arith, h))).1),
        )
]

split_on-IsCovered : (s : Text) → IsCovered s (split_on 46 s)
unfolding split_on split_step join_labels
split_on-IsCovered [] = (refl, λ h. (refl, tt))
split_on-IsCovered (c ∷ s) = split_step-IsCovered c s (split_on 46 s) (split_on-IsCovered s)

encode_labels-ascii : (st : Strings) (ls : List Text) → AreAscii ls → encode_labels st ls ≡ some ls
unfolding encode_labels
encode_labels-ascii st [] h = refl
encode_labels-ascii st (l ∷ ls) h = rw (encode_labels, h.0, encode_labels-ascii st ls h.1) refl

domain_lem :
    (st : Strings) (s : Text) (parts : List Text)
    → is_ascii s ≡ true
    → IsCovered s parts
    → joined_or_empty (encode_labels st parts) ≡ text s
domain_lem st s [] h covered = absurd covered
domain_lem st s (l ∷ ls) h (joins, ascii) =
    ap joined_or_empty (encode_labels-ascii st (l ∷ ls) (ascii h)) ∙ ap text joins

-- A domain that is ASCII is given back by punycode_domain_to_string as it is.
kql_punycode_domain_to_string-ascii :
    (st : Strings) (s : Text)
    → is_ascii s ≡ true
    → kql_punycode_domain_to_string st (text s) ≡ text s
unfolding kql_punycode_domain_to_string
kql_punycode_domain_to_string-ascii st s h =
    ap (λ t. joined_or_empty (encode_labels st (split_on 46 t))) (with_dots-ascii s h)
    ∙ domain_lem st s (split_on 46 s) h (split_on-IsCovered s)
