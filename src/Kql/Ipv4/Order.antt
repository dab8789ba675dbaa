-- ===== src/Kql/Ipv4/Order.antt =====
-- How `ipv4_compare` and `ipv4_is_match` behave when arguments are swapped and masks shortened.
use native.Mathlib.Nat.{zero-add, one-mul, one-le-pow, mul-div_cancel, div-div-eq-div-mul, pow-suc}
use striem.Common.{
  ℕ, zero, suc, ◌+◌, ◌-◌, ◌*◌, ◌/◌, ◌^◌, ◌≤◌, ◌<◌, ◌≡◌, refl, true, false, ltb, if◌then◌else◌,
  arith, sym, ap, ◌∙◌, List, [], ◌∷◌, Option, none, some, Option-cases,
}
use striem.Common.Int.{ℤ, pos, negsuc}
use striem.Kql.Value.{Value, null, integer, boolean}
use striem.Kql.Ipv4.Netip.{masked}
use striem.Kql.Ipv4.Functions.{
  ipv4_bits, ipv4_prefix, effective_prefix, less, compare_ipv4, kql_ipv4_is_match,
}

abbrev pub opposite : Option ℤ → Option ℤ
opposite none = none
opposite (some (pos zero)) = some (pos 0)
opposite (some (pos (suc n))) = some (negsuc n)
opposite (some (negsuc n)) = some (pos (suc n))

abbrev shorter : ℕ → ℕ → ℕ
shorter p q = if ltb q p then q else p

-- The order of two parsed addresses under the prefix that the masks leave.
abbrev ordered : ℕ → ℕ → Option ℕ → Option ℤ
ordered a b none = none
ordered a b (some k) = some (less (masked a k) (masked b k))

abbrev compare_parsed : Option (ℕ × ℕ) → Option (ℕ × ℕ) → List Value → Option ℤ
compare_parsed none right masks = none
compare_parsed (some (a, p)) none masks = none
compare_parsed (some (a, p)) (some (b, q)) masks =
    ordered a b (effective_prefix (shorter p q) masks)

compare_ipv4-parsed :
    (left right : Value) (masks : List Value)
    → compare_ipv4 left right masks ≡ compare_parsed (ipv4_bits left) (ipv4_bits right) masks
unfolding compare_ipv4
compare_ipv4-parsed left right masks =
    ground (arith, Option-cases (ipv4_bits left), Option-cases (ipv4_bits right))

less_sym : (a b : ℕ) → some (less b a) ≡ opposite (some (less a b))
less_sym a b = ground arith

ordered-opposite :
    (a b : ℕ) (prefix : Option ℕ) → ordered b a prefix ≡ opposite (ordered a b prefix)
ordered-opposite a b none = refl
ordered-opposite a b (some k) = less_sym (masked a k) (masked b k)

parsed_opposite :
    (x y : Option (ℕ × ℕ)) (masks : List Value)
    → compare_parsed y x masks ≡ opposite (compare_parsed x y masks)
parsed_opposite none none masks = refl
parsed_opposite none (some (b, q)) masks = refl
parsed_opposite (some (a, p)) none masks = refl
parsed_opposite (some (a, p)) (some (b, q)) masks =
    let swap : shorter q p ≡ shorter p q = ground arith in
    rw swap (ordered-opposite a b (effective_prefix (shorter p q) masks))

-- Swapped arguments give the opposite order, and fail together.
pub compare_ipv4-opposite :
    (left right : Value) (masks : List Value)
    → compare_ipv4 right left masks ≡ opposite (compare_ipv4 left right masks)
compare_ipv4-opposite left right masks =
    rw (compare_ipv4-parsed left right masks, compare_ipv4-parsed right left masks)
      (parsed_opposite (ipv4_bits left) (ipv4_bits right) masks)

pow_parts : (m n : ℕ) → 2 ^ (m + n) ≡ 2 ^ m * 2 ^ n
pow_parts zero n = ap (λ k. 2 ^ k) (zero-add n) ∙ sym (one-mul (2 ^ n))
pow_parts (suc m) n = grind (arith, pow_parts m n, pow-suc 2 (m + n), pow-suc 2 m)

-- A shorter prefix keeps less of an address.
masked_shorter : (a b p q : ℕ) → q ≤ p → masked a p ≡ masked b p → masked a q ≡ masked b q
unfolding masked
masked_shorter a b p q h e =
    let m = 2 ^ (32 - p) in
    let positive : 0 < m = one-le-pow (32 - p) 2 (omega arith) in
    let upper : a / m ≡ b / m =
      sym (mul-div_cancel (a / m) positive) ∙ ap (λ v. v / m) e ∙ mul-div_cancel (b / m) positive in
    let split : 2 ^ (32 - q) ≡ m * 2 ^ (32 - q - (32 - p)) =
      ap (λ k. 2 ^ k) (omega arith) ∙ pow_parts (32 - p) (32 - q - (32 - p)) in
    rw
      (
        split,
        sym (div-div-eq-div-mul a m (2 ^ (32 - q - (32 - p)))),
        sym (div-div-eq-div-mul b m (2 ^ (32 - q - (32 - p)))),
        upper,
      )
      refl

-- The match of two parsed addresses under a mask.
abbrev matched : Option ℤ → Value
matched none = null
matched (some (pos zero)) = boolean true
matched (some _) = boolean false

matched_lem :
    (x y : Option (ℕ × ℕ)) (p q : ℕ)
    → q ≤ p
    → matched (compare_parsed x y (integer (pos p) ∷ [])) ≡ boolean true
    → matched (compare_parsed x y (integer (pos q) ∷ [])) ≡ boolean true
unfolding effective_prefix ipv4_prefix
matched_lem none y p q h m = cc
matched_lem (some (a, i)) none p q h m = cc
matched_lem (some (a, i)) (some (b, j)) p q h m =
    let coarser =
      masked_shorter a b (shorter (shorter i j) p) (shorter (shorter i j) q) (ground arith) in
    ground (arith, coarser)

kql_ipv4_is_match-matched :
    (left right : Value) (masks : List Value)
    → kql_ipv4_is_match left right masks ≡ matched (compare_ipv4 left right masks)
unfolding kql_ipv4_is_match
kql_ipv4_is_match-matched left right masks = refl

-- Addresses that match under a mask match under every shorter mask.
pub is_match_shorter :
    (left right : Value) (p q : ℕ)
    → q ≤ p
    → kql_ipv4_is_match left right (integer (pos p) ∷ []) ≡ boolean true
    → kql_ipv4_is_match left right (integer (pos q) ∷ []) ≡ boolean true
is_match_shorter left right p q h m =
    let is_matched : (k : ℕ)
        → kql_ipv4_is_match left right (integer (pos k) ∷ [])
          ≡ matched (compare_parsed (ipv4_bits left) (ipv4_bits right) (integer (pos k) ∷ [])) =
      λ k.
        kql_ipv4_is_match-matched left right (integer (pos k) ∷ [])
        ∙ ap matched (compare_ipv4-parsed left right (integer (pos k) ∷ [])) in
    is_matched q ∙ matched_lem (ipv4_bits left) (ipv4_bits right) p q h (sym (is_matched p) ∙ m)
