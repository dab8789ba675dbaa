-- ===== src/Kql/Punycode/Delta.antt =====
-- The numbers that the inner loop of punycodeDecode reads.
use striem.Common.{
  ℕ, suc, ◌+◌, ◌-◌, ◌*◌, ◌/◌, ◌≤◌, ◌<◌, ◌≡◌, false, [], ◌∷◌, Option, none, some, ltb, length,
  Bool-cases, Option-cases, inl, inr, arith,
}
use mathlib.Core.Path.{subst}
use native.Mathlib.Nat.{le-div_iff_mul-le}
use striem.Common.Text.{Text}
use striem.Kql.Punycode.{limit, punycode_threshold, digit_value, read_delta}

-- A read number is an int32, not below the one before, and takes a digit at least.
abbrev IsDelta : ℕ → ℕ → Option (ℕ × Text) → Type 0
IsDelta i n none = Unit {0}
IsDelta i n (some (next, rest)) = (i ≤ next) × (next ≤ limit) × (length rest < n)

IsDelta-weaken :
    {i j m n : ℕ} (r : Option (ℕ × Text)) → i ≤ j → m ≤ n → IsDelta j m r → IsDelta i n r
IsDelta-weaken none p q h = tt
IsDelta-weaken (some (next, rest)) p q h =
    (omega (arith, p, h), omega (arith, h), omega (arith, q, h))

pub punycode_threshold_bounds :
    (k bias : ℕ) → (1 ≤ punycode_threshold k bias) × (punycode_threshold k bias ≤ 26)
unfolding punycode_threshold
punycode_threshold_bounds k bias = ground arith

-- A digit that passes the test does not leave int32.
within_limit :
    (i w digit : ℕ)
    → 1 ≤ w
    → i ≤ limit
    → ltb ((limit - i) / w) digit ≡ false
    → i + digit * w ≤ limit
within_limit i w digit h le small =
    let product =
      (le-div_iff_mul-le {k = w} {x = digit} {y = limit - i} h).0 (ground (arith, small)) in
    omega (arith, le, product)

read_delta-IsDelta :
    (bias k i w : ℕ) (s : Text) → 1 ≤ w → i ≤ limit → IsDelta i (length s) (read_delta bias k i w s)
unfolding read_delta
read_delta-IsDelta bias k i w [] h le = tt
read_delta-IsDelta bias k i w (c ∷ s) h le = elim (Option-cases (digit_value c)) [
  | inl bad ↦ rw (read_delta, bad) tt
  | inr (digit, good) ↦ elim (Bool-cases (ltb ((limit - i) / w) digit)) [
    | inl large ↦ rw (read_delta, good, large) tt
    | inr small ↦ elim (Bool-cases (ltb digit (punycode_threshold k bias))) [
      | inl last ↦
          rw (read_delta, good, small, last)
            (omega arith, within_limit i w digit h le small, omega arith)
      | inr more ↦ elim (Bool-cases (ltb (limit / (36 - punycode_threshold k bias)) w)) [
        | inl heavy ↦ rw (read_delta, good, small, more, heavy) tt
        | inr light ↦
            rw (read_delta, good, small, more, light)
              (IsDelta-weaken
                (read_delta bias (k + 36) (i + digit * w) (w * (36 - punycode_threshold k bias)) s)
                (omega arith) (omega arith)
                (read_delta-IsDelta bias (k + 36) (i + digit * w)
                  (w * (36 - punycode_threshold k bias)) s
                  (weight w (punycode_threshold k bias) h (punycode_threshold_bounds k bias).1)
                  (within_limit i w digit h le small)))
      ]
    ]
  ]
]
  where
    weight : (w t : ℕ) → 1 ≤ w → t ≤ 26 → 1 ≤ w * (36 - t)
    weight w t h le = grind (arith, h, le)

pub read_delta-lt :
    (bias i c next : ℕ) (s rest : Text)
    → i ≤ limit
    → read_delta bias 36 i 1 (c ∷ s) ≡ some (next, rest)
    → length rest < suc (length s)
read_delta-lt bias i c next s rest le read =
    (subst (IsDelta i (suc (length s))) read
      (read_delta-IsDelta bias 36 i 1 (c ∷ s) (omega arith) le)).2
