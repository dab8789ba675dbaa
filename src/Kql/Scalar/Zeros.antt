-- ===== src/Kql/Scalar/Zeros.antt =====
-- Zeros at the ends of digits.
use striem.Common.{
  ℕ, zero, suc, ◌+◌, ◌<◌, ◌≡◌, refl, sym, ◌∙◌, ap, inl, inr, Bool, false, [], ◌∷◌, ◌++◌, ◌==◌,
  length, replicate, Bool-cases, ==_iff, arith,
}
use mathlib.Core.List.{reverse, reverse-append, reverse-reverse, append_assoc}
use striem.Common.Text.{Text}
use striem.Kql.Scalar.{trim_zeros, trim_right_zeros}

abbrev pub zeros : ℕ → Text
zeros k = replicate k 48

abbrev pub starts_with_zero : Text → Bool
starts_with_zero [] = false
starts_with_zero (c ∷ s) = c == 48

pub trim_zeros_lem : (s : Text) → (k : ℕ) × (s ≡ zeros k ++ trim_zeros s)
unfolding trim_zeros
trim_zeros_lem [] = (0, refl)
trim_zeros_lem (c ∷ s) = elim (Bool-cases (c == 48)) [
  | inl here ↦ let (k, eq) = trim_zeros_lem s in (suc k, rw here (cc ((==_iff c 48).0 here, eq)))
  | inr other ↦ (0, rw other refl)
]

pub starts_with_zero-trim_zeros : (s : Text) → starts_with_zero (trim_zeros s) ≡ false
unfolding trim_zeros
starts_with_zero-trim_zeros [] = refl
starts_with_zero-trim_zeros (c ∷ s) = elim (Bool-cases (c == 48)) [
  | inl here ↦ rw here (starts_with_zero-trim_zeros s)
  | inr other ↦ rw other other
]

zeros-append : (k : ℕ) → zeros k ++ 48 ∷ [] ≡ zeros (suc k)
zeros-append zero = refl
zeros-append (suc k) = ap (λ s. 48 ∷ s) (zeros-append k)

pub length-zeros : (k : ℕ) → length (zeros k) ≡ k
length-zeros zero = refl
length-zeros (suc k) = ap suc (length-zeros k)

reverse-zeros : (k : ℕ) → reverse (zeros k) ≡ zeros k
reverse-zeros zero = refl
reverse-zeros (suc k) =
    reverse-append (48 ∷ []) (zeros k) ∙ ap (λ s. s ++ 48 ∷ []) (reverse-zeros k) ∙ zeros-append k

pub trim_right_zeros_lem : (s : Text) → (k : ℕ) × (s ≡ trim_right_zeros s ++ zeros k)
unfolding trim_right_zeros
trim_right_zeros_lem s =
    let (k, eq) = trim_zeros_lem (reverse s) in
    (
      k,
      sym (reverse-reverse s)
          ∙ ap reverse eq
          ∙ reverse-append (zeros k) (trim_zeros (reverse s))
          ∙ ap (λ t. reverse (trim_zeros (reverse s)) ++ t) (reverse-zeros k),
    )

ends_with_zero-trim_right_zeros :
    (s : Text) → starts_with_zero (reverse (trim_right_zeros s)) ≡ false
unfolding trim_right_zeros
ends_with_zero-trim_right_zeros s =
    ap starts_with_zero (reverse-reverse (trim_zeros (reverse s)))
    ∙ starts_with_zero-trim_zeros (reverse s)

starts_with_zero-append :
    (s t : Text) → starts_with_zero (s ++ t) ≡ false → starts_with_zero s ≡ false
starts_with_zero-append [] t h = refl
starts_with_zero-append (c ∷ s) t h = h

-- Neither end of the digits is a zero.
abbrev pub IsTrimmed : Text → Type 0
IsTrimmed digits = (starts_with_zero digits ≡ false) × (starts_with_zero (reverse digits) ≡ false)

pub trim_right_zeros-IsTrimmed :
    (value : Text) → starts_with_zero value ≡ false → IsTrimmed (trim_right_zeros value)
trim_right_zeros-IsTrimmed value front =
    let (k, eq) = trim_right_zeros_lem value in
    (
      starts_with_zero-append (trim_right_zeros value) (zeros k)
          (ap starts_with_zero (sym eq) ∙ front),
      ends_with_zero-trim_right_zeros value,
    )

starts_with_zero-zeros : (k : ℕ) → starts_with_zero (zeros k) ≡ false → zeros k ≡ []
starts_with_zero-zeros zero h = refl
starts_with_zero-zeros (suc k) h = ground (arith, h)

-- Digits are left where the value does not start with a zero.
pub trim_right_zeros-positive :
    (c : ℕ) (s : Text) → starts_with_zero (c ∷ s) ≡ false → 0 < length (trim_right_zeros (c ∷ s))
trim_right_zeros-positive c s front =
    let (k, eq) = trim_right_zeros_lem (c ∷ s) in some_left (trim_right_zeros (c ∷ s)) k eq
  where
    some_left : (kept : Text) (k : ℕ) → c ∷ s ≡ kept ++ zeros k → 0 < length kept
    some_left [] k eq =
        let empty = starts_with_zero-zeros k (ap starts_with_zero (sym eq) ∙ front) in
        absurd (omega (arith, ap length eq, ap length empty))
    some_left (d ∷ kept) k eq = omega arith

zeros-add : (i k : ℕ) → zeros i ++ zeros k ≡ zeros (i + k)
zeros-add zero k = let same_count : k ≡ 0 + k = omega arith in ap zeros same_count
zeros-add (suc i) k =
    ap (λ s. 48 ∷ s) (zeros-add i k)
    ∙ (let same_count : suc (i + k) ≡ suc i + k = omega arith in ap zeros same_count)

pub together :
    (i a : ℕ) (value rest : Text)
    → value ≡ zeros a ++ rest
    → zeros i ++ value ≡ zeros (i + a) ++ rest
together i a value rest h =
    ap (λ t. zeros i ++ t) h
    ∙ sym (append_assoc (zeros i) (zeros a) rest)
    ∙ ap (λ t. t ++ rest) (zeros-add i a)
