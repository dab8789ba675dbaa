-- ===== src/Kql/Scalar/Point.antt =====
-- Where `normalizeNumber` cuts a number at its point.
use striem.Common.{
  ℕ, suc, ◌≤◌, ◌≡◌, refl, ap, ◌⊎◌, inl, inr, Bool, false, ◌||◌, ◌==◌, ==_iff, [], ◌∷◌, ◌++◌, Option,
  none, some, length, Bool-cases, arith,
}
use striem.Common.Text.{Text}
use striem.Kql.Scalar.{cut, is_point, onto, point_parts}

pub cut_lengths :
    (is_mark : ℕ → Bool) (value : Text)
    → (length (point_parts value (cut is_mark value)).0 ≤ length value)
      × ((point_parts value (cut is_mark value)).1 ≤ length value)
unfolding cut
cut_lengths is_mark [] = (omega arith, omega arith)
cut_lengths is_mark (c ∷ s) = elim (Bool-cases (is_mark c)) [
  | inl here ↦ rw here (omega arith, omega arith)
  | inr other ↦ rw other (onto_lengths c s (cut is_mark s) (cut_lengths is_mark s))
]
  where
    onto_lengths :
        (c : ℕ) (s : Text) (parts : Option (Text × Text))
        → (length (point_parts s parts).0 ≤ length s) × ((point_parts s parts).1 ≤ length s)
        → (length (point_parts (c ∷ s) (onto c parts)).0 ≤ suc (length s))
          × ((point_parts (c ∷ s) (onto c parts)).1 ≤ suc (length s))
    onto_lengths c s none h = (omega arith, omega arith)
    onto_lengths c s (some (before, behind)) h = (omega (arith, h.0), omega (arith, h.1))

abbrev has_point : Text → Bool
has_point [] = false
has_point (c ∷ s) = c == 46 || has_point s

-- The digits of a number without its first point, if it has one, and how many were behind it.
abbrev pub IsUnpointed : Text → Text → ℕ → Type 0
IsUnpointed value digits behind =
    (has_point value ≡ false × (digits ≡ value) × (behind ≡ 0))
    ⊎ ((whole : Text) × (fraction : Text) × (value ≡ whole ++ 46 ∷ fraction)
        × (has_point whole ≡ false)
        × (digits ≡ whole ++ fraction)
        × (behind ≡ length fraction))

abbrev IsCut : Text → Option (Text × Text) → Type 0
IsCut value none = has_point value ≡ false
IsCut value (some (whole, fraction)) = (value ≡ whole ++ 46 ∷ fraction) × (has_point whole ≡ false)

onto-IsCut :
    (c : ℕ) (s : Text) (parts : Option (Text × Text))
    → (c == 46) ≡ false
    → IsCut s parts
    → IsCut (c ∷ s) (onto c parts)
onto-IsCut c s none other h = ground (arith, other, h)
onto-IsCut c s (some (whole, fraction)) other (eq, before) =
    (ap (λ t. c ∷ t) eq, ground (arith, other, before))

cut-IsCut : (value : Text) → IsCut value (cut is_point value)
unfolding cut
cut-IsCut [] = refl
cut-IsCut (c ∷ s) = elim (Bool-cases (c == 46)) [
  | inl here ↦ rw here (ap (λ d. d ∷ s) ((==_iff c 46).0 here), refl)
  | inr other ↦ rw other (onto-IsCut c s (cut is_point s) other (cut-IsCut s))
]

IsCut-IsUnpointed :
    (value : Text) (parts : Option (Text × Text))
    → IsCut value parts
    → IsUnpointed value (point_parts value parts).0 (point_parts value parts).1
IsCut-IsUnpointed value none h = inl (h, refl, refl)
IsCut-IsUnpointed value (some (whole, fraction)) (eq, before) =
    inr (whole, fraction, eq, before, refl, refl)

pub cut-IsUnpointed :
    (value : Text)
    → IsUnpointed value
        (point_parts value (cut is_point value)).0
        (point_parts value (cut is_point value)).1
cut-IsUnpointed value = IsCut-IsUnpointed value (cut is_point value) (cut-IsCut value)
