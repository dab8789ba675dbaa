-- ===== src/Common/Distinct.antt =====
-- Lists of texts without repetition: as many different texts as a list has are all of it.
use striem.Common.{
  suc, ◌≤◌, ◌≡◌, refl, true, false, List, [], ◌∷◌, length, arith, if◌then◌else◌, Bool-cases, inl,
  inr,
}
use mathlib.Core.Path.{subst}
use striem.Common.Text.{Text, same, same-eq, same_refl, has_text}

abbrev pub IsDistinct : List Text → Type 0
IsDistinct [] = Unit {0}
IsDistinct (s ∷ ss) = (has_text s ss ≡ false) × IsDistinct ss

abbrev pub IsIncluded : List Text → List Text → Type 0
IsIncluded ss ts = (t : Text) → has_text t ss ≡ true → has_text t ts ≡ true

erase : Text → List Text → List Text
erase s [] = []
erase s (t ∷ ts) = let rest = erase s ts in if same s t then ts else t ∷ rest

length-erase :
    (s : Text) (ts : List Text) → has_text s ts ≡ true → suc (length (erase s ts)) ≡ length ts
unfolding erase has_text
length-erase s [] h = cc
length-erase s (t ∷ ts) h = elim (Bool-cases (same s t)) [
  | inl eq ↦ rw eq refl
  | inr ne ↦ ground (arith, ne, h, length-erase s ts)
]

has_text-eq : (s t : Text) (ts : List Text) → same s t ≡ true → has_text s ts ≡ has_text t ts
has_text-eq s t ts eq = rw (same-eq s t eq) refl

-- What is left holds all but the erased text.
has_text-erase :
    (s t : Text) (ts : List Text)
    → same t s ≡ false
    → has_text t ts ≡ true
    → has_text t (erase s ts) ≡ true
unfolding erase has_text
has_text-erase s t [] ne h = h
has_text-erase s t (u ∷ ts) ne h = elim (Bool-cases (same s u)) [
  | inl eq ↦ rw eq (kept eq)
  | inr other ↦ elim (Bool-cases (same t u)) [
    | inl here ↦ ground (arith, other, here)
    | inr there ↦ ground (arith, other, there, h, has_text-erase s t ts ne)
  ]
]
  where
    kept : same s u ≡ true → has_text t ts ≡ true
    kept eq = ground (arith, h, subst (λ v. same t v ≡ false) (same-eq s u eq) ne)

-- Without a text, the rest of a list is in the rest of the other.
rest-IsIncluded :
    (s : Text) (ss ts : List Text)
    → has_text s ss ≡ false
    → IsIncluded (s ∷ ss) ts
    → IsIncluded ss (erase s ts)
unfolding has_text
rest-IsIncluded s ss ts new i u hu = has_text-erase s u ts differs (i u (ground (arith, hu)))
  where
    differs : same u s ≡ false
    differs = elim (Bool-cases (same u s)) [
      | inl eq ↦ cc (has_text-eq u s ss eq, hu, new)
      | inr ne ↦ ne
    ]

pub length-IsIncluded :
    (ss ts : List Text) → IsDistinct ss → IsIncluded ss ts → length ss ≤ length ts
unfolding has_text
length-IsIncluded [] ts d i = omega arith
length-IsIncluded (s ∷ ss) ts d i = omega (
  arith,
  length-IsIncluded ss (erase s ts) d.1 (rest-IsIncluded s ss ts d.0 i),
  length-erase s ts (i s (ground (arith, same_refl s))),
)

-- If as many different texts as `ts` has are all in `ts`, then `ts` has no other.
pub covered :
    (ss ts : List Text)
    → IsDistinct ss
    → IsIncluded ss ts
    → length ts ≤ length ss
    → IsIncluded ts ss
unfolding has_text
covered [] [] d i le t h = h
covered [] (u ∷ ts) d i le t h = ground (arith, le)
covered (s ∷ ss) ts d i le t h = elim (Bool-cases (same t s)) [
  | inl eq ↦ ground (arith, eq)
  | inr ne ↦ ground (
    arith,
    ne,
    covered ss (erase s ts) d.1 (rest-IsIncluded s ss ts d.0 i)
        (omega (arith, le, length-erase s ts here)) t (has_text-erase s t ts ne h),
  )
]
  where
    here : has_text s ts ≡ true
    here = i s (ground (arith, same_refl s))
