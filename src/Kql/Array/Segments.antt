-- ===== src/Kql/Array/Segments.antt =====
-- array_split cuts the array at its split points.
use striem.Common.{
  ℕ, zero, suc, ◌+◌, ◌-◌, ◌≤◌, ◌≡◌, refl, sym, ap, ◌∙◌, false, List, [], ◌∷◌, ◌++◌, ◌||◌, length,
  length-take, length-drop, take, drop, take-append-drop, arith,
}
use mathlib.Core.Path.{subst}
use striem.Common.Int.{ℤ, pos, negsuc, pos_part, ltb_ℤ}
use striem.Common.Text.{Text}
use striem.Common.Result.{ok, ok_parts, fail_if_parts, ok-injective}
use striem.Kql.Array.Elements.{bad_split_point}
use striem.Kql.Array.Rows.{split_point, split_points, segments_from, split_segments}

abbrev pub flat : List (List Text) → List Text
flat [] = []
flat (s ∷ ss) = s ++ flat ss

-- Each segment ends where the next index says, and the last at the end of the array.
abbrev pub AreSplitAt : ℕ → ℕ → List ℤ → List (List Text) → Type 0
AreSplitAt size previous indices [] = ⊥
AreSplitAt size previous [] (s ∷ []) = previous + length s ≡ size
AreSplitAt size previous [] (s ∷ t ∷ ss) = ⊥
AreSplitAt size previous (index ∷ indices) (s ∷ ss) =
    (pos (previous + length s) ≡ split_point size index)
    × AreSplitAt size (previous + length s) indices ss

drop-nil : (n : ℕ) → drop {A = Text} n [] ≡ []
drop-nil zero = refl
drop-nil (suc n) = refl

drop-drop : (n m : ℕ) (es : List Text) → drop n (drop m es) ≡ drop (m + n) es
drop-drop n zero es = let same_count : n ≡ 0 + n = omega arith in ap (λ k. drop k es) same_count
drop-drop n (suc m) [] =
    let same_count : suc (m + n) ≡ suc m + n = omega arith in
    drop-nil n ∙ ap (λ k. drop {A = Text} k []) same_count
drop-drop n (suc m) (e ∷ es) =
    drop-drop n m es
    ∙ (let same_count : suc (m + n) ≡ suc m + n = omega arith in
        ap (λ k. drop k (e ∷ es)) same_count)

-- A cut between two points.
cut_flat :
    (elements : List Text) (previous point : ℕ)
    → previous ≤ point
    → take (point - previous) (drop previous elements) ++ drop point elements
      ≡ drop previous elements
cut_flat elements previous point le =
    ap (λ t. take (point - previous) (drop previous elements) ++ t) later
    ∙ take-append-drop (point - previous) (drop previous elements)
  where
    later : drop point elements ≡ drop (point - previous) (drop previous elements)
    later = ap (λ k. drop k elements) whole ∙ sym (drop-drop (point - previous) previous elements)
      where
        whole : point ≡ previous + (point - previous)
        whole = omega (arith, le)

length-segment :
    (elements : List Text) (previous point : ℕ)
    → previous ≤ point
    → point ≤ length elements
    → previous + length (take (point - previous) (drop previous elements)) ≡ point
length-segment elements previous point le in_range = omega (
  arith,
  le,
  in_range,
  length-take (point - previous) (drop previous elements),
  length-drop previous elements,
)

drop-length : (es : List Text) → drop (length es) es ≡ []
drop-length [] = refl
drop-length (e ∷ es) = drop-length es

-- What holds of the segments from one point on.
abbrev IsCut : List Text → ℕ → List ℤ → List ℕ → Type 0
IsCut elements previous indices points =
    (flat (segments_from elements previous (points ++ length elements ∷ []))
      ≡ drop previous elements)
    × AreSplitAt (length elements) previous indices
        (segments_from elements previous (points ++ length elements ∷ []))

last-IsCut :
    (elements : List Text) (previous : ℕ)
    → previous ≤ length elements
    → IsCut elements previous [] []
unfolding segments_from
last-IsCut elements previous le = (
  ap (λ t. take (length elements - previous) (drop previous elements) ++ t)
        (sym (drop-length elements))
      ∙ cut_flat elements previous (length elements) le,
  length-segment elements previous (length elements) le (omega arith),
)

next-IsCut :
    (elements : List Text) (previous point : ℕ) (index : ℤ) (indices : List ℤ) (points : List ℕ)
    → previous ≤ point
    → point ≤ length elements
    → pos point ≡ split_point (length elements) index
    → IsCut elements point indices points
    → IsCut elements previous (index ∷ indices) (point ∷ points)
unfolding segments_from
next-IsCut elements previous point index indices points le in_range eq (whole, splits) =
    let end = length-segment elements previous point le in_range in
    (
      ap (λ t. take (point - previous) (drop previous elements) ++ t) whole
          ∙ cut_flat elements previous point le,
      (
        ap pos end ∙ eq,
        subst
            (λ p.
              AreSplitAt (length elements) p indices
                (segments_from elements point (points ++ length elements ∷ [])))
            (sym end) splits,
      ),
    )

point_in_range :
    (z : ℤ) (size previous : ℕ)
    → (ltb_ℤ z (pos 0) || ltb_ℤ (pos size) z) ≡ false
    → ltb_ℤ z (pos previous) ≡ false
    → (pos (pos_part z) ≡ z) × (previous ≤ pos_part z) × (pos_part z ≤ size)
point_in_range (pos n) size previous h k = (refl, ground (arith, k), ground (arith, h))
point_in_range (negsuc n) size previous h k = ground (arith, h)

split_points-IsCut :
    (elements : List Text) (previous : ℕ) (indices : List ℤ) (points : List ℕ)
    → previous ≤ length elements
    → split_points (length elements) previous indices ≡ ok points
    → IsCut elements previous indices points
unfolding split_points
split_points-IsCut elements previous [] points le h =
    subst (IsCut elements previous []) (ok-injective h) (last-IsCut elements previous le)
split_points-IsCut elements previous (index ∷ indices) points le h =
    let point = split_point (length elements) index in
    let (in_range, h₁) = fail_if_parts _ _ _ h in
    let (ascending, h₂) = fail_if_parts (ltb_ℤ point (pos previous)) bad_split_point _ h₁ in
    let (rest, more, eq) =
      ok_parts (λ points. ok (pos_part point ∷ points))
        (split_points (length elements) (pos_part point) indices) h₂ in
    let (exact, after, before) =
      point_in_range point (length elements) previous in_range ascending in
    subst (IsCut elements previous (index ∷ indices)) (ok-injective eq) (
      next-IsCut elements previous (pos_part point) index indices rest after before exact
        (split_points-IsCut elements (pos_part point) indices rest before more))

-- Where kqlArraySplit accepts the indices, the segments in a row are all the elements in order;
-- there is one more segment than indices; and each segment ends at the element that its index
-- names, counted from the end where it is negative, the last at the end.
pub split_segments-AreSplitAt :
    (elements : List Text) (indices : List ℤ) (segments : List (List Text))
    → split_segments elements indices ≡ ok segments
    → (flat segments ≡ elements) × AreSplitAt (length elements) 0 indices segments
unfolding split_segments
split_segments-AreSplitAt elements indices segments h =
    let (points, found, eq) = ok_parts _ (split_points (length elements) 0 indices) h in
    subst (λ ss. (flat ss ≡ elements) × AreSplitAt (length elements) 0 indices ss) (ok-injective eq)
      (split_points-IsCut elements 0 indices points (omega arith) found)
