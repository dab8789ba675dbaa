-- ===== src/Kql/Range/Tests.antt =====
-- Ranges of a few numbers, one of them at the end of int64.
use striem.Common.{
  ◌-◌, ◌^◌, ℕ, ◌≡◌, refl, ◌&&◌, List, [], ◌∷◌, some, none, ltb, get_elem?, if◌then◌else◌, arith,
}
use striem.Common.Int.{ℤ, pos, negsuc, leb_ℤ, max_int64, ◌+ℤ◌, ◌-ℤ◌, wrap64}
use striem.Kql.Range.{max_scalar_range_elements, range_loop, scalar_range}
use striem.Kql.Range.Progression.{term, scalar_range_lem}

ascends : range_loop 9 (negsuc 0) (pos 6) (pos 3) ≡ negsuc 0 ∷ pos 2 ∷ pos 5 ∷ []
unfolding range_loop wrap64 ◌+ℤ◌ ◌-ℤ◌
ascends = refl

descends : range_loop 9 (pos 3) (negsuc 1) (negsuc 1) ≡ pos 3 ∷ pos 1 ∷ negsuc 0 ∷ []
unfolding range_loop wrap64 ◌+ℤ◌ ◌-ℤ◌
descends = refl

ends_at_max : range_loop 9 (pos (2 ^ 63 - 3)) max_int64 (pos 4) ≡ pos (2 ^ 63 - 3) ∷ []
unfolding range_loop wrap64 ◌+ℤ◌ ◌-ℤ◌
ends_at_max = refl

scalar_range_lem_example :
    (xs : List ℤ) × (scalar_range (negsuc 4) (pos 9) (pos 3) ≡ some xs)
    × ((k : ℕ)
        → get_elem? xs k ≡ (
            if ltb k max_scalar_range_elements && leb_ℤ (term (negsuc 4) 3 k) (pos 9)
            then some (term (negsuc 4) 3 k)
            else none))
scalar_range_lem_example = scalar_range_lem (negsuc 4) (pos 9) 2 (omega arith) (omega arith)
