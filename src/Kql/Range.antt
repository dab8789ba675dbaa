-- ===== src/Kql/Range.antt =====
-- The integer branch of `kqlScalarRange` in internal/database/kql_scalar_range.go, as the list of
-- the numbers that it writes.
pub mod Progression
pub mod Tests
use striem.Common.{
  ℕ, zero, suc, Bool, true, false, ◌&&◌, ◌||◌, List, [], ◌∷◌, Option, none, some, if◌then◌else◌,
}
use striem.Common.Int.{ℤ, pos, ltb_ℤ, eqb_ℤ, min_int64, max_int64, ◌+ℤ◌, ◌-ℤ◌, wrap64}

abbrev pub max_scalar_range_elements : ℕ
max_scalar_range_elements = 1_048_576

-- The guard at the head of the loop.
abbrev pub is_past : ℤ → ℤ → ℤ → Bool
is_past current stop step =
    (ltb_ℤ (pos 0) step && ltb_ℤ stop current) || (ltb_ℤ step (pos 0) && ltb_ℤ current stop)

-- The test before the addition, whose differences do not wrap where they are used.
abbrev pub is_last : ℤ → ℤ → ℤ → Bool
is_last current stop step =
    eqb_ℤ current stop
    || (ltb_ℤ (pos 0) step && ltb_ℤ (max_int64 -ℤ step) current)
    || (ltb_ℤ step (pos 0) && ltb_ℤ current (min_int64 -ℤ step))

-- The loop, with the rounds that are left.
unfoldable pub range_loop : ℕ → ℤ → ℤ → ℤ → List ℤ
range_loop zero current stop step = []
range_loop (suc n) current stop step =
    let rest = range_loop n (wrap64 (current +ℤ step)) stop step in
    if is_past current stop step
    then []
    else if is_last current stop step
    then current ∷ []
    else current ∷ rest

unfoldable pub scalar_range : ℤ → ℤ → ℤ → Option (List ℤ)
unfolding range_loop
scalar_range start stop step =
    if eqb_ℤ step (pos 0) then none else some (range_loop max_scalar_range_elements start stop step)
