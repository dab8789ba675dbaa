-- ===== src/Kql/Range/Progression.antt =====
-- An integer range is an arithmetic progression up to its stop, whatever is near the ends of int64.
use striem.Common.{
  List, ℕ, zero, suc, ◌+◌, ◌*◌, ◌≡◌, refl, ap, ◌∙◌, inl, inr, false, ◌&&◌, Bool-cases, [], none,
  some, ltb, if◌then◌else◌, get_elem?, arith,
}
use striem.Common.Int.{eqb_ℤ, ℤ, pos, leb_ℤ, ◌≤ℤ◌, ◌<ℤ◌, IsInt64, ◌+ℤ◌, ◌-ℤ◌, wrap64, wrap64_fits}
use striem.Kql.Range.{max_scalar_range_elements, scalar_range, is_past, is_last, range_loop}

-- The k-th number of the progression, and whether it is before the stop.
abbrev pub term : ℤ → ℕ → ℕ → ℤ
term start step k = start +ℤ pos (k * step)

next_fits :
    (current stop : ℤ) (step : ℕ)
    → IsInt64 current
    → is_last current stop (pos (suc step)) ≡ false
    → wrap64 (current +ℤ pos (suc step)) ≡ current +ℤ pos (suc step)
      × IsInt64 (current +ℤ pos (suc step))
unfolding ◌+ℤ◌ ◌-ℤ◌
next_fits current stop step i e =
    let fits : IsInt64 (current +ℤ pos (suc step)) = ground arith in
    (wrap64_fits (current +ℤ pos (suc step)) fits, fits)

add_twice : (z : ℤ) (a b : ℕ) → z +ℤ pos (a + b) ≡ z +ℤ pos a +ℤ pos b
unfolding ◌+ℤ◌
add_twice z a b = ground arith

term-suc : (start : ℤ) (step k : ℕ) → term start step (suc k) ≡ term (start +ℤ pos step) step k
term-suc start step k = ap (λ m. start +ℤ pos m) (grind arith) ∙ add_twice start step (k * step)

term_zero : (start : ℤ) (step : ℕ) → term start step 0 ≡ start
unfolding ◌+ℤ◌
term_zero start step = let none : 0 * step ≡ 0 = omega arith in rw none (ground arith)

-- Later terms are behind.
le-add : (z : ℤ) (a : ℕ) → z ≤ℤ z +ℤ pos a
unfolding ◌+ℤ◌
le-add z a = ground arith

first_lem :
    (n : ℕ) (start stop : ℤ) (step : ℕ)
    → get_elem? (range_loop (suc n) start stop (pos (suc step))) 0
      ≡ (if leb_ℤ start stop then some start else none)
unfolding range_loop
first_lem n start stop step = ground arith

-- Where the next number is not behind the stop, the loop goes on with it.
later_lem :
    (n : ℕ) (start stop : ℤ) (step k : ℕ)
    → IsInt64 start
    → IsInt64 stop
    → (start +ℤ pos (suc step)) ≤ℤ stop
    → get_elem? (range_loop (suc n) start stop (pos (suc step))) (suc k)
      ≡ get_elem? (range_loop n (start +ℤ pos (suc step)) stop (pos (suc step))) k
unfolding range_loop
later_lem n start stop step k i j h =
    let go : is_last start stop (pos (suc step)) ≡ false = unfold ◌+ℤ◌ ◌-ℤ◌ in ground arith in
    let (next, _) = next_fits start stop step i go in
    let before = le-add start (suc step) in
    let on : is_past start stop (pos (suc step)) ≡ false = ground arith in rw (on, go, next) refl

past_nil :
    (n : ℕ) (start stop : ℤ) (step : ℕ)
    → stop <ℤ start
    → range_loop n start stop (pos (suc step)) ≡ []
unfolding range_loop
past_nil zero start stop step h = refl
past_nil (suc n) start stop step h = ground arith

-- Otherwise nothing follows.
ends_lem :
    (n : ℕ) (start stop : ℤ) (step k : ℕ)
    → IsInt64 start
    → IsInt64 stop
    → stop <ℤ (start +ℤ pos (suc step))
    → get_elem? (range_loop (suc n) start stop (pos (suc step))) (suc k) ≡ none
unfolding range_loop
ends_lem n start stop step k i j h = elim (Bool-cases (is_past start stop (pos (suc step)))) [
  | inl past ↦ rw past refl
  | inr on ↦ elim (Bool-cases (is_last start stop (pos (suc step)))) [
    | inl last ↦ rw (on, last) refl
    | inr go ↦
        let (next, _) = next_fits start stop step i go in
        rw (on, go, next, past_nil n (start +ℤ pos (suc step)) stop step h) refl
  ]
]

range_loop_zero : (start stop step : ℤ) → range_loop 0 start stop step ≡ []
unfolding range_loop
range_loop_zero start stop step = refl

-- The numbers that the loop writes are those of the progression up to the stop, as many as there
-- are rounds, and no number wraps.
pub range_loop_lem :
    (n : ℕ) (start stop : ℤ) (step k : ℕ)
    → IsInt64 start
    → IsInt64 stop
    → get_elem? (range_loop n start stop (pos (suc step))) k ≡ (
        if ltb k n && leb_ℤ (term start (suc step) k) stop
        then some (term start (suc step) k)
        else none)
range_loop_lem zero start stop step k i j =
    rw (range_loop_zero start stop (pos (suc step))) (ground arith)
range_loop_lem (suc n) start stop step zero i j =
    rw (term_zero start (suc step)) (first_lem n start stop step ∙ ground arith)
range_loop_lem (suc n) start stop step (suc k) i j =
    let le = le-add (start +ℤ pos (suc step)) (k * suc step) in
    rw (term-suc start (suc step) k) (elim (Bool-cases (leb_ℤ (start +ℤ pos (suc step)) stop)) [
      | inl more ↦
          let fits : IsInt64 (start +ℤ pos (suc step)) =
            (ground (arith, le-add start (suc step)), ground (arith, more)) in
          later_lem n start stop step k i j (ground (arith, more))
          ∙ range_loop_lem n (start +ℤ pos (suc step)) stop step k fits j
          ∙ ground arith
      | inr over ↦
          ends_lem n start stop step k i j (ground (arith, over)) ∙ ground (arith, over, le)
    ])

step_set : (step : ℕ) → eqb_ℤ (pos (suc step)) (pos 0) ≡ false
step_set step = ground arith

-- A range of int64 numbers with a positive step holds the numbers from the start by the step up to
-- the stop, at most 2 ^ 20 of them, also where the next one would be beyond int64.
pub scalar_range_lem :
    (start stop : ℤ) (step : ℕ)
    → IsInt64 start
    → IsInt64 stop
    → (xs : List ℤ) × (scalar_range start stop (pos (suc step)) ≡ some xs)
      × ((k : ℕ)
          → get_elem? xs k ≡ (
              if ltb k max_scalar_range_elements && leb_ℤ (term start (suc step) k) stop
              then some (term start (suc step) k)
              else none))
unfolding scalar_range
scalar_range_lem start stop step i j = (
  range_loop max_scalar_range_elements start stop (pos (suc step)),
  ap
      (λ b.
        if b then none else some (range_loop max_scalar_range_elements start stop (pos (suc step))))
      (step_set step),
  λ k. range_loop_lem max_scalar_range_elements start stop step k i j,
)
