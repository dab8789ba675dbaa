-- ===== src/Kql/Array/Slices.antt =====
-- Which elements a slice takes, and where those of a shifted array come from.
use striem.Common.{
  ℕ, zero, suc, ◌+◌, ◌^◌, ◌≤◌, ◌<◌, ◌≡◌, refl, sym, ap, ◌∙◌, ◌⊎◌, inl, inr, Bool, true, false, ◌&&◌,
  ◌||◌, Bool-cases, List, [], ◌∷◌, Option, none, some, ltb, leb, if◌then◌else◌, length, get_or,
  arith,
}
use striem.Common.Int.{ℤ, pos, negsuc, pos_part, ltb_ℤ, leb_ℤ, ◌+ℤ◌, ◌-ℤ◌, wrap64, wrap64_fits}
use striem.Common.Text.{Text}
use striem.Kql.Array.Functions.{shift_count, shifted_at, shifted_from}

-- An index from the end where it is negative, in exact arithmetic.
abbrev pub from_end : ℕ → ℤ → ℤ
from_end count x = if ltb_ℤ x (pos 0) then x +ℤ pos count else x

abbrev pub inside : ℕ → Option (ℕ × ℕ) → Bool
inside i none = false
inside i (some (first, last)) = leb first i && leb i last

-- The bounds are positions of an array of that length.
abbrev pub InRange : ℕ → Option (ℕ × ℕ) → Type 0
InRange count none = Unit {0}
InRange count (some (first, last)) = (first ≤ last) × (last < count)

-- What remains once nothing wraps.
exact_bounds : ℕ → ℤ → ℤ → Option (ℕ × ℕ)
exact_bounds count start stop =
    let start₂ = if ltb_ℤ start (pos 0) then pos 0 else start in
    let stop₂ = if leb_ℤ (pos count) stop then pos count -ℤ pos 1 else stop in
    if ltb_ℤ stop₂ (pos 0) || leb_ℤ (pos count) start₂ || ltb_ℤ stop₂ start₂
    then none
    else some (pos_part start₂, pos_part stop₂)

-- The bounds of a slice are in the array, and hold the positions from the start to the end.
abbrev pub AreBounds : ℕ → ℤ → ℤ → Option (ℕ × ℕ) → Type 0
AreBounds count start stop bounds =
    InRange count bounds
    × ((i : ℕ)
        → i < count
        → inside i bounds
          ≡ leb_ℤ (from_end count start) (pos i) && leb_ℤ (pos i) (from_end count stop))

-- The element that a shift by `count` to the left brings to an index, in exact arithmetic.
abbrev pub came_from : List Text → Text → ℤ → Text
came_from es fill (pos k) = get_or es k fill
came_from es fill (negsuc k) = fill

get_or-beyond : (es : List Text) (k : ℕ) (fill : Text) → length es ≤ k → get_or es k fill ≡ fill
get_or-beyond [] k fill h = refl
get_or-beyond (e ∷ es) zero fill h = absurd (omega (arith, h))
get_or-beyond (e ∷ es) (suc k) fill h = get_or-beyond es k fill (omega (arith, h))

-- Whether an index is one of the array.
abbrev is_index : ℕ → ℤ → Bool
is_index size z = leb_ℤ (pos 0) z && ltb_ℤ z (pos size)

came_from_lem :
    (es : List Text) (fill : Text) (z : ℤ)
    → (if is_index (length es) z then get_or es (pos_part z) fill else fill) ≡ came_from es fill z
came_from_lem es fill (pos k) = elim (Bool-cases (ltb k (length es))) [
  | inl at ↦ ground (arith, at)
  | inr beyond ↦ ground (arith, beyond, get_or-beyond es k fill (ground (arith, beyond)))
]
came_from_lem es fill (negsuc k) = ground arith

-- The count that the loop uses, without the wrap.
exact_count : ℕ → ℤ → Bool → ℤ
exact_count size count right =
    let above = if ltb_ℤ (pos size) count then pos size else count in
    let held = if ltb_ℤ above (pos 0 -ℤ pos size) then pos 0 -ℤ pos size else above in
    if right then pos 0 -ℤ held else held

shift_count-exact_count :
    (size : ℕ) (count : ℤ) (right : Bool)
    → size ≤ 2 ^ 62
    → shift_count size count right ≡ exact_count size count right
unfolding shift_count exact_count ◌-ℤ◌
shift_count-exact_count size count right l =
    ground (arith, wrap64_fits (exact_count size count right) (ground arith))

-- Holding the count at the size moves no index of the array to another one.
held_lem :
    (size i : ℕ) (count : ℤ) (right : Bool)
    → i < size
    → (pos i +ℤ exact_count size count right ≡ (if right then pos i -ℤ count else pos i +ℤ count))
      ⊎ ((is_index size (pos i +ℤ exact_count size count right) ≡ false)
          × (is_index size (if right then pos i -ℤ count else pos i +ℤ count) ≡ false))
unfolding exact_count ◌-ℤ◌ ◌+ℤ◌
held_lem size i (pos n) false h = ground arith
held_lem size i (pos n) true h = ground arith
held_lem size i (negsuc n) false h = ground arith
held_lem size i (negsuc n) true h = ground arith

came_from-outside :
    (es : List Text) (fill : Text) (z : ℤ)
    → is_index (length es) z ≡ false
    → came_from es fill z ≡ fill
came_from-outside es fill z out =
    sym (came_from_lem es fill z) ∙ ap (λ b. if b then get_or es (pos_part z) fill else fill) out

came_from-held :
    (es : List Text) (fill : Text) (z w : ℤ)
    → (z ≡ w) ⊎ ((is_index (length es) z ≡ false) × (is_index (length es) w ≡ false))
    → came_from es fill z ≡ came_from es fill w
came_from-held es fill z w (inl same) = ap (came_from es fill) same
came_from-held es fill z w (inr (out, out')) =
    came_from-outside es fill z out ∙ sym (came_from-outside es fill w out')

source_fits :
    (size i : ℕ) (count : ℤ) (right : Bool)
    → i < size
    → size ≤ 2 ^ 62
    → wrap64 (pos i +ℤ exact_count size count right) ≡ pos i +ℤ exact_count size count right
unfolding exact_count ◌-ℤ◌ ◌+ℤ◌
source_fits size i count right h l =
    wrap64_fits (pos i +ℤ exact_count size count right) (ground arith)

shifted_at-came_from :
    (es : List Text) (fill : Text) (count : ℤ) (right : Bool) (i : ℕ)
    → i < length es
    → length es ≤ 2 ^ 62
    → shifted_at es fill (shift_count (length es) count right) i
      ≡ came_from es fill (if right then pos i -ℤ count else pos i +ℤ count)
unfolding shifted_at
shifted_at-came_from es fill count right i h l =
    rw
      (shift_count-exact_count (length es) count right l, source_fits (length es) i count right h l)
      (came_from_lem es fill (pos i +ℤ exact_count (length es) count right)
        ∙ came_from-held es fill (pos i +ℤ exact_count (length es) count right)
            (if right then pos i -ℤ count else pos i +ℤ count)
            (held_lem (length es) i count right h))

get_or-shifted_from :
    (es : List Text) (fill : Text) (count : ℤ) (i n k : ℕ)
    → k < n
    → get_or (shifted_from es fill count i n) k [] ≡ shifted_at es fill count (i + k)
unfolding shifted_from
get_or-shifted_from es fill count i zero k h = absurd (omega (arith, h))
get_or-shifted_from es fill count i (suc n) zero h = ap (shifted_at es fill count) (omega arith)
get_or-shifted_from es fill count i (suc n) (suc k) h =
    get_or-shifted_from es fill count (suc i) n k (omega (arith, h))
    ∙ ap (shifted_at es fill count) (omega arith)

-- A shift brings to each index the element that is `count` places further, to the right or to the
-- left, and the fill where that is outside the array, however large the count is.
pub shifted_from_lem :
    (es : List Text) (fill : Text) (count : ℤ) (right : Bool) (i : ℕ)
    → i < length es
    → length es ≤ 2 ^ 62
    → get_or (shifted_from es fill (shift_count (length es) count right) 0 (length es)) i []
      ≡ came_from es fill (if right then pos i -ℤ count else pos i +ℤ count)
shifted_from_lem es fill count right i h l =
    get_or-shifted_from es fill (shift_count (length es) count right) 0 (length es) i h
    ∙ ap (shifted_at es fill (shift_count (length es) count right)) (omega arith)
    ∙ shifted_at-came_from es fill count right i h l
