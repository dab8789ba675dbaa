-- ===== src/Kql/Array/Functions.antt =====
-- `kqlArrayReverse`, `kqlArraySlice`, `kqlArrayRotate` and `kqlArrayShift`.
use striem.Common.{
  ℕ, zero, suc, ◌+◌, ◌-◌, ◌%◌, Bool, false, ◌&&◌, ◌||◌, not, List, [], ◌∷◌, Option, none, some,
  ◌==◌, if◌then◌else◌, length, take, drop, get_or,
}
use striem.Common.Int.{ℤ, pos, negsuc, pos_part, ltb_ℤ, leb_ℤ, eqb_ℤ, ◌+ℤ◌, ◌-ℤ◌, wrap64}
use striem.Common.Text.{Text}
use striem.Common.Result.{Result, ok, err}
use striem.Kql.Value.{Value, null, integer, text}
use striem.Kql.Array.Elements.{Json, ArrayError, bad_padding, dynamic_array, rendered}

abbrev pub empty_array : Value
empty_array = text (91 ∷ 93 ∷ [])

-- The elements of an argument, `null` where it is no array.
abbrev pub continue :
    Result ArrayError (Option (List Text))
    → (List Text → Result ArrayError Value)
    → Result ArrayError Value
continue (err x) next = err x
continue (ok none) next = ok null
continue (ok (some elements)) next = next elements

abbrev pub with_elements :
    Json → Value → (List Text → Result ArrayError Value) → Result ArrayError Value
with_elements j v next = continue (dynamic_array j v) next

-- From the last element down.
unfoldable pub reversed : List Text → ℕ → List Text
reversed elements zero = []
reversed elements (suc i) = get_or elements i [] ∷ reversed elements i

unfoldable pub kql_array_reverse : Json → Value → Result ArrayError Value
unfolding reversed
kql_array_reverse j v =
    with_elements j v (λ elements. rendered j (reversed elements (length elements)))

-- The bounds of a slice, the end inclusive; none where the slice is empty.
unfoldable pub slice_bounds : ℕ → ℤ → ℤ → Option (ℕ × ℕ)
slice_bounds count start stop =
    let start₁ = if ltb_ℤ start (pos 0) then wrap64 (start +ℤ pos count) else start in
    let stop₁ = if ltb_ℤ stop (pos 0) then wrap64 (stop +ℤ pos count) else stop in
    let start₂ = if ltb_ℤ start₁ (pos 0) then pos 0 else start₁ in
    let stop₂ = if leb_ℤ (pos count) stop₁ then wrap64 (pos count -ℤ pos 1) else stop₁ in
    if ltb_ℤ stop₂ (pos 0) || leb_ℤ (pos count) start₂ || ltb_ℤ stop₂ start₂
    then none
    else some (pos_part start₂, pos_part stop₂)

unfoldable pub kql_array_slice : Json → Value → Value → Value → Result ArrayError Value
unfolding slice_bounds
kql_array_slice j v (integer start) (integer stop) = with_elements j v (λ elements.
    elim (slice_bounds (length elements) start stop) [
      | none ↦ ok empty_array
      | some (first, last) ↦ rendered j (drop first (take (last + 1) elements))
    ])
kql_array_slice j v _ _ = with_elements j v (λ elements. ok null)

-- The remainder of Go has the sign of the dividend; the size is added to a negative one.
abbrev pub go_remainder : ℕ → ℤ → ℕ
go_remainder size (pos n) = n % size
go_remainder size (negsuc n) = if suc n % size == 0 then 0 else size - suc n % size

-- The remainder, then the direction.
unfoldable pub rotate_offset : ℕ → ℤ → Bool → ℕ
rotate_offset size count right =
    let offset = go_remainder size count in
    if right && not (offset == 0) then size - offset else offset

-- The loop from index `i` on, for `n` rounds.
unfoldable pub rotated_from : List Text → ℕ → ℕ → ℕ → List Text
rotated_from elements offset i zero = []
rotated_from elements offset i (suc n) =
    get_or elements ((i + offset) % length elements) [] ∷ rotated_from elements offset (suc i) n

abbrev pub rotated : List Text → ℤ → Bool → List Text
rotated elements count right =
    rotated_from elements (rotate_offset (length elements) count right) 0 (length elements)

unfoldable pub kql_array_rotate : Json → Value → Value → Bool → Result ArrayError Value
unfolding rotated_from rotate_offset
kql_array_rotate j v (integer count) right = with_elements j v (λ elements.
    if length elements == 0 then ok empty_array else rendered j (rotated elements count right))
kql_array_rotate j v _ right = with_elements j v (λ elements. ok null)

-- The count held at the size, then the direction.
unfoldable pub shift_count : ℕ → ℤ → Bool → ℤ
shift_count size count right =
    let above = if ltb_ℤ (pos size) count then pos size else count in
    let held = if ltb_ℤ above (pos 0 -ℤ pos size) then pos 0 -ℤ pos size else above in
    if right then wrap64 (pos 0 -ℤ held) else held

-- What the loop takes for an index: an element, or the fill outside the array.
unfoldable pub shifted_at : List Text → Text → ℤ → ℕ → Text
shifted_at elements fill count i =
    let source = wrap64 (pos i +ℤ count) in
    if leb_ℤ (pos 0) source && ltb_ℤ source (pos (length elements))
    then get_or elements (pos_part source) fill
    else fill

unfoldable pub shifted_from : List Text → Text → ℤ → ℕ → ℕ → List Text
unfolding shifted_at
shifted_from elements fill count i zero = []
shifted_from elements fill count i (suc n) =
    shifted_at elements fill count i ∷ shifted_from elements fill count (suc i) n

-- The fill: `null` by default, which is refused for strings that move, or what `packJSONValue` gave.
pub data Padding : Type 0 where
  default : Padding
  packed : Result ArrayError Text → Padding

abbrev pub has_string : List Text → Bool
has_string [] = false
has_string ([] ∷ es) = has_string es
has_string ((c ∷ e) ∷ es) = c == 34 || has_string es

unfoldable pub fill_of : Padding → ℤ → List Text → Result ArrayError Text
fill_of default count elements =
    if not (eqb_ℤ count (pos 0)) && has_string elements
    then err bad_padding
    else ok (110 ∷ 117 ∷ 108 ∷ 108 ∷ [])
fill_of (packed fill) count elements = fill

unfoldable pub kql_array_shift : Json → Value → Value → Padding → Bool → Result ArrayError Value
unfolding shifted_from shift_count fill_of
kql_array_shift j v (integer count) padding right = with_elements j v (λ elements.
    let moved = shift_count (length elements) count right in
    if length elements == 0 then ok empty_array else elim (fill_of padding moved elements) [
      | err x ↦ err x
      | ok fill ↦ rendered j (shifted_from elements fill moved 0 (length elements))
    ])
kql_array_shift j v _ padding right = with_elements j v (λ elements. ok null)
