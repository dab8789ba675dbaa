-- ===== src/Kql/Array/Bounds.antt =====
-- No array function returns a text beyond the byte limit.
use striem.Common.{
  take, drop, inl, inr, ℕ, ◌+◌, ◌≤◌, ◌≡◌, Bool, List, [], ◌∷◌, Option, none, some, length,
  length-append, arith, Option-cases,
}
use striem.Common.Text.{Text}
use striem.Common.Result.{Result, ok, err, Result-cases}
use striem.Kql.Value.{Value, integer, text}
use striem.Kql.Array.Elements.{
  max_replacement_bytes, Json, ArrayError, dynamic_array, append_array_element, append_all,
  rendered,
}
use striem.Common.Int.{ℤ}
use striem.Common.{◌==◌, if◌then◌else◌, Bool}
use striem.Kql.Array.Functions.{
  kql_array_shift, shifted_from, shift_count, fill_of, Padding, continue, empty_array,
  with_elements, reversed, kql_array_reverse, slice_bounds, kql_array_slice, rotated,
  kql_array_rotate,
}

-- A text within the limit, another value, or an error.
abbrev pub IsShort : Result ArrayError Value → Type 0
IsShort (ok (text t)) = length t ≤ max_replacement_bytes
IsShort (ok _) = Unit {0}
IsShort (err x) = Unit {0}

append_array_element-le :
    (j : Json) (result element : Text) {longer : Text}
    → append_array_element j result element ≡ ok longer
    → length longer + 1 ≤ max_replacement_bytes
unfolding append_array_element
append_array_element-le j result element {longer} h = elim (Option-cases (j.compact element)) [
  | inl no_text ↦ ground (arith, no_text)
  | inr (compact, e) ↦
      ground (arith, e, length-append result compact, length-append result (44 ∷ compact))
]

append_all-le :
    (j : Json) (result : Text) (es : List Text) {longer : Text}
    → length result + 1 ≤ max_replacement_bytes
    → append_all j result es ≡ ok longer
    → length longer + 1 ≤ max_replacement_bytes
unfolding append_all
append_all-le j result [] a h = ground arith
append_all-le j result (e ∷ es) {longer} a h =
    elim (Result-cases (append_array_element j result e)) [
      | inl (next, one) ↦ ground (
        arith,
        one,
        append_all-le j next es {longer = longer} (append_array_element-le j result e one),
      )
      | inr (x, failed) ↦ ground (arith, failed)
    ]

rendered-IsShort : (j : Json) (es : List Text) → IsShort (rendered j es)
unfolding rendered
rendered-IsShort j es = elim (Result-cases (append_all j (91 ∷ []) es)) [
  | inl (result, done) ↦
      rw (rendered, done)
        (omega
          (arith, append_all-le j (91 ∷ []) es (omega arith) done, length-append result (93 ∷ [])))
  | inr (x, failed) ↦ rw (rendered, failed) tt
]

continue-IsShort :
    (m : Result ArrayError (Option (List Text))) (next : List Text → Result ArrayError Value)
    → ((es : List Text) → IsShort (next es))
    → IsShort (continue m next)
continue-IsShort (err x) next h = tt
continue-IsShort (ok none) next h = tt
continue-IsShort (ok (some es)) next h = h es

with_elements-IsShort :
    (j : Json) (v : Value) (next : List Text → Result ArrayError Value)
    → ((es : List Text) → IsShort (next es))
    → IsShort (with_elements j v next)
with_elements-IsShort j v next h = continue-IsShort (dynamic_array j v) next h

reverse_IsShort : (j : Json) (v : Value) → IsShort (kql_array_reverse j v)
unfolding kql_array_reverse
reverse_IsShort j v =
    with_elements-IsShort j v _ (λ es. rendered-IsShort j (reversed es (length es)))

slice_IsShort : (j : Json) (v start stop : Value) → IsShort (kql_array_slice j v start stop)
unfolding kql_array_slice
slice_IsShort j v (integer start) (integer stop) =
    with_elements-IsShort j v _ (λ es. part es (slice_bounds (length es) start stop))
  where
    part :
        (es : List Text) (bounds : Option (ℕ × ℕ))
        → IsShort (elim bounds [
          | none ↦ ok empty_array
          | some (first, last) ↦ rendered j (drop first (take (last + 1) es))
        ])
    part es none = omega arith
    part es (some (first, last)) = rendered-IsShort j (drop first (take (last + 1) es))
slice_IsShort j v _ _ = with_elements-IsShort j v _ (λ es. tt)

rotate_IsShort :
    (j : Json) (v count : Value) (right : Bool) → IsShort (kql_array_rotate j v count right)
unfolding kql_array_rotate
rotate_IsShort j v (integer count) right =
    with_elements-IsShort j v _ (λ es. ground (arith, rendered-IsShort j (rotated es count right)))
rotate_IsShort j v _ right = with_elements-IsShort j v _ (λ es. tt)

shift_IsShort :
    (j : Json) (v count : Value) (padding : Padding) (right : Bool)
    → IsShort (kql_array_shift j v count padding right)
unfolding kql_array_shift
shift_IsShort j v (integer count) padding right = with_elements-IsShort j v _ (λ es.
    part es (fill_of padding (shift_count (length es) count right) es)
      (shift_count (length es) count right))
  where
    part :
        (es : List Text) (fill : Result ArrayError Text) (moved : ℤ)
        → IsShort (
            if length es == 0 then ok empty_array else elim fill [
              | err x ↦ err x
              | ok fill ↦ rendered j (shifted_from es fill moved 0 (length es))
            ])
    part es (err x) moved = ground arith
    part es (ok fill) moved =
        ground (arith, rendered-IsShort j (shifted_from es fill moved 0 (length es)))
shift_IsShort j v _ padding right = with_elements-IsShort j v _ (λ es. tt)

-- Whatever the arguments are, a text that `array_reverse`, `array_slice`, `array_rotate_left`,
-- `array_rotate_right`, `array_shift_left` or `array_shift_right` returns is within the byte limit.
pub array_results-IsShort :
    (j : Json) (v a b : Value) (padding : Padding) (right : Bool)
    → IsShort (kql_array_reverse j v)
      × IsShort (kql_array_slice j v a b)
      × IsShort (kql_array_rotate j v a right)
      × IsShort (kql_array_shift j v a padding right)
array_results-IsShort j v a b padding right = (
  reverse_IsShort j v,
  slice_IsShort j v a b,
  rotate_IsShort j v a right,
  shift_IsShort j v a padding right,
)
