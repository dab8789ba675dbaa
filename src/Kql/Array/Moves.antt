-- ===== src/Kql/Array/Moves.antt =====
-- Where the elements of a rotated, shifted or sliced array come from.
use native.Mathlib.Nat.{mod-lt, mod-eq_of_lt, mod-eq-sub-mod}
use striem.Common.{
  ℕ, zero, suc, ◌+◌, ◌-◌, ◌%◌, ◌<◌, ◌≡◌, refl, ap, ◌∙◌, inl, inr, Bool, true, false, Bool-cases,
  List, [], ◌∷◌, ltb, ◌==◌, if◌then◌else◌, length, get_or, arith,
}
use striem.Common.Int.{ℤ, pos, negsuc}
use striem.Common.Text.{Text}
use striem.Kql.Array.Functions.{rotate_offset, rotated_from, rotated}

-- Lists of the same length with the same elements are the same.
same_elements :
    (xs ys : List Text)
    → length xs ≡ length ys
    → ((i : ℕ) → i < length xs → get_or xs i [] ≡ get_or ys i [])
    → xs ≡ ys
same_elements [] [] e h = refl
same_elements [] (y ∷ ys) e h = absurd (omega (arith, e))
same_elements (x ∷ xs) [] e h = absurd (omega (arith, e))
same_elements (x ∷ xs) (y ∷ ys) e h =
    let rest = same_elements xs ys (omega (arith, e)) (λ i l. h (suc i) (omega (arith, l))) in
    cc (h 0 (omega arith), rest)

length-rotated_from : (es : List Text) (offset i n : ℕ) → length (rotated_from es offset i n) ≡ n
unfolding rotated_from
length-rotated_from es offset i zero = refl
length-rotated_from es offset i (suc n) = ap suc (length-rotated_from es offset (suc i) n)

get_or-rotated_from :
    (es : List Text) (offset i n k : ℕ)
    → k < n
    → get_or (rotated_from es offset i n) k [] ≡ get_or es ((i + k + offset) % length es) []
unfolding rotated_from
get_or-rotated_from es offset i zero k h = absurd (omega (arith, h))
get_or-rotated_from es offset i (suc n) zero h =
    ap (λ m. get_or es (m % length es) []) (omega arith)
get_or-rotated_from es offset i (suc n) (suc k) h =
    get_or-rotated_from es offset (suc i) n k (omega (arith, h))
    ∙ ap (λ m. get_or es (m % length es) []) (omega arith)

-- A sum of an index and an offset within the size.
mod_once : (a s : ℕ) → 0 < s → a < s + s → a % s ≡ (if ltb a s then a else a - s)
mod_once a s h l = elim (Bool-cases (ltb a s)) [
  | inl below ↦ rw below (mod-eq_of_lt (ground (arith, below)))
  | inr above ↦ rw above (
      mod-eq-sub-mod {n = a} {m = s} (ground (arith, above)) ∙ mod-eq_of_lt (ground (arith, above)))
]

offset_lt : (size : ℕ) (count : ℤ) (right : Bool) → 0 < size → rotate_offset size count right < size
unfolding rotate_offset
offset_lt size (pos n) right h = ground (arith, mod-lt n h)
offset_lt size (negsuc n) right h = ground (arith, mod-lt (suc n) h)

-- The offset to the right undoes the one to the left.
offset_right :
    (size : ℕ) (count : ℤ)
    → rotate_offset size count true
      ≡ (if rotate_offset size count false == 0 then 0 else size - rotate_offset size count false)
unfolding rotate_offset
offset_right size count = ground arith

offsets_back :
    (size left right i : ℕ)
    → i < size
    → left < size
    → right ≡ (if left == 0 then 0 else size - left)
    → ((i + right) % size + left) % size ≡ i
offsets_back size left right i h l e =
    let first = mod_once (i + right) size (omega arith) (ground arith) in
    let second =
      mod_once ((i + right) % size + left) size (omega arith)
        (omega (arith, mod-lt (i + right) {m = size} (omega arith))) in
    ground (arith, first, second)

length-rotated :
    (es : List Text) (count : ℤ) (right : Bool) → length (rotated es count right) ≡ length es
length-rotated es count right =
    length-rotated_from es (rotate_offset (length es) count right) 0 (length es)

-- The element at an index comes from the index further by the offset, round the array.
get_or-rotated :
    (es : List Text) (count : ℤ) (right : Bool) (i : ℕ)
    → i < length es
    → get_or (rotated es count right) i []
      ≡ get_or es ((i + rotate_offset (length es) count right) % length es) []
get_or-rotated es count right i h =
    get_or-rotated_from es (rotate_offset (length es) count right) 0 (length es) i h
    ∙ ap (λ k. get_or es ((k + rotate_offset (length es) count right) % length es) []) (omega arith)

-- Rotating to the left and then to the right by the same count gives the array back.
pub rotated-rotated :
    (es : List Text) (count : ℤ) → rotated (rotated es count false) count true ≡ es
rotated-rotated es count =
    same_elements (rotated (rotated es count false) count true) es
      (length-rotated (rotated es count false) count true ∙ len) at
  where
    len : length (rotated es count false) ≡ length es
    len = length-rotated es count false

    at :
        (i : ℕ)
        → i < length (rotated (rotated es count false) count true)
        → get_or (rotated (rotated es count false) count true) i [] ≡ get_or es i []
    at i h =
        let h₁ : i < length (rotated es count false) =
          omega (arith, h, length-rotated (rotated es count false) count true) in
        let h₂ : i < length es = omega (arith, h₁, len) in
        let back = rotate_offset (length es) count true in
        let left = rotate_offset (length es) count false in
        get_or-rotated (rotated es count false) count true i h₁
        ∙ ap (λ n. get_or (rotated es count false) ((i + rotate_offset n count true) % n) []) len
        ∙ get_or-rotated es count false ((i + back) % length es) (mod-lt (i + back) (omega arith))
        ∙ ap (λ k. get_or es k [])
            (offsets_back (length es) left back i h₂
              (offset_lt (length es) count false (omega arith)) (offset_right (length es) count))
