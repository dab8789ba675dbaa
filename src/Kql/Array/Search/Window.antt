-- ===== src/Kql/Array/Search/Window.antt =====
-- array_index_of gives the wanted occurrence in the window.
use striem.Common.{
  ℕ, zero, suc, ◌+◌, ◌-◌, ◌≤◌, ◌<◌, ◌≡◌, refl, sym, ◌∙◌, ap, ◌⊎◌, true, false, List, [], Option,
  none, some, ◌==◌, if◌then◌else◌, length, get_or, min, Bool-cases, inl, inr, arith,
}
use striem.Common.Int.{ℤ, pos, negsuc, pos_part, ltb_ℤ, leb_ℤ, ◌<ℤ◌, ◌+ℤ◌, ◌-ℤ◌}
use mathlib.Core.Path.{subst}
use striem.Common.Text.{Text}
use striem.Kql.Value.{Value, null, integer}
use striem.Kql.Scalar.{Parser, KqlScalar}
use striem.Kql.Array.Search.{
  is_match, find_occurrence, window_start, window_size, index_or_minus_one, search_window,
}

is_natural : (z : ℤ) → ltb_ℤ z (pos 0) ≡ false → z ≡ pos (pos_part z)
is_natural (pos n) h = refl
is_natural (negsuc n) h = ground arith

is_inside : (z : ℤ) (n : ℕ) → ltb_ℤ z (pos 0) ≡ false → leb_ℤ (pos n) z ≡ false → pos_part z < n
is_inside (pos m) n fine h = ground (arith, h)
is_inside (negsuc m) n fine h = ground (arith, fine)

-- The start of the window: a negative one counts from the end, -1 for the last element.
abbrev pub first_of : ℕ → ℤ → ℤ
first_of count (pos n) = pos n
first_of count (negsuc m) = pos count -ℤ pos (suc m)

-- How many of the elements that are left are in the window: all for a negative size.
abbrev pub width : ℕ → ℤ → ℕ
width left (pos n) = min left n
width left (negsuc m) = left

first_of_lem : (count : ℕ) (start : ℤ) → window_start count start ≡ first_of count start
unfolding ◌+ℤ◌ ◌-ℤ◌
first_of_lem count (pos n) = ground arith
first_of_lem count (negsuc m) = ground arith

width_lem :
    (count first : ℕ) (size : ℤ)
    → first < count
    → window_size count first size ≡ width (count - first) size
width_lem count first (pos n) h = ground arith
width_lem count first (negsuc m) h = ground arith

is_beyond : (z : ℤ) (n : ℕ) → ltb_ℤ z (pos 0) ≡ false → leb_ℤ (pos n) z ≡ true → n ≤ pos_part z
is_beyond (pos m) n fine h = ground (arith, h)
is_beyond (negsuc m) n fine h = ground (arith, fine)

module _ (p : Parser) (needle : KqlScalar) (elements : List Text) where
  -- How many of the `n` elements from index `i` on match.
  pub matches_in : ℕ → ℕ → ℕ
  matches_in i zero = 0
  matches_in i (suc n) =
      (if is_match p needle (get_or elements i []) then 1 else 0) + matches_in (suc i) n

  -- The index is in the range, matches, and is that occurrence; or there are too few.
  abbrev IsOccurrence : ℕ → ℕ → ℕ → Option ℕ → Type 0
  IsOccurrence i n occurrence none = matches_in i n < occurrence
  IsOccurrence i n occurrence (some k) =
      (i ≤ k)
      × (k < i + n)
      × (is_match p needle (get_or elements k []) ≡ true)
      × (suc (matches_in i (k - i)) ≡ occurrence)

  matches_in-suc :
      (i n k : ℕ)
      → suc i ≤ k
      → matches_in i (k - i)
        ≡ (if is_match p needle (get_or elements i []) then 1 else 0)
          + matches_in (suc i) (k - suc i)
  unfolding matches_in
  matches_in-suc i n k le =
      let more : k - i ≡ suc (k - suc i) = omega (arith, le) in ap (matches_in i) more

  none_before : (i : ℕ) → matches_in i (i - i) ≡ 0
  unfolding matches_in
  none_before i = let none_left : i - i ≡ 0 = omega arith in ap (matches_in i) none_left

  -- An occurrence behind index `i`, counted from `i` on.
  IsOccurrence-suc :
      (i n left occurrence : ℕ) (r : Option ℕ)
      → (if is_match p needle (get_or elements i []) then 1 else 0) + left ≡ occurrence
      → IsOccurrence (suc i) n left r
      → IsOccurrence i (suc n) occurrence r
  unfolding matches_in
  IsOccurrence-suc i n left occurrence none eq h = omega (arith, eq, h)
  IsOccurrence-suc i n left occurrence (some k) eq (after, before, match, count) = (
    omega (arith, after),
    omega (arith, before),
    match,
    omega (arith, matches_in-suc i n k after, eq, count),
  )

  find_occurrence-IsOccurrence :
      (i n occurrence : ℕ)
      → 1 ≤ occurrence
      → IsOccurrence i n occurrence (find_occurrence p needle elements i n occurrence)
  unfolding find_occurrence matches_in
  find_occurrence-IsOccurrence i zero occurrence h = h
  find_occurrence-IsOccurrence i (suc n) occurrence h =
      elim (Bool-cases (is_match p needle (get_or elements i []))) [
        | inl found ↦ elim (Bool-cases (occurrence - 1 == 0)) [
          | inl last ↦
              rw (found, last)
                (omega arith, omega arith, found, ground (arith, last, h, none_before i))
          | inr more ↦
              rw (found, more)
                (IsOccurrence-suc i n (occurrence - 1) occurrence _
                  (rw found (ground (arith, h, more)))
                  (find_occurrence-IsOccurrence (suc i) n (occurrence - 1) (ground (arith, more))))
        ]
        | inr other ↦ rw other (
            IsOccurrence-suc i n occurrence occurrence _ (rw other (omega arith))
              (find_occurrence-IsOccurrence (suc i) n occurrence h))
      ]

  -- What the result says of the elements.
  abbrev pub AnswersSearch : ℤ → ℤ → ℕ → Value → Type 0
  AnswersSearch start size occurrence null = first_of (length elements) start <ℤ pos 0
  AnswersSearch start size occurrence (integer (negsuc m)) =
      (m ≡ 0)
      × ((first : ℕ) × (first_of (length elements) start ≡ pos first)
          × ((length elements ≤ first)
              ⊎ (matches_in first (width (length elements - first) size) < occurrence)))
  AnswersSearch start size occurrence (integer (pos k)) =
      (first : ℕ) × (first_of (length elements) start ≡ pos first)
      × (first ≤ k)
      × (k < length elements)
      × ((size <ℤ pos 0) ⊎ (pos (k - first) <ℤ size))
      × (is_match p needle (get_or elements k []) ≡ true)
      × (suc (matches_in first (k - first)) ≡ occurrence)
  AnswersSearch start size occurrence _ = ⊥

  in_width :
      (k first : ℕ) (size : ℤ)
      → first ≤ k
      → k < first + width (length elements - first) size
      → (k < length elements) × ((size <ℤ pos 0) ⊎ (pos (k - first) <ℤ size))
  in_width k first (pos n) after before = ground (arith, after, before)
  in_width k first (negsuc m) after before = ground (arith, after, before)

  answer_lem :
      (start size : ℤ) (first occurrence : ℕ) (r : Option ℕ)
      → first_of (length elements) start ≡ pos first
      → IsOccurrence first (width (length elements - first) size) occurrence r
      → AnswersSearch start size occurrence (index_or_minus_one r)
  answer_lem start size first occurrence none eq h = (refl, (first, eq, inr h))
  answer_lem start size first occurrence (some k) eq (after, before, match, count) =
      let (inside, near) = in_width k first size after before in
      (first, eq, after, inside, near, match, count)

  -- For an occurrence of 1 at least: search_window gives null exactly if the start, counted from the
  -- end where it is negative, is before the array; an index only of an element behind the start and
  -- within the size, where that is not negative, that matches and has as many matches before it in
  -- the window as the occurrence wants; and otherwise -1, where the start is behind the array or the
  -- window, as many elements from the start as the size says or all that are left, has fewer matches.
  pub search_window-AnswersSearch :
      (start size : ℤ) (occurrence : ℕ)
      → 1 ≤ occurrence
      → AnswersSearch start size occurrence (search_window p needle elements start size occurrence)
  unfolding search_window
  search_window-AnswersSearch start size occurrence h = elim (Bool-cases (ltb_ℤ begin (pos 0))) [
    | inl low ↦ rw low (subst (λ z. z <ℤ pos 0) same (ground (arith, low)))
    | inr fine ↦ elim (Bool-cases (leb_ℤ (pos (length elements)) begin)) [
      | inl high ↦
          rw (fine, high)
            (
              refl,
              (pos_part begin, counted fine, inl (is_beyond begin (length elements) fine high)),
            )
      | inr inside ↦
          let less = is_inside begin (length elements) fine inside in
          rw (fine, inside, width_lem (length elements) (pos_part begin) size less)
            (answer_lem start size (pos_part begin) occurrence _ (counted fine)
              (find_occurrence-IsOccurrence (pos_part begin) _ occurrence h))
    ]
  ]
    where
      begin : ℤ
      begin = window_start (length elements) start

      same : begin ≡ first_of (length elements) start
      same = first_of_lem (length elements) start

      counted :
          ltb_ℤ begin (pos 0) ≡ false → first_of (length elements) start ≡ pos (pos_part begin)
      counted fine = sym same ∙ is_natural begin fine
