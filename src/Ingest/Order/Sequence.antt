-- ===== src/Ingest/Order/Sequence.antt =====
-- Whatever order the results come in, the rows are written in the order of the records.
use striem.Common.{
  ℕ, zero, suc, ◌≤◌, ◌<◌, ◌≡◌, refl, sym, ap, ◌∙◌, Bool, true, false, ◌&&◌, List, [], ◌∷◌, ◌++◌,
  Option, none, some, length, leb, ◌==◌, ==_iff, if◌then◌else◌, Bool-cases, inl, inr, arith,
}
use mathlib.Core.Path.{subst}
use striem.Common.Text.{Text}
use striem.Common.Result.{Result, ok, err, ◌>>=◌}
use striem.Ingest.Order.{Buffer, find_result, delete_result, drain}

-- Records 1 to n one after the other, up to the first error.
abbrev pub row_of : ℕ → List Text → Option Text → Result ℕ (List Text)
row_of i rows none = err i
row_of i rows (some row) = ok (rows ++ (row ∷ []))

unfoldable pub in_order : (ℕ → Option Text) → ℕ → Result ℕ (List Text)
in_order f zero = ok []
in_order f (suc n) = in_order f n >>= λ rows. row_of (suc n) rows (f (suc n))

unfoldable pub has : ℕ → List ℕ → Bool
has i [] = false
has i (j ∷ js) = if i == j then true else has i js

abbrev pub IsNew : List ℕ → Type 0
IsNew [] = Unit {0}
IsNew (i ∷ is) = (has i is ≡ false) × IsNew is

pub find_result-delete_same :
    (i : ℕ) (b : List (ℕ × Option Text)) → find_result i (delete_result i b) ≡ none
unfolding find_result delete_result
find_result-delete_same i [] = refl
find_result-delete_same i ((j, row) ∷ b) = ground (arith, find_result-delete_same i b)

pub find_result-delete_ne :
    (i j : ℕ) (b : List (ℕ × Option Text))
    → (i == j) ≡ false
    → find_result i (delete_result j b) ≡ find_result i b
unfolding find_result delete_result
find_result-delete_ne i j [] ne = refl
find_result-delete_ne i j ((k, row) ∷ b) ne = ground (arith, ne, find_result-delete_ne i j b ne)

pub length-delete_result :
    (i : ℕ) (b : List (ℕ × Option Text)) → length (delete_result i b) ≤ length b
unfolding delete_result
length-delete_result i [] = omega arith
length-delete_result i ((j, row) ∷ b) = ground (arith, length-delete_result i b)

length-delete_found :
    (i : ℕ) (b : List (ℕ × Option Text)) {row : Option Text}
    → find_result i b ≡ some row
    → length (delete_result i b) < length b
unfolding find_result delete_result
length-delete_found i [] h = cc
length-delete_found i ((j, row) ∷ b) {row = found} h = elim (Bool-cases (i == j)) [
  | inl here ↦ ground (arith, here, length-delete_result i b)
  | inr there ↦ ground (arith, there, length-delete_found i b {row = found} (later there))
]
  where
    later : (i == j) ≡ false → find_result i b ≡ some found
    later there = ground (arith, there, h)

module _ (f : ℕ → Option Text) where
  -- What has been written are the first records, all of which have come; of the others those that
  -- have come are in the buffer.
  pub record Inv (arrived : List ℕ) (b : Buffer) : Type 0 where
    pub count : ℕ
    pub next : b.next_record ≡ suc count
    pub rows : in_order f count ≡ ok b.written
    pub past : (i : ℕ) → 1 ≤ i → i ≤ count → has i arrived ≡ true
    pub entries :
        (i : ℕ)
        → find_result i b.buffered
          ≡ (if has i arrived && leb b.next_record i then some (f i) else none)

  unfoldable pub Drained : List ℕ → Result ℕ Buffer → Type 0
  Drained arrived (ok b) = Inv arrived b × (has b.next_record arrived ≡ false)
  Drained arrived (err k) = (in_order f k ≡ err k) × (has k arrived ≡ true)

  found_parts :
      (c : Bool) {row found : Option Text}
      → (if c then some row else none) ≡ some found
      → (c ≡ true) × (row ≡ found)
  found_parts c h = ground arith

  here :
      (arrived : List ℕ) (b : Buffer) {found : Option Text}
      → Inv arrived b
      → find_result b.next_record b.buffered ≡ some found
      → (has b.next_record arrived ≡ true) × (f b.next_record ≡ found)
  here arrived b {found} v h =
      let (there, is) =
        found_parts (has b.next_record arrived && leb b.next_record b.next_record)
          (sym (v.entries b.next_record) ∙ h) in
      (ground (arith, there), is)

  write-Inv :
      (arrived : List ℕ) (b : Buffer) (row : Text)
      → Inv arrived b
      → find_result b.next_record b.buffered ≡ some (some row)
      → Inv arrived (record {
        buffered = delete_result b.next_record b.buffered;
        next_record = suc b.next_record;
        written = b.written ++ (row ∷ []);
      })
  unfolding in_order
  write-Inv arrived b row v h = record {
    count = suc v.count;
    next = ap suc v.next;
    rows = rw (v.rows, this_row) refl;
    past = past;
    entries = entries;
  }
    where
      this_row : f (suc v.count) ≡ some row
      this_row = subst (λ n. f n ≡ some row) v.next (here arrived b v h).1

      this_one : has (suc v.count) arrived ≡ true
      this_one = subst (λ n. has n arrived ≡ true) v.next (here arrived b v h).0

      past : (i : ℕ) → 1 ≤ i → i ≤ suc v.count → has i arrived ≡ true
      past i low high = elim (Bool-cases (i == suc v.count)) [
        | inl last ↦
            subst (λ n. has n arrived ≡ true) (sym ((==_iff i (suc v.count)).0 last)) this_one
        | inr old ↦ v.past i low (ground (arith, old, high))
      ]

      entries :
          (i : ℕ)
          → find_result i (delete_result b.next_record b.buffered)
            ≡ (if has i arrived && leb (suc b.next_record) i then some (f i) else none)
      entries i = elim (Bool-cases (i == b.next_record)) [
        | inl eq ↦
            subst
              (λ n.
                find_result n (delete_result b.next_record b.buffered)
                ≡ (if has n arrived && leb (suc b.next_record) n then some (f n) else none))
              (sym ((==_iff i b.next_record).0 eq))
              (find_result-delete_same b.next_record b.buffered ∙ ground arith)
        | inr ne ↦
            find_result-delete_ne i b.next_record b.buffered ne ∙ v.entries i ∙ ground (arith, ne)
      ]

  error_lem :
      (arrived : List ℕ) (b : Buffer)
      → Inv arrived b
      → find_result b.next_record b.buffered ≡ some none
      → (in_order f b.next_record ≡ err b.next_record) × (has b.next_record arrived ≡ true)
  unfolding in_order
  error_lem arrived b v h = (
    subst (λ n. in_order f n ≡ err n) (sym v.next)
        (rw (v.rows, subst (λ n. f n ≡ none) v.next (here arrived b v h).1) refl),
    (here arrived b v h).0,
  )

  absent_lem :
      (arrived : List ℕ) (b : Buffer)
      → Inv arrived b
      → find_result b.next_record b.buffered ≡ none
      → has b.next_record arrived ≡ false
  absent_lem arrived b v h =
      not_some (has b.next_record arrived) b.next_record (f b.next_record)
        (sym (v.entries b.next_record) ∙ h)
    where
      not_some :
          (c : Bool) (n : ℕ) (row : Option Text)
          → (if c && leb n n then some row else none) ≡ none
          → c ≡ false
      not_some c n row h = ground (arith, h)

  find_result-nil : (i : ℕ) (b : List (ℕ × Option Text)) → length b ≤ 0 → find_result i b ≡ none
  unfolding find_result
  find_result-nil i [] le = refl
  find_result-nil i (x ∷ b) le = ground (arith, le)

  round_lem :
      (fuel : ℕ) (arrived : List ℕ) (b : Buffer)
      → length b.buffered ≤ suc fuel
      → Inv arrived b
      → ((later : Buffer)
          → length later.buffered ≤ fuel
          → Inv arrived later
          → Drained arrived (drain fuel later))
      → (o : Option (Option Text)) → find_result b.next_record b.buffered ≡ o
      → Drained arrived (elim o [
        | none ↦ ok b
        | some none ↦ err b.next_record
        | some (some row) ↦ drain fuel (record {
          buffered = delete_result b.next_record b.buffered;
          next_record = suc b.next_record;
          written = b.written ++ (row ∷ []);
        })
      ])
  unfolding Drained
  round_lem fuel arrived b le v rest none e = (v, absent_lem arrived b v e)
  round_lem fuel arrived b le v rest (some none) e = error_lem arrived b v e
  round_lem fuel arrived b le v rest (some (some row)) e =
      rest _ (omega (arith, le, length-delete_found b.next_record b.buffered e))
        (write-Inv arrived b row v e)

  pub drain_lem :
      (fuel : ℕ) (arrived : List ℕ) (b : Buffer)
      → length b.buffered ≤ fuel
      → Inv arrived b
      → Drained arrived (drain fuel b)
  unfolding drain Drained
  drain_lem zero arrived b le v =
      (v, absent_lem arrived b v (find_result-nil b.next_record b.buffered le))
  drain_lem (suc fuel) arrived b le v =
      round_lem fuel arrived b le v (drain_lem fuel arrived) (find_result b.next_record b.buffered)
        refl
