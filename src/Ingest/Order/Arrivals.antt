-- ===== src/Ingest/Order/Arrivals.antt =====
-- Every order in which the results can come leads to the rows in the order of the records.
use striem.Common.{
  ℕ, zero, suc, ◌≤◌, ◌≡◌, refl, sym, ◌∙◌, true, false, ◌&&◌, ◌||◌, List, [], ◌∷◌, Option, none,
  some, length, leb, ◌==◌, ==_iff, if◌then◌else◌, Bool-cases, inl, inr, arith,
}
use mathlib.Core.Path.{subst}
use striem.Common.Text.{Text}
use striem.Common.Result.{Result, ok, err, ◌>>=◌}
use striem.Ingest.Order.{Buffer, find_result, delete_result, accept_result, start, accept_all}
use striem.Ingest.Order.Sequence.{
  in_order, has, IsNew, find_result-delete_ne, Inv, Drained, drain_lem,
}

-- The numbers that have come, the last of them first.
push : List ℕ → List ℕ → List ℕ
push [] arrived = arrived
push (i ∷ order) arrived = push order (i ∷ arrived)

has-push :
    (i : ℕ) (order arrived : List ℕ) → has i (push order arrived) ≡ has i order || has i arrived
unfolding has push
has-push i [] arrived = refl
has-push i (j ∷ order) arrived = ground (arith, has-push i order (j ∷ arrived))

module _ (f : ℕ → Option Text) where
  accept-Inv :
      (arrived : List ℕ) (i : ℕ) (b : Buffer)
      → 1 ≤ i
      → has i arrived ≡ false
      → Inv f arrived b
      → Inv f (i ∷ arrived) (record b { buffered = (i, f i) ∷ delete_result i b.buffered })
  unfolding has find_result
  accept-Inv arrived i b low new v = record {
    count = v.count;
    next = v.next;
    rows = v.rows;
    past = λ j one le. ground (arith, v.past j one le);
    entries = entries;
  }
    where
      ahead : b.next_record ≤ i
      ahead = elim (Bool-cases (leb b.next_record i)) [
        | inl behind ↦ ground (arith, behind)
        | inr before ↦ ground (arith, v.past i low (ground (arith, before, v.next)), new)
      ]

      entries :
          (j : ℕ)
          → (if j == i then some (f i) else find_result j (delete_result i b.buffered)) ≡ (
              if (if j == i then true else has j arrived) && leb b.next_record j
              then some (f j)
              else none)
      entries j = elim (Bool-cases (j == i)) [
        | inl eq ↦
            subst
              (λ n. (if n == i then some (f i) else find_result n (delete_result i b.buffered)) ≡ (
                if (if n == i then true else has n arrived) && leb b.next_record n
                then some (f n)
                else none))
              (sym ((==_iff j i).0 eq)) (ground (arith, ahead))
        | inr ne ↦ ground (arith, ne, find_result-delete_ne j i b.buffered ne ∙ v.entries j)
      ]

  start-Inv : Inv f [] start
  unfolding has find_result in_order
  start-Inv = record {
    count = 0;
    next = refl;
    rows = refl;
    past = λ i low high. ground (arith, low, high);
    entries = λ i. refl;
  }

  accept_result-Drained :
      (arrived : List ℕ) (i : ℕ) (b : Buffer)
      → 1 ≤ i
      → has i arrived ≡ false
      → Inv f arrived b
      → Drained f (i ∷ arrived) (accept_result i (f i) b)
  unfolding accept_result
  accept_result-Drained arrived i b low new v =
      drain_lem f (length ((i, f i) ∷ delete_result i b.buffered)) (i ∷ arrived) _ (omega arith)
        (accept-Inv arrived i b low new v)

  after-Drained :
      (order arrived : List ℕ) (r : Result ℕ Buffer)
      → Drained f arrived r
      → ((b : Buffer)
          → Inv f arrived b
          → has b.next_record arrived ≡ false
          → Drained f (push order arrived) (accept_all f order b))
      → Drained f (push order arrived) (r >>= accept_all f order)
  unfolding Drained
  after-Drained order arrived (ok b) h rest = rest b h.0 h.1
  after-Drained order arrived (err k) h rest = (h.0, has-push k order arrived ∙ ground (arith, h.1))

  accept_all-Drained :
      (order arrived : List ℕ) (b : Buffer)
      → IsNew order
      → ((i : ℕ) → has i order ≡ true → (1 ≤ i) × (has i arrived ≡ false))
      → Inv f arrived b
      → has b.next_record arrived ≡ false
      → Drained f (push order arrived) (accept_all f order b)
  unfolding accept_all Drained push has
  accept_all-Drained [] arrived b distinct new v quiet = (v, quiet)
  accept_all-Drained (i ∷ order) arrived b distinct new v quiet =
      after-Drained order (i ∷ arrived) (accept_result i (f i) b)
        (accept_result-Drained arrived i b (this_one.0) (this_one.1) v)
        (λ later v' quiet'.
          accept_all-Drained order (i ∷ arrived) later distinct.1 others v' quiet')
    where
      this_one : (1 ≤ i) × (has i arrived ≡ false)
      this_one = new i (ground arith)

      others : (j : ℕ) → has j order ≡ true → (1 ≤ j) × (has j (i ∷ arrived) ≡ false)
      others j h = (
        (old j h).0,
        elim (Bool-cases (j == i)) [
          | inl eq ↦ cc (subst (λ n. has n order ≡ true) ((==_iff j i).0 eq) h, distinct.0)
          | inr ne ↦ ground (arith, ne, (old j h).1)
        ],
      )
        where
          old : (j : ℕ) → has j order ≡ true → (1 ≤ j) × (has j arrived ≡ false)
          old j h = new j (ground (arith, h))

  in_order-err : (k n : ℕ) → k ≤ n → in_order f k ≡ err k → in_order f n ≡ err k
  unfolding in_order
  in_order-err k zero le h =
      let first : k ≡ 0 = omega (arith, le) in subst (λ m. in_order f m ≡ err k) first h
  in_order-err k (suc n) le h = elim (Bool-cases (k == suc n)) [
    | inl last ↦ subst (λ m. in_order f m ≡ err k) ((==_iff k (suc n)).0 last) h
    | inr later ↦ rw (in_order-err k n (ground (arith, le, later)) h) refl
  ]

-- The rows that are written.
abbrev pub written_of : Result ℕ Buffer → Result ℕ (List Text)
written_of (ok b) = ok b.written
written_of (err k) = err k

-- The numbers of n records, in some order.
pub record IsOrder (n : ℕ) (order : List ℕ) : Type 0 where
  pub distinct : IsNew order
  pub whole : (i : ℕ) → has i order ≡ (leb 1 i && leb i n)

-- Whatever order the results of n records come in, each once, the rows written are those of the
-- records one after the other; or the error of the first record that has one is returned.
pub accept_all-in_order :
    (f : ℕ → Option Text) (n : ℕ) (order : List ℕ)
    → IsOrder n order
    → written_of (accept_all f order start) ≡ in_order f n
unfolding has Drained
accept_all-in_order f n order o = finish (accept_all f order start) (
    accept_all-Drained f order [] start o.distinct (λ i h. (ground (arith, h, o.whole i), refl))
      (start-Inv f) refl)
  where
    arrived : (i : ℕ) → has i (push order []) ≡ (leb 1 i && leb i n)
    arrived i = has-push i order [] ∙ ground (arith, o.whole i)

    most :
        (b : Buffer) (v : Inv f (push order []) b)
        → has b.next_record (push order []) ≡ false
        → n ≤ v.count
    most b v quiet = ground (arith, v.next, sym (arrived b.next_record) ∙ quiet)

    least : (b : Buffer) (v : Inv f (push order []) b) → v.count ≤ n
    least b v = elim (Bool-cases (leb 1 v.count)) [
      | inl one ↦
          ground (arith, sym (arrived v.count) ∙ v.past v.count (ground (arith, one)) (omega arith))
      | inr nothing ↦ ground (arith, nothing)
    ]

    all_of :
        (b : Buffer) (v : Inv f (push order []) b)
        → has b.next_record (push order []) ≡ false
        → v.count ≡ n
    all_of b v quiet = omega (arith, most b v quiet, least b v)

    finish : (r : Result ℕ Buffer) → Drained f (push order []) r → written_of r ≡ in_order f n
    finish (ok b) (v, quiet) =
        sym (subst (λ m. in_order f m ≡ ok b.written) (all_of b v quiet) v.rows)
    finish (err k) (h, there) = sym (in_order-err f k n (ground (arith, sym (arrived k) ∙ there)) h)
