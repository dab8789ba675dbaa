-- ===== src/Challenge/Submit/Rows.antt =====
-- The effect of submissions on the row of one question.
use mathlib.Core.Path.{subst}
use striem.Common.{
  ℕ, ◌≡◌, sym, ap, ◌∙◌, ◌⊎◌, inl, inr, Bool, true, false, ◌&&◌, List, [], ◌∷◌, none, some, arith,
  Bool-cases, is_some,
}
use striem.Common.Int.{ℤ, pos, ltb_ℤ, eqb_ℤ}
use striem.Common.Text.{Text, same, same-eq, trim_space}
use striem.Common.Result.{ok}
use striem.Challenge.Defs.{Question, Challenge, Host}
use striem.Challenge.Progress.{
  Row, Table, IsKeyed, find, select, update, find-update, select-find, update-IsKeyed,
}
use striem.Challenge.Configure.{Store}
use striem.Challenge.Submit.{is_correct, attempted, remaining, find_question}
use striem.Challenge.Submit.Effect.{Effect, unchanged, filled, counted}

-- `answer` is accepted by the configured question `id`.
abbrev pub IsAccepted : Host → Challenge → Text → Text → Type 0
IsAccepted h ch id answer =
    (q : Question) × (find_question id ch.questions ≡ some q) × (is_correct h q answer ≡ true)

-- What a submission at time `now` makes of the row of the question `id`.
pub data RowStep (h : Host) (ch : Challenge) (id raw : Text) (now : ℕ) (row : Row)
    : Row → Type 0 where
  kept : RowStep h ch id raw now row row
  fills :
      (answer : Text)
      → is_some row.solved_at ≡ true
      → RowStep h ch id raw now row (record row { answer = some answer })
  counts :
      (correct : Bool) (answer : Text) (wait : ℤ)
      → (answer ≡ trim_space raw)
      → (correct ≡ true → IsAccepted h ch id answer)
      → row.solved_at ≡ none
      → remaining h ch row now ≡ ok wait
      → ltb_ℤ (pos 0) wait ≡ false
      → RowStep h ch id raw now row (attempted h correct answer now row)

find-same : (j id : Text) (t : Table) → same j id ≡ true → find j t ≡ find id t
find-same j id t e = ap (λ v. find v t) (same-eq j id e)

-- An update of the selected row, seen from any row.
update_cases :
    (q : Question) (g : Row → Row) (t : Table) (id : Text) (row : Row) {chosen : Row}
    → IsKeyed t
    → select q.id q.revision t ≡ some chosen
    → find id t ≡ some row
    → (find id (update q.id q.revision g t) ≡ some row)
      ⊎ ((same q.id id ≡ true)
          × (row ≡ chosen)
          × (find id (update q.id q.revision g t) ≡ some (g row)))
update_cases q g t id row {chosen} k s e =
    elim (Bool-cases (same q.id id && eqb_ℤ row.revision q.revision)) [
      | inr other ↦ inl (ground (arith, find-update q.id q.revision g id t))
      | inl it ↦ inr (
        ground arith,
        ground (arith, select-find q.id q.revision t k, find-same q.id id t),
        ground (arith, find-update q.id q.revision g id t),
      )
    ]

find_question-same :
    (id : Text) (qs : List Question) {q : Question}
    → find_question id qs ≡ some q
    → same q.id id ≡ true
unfolding find_question
find_question-same id [] h = cc
find_question-same id (x ∷ qs) {q} h = elim (Bool-cases (same x.id id)) [
  | inl it ↦ let is : x ≡ q = ground arith in subst (λ (y : Question). same y.id id ≡ true) is it
  | inr other ↦ find_question-same id qs {q = q} (ground arith)
]

-- The question that one id finds is found by any id that it is the same as.
find_question-again :
    (id j : Text) (qs : List Question) {q : Question}
    → find_question id qs ≡ some q
    → same q.id j ≡ true
    → find_question j qs ≡ some q
find_question-again id j qs {q} h e =
    subst (λ v. find_question v qs ≡ some q)
      (sym (same-eq q.id id (find_question-same id qs h)) ∙ same-eq q.id j e) h

module _ (h : Host) (s : Store) (sent raw : Text) (now : ℕ) where
  pub row_of_Effect :
      (s' : Store) (id : Text) (row : Row)
      → Effect h s sent raw now s'
      → IsKeyed s.table
      → find id s.table ≡ some row
      → (row' : Row) × (find id s'.table ≡ some row') × RowStep h s.challenge id raw now row row'
  row_of_Effect s' id row (unchanged e) k found = (row, rw e found, kept)
  row_of_Effect s' id row (filled q chosen answer sel solved right e) k found =
      elim (update_cases q (λ r. record r { answer = some answer }) s.table id row k sel found) [
        | inl old ↦ (row, rw e old, kept)
        | inr (it, is, new) ↦
            (record row { answer = some answer }, rw e new, fills answer (rw is solved))
      ]
  row_of_Effect s' id row (counted q chosen answer wait given known sel unsolved w done e) k found =
      let right = is_correct h q answer in
      let g : Row → Row = attempted h right answer now in
      elim (update_cases q g s.table id row k sel found) [
        | inl old ↦ (row, rw e old, kept)
        | inr (it, is, new) ↦ (
          attempted h (is_correct h q answer) answer now row,
          rw e new,
          counts (is_correct h q answer) answer wait given
              (λ yes. (q, find_question-again sent id s.challenge.questions known it, yes))
              (rw is unsolved) (rw is w) done,
        )
      ]

  pub IsKeyed-of_Effect :
      (s' : Store) → Effect h s sent raw now s' → IsKeyed s.table → IsKeyed s'.table
  IsKeyed-of_Effect s' (unchanged e) k = rw e k
  IsKeyed-of_Effect s' (filled q row answer _ _ _ e) k =
      rw e (update-IsKeyed q.id q.revision _ s.table k)
  IsKeyed-of_Effect s' (counted q row answer _ _ _ _ _ _ _ e) k =
      rw e (update-IsKeyed q.id q.revision _ s.table k)

  pub challenge_of_Effect : (s' : Store) → Effect h s sent raw now s' → s'.challenge ≡ s.challenge
  challenge_of_Effect s' (unchanged e) = ap (λ (x : Store). x.challenge) e
  challenge_of_Effect s' (filled q row answer _ _ _ e) = ap (λ (x : Store). x.challenge) e
  challenge_of_Effect s' (counted q row answer _ _ _ _ _ _ _ e) = ap (λ (x : Store). x.challenge) e
