-- ===== src/Challenge/Submit/Effect.antt =====
-- What one submission may do to the stored progress.
use striem.Common.{
  ℕ, ◌≡◌, refl, ◌⊎◌, inl, inr, Bool, true, false, ◌||◌, none, some, arith, Bool-cases, Option-cases,
  is_some,
}
use striem.Common.Int.{ℤ, pos, ltb_ℤ}
use striem.Common.Text.{Text, trim_space}
use striem.Common.Result.{ok, Result-cases}
use striem.Challenge.Defs.{Question, Host, Faults}
use striem.Challenge.Progress.{Row, Table, select, update}
use striem.Challenge.Configure.{Store}
use striem.Challenge.Submit.{
  is_correct, find_question, finish, resubmit, attempted, attempt, remaining, try_answer,
  answer_row, answer_question, submit_answer,
}

-- The effect of a submission at time `now` on the store: none, an answer that is kept for a
-- solved question, or an attempt that counts, which was made after the wait.
pub data Effect (h : Host) (s : Store) (id raw : Text) (now : ℕ) (s' : Store) : Type 0 where
  unchanged : s' ≡ s → Effect h s id raw now s'
  filled :
      (q : Question) (row : Row) (answer : Text)
      → select q.id q.revision s.table ≡ some row
      → is_some row.solved_at ≡ true
      → is_correct h q answer ≡ true
      → s' ≡ record s {
        table = update q.id q.revision (λ r. record r { answer = some answer }) s.table;
      }
      → Effect h s id raw now s'
  counted :
      (q : Question) (row : Row) (answer : Text) (wait : ℤ)
      → answer ≡ trim_space raw
      → find_question id s.challenge.questions ≡ some q
      → select q.id q.revision s.table ≡ some row
      → row.solved_at ≡ none
      → remaining h s.challenge row now ≡ ok wait
      → ltb_ℤ (pos 0) wait ≡ false
      → s' ≡ record s {
        table = update q.id q.revision (attempted h (is_correct h q answer) answer now) s.table;
      }
      → Effect h s id raw now s'

module _ (h : Host) (f : Faults) (s : Store) where
  finish_cases :
      (t : Table) (correct already : Bool)
      → ((finish h f s t correct already).0 ≡ s)
        ⊎ ((finish h f s t correct already).0 ≡ record s { table = t })
  unfolding finish
  finish_cases t correct already = ground arith

  answer_row-none :
      (q : Question) (answer : Text) (correct : Bool) (now : ℕ)
      → (answer_row h f s q answer correct now none).0 ≡ s
  unfolding answer_row
  answer_row-none q answer correct now = refl

  finish_unchanged : (correct already : Bool) → (finish h f s s.table correct already).0 ≡ s
  unfolding finish
  finish_unchanged correct already = ground arith

  module _ (id raw : Text) (q : Question) (known : find_question id s.challenge.questions ≡ some q)
      (row : Row) (found : select q.id q.revision s.table ≡ some row) (now : ℕ) (answer : Text)
      (given : answer ≡ trim_space raw) where
    resubmit-Effect :
        is_some row.solved_at ≡ true
        → Effect h s id raw now (resubmit h f s q row answer (is_correct h q answer)).0
    unfolding resubmit
    resubmit-Effect solved = elim (Option-cases row.answer) [
      | inr (kept, e) ↦ unchanged (rw (e, resubmit) (finish_unchanged _ true))
      | inl e ↦ elim (Bool-cases (is_correct h q answer)) [
        | inr wrong ↦ unchanged (rw (e, wrong, resubmit) (finish_unchanged false true))
        | inl right ↦ elim (Bool-cases (f.write q.id)) [
          | inl fails ↦ unchanged (rw (e, right, fails, resubmit))
          | inr works ↦
              rw (e, right, works, resubmit)
                (elim (finish_cases _ true true) [
                  | inl same ↦ unchanged same
                  | inr new ↦ filled q row answer found solved right new
                ])
        ]
      ]
    ]

    attempt-Effect :
        (wait : ℤ)
        → row.solved_at ≡ none
        → remaining h s.challenge row now ≡ ok wait
        → ltb_ℤ (pos 0) wait ≡ false
        → Effect h s id raw now (attempt h f s q answer (is_correct h q answer) now).0
    unfolding attempt
    attempt-Effect wait unsolved w done = elim (Bool-cases (f.write q.id)) [
      | inl fails ↦ unchanged (rw (fails, attempt))
      | inr works ↦
          rw (works, attempt)
            (elim (finish_cases _ _ false) [
              | inl same ↦ unchanged same
              | inr new ↦ counted q row answer wait given known found unsolved w done new
            ])
    ]

    try_answer-Effect :
        row.solved_at ≡ none
        → Effect h s id raw now (try_answer h f s q row answer (is_correct h q answer) now).0
    unfolding try_answer
    try_answer-Effect unsolved = elim (Result-cases (remaining h s.challenge row now)) [
      | inl (wait, w) ↦ elim (Bool-cases (ltb_ℤ (pos 0) wait)) [
        | inl early ↦ unchanged (ground arith)
        | inr done ↦ rw (w, done, try_answer) (attempt-Effect wait unsolved w done)
      ]
      | inr (e, failed) ↦ unchanged (ground arith)
    ]

    answer_row-Effect :
        Effect h s id raw now (answer_row h f s q answer (is_correct h q answer) now (some row)).0
    unfolding answer_row
    answer_row-Effect = elim (Option-cases row.solved_at) [
      | inl e ↦ rw (e, answer_row) (try_answer-Effect e)
      | inr (stamp, e) ↦ rw (e, answer_row) (resubmit-Effect (rw e))
    ]

  answer_question-Effect :
      (id : Text) (q : Question)
      → find_question id s.challenge.questions ≡ some q
      → (raw : Text) (now : ℕ) → Effect h s id raw now (answer_question h f s q raw now).0
  unfolding answer_question
  answer_question-Effect id q known raw now = elim (Bool-cases (f.begin || f.query q.id)) [
    | inl fails ↦ unchanged (rw (fails, answer_question))
    | inr works ↦ elim (Option-cases (select q.id q.revision s.table)) [
      | inl missing ↦ unchanged (
          rw (works, missing, answer_question)
            (answer_row-none q (trim_space raw) (is_correct h q (trim_space raw)) now))
      | inr (row, found) ↦
          rw (works, found, answer_question)
            (answer_row-Effect id raw q known row found now (trim_space raw) refl)
    ]
  ]

  -- Every submission, whatever fails on the way, has one of the effects.
  pub submit_answer-Effect :
      (id raw : Text) (now : ℕ) → Effect h s id raw now (submit_answer h f s id raw now).0
  unfolding submit_answer
  submit_answer-Effect id raw now = elim (Option-cases (find_question id s.challenge.questions)) [
    | inl unknown ↦ unchanged (rw (unknown, submit_answer))
    | inr (q, e) ↦ rw (e, submit_answer) (answer_question-Effect id q e raw now)
  ]
