-- ===== src/Challenge/Submit/Run.antt =====
-- Sequences of submissions: what is solved stays solved, nothing is solved without an accepted
-- answer, and guessing takes the time that the cooldowns add up to.
use mathlib.Core.Path.{subst}
use striem.Common.{
  ap, ◌⊎◌, ℕ, ◌≡◌, refl, ◌∙◌, inl, inr, List, [], ◌∷◌, Option, none, some, arith, is_some, true,
  false, Bool-cases,
}
use striem.Common.Text.{Text, trim_space}
use striem.Challenge.Defs.{Challenge, Host, Faults}
use striem.Challenge.Progress.{Row, IsKeyed, find}
use striem.Challenge.Configure.{Store}
use striem.Challenge.Submit.{attempted, submit_answer}
use striem.Challenge.Submit.Effect.{submit_answer-Effect}
use striem.Challenge.Submit.Rows.{
  RowStep, kept, fills, counts, row_of_Effect, IsKeyed-of_Effect, challenge_of_Effect, IsAccepted,
}

-- One request, with the statements of the database that fail while it is served.
pub record Submission : Type 0 where
  pub faults : Faults
  pub id : Text
  pub answer : Text
  pub now : ℕ

abbrev pub after : Host → Submission → Store → Store
after h x s = (submit_answer h x.faults s x.id x.answer x.now).0

unfoldable pub run : Host → List Submission → Store → Store
run h [] s = s
run h (x ∷ xs) s = run h xs (after h x s)

module _ (h : Host) (x : Submission) (s : Store) where
  pub after-row :
      (id : Text) (row : Row)
      → IsKeyed s.table
      → find id s.table ≡ some row
      → (row' : Row) × (find id (after h x s).table ≡ some row')
        × RowStep h s.challenge id x.answer x.now row row'
  after-row id row k e =
      row_of_Effect h s x.id x.answer x.now (after h x s) id row
        (submit_answer-Effect h x.faults s x.id x.answer x.now) k e

  pub after-IsKeyed : IsKeyed s.table → IsKeyed (after h x s).table
  after-IsKeyed =
      IsKeyed-of_Effect h s x.id x.answer x.now (after h x s)
        (submit_answer-Effect h x.faults s x.id x.answer x.now)

  pub after-challenge : (after h x s).challenge ≡ s.challenge
  after-challenge =
      challenge_of_Effect h s x.id x.answer x.now (after h x s)
        (submit_answer-Effect h x.faults s x.id x.answer x.now)

-- `row'` keeps the solution of `row`, and all that was counted for it.
pub record KeepsSolution (row row' : Row) : Type 0 where
  pub solved_at : row'.solved_at ≡ row.solved_at
  pub attempts : row'.attempts ≡ row.attempts
  pub last_attempt : row'.last_attempt ≡ row.last_attempt
  pub revision : row'.revision ≡ row.revision

step-KeepsSolution :
    (h : Host) (ch : Challenge) (id raw : Text) (now : ℕ) {row row' : Row}
    → RowStep h ch id raw now row row'
    → is_some row.solved_at ≡ true
    → KeepsSolution row row'
step-KeepsSolution h ch id raw now kept solved = record {
  solved_at = refl;
  attempts = refl;
  last_attempt = refl;
  revision = refl;
}
step-KeepsSolution h ch id raw now (fills answer _) solved = record {
  solved_at = refl;
  attempts = refl;
  last_attempt = refl;
  revision = refl;
}
step-KeepsSolution h ch id raw now (counts _ _ _ _ _ unsolved _ _) solved = absurd (ground arith)

-- A question that is solved stays solved, at the same time and with the same count of attempts,
-- whatever is submitted and whatever statement of the database fails.
pub run-KeepsSolution :
    (h : Host) (xs : List Submission) (s : Store) (id : Text) (row : Row)
    → IsKeyed s.table
    → find id s.table ≡ some row
    → is_some row.solved_at ≡ true
    → (row' : Row) × (find id (run h xs s).table ≡ some row') × KeepsSolution row row'
unfolding run
run-KeepsSolution h [] s id row k e solved =
    (row, e, record { solved_at = refl; attempts = refl; last_attempt = refl; revision = refl })
run-KeepsSolution h (x ∷ xs) s id row k e solved =
    let (mid, found, step) = after-row h x s id row k e in
    let first = step-KeepsSolution h s.challenge id x.answer x.now step solved in
    let (row', last, rest) =
      run-KeepsSolution h xs (after h x s) id mid (after-IsKeyed h x s k) found
        (rw first.solved_at solved) in
    (
      row',
      last,
      record {
        solved_at = rest.solved_at ∙ first.solved_at;
        attempts = rest.attempts ∙ first.attempts;
        last_attempt = rest.last_attempt ∙ first.last_attempt;
        revision = rest.revision ∙ first.revision;
      },
    )

step_solved :
    (h : Host) (ch : Challenge) (id raw : Text) (now : ℕ) {row row' : Row}
    → RowStep h ch id raw now row row'
    → row.solved_at ≡ none
    → is_some row'.solved_at ≡ true
    → IsAccepted h ch id (trim_space raw) × (row'.answer ≡ some (trim_space raw))
unfolding attempted
step_solved h ch id raw now kept open' solved = absurd (ground arith)
step_solved h ch id raw now (fills answer closed) open' solved = absurd (ground arith)
step_solved h ch id raw now (counts right answer wait given accepted _ _ _) open' solved =
    let yes : right ≡ true = ground arith in
    (subst (IsAccepted h ch id) given (accepted yes), rw yes (ap some given))

is_some-false : {A : Type 0} (o : Option A) → is_some o ≡ false → o ≡ none
is_some-false none h = refl
is_some-false (some a) h = cc

-- Among the submissions is one whose answer, trimmed, is accepted by the question `id`.
abbrev pub SomeAccepted : Host → Challenge → Text → List Submission → Type 0
SomeAccepted h ch id [] = ⊥
SomeAccepted h ch id (x ∷ xs) = IsAccepted h ch id (trim_space x.answer) ⊎ SomeAccepted h ch id xs

-- A question that was not solved before some submissions and is solved after them was solved by
-- one of them, whose normalised answer has the digest of an accepted answer.
pub run-SomeAccepted :
    (h : Host) (xs : List Submission) (s : Store) (id : Text) (row row' : Row)
    → IsKeyed s.table
    → find id s.table ≡ some row
    → row.solved_at ≡ none
    → find id (run h xs s).table ≡ some row'
    → is_some row'.solved_at ≡ true
    → SomeAccepted h s.challenge id xs
unfolding run
run-SomeAccepted h [] s id row row' k e open' e' solved = absurd (ground arith)
run-SomeAccepted h (x ∷ xs) s id row row' k e open' e' solved =
    let (mid, found, step) = after-row h x s id row k e in
    elim (Bool-cases (is_some mid.solved_at)) [
      | inl now_solved ↦ inl (step_solved h s.challenge id x.answer x.now step open' now_solved).0
      | inr still_open ↦ inr (
          subst (λ (ch : Challenge). SomeAccepted h ch id xs) (after-challenge h x s)
            (run-SomeAccepted h xs (after h x s) id mid row' (after-IsKeyed h x s k) found
              (is_some-false mid.solved_at still_open) e' solved))
    ]
