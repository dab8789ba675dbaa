-- ===== src/Challenge/Submit.antt =====
-- `SubmitAnswer` and `normalizeAnswer` of internal/database/questions.go. A transaction works on
-- a copy of the table, which takes the table's place when it commits.
pub mod Effect
pub mod Rows
pub mod Run
pub mod Pace
pub mod Answer
use striem.Common.{
  ℕ, ◌+◌, Bool, true, false, ◌||◌, List, [], ◌∷◌, Option, none, some, ◌==◌, if◌then◌else◌,
}
use striem.Common.Int.{ℤ, pos, min_int64, max_int64, sub_ℕ, ltb_ℤ, ◌-ℤ◌, wrap64}
use striem.Common.Text.{Text, same, trim_space}
use striem.Common.Result.{Result, ok, err, ◌>>=◌}
use striem.Challenge.Defs.{
  Question, Challenge, ChallengeState, AnswerResult, Host, Faults, question_not_found, storage,
  Error,
}
use striem.Challenge.Cooldown.{cooldown_after}
use striem.Challenge.Progress.{Row, Table, select, update}
use striem.Challenge.Configure.{Store}
use striem.Challenge.State.{challenge_state, parsed}

unfoldable pub normalize_answer : Host → Text → Bool → Text
normalize_answer h value case_sensitive =
    let trimmed = trim_space value in if case_sensitive then trimmed else h.to_lower trimmed

-- The comparison with each accepted answer, by their digests.
matches : Host → Bool → ℕ → List Text → Bool
unfolding normalize_answer
matches h case_sensitive hash [] = false
matches h case_sensitive hash (a ∷ accepted) =
    h.digest (normalize_answer h a case_sensitive) == hash || matches h case_sensitive hash accepted

unfoldable pub is_correct : Host → Question → Text → Bool
unfolding matches
is_correct h q answer =
    matches h q.case_sensitive (h.digest (normalize_answer h answer q.case_sensitive))
      q.accepted_answers

unfoldable pub find_question : Text → List Question → Option Question
find_question id [] = none
find_question id (q ∷ qs) = if same q.id id then some q else find_question id qs

-- `now.Sub(last)`: a difference beyond int64 is held at its end.
pub elapsed : ℕ → ℕ → ℤ
elapsed now last =
    let d = sub_ℕ now last in
    if ltb_ℤ max_int64 d then max_int64 else if ltb_ℤ d min_int64 then min_int64 else d

abbrev pub no_state : ChallengeState
no_state = record { questions = []; solved = 0; total = 0; completed = false; flag = [] }

-- The commit and the state behind it.
finish : Host → Faults → Store → Table → Bool → Bool → Store × Result Error AnswerResult
finish h f s t correct already = if f.commit then (s, err storage) else (
  record s { table = t },
  (do
    state ← challenge_state h f s.challenge t
    ok (record {
      correct = correct;
      already_solved = already;
      retry_after = pos 0;
      state = state;
    })),
)

-- A question that is solved: only an answer that was not kept is filled in.
resubmit : Host → Faults → Store → Question → Row → Text → Bool → Store × Result Error AnswerResult
unfolding finish
resubmit h f s q row answer correct = elim row.answer [
  | some kept ↦ finish h f s s.table correct true
  | none ↦
      if correct
      then (if f.write q.id
          then (s, err storage)
          else finish h f s
              (update q.id q.revision (λ r. record r { answer = some answer }) s.table) true true)
      else finish h f s s.table false true
]

-- The row after an attempt that counts. `COALESCE` keeps a column where the new value is null.
unfoldable pub attempted : Host → Bool → Text → ℕ → Row → Row
attempted h correct answer now r =
    let stamp = h.format_time now in
    record r {
      attempts = r.attempts + 1;
      last_attempt = some stamp;
      solved_at = if correct then some stamp else r.solved_at;
      answer = if correct then some answer else r.answer;
    }

attempt : Host → Faults → Store → Question → Text → Bool → ℕ → Store × Result Error AnswerResult
unfolding finish attempted
attempt h f s q answer correct now =
    if f.write q.id
    then (s, err storage)
    else finish h f s (update q.id q.revision (attempted h correct answer now) s.table) correct
        false

-- The wait that is left behind the last attempt, at most 0 if there is none.
unfoldable pub remaining : Host → Challenge → Row → ℕ → Result Error ℤ
unfolding elapsed parsed
remaining h ch row now = elim row.last_attempt [
  | none ↦ ok (pos 0)
  | some text ↦
      let cooldown = cooldown_after ch row.attempts in
      if ltb_ℤ (pos 0) cooldown
      then (do last ← parsed h text; ok (wrap64 (cooldown -ℤ elapsed now last)))
      else ok (pos 0)
]

-- A question that is not solved: an attempt within the cooldown is turned away.
try_answer :
    Host → Faults → Store → Question → Row → Text → Bool → ℕ → Store × Result Error AnswerResult
unfolding remaining attempt
try_answer h f s q row answer correct now = elim (remaining h s.challenge row now) [
  | err e ↦ (s, err e)
  | ok wait ↦
      if ltb_ℤ (pos 0) wait
      then (
        s,
        ok (record {
          correct = false;
          already_solved = false;
          retry_after = wait;
          state = no_state;
        }),
      )
      else attempt h f s q answer correct now
]

-- The transaction on the row of the question.
answer_row :
    Host
    → Faults
    → Store
    → Question
    → Text
    → Bool
    → ℕ
    → Option Row
    → Store × Result Error AnswerResult
unfolding resubmit try_answer
answer_row h f s q answer correct now none = (s, err storage)
answer_row h f s q answer correct now (some row) = elim row.solved_at [
  | some stamp ↦ resubmit h f s q row answer correct
  | none ↦ try_answer h f s q row answer correct now
]

answer_question : Host → Faults → Store → Question → Text → ℕ → Store × Result Error AnswerResult
unfolding answer_row is_correct
answer_question h f s q raw now =
    let answer = trim_space raw in
    if f.begin || f.query q.id
    then (s, err storage)
    else answer_row h f s q answer (is_correct h q answer) now (select q.id q.revision s.table)

unfoldable pub submit_answer :
    Host → Faults → Store → Text → Text → ℕ → Store × Result Error AnswerResult
unfolding find_question answer_question
submit_answer h f s id raw now = elim (find_question id s.challenge.questions) [
  | none ↦ (s, err question_not_found)
  | some q ↦ answer_question h f s q raw now
]
