-- ===== src/Challenge/State.antt =====
-- `ChallengeState` of internal/database/questions.go: what a team sees of its progress.
pub mod Flag
use striem.Common.{
  ℕ, ◌+◌, true, false, ◌&&◌, List, [], ◌∷◌, ◌++◌, Option, none, some, length, ltb, ◌==◌,
  if◌then◌else◌,
}
use striem.Common.Text.{Text}
use striem.Common.Result.{Result, ok, err, ◌>>=◌, ◌>>◌, fail_if}
use striem.Challenge.Defs.{
  Question, Challenge, QuestionState, ChallengeState, Host, Faults, storage, bad_time, unavailable,
  Error,
}
use striem.Challenge.Progress.{Row, Table, select}

or_fail : Option Row → Result Error Row
or_fail none = err unavailable
or_fail (some row) = ok row

unfoldable pub parsed : Host → Text → Result Error ℕ
parsed h text = elim (h.parse_time text) [ none ↦ err bad_time | some t ↦ ok t ]

text_or : Option Text → Text
text_or none = []
text_or (some s) = s

-- One round of the loop: the state of a question from its row.
question_state : Host → Question → Row → Result Error QuestionState
unfolding parsed text_or
question_state h q row = elim row.solved_at [
  | none ↦ ok (record {
    id = q.id;
    title = q.title;
    prompt = q.prompt;
    attempts = row.attempts;
    solved = false;
    solved_at = none;
    answer = [];
  })
  | some text ↦ do
    t ← parsed h text
    ok (record {
      id = q.id;
      title = q.title;
      prompt = q.prompt;
      attempts = row.attempts;
      solved = true;
      solved_at = some t;
      answer = text_or row.answer;
    })
]

-- The loop, with the states so far and the number of solved questions.
question_states :
    Host
    → Faults
    → Table
    → List Question
    → List QuestionState
    → ℕ
    → Result Error (List QuestionState × ℕ)
unfolding or_fail question_state
question_states h f t [] states solved = ok (states, solved)
question_states h f t (q ∷ qs) states solved = do
  fail_if (f.query q.id) storage
  row ← or_fail (select q.id q.revision t)
  state ← question_state h q row
  question_states h f t qs (states ++ state ∷ []) (if state.solved then solved + 1 else solved)

-- What follows the loop: the flag shows only when the challenge is completed.
assemble : Challenge → List QuestionState × ℕ → ChallengeState
assemble ch (states, solved) =
    let total = length ch.questions in
    let completed = ltb 0 total && solved == total in
    record {
      questions = states;
      solved = solved;
      total = total;
      completed = completed;
      flag = if completed then ch.flag else [];
    }

unfoldable pub challenge_state : Host → Faults → Challenge → Table → Result Error ChallengeState
unfolding question_states assemble
challenge_state h f ch t = do done ← question_states h f t ch.questions [] 0; ok (assemble ch done)
