-- ===== src/Deployment/Validate.antt =====
-- `validateChallenge` of internal/deployment/loader.go.
use striem.Common.{
  ◌*◌, ℕ, Bool, true, false, not, ◌&&◌, ◌||◌, List, [], ◌∷◌, none, some, length, ltb, leb, ◌==◌,
  if◌then◌else◌,
}
use striem.Common.Int.{ℤ, pos, ltb_ℤ, eqb_ℤ}
use striem.Common.Text.{Text, same, trim_space}
use striem.Common.Result.{Result, ok, err, ◌>>=◌, ◌>>◌, fail_if}
use striem.Challenge.Defs.{Question, Challenge}
use striem.Deployment.Defs.{
  Configured, Manifest, Reader, Invalid, bad_cooldown, cooldown_out_of_range, bad_max_cooldown,
  max_cooldown_out_of_range, flag_missing, flag_too_long, too_many_questions, bad_id, duplicate_id,
  bad_revision, bad_title, bad_prompt, bad_answer_count, bad_answer, duplicate_answer,
}

abbrev pub second : ℕ
second = 1_000_000_000

abbrev pub minute : ℕ
minute = 60_000_000_000

abbrev pub hour : ℕ
hour = 3_600_000_000_000

abbrev pub is_empty : Text → Bool
is_empty [] = true
is_empty (c ∷ s) = false

-- The key sets `seen` and `answerSet`.
unfoldable pub member : Text → List Text → Bool
member s [] = false
member s (t ∷ ts) = same s t || member s ts

-- `questionIDPattern`: ^[a-z0-9][a-z0-9_-]{0,63}$
id_start : ℕ → Bool
id_start c = (leb 97 c && leb c 122) || (leb 48 c && leb c 57)

id_rest : Text → Bool
unfolding id_start
id_rest [] = true
id_rest (c ∷ s) = (id_start c || c == 95 || c == 45) && id_rest s

unfoldable pub matches_id : Text → Bool
unfolding id_start id_rest
matches_id [] = false
matches_id (c ∷ s) = id_start c && id_rest s && leb (length s) 63

-- A duration that is set is read and kept in its range.
unfoldable pub duration_in : Reader → Text → ℤ → ℤ → ℤ → Invalid → Invalid → Result Invalid ℤ
duration_in r text default low high unread out =
    if is_empty (trim_space text) then ok default else elim (r.parse_duration text) [
      | none ↦ err unread
      | some d ↦ if ltb_ℤ d low || ltb_ℤ high d then err out else ok d
    ]

unfoldable pub answer_key : Reader → Bool → Text → Text
answer_key r case_sensitive answer = if case_sensitive then answer else r.to_lower answer

-- The loop over the accepted answers, with the keys so far.
unfoldable pub validate_answers : Reader → Bool → List Text → List Text → Result Invalid (List Text)
unfolding member answer_key
validate_answers r case_sensitive seen [] = ok []
validate_answers r case_sensitive seen (a ∷ rest) = do
  let answer = trim_space a
  fail_if (is_empty answer || ltb 512 (length answer)) bad_answer
  let key = answer_key r case_sensitive answer
  fail_if (member key seen) duplicate_answer
  answers ← validate_answers r case_sensitive (key ∷ seen) rest
  ok (answer ∷ answers)

-- One round of the loop over the questions, with the ids so far.
unfoldable pub validate_question : Reader → List Text → Configured → Result Invalid Question
unfolding member matches_id validate_answers
validate_question r seen c = do
  let id = trim_space c.id
  fail_if (not (matches_id id)) bad_id
  fail_if (member id seen) duplicate_id
  let revision = if eqb_ℤ c.revision (pos 0) then pos 1 else c.revision
  fail_if (ltb_ℤ revision (pos 1)) bad_revision
  let title = trim_space c.title
  fail_if (is_empty title || ltb 120 (length title)) bad_title
  let prompt = trim_space c.prompt
  fail_if (is_empty prompt || ltb 8192 (length prompt)) bad_prompt
  let count = length c.accepted_answers
  fail_if (count == 0 || ltb 20 count) bad_answer_count
  answers ← validate_answers r c.case_sensitive [] c.accepted_answers
  ok (record {
    id = id;
    revision = revision;
    title = title;
    prompt = prompt;
    accepted_answers = answers;
    case_sensitive = c.case_sensitive;
  })

unfoldable pub validate_questions :
    Reader → List Text → List Configured → Result Invalid (List Question)
unfolding validate_question
validate_questions r seen [] = ok []
validate_questions r seen (c ∷ cs) = do
  q ← validate_question r seen c
  qs ← validate_questions r (q.id ∷ seen) cs
  ok (q ∷ qs)

unfoldable pub validate_challenge : Reader → Manifest → Result Invalid Challenge
unfolding duration_in validate_questions
validate_challenge r m = do
  cooldown ←
      duration_in r m.submission_cooldown (pos (3 * second)) (pos 0) (pos minute) bad_cooldown
        cooldown_out_of_range
  max_cooldown ←
      duration_in r m.max_submission_cooldown (pos (2 * minute)) cooldown (pos hour)
        bad_max_cooldown max_cooldown_out_of_range
  let flag = trim_space m.flag
  fail_if (ltb 0 (length m.questions) && is_empty flag) flag_missing
  fail_if (ltb 512 (length flag)) flag_too_long
  fail_if (ltb 100 (length m.questions)) too_many_questions
  qs ← validate_questions r [] m.questions
  ok (record { flag = flag; cooldown = cooldown; max_cooldown = max_cooldown; questions = qs })
