-- ===== src/Challenge/Tests.antt =====
-- A challenge of two questions, and the theorems on it.
use striem.Common.{
  ℕ, ◌+◌, ◌*◌, ◌≤◌, ◌≡◌, refl, ◌⊎◌, true, false, [], ◌∷◌, Option, none, some, arith, is_some, inr,
}
use striem.Common.Int.{pos, wrap64, ◌+ℤ◌, ◌-ℤ◌}
use striem.Common.Text.{Text, codes, trim_space, same}
use striem.Common.Result.{ok, err}
use striem.Challenge.Defs.{Question, Challenge, ChallengeState, Host, IsClock, Faults, Error}
use striem.Challenge.Cooldown.{cooldown_after, cooldown_after_lem}
use striem.Challenge.Progress.{Row, Table, IsKeyed, find, select, update, new_row, upsert}
use striem.Challenge.Configure.{Store, configure}
use striem.Challenge.Configure.Reconcile.{HasDistinctIds, Reconciles, configure-Reconciles}
use striem.Challenge.State.{challenge_state}
use striem.Challenge.State.Flag.{Reports, challenge_state-Reports}
use striem.Challenge.Submit.{
  submit_answer, is_correct, remaining, attempted, find_question, no_state,
}
use striem.Challenge.Submit.Answer.{Counts, submit_answer-Counts, submit_within_cooldown}
use striem.Challenge.Submit.Run.{
  Submission, run, run-KeepsSolution, KeepsSolution, SomeAccepted, run-SomeAccepted,
}
use striem.Challenge.Submit.Pace.{spent, spent-run-le}

-- Lower case and digests that keep a text apart from others; times are written in unary.
abbrev weigh : Text → ℕ
weigh [] = 1
weigh (c ∷ s) = c + 1114112 * weigh s

abbrev unary : ℕ → Text
unary n = n ∷ []

abbrev read_unary : Text → Option ℕ
read_unary [] = none
read_unary (n ∷ s) = some n

abbrev host : Host
host = record { to_lower = λ s. s; digest = weigh; format_time = unary; parse_time = read_unary }

host-IsClock : IsClock host
host-IsClock = record { parse-format = λ t. refl }

abbrev no_faults : Faults
no_faults = record {
  begin = false;
  query = λ _. false;
  listing = false;
  write = λ _. false;
  remove = λ _. false;
  commit = false;
}

abbrev question : Text → Text → Question
question id answer = record {
  id = id;
  revision = pos 1;
  title = id;
  prompt = id;
  accepted_answers = answer ∷ [];
  case_sensitive = true;
}

abbrev who : Text
who = codes "who"

abbrev demo : Challenge
demo = record {
  flag = codes "flag";
  cooldown = pos 3_000_000_000;
  max_cooldown = pos 120_000_000_000;
  questions = question who (codes "eve") ∷ question (codes "when") (codes "noon") ∷ [];
}

abbrev fresh_table : Table
fresh_table = (who, new_row (pos 1)) ∷ (codes "when", new_row (pos 1)) ∷ []

abbrev fresh : Store
fresh = record { table = fresh_table; challenge = demo }

-- The wait after the twelfth wrong answer.
twelfth : cooldown_after demo 12 ≡ pos 12_000_000_000
unfolding cooldown_after wrap64 ◌+ℤ◌
twelfth = refl

cooldown_after_lem_example : cooldown_after demo 40 ≡ pos 120_000_000_000
cooldown_after_lem_example =
    cooldown_after_lem demo 3_000_000_000 120_000_000_000 40 refl refl (omega arith)

abbrev empty : Store
empty = record { table = []; challenge = demo }

configured : configure no_faults demo empty ≡ (fresh, ok tt)
unfolding configure upsert same
configured = refl

distinct_ids : HasDistinctIds demo.questions
unfolding same
distinct_ids = (refl, (refl, tt))

configure-Reconciles_example :
    ((configure no_faults demo empty).1 ≡ ok tt
      × Reconciles demo empty (configure no_faults demo empty).0)
    ⊎ (((e : Error) × ((configure no_faults demo empty).1 ≡ err e))
        × ((configure no_faults demo empty).0 ≡ empty))
configure-Reconciles_example = configure-Reconciles no_faults demo empty distinct_ids tt

-- One question is solved, so the flag is hidden.
abbrev solved_row : Row
solved_row = record {
  revision = pos 1;
  attempts = 2;
  last_attempt = some (unary 5_000_000_000);
  solved_at = some (unary 5_000_000_000);
  answer = some (codes "eve");
}

abbrev tried_row : Row
tried_row = record {
  revision = pos 1;
  attempts = 1;
  last_attempt = some (unary 5_000_000_000);
  solved_at = none;
  answer = none;
}

abbrev half : Store
half = record { table = (who, solved_row) ∷ (codes "when", tried_row) ∷ []; challenge = demo }

half-IsKeyed : IsKeyed half.table
unfolding same
half-IsKeyed = ((refl, tt), (tt, tt))

half_shown : (st : ChallengeState) × (challenge_state host no_faults demo half.table ≡ ok st)
unfolding challenge_state select same
half_shown = (_, refl)

challenge_state-Reports_example : Reports demo half.table half_shown.0
challenge_state-Reports_example =
    challenge_state-Reports host no_faults demo half.table half_shown.1

half_finds :
    find_question (codes "when") demo.questions ≡ some (question (codes "when") (codes "noon"))
unfolding find_question same
half_finds = refl

half_selects : select (codes "when") (pos 1) half.table ≡ some tried_row
unfolding select same
half_selects = refl

submit_within_cooldown_example :
    submit_answer host no_faults half (codes "when") (codes "noon") 6_000_000_000 ≡ (
      half,
      ok (record {
        correct = false;
        already_solved = false;
        retry_after = pos 2_000_000_000;
        state = no_state;
      }),
    )
submit_within_cooldown_example =
    submit_within_cooldown host no_faults half (codes "when") (codes "noon") 6_000_000_000
      (question (codes "when") (codes "noon")) tried_row half_finds refl half_selects refl
      3_000_000_000 120_000_000_000 5_000_000_000 host-IsClock refl refl (omega arith) (omega arith)
      (omega arith) (omega arith) refl (omega arith)

submit_answer-Counts_example :
    Counts host no_faults half
      (codes "when")
      tried_row
      (is_correct host (question (codes "when") (codes "noon")) (trim_space (codes " noon")))
      (trim_space (codes " noon"))
      9_000_000_000
      false
      (submit_answer host no_faults half (codes "when") (codes " noon") 9_000_000_000)
submit_answer-Counts_example =
    submit_answer-Counts host no_faults half (codes "when") (codes " noon") 9_000_000_000
      (question (codes "when") (codes "noon")) tried_row half_finds refl half_selects refl
      3_000_000_000 120_000_000_000 host-IsClock refl refl (omega arith) (omega arith) (omega arith)
      half-IsKeyed (inr (5_000_000_000, refl, omega arith))

-- A space before the right answer does not matter.
right_answer :
    is_correct host (question (codes "when") (codes "noon")) (trim_space (codes " noon")) ≡ true
unfolding is_correct trim_space
right_answer = refl

abbrev noon : Submission
noon = record { faults = no_faults; id = codes "when"; answer = codes " noon"; now = 9_000_000_000 }

half_row : find who half.table ≡ some solved_row
unfolding find same
half_row = refl

run-KeepsSolution_example :
    (row' : Row) × (find who (run host (noon ∷ noon ∷ []) half).table ≡ some row')
    × KeepsSolution solved_row row'
run-KeepsSolution_example =
    run-KeepsSolution host (noon ∷ noon ∷ []) half who solved_row half-IsKeyed half_row refl

half_tried : find (codes "when") half.table ≡ some tried_row
unfolding find same
half_tried = refl

noon_solves :
    (row' : Row) × (find (codes "when") (run host (noon ∷ []) half).table ≡ some row')
    × (is_some row'.solved_at ≡ true)
unfolding run submit_answer find find_question select update same trim_space is_correct attempted
    remaining cooldown_after wrap64 ◌+ℤ◌ ◌-ℤ◌
noon_solves = (_, refl, refl)

run-SomeAccepted_example : SomeAccepted host demo (codes "when") (noon ∷ [])
run-SomeAccepted_example =
    run-SomeAccepted host (noon ∷ []) half (codes "when") tried_row noon_solves.0 half-IsKeyed
      half_tried refl noon_solves.1 noon_solves.2

fresh-IsKeyed : IsKeyed fresh.table
unfolding same
fresh-IsKeyed = ((refl, tt), (tt, tt))

fresh_row : find (codes "when") fresh.table ≡ some (new_row (pos 1))
unfolding find same
fresh_row = refl

spent-run-le_example :
    (row' : Row) × (find (codes "when") (run host (noon ∷ noon ∷ []) fresh).table ≡ some row')
    × (9_000_000_000 + spent 3_000_000_000 120_000_000_000 row'.attempts ≤ 9_000_000_000)
spent-run-le_example =
    spent-run-le host 3_000_000_000 120_000_000_000 9_000_000_000 9_000_000_000 host-IsClock
      (omega arith) (omega arith) (omega arith) (omega arith) (omega arith) (noon ∷ noon ∷ []) fresh
      (codes "when") (new_row (pos 1)) refl refl (omega arith) fresh-IsKeyed fresh_row refl refl
