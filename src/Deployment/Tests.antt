-- ===== src/Deployment/Tests.antt =====
-- A manifest of two questions, and the theorems on it.
use striem.Common.{◌≡◌, refl, inl, inr, true, false, List, [], ◌∷◌, Option, none, some, arith}
use striem.Common.Int.{ℤ, pos}
use striem.Common.Text.{Text, codes, trim_space, same}
use striem.Common.Result.{ok, err}
use striem.Challenge.Defs.{Challenge, Faults}
use striem.Challenge.Configure.{Store}
use striem.Deployment.Defs.{Configured, Manifest, Reader, duplicate_id}
use striem.Deployment.Validate.{
  validate_challenge, validate_questions, validate_question, validate_answers, duration_in, member,
  matches_id, answer_key,
}
use striem.Deployment.Guarantees.{IsDeployable, validate_challenge-IsDeployable}
use striem.Deployment.Complete.{validate_challenge_ok, as_question, AreTidy, IsTidy}

-- Durations are written as their nanoseconds.
abbrev read_nanoseconds : Text → Option ℤ
read_nanoseconds [] = none
read_nanoseconds (n ∷ s) = some (pos n)

abbrev pub reader : Reader
reader = record { parse_duration = read_nanoseconds; to_lower = λ s. s }

abbrev ask : Text → Text → Configured
ask id answer = record {
  id = id;
  revision = pos 1;
  title = codes "Title";
  prompt = codes "Prompt";
  accepted_answers = answer ∷ [];
  case_sensitive = true;
}

abbrev pub manifest : List Configured → Manifest
manifest qs = record {
  flag = codes "flag";
  submission_cooldown = [];
  max_submission_cooldown = 600_000_000_000 ∷ [];
  questions = qs;
}

abbrev pub two : List Configured
two = ask (codes "who") (codes "eve") ∷ ask (codes "when") (codes "noon") ∷ []

abbrev pub accepted : Challenge
accepted = record {
  flag = codes "flag";
  cooldown = pos 3_000_000_000;
  max_cooldown = pos 600_000_000_000;
  questions =
      as_question (ask (codes "who") (codes "eve"))
      ∷ as_question (ask (codes "when") (codes "noon"))
      ∷ [];
}

accepts_two : validate_challenge reader (manifest two) ≡ ok accepted
unfolding validate_challenge validate_questions validate_question validate_answers duration_in
    member matches_id answer_key trim_space same
accepts_two = refl

rejects_duplicate :
    validate_challenge reader (manifest (ask (codes "who") (codes "eve") ∷ two)) ≡ err duplicate_id
unfolding validate_challenge validate_questions validate_question validate_answers duration_in
    member matches_id answer_key trim_space same
rejects_duplicate = refl

validate_challenge-IsDeployable_example : IsDeployable reader accepted
validate_challenge-IsDeployable_example =
    validate_challenge-IsDeployable reader (manifest two) accepts_two

abbrev pub faults : Faults
faults = record {
  begin = false;
  query = λ _. false;
  listing = false;
  write = λ _. false;
  remove = λ _. false;
  commit = false;
}

abbrev pub store : Store
store = record { table = []; challenge = record accepted { questions = [] } }

two-IsDeployable : IsDeployable reader accepted
two-IsDeployable = validate_challenge-IsDeployable reader (manifest two) accepts_two

two_tidy : AreTidy two
unfolding trim_space
two_tidy =
    let tidy : (id answer : Text)
        → trim_space id ≡ id
        → trim_space answer ≡ answer
        → IsTidy (ask id answer) =
      λ id answer hi ha. record {
        id_tidy = hi;
        title_tidy = refl;
        prompt_tidy = refl;
        answers_tidy = (ha, tt);
      } in
    (tidy (codes "who") (codes "eve") refl refl, (tidy (codes "when") (codes "noon") refl refl, tt))

validate_challenge_ok_example : validate_challenge reader (manifest two) ≡ ok accepted
unfolding trim_space
validate_challenge_ok_example =
    validate_challenge_ok reader (manifest two) 3_000_000_000 600_000_000_000 (inl (refl, refl))
      (inr (refl, refl)) (omega arith) (omega arith) (omega arith) refl (λ _. refl) (omega arith)
      (omega arith) two_tidy two-IsDeployable.acceptable two-IsDeployable.distinct
