-- ===== src/Deployment/Complete.antt =====
-- Which manifests `validateChallenge` accepts as they are.
use striem.Common.Int.{pos}
use striem.Common.{
  length, ℕ, ◌⊎◌, ◌*◌, some, none, false, true, ◌≤◌, ◌≡◌, refl, Bool, List, [], ◌∷◌, arith, map,
}
use striem.Common.Text.{Text, trim_space}
use striem.Common.Result.{ok}
use striem.Challenge.Defs.{Question}
use striem.Challenge.Configure.Reconcile.{question_at, HasDistinctIds}
use striem.Deployment.Defs.{
  Configured, Manifest, Reader, Invalid, bad_cooldown, cooldown_out_of_range, bad_max_cooldown,
  max_cooldown_out_of_range,
}
use striem.Deployment.Validate.{
  second, minute, hour, is_empty, member, duration_in, answer_key, validate_answers,
  validate_question, validate_questions, validate_challenge,
}
use striem.Deployment.Accepted.{AreAcceptable, IsAcceptable, AreAnswers, HasNoKey, AreFresh, AreNew}

abbrev pub as_question : Configured → Question
as_question c = record {
  id = c.id;
  revision = c.revision;
  title = c.title;
  prompt = c.prompt;
  accepted_answers = c.accepted_answers;
  case_sensitive = c.case_sensitive;
}

-- No blanks at the ends.
abbrev pub AreTrimmed : List Text → Type 0
AreTrimmed [] = Unit {0}
AreTrimmed (a ∷ rest) = (trim_space a ≡ a) × AreTrimmed rest

pub record IsTidy (c : Configured) : Type 0 where
  pub id_tidy : trim_space c.id ≡ c.id
  pub title_tidy : trim_space c.title ≡ c.title
  pub prompt_tidy : trim_space c.prompt ≡ c.prompt
  pub answers_tidy : AreTrimmed c.accepted_answers

abbrev pub AreTidy : List Configured → Type 0
AreTidy [] = Unit {0}
AreTidy (c ∷ cs) = IsTidy c × AreTidy cs

fresh_of :
    (r : Reader) (b : Bool) (k : Text) (seen xs : List Text)
    → HasNoKey r b k xs
    → AreFresh r b seen xs
    → AreFresh r b (k ∷ seen) xs
unfolding member
fresh_of r b k seen [] n h = tt
fresh_of r b k seen (a ∷ xs) n h = (ground arith, fresh_of r b k seen xs n.1 h.1)

fresh_of_none : (r : Reader) (b : Bool) (xs : List Text) → AreFresh r b [] xs
unfolding member
fresh_of_none r b [] = tt
fresh_of_none r b (a ∷ xs) = (refl, fresh_of_none r b xs)

validate_answers_ok :
    (r : Reader) (b : Bool) (seen xs : List Text)
    → AreTrimmed xs
    → AreAnswers r b xs
    → AreFresh r b seen xs
    → validate_answers r b seen xs ≡ ok xs
unfolding validate_answers
validate_answers_ok r b seen [] t h f = refl
validate_answers_ok r b seen (a ∷ xs) t h f = rw (t.0) (
    ground (
      arith,
      validate_answers_ok r b (answer_key r b a ∷ seen) xs t.1 h.3
          (fresh_of r b (answer_key r b a) seen xs h.2 f.1),
    ))

validate_question_ok :
    (r : Reader) (seen : List Text) (c : Configured)
    → IsTidy c
    → IsAcceptable r (as_question c)
    → member c.id seen ≡ false
    → validate_question r seen c ≡ ok (as_question c)
unfolding validate_question
validate_question_ok r seen c t h f =
    rw (t.id_tidy, t.title_tidy, t.prompt_tidy)
      (ground (
        arith,
        validate_answers_ok r c.case_sensitive [] c.accepted_answers t.answers_tidy h.answers
            (fresh_of_none r c.case_sensitive c.accepted_answers),
      ))

new_of :
    (id : Text) (seen : List Text) (qs : List Question)
    → question_at id qs ≡ none
    → AreNew seen qs
    → AreNew (id ∷ seen) qs
unfolding member
new_of id seen [] n h = tt
new_of id seen (q ∷ qs) n h = ground (arith, new_of id seen qs)

validate_questions_ok :
    (r : Reader) (seen : List Text) (cs : List Configured)
    → AreTidy cs
    → AreAcceptable r (map as_question cs)
    → HasDistinctIds (map as_question cs)
    → AreNew seen (map as_question cs)
    → validate_questions r seen cs ≡ ok (map as_question cs)
unfolding validate_questions
validate_questions_ok r seen [] t a d n = refl
validate_questions_ok r seen (c ∷ cs) t a d n =
    rw
      (
        validate_question_ok r seen c t.0 a.0 n.0,
        validate_questions_ok r (c.id ∷ seen) cs t.1 a.1 d.1
            (new_of c.id seen (map as_question cs) d.0 n.1),
      )
      refl

-- The text of a duration gives this value: it is blank and the default holds, or it is read.
abbrev pub Gives : Reader → Text → ℕ → ℕ → Type 0
Gives r text default n =
    ((is_empty (trim_space text) ≡ true) × (n ≡ default))
    ⊎ ((is_empty (trim_space text) ≡ false) × (r.parse_duration text ≡ some (pos n)))

duration_in_ok :
    (r : Reader) (text : Text) (default low high n : ℕ) (unread out : Invalid)
    → Gives r text default n
    → low ≤ n
    → n ≤ high
    → duration_in r text (pos default) (pos low) (pos high) unread out ≡ ok (pos n)
unfolding duration_in
duration_in_ok r text default low high n unread out g a b = ground arith

AreNew-nil : (qs : List Question) → AreNew [] qs
unfolding member
AreNew-nil [] = tt
AreNew-nil (q ∷ qs) = (refl, AreNew-nil qs)

-- A manifest within the bounds, its texts without blanks at their ends and its revisions written
-- out, is accepted and its questions are taken as they stand.
pub validate_challenge_ok :
    (r : Reader) (m : Manifest) (base top : ℕ)
    → Gives r m.submission_cooldown (3 * second) base
    → Gives r m.max_submission_cooldown (2 * minute) top
    → base ≤ minute
    → base ≤ top
    → top ≤ hour
    → trim_space m.flag ≡ m.flag
    → (1 ≤ length m.questions → is_empty m.flag ≡ false)
    → length m.flag ≤ 512
    → length m.questions ≤ 100
    → AreTidy m.questions
    → AreAcceptable r (map as_question m.questions)
    → HasDistinctIds (map as_question m.questions)
    → validate_challenge r m
      ≡ ok (record {
        flag = m.flag;
        cooldown = pos base;
        max_cooldown = pos top;
        questions = map as_question m.questions;
      })
unfolding validate_challenge
validate_challenge_ok r m base top gb gt bm bt th tidy_flag set short few tidy good distinct =
    rw
      (
        duration_in_ok r m.submission_cooldown (3 * second) 0 minute base bad_cooldown
            cooldown_out_of_range gb (omega arith) bm,
        duration_in_ok r m.max_submission_cooldown (2 * minute) base hour top bad_max_cooldown
            max_cooldown_out_of_range gt bt th,
        tidy_flag,
        validate_questions_ok r [] m.questions tidy good distinct
            (AreNew-nil (map as_question m.questions)),
      )
      (ground arith)
