-- ===== src/Deployment/Accepted.antt =====
-- What `validateChallenge` guarantees of the challenge that it accepts.
use striem.Common.{◌≤◌, ◌≡◌, refl, inl, inr, Bool, true, false, List, [], ◌∷◌, none, length, arith}
use striem.Common.Int.{pos, ◌≤ℤ◌}
use striem.Common.Text.{Text, same, trim_space}
use striem.Common.Result.{ok, ok_parts, ◌>>=◌, Result-cases}
use striem.Challenge.Defs.{Question}
use striem.Challenge.Configure.Reconcile.{question_at, HasDistinctIds}
use striem.Deployment.Defs.{Configured, Reader}
use striem.Deployment.Validate.{
  is_empty, member, matches_id, answer_key, validate_answers, validate_question, validate_questions,
}

-- No answer of the list has the key.
abbrev pub HasNoKey : Reader → Bool → Text → List Text → Type 0
HasNoKey r case_sensitive key [] = Unit {0}
HasNoKey r case_sensitive key (a ∷ xs) =
    (same (answer_key r case_sensitive a) key ≡ false) × HasNoKey r case_sensitive key xs

-- Answers of 1 to 512 code points, no two of which are the same up to case where case is ignored.
abbrev pub AreAnswers : Reader → Bool → List Text → Type 0
AreAnswers r case_sensitive [] = Unit {0}
AreAnswers r case_sensitive (a ∷ xs) =
    (is_empty a ≡ false)
    × (length a ≤ 512)
    × HasNoKey r case_sensitive (answer_key r case_sensitive a) xs
    × AreAnswers r case_sensitive xs

pub record IsAcceptable (r : Reader) (q : Question) : Type 0 where
  pub id_matches : matches_id q.id ≡ true
  pub revision_pos : pos 1 ≤ℤ q.revision
  pub title_set : is_empty q.title ≡ false
  pub title_len : length q.title ≤ 120
  pub prompt_set : is_empty q.prompt ≡ false
  pub prompt_len : length q.prompt ≤ 8192
  pub answer_some : 1 ≤ length q.accepted_answers
  pub answer_most : length q.accepted_answers ≤ 20
  pub answers : AreAnswers r q.case_sensitive q.accepted_answers

abbrev pub AreAcceptable : Reader → List Question → Type 0
AreAcceptable r [] = Unit {0}
AreAcceptable r (q ∷ qs) = IsAcceptable r q × AreAcceptable r qs

-- The keys of the answers are outside a set.
abbrev pub AreFresh : Reader → Bool → List Text → List Text → Type 0
AreFresh r case_sensitive seen [] = Unit {0}
AreFresh r case_sensitive seen (a ∷ xs) =
    (member (answer_key r case_sensitive a) seen ≡ false) × AreFresh r case_sensitive seen xs

fresh_parts :
    (r : Reader) (b : Bool) (k : Text) (seen xs : List Text)
    → AreFresh r b (k ∷ seen) xs
    → HasNoKey r b k xs × AreFresh r b seen xs
unfolding member
fresh_parts r b k seen [] h = (tt, tt)
fresh_parts r b k seen (a ∷ xs) h =
    let (here, later) = fresh_parts r b k seen xs h.1 in
    ((ground (arith), here), (ground (arith), later))

validate_answers_lem :
    (r : Reader) (b : Bool) (seen raw : List Text) {xs : List Text}
    → validate_answers r b seen raw ≡ ok xs
    → AreAnswers r b xs × AreFresh r b seen xs × (length xs ≡ length raw)
unfolding validate_answers
validate_answers_lem r b seen [] {xs} h = ground arith
validate_answers_lem r b seen (a ∷ raw) {xs} h =
    elim (Result-cases (validate_answers r b (answer_key r b (trim_space a) ∷ seen) raw)) [
      | inl (ys, e) ↦
          let (good, fresh, len) =
            validate_answers_lem r b (answer_key r b (trim_space a) ∷ seen) raw e in
          let (new, old) = fresh_parts r b (answer_key r b (trim_space a)) seen ys fresh in
          ground (arith, e, good, new, old, len)
      | inr (x, e) ↦ ground (arith, e)
    ]

validate_question_lem :
    (r : Reader) (seen : List Text) (c : Configured) {q : Question}
    → validate_question r seen c ≡ ok q
    → IsAcceptable r q × (member q.id seen ≡ false)
unfolding validate_question
validate_question_lem r seen c {q} h =
    elim (Result-cases (validate_answers r c.case_sensitive [] c.accepted_answers)) [
      | inl (ys, e) ↦
          let (good, _, len) = validate_answers_lem r c.case_sensitive [] c.accepted_answers e in
          ground (arith, e, good, len)
      | inr (x, e) ↦ ground (arith, e)
    ]

-- The ids of the questions are outside a set.
abbrev pub AreNew : List Text → List Question → Type 0
AreNew seen [] = Unit {0}
AreNew seen (q ∷ qs) = (member q.id seen ≡ false) × AreNew seen qs

new_parts :
    (id : Text) (seen : List Text) (qs : List Question)
    → AreNew (id ∷ seen) qs
    → (question_at id qs ≡ none) × AreNew seen qs
unfolding member
new_parts id seen [] h = (refl, tt)
new_parts id seen (q ∷ qs) h =
    let (here, later) = new_parts id seen qs h.1 in ground (arith, here, later)

pub validate_questions_lem :
    (r : Reader) (seen : List Text) (cs : List Configured) {qs : List Question}
    → validate_questions r seen cs ≡ ok qs
    → AreAcceptable r qs × HasDistinctIds qs × AreNew seen qs × (length qs ≡ length cs)
unfolding validate_questions
validate_questions_lem r seen [] h = ground arith
validate_questions_lem r seen (c ∷ cs) {qs} h =
    let (q, one, next) =
      ok_parts (λ q. validate_questions r (q.id ∷ seen) cs >>= λ rest. ok (q ∷ rest))
        (validate_question r seen c) h in
    let (rest, more, last) =
      ok_parts (λ rest. ok (q ∷ rest)) (validate_questions r (q.id ∷ seen) cs) next in
    let (good, new) = validate_question_lem r seen c one in
    let (goods, distinct, fresh, len) = validate_questions_lem r (q.id ∷ seen) cs more in
    let (other, old) = new_parts q.id seen rest fresh in
    ground (arith, last, good, new, goods, distinct, other, old, len)
