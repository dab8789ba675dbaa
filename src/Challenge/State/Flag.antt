-- ===== src/Challenge/State/Flag.antt =====
-- When `ChallengeState` gives the flag and the answers away.
use mathlib.Core.Path.{subst}
use striem.Common.{
  ℕ, ◌+◌, ◌≤◌, ◌≡◌, ◌≢◌, ◌↔◌, refl, inl, inr, Bool, true, false, ◌&&◌, List, [], ◌∷◌, ◌++◌, Option,
  none, some, arith, length, ltb, ◌==◌, if◌then◌else◌, is_some, Option-cases,
}
use striem.Common.Result.{ok, Result-cases, ok-injective, ok_parts}
use striem.Challenge.Defs.{Error, Question, Challenge, QuestionState, ChallengeState, Host, Faults}
use striem.Challenge.Progress.{Row, Table, select}
use striem.Challenge.State.{question_state, question_states, challenge_state, assemble}

abbrev row_solved : Option Row → Bool
row_solved none = false
row_solved (some row) = is_some row.solved_at

-- The row at the configured revision of a question says that it is solved.
abbrev pub IsSolved : Table → Question → Type 0
IsSolved t q = row_solved (select q.id q.revision t) ≡ true

abbrev pub AllSolved : Table → List Question → Type 0
AllSolved t [] = Unit {0}
AllSolved t (q ∷ qs) = IsSolved t q × AllSolved t qs

pub count_solved : Table → List Question → ℕ
count_solved t [] = 0
count_solved t (q ∷ qs) =
    (if row_solved (select q.id q.revision t) then 1 else 0) + count_solved t qs

count_solved-le : (t : Table) (qs : List Question) → count_solved t qs ≤ length qs
unfolding count_solved
count_solved-le t [] = omega arith
count_solved-le t (q ∷ qs) = ground (arith, count_solved-le t qs)

all_of_count : (t : Table) (qs : List Question) → count_solved t qs ≡ length qs → AllSolved t qs
unfolding count_solved
all_of_count t [] h = tt
all_of_count t (q ∷ qs) h = ground (arith, count_solved-le t qs, all_of_count t qs)

count_of_all : (t : Table) (qs : List Question) → AllSolved t qs → count_solved t qs ≡ length qs
unfolding count_solved
count_of_all t [] h = refl
count_of_all t (q ∷ qs) h = ground (arith, count_of_all t qs h.1)

-- An unsolved question is shown with no answer and no time.
abbrev pub HidesAnswers : List QuestionState → Type 0
HidesAnswers [] = Unit {0}
HidesAnswers (q ∷ qs) =
    (q.solved ≡ false → (q.answer ≡ []) × (q.solved_at ≡ none)) × HidesAnswers qs

hides-append :
    (qs : List QuestionState) (q : QuestionState)
    → HidesAnswers qs
    → (q.solved ≡ false → (q.answer ≡ []) × (q.solved_at ≡ none))
    → HidesAnswers (qs ++ q ∷ [])
hides-append [] q h k = (k, tt)
hides-append (x ∷ qs) q h k = (h.0, hides-append qs q h.1 k)

question_state_lem :
    (h : Host) (q : Question) (row : Row) {s : QuestionState}
    → question_state h q row ≡ ok s
    → (s.solved ≡ is_some row.solved_at)
      × (s.solved ≡ false → (s.answer ≡ []) × (s.solved_at ≡ none))
unfolding question_state
question_state_lem h q row e = ground arith

-- What a run of the loop adds to the states and to the number of solved questions.
record Adds (t : Table) (qs : List Question) (n : ℕ) (done : List QuestionState × ℕ) : Type 0 where
  counted : done.1 ≡ n + count_solved t qs
  hides : HidesAnswers done.0

-- A round of the loop that goes on.
round :
    (h : Host) (f : Faults) (t : Table) (q : Question) (qs : List Question)
    (states : List QuestionState) (n : ℕ) {done : List QuestionState × ℕ}
    → question_states h f t (q ∷ qs) states n ≡ ok done
    → (row : Row) × (s : QuestionState) × (select q.id q.revision t ≡ some row)
      × (question_state h q row ≡ ok s)
      × (question_states h f t qs (states ++ s ∷ []) (if s.solved then n + 1 else n) ≡ ok done)
unfolding question_states
round h f t q qs states n e = elim (Option-cases (select q.id q.revision t)) [
  | inl missing ↦ absurd (ground arith)
  | inr (row, found) ↦ elim (Result-cases (question_state h q row)) [
    | inl (s, shown) ↦ (row, s, found, shown, ground arith)
    | inr (why, failed) ↦ absurd (ground arith)
  ]
]

question_states_lem :
    (h : Host) (f : Faults) (t : Table) (qs : List Question) (states : List QuestionState) (n : ℕ)
    {done : List QuestionState × ℕ}
    → HidesAnswers states
    → question_states h f t qs states n ≡ ok done
    → Adds t qs n done
unfolding count_solved
question_states_lem h f t [] states n {done} k e =
    let same : ◌≡◌ {A = List QuestionState × ℕ} (states, n) done =
      ok-injective {E = Error} (unfold question_states in e) in
    subst (Adds t [] n) same (record { counted = omega arith; hides = k })
question_states_lem h f t (q ∷ qs) states n k e =
    let (row, s, found, shown, rest) = round h f t q qs states n e in
    let (solved, hidden) = question_state_lem h q row shown in
    let ih =
      question_states_lem h f t qs (states ++ s ∷ []) (if s.solved then n + 1 else n)
        (hides-append states s k hidden) rest in
    record { counted = ground arith; hides = ih.hides }

-- What `ChallengeState` reports, for the progress in the table: how many questions are solved,
-- `completed` exactly if there are questions and each is solved, the flag only then, and no
-- answer of a question that is not solved.
pub record Reports (ch : Challenge) (t : Table) (st : ChallengeState) : Type 0 where
  pub total_is : st.total ≡ length ch.questions
  pub solved_is : st.solved ≡ count_solved t ch.questions
  pub completed_iff : (st.completed ≡ true) ↔ ((ch.questions ≢ []) × AllSolved t ch.questions)
  pub flag_is : st.flag ≡ (if st.completed then ch.flag else [])
  pub answers : HidesAnswers st.questions

completed_lem :
    (t : Table) (qs : List Question)
    → ((ltb 0 (length qs) && count_solved t qs == length qs) ≡ true) ↔ ((qs ≢ []) × AllSolved t qs)
completed_lem t [] = (λ h. cc, λ h. absurd (h.0 refl))
completed_lem t (q ∷ qs) = (
  (λ h. (λ e. cc, all_of_count t (q ∷ qs) (ground arith))),
  (λ h. ground (arith, count_of_all t (q ∷ qs) h.1)),
)

assemble-Reports :
    (ch : Challenge) (t : Table) (done : List QuestionState × ℕ)
    → Adds t ch.questions 0 done
    → Reports ch t (assemble ch done)
unfolding assemble
assemble-Reports ch t done a =
    let counted : done.1 ≡ count_solved t ch.questions = omega (arith, a.counted) in
    record {
      total_is = refl;
      solved_is = counted;
      completed_iff = rw counted (completed_lem t ch.questions);
      flag_is = refl;
      answers = a.hides;
    }

-- Whatever `ChallengeState` returns tells the truth about the stored progress, and gives the flag
-- and the answers away only for solved questions.
pub challenge_state-Reports :
    (h : Host) (f : Faults) (ch : Challenge) (t : Table) {st : ChallengeState}
    → challenge_state h f ch t ≡ ok st
    → Reports ch t st
unfolding challenge_state
challenge_state-Reports h f ch t {st} e =
    let (done, run, last) =
      ok_parts (λ done. ok (assemble ch done)) (question_states h f t ch.questions [] 0) e in
    subst (Reports ch t) (ok-injective last)
      (assemble-Reports ch t done (question_states_lem h f t ch.questions [] 0 tt run))
