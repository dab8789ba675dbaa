-- ===== src/Challenge/Submit/Answer.antt =====
-- What one submission answers: turned away within the cooldown, and solved by a right answer.
use striem.Common.{
  suc, refl, ℕ, ◌+◌, ◌-◌, ◌^◌, ◌≤◌, ◌<◌, ◌≡◌, sym, ap, ◌∙◌, ◌⊎◌, inl, inr, Option, none, some,
  arith, true, false, Bool, ◌||◌, if◌then◌else◌, Bool-cases, Option-cases,
}
use striem.Common.Int.{ℤ, pos, ltb_ℤ, eqb_ℤ, ◌-ℤ◌, wrap64_fits, IsInt64}
use striem.Common.Text.{Text, same, same_refl, trim_space}
use striem.Common.Result.{Result, ok, err, ◌>>=◌}
use striem.Challenge.Defs.{
  Question, ChallengeState, Host, AnswerResult, IsClock, Faults, Error, Challenge, storage,
}
use striem.Challenge.Cooldown.{
  cooldown_after, exact_cooldown, cooldown_after_lem, base-le-exact_cooldown,
}
use striem.Challenge.Progress.{
  Row, Table, select, update, find, find-update, select-find, at_revision, IsKeyed,
}
use striem.Challenge.State.{challenge_state}
use striem.Challenge.Configure.{Store}
use striem.Challenge.Submit.{
  attempted, remaining, elapsed, find_question, submit_answer, answer_question, answer_row,
  try_answer, attempt, finish, is_correct, no_state,
}
use striem.Challenge.Submit.Pace.{wait_fits, remaining_lem, exact_cooldown-le}

exact_wait :
    (n last now : ℕ)
    → n ≤ 2 ^ 62
    → now < last + n
    → last < now + 2 ^ 62
    → pos n -ℤ elapsed now last ≡ pos (last + n - now)
unfolding elapsed ◌-ℤ◌
exact_wait n last now h early w = ground arith

abbrev pub told : Bool → Result Error ChallengeState → Result Error AnswerResult
told right result = do
  state ← result
  ok (record { correct = right; already_solved = false; retry_after = pos 0; state = state })

-- What an attempt that counts leaves: with a database that fails nothing but the error, and otherwise
-- a row with one attempt more.
abbrev pub Counts :
    Host
    → Faults
    → Store
    → Text
    → Row
    → Bool
    → Text
    → ℕ
    → Bool
    → Store × Result Error AnswerResult
    → Type 0
Counts h f s id row right answer now true (s', result) = (s' ≡ s) × (result ≡ err storage)
Counts h f s id row right answer now false (s', result) =
    (row' : Row) × (find id s'.table ≡ some row')
    × (row'.attempts ≡ suc row.attempts)
    × (row'.last_attempt ≡ some (h.format_time now))
    × (row'.solved_at ≡ (if right then some (h.format_time now) else none))
    × (row'.answer ≡ (if right then some answer else row.answer))
    × (row'.revision ≡ row.revision)
    × ((j : Text) → same id j ≡ false → find j s'.table ≡ find j s.table)
    × (s'.challenge ≡ s.challenge)
    × (result ≡ told right (challenge_state h f s.challenge s'.table))

-- No attempt was made, or the cooldown after the last one is over.
abbrev pub IsOver : Host → ℕ → ℕ → Row → ℕ → Type 0
IsOver h base top row now =
    (row.last_attempt ≡ none)
    ⊎ ((last : ℕ) × (row.last_attempt ≡ some (h.format_time last))
        × (last + exact_cooldown base top row.attempts ≤ now))

no_wait :
    (n last now : ℕ)
    → n ≤ 2 ^ 62
    → last + n ≤ now
    → IsInt64 (pos n -ℤ elapsed now last) × (ltb_ℤ (pos 0) (pos n -ℤ elapsed now last) ≡ false)
unfolding elapsed ◌-ℤ◌
no_wait n last now h over = ground arith

-- Then the wait that is computed is not positive.
remaining_over :
    (h : Host) (ch : Challenge) (base top : ℕ) (row : Row) (now : ℕ)
    → IsClock h
    → ch.cooldown ≡ pos base
    → ch.max_cooldown ≡ pos top
    → 0 < base
    → base ≤ 2 ^ 62
    → top ≤ 2 ^ 62
    → IsOver h base top row now
    → (wait : ℤ) × (remaining h ch row now ≡ ok wait) × (ltb_ℤ (pos 0) wait ≡ false)
unfolding remaining
remaining_over h ch base top row now c hb ht pb bb bt (inl none_yet) =
    (pos 0, rw none_yet refl, refl)
remaining_over h ch base top row now c hb ht pb bb bt (inr (last, e, over)) =
    let n : ℕ = exact_cooldown base top row.attempts in
    let le : n ≤ 2 ^ 62 = exact_cooldown-le base top row.attempts (2 ^ 62) bb bt in
    let ge : base ≤ n = base-le-exact_cooldown base top row.attempts in
    let cd : cooldown_after ch row.attempts ≡ pos n =
      cooldown_after_lem ch base top row.attempts hb ht bt in
    let (fits, late) = no_wait n last now le over in
    (
      pos n -ℤ elapsed now last,
      remaining_lem h ch row n last now c cd (omega arith) e ∙ ap ok (wrap64_fits _ fits),
      late,
    )

at_revision-some :
    (o : Option Row) (revision : ℤ) (row : Row)
    → at_revision o revision ≡ some row
    → (o ≡ some row) × (eqb_ℤ row.revision revision ≡ true)
at_revision-some none revision row h = cc h
at_revision-some (some r) revision row h = elim (Bool-cases (eqb_ℤ r.revision revision)) [
  | inl eq ↦
      let same_row : r ≡ row = cc (eq, h) in
      (ap some same_row, ap (λ (x : Row). eqb_ℤ x.revision revision) (sym same_row) ∙ eq)
  | inr ne ↦ cc (ne, h)
]

-- An update of a question leaves the rows of the others.
find-update-other :
    (id j : Text) (revision : ℤ) (g : Row → Row) (t : Table)
    → same id j ≡ false
    → find j (update id revision g t) ≡ find j t
find-update-other id j revision g t ne = elim (Option-cases (find j t)) [
  | inl gone ↦ find-update id revision g j t ∙ rw gone refl
  | inr (row, there) ↦ find-update id revision g j t ∙ rw (there, ne) refl
]

update-Counts :
    (h : Host) (f : Faults) (s : Store) (q : Question) (row : Row) (right : Bool) (answer : Text)
    (now : ℕ)
    → IsKeyed s.table
    → select q.id q.revision s.table ≡ some row
    → row.solved_at ≡ none
    → (let t : Table = update q.id q.revision (attempted h right answer now) s.table in
        Counts h f s q.id row right answer now false
          (record s { table = t }, told right (challenge_state h f s.challenge t)))
unfolding attempted
update-Counts h f s q row right answer now keyed found unsolved =
    let (there, current) =
      at_revision-some (find q.id s.table) q.revision row
        (sym (select-find q.id q.revision s.table keyed) ∙ found) in
    (
      attempted h right answer now row,
      find-update q.id q.revision (attempted h right answer now) q.id s.table
          ∙ rw (there, same_refl q.id, current) refl,
      omega arith,
      refl,
      ap (λ o. if right then some (h.format_time now) else o) unsolved,
      refl,
      refl,
      λ j ne. find-update-other q.id j q.revision (attempted h right answer now) s.table ne,
      refl,
      refl,
    )

module _ (h : Host) (f : Faults) (s : Store) (id raw : Text) (now : ℕ) (q : Question) (row : Row)
    (known : find_question id s.challenge.questions ≡ some q)
    (works : (f.begin || f.query q.id) ≡ false) (found : select q.id q.revision s.table ≡ some row)
    (unsolved : row.solved_at ≡ none) where
  submit-try_answer :
      submit_answer h f s id raw now
      ≡ try_answer h f s q row (trim_space raw) (is_correct h q (trim_space raw)) now
  unfolding submit_answer answer_question answer_row
  submit-try_answer = rw (known, submit_answer, works, answer_question, found, unsolved, answer_row)

  -- Within the cooldown after the last attempt a submission changes nothing, does not tell
  -- whether the answer is right, and says how many nanoseconds are left.
  pub submit_within_cooldown :
      (base top last : ℕ)
      → IsClock h
      → s.challenge.cooldown ≡ pos base
      → s.challenge.max_cooldown ≡ pos top
      → 0 < base
      → base ≤ 2 ^ 62
      → top ≤ 2 ^ 62
      → last < now + 2 ^ 62
      → row.last_attempt ≡ some (h.format_time last)
      → now < last + exact_cooldown base top row.attempts
      → submit_answer h f s id raw now ≡ (
        s,
        ok (record {
          correct = false;
          already_solved = false;
          retry_after = pos (last + exact_cooldown base top row.attempts - now);
          state = no_state;
        }),
      )
  unfolding try_answer
  submit_within_cooldown base top last c hb ht pb bb bt w e early =
      let n : ℕ = exact_cooldown base top row.attempts in
      let le : n ≤ 2 ^ 62 = exact_cooldown-le base top row.attempts (2 ^ 62) bb bt in
      let ge : base ≤ n = base-le-exact_cooldown base top row.attempts in
      let cd : cooldown_after s.challenge row.attempts ≡ pos n =
        cooldown_after_lem s.challenge base top row.attempts hb ht bt in
      let left : remaining h s.challenge row now ≡ ok (pos (last + n - now)) =
        remaining_lem h s.challenge row n last now c cd (omega arith) e
        ∙ ap ok (
            wrap64_fits _ (wait_fits n last now le (omega arith) w)
            ∙ exact_wait n last now le early w) in
      let late : ltb_ℤ (pos 0) (pos (last + n - now)) ≡ true = ground arith in
      rw (submit-try_answer, left, try_answer, late)

  -- Once the cooldown after the last attempt is over, or when none was made, a submission counts.
  -- If the update or the commit fails, nothing changes and the error is returned. Otherwise the
  -- stored row takes the attempt and its time; it is solved now exactly if the answer is right, and
  -- the answer is kept then; the rows of all other questions and the configuration stay; and the
  -- team is told whether it is right, with the state behind the attempt.
  pub submit_answer-Counts :
      (base top : ℕ)
      → IsClock h
      → s.challenge.cooldown ≡ pos base
      → s.challenge.max_cooldown ≡ pos top
      → 0 < base
      → base ≤ 2 ^ 62
      → top ≤ 2 ^ 62
      → IsKeyed s.table
      → IsOver h base top row now
      → Counts h f s q.id row
          (is_correct h q (trim_space raw))
          (trim_space raw)
          now
          (f.write q.id || f.commit)
          (submit_answer h f s id raw now)
  unfolding try_answer attempt finish challenge_state
  submit_answer-Counts base top c hb ht pb bb bt keyed over =
      let (wait, left, done) =
        remaining_over h s.challenge base top row now c hb ht pb bb bt over in
      elim (Bool-cases (f.write q.id)) [
        | inl fails ↦ rw (submit-try_answer, left, try_answer, done, attempt, fails) (refl, refl)
        | inr writes ↦ elim (Bool-cases f.commit) [
          | inl fails ↦
              rw (submit-try_answer, left, try_answer, done, attempt, writes, finish, fails)
                (refl, refl)
          | inr commits ↦
              rw (submit-try_answer, left, try_answer, done, attempt, writes, finish, commits)
                (update-Counts h f s q row (is_correct h q (trim_space raw)) (trim_space raw) now
                  keyed found unsolved)
        ]
      ]
