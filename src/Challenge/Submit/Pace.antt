-- ===== src/Challenge/Submit/Pace.antt =====
-- How fast a question can be guessed: the attempts that count are as far apart as the cooldowns.
use native.Mathlib.Numerals.{add-one}
use striem.Challenge.State.{parsed}
use striem.Common.{
  ℕ, zero, suc, ◌+◌, ◌^◌, ◌≤◌, ◌<◌, ◌≡◌, refl, sym, ap, ◌∙◌, ◌⊎◌, inl, inr, List, [], ◌∷◌, none,
  some, arith, false,
}
use striem.Common.Int.{ℤ, pos, ltb_ℤ, ◌-ℤ◌, wrap64, wrap64_fits, IsInt64}
use striem.Common.Text.{Text}
use striem.Common.Result.{ok, ok-injective}
use striem.Challenge.Defs.{Challenge, Host, IsClock}
use striem.Challenge.Cooldown.{
  cooldown_after, exact_cooldown, cooldown_after_lem, base-le-exact_cooldown,
}
use striem.Challenge.Progress.{Row, IsKeyed, find}
use striem.Challenge.Configure.{Store}
use striem.Challenge.Submit.{attempted, remaining, elapsed}
use striem.Challenge.Submit.Rows.{RowStep, kept, fills, counts}
use striem.Challenge.Submit.Run.{Submission, after, run, after-row, after-IsKeyed, after-challenge}

-- The time that the attempts before the nth have to wait: the sum of the cooldowns after them.
abbrev pub spent : ℕ → ℕ → ℕ → ℕ
spent base top zero = 0
spent base top (suc zero) = 0
spent base top (suc (suc n)) = spent base top (suc n) + exact_cooldown base top (suc n)

-- The submissions are made between `start` and `end`.
abbrev pub InWindow : ℕ → ℕ → List Submission → Type 0
InWindow start end [] = Unit {0}
InWindow start end (x ∷ xs) = (start ≤ x.now) × (x.now ≤ end) × InWindow start end xs

module _ (h : Host) (base top start end : ℕ) where
  -- A row that has no attempt, or whose last one came after the wait for all before it.
  abbrev IsPaced : Row → Type 0
  IsPaced row =
      ((row.attempts ≡ 0) × (row.last_attempt ≡ none))
      ⊎ ((last : ℕ) × (row.last_attempt ≡ some (h.format_time last))
          × (0 < row.attempts)
          × (start + spent base top row.attempts ≤ last)
          × (last ≤ end))

pub exact_cooldown-le : (base top n m : ℕ) → base ≤ m → top ≤ m → exact_cooldown base top n ≤ m
exact_cooldown-le base top n m hb ht = ground arith

pub wait_fits :
    (c last now : ℕ)
    → c ≤ 2 ^ 62
    → now < last + 2 ^ 62
    → last < now + 2 ^ 62
    → IsInt64 (pos c -ℤ elapsed now last)
unfolding elapsed ◌-ℤ◌
wait_fits c last now h w1 w2 = ground arith

wait_over :
    (c last now : ℕ)
    → now < last + 2 ^ 62
    → last < now + 2 ^ 62
    → ltb_ℤ (pos 0) (pos c -ℤ elapsed now last) ≡ false
    → last + c ≤ now
unfolding elapsed ◌-ℤ◌
wait_over c last now w1 w2 h = ground arith

parsed-format : (h : Host) (t : ℕ) → IsClock h → parsed h (h.format_time t) ≡ ok t
unfolding parsed
parsed-format h t c = rw (c.parse-format t, parsed)

pub remaining_lem :
    (h : Host) (ch : Challenge) (row : Row) (n last now : ℕ)
    → IsClock h
    → cooldown_after ch row.attempts ≡ pos n
    → 0 < n
    → row.last_attempt ≡ some (h.format_time last)
    → remaining h ch row now ≡ ok (wrap64 (pos n -ℤ elapsed now last))
unfolding remaining
remaining_lem h ch row n last now c cd p e =
    rw (e, remaining, cd, parsed-format h last c) (ground arith)

-- With the window below 2 ^ 62 ns, the wait that is computed in 64 bits is the exact one.
waited :
    (h : Host) (ch : Challenge) (base top : ℕ) (row : Row) (last now : ℕ) (wait : ℤ)
    → IsClock h
    → ch.cooldown ≡ pos base
    → ch.max_cooldown ≡ pos top
    → 0 < base
    → base ≤ 2 ^ 62
    → top ≤ 2 ^ 62
    → now < last + 2 ^ 62
    → last < now + 2 ^ 62
    → row.last_attempt ≡ some (h.format_time last)
    → remaining h ch row now ≡ ok wait
    → ltb_ℤ (pos 0) wait ≡ false
    → last + exact_cooldown base top row.attempts ≤ now
waited h ch base top row last now wait c hb ht pb bb bt w1 w2 e r done =
    let n : ℕ = exact_cooldown base top row.attempts in
    let le : n ≤ 2 ^ 62 = exact_cooldown-le base top row.attempts (2 ^ 62) bb bt in
    let ge : base ≤ n = base-le-exact_cooldown base top row.attempts in
    let cd : cooldown_after ch row.attempts ≡ pos n =
      cooldown_after_lem ch base top row.attempts hb ht bt in
    let exact : wrap64 (pos n -ℤ elapsed now last) ≡ pos n -ℤ elapsed now last =
      wrap64_fits (pos n -ℤ elapsed now last) (wait_fits n last now le w1 w2) in
    let is : wrap64 (pos n -ℤ elapsed now last) ≡ wait =
      ok-injective (sym (remaining_lem h ch row n last now c cd (omega arith) e) ∙ r) in
    wait_over n last now w1 w2 (rw (sym exact ∙ is) done)

module _ (h : Host) (base top start end : ℕ) (c : IsClock h) (pb : 0 < base) (bb : base ≤ 2 ^ 62)
    (bt : top ≤ 2 ^ 62) (window : end < start + 2 ^ 62) where
  spent-suc :
      (n : ℕ) → 0 < n → spent base top (suc n) ≡ spent base top n + exact_cooldown base top n
  spent-suc zero p = absurd (omega arith)
  spent-suc (suc n) p = refl

  spent_add :
      (n : ℕ) → 0 < n → spent base top (n + 1) ≡ spent base top n + exact_cooldown base top n
  spent_add n p = rw add-one (spent-suc n p)

  later :
      (ch : Challenge) (row : Row) (last now : ℕ) (wait : ℤ)
      → ch.cooldown ≡ pos base
      → ch.max_cooldown ≡ pos top
      → start ≤ now
      → now ≤ end
      → 0 < row.attempts
      → start + spent base top row.attempts ≤ last
      → last ≤ end
      → row.last_attempt ≡ some (h.format_time last)
      → remaining h ch row now ≡ ok wait
      → ltb_ℤ (pos 0) wait ≡ false
      → start + spent base top (row.attempts + 1) ≤ now
  later ch row last now wait hb ht lo hi p paced le e w done = omega (
    arith,
    spent_add row.attempts p,
    waited h ch base top row last now wait c hb ht pb bb bt (omega arith) (omega arith) e w done,
  )

  step-IsPaced :
      (ch : Challenge) (id raw : Text) (now : ℕ) {row row' : Row}
      → ch.cooldown ≡ pos base
      → ch.max_cooldown ≡ pos top
      → start ≤ now
      → now ≤ end
      → RowStep h ch id raw now row row'
      → IsPaced h base top start end row
      → IsPaced h base top start end row'
  unfolding attempted
  step-IsPaced ch id raw now hb ht lo hi kept p = p
  step-IsPaced ch id raw now hb ht lo hi (fills answer closed) p = p
  step-IsPaced ch id raw now {row} hb ht lo hi (counts right answer wait _ _ _ w done)
        (inl (none_yet, _)) =
      inr (now, refl, omega arith, rw none_yet (omega arith), hi)
  step-IsPaced ch id raw now {row} hb ht lo hi (counts right answer wait _ _ _ w done)
        (inr (last, e, pos_n, paced, le)) =
      inr
        (now, refl, omega arith, later ch row last now wait hb ht lo hi pos_n paced le e w done, hi)

  run-IsPaced :
      (xs : List Submission) (s : Store) (id : Text) (row : Row)
      → s.challenge.cooldown ≡ pos base
      → s.challenge.max_cooldown ≡ pos top
      → InWindow start end xs
      → IsKeyed s.table
      → find id s.table ≡ some row
      → IsPaced h base top start end row
      → (row' : Row) × (find id (run h xs s).table ≡ some row') × IsPaced h base top start end row'
  unfolding run
  run-IsPaced [] s id row hb ht wn k e p = (row, e, p)
  run-IsPaced (x ∷ xs) s id row hb ht wn k e p =
      let (mid, found, step) = after-row h x s id row k e in
      let same = after-challenge h x s in
      run-IsPaced xs (after h x s) id mid (ap (λ (ch : Challenge). ch.cooldown) same ∙ hb)
        (ap (λ (ch : Challenge). ch.max_cooldown) same ∙ ht) wn.2 (after-IsKeyed h x s k) found
        (step-IsPaced s.challenge id x.answer x.now hb ht wn.0 wn.1 step p)

-- Guessing is paced by the cooldown. Whatever is submitted between `start` and `end`, in whatever
-- order the clock shows, a question that had no attempt before counts at most so many attempts
-- that the cooldowns after all but the last of them fit between `start` and `end`. The
-- cooldowns are positive and at most 2 ^ 62 ns, and so is the time from `start` to `end`.
pub spent-run-le :
    (h : Host) (base top start end : ℕ)
    → IsClock h
    → 0 < base
    → base ≤ 2 ^ 62
    → top ≤ 2 ^ 62
    → start ≤ end
    → end < start + 2 ^ 62
    → (xs : List Submission) (s : Store) (id : Text) (row : Row) → s.challenge.cooldown ≡ pos base
    → s.challenge.max_cooldown ≡ pos top
    → InWindow start end xs
    → IsKeyed s.table
    → find id s.table ≡ some row
    → row.attempts ≡ 0
    → row.last_attempt ≡ none
    → (row' : Row) × (find id (run h xs s).table ≡ some row')
      × (start + spent base top row'.attempts ≤ end)
spent-run-le h base top start end c pb bb bt se window xs s id row hb ht wn k e none_yet no_last =
    let (row', found, paced) =
      run-IsPaced h base top start end c pb bb bt window xs s id row hb ht wn k e
        (inl (none_yet, no_last)) in
    (row', found, bound row' paced)
  where
    bound : (r : Row) → IsPaced h base top start end r → start + spent base top r.attempts ≤ end
    bound r (inl (z, _)) = rw z (omega arith)
    bound r (inr (last, _, _, paced, le)) = omega arith
