-- ===== src/Deployment/Guarantees.antt =====
-- The challenge that `validateChallenge` accepts, and what the database makes of it.
use striem.Common.{ℕ, ◌*◌, ◌≤◌, ◌≡◌, sym, ◌⊎◌, false, ◌&&◌, [], length, ltb, arith}
use striem.Challenge.Cooldown.{
  cooldown_after, exact_cooldown, cooldown_after_lem, base-le-exact_cooldown,
}
use striem.Common.Int.{ℤ, pos, negsuc}
use striem.Common.Text.{Text, trim_space}
use striem.Common.Result.{ok, err, fail_if, ok_parts}
use striem.Challenge.Defs.{Challenge, Error, Faults}
use striem.Challenge.Progress.{IsKeyed}
use striem.Challenge.Configure.{Store, configure}
use striem.Challenge.Configure.Reconcile.{HasDistinctIds, Reconciles, configure-Reconciles}
use striem.Deployment.Defs.{
  Manifest, Reader, Invalid, bad_cooldown, cooldown_out_of_range, bad_max_cooldown,
  max_cooldown_out_of_range, flag_missing, flag_too_long, too_many_questions,
}
use striem.Deployment.Validate.{
  second, minute, hour, is_empty, duration_in, validate_questions, validate_challenge,
}
use striem.Deployment.Accepted.{AreAcceptable, validate_questions_lem}

-- Cooldowns of 0 to a minute below a maximum of at most an hour, a flag where there are questions,
-- at most 100 questions, each within its bounds, with distinct ids.
pub record IsDeployable (r : Reader) (ch : Challenge) : Type 0 where
  pub base : ℕ
  pub top : ℕ
  pub cooldown_is : ch.cooldown ≡ pos base
  pub max_cooldown_is : ch.max_cooldown ≡ pos top
  pub base_max : base ≤ minute
  pub base_top : base ≤ top
  pub top_max : top ≤ hour
  pub flag_set : 1 ≤ length ch.questions → is_empty ch.flag ≡ false
  pub flag_len : length ch.flag ≤ 512
  pub few : length ch.questions ≤ 100
  pub acceptable : AreAcceptable r ch.questions
  pub distinct : HasDistinctIds ch.questions

duration_in_lem :
    (r : Reader) (text : Text) (default low high : ℕ) (unread out : Invalid) {d : ℤ}
    → low ≤ default
    → default ≤ high
    → duration_in r text (pos default) (pos low) (pos high) unread out ≡ ok d
    → (n : ℕ) × (d ≡ pos n) × (low ≤ n) × (n ≤ high)
unfolding duration_in
duration_in_lem r text default low high unread out {d = pos n} a b h = ground arith
duration_in_lem r text default low high unread out {d = negsuc n} a b h = ground arith

-- The values that an accepted challenge is made of, and the tests that it passed.
record Parts (r : Reader) (m : Manifest) (ch : Challenge) : Type 0 where
  cooldown_ok :
      duration_in r m.submission_cooldown
        (pos (3 * second))
        (pos 0)
        (pos minute)
        bad_cooldown
        cooldown_out_of_range
      ≡ ok ch.cooldown
  max_cooldown_ok :
      duration_in r m.max_submission_cooldown
        (pos (2 * minute))
        ch.cooldown
        (pos hour)
        bad_max_cooldown
        max_cooldown_out_of_range
      ≡ ok ch.max_cooldown
  questions_ok : validate_questions r [] m.questions ≡ ok ch.questions
  flag_ok : 1 ≤ length m.questions → is_empty ch.flag ≡ false
  flag_short : length ch.flag ≤ 512
  few : length m.questions ≤ 100

Parts-of :
    (r : Reader) (m : Manifest) {ch : Challenge} → validate_challenge r m ≡ ok ch → Parts r m ch
unfolding validate_challenge
Parts-of r m {ch} h =
    let (cooldown, first, h₁) =
      ok_parts _
        (duration_in r m.submission_cooldown (pos (3 * second)) (pos 0) (pos minute) bad_cooldown
          cooldown_out_of_range)
        h in
    let (max_cooldown, second_one, h₂) =
      ok_parts _
        (duration_in r m.max_submission_cooldown (pos (2 * minute)) cooldown (pos hour)
          bad_max_cooldown max_cooldown_out_of_range)
        h₁ in
    let (_, set, h₃) =
      ok_parts _ (fail_if (ltb 0 (length m.questions) && is_empty (trim_space m.flag)) flag_missing)
        h₂ in
    let (_, short, h₄) =
      ok_parts _ (fail_if (ltb 512 (length (trim_space m.flag))) flag_too_long) h₃ in
    let (_, few, h₅) = ok_parts _ (fail_if (ltb 100 (length m.questions)) too_many_questions) h₄ in
    let (qs, checked, last) = ok_parts _ (validate_questions r [] m.questions) h₅ in
    ground (arith, first, second_one, set, short, few, checked, last)

-- Every challenge that the loader accepts is within its bounds.
pub validate_challenge-IsDeployable :
    (r : Reader) (m : Manifest) {ch : Challenge}
    → validate_challenge r m ≡ ok ch
    → IsDeployable r ch
validate_challenge-IsDeployable r m {ch} h =
    let p = Parts-of r m h in
    let (base, hb, _, base_max) =
      duration_in_lem r m.submission_cooldown (3 * second) 0 minute bad_cooldown
        cooldown_out_of_range (omega arith) (omega arith) p.cooldown_ok in
    let max_ok : duration_in r m.max_submission_cooldown (pos (2 * minute)) (pos base) (pos hour)
          bad_max_cooldown max_cooldown_out_of_range
        ≡ ok ch.max_cooldown =
      rw (sym hb) p.max_cooldown_ok in
    let (top, ht, base_top, top_max) =
      duration_in_lem r m.max_submission_cooldown (2 * minute) base hour bad_max_cooldown
        max_cooldown_out_of_range (omega arith) (omega arith) max_ok in
    let (acceptable, distinct, _, len) = validate_questions_lem r [] m.questions p.questions_ok in
    record {
      base = base;
      top = top;
      cooldown_is = hb;
      max_cooldown_is = ht;
      base_max = base_max;
      base_top = base_top;
      top_max = top_max;
      flag_set = λ some. p.flag_ok (omega arith);
      flag_len = p.flag_short;
      few = omega arith;
      acceptable = acceptable;
      distinct = distinct;
    }

-- Configuring the database with an accepted challenge reconciles the stored progress with its
-- questions, or reports an error and changes nothing.
pub validated-Reconciles :
    (r : Reader) (m : Manifest) (f : Faults) (s : Store) {ch : Challenge}
    → validate_challenge r m ≡ ok ch
    → IsKeyed s.table
    → ((configure f ch s).1 ≡ ok tt × Reconciles ch s (configure f ch s).0)
      ⊎ (((e : Error) × ((configure f ch s).1 ≡ err e)) × ((configure f ch s).0 ≡ s))
validated-Reconciles r m f s {ch} h k =
    configure-Reconciles f ch s (validate_challenge-IsDeployable r m h).distinct k

-- Under an accepted challenge no cooldown overflows: for every number of attempts it is the exact
-- doubling of the base held at the maximum, and at most an hour.
pub validated-cooldown_after :
    (r : Reader) (m : Manifest) (attempts : ℕ) {ch : Challenge}
    → validate_challenge r m ≡ ok ch
    → (base : ℕ) × (top : ℕ) × (ch.cooldown ≡ pos base)
      × (cooldown_after ch attempts ≡ pos (exact_cooldown base top attempts))
      × (base ≤ exact_cooldown base top attempts)
      × (exact_cooldown base top attempts ≤ hour)
validated-cooldown_after r m attempts {ch} h =
    let d = validate_challenge-IsDeployable r m h in
    (
      d.base,
      d.top,
      d.cooldown_is,
      cooldown_after_lem ch d.base d.top attempts d.cooldown_is d.max_cooldown_is (omega arith),
      base-le-exact_cooldown d.base d.top attempts,
      ground arith,
    )
