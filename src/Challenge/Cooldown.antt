-- ===== src/Challenge/Cooldown.antt =====
-- `cooldownAfter` of internal/database/questions.go: the wait after wrong answers.
use native.Mathlib.Nat.{pow-suc, pow-le-pow_right}
use striem.Common.{
  ℕ, zero, suc, ◌+◌, ◌-◌, ◌*◌, ◌^◌, ◌≤◌, ◌<◌, min, ◌≡◌, refl, ap, ◌∙◌, inl, inr, true, false,
  Bool-cases, ◌&&◌, arith, leb, ltb, if◌then◌else◌,
}
use striem.Common.Int.{ℤ, pos, ltb_ℤ, ◌+ℤ◌, wrap64, wrap64_fits}
use striem.Challenge.Defs.{Challenge}

abbrev pub escalation_free_attempts : ℕ
escalation_free_attempts = 10

-- The first argument counts the rounds from `escalationFreeAttempts` up to `attempts`.
escalate : ℕ → ℤ → ℤ → ℤ
escalate zero top c = c
escalate (suc n) top c =
    let rest = escalate n top (wrap64 (c +ℤ c)) in
    if ltb_ℤ (pos 0) c && ltb_ℤ c top then rest else c

unfoldable pub cooldown_after : Challenge → ℕ → ℤ
unfolding escalate
cooldown_after ch attempts =
    let c = escalate (attempts - escalation_free_attempts) ch.max_cooldown ch.cooldown in
    if ltb_ℤ ch.cooldown ch.max_cooldown && ltb_ℤ ch.max_cooldown c then ch.max_cooldown else c

-- The cooldown in exact arithmetic.
abbrev pub exact_cooldown : ℕ → ℕ → ℕ → ℕ
exact_cooldown base top attempts =
    if leb top base then base else min top (base * 2 ^ (attempts - escalation_free_attempts))

-- What `cooldownAfter` returns when `max_cooldown` is above the base.
abbrev capped : ℕ → ℤ → ℤ
capped m c = if ltb_ℤ (pos m) c then pos m else c

double : ℕ → ℤ
double c = wrap64 (pos c +ℤ pos c)

double_fits : (c m : ℕ) → c < m → m ≤ 2 ^ 62 → double c ≡ pos (c + c)
unfolding double ◌+ℤ◌
double_fits c m h k = ground (arith, wrap64_fits (pos (c + c)) (omega arith))

escalate-suc :
    (n c m : ℕ)
    → escalate (suc n) (pos m) (pos c)
      ≡ (if ltb 0 c && ltb c m then escalate n (pos m) (double c) else pos c)
unfolding escalate double
escalate-suc n c m = ground arith

pow_pos : (n : ℕ) → 1 ≤ 2 ^ n
pow_pos zero = omega arith
pow_pos (suc n) = omega (arith, pow-suc 2 n, pow_pos n)

below_cap : (c m : ℕ) → (ltb 0 c && ltb c m) ≡ true → c < m
below_cap c m h = ground arith

double_mul : (c n : ℕ) → (c + c) * 2 ^ n ≡ c * 2 ^ suc n
double_mul c n = omega (arith, ap (λ (t : ℕ). c * t) (pow-suc 2 n))

capped_stop :
    (n c m : ℕ) → (ltb 0 c && ltb c m) ≡ false → capped m (pos c) ≡ pos (min m (c * 2 ^ suc n))
capped_stop n zero m h = ground arith
capped_stop n (suc c) m h =
    let grows : suc c ≤ suc c * 2 ^ suc n = grind (arith, pow_pos (suc n)) in ground arith

escalate_flat : (n base top : ℕ) → leb top base ≡ true → escalate n (pos top) (pos base) ≡ pos base
unfolding escalate
escalate_flat zero base top h = refl
escalate_flat (suc n) base top h = ground arith

capped-escalate :
    (n c m : ℕ) → m ≤ 2 ^ 62 → capped m (escalate n (pos m) (pos c)) ≡ pos (min m (c * 2 ^ n))
capped-escalate zero c m k = unfold escalate in ground arith
capped-escalate (suc n) c m k = elim (Bool-cases (ltb 0 c && ltb c m)) [
  | inl below ↦
      rw (escalate-suc n c m, below, double_fits c m (below_cap c m below) k)
        (capped-escalate n (c + c) m k ∙ ap (λ e. pos (min m e)) (double_mul c n))
  | inr above ↦ rw (escalate-suc n c m, above) (capped_stop n c m above)
]

-- With bounds that do not overflow, the cooldown is the base doubled once for each wrong answer
-- after the tenth, and held at the maximum.
pub cooldown_after_lem :
    (ch : Challenge) (base top attempts : ℕ)
    → ch.cooldown ≡ pos base
    → ch.max_cooldown ≡ pos top
    → top ≤ 2 ^ 62
    → cooldown_after ch attempts ≡ pos (exact_cooldown base top attempts)
unfolding cooldown_after
cooldown_after_lem ch base top attempts hb hc k =
    rw (hb, hc)
      (elim (Bool-cases (leb top base)) [
        | inl flat ↦
            ground (arith, escalate_flat (attempts - escalation_free_attempts) base top flat)
        | inr rises ↦
            ground (arith, capped-escalate (attempts - escalation_free_attempts) base top k)
      ])

-- Another wrong answer never shortens the wait.
pub exact_cooldown_mono :
    (base top m n : ℕ) → m ≤ n → exact_cooldown base top m ≤ exact_cooldown base top n
exact_cooldown_mono base top m n h =
    let pow_le : 2 ^ (m - escalation_free_attempts) ≤ 2 ^ (n - escalation_free_attempts) =
      pow-le-pow_right {n = 2} (omega arith) (omega arith) in
    let le : base * 2 ^ (m - escalation_free_attempts) ≤ base * 2 ^ (n - escalation_free_attempts) =
      grind arith in
    ground arith

-- The wait is never below the configured cooldown.
pub base-le-exact_cooldown : (base top n : ℕ) → base ≤ exact_cooldown base top n
base-le-exact_cooldown base top n =
    let grows : base ≤ base * 2 ^ (n - escalation_free_attempts) =
      grind (arith, pow_pos (n - escalation_free_attempts)) in
    ground arith
