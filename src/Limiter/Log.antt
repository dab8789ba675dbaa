-- ===== src/Limiter/Log.antt =====
-- `logLimiter` of internal/api/client_limit.go: how often a client can make the server log.
use striem.Common.{
  ℕ, ◌+◌, ◌-◌, ◌*◌, ◌/◌, ◌≤◌, Bool, List, [], ◌∷◌, arith, leb, if◌then◌else◌, Bool-cases, inl, inr,
}

abbrev pub max_error_logs_per_minute : ℕ
max_error_logs_per_minute = 30

-- `time.Minute`, in nanoseconds.
abbrev pub minute : ℕ
minute = 60_000_000_000

pub record LogLimiter : Type 0 where
  pub window : ℕ
  pub count : ℕ

unfoldable pub allow : LogLimiter → ℕ → LogLimiter × Bool
allow l now =
    let m : LogLimiter =
      if leb minute (now - l.window) then record { window = now; count = 0 } else l in
    (record m { count = m.count + 1 }, leb (m.count + 1) max_error_logs_per_minute)

-- The number of calls that are allowed.
unfoldable pub allowed : LogLimiter → List ℕ → ℕ
unfolding allow
allowed l [] = 0
allowed l (now ∷ times) = (if (allow l now).1 then 1 else 0) + allowed (allow l now).0 times

-- The times do not go back, and none is past `end`.
abbrev pub Ordered : ℕ → ℕ → List ℕ → Type 0
Ordered from end [] = from ≤ end
Ordered from end (t ∷ times) = (from ≤ t) × Ordered t end times

Ordered-le : (from end : ℕ) (times : List ℕ) → Ordered from end times → from ≤ end
Ordered-le from end [] h = h
Ordered-le from end (t ∷ times) h = omega (arith, Ordered-le t end times h.1)

-- What is left of a window, and what the later windows allow.
abbrev room : LogLimiter → ℕ → ℕ
room l end = max_error_logs_per_minute - l.count + 30 * ((end - l.window) / minute)

allowed-le-room :
    (l : LogLimiter) (from end : ℕ) (times : List ℕ)
    → l.window ≤ from
    → Ordered from end times
    → allowed l times ≤ room l end
unfolding allowed
allowed-le-room l from end [] w o = omega arith
allowed-le-room l from end (t ∷ times) w o =
    let le = Ordered-le t end times o.1 in
    elim (Bool-cases (leb minute (t - l.window))) [
      | inl late ↦
          let new : LogLimiter = record { window = t; count = 1 } in
          ground (arith, allowed-le-room new t end times (omega arith) o.1)
      | inr early ↦
          let old : LogLimiter = record { window = l.window; count = l.count + 1 } in
          ground (arith, allowed-le-room old t end times (omega arith) o.1)
    ]

-- While the clock does not go back, at most 30 lines are logged for each minute between `from`
-- and `end`, begun minutes counted, and 30 more for the window that is open at `from`.
pub allowed-le :
    (l : LogLimiter) (from end : ℕ) (times : List ℕ)
    → l.window ≤ from
    → Ordered from end times
    → allowed l times ≤ 30 * ((end - from) / minute + 2)
unfolding allowed
allowed-le l from end [] w o = omega arith
allowed-le l from end (t ∷ times) w o =
    let le = Ordered-le t end times o.1 in
    elim (Bool-cases (leb minute (t - l.window))) [
      | inl late ↦
          let new : LogLimiter = record { window = t; count = 1 } in
          ground (arith, allowed-le-room new t end times (omega arith) o.1)
      | inr early ↦
          let old : LogLimiter = record { window = l.window; count = l.count + 1 } in
          ground (arith, allowed-le-room old t end times (omega arith) o.1)
    ]
