-- ===== src/Limiter/Leaves.antt =====
-- `leave` keeps the invariant: it drops the slots of a client with its last query.
use mathlib.Core.Path.{subst}
use striem.Common.{
  ℕ, ◌+◌, ◌-◌, ◌≡◌, ap, List, ◌∷◌, ◌++◌, none, some, ◌==◌, if◌then◌else◌, arith, Bool-cases, inl,
  inr,
}
use striem.Limiter.Defs.{leaving, Query, Limiter, assign, leave, query}
use striem.Limiter.Sound.{
  users_at, held_at, Mapped, IsCounted, IsSound, users_at-append, held_at-append, Mapped-append,
  Mapped-left, Mapped-right, Mapped-gone,
}
use striem.Limiter.Moves.{mapped_here}

module _ (l : Limiter) (before after : List Query) (client slots : ℕ)
    (e : l.queries ≡ before ++ query client slots leaving ∷ after) (i : IsSound l) where
  users_left :
      (s : ℕ) → users_at s (before ++ after) + (if slots == s then 1 else 0) ≡ (l.heap s).users
  users_left s = omega (
    arith,
    i.counted.users_is s,
    ap (users_at s) e,
    users_at-append s before (query client slots leaving ∷ after),
    users_at-append s before after,
  )

  held_left : (s : ℕ) → held_at s (before ++ after) ≡ (l.heap s).running
  held_left s = omega (
    arith,
    i.counted.running_is s,
    ap (held_at s) e,
    held_at-append s before (query client slots leaving ∷ after),
    held_at-append s before after,
  )

  here : l.clients client ≡ some slots
  here = mapped_here l before after client slots leaving e i

  Mapped-kept : Mapped l.clients (before ++ after)
  Mapped-kept =
      let m = subst (Mapped l.clients) e i.counted.mapped in
      Mapped-append l.clients before after (Mapped-left l.clients before _ m)
        (Mapped-right l.clients before (query client slots leaving ∷ after) m).1

  last-Mapped :
      (l.heap slots).users - 1 ≡ 0 → Mapped (assign l.clients client none) (before ++ after)
  last-Mapped z =
      Mapped-gone l.clients client slots (before ++ after) here (ground (arith, users_left slots))
        Mapped-kept

  leaves-IsCounted : IsCounted (record (leave l client slots) { queries = before ++ after })
  unfolding leave
  leaves-IsCounted = record {
    users_is = λ s. ground (arith, users_left s);
    running_is = λ s. ground (arith, held_left s);
    mapped = elim (Bool-cases ((l.heap slots).users - 1 == 0)) [
      | inl z ↦ rw (z, leave) (last-Mapped (ground arith))
      | inr more ↦ rw (more, leave) Mapped-kept
    ];
    below = λ c s h. ground (arith, i.counted.below c s);
    alone = λ c d s h k. ground (arith, i.counted.alone c d s);
    fresh = λ s h. ground (arith, i.counted.fresh s h);
    few_users = λ s. ground (arith, i.counted.few_users s);
    few_running = λ s. ground (arith, i.counted.few_running s);
  }

  pub leaves-IsSound : IsSound (record (leave l client slots) { queries = before ++ after })
  unfolding leave
  leaves-IsSound = record {
    counted = leaves-IsCounted;
    in_use = λ c s h. ground (arith, i.in_use c s, i.counted.alone c client s, here);
  }
