-- ===== src/Limiter/Moves.antt =====
-- The steps of a query that has entered keep the invariant.
use mathlib.Core.Path.{subst}
use striem.Common.{ℕ, ◌+◌, ◌<◌, ◌≡◌, ap, sym, true, false, List, ◌∷◌, ◌++◌, Option, some, arith}
use striem.Limiter.Defs.{
  Phase, running, leaving, Query, Limiter, send, receive, query, max_client_queries,
}
use striem.Limiter.Sound.{
  is_held, holds, users_at, held_at, Mapped, IsSound, users_at-append, held_at-append,
  Mapped-append, Mapped-left, Mapped-right,
}

-- A query between two others changes its phase.
module _ (f : ℕ → Option ℕ) (before after : List Query) (client slots : ℕ) (p p' : Phase) where
  Mapped-phase :
      Mapped f (before ++ query client slots p ∷ after)
      → Mapped f (before ++ query client slots p' ∷ after)
  Mapped-phase h =
      let rest = Mapped-right f before (query client slots p ∷ after) h in
      Mapped-append f before (query client slots p' ∷ after) (Mapped-left f before _ h)
        (rest.0, rest.1)

module _ (l : Limiter) (before after : List Query) (client slots : ℕ) (p : Phase)
    (e : l.queries ≡ before ++ query client slots p ∷ after) (i : IsSound l) where
  users_then :
      (p' : Phase) (s : ℕ) → users_at s (before ++ query client slots p' ∷ after) ≡ (l.heap s).users
  users_then p' s = ground (
    arith,
    i.counted.users_is s,
    ap (users_at s) e,
    users_at-append s before (query client slots p ∷ after),
    users_at-append s before (query client slots p' ∷ after),
  )

  held_then :
      (p' : Phase) (s : ℕ)
      → held_at s (before ++ query client slots p' ∷ after) + holds (query client slots p) s
        ≡ (l.heap s).running + holds (query client slots p') s
  held_then p' s = omega (
    arith,
    i.counted.running_is s,
    ap (held_at s) e,
    held_at-append s before (query client slots p ∷ after),
    held_at-append s before (query client slots p' ∷ after),
  )

  Mapped-then : (p' : Phase) → Mapped l.clients (before ++ query client slots p' ∷ after)
  Mapped-then p' =
      Mapped-phase l.clients before after client slots p p'
        (subst (Mapped l.clients) e i.counted.mapped)

  pub mapped_here : l.clients client ≡ some slots
  mapped_here =
      (Mapped-right l.clients before (query client slots p ∷ after)
        (subst (Mapped l.clients) e i.counted.mapped)).0

  -- A step that changes no count.
  pub moves-IsSound :
      (p' : Phase)
      → is_held p' ≡ is_held p
      → IsSound (record l { queries = before ++ query client slots p' ∷ after })
  moves-IsSound p' same = record {
    counted = record {
      users_is = λ s. sym (users_then p' s);
      running_is = λ s. ground (arith, held_then p' s);
      mapped = Mapped-then p';
      below = i.counted.below;
      alone = i.counted.alone;
      fresh = i.counted.fresh;
      few_users = i.counted.few_users;
      few_running = i.counted.few_running;
    };
    in_use = i.in_use;
  }

  pub starts-IsSound :
      is_held p ≡ false
      → (l.heap slots).running < max_client_queries
      → IsSound (record (send l slots) { queries = before ++ query client slots running ∷ after })
  starts-IsSound not_held room = record {
    counted = record {
      users_is = λ s. ground (arith, users_then running s);
      running_is = λ s. ground (arith, held_then running s);
      mapped = Mapped-then running;
      below = i.counted.below;
      alone = i.counted.alone;
      fresh = λ s h. ground (arith, i.counted.fresh s h);
      few_users = λ s. ground (arith, i.counted.few_users s);
      few_running = λ s. ground (arith, i.counted.few_running s);
    };
    in_use = λ c s h. ground (arith, i.in_use c s h);
  }

  pub drains-IsSound :
      is_held p ≡ true
      → 0 < (l.heap slots).running
      → IsSound
          (record (receive l slots) { queries = before ++ query client slots leaving ∷ after })
  drains-IsSound held some_value = record {
    counted = record {
      users_is = λ s. ground (arith, users_then leaving s);
      running_is = λ s. ground (arith, held_then leaving s);
      mapped = Mapped-then leaving;
      below = i.counted.below;
      alone = i.counted.alone;
      fresh = λ s h. ground (arith, i.counted.fresh s h);
      few_users = λ s. ground (arith, i.counted.few_users s);
      few_running = λ s. ground (arith, i.counted.few_running s);
    };
    in_use = λ c s h. ground (arith, i.in_use c s h);
  }
