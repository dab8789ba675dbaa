-- ===== src/Limiter/Enter.antt =====
-- `acquire` up to its wait keeps the invariant.
use striem.Common.{
  ℕ, ◌<◌, ◌≡◌, refl, none, some, leb, arith, Bool-cases, Option-cases, inl, inr, ◌⊎◌,
}
use striem.Limiter.Defs.{Limiter, initial, lookup_or_make, enter_at, enter}
use striem.Limiter.Sound.{IsCounted, IsSound, held_at-le-users_at, Mapped-new}

pub initial-IsSound : IsSound initial
initial-IsSound = record {
  counted = record {
    users_is = λ slots. refl;
    running_is = λ slots. refl;
    mapped = tt;
    below = λ client slots e. cc;
    alone = λ client other slots e. cc;
    fresh = λ slots h. refl;
    few_users = λ slots. omega arith;
    few_running = λ slots. omega arith;
  };
  in_use = λ client slots e. cc;
}

module _ (l : Limiter) (client slots : ℕ) (i : IsCounted l)
    (e : l.clients client ≡ some slots) where
  pub enter_at-IsCounted : IsCounted (enter_at l client slots).0
  unfolding enter_at
  enter_at-IsCounted = elim (Bool-cases (leb 10 (l.heap slots).users)) [
    | inl full ↦ rw (full, enter_at) i
    | inr room ↦
        rw (room, enter_at)
          (record {
            users_is = λ s. ground (arith, i.users_is s);
            running_is = λ s. ground (arith, i.running_is s);
            mapped = (e, i.mapped);
            below = i.below;
            alone = i.alone;
            fresh = λ s h. ground (arith, i.fresh s h, i.below client slots e);
            few_users = λ s. ground (arith, i.few_users s);
            few_running = λ s. ground (arith, i.few_running s);
          })
  ]

  enter_at-in_use :
      ((c s : ℕ) → l.clients c ≡ some s → (s ≡ slots) ⊎ (0 < (l.heap s).users))
      → (c s : ℕ) → (enter_at l client slots).0.clients c ≡ some s
      → 0 < ((enter_at l client slots).0.heap s).users
  unfolding enter_at
  enter_at-in_use u c s h =
      let h' : l.clients c ≡ some s = unfold enter_at in ground arith in
      elim (Bool-cases (leb 10 (l.heap slots).users)) [
        | inl full ↦ rw (full, enter_at) (ground (arith, u c s h'))
        | inr room ↦ rw (room, enter_at) (ground (arith, u c s h'))
      ]

-- The state in which the critical section of `acquire` goes on.
made :
    (l : Limiter) (client : ℕ)
    → IsSound l
    → l.clients client ≡ none
    → IsCounted (lookup_or_make l client).0
unfolding lookup_or_make
made l client i e =
    rw (e, lookup_or_make)
      (record {
        users_is = λ s. ground (arith, i.counted.users_is s, i.counted.fresh l.next);
        running_is = λ s. ground (
          arith,
          i.counted.running_is s,
          i.counted.users_is l.next,
          i.counted.fresh l.next,
          held_at-le-users_at l.next l.queries,
        );
        mapped = Mapped-new l.clients client l.next l.queries e i.counted.mapped;
        below = λ c s h. ground (arith, i.counted.below c s);
        alone = λ c d s h k.
            ground (arith, i.counted.alone c d s, i.counted.below c s, i.counted.below d s);
        fresh = λ s h. ground (arith, i.counted.fresh s);
        few_users = λ s. ground (arith, i.counted.few_users s);
        few_running = λ s. ground (arith, i.counted.few_running s);
      })

enter_old :
    (l : Limiter) (client slots : ℕ)
    → IsSound l
    → l.clients client ≡ some slots
    → IsSound (enter_at l client slots).0
enter_old l client slots i e = record {
  counted = enter_at-IsCounted l client slots i.counted e;
  in_use = enter_at-in_use l client slots i.counted e (λ c s h. inr (i.in_use c s h));
}

made_in_use :
    (l : Limiter) (client : ℕ)
    → IsSound l
    → l.clients client ≡ none
    → (c s : ℕ) → (lookup_or_make l client).0.clients c ≡ some s
    → (s ≡ l.next) ⊎ (0 < ((lookup_or_make l client).0.heap s).users)
unfolding lookup_or_make
made_in_use l client i e c s h = ground (arith, i.in_use c s, i.counted.below c s)

made_at :
    (l : Limiter) (client : ℕ)
    → l.clients client ≡ none
    → (lookup_or_make l client).0.clients client ≡ some l.next
unfolding lookup_or_make
made_at l client e = ground arith

enter_new :
    (l : Limiter) (client : ℕ)
    → IsSound l
    → l.clients client ≡ none
    → IsSound (enter_at (lookup_or_make l client).0 client l.next).0
enter_new l client i e = record {
  counted = enter_at-IsCounted _ client l.next (made l client i e) (made_at l client e);
  in_use =
      enter_at-in_use _ client l.next (made l client i e) (made_at l client e)
        (made_in_use l client i e);
}

pub enter_if_new :
    (l : Limiter) (client : ℕ)
    → l.clients client ≡ none
    → enter l client ≡ enter_at (lookup_or_make l client).0 client l.next
unfolding enter lookup_or_make
enter_if_new l client e = rw (e, enter, lookup_or_make)

pub enter_if_old :
    (l : Limiter) (client slots : ℕ)
    → l.clients client ≡ some slots
    → enter l client ≡ enter_at l client slots
unfolding enter lookup_or_make
enter_if_old l client slots e = rw (e, enter, lookup_or_make)

-- `acquire` keeps the invariant up to its wait.
pub enter-IsSound : (l : Limiter) (client : ℕ) → IsSound l → IsSound (enter l client).0
enter-IsSound l client i = elim (Option-cases (l.clients client)) [
  | inl e ↦ rw (enter_if_new l client e) (enter_new l client i e)
  | inr (slots, e) ↦ rw (enter_if_old l client slots e) (enter_old l client slots i e)
]
