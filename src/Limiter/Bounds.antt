-- ===== src/Limiter/Bounds.antt =====
-- What holds in every state that the limiter can reach.
use striem.Common.{
  ℕ, ◌+◌, ◌≤◌, ◌<◌, ◌≡◌, ◌↔◌, refl, ap, ◌⊎◌, List, [], ◌∷◌, ◌++◌, Option, none, some, true, false,
  is_some, ◌==◌, if◌then◌else◌, arith, Option-cases, inl, inr,
}
use striem.Limiter.Defs.{
  Phase, waiting, running, releasing, leaving, Query, Limiter, query, Step, enters, starts,
  gives_up, releases, drains, leaves, Reaches, start, next, send, enter, enter_at, lookup_or_make,
}
use striem.Limiter.Sound.{is_held, users_at, held_at, Mapped, IsSound, held_at-append}
use striem.Limiter.Moves.{mapped_here, moves-IsSound, starts-IsSound, drains-IsSound}
use striem.Limiter.Enter.{enter-IsSound, initial-IsSound, enter_if_new, enter_if_old}
use striem.Limiter.Leaves.{leaves-IsSound}

Step-IsSound : {l m : Limiter} → Step l m → IsSound l → IsSound m
Step-IsSound (enters l client) i = enter-IsSound l client i
Step-IsSound (starts l before after client slots e room) i =
    starts-IsSound l before after client slots waiting e i refl room
Step-IsSound (gives_up l before after client slots e) i =
    moves-IsSound l before after client slots waiting e i leaving refl
Step-IsSound (releases l before after client held slots e found) i =
    let same : slots ≡ held = ground (arith, mapped_here l before after client held running e i) in
    rw same (moves-IsSound l before after client held running e i releasing refl)
Step-IsSound (drains l before after client slots e some_value) i =
    drains-IsSound l before after client slots releasing e i refl some_value
Step-IsSound (leaves l before after client slots e) i =
    leaves-IsSound l before after client slots e i

Reaches-IsSound : {l : Limiter} → Reaches l → IsSound l
Reaches-IsSound start = initial-IsSound
Reaches-IsSound (next r s) = Step-IsSound s (Reaches-IsSound r)

-- The queries of a client, and those of them that run.
abbrev pub of_client : ℕ → List Query → ℕ
of_client client [] = 0
of_client client (q ∷ qs) = (if q.client == client then 1 else 0) + of_client client qs

abbrev pub running_of : ℕ → List Query → ℕ
running_of client [] = 0
running_of client (q ∷ qs) =
    (if is_held q.phase then (if q.client == client then 1 else 0) else 0) + running_of client qs

module _ (f : ℕ → Option ℕ) (client slots : ℕ) (e : f client ≡ some slots) where
  of_client-le : (qs : List Query) → Mapped f qs → of_client client qs ≤ users_at slots qs
  of_client-le [] m = omega arith
  of_client-le (q ∷ qs) m = ground (arith, of_client-le qs m.1, m.0)

  running_of-le : (qs : List Query) → Mapped f qs → running_of client qs ≤ held_at slots qs
  running_of-le [] m = omega arith
  running_of-le (q ∷ qs) m = ground (arith, running_of-le qs m.1, m.0)

no_queries :
    (f : ℕ → Option ℕ) (client : ℕ) (qs : List Query)
    → f client ≡ none
    → Mapped f qs
    → (of_client client qs ≡ 0) × (running_of client qs ≡ 0)
no_queries f client [] e m = omega arith
no_queries f client (q ∷ qs) e m = ground (arith, no_queries f client qs e m.1, m.0)

-- In whatever order queries of whatever clients come, run, give up and finish, no client has more
-- than two queries that hold a slot, nor more than ten that run or wait.
pub client_bounds :
    (l : Limiter) (client : ℕ)
    → Reaches l
    → (running_of client l.queries ≤ 2) × (of_client client l.queries ≤ 10)
client_bounds l client r =
    let i = Reaches-IsSound r in
    elim (Option-cases (l.clients client)) [
      | inl e ↦ omega (arith, no_queries l.clients client l.queries e i.counted.mapped)
      | inr (slots, e) ↦ (
        omega (
          arith,
          running_of-le l.clients client slots e l.queries i.counted.mapped,
          i.counted.running_is slots,
          i.counted.few_running slots,
        ),
        omega (
          arith,
          of_client-le l.clients client slots e l.queries i.counted.mapped,
          i.counted.users_is slots,
          i.counted.few_users slots,
        ),
      )
    ]

module _ (f : ℕ → Option ℕ) (client slots : ℕ)
    (alone : (c : ℕ) → f c ≡ some slots → c ≡ client) where
  users_at-le : (qs : List Query) → Mapped f qs → users_at slots qs ≤ of_client client qs
  users_at-le [] m = omega arith
  users_at-le (q ∷ qs) m = ground (arith, users_at-le qs m.1, m.0, alone q.client)

  held_at-le : (qs : List Query) → Mapped f qs → held_at slots qs ≤ running_of client qs
  held_at-le [] m = omega arith
  held_at-le (q ∷ qs) m = ground (arith, held_at-le qs m.1, m.0, alone q.client)

-- A client has slots in the map exactly while it has a query that waits, runs or leaves: none is
-- forgotten, and the map does not grow with the clients that are gone.
pub mapped_iff_of_client :
    (l : Limiter) (client : ℕ)
    → Reaches l
    → (is_some (l.clients client) ≡ true) ↔ (0 < of_client client l.queries)
mapped_iff_of_client l client r =
    let i = Reaches-IsSound r in
    elim (Option-cases (l.clients client)) [
      | inl e ↦ (
        λ h. absurd (ground arith),
        λ h. absurd (omega (arith, no_queries l.clients client l.queries e i.counted.mapped)),
      )
      | inr (slots, e) ↦ (
        λ h. omega (
          arith,
          users_at-le l.clients client slots (λ c k. i.counted.alone c client slots k e) l.queries
              i.counted.mapped,
          i.counted.users_is slots,
          i.in_use client slots e,
        ),
        λ h. rw e,
      )
    ]

-- In whatever order the queries of the clients take their steps: from when a query holds a slot to
-- when `release` has received its value, the map has the slots of its client, and they are those
-- that the query acquired; and there is a value in their channel. So `release` neither follows a
-- nil pointer nor, at its receive, has to wait.
pub release_ready :
    (l : Limiter) (before after : List Query) (client slots : ℕ) (phase : Phase)
    → Reaches l
    → l.queries ≡ before ++ query client slots phase ∷ after
    → (phase ≡ running) ⊎ (phase ≡ releasing)
    → (l.clients client ≡ some slots) × (0 < (l.heap slots).running)
release_ready l before after client slots phase r e held =
    let i = Reaches-IsSound r in
    (
      mapped_here l before after client slots phase e i,
      ground (
        arith,
        is_held_lem phase held,
        i.counted.running_is slots,
        ap (held_at slots) e,
        held_at-append slots before (query client slots phase ∷ after),
      ),
    )
  where
    is_held_lem : (phase : Phase) → (phase ≡ running) ⊎ (phase ≡ releasing) → is_held phase ≡ true
    is_held_lem phase (inl eq) = ap is_held eq
    is_held_lem phase (inr eq) = ap is_held eq

-- A query that waits can start whenever fewer than two of its client's queries hold a slot.
pub start_ready :
    (l : Limiter) (before after : List Query) (client slots : ℕ)
    → Reaches l
    → l.queries ≡ before ++ query client slots waiting ∷ after
    → running_of client l.queries < 2
    → Step l (record (send l slots) { queries = before ++ query client slots running ∷ after })
start_ready l before after client slots r e few =
    let i = Reaches-IsSound r in
    let here = mapped_here l before after client slots waiting e i in
    starts l before after client slots e (
      omega (
        arith,
        held_at-le l.clients client slots (λ c k. i.counted.alone c client slots k here) l.queries
            i.counted.mapped,
        i.counted.running_is slots,
      ))

enter_at_refuses :
    (l : Limiter) (client slots : ℕ)
    → (((enter_at l client slots).1 ≡ false) ↔ (10 ≤ (l.heap slots).users))
      × ((enter_at l client slots).1 ≡ false → (enter_at l client slots).0 ≡ l)
unfolding enter_at
enter_at_refuses l client slots = ground arith

enter_new_accepts :
    (l : Limiter) (client : ℕ)
    → l.clients client ≡ none
    → (enter_at (lookup_or_make l client).0 client l.next).1 ≡ true
unfolding enter_at lookup_or_make
enter_new_accepts l client e = ground arith

users-of_client :
    (l : Limiter) (client slots : ℕ)
    → IsSound l
    → l.clients client ≡ some slots
    → (l.heap slots).users ≡ of_client client l.queries
users-of_client l client slots i e = omega (
  arith,
  users_at-le l.clients client slots (λ c k. i.counted.alone c client slots k e) l.queries
      i.counted.mapped,
  of_client-le l.clients client slots e l.queries i.counted.mapped,
  i.counted.users_is slots,
)

-- A new query is turned away exactly if ten queries of its client run, wait or leave, and then
-- nothing changes.
pub enter_refuses :
    (l : Limiter) (client : ℕ)
    → Reaches l
    → (((enter l client).1 ≡ false) ↔ (10 ≤ of_client client l.queries))
      × ((enter l client).1 ≡ false → (enter l client).0 ≡ l)
enter_refuses l client r =
    let i = Reaches-IsSound r in
    elim (Option-cases (l.clients client)) [
      | inl e ↦
          let no = no_queries l.clients client l.queries e i.counted.mapped in
          let yes' = enter_new_accepts l client e in
          rw (enter_if_new l client e) ((λ h. cc, λ h. absurd (omega (arith, no.0))), λ h. cc)
      | inr (slots, e) ↦
          rw (enter_if_old l client slots e, ← users-of_client l client slots i e)
            (enter_at_refuses l client slots)
    ]
