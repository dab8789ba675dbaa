-- ===== src/Limiter/Sound.antt =====
-- The invariant of `clientLimiter`: the counts that it keeps are those of the queries that hold its slots.
use striem.Common.{
  ℕ, ◌+◌, ◌≤◌, ◌<◌, ◌≡◌, Bool, true, false, List, [], ◌∷◌, ◌++◌, Option, none, some, ◌==◌,
  if◌then◌else◌, arith,
}
use striem.Limiter.Defs.{
  Phase, running, releasing, Query, Limiter, assign, max_client_queries, max_client_waiting,
}

-- A query that has a value of its own in the channel.
abbrev pub is_held : Phase → Bool
is_held running = true
is_held releasing = true
is_held _ = false

abbrev pub uses : Query → ℕ → ℕ
uses q slots = if q.slots == slots then 1 else 0

abbrev pub holds : Query → ℕ → ℕ
holds q slots = if is_held q.phase then uses q slots else 0

abbrev pub users_at : ℕ → List Query → ℕ
users_at slots [] = 0
users_at slots (q ∷ qs) = uses q slots + users_at slots qs

abbrev pub held_at : ℕ → List Query → ℕ
held_at slots [] = 0
held_at slots (q ∷ qs) = holds q slots + held_at slots qs

-- Each query works with the slots that the map has for its client.
abbrev pub Mapped : (ℕ → Option ℕ) → List Query → Type 0
Mapped clients [] = Unit {0}
Mapped clients (q ∷ qs) = (clients q.client ≡ some q.slots) × Mapped clients qs

-- The counts are right, and the map leads each query to its slots.
pub record IsCounted (l : Limiter) : Type 0 where
  pub users_is : (slots : ℕ) → (l.heap slots).users ≡ users_at slots l.queries
  pub running_is : (slots : ℕ) → (l.heap slots).running ≡ held_at slots l.queries
  pub mapped : Mapped l.clients l.queries
  pub below : (client slots : ℕ) → l.clients client ≡ some slots → slots < l.next
  pub alone :
      (client other slots : ℕ)
      → l.clients client ≡ some slots
      → l.clients other ≡ some slots
      → client ≡ other
  pub fresh : (slots : ℕ) → l.next ≤ slots → (l.heap slots).users ≡ 0
  pub few_users : (slots : ℕ) → (l.heap slots).users ≤ max_client_queries + max_client_waiting
  pub few_running : (slots : ℕ) → (l.heap slots).running ≤ max_client_queries

-- Moreover the map has no client without a query.
pub record IsSound (l : Limiter) : Type 0 where
  pub counted : IsCounted l
  pub in_use : (client slots : ℕ) → l.clients client ≡ some slots → 0 < (l.heap slots).users

pub users_at-append :
    (slots : ℕ) (xs ys : List Query)
    → users_at slots (xs ++ ys) ≡ users_at slots xs + users_at slots ys
users_at-append slots [] ys = omega arith
users_at-append slots (x ∷ xs) ys = omega (arith, users_at-append slots xs ys)

pub held_at-append :
    (slots : ℕ) (xs ys : List Query)
    → held_at slots (xs ++ ys) ≡ held_at slots xs + held_at slots ys
held_at-append slots [] ys = omega arith
held_at-append slots (x ∷ xs) ys = omega (arith, held_at-append slots xs ys)

pub held_at-le-users_at : (slots : ℕ) (qs : List Query) → held_at slots qs ≤ users_at slots qs
held_at-le-users_at slots [] = omega arith
held_at-le-users_at slots (q ∷ qs) = ground (arith, held_at-le-users_at slots qs)

module _ (f : ℕ → Option ℕ) where
  pub Mapped-append : (xs ys : List Query) → Mapped f xs → Mapped f ys → Mapped f (xs ++ ys)
  Mapped-append [] ys h k = k
  Mapped-append (x ∷ xs) ys h k = (h.0, Mapped-append xs ys h.1 k)

  pub Mapped-left : (xs ys : List Query) → Mapped f (xs ++ ys) → Mapped f xs
  Mapped-left [] ys h = tt
  Mapped-left (x ∷ xs) ys h = (h.0, Mapped-left xs ys h.1)

  pub Mapped-right : (xs ys : List Query) → Mapped f (xs ++ ys) → Mapped f ys
  Mapped-right [] ys h = h
  Mapped-right (x ∷ xs) ys h = Mapped-right xs ys h.1

  -- A client that is not in the map has no query.
  pub Mapped-new :
      (client slots : ℕ) (qs : List Query)
      → f client ≡ none
      → Mapped f qs
      → Mapped (assign f client (some slots)) qs
  Mapped-new client slots [] e h = tt
  Mapped-new client slots (q ∷ qs) e h = (ground arith, Mapped-new client slots qs e h.1)

  -- The entry of a client goes when nothing uses its slots.
  pub Mapped-gone :
      (client slots : ℕ) (qs : List Query)
      → f client ≡ some slots
      → users_at slots qs ≡ 0
      → Mapped f qs
      → Mapped (assign f client none) qs
  Mapped-gone client slots [] e z h = tt
  Mapped-gone client slots (q ∷ qs) e z h =
      (ground arith, Mapped-gone client slots qs e (omega arith) h.1)
