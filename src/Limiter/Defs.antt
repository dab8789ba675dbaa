-- ===== src/Limiter/Defs.antt =====
-- The `clientLimiter` of internal/api/client_limit.go as a transition system. A `clientSlots` is
-- shared through its address, so the addresses and what they hold are written out. A query that
-- has entered `acquire` is an entry of `queries`: it waits in the `select`, it runs, it is in
-- `release` with the slots that it looked up there, or it is about to call `leave`. The count of
-- users is positive wherever it is lowered, so a subtraction that stops at 0 is the source's.
use striem.Common.{
  ℕ, suc, ◌+◌, ◌-◌, ◌<◌, ◌≡◌, Bool, true, false, List, [], ◌∷◌, ◌++◌, Option, none, some, leb, ◌==◌,
  if◌then◌else◌,
}

abbrev pub max_client_queries : ℕ
max_client_queries = 2

abbrev pub max_client_waiting : ℕ
max_client_waiting = 8

-- `running` is the number of values in the channel of that name.
pub record ClientSlots : Type 0 where
  pub running : ℕ
  pub users : ℕ

pub data Phase : Type 0 where
  waiting running releasing leaving : Phase

pub record Query : Type 0 where
  pub client : ℕ
  pub slots : ℕ
  pub phase : Phase

-- The addresses below `next` are in use; clients are numbered.
pub record Limiter : Type 0 where
  pub clients : ℕ → Option ℕ
  pub heap : ℕ → ClientSlots
  pub next : ℕ
  pub queries : List Query

abbrev pub initial : Limiter
initial = record {
  clients = λ _. none;
  heap = λ _. record { running = 0; users = 0 };
  next = 0;
  queries = [];
}

abbrev pub assign {ℓ} : {A : Type ℓ} → (ℕ → A) → ℕ → A → ℕ → A
assign f k v j = if j == k then v else f j

-- `l.clients[client]`, made if it is missing.
unfoldable pub lookup_or_make : Limiter → ℕ → Limiter × ℕ
lookup_or_make l client = elim (l.clients client) [
  | some slots ↦ (l, slots)
  | none ↦ (
    record l {
      clients = assign l.clients client (some l.next);
      heap = assign l.heap l.next (record { running = 0; users = 0 });
      next = suc l.next;
    },
    l.next,
  )
]

-- The critical section of `acquire`: refused, or one more user that waits.
unfoldable pub enter_at : Limiter → ℕ → ℕ → Limiter × Bool
enter_at l client slots =
    if leb (max_client_queries + max_client_waiting) (l.heap slots).users then (l, false) else (
      record l {
        heap = assign l.heap slots (record (l.heap slots) { users = (l.heap slots).users + 1 });
        queries = record { client = client; slots = slots; phase = waiting } ∷ l.queries;
      },
      true,
    )

unfoldable pub enter : Limiter → ℕ → Limiter × Bool
unfolding lookup_or_make enter_at
enter l client = let (l', slots) = lookup_or_make l client in enter_at l' client slots

-- The critical section of `leave`. It goes by the client for the map and by the address for the
-- count, as `users--` does.
unfoldable pub leave : Limiter → ℕ → ℕ → Limiter
leave l client slots =
    let users = (l.heap slots).users - 1 in
    record l {
      heap = assign l.heap slots (record (l.heap slots) { users = users });
      clients = if users == 0 then assign l.clients client none else l.clients;
    }

-- `slots.running <- struct{}{}` and `<-slots.running`.
abbrev pub send : Limiter → ℕ → Limiter
send l slots = record l {
  heap = assign l.heap slots (record (l.heap slots) { running = (l.heap slots).running + 1 });
}

abbrev pub receive : Limiter → ℕ → Limiter
receive l slots = record l {
  heap = assign l.heap slots (record (l.heap slots) { running = (l.heap slots).running - 1 });
}

abbrev pub query : ℕ → ℕ → Phase → Query
query client slots phase = record { client = client; slots = slots; phase = phase }

-- The steps, in any order that the scheduler chooses. A send waits for room in the channel and
-- a receive for a value. `release` reads the address of the client's slots from the map anew.
pub data Step : Limiter → Limiter → Type 0 where
  enters : (l : Limiter) (client : ℕ) → Step l (enter l client).0
  starts :
      (l : Limiter) (before after : List Query) (client slots : ℕ)
      → l.queries ≡ before ++ query client slots waiting ∷ after
      → (l.heap slots).running < max_client_queries
      → Step l (record (send l slots) { queries = before ++ query client slots running ∷ after })
  gives_up :
      (l : Limiter) (before after : List Query) (client slots : ℕ)
      → l.queries ≡ before ++ query client slots waiting ∷ after
      → Step l (record l { queries = before ++ query client slots leaving ∷ after })
  releases :
      (l : Limiter) (before after : List Query) (client held slots : ℕ)
      → l.queries ≡ before ++ query client held running ∷ after
      → l.clients client ≡ some slots
      → Step l (record l { queries = before ++ query client slots releasing ∷ after })
  drains :
      (l : Limiter) (before after : List Query) (client slots : ℕ)
      → l.queries ≡ before ++ query client slots releasing ∷ after
      → 0 < (l.heap slots).running
      → Step l (record (receive l slots) { queries = before ++ query client slots leaving ∷ after })
  leaves :
      (l : Limiter) (before after : List Query) (client slots : ℕ)
      → l.queries ≡ before ++ query client slots leaving ∷ after
      → Step l (record (leave l client slots) { queries = before ++ after })

pub data Reaches : Limiter → Type 0 where
  start : Reaches initial
  next : {l m : Limiter} → Reaches l → Step l m → Reaches m
