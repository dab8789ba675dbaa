-- ===== src/Limiter/Tests.antt =====
-- Three queries of one client, and the theorems on them.
use striem.Common.{
  ◌+◌, ◌*◌, ◌-◌, ◌/◌, ◌≤◌, ◌<◌, ◌≡◌, ◌↔◌, refl, true, [], ◌∷◌, ◌++◌, some, is_some, arith, inr,
}
use striem.Limiter.Defs.{
  Limiter, initial, query, waiting, running, releasing, releases, Reaches, start, next, Step,
  enters, send, enter,
}
use striem.Limiter.Bounds.{
  client_bounds, of_client, running_of, mapped_iff_of_client, release_ready, start_ready,
}
use striem.Limiter.Log.{LogLimiter, allowed, allowed-le, minute}

-- Client 7 sends two queries, and the later one starts.
abbrev entered : Limiter
entered = (enter (enter initial 7).0 7).0

entered_queries : entered.queries ≡ query 7 0 waiting ∷ query 7 0 waiting ∷ []
unfolding enter
entered_queries = refl

entered-Reaches : Reaches entered
entered-Reaches = next (next start (enters initial 7)) (enters (enter initial 7).0 7)

few : running_of 7 entered.queries < 2
unfolding enter
few = omega arith

abbrev started : Limiter
started = record (send entered 0) { queries = [] ++ query 7 0 running ∷ query 7 0 waiting ∷ [] }

query_starts : Step entered started
query_starts =
    start_ready entered [] (query 7 0 waiting ∷ []) 7 0 entered-Reaches entered_queries few

started-Reaches : Reaches started
started-Reaches = next entered-Reaches query_starts

client_bounds_example : (running_of 7 started.queries ≤ 2) × (of_client 7 started.queries ≤ 10)
client_bounds_example = client_bounds started 7 started-Reaches

mapped_iff_of_client_example :
    (is_some (started.clients 7) ≡ true) ↔ (0 < of_client 7 started.queries)
mapped_iff_of_client_example = mapped_iff_of_client started 7 started-Reaches

-- It finishes, and has read the map but not yet the channel.
abbrev finishing : Limiter
finishing = record started { queries = [] ++ query 7 0 releasing ∷ query 7 0 waiting ∷ [] }

started_slots : started.clients 7 ≡ some 0
unfolding enter
started_slots = refl

finishing-Reaches : Reaches finishing
finishing-Reaches =
    next started-Reaches (releases started [] (query 7 0 waiting ∷ []) 7 0 0 refl started_slots)

release_ready_example : (finishing.clients 7 ≡ some 0) × (0 < (finishing.heap 0).running)
release_ready_example =
    release_ready finishing [] (query 7 0 waiting ∷ []) 7 0 releasing finishing-Reaches refl
      (inr refl)

abbrev log : LogLimiter
log = record { window = 0; count = 29 }

-- One line is left of the window, and a minute later there is a new one.
allowed_two : allowed log (1 ∷ 2 ∷ 60_000_000_001 ∷ []) ≡ 2
unfolding allowed
allowed_two = refl

allowed-le_example :
    allowed log (1 ∷ 2 ∷ 60_000_000_001 ∷ []) ≤ 30 * ((60_000_000_001 - 1) / minute + 2)
allowed-le_example =
    allowed-le log 1 60_000_000_001 (1 ∷ 2 ∷ 60_000_000_001 ∷ []) (omega arith) (omega arith)
