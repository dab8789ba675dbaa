-- ===== src/Store/Succeeding.antt =====
-- Rules for actions that cannot fail, where no statement is refused.
use striem.Common.{ℕ, false, ◌≡◌}
use striem.Common.Result.{Result, ok, err}
use striem.Store.Defs.{
  Db, Memory, World, Engine, StoreError, Action, execute, query, transaction, rolled_back,
}
use striem.Store.Rules.{Pred, Outcome, Triple, Triple-bind, Triple-pure}

-- No failure.
abbrev pub Never : Pred
Never d m = ⊥

-- Where no statement is refused.
pub Triple-works :
    {P : Pred} {Q : Unit {0} → Pred} (e : Engine) (change : Db → Db)
    → ((n : ℕ) → e.fails n ≡ false)
    → ((d : Db) (m : Memory) → P d m → Q tt (change d) m)
    → Triple P (execute e change) Q Never
unfolding execute
Triple-works e change works h = record { holds = λ w p. rw (works w.clock) (h w.db w.memory p) }

pub Triple-answers :
    {A : Type 0} {P : Pred} {Q : A → Pred} (e : Engine) (read : Db → A)
    → ((n : ℕ) → e.fails n ≡ false)
    → ((d : Db) (m : Memory) → P d m → Q (read d) d m)
    → Triple P (query e read) Q Never
unfolding query
Triple-answers e read works h = record { holds = λ w p. rw (works w.clock) (h w.db w.memory p) }

pub Triple-commits :
    {A : Type 0} {P : Pred} {Q : A → Pred} (e : Engine) {body : Action A}
    → ((n : ℕ) → e.fails n ≡ false)
    → Triple P body Q Never
    → Triple P (transaction e body) Q Never
unfolding transaction
Triple-commits {P = P} {Q = Q} e {body} works h =
    Triple-bind {Q = λ _. P} (Triple-works e (λ db. db) works (λ d m p. p)) (λ _. record {
      holds = λ w p. never-Outcome Q w.db _ (
          (Triple-bind h (λ a.
              Triple-bind {Q = λ _ d m. Q a d m} (Triple-works e (λ db. db) works (λ d m x. x))
                (λ _. Triple-pure a (λ d m x. x)))).holds
            w p);
    })
  where
    never-Outcome :
        {A : Type 0} (Q : A → Pred) (before : Db) (r : World × Result StoreError A)
        → Outcome Q Never r
        → Outcome Q Never (rolled_back before r)
    never-Outcome Q before (w, ok a) h = h
    never-Outcome Q before (w, err e) h = h
