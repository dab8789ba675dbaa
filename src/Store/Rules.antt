-- ===== src/Store/Rules.antt =====
-- Rules for statements about actions: what holds behind a success and behind a failure.
use striem.Common.{
  arith, Option, none, some, Bool, true, false, not, ◌||◌, ◌≡◌, inl, inr, Bool-cases, if◌then◌else◌,
  refl,
}
use mathlib.Core.Path.{subst, sym}
use striem.Common.Result.{Result, ok, err}
use striem.Store.Defs.{
  Db, Memory, World, Engine, StoreError, Action, after, ◌>>=◌, execute, execute_if, query,
  transaction, modify, recall, report, pure, fail, rolled_back,
}

-- A statement about the database and the memory.
abbrev pub Pred : Type 1
Pred = Db → Memory → Type 0

abbrev pub Outcome : {A : Type 0} → (A → Pred) → Pred → World × Result StoreError A → Type 0
Outcome Q R (w, ok a) = Q a w.db w.memory
Outcome Q R (w, err e) = R w.db w.memory

-- From P the action leads to Q where it succeeds and to R where it fails.
pub record Triple {A : Type 0} (P : Pred) (m : Action A) (Q : A → Pred) (R : Pred) : Type 0 where
  pub holds : (w : World) → P w.db w.memory → Outcome Q R (m w)

after-Outcome :
    {A B : Type 0} (Q : A → Pred) (S : B → Pred) (R : Pred) (r : World × Result StoreError A)
    (next : A → Action B)
    → Outcome Q R r
    → ((a : A) → Triple (Q a) (next a) S R)
    → Outcome S R (after r next)
after-Outcome Q S R (w, ok a) next h k = (k a).holds w h
after-Outcome Q S R (w, err e) next h k = h

pub Triple-bind :
    {A B : Type 0} {P : Pred} {Q : A → Pred} {S : B → Pred} {R : Pred} {m : Action A}
    {next : A → Action B}
    → Triple P m Q R
    → ((a : A) → Triple (Q a) (next a) S R)
    → Triple P (m >>= next) S R
Triple-bind {Q = Q} {S = S} {R = R} {m = m} {next = next} h k = record {
  holds = λ w p. after-Outcome Q S R (m w) next (h.holds w p) k;
}

pub Triple-execute :
    {P R : Pred} {Q : Unit {0} → Pred} (e : Engine) (change : Db → Db)
    → ((d : Db) (m : Memory) → P d m → Q tt (change d) m)
    → ((d : Db) (m : Memory) → P d m → R d m)
    → Triple P (execute e change) Q R
unfolding execute
Triple-execute e change h k = record {
  holds = λ w p. elim (Bool-cases (e.fails w.clock)) [
    | inl fails ↦ rw fails (k w.db w.memory p)
    | inr works ↦ rw works (h w.db w.memory p)
  ];
}

pub Triple-execute_if :
    {P R : Pred} {Q : Unit {0} → Pred} (e : Engine) (allowed : Db → Bool) (change : Db → Db)
    → ((d : Db) (m : Memory) → P d m → Q tt (change d) m)
    → ((d : Db) (m : Memory) → P d m → R d m)
    → Triple P (execute_if e allowed change) Q R
unfolding execute_if
Triple-execute_if e allowed change h k = record {
  holds = λ w p. elim (Bool-cases (e.fails w.clock || not (allowed w.db))) [
    | inl fails ↦ rw fails (k w.db w.memory p)
    | inr works ↦ rw works (h w.db w.memory p)
  ];
}

-- The same, with what the statement asks for.
pub Triple-execute_allowed :
    {P R : Pred} {Q : Unit {0} → Pred} (e : Engine) (allowed : Db → Bool) (change : Db → Db)
    → ((d : Db) (m : Memory) → allowed d ≡ true → P d m → Q tt (change d) m)
    → ((d : Db) (m : Memory) → P d m → R d m)
    → Triple P (execute_if e allowed change) Q R
unfolding execute_if
Triple-execute_allowed e allowed change h k = record {
  holds = λ w p. elim (Bool-cases (e.fails w.clock || not (allowed w.db))) [
    | inl fails ↦ rw fails (k w.db w.memory p)
    | inr works ↦ rw works (h w.db w.memory (ground (arith, works)) p)
  ];
}

pub Triple-query :
    {A : Type 0} {P R : Pred} {Q : A → Pred} (e : Engine) (read : Db → A)
    → ((d : Db) (m : Memory) → P d m → Q (read d) d m)
    → ((d : Db) (m : Memory) → P d m → R d m)
    → Triple P (query e read) Q R
unfolding query
Triple-query e read h k = record {
  holds = λ w p. elim (Bool-cases (e.fails w.clock)) [
    | inl fails ↦ rw fails (k w.db w.memory p)
    | inr works ↦ rw works (h w.db w.memory p)
  ];
}

pub Triple-weaken :
    {A : Type 0} {P P' R R' : Pred} {Q Q' : A → Pred} {m : Action A}
    → Triple P m Q R
    → ((d : Db) (s : Memory) → P' d s → P d s)
    → ((a : A) (d : Db) (s : Memory) → Q a d s → Q' a d s)
    → ((d : Db) (s : Memory) → R d s → R' d s)
    → Triple P' m Q' R'
Triple-weaken {A = A} {R = R} {R' = R'} {Q = Q} {Q' = Q'} {m = m} h p q r = record {
  holds = λ w a. weaken (m w) (h.holds w (p w.db w.memory a));
}
  where
    weaken : (o : World × Result StoreError A) → Outcome Q R o → Outcome Q' R' o
    weaken (w, ok a) x = q a w.db w.memory x
    weaken (w, err e) x = r w.db w.memory x

pub Triple-pure :
    {A : Type 0} {P R : Pred} {Q : A → Pred} (a : A)
    → ((d : Db) (m : Memory) → P d m → Q a d m)
    → Triple P (pure a) Q R
Triple-pure a h = record { holds = λ w p. h w.db w.memory p }

pub Triple-fail :
    {A : Type 0} {P R : Pred} {Q : A → Pred} (e : StoreError)
    → ((d : Db) (m : Memory) → P d m → R d m)
    → Triple P (fail e) Q R
Triple-fail e h = record { holds = λ w p. h w.db w.memory p }

pub Triple-modify :
    {P R : Pred} {Q : Unit {0} → Pred} (change : Memory → Memory)
    → ((d : Db) (m : Memory) → P d m → Q tt d (change m))
    → Triple P (modify change) Q R
Triple-modify change h = record { holds = λ w p. h w.db w.memory p }

pub Triple-recall :
    {A : Type 0} {P R : Pred} {Q : A → Pred} (read : Memory → A)
    → ((d : Db) (m : Memory) → P d m → Q (read m) d m)
    → Triple P (recall read) Q R
Triple-recall read h = record { holds = λ w p. h w.db w.memory p }

pub Triple-report :
    {A : Type 0} {P R : Pred} {Q : A → Pred} (read : Db → A)
    → ((d : Db) (m : Memory) → P d m → Q (read d) d m)
    → Triple P (report read) Q R
Triple-report read h = record { holds = λ w p. h w.db w.memory p }

pub Triple-if :
    {A : Type 0} {P R : Pred} {Q : A → Pred} (b : Bool) {m k : Action A}
    → (b ≡ true → Triple P m Q R)
    → (b ≡ false → Triple P k Q R)
    → Triple P (if b then m else k) Q R
Triple-if true h k = h refl
Triple-if false h k = k refl

-- A fact that does not depend on the state.
pub Triple-given :
    {A X : Type 0} {P R : Pred} {Q : A → Pred} {m : Action A}
    → (X → Triple P m Q R)
    → Triple (λ d s. P d s × X) m Q R
Triple-given h = record { holds = λ w p. (h p.1).holds w p.0 }

pub Triple-elim :
    {A : Type 0} {P R : Pred} {Q : A → Pred} (b : Bool) {m k : Action A}
    → Triple P m Q R
    → Triple P k Q R
    → Triple P (elim b [ true ↦ m | false ↦ k ]) Q R
Triple-elim true h k = h
Triple-elim false h k = k

pub Triple-option :
    {A B : Type 0} {P R : Pred} {Q : A → Pred} (o : Option B) {m : Action A} {k : B → Action A}
    → Triple P m Q R
    → ((b : B) → Triple P (k b) Q R)
    → Triple P (elim o [ none ↦ m | some b ↦ k b ]) Q R
Triple-option none h k = h
Triple-option (some b) h k = k b

pub Triple-result :
    {A B E : Type 0} {P R : Pred} {Q : A → Pred} (r : Result E B) {m : Action A} {k : B → Action A}
    → Triple P m Q R
    → ((b : B) → r ≡ ok b → Triple P (k b) Q R)
    → Triple P (elim r [ err e ↦ m | ok b ↦ k b ]) Q R
Triple-result (err e) h k = h
Triple-result (ok b) h k = k b refl

abbrev At : Db → Memory → Pred
At before kept d m = (d ≡ before) × (m ≡ kept)

rolled_back-Outcome :
    {A : Type 0} (Q : A → Pred) (R : Pred) (before : Db) (kept : Memory)
    (r : World × Result StoreError A)
    → R before kept
    → Outcome Q (λ d m. m ≡ kept) r
    → Outcome Q R (rolled_back before r)
rolled_back-Outcome Q R before kept (w, ok a) k h = h
rolled_back-Outcome Q R before kept (w, err e) k h = subst (R before) (sym h) k

-- A transaction whose body leaves the memory alone: an error is as if it had not been tried.
pub Triple-transaction :
    {A : Type 0} {P R : Pred} {Q : A → Pred} (e : Engine) {body : Action A}
    → ((before : Db) (kept : Memory)
        → P before kept
        → Triple (At before kept) body (λ a d m. Q a d m × (m ≡ kept)) (λ d m. m ≡ kept))
    → ((d : Db) (m : Memory) → P d m → R d m)
    → Triple P (transaction e body) Q R
unfolding transaction
Triple-transaction {P = P} {R = R} {Q = Q} e {body} h k =
    Triple-bind {Q = λ _. P} (Triple-execute e (λ db. db) (λ d m p. p) k) (λ _. record {
      holds = λ w p. rolled_back-Outcome Q R w.db w.memory _ (k w.db w.memory p) (
          (Triple-bind (h w.db w.memory p) (λ a.
              Triple-bind {Q = λ _ d m. Q a d m}
                (Triple-execute e (λ db. db) (λ d m x. x.0) (λ d m x. x.1))
                (λ _. Triple-pure a (λ d m x. x)))).holds
            w (refl, refl));
    })

-- The statement, with a memory that stays as it is.
abbrev pub Staying : Pred → Memory → Pred
Staying F kept d m = F d m × (m ≡ kept)
