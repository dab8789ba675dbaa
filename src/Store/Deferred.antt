-- ===== src/Store/Deferred.antt =====
-- Rules for deferred statements.
use striem.Common.Result.{Result, ok, err}
use striem.Store.Defs.{World, StoreError, Action, finally, on_error, restoring}
use striem.Store.Rules.{Pred, Outcome, Triple}

pub Outcome-always :
    {A : Type 0} (R : Pred) (r : World × Result StoreError A)
    → Outcome (λ _. R) R r
    → R r.0.db r.0.memory
Outcome-always R (w, ok a) h = h
Outcome-always R (w, err e) h = h

finally-Outcome :
    {A : Type 0} (Q : A → Pred) (R : Pred) (restore : Action (Unit {0}))
    (r : World × Result StoreError A)
    → ((a : A) → Triple (Q a) restore (λ _. Q a) (Q a))
    → Triple R restore (λ _. R) R
    → Outcome Q R r
    → Outcome Q R ((restore r.0).0, r.1)
finally-Outcome Q R restore (w, ok a) h k o = Outcome-always (Q a) (restore w) ((h a).holds w o)
finally-Outcome Q R restore (w, err e) h k o = Outcome-always R (restore w) (k.holds w o)

-- A deferred statement that keeps what holds behind the body.
pub Triple-finally :
    {A : Type 0} {P R : Pred} {Q : A → Pred} {body : Action A} {restore : Action (Unit {0})}
    → Triple P body Q R
    → ((a : A) → Triple (Q a) restore (λ _. Q a) (Q a))
    → Triple R restore (λ _. R) R
    → Triple P (finally body restore) Q R
unfolding finally
Triple-finally {R = R} {Q = Q} {body = body} {restore = restore} b h k = record {
  holds = λ w p. finally-Outcome Q R restore (body w) h k (b.holds w p);
}

restoring-Outcome :
    {A : Type 0} (Q : A → Pred) (R S : Pred) (restore : Action (Unit {0}))
    (r : World × Result StoreError A)
    → Triple S restore (λ _. R) R
    → Outcome Q S r
    → Outcome Q R (on_error restore r)
restoring-Outcome Q R S restore (w, ok a) k o = o
restoring-Outcome Q R S restore (w, err e) k o = Outcome-always R (restore w) (k.holds w o)

pub Triple-restoring :
    {A : Type 0} {P R S : Pred} {Q : A → Pred} {body : Action A} {restore : Action (Unit {0})}
    → Triple P body Q S
    → Triple S restore (λ _. R) R
    → Triple P (restoring body restore) Q R
unfolding restoring
Triple-restoring {R = R} {S = S} {Q = Q} {body = body} {restore = restore} b k = record {
  holds = λ w p. restoring-Outcome Q R S restore (body w) k (b.holds w p);
}
