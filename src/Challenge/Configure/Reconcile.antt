-- ===== src/Challenge/Configure/Reconcile.antt =====
-- What `ConfigureChallenge` leaves in the table, and what it keeps.
use mathlib.Core.Path.{subst}
use striem.Common.{
  ◌≡◌, refl, ap, ◌⊎◌, inl, inr, Bool, true, false, not, ◌&&◌, ◌||◌, List, [], ◌∷◌, Option, none,
  some, arith, if◌then◌else◌, is_some,
}
use striem.Common.Text.{Text, same, same-eq}
use striem.Common.Result.{ok, err, fail_if, ok_parts, ok-injective, Result-cases}
use striem.Challenge.Defs.{Question, Challenge, Faults, Error, storage}
use striem.Challenge.Progress.{
  Row, Table, find, upsert, delete, keys, IsKeyed, upsert-IsKeyed, delete-IsKeyed, find-upsert,
  find-delete, same_sym, carry,
}
use striem.Challenge.Configure.{
  Store, upsert_all, retains, removed, delete_all, configure_tx, configure,
}

-- The configured question of an id.
abbrev pub question_at : Text → List Question → Option Question
question_at id [] = none
question_at id (q ∷ qs) = if same q.id id then some q else question_at id qs

-- The loader's guarantee: no id is configured twice.
abbrev pub HasDistinctIds : List Question → Type 0
HasDistinctIds [] = Unit {0}
HasDistinctIds (q ∷ qs) = (question_at q.id qs ≡ none) × HasDistinctIds qs

-- The row that a question has after the reconciliation.
abbrev pub reconciled : Option Question → Option Row → Option Row
reconciled none row = none
reconciled (some q) row = some (carry row q.revision)

abbrev merged : Option Question → Option Row → Option Row
merged none row = row
merged (some q) row = some (carry row q.revision)

question_shadowed :
    (q : Question) (id : Text) (qs : List Question)
    → question_at q.id qs ≡ none
    → same q.id id ≡ true
    → question_at id qs ≡ none
question_shadowed q id qs h e = subst (λ v. question_at v qs ≡ none) (same-eq q.id id e) h

find-upsert_all :
    (f : Faults) (id : Text) (qs : List Question) (t : Table) {t' : Table}
    → HasDistinctIds qs
    → upsert_all f qs t ≡ ok t'
    → find id t' ≡ merged (question_at id qs) (find id t)
unfolding upsert_all
find-upsert_all f id [] t d h = ground arith
find-upsert_all f id (q ∷ qs) t {t'} d h =
    let (_, _, rest) =
      ok_parts (λ _. upsert_all f qs (upsert q.id q.revision t)) (fail_if (f.write q.id) storage)
        h in
    ground (
      arith,
      find-upsert_all f id qs (upsert q.id q.revision t) d.1 rest,
      find-upsert q.id q.revision id t,
      question_shadowed q id qs d.0,
      same_sym q.id id,
    )

upsert_all-IsKeyed :
    (f : Faults) (qs : List Question) (t : Table) {t' : Table}
    → upsert_all f qs t ≡ ok t'
    → IsKeyed t
    → IsKeyed t'
unfolding upsert_all
upsert_all-IsKeyed f [] t h k = subst IsKeyed (ok-injective h) k
upsert_all-IsKeyed f (q ∷ qs) t h k =
    let (_, _, rest) =
      ok_parts (λ _. upsert_all f qs (upsert q.id q.revision t)) (fail_if (f.write q.id) storage)
        h in
    upsert_all-IsKeyed f qs (upsert q.id q.revision t) rest (upsert-IsKeyed q.id q.revision t k)

contains : List Text → Text → Bool
contains [] id = false
contains (j ∷ ids) id = same j id || contains ids id

find-delete_all :
    (f : Faults) (id : Text) (ids : List Text) (t : Table) {t' : Table}
    → delete_all f ids t ≡ ok t'
    → find id t' ≡ (if contains ids id then none else find id t)
unfolding delete_all contains
find-delete_all f id [] t h = ground arith
find-delete_all f id (j ∷ ids) t h =
    let (_, _, rest) =
      ok_parts (λ _. delete_all f ids (delete j t)) (fail_if (f.remove j) storage) h in
    ground (arith, find-delete_all f id ids (delete j t) rest, find-delete j id t, same_sym j id)

retains-same : (qs : List Question) (j id : Text) → same j id ≡ true → retains qs j ≡ retains qs id
retains-same qs j id e = ap (retains qs) (same-eq j id e)

contains-removed :
    (qs : List Question) (id : Text) (ids : List Text)
    → contains (removed qs ids) id ≡ (contains ids id && not (retains qs id))
unfolding contains removed
contains-removed qs id [] = refl
contains-removed qs id (j ∷ ids) = ground (arith, contains-removed qs id ids, retains-same qs j id)

contains-keys : (id : Text) (t : Table) → contains (keys t) id ≡ false → find id t ≡ none
unfolding contains find
contains-keys id [] h = refl
contains-keys id ((j, row) ∷ t) h = ground (arith, contains-keys id t)

retains_lem : (qs : List Question) (id : Text) → retains qs id ≡ is_some (question_at id qs)
unfolding retains
retains_lem [] id = refl
retains_lem (q ∷ qs) id = ground (arith, retains_lem qs id)

-- The tables between the statements of a transaction that commits.
configure_tx_parts :
    (f : Faults) (ch : Challenge) (t : Table) {t' : Table}
    → configure_tx f ch t ≡ ok t'
    → (mid : Table) × (upsert_all f ch.questions t ≡ ok mid)
      × (delete_all f (removed ch.questions (keys mid)) mid ≡ ok t')
unfolding configure_tx
configure_tx_parts f ch t {t'} h = elim (Result-cases (upsert_all f ch.questions t)) [
  | inl (mid, e) ↦ (mid, e, finish mid e)
  | inr (e, he) ↦ absurd (ground arith)
]
  where
    finish :
        (mid : Table)
        → upsert_all f ch.questions t ≡ ok mid
        → delete_all f (removed ch.questions (keys mid)) mid ≡ ok t'
    finish mid e = ground (arith, Result-cases (delete_all f (removed ch.questions (keys mid)) mid))

configure_tx_lem :
    (f : Faults) (ch : Challenge) (t : Table) {t' : Table}
    → HasDistinctIds ch.questions
    → configure_tx f ch t ≡ ok t'
    → (id : Text) → find id t' ≡ reconciled (question_at id ch.questions) (find id t)
configure_tx_lem f ch t d h id =
    let (mid, up, down) = configure_tx_parts f ch t h in
    ground (
      arith,
      find-upsert_all f id ch.questions t d up,
      find-delete_all f id (removed ch.questions (keys mid)) mid down,
      contains-removed ch.questions id (keys mid),
      contains-keys id mid,
      retains_lem ch.questions id,
    )

delete_all-IsKeyed :
    (f : Faults) (ids : List Text) (t : Table) {t' : Table}
    → delete_all f ids t ≡ ok t'
    → IsKeyed t
    → IsKeyed t'
unfolding delete_all
delete_all-IsKeyed f [] t h k = subst IsKeyed (ok-injective h) k
delete_all-IsKeyed f (j ∷ ids) t h k =
    let (_, _, rest) =
      ok_parts (λ _. delete_all f ids (delete j t)) (fail_if (f.remove j) storage) h in
    delete_all-IsKeyed f ids (delete j t) rest (delete-IsKeyed j t k)

configure_tx-IsKeyed :
    (f : Faults) (ch : Challenge) (t : Table) {t' : Table}
    → configure_tx f ch t ≡ ok t'
    → IsKeyed t
    → IsKeyed t'
configure_tx-IsKeyed f ch t h k =
    let (mid, up, down) = configure_tx_parts f ch t h in
    delete_all-IsKeyed f (removed ch.questions (keys mid)) mid down
      (upsert_all-IsKeyed f ch.questions t up k)

-- What a configuration leaves: the new challenge, at most one row to a question, the stored row
-- of each configured question whose revision is the same, a new row where it is not, and no row
-- for any other question.
pub record Reconciles (ch : Challenge) (s s' : Store) : Type 0 where
  pub challenge_is : s'.challenge ≡ ch
  pub keyed : IsKeyed s'.table
  pub rows :
      (id : Text) → find id s'.table ≡ reconciled (question_at id ch.questions) (find id s.table)

-- For questions with distinct ids, `ConfigureChallenge` reconciles the progress with them, or
-- reports an error and changes nothing.
pub configure-Reconciles :
    (f : Faults) (ch : Challenge) (s : Store)
    → HasDistinctIds ch.questions
    → IsKeyed s.table
    → ((configure f ch s).1 ≡ ok tt × Reconciles ch s (configure f ch s).0)
      ⊎ (((e : Error) × ((configure f ch s).1 ≡ err e)) × ((configure f ch s).0 ≡ s))
unfolding configure
configure-Reconciles f ch s d k = elim (Result-cases (configure_tx f ch s.table)) [
  | inl (t, e) ↦ inl (
      rw (e, configure)
        (
          refl,
          record {
            challenge_is = refl;
            keyed = configure_tx-IsKeyed f ch s.table e k;
            rows = configure_tx_lem f ch s.table d e;
          },
        ))
  | inr (e, he) ↦ inr (rw (he, configure) ((e, refl), refl))
]
