-- ===== src/Store/Indexes/Created.antt =====
-- The statements of `CreateEventIndexes`.
use striem.Common.{
  ◌≡◌, refl, sym, ap, ◌∙◌, Bool, true, false, List, [], ◌∷◌, arith, if◌then◌else◌, inl, inr,
}
use mathlib.Core.Path.{subst}
use striem.Common.Text.{Text, same}
use striem.Store.Defs.{World, Memory, Engine, Action, ◌>>=◌, transaction}
use striem.Store.Rules.{
  Pred, Triple, Triple-bind, Triple-execute, Triple-execute_allowed, Triple-query, Triple-weaken,
  Triple-pure, Triple-recall, Triple-if, Triple-given, Triple-transaction, Outcome,
}
use striem.Store.Indexes.{
  sql_of, remove, has_name, sort_entries, desired_indexes, drop_index, drop_stale, create_all,
  reconcile_indexes, create_event_indexes, create_ordinary_event_indexes, event_expression_indexes,
}
use striem.Store.Indexes.Lookup.{sql_of-sort_entries}
use striem.Store.Indexes.Reconciled.{
  Entries, AreUnique, Settled, Middle, start-Middle, keep-Middle, drop-Middle, create-Settled,
  done-Settled,
}

module _ (e : Engine) (desired : Entries) (kept : Memory) where
  Around : (Entries → Type 0) → Pred
  Around P d m = P d.json_indexes × (d.ordinary_indexes ≡ true) × (m ≡ kept)

  Failed : Pred
  Failed d m = m ≡ kept

  drop_stale_lem :
      (left existing : Entries)
      → AreUnique existing
      → Triple
          (Around (λ js. Middle desired existing js left))
          (drop_stale e left existing)
          (λ left. Around (λ js. (n : Text) → Settled desired js left n))
          Failed
  unfolding drop_stale drop_index Around Failed has_name
  drop_stale_lem left [] unique = Triple-pure left (λ d m h. ((λ n. h.0.settled n refl), h.1, h.2))
  drop_stale_lem left ((k, sql) ∷ existing) unique =
      each (same (sql_of k left) sql)
        (λ stays.
          Triple-weaken (drop_stale_lem (remove k left) existing unique.1)
            (λ d m h.
              (keep-Middle desired k sql existing d.json_indexes left unique.0 stays h.0, h.1, h.2))
            (λ _ d m q. q) (λ d m q. q))
        (Triple-bind {Q = λ _. Around (λ js. Middle desired existing js left)}
          (Triple-execute e _
            (λ d m h.
              (drop-Middle desired k sql existing d.json_indexes left unique.0 h.0, h.1, h.2))
            (λ d m h. h.2))
          (λ _. drop_stale_lem left existing unique.1))
    where
      each :
          {A : Type 0} {P R : Pred} {Q : A → Pred} (b : Bool) {m k : Action A}
          → (b ≡ true → Triple P m Q R)
          → Triple P k Q R
          → Triple P (elim b [ true ↦ m | false ↦ k ]) Q R
      each true h k = h refl
      each false h k = k

  create_all_lem :
      (left : Entries)
      → Triple
          (Around (λ js. (n : Text) → Settled desired js left n))
          (create_all e left)
          (λ _. Around (λ js. (n : Text) → sql_of n js ≡ sql_of n desired))
          Failed
  unfolding create_all Around Failed
  create_all_lem [] =
      Triple-pure tt (λ d m h. ((λ n. done-Settled desired d.json_indexes n (h.0 n)), h.1, h.2))
  create_all_lem ((k, sql) ∷ left) =
      Triple-bind {Q = λ _. Around (λ js. (n : Text) → Settled desired js left n)}
        (Triple-execute_allowed e _ _
          (λ d m new h. (
            (λ n. create-Settled desired k sql d.json_indexes left n (ground (arith, new)) (h.0 n)),
            h.1,
            h.2,
          ))
          (λ d m h. h.2))
        (λ _. create_all_lem left)

  sorted-Settled :
      (js left : Entries) (n : Text)
      → Settled desired js left n
      → Settled desired js (sort_entries left) n
  sorted-Settled js left n (inl there) = inl there
  sorted-Settled js left n (inr (absent, wanted)) =
      inr (absent, sql_of-sort_entries n left ∙ wanted)

  reconcile_lem :
      (existing : Entries)
      → AreUnique existing
      → Triple
          (Around (λ js. js ≡ existing))
          (reconcile_indexes e desired existing)
          (λ _. Around (λ js. (n : Text) → sql_of n js ≡ sql_of n desired))
          Failed
  unfolding reconcile_indexes Around Failed
  reconcile_lem existing unique =
      Triple-bind {Q = λ left. Around (λ js. (n : Text) → Settled desired js left n)}
        (Triple-weaken (drop_stale_lem desired existing unique)
          (λ d m h. (
            subst (λ js. Middle desired existing js desired) (sym h.0)
                (start-Middle desired existing),
            h.1,
            h.2,
          ))
          (λ _ d m q. q) (λ d m q. q))
        (λ left.
          Triple-weaken (create_all_lem (sort_entries left))
            (λ d m h. ((λ n. sorted-Settled d.json_indexes left n (h.0 n)), h.1, h.2))
            (λ _ d m q. q) (λ d m q. q))

module _ (e : Engine) (w : World) (unique : AreUnique w.db.json_indexes) where
  Start : Pred
  Start d m = (d.json_indexes ≡ w.db.json_indexes) × (d.ordinary_indexes ≡ true) × (m ≡ w.memory)

  -- The indexes that a successful call leaves.
  wanted : Entries
  wanted =
      if w.memory.storage_set then desired_indexes 0 w.memory.indexed_paths else w.db.json_indexes

  Finish : Pred
  Finish d m =
      (d.ordinary_indexes ≡ true) × ((n : Text) → sql_of n d.json_indexes ≡ sql_of n wanted)

  Unchanged : Pred
  Unchanged d m = d.json_indexes ≡ w.db.json_indexes

  set_lem :
      (paths : List Text)
      → paths ≡ w.memory.indexed_paths
      → w.memory.storage_set ≡ true
      → Triple Start
          (event_expression_indexes e >>= λ existing.
            transaction e (reconcile_indexes e (desired_indexes 0 paths) existing))
          (λ _. Finish)
          Unchanged
  unfolding event_expression_indexes Around Failed Start Finish Unchanged wanted
  set_lem paths here on =
      Triple-bind {Q = λ existing d m. Start d m × (existing ≡ w.db.json_indexes)}
        (Triple-query e _ (λ d m h. (h, h.0)) (λ d m h. h.0))
        (λ existing. Triple-given (λ same_one.
          Triple-transaction e
            (λ before kept p.
              Triple-weaken
                (reconcile_lem e (desired_indexes 0 paths) kept existing
                  (subst AreUnique (sym same_one) unique))
                (λ d m h. (rw h.0 (p.0 ∙ sym same_one), rw h.0 p.1, h.1))
                (λ _ d m q. ((q.1, λ n. q.0 n ∙ final n), q.2)) (λ d m q. q))
            (λ d m h. h.0)))
    where
      final : (n : Text) → sql_of n (desired_indexes 0 paths) ≡ sql_of n wanted
      final n = rw (here, on) refl

  create_lem :
      Triple (λ d m. (d ≡ w.db) × (m ≡ w.memory)) (create_event_indexes e) (λ _. Finish) Unchanged
  unfolding create_event_indexes create_ordinary_event_indexes Start Finish Unchanged wanted
  create_lem =
      Triple-bind {Q = λ _. Start}
        (Triple-execute e _ (λ d m h. (ap (λ x. x.json_indexes) h.0, refl, h.1))
          (λ d m h. ap (λ x. x.json_indexes) h.0))
        (λ _.
          Triple-bind {Q = λ paths d m. Start d m × (paths ≡ w.memory.indexed_paths)}
            (Triple-recall (λ m. m.indexed_paths) (λ d m h. (h, ap (λ x. x.indexed_paths) h.2)))
            (λ paths. Triple-given (λ here.
              Triple-bind {Q = λ configured d m. Start d m × (configured ≡ w.memory.storage_set)}
                (Triple-recall (λ m. m.storage_set) (λ d m h. (h, ap (λ x. x.storage_set) h.2)))
                (λ configured. Triple-given (λ set.
                  Triple-if configured (λ on. set_lem paths here (sym set ∙ on))
                    (λ off. Triple-pure tt (λ d m h. (h.1, λ n. rw (h.0, sym set ∙ off) refl))))))))

-- With no name twice among the expression indexes: where the paths have been configured, and the
-- call succeeds, each name has the SQL of the configured paths, and no other is there; where they
-- have not, the expression indexes stay; the ordinary indexes are there. A call that fails keeps the
-- expression indexes.
pub create_event_indexes-AreDesired :
    (e : Engine) (w : World)
    → AreUnique w.db.json_indexes
    → Outcome
        (λ _ d m.
          (d.ordinary_indexes ≡ true)
          × ((n : Text)
              → sql_of n d.json_indexes
                ≡ sql_of n (
                    if w.memory.storage_set
                    then desired_indexes 0 w.memory.indexed_paths
                    else w.db.json_indexes)))
        (λ d m. d.json_indexes ≡ w.db.json_indexes)
        (create_event_indexes e w)
unfolding Finish Unchanged wanted
create_event_indexes-AreDesired e w unique = (create_lem e w unique).holds w (refl, refl)
