-- ===== src/Store/Indexes/Kept.antt =====
-- The operations on the indexes leave everything else as it is.
use striem.Common.{Bool, List, [], ◌∷◌, ◌++◌, true, false}
use striem.Common.Text.{Text, same}
use striem.Store.Defs.{Db, Memory, Engine}
use striem.Store.Rules.{
  Pred, Triple, Triple-bind, Triple-execute, Triple-execute_if, Triple-query, Triple-weaken,
  Triple-pure, Triple-recall, Triple-if, Staying, Triple-elim, Triple-transaction,
}
use striem.Store.Indexes.{
  sql_of, remove, sort_entries, desired_indexes, drop_index, drop_all, drop_event_indexes,
  drop_stale, create_all, reconcile_indexes, create_event_indexes, create_ordinary_event_indexes,
  event_expression_indexes,
}

-- A statement that does not read the indexes.
pub record IsIndexFree (F : Pred) : Type 0 where
  pub keeps :
      (d : Db) (m : Memory) (ordinary : Bool) (json : List (Text × Text))
      → F d m
      → F (record d { ordinary_indexes = ordinary; json_indexes = json }) m

module _ (F : Pred) (free : IsIndexFree F) (e : Engine) where
  drop_one : (name : Text) → Triple F (drop_index e name) (λ _. F) F
  unfolding drop_index
  drop_one name =
      Triple-execute e _ (λ d m p. free.keeps d m d.ordinary_indexes (remove name d.json_indexes) p)
        (λ d m p. p)

  drop_all_keeps : (entries : List (Text × Text)) → Triple F (drop_all e entries) (λ _. F) F
  unfolding drop_all
  drop_all_keeps [] = Triple-pure tt (λ d m p. p)
  drop_all_keeps ((name, sql) ∷ entries) =
      Triple-bind {Q = λ _. F} (drop_one name) (λ _. drop_all_keeps entries)

  pub drop_event_indexes-keeps : Triple F (drop_event_indexes e) (λ _. F) F
  unfolding drop_event_indexes event_expression_indexes
  drop_event_indexes-keeps =
      Triple-bind {Q = λ _. F} (Triple-query e _ (λ d m p. p) (λ d m p. p)) (λ existing.
        Triple-bind {Q = λ _. F}
          (Triple-execute e _ (λ d m p. free.keeps d m false d.json_indexes p) (λ d m p. p))
          (λ _. drop_all_keeps existing))

  drop_stale_keeps :
      (desired existing : List (Text × Text)) → Triple F (drop_stale e desired existing) (λ _. F) F
  unfolding drop_stale
  drop_stale_keeps desired [] = Triple-pure desired (λ d m p. p)
  drop_stale_keeps desired ((name, sql) ∷ existing) =
      Triple-elim (same (sql_of name desired) sql) (drop_stale_keeps (remove name desired) existing)
        (Triple-bind {Q = λ _. F} (drop_one name) (λ _. drop_stale_keeps desired existing))

  create_all_keeps : (entries : List (Text × Text)) → Triple F (create_all e entries) (λ _. F) F
  unfolding create_all
  create_all_keeps [] = Triple-pure tt (λ d m p. p)
  create_all_keeps ((name, sql) ∷ entries) =
      Triple-bind {Q = λ _. F}
        (Triple-execute_if e _ _
          (λ d m p. free.keeps d m d.ordinary_indexes (d.json_indexes ++ ((name, sql) ∷ [])) p)
          (λ d m p. p))
        (λ _. create_all_keeps entries)

  reconcile_keeps :
      (desired existing : List (Text × Text))
      → Triple F (reconcile_indexes e desired existing) (λ _. F) F
  unfolding reconcile_indexes
  reconcile_keeps desired existing =
      Triple-bind {Q = λ _. F} (drop_stale_keeps desired existing)
        (λ missing. create_all_keeps (sort_entries missing))

IsIndexFree-staying : (F : Pred) (kept : Memory) → IsIndexFree F → IsIndexFree (Staying F kept)
IsIndexFree-staying F kept free = record {
  keeps = λ d m ordinary json p. (free.keeps d m ordinary json p.0, p.1);
}

pub create_event_indexes-keeps :
    (F : Pred) → IsIndexFree F → (e : Engine) → Triple F (create_event_indexes e) (λ _. F) F
unfolding create_event_indexes create_ordinary_event_indexes event_expression_indexes
create_event_indexes-keeps F free e =
    Triple-bind {Q = λ _. F}
      (Triple-execute e _ (λ d m p. free.keeps d m true d.json_indexes p) (λ d m p. p))
      (λ _. Triple-bind {Q = λ _. F} (Triple-recall (λ m. m.indexed_paths) (λ d m p. p)) (λ paths.
        Triple-bind {Q = λ _. F} (Triple-recall (λ m. m.storage_set) (λ d m p. p)) (λ configured.
          Triple-if configured
            (λ _. Triple-bind {Q = λ _. F} (Triple-query e _ (λ d m p. p) (λ d m p. p)) (λ existing.
              Triple-transaction e
                (λ before kept p.
                  Triple-weaken
                    (reconcile_keeps (Staying F kept) (IsIndexFree-staying F kept free) e
                      (desired_indexes 0 paths) existing)
                    (λ d m h. (rw (h.0, h.1) p, h.1)) (λ _ d m h. h) (λ d m h. h.1))
                (λ d m p. p)))
            (λ _. Triple-pure tt (λ d m p. p)))))
