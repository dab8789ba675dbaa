-- ===== src/Store/Indexes.antt =====
-- The indexes on the table events, in internal/database/database.go.
pub mod Kept
pub mod Lookup
pub mod Reconciled
pub mod Created
use striem.Common.{
  ℕ, zero, suc, ◌+◌, ◌/◌, ◌%◌, Bool, true, false, not, List, [], ◌∷◌, ◌++◌, if◌then◌else◌, ltb, map,
}
use striem.Common.Decimal.{decimal}
use striem.Common.Text.{Text, codes, same, split_on, text_before, has_text}
use striem.Store.Defs.{
  Db, Engine, Action, ◌>>=◌, ◌>>◌, pure, recall, execute, execute_if, query, transaction,
}

-- The key of a map, or "" where it is missing.
unfoldable pub sql_of : Text → List (Text × Text) → Text
sql_of name [] = []
sql_of name ((k, sql) ∷ entries) = if same name k then sql else sql_of name entries

unfoldable pub remove : Text → List (Text × Text) → List (Text × Text)
remove name [] = []
remove name ((k, sql) ∷ entries) =
    let rest = remove name entries in if same name k then rest else (k, sql) ∷ rest

-- Whether a key is there.
unfoldable pub has_name : Text → List (Text × Text) → Bool
has_name name [] = false
has_name name ((k, sql) ∷ entries) = if same name k then true else has_name name entries

json_path : List Text → Text
json_path [] = []
json_path (segment ∷ segments) = 46 ∷ 34 ∷ ((segment ++ (34 ∷ [])) ++ json_path segments)

unfoldable pub event_expression_index_sql : Text → Text → Text
unfolding json_path
event_expression_index_sql name path =
    codes "CREATE INDEX "
    ++ (name
        ++ (codes " ON events(json_extract(raw_data, '"
            ++ ((36 ∷ json_path (split_on 46 path)) ++ codes "'), dataset_id)")))

-- The loop that fills the map `desired`.
unfoldable pub desired_indexes : ℕ → List Text → List (Text × Text)
unfolding decimal event_expression_index_sql
desired_indexes i [] = []
desired_indexes i (path ∷ paths) =
    let name = codes "idx_events_json_" ++ decimal i in
    (name, event_expression_index_sql name path) ∷ desired_indexes (suc i) paths

-- The keys in order, with what they stand for.
unfoldable pub insert_entry : Text × Text → List (Text × Text) → List (Text × Text)
unfolding text_before
insert_entry entry [] = entry ∷ []
insert_entry entry (other ∷ others) =
    let rest = insert_entry entry others in
    if text_before entry.0 other.0 then entry ∷ other ∷ others else other ∷ rest

unfoldable pub sort_entries : List (Text × Text) → List (Text × Text)
unfolding insert_entry
sort_entries [] = []
sort_entries (entry ∷ entries) = insert_entry entry (sort_entries entries)

unfoldable pub create_ordinary_event_indexes : Engine → Action (Unit {0})
create_ordinary_event_indexes e = execute e (λ db. record db { ordinary_indexes = true })

-- The names that end in a number; `json_indexes` has no other.
unfoldable pub event_expression_indexes : Engine → Action (List (Text × Text))
event_expression_indexes e = query e (λ db. db.json_indexes)

unfoldable pub drop_index : Engine → Text → Action (Unit {0})
drop_index e name = execute e (λ db. record db { json_indexes = remove name db.json_indexes })

-- The statements of one text run one after the other.
unfoldable pub drop_all : Engine → List (Text × Text) → Action (Unit {0})
unfolding drop_index
drop_all e [] = pure tt
drop_all e ((name, sql) ∷ entries) = drop_index e name >> drop_all e entries

unfoldable pub drop_event_indexes : Engine → Action (Unit {0})
unfolding event_expression_indexes drop_all
drop_event_indexes e = do
  existing ← event_expression_indexes e
  execute e (λ db. record db { ordinary_indexes = false })
  drop_all e existing

-- The loop over the indexes that are there; the result is what is left of `desired`.
unfoldable pub drop_stale :
    Engine → List (Text × Text) → List (Text × Text) → Action (List (Text × Text))
unfolding drop_index
drop_stale e desired [] = pure desired
drop_stale e desired ((name, sql) ∷ existing) = elim (same (sql_of name desired) sql) [
  | true ↦ drop_stale e (remove name desired) existing
  | false ↦ drop_index e name >> drop_stale e desired existing
]

unfoldable pub create_all : Engine → List (Text × Text) → Action (Unit {0})
create_all e [] = pure tt
create_all e ((name, sql) ∷ entries) =
    execute_if e (λ db. not (has_name name db.json_indexes))
      (λ db. record db { json_indexes = db.json_indexes ++ ((name, sql) ∷ []) })
    >> create_all e entries

unfoldable pub reconcile_indexes :
    Engine → List (Text × Text) → List (Text × Text) → Action (Unit {0})
unfolding drop_stale create_all
reconcile_indexes e desired existing = do
  missing ← drop_stale e desired existing
  create_all e (sort_entries missing)

unfoldable pub create_event_indexes : Engine → Action (Unit {0})
unfolding create_ordinary_event_indexes event_expression_indexes reconcile_indexes
create_event_indexes e = do
  create_ordinary_event_indexes e
  paths ← recall (λ m. m.indexed_paths)
  configured ← recall (λ m. m.storage_set)
  if configured
      then (do
        existing ← event_expression_indexes e
        transaction e (reconcile_indexes e (desired_indexes 0 paths) existing))
      else pure tt
