-- ===== src/Ingest/Import.antt =====
-- `Import` of internal/ingest/ingest.go: one transaction replaces a dataset and its events.
use striem.Common.{
  ℕ, suc, Bool, true, false, not, ◌&&◌, ◌||◌, List, [], ◌∷◌, ◌++◌, ◌==◌, if◌then◌else◌, max,
}
use striem.Common.Text.{Text, codes, same, trim_space}
use striem.Store.Defs.{
  Dataset, Engine, rejected_input, Action, ◌>>=◌, ◌>>◌, pure, fail, execute, query, report, finally,
  transaction,
}
use striem.Store.Datasets.{without}
use striem.Store.FullText.{Unicode, valid_characters, is_empty, mark_full_text_index_dirty}

pub record Mapping : Type 0 where
  pub name : Text
  pub table : Text
  pub signature : Text
  pub format : Text
  pub source : Text
  pub source_path : Text
  pub timestamp_path : Text
  pub replace_existing : Bool

-- What an import meets: whether the limit of the input can be read from the environment and the
-- gzip header from the input, the records that the decoder and the workers hand on in their order,
-- and whether an error ends them.
pub record Input : Type 0 where
  pub limited : Bool
  pub opened : Bool
  pub records : List Text
  pub broken : Bool

-- `strings.ToLower`, and the classes of characters.
pub record Letters : Type 0 where
  pub unicode : Unicode
  pub to_lower : Text → Text

is_identifier : Unicode → Text → Bool
unfolding valid_characters
is_identifier u value = not (is_empty value) && valid_characters u true value

valid_table_name : Unicode → Text → Bool
unfolding is_identifier
valid_table_name u value =
    not (is_empty value || same value (codes "Events") || not (is_identifier u value))

known_format : Text → Bool
known_format format =
    same format (codes "json") || same format (codes "csv") || same format (codes "evtx")

unfoldable pub valid_mapping : Letters → Mapping → Bool
unfolding valid_table_name known_format
valid_mapping l mapping =
    let format = l.to_lower (trim_space mapping.format) in
    not (is_empty (trim_space mapping.name))
    && valid_table_name l.unicode mapping.table
    && not (is_empty (trim_space mapping.timestamp_path))
    && not (is_empty mapping.source && is_empty mapping.source_path)
    && known_format (if is_empty format then codes "json" else format)

-- The row id that SQLite gives a new row.
unfoldable pub next_id : List Dataset → ℕ
next_id [] = 1
next_id (d ∷ ds) = max (suc d.id) (next_id ds)

-- `INSERT INTO events` of some rows of one dataset.
unfoldable pub add_events : ℕ → List Text → List Dataset → List Dataset
add_events id rows [] = []
add_events id rows (d ∷ ds) =
    (if d.id == id then record d { events = d.events ++ rows } else d) ∷ add_events id rows ds

unfoldable pub insert_rows : Engine → ℕ → List Text → Action (Unit {0})
insert_rows e id rows = execute e (λ db. record db { datasets = add_events id rows db.datasets })

unfoldable pub flush_events : Engine → ℕ → List Text → Action (Unit {0})
unfolding insert_rows
flush_events e id [] = pure tt
flush_events e id (row ∷ rows) = insert_rows e id (row ∷ rows)

-- `writeEvent` for each record; `pending` are the rows that wait, `count` is their number. The
-- result is what waits in the end.
unfoldable pub write_events : Engine → ℕ → List Text → ℕ → List Text → Action (List Text)
unfolding flush_events
write_events e id pending count [] = pure pending
write_events e id pending count (row ∷ rows) = elim (suc count == 128) [
  | true ↦ flush_events e id (pending ++ (row ∷ [])) >> write_events e id [] 0 rows
  | false ↦ write_events e id (pending ++ (row ∷ [])) (suc count) rows
]

abbrev pub new_row : Mapping → ℕ → List Text → Dataset
new_row mapping id events = record {
  id = id;
  name = mapping.name;
  table = mapping.table;
  signature = mapping.signature;
  events = events;
}

abbrev pub replaced : Mapping → List Dataset → List Dataset
replaced mapping ds =
    if mapping.replace_existing then without (λ d. same d.name mapping.name) ds else ds

abbrev pub is_nothing : List Text → Bool
is_nothing [] = true
is_nothing (row ∷ rows) = false

-- The part behind the choice of the id. The statements for the discovered fields stand as one, and
-- the count of the events is the length of `events`.
unfoldable pub import_rows : Engine → Mapping → Input → ℕ → Action Dataset
unfolding write_events flush_events
import_rows e mapping input id = do
  execute e (λ db. record db { datasets = db.datasets ++ (new_row mapping id [] ∷ []) })
  pending ← write_events e id [] 0 input.records
  if input.broken then fail rejected_input else pure tt
  if is_nothing input.records then fail rejected_input else pure tt
  flush_events e id pending
  execute e (λ db. db)
  execute e (λ db. db)
  pure (new_row mapping id input.records)

-- `DELETE FROM datasets`, where it is asked for.
unfoldable pub replace_existing : Engine → Mapping → Action (Unit {0})
replace_existing e mapping =
    if mapping.replace_existing
    then execute e
        (λ db. record db { datasets = without (λ d. same d.name mapping.name) db.datasets })
    else pure tt

-- The statements of the transaction.
unfoldable pub import_body : Engine → Mapping → Input → Action Dataset
unfolding import_rows replace_existing
import_body e mapping input = do
  replace_existing e mapping
  id ← report (λ db. next_id db.datasets)
  import_rows e mapping input id

-- The setting of the connection is read, switched off for the transaction and restored.
unfoldable pub import_dataset : Engine → Letters → Mapping → Input → Action Dataset
unfolding import_body finally valid_mapping
import_dataset e l mapping input = do
  if valid_mapping l mapping && input.limited && input.opened then pure tt else fail rejected_input
  mark_full_text_index_dirty
  query e (λ _. tt)
  execute e (λ db. db)
  finally (transaction e (import_body e mapping input)) (execute e (λ db. db))
