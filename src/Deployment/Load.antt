-- ===== src/Deployment/Load.antt =====
-- `Load` of internal/deployment/loader.go, behind the decoding of the manifest: it brings the store
-- in line with the configured datasets and the challenge.
pub mod Derived
pub mod Unchanged
pub mod Runs
pub mod Guarantee
pub mod Rows
pub mod Contents
pub mod Replaced
pub mod Tests
use striem.Common.{
  Bool, true, false, not, ◌&&◌, ◌||◌, List, [], ◌∷◌, Option, none, some, is_some, length, ltb, ◌==◌,
  if◌then◌else◌,
}
use striem.Common.Text.{Text, same, trim_space}
use striem.Common.Result.{Result, ok, err}
use striem.Challenge.Defs.{Challenge, Faults, Error}
use striem.Challenge.Configure.{Store, configure}
use striem.Store.Defs.{
  Dataset, World, Engine, StoreError, refused, unprepared, unread, Action, ◌>>=◌, ◌>>◌, pure, fail,
  restoring,
}
use striem.Store.FullText.{configure_event_storage, drop_full_text_index, sync_full_text_index}
use striem.Store.Indexes.{drop_event_indexes, create_event_indexes}
use striem.Store.Datasets.{list_datasets, delete_datasets_except, set_challenge_name}
use striem.Ingest.Import.{Mapping, Input, Letters, import_dataset}
use striem.Deployment.Defs.{Manifest, Reader}
use striem.Deployment.Validate.{validate_challenge}
use striem.Deployment.Prepare.{
  ConfiguredDataset, Prepared, Files, names_of, prepare_all, indexed_paths_of,
}

-- The decoded manifest; `challenge` is the part that `validateChallenge` reads.
pub record Deployment : Type 0 where
  pub challenge : Manifest
  pub challenge_name : Text
  pub full_text_index : Bool
  pub datasets : List ConfiguredDataset

-- What surrounds a run: the store's engine, the statements of the challenge that fail, the files,
-- which of them can be opened and closed, and what an import reads from them.
pub record Site : Type 0 where
  pub engine : Engine
  pub faults : Faults
  pub reader : Reader
  pub letters : Letters
  pub files : Files
  pub directory_opens : Bool
  pub opens : Prepared → Bool
  pub closes : Prepared → Bool
  pub input : Prepared → Input

-- The map `existingByName`, in which the last of two rows with one name stays.
unfoldable pub existing_named : Text → List Dataset → Option Dataset
existing_named name [] = none
existing_named name (d ∷ ds) =
    let later = existing_named name ds in
    if is_some later then later else (if same d.name name then some d else none)

-- The row of a dataset, where it is there with the same signature.
abbrev pub with_signature : Text → Option Dataset → Option Dataset
with_signature signature none = none
with_signature signature (some d) = if same d.signature signature then some d else none

unfoldable pub unchanged : List Dataset → Prepared → Option Dataset
unfolding existing_named
unchanged existing p = with_signature p.signature (existing_named p.configured.name existing)

unfoldable pub all_unchanged : List Dataset → List Prepared → Bool
unfolding unchanged
all_unchanged existing [] = true
all_unchanged existing (p ∷ ps) = is_some (unchanged existing p) && all_unchanged existing ps

unfoldable pub storage_changed : List Dataset → List Prepared → Bool
unfolding all_unchanged
storage_changed existing prepared =
    not (length existing == length prepared) || not (all_unchanged existing prepared)

abbrev pub mapping_of : Prepared → Mapping
mapping_of p = record {
  name = p.configured.name;
  table = p.configured.table;
  signature = p.signature;
  format = p.format;
  source = p.configured.source;
  source_path = p.configured.source_path;
  timestamp_path = p.configured.timestamp_path;
  replace_existing = true;
}

unfoldable pub import_one : Site → Prepared → Action Dataset
import_one s p = do
  if s.opens p then pure tt else fail unread
  row ← import_dataset s.engine s.letters (mapping_of p) (s.input p)
  if s.closes p then pure tt else fail unread
  pure row

abbrev pub kept_or : Option Dataset → Action Dataset → Action Dataset
kept_or none other = other
kept_or (some d) other = pure d

-- The loop that imports what has changed.
unfoldable pub import_all : Site → List Dataset → List Prepared → Action (List Dataset)
unfolding unchanged import_one
import_all s existing [] = pure []
import_all s existing (p ∷ ps) = do
  row ← kept_or (unchanged existing p) (import_one s p)
  rows ← import_all s existing ps
  pure (row ∷ rows)

-- The deferred function: the second step runs whether the first fails or not.
unfoldable pub restore_derived : Engine → Action (Unit {0})
restore_derived e w = sync_full_text_index e true (create_event_indexes e w).0

-- From the loop that imports to the full-text index.
unfoldable pub replace_datasets : Site → List Dataset → List Prepared → Bool → Action (List Dataset)
unfolding import_all
replace_datasets s existing prepared rebuild = do
  loaded ← import_all s existing prepared
  delete_datasets_except s.engine (names_of prepared)
  create_event_indexes s.engine
  sync_full_text_index s.engine rebuild
  pure loaded

unfoldable pub load_datasets : Site → List Dataset → List Prepared → Action (List Dataset)
unfolding replace_datasets restore_derived storage_changed
load_datasets s existing prepared =
    if storage_changed existing prepared
    then (do
      drop_event_indexes s.engine
      restoring (drop_full_text_index s.engine >> replace_datasets s existing prepared true)
          (restore_derived s.engine))
    else replace_datasets s existing prepared false

-- `ConfigureChallenge`, with what it leaves of the stored progress.
abbrev pub stored : World → Store × Result Error (Unit {0}) → World × Result StoreError (Unit {0})
stored w (progress, ok done) = (record w { db = record w.db { progress = progress } }, ok done)
stored w (progress, err e) = (record w { db = record w.db { progress = progress } }, err refused)

unfoldable pub configure_challenge : Faults → Challenge → Action (Unit {0})
unfolding configure
configure_challenge f challenge w = stored w (configure f challenge w.db.progress)

unfoldable pub load_existing :
    Site → Deployment → Challenge → List Prepared → List Dataset → Action (List Dataset)
unfolding load_datasets configure_challenge
load_existing s deployment challenge prepared existing = do
  loaded ← load_datasets s existing prepared
  set_challenge_name s.engine (trim_space deployment.challenge_name)
  configure_challenge s.faults challenge
  pure loaded

unfoldable pub load_prepared : Site → Deployment → Challenge → List Prepared → Action (List Dataset)
unfolding load_existing
load_prepared s deployment challenge prepared = do
  configure_event_storage s.engine s.letters.unicode (indexed_paths_of deployment.datasets)
      deployment.full_text_index
  existing ← list_datasets s.engine
  load_existing s deployment challenge prepared existing

unfoldable pub is_nothing : List ConfiguredDataset → Bool
is_nothing [] = true
is_nothing (c ∷ cs) = false

unfoldable pub load : Site → Deployment → Action (List Dataset)
unfolding load_prepared is_nothing
load s deployment =
    if ltb 120 (length (trim_space deployment.challenge_name)) || is_nothing deployment.datasets
    then fail unprepared
    else elim (validate_challenge s.reader deployment.challenge) [
      | err e ↦ fail unprepared
      | ok challenge ↦
          if not s.directory_opens
          then fail unprepared
          else elim (prepare_all s.letters s.files [] [] deployment.datasets) [
            | err e ↦ fail unprepared
            | ok prepared ↦ load_prepared s deployment challenge prepared
          ]
    ]
