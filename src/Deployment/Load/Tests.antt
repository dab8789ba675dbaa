-- ===== src/Deployment/Load/Tests.antt =====
-- A manifest of one dataset, its run, and the theorems on it.
use striem.Common.{◌≡◌, refl, true, false, List, [], ◌∷◌, Option, none, some}
use striem.Common.Int.{pos}
use striem.Common.Text.{Text, codes, same, trim_space, has_text, split_on, sort_texts}
use striem.Common.Distinct.{IsDistinct}
use striem.Common.Result.{ok, err}
use striem.Challenge.Defs.{Challenge}
use striem.Store.Defs.{
  Dataset, query, execute, execute_if, transaction, restoring, finally, all_events,
}
use striem.Store.FullText.{
  configure_event_storage, drop_full_text_index, mark_full_text_index_dirty, sync_full_text_index,
}
use striem.Store.Indexes.{
  drop_event_indexes, create_event_indexes, reconcile_indexes, sort_entries, remove, sql_of,
  has_name, desired_indexes,
}
use striem.Ingest.Import.{import_dataset, import_body, next_id, add_events}
use striem.Challenge.Configure.{configure}
use striem.Challenge.Progress.{upsert}
use striem.Store.Rules.{Outcome}
use striem.Store.Datasets.{
  keep_only, order_datasets, list_datasets, delete_datasets_except, without, set_challenge_name,
}
use striem.Store.Tests.{engine, stale, logins}
use striem.Ingest.Tests.{letters, records}
use striem.Deployment.Validate.{validate_challenge}
use striem.Deployment.Tests.{reader, manifest, two, faults}
use striem.Deployment.Prepare.{
  indexed_paths_of, ConfiguredDataset, Prepared, Files, Info, names_of, prepare_all,
  manifest_itself,
}
use striem.Deployment.Prepare.Checked.{AreFiles, prepare_all_lem}
use striem.Deployment.Load.{Site, Deployment, load, storage_changed}
use striem.Deployment.Load.Unchanged.{keep_only-unchanged}
use striem.Deployment.Load.Contents.{Any}
use striem.Deployment.Load.Replaced.{HoldsDatasets, load-HoldsDatasets}
use striem.Deployment.Load.Guarantee.{Untouched, Finished, load-IsLoaded}

abbrev entry : Text → ConfiguredDataset
entry path = record {
  name = codes "logins";
  table = codes "Logins";
  path = path;
  format = codes "json";
  source = codes "host";
  source_path = [];
  timestamp_path = codes "time";
  timestamp_format = [];
  indexed_paths = codes "host" ∷ [];
}

abbrev stat_of : Text → Option Info
stat_of [] = none
stat_of (c ∷ s) = some (record {
  regular = true;
  is_manifest = same (c ∷ s) (codes "manifest.yaml");
  size = 5;
  modified = pos 0;
})

-- One directory whose files have their names as paths.
abbrev files : Files
files = record {
  base = codes "/data";
  is_abs = λ path. false;
  join = λ base path. path;
  clean = λ path. path;
  rel = λ base path. some path;
  is_local = λ path. true;
  ext = λ path. [];
  equal_fold = same;
  trim_suffix = λ s suffix. s;
  stat = stat_of;
  sign = λ configured path info. some (codes "b");
}

abbrev site : Site
site = record {
  engine = engine;
  faults = faults;
  reader = reader;
  letters = letters;
  files = files;
  directory_opens = true;
  opens = λ p. true;
  closes = λ p. true;
  input = λ p. records;
}

abbrev deployment : Deployment
deployment = record {
  challenge = manifest two;
  challenge_name = codes "Case";
  full_text_index = true;
  datasets = entry (codes "logins.json") ∷ [];
}

abbrev prepared : List Prepared
prepared =
    record {
      configured = entry (codes "logins.json");
      path = codes "logins.json";
      format = codes "json";
      signature = codes "b";
    }
    ∷ []

prepares : prepare_all letters files [] [] (entry (codes "logins.json") ∷ []) ≡ ok prepared
unfolding prepare_all trim_space has_text split_on same
prepares = refl

rejects_manifest :
    prepare_all letters files [] [] (entry (codes "manifest.yaml") ∷ []) ≡ err manifest_itself
unfolding prepare_all trim_space has_text split_on same
rejects_manifest = refl

prepare_all_lem_example :
    AreFiles files (entry (codes "logins.json") ∷ []) prepared × IsDistinct (names_of prepared)
prepare_all_lem_example = prepare_all_lem letters files (entry (codes "logins.json") ∷ []) prepares

abbrev current : List Dataset
current = record logins { signature = codes "b" } ∷ []

same_storage : storage_changed (order_datasets current) prepared ≡ false
unfolding storage_changed order_datasets same
same_storage = refl

keep_only-unchanged_example : keep_only (names_of prepared) current ≡ current
unfolding has_text same
keep_only-unchanged_example = keep_only-unchanged current prepared (refl, tt) same_storage

loads :
    (load site deployment stale).1
    ≡ ok (record logins { signature = codes "b"; events = records.records } ∷ [])
unfolding load trim_space validate_challenge same prepare_all has_text split_on
    configure_event_storage indexed_paths_of sort_texts query list_datasets drop_event_indexes
    execute restoring drop_full_text_index import_dataset mark_full_text_index_dirty transaction
    import_body without next_id add_events delete_datasets_except create_event_indexes
    reconcile_indexes execute_if sort_entries remove sql_of has_name sync_full_text_index all_events
    set_challenge_name configure finally upsert order_datasets desired_indexes
loads = refl

load-HoldsDatasets_example :
    Outcome
      (λ _ d m.
        (ps : List Prepared) × AreFiles site.files deployment.datasets ps × HoldsDatasets ps d m)
      Any
      (load site deployment stale)
load-HoldsDatasets_example = load-HoldsDatasets site deployment stale

load-IsLoaded_example :
    Outcome
      (λ _ d m.
        (challenge : Challenge) × (validate_challenge site.reader deployment.challenge
          ≡ ok challenge)
        × Finished stale.db.progress deployment challenge d m)
      (Untouched stale.db.progress)
      (load site deployment stale)
load-IsLoaded_example = load-IsLoaded site deployment stale tt (tt, λ ready. cc)
