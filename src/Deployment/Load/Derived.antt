-- ===== src/Deployment/Load/Derived.antt =====
-- The full-text index and the challenge in a run of the loader.
use striem.Common.{Bool, true, false, ◌≡◌, refl, List, [], ◌∷◌, Option, none, some, if◌then◌else◌}
use striem.Common.Text.{Text}
use striem.Challenge.Configure.{Store}
use striem.Store.Defs.{Dataset, Db, Memory, Engine, Action, ◌>>◌, restoring}
use striem.Store.Rules.{
  Pred, Triple, Triple-bind, Triple-weaken, Triple-pure, Triple-fail, Triple-if,
}
use striem.Store.Deferred.{Triple-restoring, Outcome-always}
use striem.Store.FullText.{drop_full_text_index}
use striem.Store.FullText.Current.{
  IsSound, IsDropped, IsSynced, IsSound-of_Dropped, IsSound-of_Synced, IsFrame, Framed, drop_lem,
  sync_lem,
}
use striem.Store.Indexes.{drop_event_indexes, create_event_indexes}
use striem.Store.Indexes.Kept.{IsIndexFree, drop_event_indexes-keeps, create_event_indexes-keeps}
use striem.Store.Datasets.{delete_datasets_except}
use striem.Store.Datasets.Kept.{IsDatasetFree, delete_datasets_except-keeps}
use striem.Ingest.Import.{import_dataset}
use striem.Ingest.Imported.{IsMarkFree, import_dataset_lem}
use striem.Deployment.Prepare.{Prepared}
use striem.Deployment.Load.{
  Site, mapping_of, unchanged, kept_or, import_one, import_all, names_of, replace_datasets,
  restore_derived,
}

module _ (before : Store) (b : Bool) where
  -- The challenge is as before, and the full-text index is configured or not.
  abbrev pub Background : Pred
  Background d m = (d.progress ≡ before) × (m.full_text_index ≡ b)

  abbrev pub Dropped : Pred
  Dropped = Framed Background IsDropped

  abbrev pub Sound : Pred
  Sound = Framed Background IsSound

  pub IsFrame-background : IsFrame Background
  IsFrame-background = record { keeps = λ d m full_text ready dirty h. h }

  IsIndexFree-sound : IsIndexFree Sound
  IsIndexFree-sound = record { keeps = λ d m ordinary json h. h }

  IsIndexFree-dropped : IsIndexFree Dropped
  IsIndexFree-dropped = record { keeps = λ d m ordinary json h. h }

  IsDatasetFree-dropped : IsDatasetFree Dropped
  IsDatasetFree-dropped = record { keeps = λ d m datasets h. h }

  IsMarkFree-dropped : IsMarkFree Dropped
  IsMarkFree-dropped = record { marks = λ d m h. either m.full_text_index d m h }
    where
      either :
          (c : Bool) (d : Db) (m : Memory)
          → Dropped d m
          → Dropped d
              (if c then record m { full_text_ready = false; full_text_dirty = true } else m)
      either true d m h = (h.0, (h.1.0, refl))
      either false d m h = h

  Sound-of_Dropped : (d : Db) (m : Memory) → Dropped d m → Sound d m
  Sound-of_Dropped d m h = (h.0, IsSound-of_Dropped d m h.1)

  import_one-Dropped :
      (s : Site) (p : Prepared) → Triple Dropped (import_one s p) (λ _. Dropped) Dropped
  unfolding import_one
  import_one-Dropped s p =
      Triple-bind {Q = λ _. Dropped}
        (Triple-if (s.opens p) (λ _. Triple-pure tt (λ d m h. h)) (λ _. Triple-fail _ (λ d m h. h)))
        (λ _. Triple-bind {Q = λ _. Dropped} imports (λ row.
          Triple-bind {Q = λ _. Dropped}
            (Triple-if (s.closes p) (λ _. Triple-pure tt (λ d m h. h))
              (λ _. Triple-fail _ (λ d m h. h)))
            (λ _. Triple-pure row (λ d m h. h))))
    where
      imports :
          Triple Dropped
            (import_dataset s.engine s.letters (mapping_of p) (s.input p))
            (λ _. Dropped)
            Dropped
      imports = record {
        holds = λ w h.
            (Triple-weaken
                (import_dataset_lem Dropped IsDatasetFree-dropped IsMarkFree-dropped s.engine
                  s.letters (mapping_of p) (s.input p) w.db.datasets)
                (λ d m h. h) (λ row d m q. q.0.0) (λ d m q. q.0)).holds
              w (h, refl);
      }

  import_all-Dropped :
      (s : Site) (existing : List Dataset) (ps : List Prepared)
      → Triple Dropped (import_all s existing ps) (λ _. Dropped) Dropped
  unfolding import_all
  import_all-Dropped s existing [] = Triple-pure [] (λ d m h. h)
  import_all-Dropped s existing (p ∷ ps) =
      Triple-bind {Q = λ _. Dropped} (either (unchanged existing p)) (λ row.
        Triple-bind {Q = λ _. Dropped} (import_all-Dropped s existing ps)
          (λ rows. Triple-pure (row ∷ rows) (λ d m h. h)))
    where
      either :
          (o : Option Dataset) → Triple Dropped (kept_or o (import_one s p)) (λ _. Dropped) Dropped
      either none = import_one-Dropped s p
      either (some d) = Triple-pure d (λ d m h. h)

  -- The part of the loop that a run with changes goes through once there is no index.
  replace-Synced :
      (s : Site) (existing : List Dataset) (ps : List Prepared)
      → Triple Dropped (replace_datasets s existing ps true) (λ _. Framed Background IsSynced) Sound
  unfolding replace_datasets
  replace-Synced s existing ps =
      Triple-bind {Q = λ _. Dropped} (weak (import_all-Dropped s existing ps)) (λ loaded.
        Triple-bind {Q = λ _. Dropped} (weak (except (names_of ps))) (λ _.
          Triple-bind {Q = λ _. Dropped}
            (weak (create_event_indexes-keeps Dropped IsIndexFree-dropped s.engine))
            (λ _.
              Triple-bind {Q = λ _. Framed Background IsSynced}
                (Triple-weaken (sync_lem Background IsFrame-background s.engine true)
                  Sound-of_Dropped (λ _ d m h. h) (λ d m h. h))
                (λ _. Triple-pure loaded (λ d m h. h)))))
    where
      weak :
          {A : Type 0} {m : Action A}
          → Triple Dropped m (λ _. Dropped) Dropped
          → Triple Dropped m (λ _. Dropped) Sound
      weak h = Triple-weaken h (λ d m p. p) (λ _ d m q. q) Sound-of_Dropped

      except :
          (names : List Text)
          → Triple Dropped (delete_datasets_except s.engine names) (λ _. Dropped) Dropped
      except names = delete_datasets_except-keeps Dropped IsDatasetFree-dropped s.engine names

  restore-Sound : (e : Engine) → Triple Sound (restore_derived e) (λ _. Sound) Sound
  unfolding restore_derived
  restore-Sound e = record {
    holds = λ w h.
        (Triple-weaken {Q' = λ _. Sound} (sync_lem Background IsFrame-background e true)
            (λ d m p. p) (λ _ d m q. (q.0, IsSound-of_Synced d m q.1)) (λ d m q. q)).holds
          _
          (Outcome-always Sound (create_event_indexes e w)
            ((create_event_indexes-keeps Sound IsIndexFree-sound e).holds w h));
  }

  -- A run in which something has changed: the index is dropped before the first dataset is
  -- replaced, and filled behind the last.
  pub changed_lem :
      (s : Site) (existing : List Dataset) (ps : List Prepared)
      → Triple Sound
          (drop_event_indexes s.engine
            >> restoring
                (drop_full_text_index s.engine >> replace_datasets s existing ps true)
                (restore_derived s.engine))
          (λ _. Framed Background IsSynced)
          Sound
  changed_lem s existing ps =
      Triple-bind {Q = λ _. Sound} (drop_event_indexes-keeps Sound IsIndexFree-sound s.engine) (λ _.
        Triple-restoring
          (Triple-bind {Q = λ _. Dropped} (drop_lem Background IsFrame-background s.engine)
            (λ _. replace-Synced s existing ps))
          (restore-Sound s.engine))
