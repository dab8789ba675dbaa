-- ===== src/Deployment/Load/Replaced.antt =====
-- After a run of the loader the store holds the datasets of the manifest.
use striem.Common.{◌≡◌, refl, sym, Bool, true, false, not, ◌||◌, List, [], ◌∷◌, length, ltb}
use mathlib.Core.Path.{subst}
use striem.Common.Text.{Text, has_text, trim_space}
use striem.Common.Distinct.{IsDistinct}
use striem.Common.Result.{Result, ok, err}
use striem.Challenge.Defs.{Challenge, Error}
use striem.Challenge.Configure.{Store, configure}
use striem.Store.Defs.{World, Dataset, Engine, Action, fail, unprepared}
use striem.Store.Rules.{
  Pred, Triple, Triple-bind, Triple-execute, Triple-query, Triple-weaken, Triple-pure, Triple-fail,
  Triple-if, Triple-result, Outcome,
}
use striem.Store.Deferred.{Triple-restoring}
use striem.Store.Indexes.Kept.{drop_event_indexes-keeps, create_event_indexes-keeps}
use striem.Store.FullText.{configure_event_storage}
use striem.Store.FullText.Kept.{drop_full_text_index-keeps, sync_full_text_index-keeps}
use striem.Store.Datasets.{
  order_datasets, delete_datasets_except, list_datasets, set_challenge_name,
}
use striem.Deployment.Validate.{validate_challenge}
use striem.Deployment.Prepare.{Prepared, names_of, prepare_all, indexed_paths_of}
use striem.Deployment.Prepare.Checked.{prepare_all_lem, AreFiles}
use striem.Deployment.Load.{
  Site, Deployment, replace_datasets, restore_derived, load_datasets, configure_challenge, stored,
  load_existing, load_prepared, load, storage_changed, is_nothing,
}
use striem.Deployment.Load.Rows.{
  ArePresent, AreNamed, keep_only-ArePresent, keep_only-AreNamed, unchanged-IsPresent,
}
use striem.Deployment.Load.Contents.{Any, Triple-any, Kept, Going, import_all-ArePresent}

-- Each prepared dataset has a row with its name and signature, and each row is of one of them.
abbrev pub HoldsDatasets : List Prepared → Pred
HoldsDatasets ps d m = ArePresent d.datasets ps × AreNamed (names_of ps) d.datasets

Kept-rows : (rows : List Dataset) (ps : List Prepared) → Kept (order_datasets rows) ps rows
Kept-rows rows [] = tt
Kept-rows rows (p ∷ ps) = (unchanged-IsPresent rows p, Kept-rows rows ps)

except_lem :
    (e : Engine) (names : List Text) (ps : List Prepared)
    → ((t : Text) → has_text t (names_of ps) ≡ true → has_text t names ≡ true)
    → Triple
        (λ d m. ArePresent d.datasets ps)
        (delete_datasets_except e names)
        (λ _ d m. ArePresent d.datasets ps × AreNamed names d.datasets)
        Any
unfolding delete_datasets_except
except_lem e [] ps i = Triple-fail _ (λ d m h. tt)
except_lem e (name ∷ names) ps i =
    Triple-execute e _
      (λ d m h. (
        keep_only-ArePresent (name ∷ names) d.datasets ps i h,
        keep_only-AreNamed (name ∷ names) d.datasets,
      ))
      (λ d m h. tt)

weak :
    {A : Type 0} {P : Pred} {Q : A → Pred} {R : Pred} {m : Action A}
    → Triple P m Q R
    → Triple P m Q Any
weak h = Triple-weaken h (λ d m p. p) (λ a d m q. q) (λ d m r. tt)

module _ (s : Site) (rows : List Dataset) (ps : List Prepared)
    (distinct : IsDistinct (names_of ps)) where
  replace_lem :
      (rebuild : Bool)
      → Triple
          (λ d m. d.datasets ≡ rows)
          (replace_datasets s (order_datasets rows) ps rebuild)
          (λ _. HoldsDatasets ps)
          Any
  unfolding replace_datasets Going
  replace_lem rebuild =
      Triple-bind {Q = λ _ d m. ArePresent d.datasets ps}
        (Triple-weaken (import_all-ArePresent s (order_datasets rows) [] ps tt distinct)
          (λ d m h. (tt, subst (Kept (order_datasets rows) ps) (sym h) (Kept-rows rows ps)))
          (λ _ d m q. q.1) (λ d m q. q))
        (λ loaded.
          Triple-bind {Q = λ _. HoldsDatasets ps} (except_lem s.engine (names_of ps) ps (λ t h. h))
            (λ _.
              Triple-bind {Q = λ _. HoldsDatasets ps}
                (weak (
                  create_event_indexes-keeps (HoldsDatasets ps) (record { keeps = λ d m o j h. h })
                    s.engine))
                (λ _.
                  Triple-bind {Q = λ _. HoldsDatasets ps}
                    (weak (
                      sync_full_text_index-keeps (HoldsDatasets ps)
                        (record { keeps = λ d m f r t h. h }) s.engine rebuild))
                    (λ _. Triple-pure loaded (λ d m h. h)))))

  load_datasets-HoldsDatasets :
      Triple
        (λ d m. d.datasets ≡ rows)
        (load_datasets s (order_datasets rows) ps)
        (λ _. HoldsDatasets ps)
        Any
  unfolding load_datasets
  load_datasets-HoldsDatasets =
      Triple-if (storage_changed (order_datasets rows) ps)
        (λ _.
          Triple-bind {Q = λ _ d m. d.datasets ≡ rows}
            (weak (
              drop_event_indexes-keeps (λ d m. d.datasets ≡ rows)
                (record { keeps = λ d m o j h. h }) s.engine))
            (λ _.
              Triple-restoring {S = Any}
                (Triple-bind {Q = λ _ d m. d.datasets ≡ rows}
                  (weak (
                    drop_full_text_index-keeps (λ d m. d.datasets ≡ rows)
                      (record { keeps = λ d m f r t h. h }) s.engine))
                  (λ _. replace_lem true))
                (Triple-any (restore_derived s.engine))))
        (λ _. replace_lem false)

stored-HoldsDatasets :
    (ps : List Prepared) (w : World) (r : Store × Result Error (Unit {0}))
    → HoldsDatasets ps w.db w.memory
    → Outcome (λ _. HoldsDatasets ps) Any (stored w r)
stored-HoldsDatasets ps w (progress, ok done) h = h
stored-HoldsDatasets ps w (progress, err e) h = tt

module _ (s : Site) (deployment : Deployment) (challenge : Challenge) (ps : List Prepared)
    (distinct : IsDistinct (names_of ps)) where
  load_existing-HoldsDatasets :
      (rows : List Dataset)
      → Triple
          (λ d m. d.datasets ≡ rows)
          (load_existing s deployment challenge ps (order_datasets rows))
          (λ _. HoldsDatasets ps)
          Any
  unfolding load_existing set_challenge_name configure_challenge
  load_existing-HoldsDatasets rows =
      Triple-bind {Q = λ _. HoldsDatasets ps} (load_datasets-HoldsDatasets s rows ps distinct)
        (λ loaded.
          Triple-bind {Q = λ _. HoldsDatasets ps}
            (Triple-execute s.engine _ (λ d m h. h) (λ d m h. tt))
            (λ _.
              Triple-bind {Q = λ _. HoldsDatasets ps}
                (record {
                  holds = λ w h.
                      stored-HoldsDatasets ps w (configure s.faults challenge w.db.progress) h;
                })
                (λ _. Triple-pure loaded (λ d m h. h))))

  load_prepared-HoldsDatasets :
      Triple Any (load_prepared s deployment challenge ps) (λ _. HoldsDatasets ps) Any
  unfolding load_prepared list_datasets
  load_prepared-HoldsDatasets =
      Triple-bind {Q = λ _. Any}
        (Triple-any (
          configure_event_storage s.engine s.letters.unicode (indexed_paths_of deployment.datasets)
            deployment.full_text_index))
        (λ _.
          Triple-bind {Q = λ existing d m. existing ≡ order_datasets d.datasets}
            (Triple-query s.engine (λ db. order_datasets db.datasets) (λ d m h. refl) (λ d m h. tt))
            (λ existing. record {
              holds = λ w h.
                  (subst
                      (λ x.
                        Triple (λ d m. d.datasets ≡ w.db.datasets)
                          (load_existing s deployment challenge ps x) (λ _. HoldsDatasets ps) Any)
                      (sym h) (load_existing-HoldsDatasets w.db.datasets)).holds
                    w refl;
            }))

load-Triple :
    (s : Site) (deployment : Deployment)
    → Triple Any
        (load s deployment)
        (λ _ d m.
          (ps : List Prepared) × AreFiles s.files deployment.datasets ps × HoldsDatasets ps d m)
        Any
unfolding load
load-Triple s deployment =
    Triple-if
      (ltb 120 (length (trim_space deployment.challenge_name)) || is_nothing deployment.datasets)
      (λ _. refuse)
      (λ _.
        Triple-result (validate_challenge s.reader deployment.challenge) refuse (λ challenge valid.
          Triple-if (not s.directory_opens) (λ _. refuse)
            (λ _.
              Triple-result (prepare_all s.letters s.files [] [] deployment.datasets) refuse
                (λ ps prepared.
                  let checked = prepare_all_lem s.letters s.files deployment.datasets prepared in
                  Triple-weaken (load_prepared-HoldsDatasets s deployment challenge ps checked.1)
                    (λ d m h. h) (λ _ d m q. (ps, checked.0, q)) (λ d m h. h)))))
  where
    refuse : {Q : List Dataset → Pred} → Triple Any (fail unprepared) Q Any
    refuse = Triple-fail unprepared (λ d m p. p)

-- A run that succeeds has prepared every entry of the manifest in its order, and the store then has
-- a row with the name and the signature of each, and no row of another name.
pub load-HoldsDatasets :
    (s : Site) (deployment : Deployment) (w : World)
    → Outcome
        (λ _ d m.
          (ps : List Prepared) × AreFiles s.files deployment.datasets ps × HoldsDatasets ps d m)
        Any
        (load s deployment w)
load-HoldsDatasets s deployment w = (load-Triple s deployment).holds w tt
