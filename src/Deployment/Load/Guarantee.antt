-- ===== src/Deployment/Load/Guarantee.antt =====
-- What a run of the loader guarantees of the store, whichever of its statements fail.
use striem.Common.{Bool, true, not, ◌||◌, ◌⊎◌, ◌≡◌, refl, sym, List, [], inl, inr, length, ltb}
use mathlib.Core.Path.{subst}
use striem.Common.Text.{Text, trim_space}
use striem.Common.Distinct.{IsDistinct}
use striem.Common.Result.{Result, ok, err}
use striem.Challenge.Defs.{Challenge, Faults, Error}
use striem.Challenge.Configure.{Store, configure}
use striem.Challenge.Configure.Reconcile.{HasDistinctIds, Reconciles, configure-Reconciles}
use striem.Challenge.Progress.{IsKeyed}
use striem.Store.Defs.{World, Dataset, Db, Memory, Engine, fail, unprepared}
use striem.Store.Rules.{
  Pred, Triple, Triple-bind, Triple-execute, Triple-query, Triple-weaken, Triple-pure, Triple-fail,
  Triple-modify, Triple-if, Triple-option, Triple-result, Outcome,
}
use striem.Store.FullText.{Unicode, collect_paths, configure_event_storage}
use striem.Store.FullText.Current.{IsSound, IsSynced, IsSound-of_Synced}
use striem.Store.Datasets.{list_datasets, order_datasets, set_challenge_name}
use striem.Deployment.Validate.{validate_challenge}
use striem.Deployment.Guarantees.{validate_challenge-IsDeployable}
use striem.Deployment.Prepare.{Prepared, names_of, prepare_all, indexed_paths_of}
use striem.Deployment.Prepare.Checked.{prepare_all_lem}
use striem.Deployment.Load.{
  Site, Deployment, configure_challenge, stored, load_existing, load_prepared, load, is_nothing,
}
use striem.Deployment.Load.Derived.{Sound}
use striem.Deployment.Load.Runs.{load_datasets_lem}

configure_event_storage_lem :
    (before : Store) (e : Engine) (u : Unicode) (paths : List Text) (b : Bool)
    → Triple
        (λ d m. (d.progress ≡ before) × IsSound d m)
        (configure_event_storage e u paths b)
        (λ _. Sound before b)
        (λ d m. (d.progress ≡ before) × IsSound d m)
unfolding configure_event_storage
configure_event_storage_lem before e u paths b =
    Triple-option (collect_paths u [] paths) (Triple-fail _ (λ d m p. p)) (λ unique.
      Triple-bind {Q = λ _. Old}
        (Triple-if b (λ _. Triple-query e _ (λ d m p. p) (λ d m p. p))
          (λ _. Triple-pure true (λ d m p. p)))
        (λ supported.
          Triple-bind {Q = λ _. Old}
            (Triple-if supported (λ _. Triple-pure tt (λ d m p. p))
              (λ _. Triple-fail _ (λ d m p. p)))
            (λ _. Triple-modify _ (λ d m p. ((p.0, refl), (p.1.0, λ ready. cc))))))
  where
    Old : Pred
    Old d m = (d.progress ≡ before) × IsSound d m

module _ (P : Pred)
    (keeps : (d : Db) (m : Memory) (progress : Store)
      → P d m
      → P (record d { progress = progress }) m)
    (before : Store) (challenge : Challenge) where
  -- What a configuration of the challenge does.
  Settles : Store × Result Error (Unit {0}) → Type 0
  Settles r =
      ((r.1 ≡ ok tt) × Reconciles challenge before r.0)
      ⊎ (((e : Error) × (r.1 ≡ err e)) × (r.0 ≡ before))

  stored-Outcome :
      (w : World) (r : Store × Result Error (Unit {0}))
      → Settles r
      → P w.db w.memory
      → Outcome
          (λ _ d m. Reconciles challenge before d.progress × P d m)
          (λ d m. (d.progress ≡ before) × P d m)
          (stored w r)
  unfolding Settles
  stored-Outcome w (progress, ok done) (inl (h, reconciles)) p =
      (reconciles, keeps w.db w.memory progress p)
  stored-Outcome w (progress, ok done) (inr ((e, h), same)) p = cc
  stored-Outcome w (progress, err e) (inl (h, reconciles)) p = cc
  stored-Outcome w (progress, err e) (inr (h, same)) p = (same, keeps w.db w.memory progress p)

  -- The challenge is configured, or it and all else is as before.
  configure_challenge_lem :
      (f : Faults)
      → HasDistinctIds challenge.questions
      → IsKeyed before.table
      → Triple
          (λ d m. (d.progress ≡ before) × P d m)
          (configure_challenge f challenge)
          (λ _ d m. Reconciles challenge before d.progress × P d m)
          (λ d m. (d.progress ≡ before) × P d m)
  unfolding configure_challenge Settles
  configure_challenge_lem f distinct keyed = record {
    holds = λ w h.
        stored-Outcome w (configure f challenge w.db.progress)
          (subst (λ s. Settles (configure f challenge s)) (sym h.0)
            (configure-Reconciles f challenge before distinct keyed))
          h.1;
  }

-- The store of a finished run: the full-text index is there, holds the events and is ready exactly if
-- the manifest asks for it, and the name is the manifest's.
abbrev pub IsLoaded : Deployment → Pred
IsLoaded deployment d m =
    IsSynced d m
    × (m.full_text_index ≡ deployment.full_text_index)
    × (d.challenge_name ≡ trim_space deployment.challenge_name)

abbrev pub Untouched : Store → Pred
Untouched before d m = (d.progress ≡ before) × IsSound d m

abbrev pub Finished : Store → Deployment → Challenge → Pred
Finished before deployment challenge d m =
    Reconciles challenge before d.progress × IsLoaded deployment d m

module _ (before : Store) (keyed : IsKeyed before.table) (s : Site) (deployment : Deployment) where
  load_existing_lem :
      (challenge : Challenge) (ps : List Prepared) (rows : List Dataset)
      → HasDistinctIds challenge.questions
      → IsDistinct (names_of ps)
      → Triple
          (λ d m. Sound before deployment.full_text_index d m × (d.datasets ≡ rows))
          (load_existing s deployment challenge ps (order_datasets rows))
          (λ _. Finished before deployment challenge)
          (Untouched before)
  unfolding load_existing set_challenge_name
  load_existing_lem challenge ps rows ids distinct =
      Triple-bind
        {Q = λ _ d m.
          ((d.progress ≡ before) × (m.full_text_index ≡ deployment.full_text_index)) × IsSynced d m}
        (Triple-weaken (load_datasets_lem before deployment.full_text_index s rows ps distinct)
          (λ d m p. p) (λ _ d m q. q) (λ d m q. (q.0.0, q.1)))
        (λ loaded.
          Triple-bind {Q = λ _ d m. (d.progress ≡ before) × IsLoaded deployment d m}
            (Triple-execute s.engine _ (λ d m p. (p.0.0, (p.1, p.0.1, refl)))
              (λ d m p. (p.0.0, IsSound-of_Synced d m p.1)))
            (λ _.
              Triple-bind {Q = λ _. Finished before deployment challenge}
                (Triple-weaken
                  (configure_challenge_lem (IsLoaded deployment) (λ d m progress p. p) before
                    challenge s.faults ids keyed)
                  (λ d m p. p) (λ _ d m q. q) (λ d m q. (q.0, IsSound-of_Synced d m q.1.0)))
                (λ _. Triple-pure loaded (λ d m q. q))))

  load_prepared_lem :
      (challenge : Challenge) (ps : List Prepared)
      → HasDistinctIds challenge.questions
      → IsDistinct (names_of ps)
      → Triple
          (Untouched before)
          (load_prepared s deployment challenge ps)
          (λ _. Finished before deployment challenge)
          (Untouched before)
  unfolding load_prepared list_datasets
  load_prepared_lem challenge ps ids distinct =
      Triple-bind {Q = λ _. Sound before deployment.full_text_index}
        (configure_event_storage_lem before s.engine s.letters.unicode
          (indexed_paths_of deployment.datasets) deployment.full_text_index)
        (λ _.
          Triple-bind
            {Q = λ existing d m.
              Sound before deployment.full_text_index d m × (existing ≡ order_datasets d.datasets)}
            (Triple-query s.engine (λ db. order_datasets db.datasets) (λ d m p. (p, refl))
              (λ d m p. (p.0.0, p.1)))
            (λ existing. record {
              holds = λ w h.
                  (subst
                      (λ x.
                        Triple
                          (λ d m.
                            Sound before deployment.full_text_index d m
                            × (d.datasets ≡ w.db.datasets))
                          (load_existing s deployment challenge ps x)
                          (λ _. Finished before deployment challenge) (Untouched before))
                      (sym h.1) (load_existing_lem challenge ps w.db.datasets ids distinct)).holds
                    w (h.0, refl);
            }))

  pub load_lem :
      Triple
        (Untouched before)
        (load s deployment)
        (λ _ d m.
          (challenge : Challenge) × (validate_challenge s.reader deployment.challenge
            ≡ ok challenge)
          × Finished before deployment challenge d m)
        (Untouched before)
  unfolding load
  load_lem =
      Triple-if
        (ltb 120 (length (trim_space deployment.challenge_name)) || is_nothing deployment.datasets)
        (λ _. refuse)
        (λ _.
          Triple-result (validate_challenge s.reader deployment.challenge) refuse
            (λ challenge valid.
              Triple-if (not s.directory_opens) (λ _. refuse)
                (λ _.
                  Triple-result (prepare_all s.letters s.files [] [] deployment.datasets) refuse
                    (λ ps prepared.
                      Triple-weaken
                        (load_prepared_lem challenge ps
                          (validate_challenge-IsDeployable s.reader deployment.challenge
                            valid).distinct
                          (prepare_all_lem s.letters s.files deployment.datasets prepared).1)
                        (λ d m p. p) (λ _ d m q. (challenge, valid, q)) (λ d m q. q)))))
    where
      refuse :
          {Q : List Dataset → Pred}
          → Triple (Untouched before) (fail unprepared) Q (Untouched before)
      refuse = Triple-fail unprepared (λ d m p. p)

-- From a state in which a full-text index that is there holds the events, and is ready only if it is
-- there, and with one row of progress to a question: a run that succeeds has a valid challenge, with
-- which it has reconciled the progress, the name of the manifest, and a full-text index that holds
-- the events and is ready exactly if the manifest asks for one. A run that fails, at any statement,
-- keeps the challenge with its progress and such a state of the index.
pub load-IsLoaded :
    (s : Site) (deployment : Deployment) (w : World)
    → IsKeyed w.db.progress.table
    → IsSound w.db w.memory
    → Outcome
        (λ _ d m.
          (challenge : Challenge) × (validate_challenge s.reader deployment.challenge
            ≡ ok challenge)
          × Finished w.db.progress deployment challenge d m)
        (Untouched w.db.progress)
        (load s deployment w)
load-IsLoaded s deployment w keyed sound =
    (load_lem w.db.progress keyed s deployment).holds w (refl, sound)
