-- ===== src/Deployment/Load/Runs.antt =====
-- What a run of the loader guarantees, whichever of its statements fail.
use striem.Common.{
  Bool, true, false, ◌≡◌, sym, ap, ◌∙◌, List, [], ◌∷◌, Option, none, some, is_some, arith,
}
use striem.Common.Text.{Text}
use striem.Common.Distinct.{IsDistinct}
use striem.Challenge.Configure.{Store}
use striem.Store.Defs.{Dataset, Db, Memory, Action}
use striem.Store.Rules.{
  Pred, Triple, Triple-bind, Triple-execute, Triple-weaken, Triple-pure, Triple-fail, Triple-if,
}
use striem.Store.FullText.Current.{IsSynced, Framed, sync_lem}
use striem.Store.Indexes.Kept.{IsIndexFree, create_event_indexes-keeps}
use striem.Store.Datasets.{delete_datasets_except, order_datasets, keep_only}
use striem.Deployment.Prepare.{Prepared, names_of}
use striem.Deployment.Load.{
  Site, unchanged, all_unchanged, storage_changed, kept_or, import_one, import_all,
  replace_datasets, load_datasets,
}
use striem.Deployment.Load.Derived.{Background, Sound, IsFrame-background, changed_lem}
use striem.Deployment.Load.Unchanged.{keep_only-unchanged}

-- Nothing is imported.
import_all-unchanged :
    (P : Pred) (s : Site) (existing : List Dataset) (ps : List Prepared)
    → all_unchanged existing ps ≡ true
    → Triple P (import_all s existing ps) (λ _. P) P
unfolding import_all all_unchanged
import_all-unchanged P s existing [] h = Triple-pure [] (λ d m p. p)
import_all-unchanged P s existing (p ∷ ps) h =
    Triple-bind {Q = λ _. P} (row (unchanged existing p) (ground (arith, h))) (λ row.
      Triple-bind {Q = λ _. P} (import_all-unchanged P s existing ps (ground (arith, h)))
        (λ rows. Triple-pure (row ∷ rows) (λ d m h. h)))
  where
    row : (o : Option Dataset) → is_some o ≡ true → Triple P (kept_or o (import_one s p)) (λ _. P) P
    row none h = cc
    row (some d) h = Triple-pure d (λ d m h. h)

module _ (before : Store) (b : Bool) (s : Site) (rows : List Dataset) (ps : List Prepared)
    (distinct : IsDistinct (names_of ps)) where
  abbrev Same : Pred
  Same d m = Sound before b d m × (d.datasets ≡ rows)

  IsIndexFree-same : IsIndexFree Same
  IsIndexFree-same = record { keeps = λ d m ordinary json h. h }

  except_lem :
      (names : List Text)
      → keep_only names rows ≡ rows
      → Triple Same (delete_datasets_except s.engine names) (λ _. Same) Same
  unfolding delete_datasets_except
  except_lem [] h = Triple-fail _ (λ d m p. p)
  except_lem (name ∷ names) h = Triple-execute s.engine _ deleted (λ d m p. p)
    where
      deleted :
          (d : Db) (m : Memory)
          → Same d m
          → Same (record d { datasets = keep_only (name ∷ names) d.datasets }) m
      deleted d m p =
          let same_rows = ap (keep_only (name ∷ names)) p.1 ∙ h in
          ((p.0.0, (rw (same_rows ∙ sym p.1) p.0.1.0, p.0.1.1)), same_rows)

  unchanged_lem :
      storage_changed (order_datasets rows) ps ≡ false
      → Triple Same
          (replace_datasets s (order_datasets rows) ps false)
          (λ _. Framed (Background before b) IsSynced)
          (Sound before b)
  unfolding replace_datasets storage_changed
  unchanged_lem h =
      Triple-bind {Q = λ _. Same}
        (weak (import_all-unchanged Same s (order_datasets rows) ps (ground (arith, h))))
        (λ loaded.
          Triple-bind {Q = λ _. Same}
            (weak (except_lem (names_of ps) (keep_only-unchanged rows ps distinct h)))
            (λ _.
              Triple-bind {Q = λ _. Same}
                (weak (create_event_indexes-keeps Same IsIndexFree-same s.engine))
                (λ _.
                  Triple-bind {Q = λ _. Framed (Background before b) IsSynced}
                    (Triple-weaken
                      (sync_lem (Background before b) (IsFrame-background before b) s.engine false)
                      (λ d m p. p.0) (λ _ d m p. p) (λ d m p. p))
                    (λ _. Triple-pure loaded (λ d m p. p)))))
    where
      weak :
          {A : Type 0} {m : Action A}
          → Triple Same m (λ _. Same) Same
          → Triple Same m (λ _. Same) (Sound before b)
      weak h = Triple-weaken h (λ d m p. p) (λ _ d m q. q) (λ d m q. q.0)

  pub load_datasets_lem :
      Triple Same
        (load_datasets s (order_datasets rows) ps)
        (λ _. Framed (Background before b) IsSynced)
        (Sound before b)
  unfolding load_datasets
  load_datasets_lem =
      Triple-if (storage_changed (order_datasets rows) ps)
        (λ _.
          Triple-weaken (changed_lem before b s (order_datasets rows) ps) (λ d m p. p.0)
            (λ _ d m q. q) (λ d m q. q))
        unchanged_lem
