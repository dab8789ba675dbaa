-- ===== src/Ingest/Imported.antt =====
-- What an import makes of the datasets.
use mathlib.Core.Path.{ap₂}
use striem.Common.{
  [], if◌then◌else◌, ◌&&◌, true, ℕ, ◌≡◌, refl, sym, ap, ◌∙◌, false, List, [], ◌∷◌, ◌++◌,
}
use mathlib.Core.List.{append-nil}
use striem.Common.Text.{Text}
use striem.Store.Defs.{World, Dataset, Db, Memory, Engine, transaction}
use striem.Store.Rules.{
  Outcome, Pred, Triple, Triple-bind, Triple-execute, Triple-query, Triple-weaken, Triple-pure,
  Triple-fail, Triple-modify, Triple-report, Triple-if, Triple-given, Triple-transaction, Staying,
}
use striem.Store.Deferred.{Triple-finally}
use striem.Store.FullText.{mark_full_text_index_dirty}
use striem.Ingest.Rows.{AllBelow, next_id-AllBelow, Partial, flush_lem, write_lem}
use striem.Store.Datasets.Kept.{IsDatasetFree}
use striem.Ingest.Import.{
  Mapping, Input, Letters, valid_mapping, next_id, new_row, replaced, is_nothing, import_rows,
  replace_existing, import_body, import_dataset,
}

-- The transaction has replaced the dataset by the one it returns.
abbrev pub Imported : Pred → Mapping → Input → List Dataset → Dataset → Pred
Imported F mapping input before row d m =
    F d m
    × (d.datasets ≡ replaced mapping before ++ (row ∷ []))
    × (row ≡ new_row mapping (next_id (replaced mapping before)) input.records)
    × (input.broken ≡ false)
    × (is_nothing input.records ≡ false)

module _ (F : Pred) (free : IsDatasetFree F) (e : Engine) (mapping : Mapping) (input : Input) where
  replace_lem :
      (before : List Dataset)
      → Triple
          (λ d m. F d m × (d.datasets ≡ before))
          (replace_existing e mapping)
          (λ _ d m. F d m × (d.datasets ≡ replaced mapping before))
          F
  unfolding replace_existing
  replace_lem before =
      Triple-if mapping.replace_existing
        (λ on.
          Triple-execute e _ (λ d m p. (free.keeps d m _ p.0, rw (on, p.1) refl)) (λ d m p. p.0))
        (λ off. Triple-pure tt (λ d m p. (p.0, rw off p.1)))

  rows_lem :
      (kept : List Dataset) (id : ℕ)
      → AllBelow id kept
      → Triple
          (λ d m. F d m × (d.datasets ≡ kept))
          (import_rows e mapping input id)
          (λ row d m.
            F d m
            × (d.datasets ≡ kept ++ (row ∷ []))
            × (row ≡ new_row mapping id input.records)
            × (input.broken ≡ false)
            × (is_nothing input.records ≡ false))
          F
  unfolding import_rows Partial
  rows_lem kept id below =
      Triple-bind {Q = λ _. Waiting [] input.records}
        (Triple-execute e _
          (λ d m p.
            (free.keeps d m _ p.0, [], ap (λ ds. ds ++ (new_row mapping id [] ∷ [])) p.1, refl))
          (λ d m p. p.0))
        (λ _.
          Triple-bind {Q = λ pending. Waiting pending []}
            (write_lem F free e mapping id kept below input.records [] 0 input.records)
            (λ pending.
              Triple-bind {Q = λ _ d m. Waiting pending [] d m × (input.broken ≡ false)}
                (Triple-if input.broken (λ _. Triple-fail _ (λ d m p. p.0))
                  (λ whole. Triple-pure tt (λ d m p. (p, whole))))
                (λ _. Triple-given (λ whole.
                  Triple-bind
                    {Q = λ _ d m. Waiting pending [] d m × (is_nothing input.records ≡ false)}
                    (Triple-if (is_nothing input.records) (λ _. Triple-fail _ (λ d m p. p.0))
                      (λ some. Triple-pure tt (λ d m p. (p, some))))
                    (λ _. Triple-given (λ some.
                      Triple-bind {Q = λ _. Waiting [] []}
                        (flush_lem F free e mapping id kept below input.records pending [])
                        (λ _.
                          Triple-bind {Q = λ _. Waiting [] []}
                            (Triple-execute e _ (λ d m p. p) (λ d m p. p.0))
                            (λ _.
                              Triple-bind {Q = λ _. Waiting [] []}
                                (Triple-execute e _ (λ d m p. p) (λ d m p. p.0))
                                (λ _.
                                  Triple-pure _
                                    (λ d m p. (p.0, done d p.1 p.2 p.3, refl, whole, some)))))))))))
    where
      Waiting : List Text → List Text → Pred
      Waiting = Partial F free e mapping id kept below input.records

      done :
          (d : Db) (events : List Text)
          → d.datasets ≡ kept ++ (new_row mapping id events ∷ [])
          → events ++ [] ≡ input.records
          → d.datasets ≡ kept ++ (new_row mapping id input.records ∷ [])
      done d events h all =
          h ∙ ap (λ r. kept ++ (new_row mapping id r ∷ [])) (sym (append-nil events) ∙ all)

  body_lem :
      (before : List Dataset)
      → Triple
          (λ d m. F d m × (d.datasets ≡ before))
          (import_body e mapping input)
          (Imported F mapping input before)
          F
  unfolding import_body
  body_lem before =
      Triple-bind {Q = λ _ d m. F d m × (d.datasets ≡ there)} (replace_lem before) (λ _.
        Triple-bind {Q = λ id d m. (F d m × (d.datasets ≡ there)) × (id ≡ next_id there)}
          (Triple-report _ (λ d m p. (p, ap next_id p.1)))
          (λ id. Triple-given (λ new.
            Triple-weaken (rows_lem there id (rw new (next_id-AllBelow there))) (λ d m p. p)
              (λ row d m q.
                (q.0, q.1, q.2 ∙ ap (λ i. new_row mapping i input.records) new, q.3, q.4))
              (λ d m q. q))))
    where
      there : List Dataset
      there = replaced mapping before

-- A statement that an import's note on the full-text index does not change.
pub record IsMarkFree (F : Pred) : Type 0 where
  pub marks :
      (d : Db) (m : Memory)
      → F d m
      → F d (
          if m.full_text_index
          then record m { full_text_ready = false; full_text_dirty = true }
          else m)

IsDatasetFree-staying :
    (F : Pred) (kept : Memory) → IsDatasetFree F → IsDatasetFree (Staying F kept)
IsDatasetFree-staying F kept free = record {
  keeps = λ d m datasets p. (free.keeps d m datasets p.0, p.1);
}

-- The same for any statement that the import does not affect.
pub import_dataset_lem :
    (F : Pred)
    → IsDatasetFree F
    → IsMarkFree F
    → (e : Engine) (l : Letters) (mapping : Mapping) (input : Input) (before : List Dataset)
    → Triple
        (λ d m. F d m × (d.datasets ≡ before))
        (import_dataset e l mapping input)
        (λ row d m.
          Imported F mapping input before row d m
          × (valid_mapping l mapping && input.limited && input.opened ≡ true))
        (λ d m. F d m × (d.datasets ≡ before))
unfolding import_dataset mark_full_text_index_dirty
import_dataset_lem F free mark e l mapping input before =
    Triple-bind {Q = λ _ d m. Old d m × Good}
      (Triple-if (valid_mapping l mapping && input.limited && input.opened)
        (λ good. Triple-pure tt (λ d m p. (p, good))) (λ _. Triple-fail _ (λ d m p. p)))
      (λ _. Triple-given (λ good.
        Triple-bind {Q = λ _. Old} (Triple-modify _ (λ d m p. (mark.marks d m p.0, p.1))) (λ _.
          Triple-bind {Q = λ _. Old}
            (Triple-query {A = Unit {0}} e (λ _. tt) (λ d m p. p) (λ d m p. p))
            (λ _. Triple-bind {Q = λ _. Old} (Triple-execute e _ (λ d m p. p) (λ d m p. p)) (λ _.
              Triple-finally (moved good) (λ row. Triple-execute e _ (λ d m p. p) (λ d m p. p))
                (Triple-execute e _ (λ d m p. p) (λ d m p. p)))))))
  where
    Good : Type 0
    Good = valid_mapping l mapping && input.limited && input.opened ≡ true

    Old : Pred
    Old d m = F d m × (d.datasets ≡ before)

    moved :
        Good
        → Triple Old
            (transaction e (import_body e mapping input))
            (λ row d m. Imported F mapping input before row d m × Good)
            Old
    moved good =
        Triple-transaction e
          (λ old kept p.
            Triple-weaken
              (body_lem (Staying F kept) (IsDatasetFree-staying F kept free) e mapping input before)
              (λ d m h. (rw (h.0, h.1) (p.0, refl), rw h.0 p.1))
              (λ row d m q. (((q.0.0, q.1, q.2, q.3, q.4), good), q.0.1)) (λ d m q. q.1))
          (λ d m p. p)

-- The database but for the datasets.
abbrev pub Besides : World → Pred
Besides w d m = Path Db (record d { datasets = [] }) (record w.db { datasets = [] })

-- An import that succeeds leaves the other datasets and behind them a new one, with the mapping's
-- name and signature, the next id and all records in their order; and then the mapping is valid,
-- there is a record, and no error ended them. An import that fails leaves the datasets as they were.
-- Neither changes the rest of the database.
pub import_dataset-Imported :
    (e : Engine) (l : Letters) (mapping : Mapping) (input : Input) (w : World)
    → Outcome
        (λ row d m.
          Imported (Besides w) mapping input w.db.datasets row d m
          × (valid_mapping l mapping && input.limited && input.opened ≡ true))
        (λ d m. d ≡ w.db)
        (import_dataset e l mapping input w)
import_dataset-Imported e l mapping input w =
    (Triple-weaken
        (import_dataset_lem (Besides w) (record { keeps = λ d m datasets h. h })
          (record { marks = λ d m h. h }) e l mapping input w.db.datasets)
        (λ d m p. p) (λ row d m q. q) (λ d m q. whole d q.0 q.1)).holds
      w (refl, refl)
  where
    whole :
        (d : Db)
        → Path Db (record d { datasets = [] }) (record w.db { datasets = [] })
        → d.datasets ≡ w.db.datasets
        → d ≡ w.db
    whole d h k = ap₂ (λ (x : Db) (y : List Dataset). record x { datasets = y }) h k
