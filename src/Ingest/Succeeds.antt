-- ===== src/Ingest/Succeeds.antt =====
-- When an import succeeds.
use striem.Common.{
  ℕ, suc, ◌≡◌, refl, Bool, true, false, ◌&&◌, List, [], ◌∷◌, ◌++◌, ◌==◌, if◌then◌else◌,
}
use striem.Common.Text.{Text}
use striem.Common.Result.{Result, ok, err}
use striem.Store.Defs.{World, StoreError, Dataset, Db, Engine, pure, fail, execute, rejected_input}
use striem.Store.Rules.{
  Pred, Outcome, Triple, Triple-bind, Triple-pure, Triple-modify, Triple-report, Triple-if,
  Triple-elim, Triple-weaken,
}
use striem.Store.Deferred.{Triple-finally}
use striem.Store.Succeeding.{Never, Triple-works, Triple-answers, Triple-commits}
use striem.Store.FullText.{mark_full_text_index_dirty}
use striem.Ingest.Import.{
  Mapping, Input, Letters, valid_mapping, next_id, insert_rows, flush_events, write_events,
  is_nothing, import_rows, replace_existing, import_body, import_dataset,
}

Any : Pred
Any d m = Unit {0}

module _ (e : Engine) (works : (n : ℕ) → e.fails n ≡ false) where
  runs : (change : Db → Db) → Triple Any (execute e change) (λ _. Any) Never
  unfolding Any
  runs change = Triple-works e change works (λ d m p. tt)

  marks : Triple Any mark_full_text_index_dirty (λ _. Any) Never
  unfolding mark_full_text_index_dirty Any
  marks = Triple-modify _ (λ d m p. tt)

  flush-Never : (id : ℕ) (rows : List Text) → Triple Any (flush_events e id rows) (λ _. Any) Never
  unfolding flush_events insert_rows Any
  flush-Never id [] = Triple-pure tt (λ d m p. tt)
  flush-Never id (row ∷ rows) = runs _

  write-Never :
      (id : ℕ) (pending : List Text) (count : ℕ) (rows : List Text)
      → Triple Any (write_events e id pending count rows) (λ _. Any) Never
  unfolding write_events Any
  write-Never id pending count [] = Triple-pure pending (λ d m p. tt)
  write-Never id pending count (row ∷ rows) =
      Triple-elim (suc count == 128)
        (Triple-bind {Q = λ _. Any} (flush-Never id (pending ++ (row ∷ [])))
          (λ _. write-Never id [] 0 rows))
        (write-Never id (pending ++ (row ∷ [])) (suc count) rows)

  module _ (mapping : Mapping) (input : Input) (whole : input.broken ≡ false)
      (some : is_nothing input.records ≡ false) where
    rows-Never : (id : ℕ) → Triple Any (import_rows e mapping input id) (λ _. Any) Never
    unfolding import_rows Any
    rows-Never id = Triple-bind {Q = λ _. Any} (runs _) (λ _.
        Triple-bind {Q = λ _. Any} (write-Never id [] 0 input.records) (λ pending.
          Triple-bind {Q = λ _. Any} (passes input.broken whole) (λ _.
            Triple-bind {Q = λ _. Any} (passes (is_nothing input.records) some) (λ _.
              Triple-bind {Q = λ _. Any} (flush-Never id pending) (λ _.
                Triple-bind {Q = λ _. Any} (runs _)
                  (λ _. Triple-bind {Q = λ _. Any} (runs _) (λ _. Triple-pure _ (λ d m p. tt))))))))
      where
        passes :
            (b : Bool)
            → b ≡ false
            → Triple Any (if b then fail rejected_input else pure tt) (λ _. Any) Never
        passes true h = cc
        passes false h = Triple-pure tt (λ d m p. p)

    body-Never : Triple Any (import_body e mapping input) (λ _. Any) Never
    unfolding import_body replace_existing Any
    body-Never =
        Triple-bind {Q = λ _. Any}
          (Triple-if mapping.replace_existing (λ _. runs _) (λ _. Triple-pure tt (λ d m p. tt)))
          (λ _.
            Triple-bind {Q = λ _. Any} (Triple-report (λ db. next_id db.datasets) (λ d m p. tt))
              rows-Never)

    import-Never :
        (l : Letters)
        → valid_mapping l mapping && input.limited && input.opened ≡ true
        → Triple Any (import_dataset e l mapping input) (λ _. Any) Never
    unfolding import_dataset Any
    import-Never l valid =
        Triple-bind {Q = λ _. Any}
          (accepted (valid_mapping l mapping && input.limited && input.opened) valid)
          (λ _. Triple-bind {Q = λ _. Any} marks (λ _.
            Triple-bind {Q = λ _. Any}
              (Triple-answers {A = Unit {0}} e (λ _. tt) works (λ d m p. tt))
              (λ _. Triple-bind {Q = λ _. Any} (runs (λ db. db)) (λ _.
                Triple-finally (Triple-commits e works body-Never)
                  (λ row.
                    Triple-weaken (runs (λ db. db)) (λ d m p. p) (λ _ d m p. p) (λ d m n. absurd n))
                  (record { holds = λ w n. absurd n })))))
      where
        accepted :
            (b : Bool)
            → b ≡ true
            → Triple Any (if b then pure tt else fail rejected_input) (λ _. Any) Never
        accepted true h = Triple-pure tt (λ d m p. p)
        accepted false h = cc

-- Where no statement is refused, an import with a valid mapping and an input that opens and has
-- records that no error ends succeeds, and returns the new row.
pub import_dataset-succeeds :
    (e : Engine) (l : Letters) (mapping : Mapping) (input : Input) (w : World)
    → ((n : ℕ) → e.fails n ≡ false)
    → valid_mapping l mapping && input.limited && input.opened ≡ true
    → input.broken ≡ false
    → is_nothing input.records ≡ false
    → (row : Dataset) × ((import_dataset e l mapping input w).1 ≡ ok row)
unfolding Any
import_dataset-succeeds e l mapping input w works valid whole some =
    row_of (import_dataset e l mapping input w)
      ((import-Never e works mapping input whole some l valid).holds w tt)
  where
    row_of :
        (r : World × Result StoreError Dataset)
        → Outcome (λ _. Any) Never r
        → (row : Dataset) × (r.1 ≡ ok row)
    row_of (w, ok row) h = (row, refl)
    row_of (w, err e) h = absurd h
