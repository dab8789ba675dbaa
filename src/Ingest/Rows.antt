-- ===== src/Ingest/Rows.antt =====
-- The rows of events that an import writes, in the records' order.
use striem.Common.{ℕ, suc, ◌≡◌, ap, ◌∙◌, ◌<◌, ◌≤◌, List, [], ◌∷◌, ◌++◌, ◌==◌, arith}
use mathlib.Core.List.{append_assoc}
use striem.Common.Text.{Text}
use striem.Store.Defs.{Dataset, Db, Memory, Engine}
use striem.Store.Rules.{
  Pred, Triple, Triple-bind, Triple-execute, Triple-weaken, Triple-pure, Triple-elim,
}
use striem.Store.Datasets.Kept.{IsDatasetFree}
use striem.Ingest.Import.{
  Mapping, next_id, add_events, insert_rows, flush_events, write_events, new_row,
}

abbrev pub AllBelow : ℕ → List Dataset → Type 0
AllBelow n [] = Unit {0}
AllBelow n (d ∷ ds) = (d.id < n) × AllBelow n ds

AllBelow-mono : (n k : ℕ) (ds : List Dataset) → n ≤ k → AllBelow n ds → AllBelow k ds
AllBelow-mono n k [] le h = tt
AllBelow-mono n k (d ∷ ds) le h = (omega (arith, h.0, le), AllBelow-mono n k ds le h.1)

pub next_id-AllBelow : (ds : List Dataset) → AllBelow (next_id ds) ds
unfolding next_id
next_id-AllBelow [] = tt
next_id-AllBelow (d ∷ ds) =
    (omega arith, AllBelow-mono (next_id ds) _ ds (omega arith) (next_id-AllBelow ds))

-- The events of a row whose id is new go to that row alone.
add_events-new :
    (mapping : Mapping) (id : ℕ) (events rows : List Text) (kept : List Dataset)
    → AllBelow id kept
    → add_events id rows (kept ++ (new_row mapping id events ∷ []))
      ≡ kept ++ (new_row mapping id (events ++ rows) ∷ [])
unfolding add_events
add_events-new mapping id events rows [] h = ground arith
add_events-new mapping id events rows (d ∷ kept) h =
    ground (arith, h.0, add_events-new mapping id events rows kept h.1)

module _ (F : Pred) (free : IsDatasetFree F) (e : Engine) (mapping : Mapping) (id : ℕ)
    (kept : List Dataset) (below : AllBelow id kept) (all : List Text) where
  -- The new row is the last, and with its events, those that wait and the rest there are all.
  unfoldable pub Partial : List Text → List Text → Pred
  Partial pending rest d m =
      F d m
      × (events : List Text) × (d.datasets ≡ kept ++ (new_row mapping id events ∷ []))
      × (events ++ (pending ++ rest) ≡ all)

  pub flush_lem :
      (pending rest : List Text)
      → Triple (Partial pending rest) (flush_events e id pending) (λ _. Partial [] rest) F
  unfolding Partial flush_events insert_rows
  flush_lem [] rest = Triple-pure tt (λ d m p. p)
  flush_lem (row ∷ rows) rest =
      Triple-execute e _
        (λ d m p. (
          free.keeps d m _ p.0,
          p.1 ++ (row ∷ rows),
          ap (add_events id (row ∷ rows)) p.2
              ∙ add_events-new mapping id p.1 (row ∷ rows) kept below,
          append_assoc p.1 (row ∷ rows) rest ∙ p.3,
        ))
        (λ d m p. p.0)

  pub write_lem :
      (pending : List Text) (count : ℕ) (rows : List Text)
      → Triple
          (Partial pending rows)
          (write_events e id pending count rows)
          (λ pending. Partial pending [])
          F
  unfolding write_events Partial
  write_lem pending count [] = Triple-pure pending (λ d m p. p)
  write_lem pending count (row ∷ rows) =
      Triple-elim (suc count == 128)
        (Triple-bind {Q = λ _. Partial [] rows}
          (Triple-weaken (flush_lem (pending ++ (row ∷ [])) rows) moved (λ _ d m q. q) (λ d m q. q))
          (λ _. write_lem [] 0 rows))
        (Triple-weaken (write_lem (pending ++ (row ∷ [])) (suc count) rows) moved (λ _ d m q. q)
          (λ d m q. q))
    where
      moved :
          (d : Db) (m : Memory)
          → Partial pending (row ∷ rows) d m
          → Partial (pending ++ (row ∷ [])) rows d m
      moved d m p = (p.0, p.1, p.2, ap (λ r. p.1 ++ r) (append_assoc pending (row ∷ []) rows) ∙ p.3)
