-- ===== src/Store/Datasets/Kept.antt =====
-- What the operations on the rows of datasets leave as it is.
use striem.Common.{List, [], ◌∷◌}
use striem.Common.Text.{Text}
use striem.Store.Defs.{Dataset, Db, Memory, Engine}
use striem.Store.Rules.{Pred, Triple, Triple-execute, Triple-fail}
use striem.Store.Datasets.{delete_datasets_except, keep_only}

-- A statement that does not read the datasets.
pub record IsDatasetFree (F : Pred) : Type 0 where
  pub keeps :
      (d : Db) (m : Memory) (datasets : List Dataset)
      → F d m
      → F (record d { datasets = datasets }) m

pub delete_datasets_except-keeps :
    (F : Pred)
    → IsDatasetFree F
    → (e : Engine) (names : List Text) → Triple F (delete_datasets_except e names) (λ _. F) F
unfolding delete_datasets_except
delete_datasets_except-keeps F free e [] = Triple-fail _ (λ d m p. p)
delete_datasets_except-keeps F free e (name ∷ names) =
    Triple-execute e _ (λ d m p. free.keeps d m (keep_only (name ∷ names) d.datasets) p)
      (λ d m p. p)
