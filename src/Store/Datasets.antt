-- ===== src/Store/Datasets.antt =====
-- The rows of the tables datasets and workspace_metadata, in internal/database/database.go.
pub mod Kept
use striem.Common.{ℕ, Bool, true, false, not, List, [], ◌∷◌, if◌then◌else◌, leb, ◌==◌}
use striem.Common.Text.{Text, has_text}
use striem.Store.Defs.{
  Dataset, Engine, nothing_retained, Action, ◌>>=◌, ◌>>◌, report, pure, fail, execute, query,
}

unfoldable pub set_challenge_name : Engine → Text → Action (Unit {0})
set_challenge_name e name = execute e (λ db. record db { challenge_name = name })

pub challenge_name : Engine → Action Text
challenge_name e = query e (λ db. db.challenge_name)

-- `ORDER BY id DESC`.
unfoldable pub insert_dataset : Dataset → List Dataset → List Dataset
insert_dataset d [] = d ∷ []
insert_dataset d (other ∷ others) =
    let rest = insert_dataset d others in
    if leb other.id d.id then d ∷ other ∷ others else other ∷ rest

unfoldable pub order_datasets : List Dataset → List Dataset
unfolding insert_dataset
order_datasets [] = []
order_datasets (d ∷ ds) = insert_dataset d (order_datasets ds)

unfoldable pub list_datasets : Engine → Action (List Dataset)
unfolding order_datasets
list_datasets e = query e (λ db. order_datasets db.datasets)

-- `DELETE` with its condition.
unfoldable pub without : (Dataset → Bool) → List Dataset → List Dataset
without condition [] = []
without condition (d ∷ ds) =
    let rest = without condition ds in if condition d then rest else d ∷ rest

-- Whether a row has this id.
has_id : ℕ → List Dataset → Bool
has_id id [] = false
has_id id (d ∷ ds) = if d.id == id then true else has_id id ds

pub delete_dataset : Engine → ℕ → Action Bool
unfolding without has_id
delete_dataset e id = do
  found ← report (λ db. has_id id db.datasets)
  execute e (λ db. record db { datasets = without (λ d. d.id == id) db.datasets })
  pure found

unfoldable pub keep_only : List Text → List Dataset → List Dataset
unfolding without
keep_only names ds = without (λ d. not (has_text d.name names)) ds

unfoldable pub delete_datasets_except : Engine → List Text → Action (Unit {0})
unfolding keep_only
delete_datasets_except e [] = fail nothing_retained
delete_datasets_except e (name ∷ names) =
    execute e (λ db. record db { datasets = keep_only (name ∷ names) db.datasets })
