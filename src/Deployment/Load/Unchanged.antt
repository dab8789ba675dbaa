-- ===== src/Deployment/Load/Unchanged.antt =====
-- A run of the loader in which no dataset has changed.
use striem.Common.{
  ==_iff, ◌≤◌, suc, ◌≡◌, refl, ap, ◌∙◌, true, false, ◌||◌, List, [], ◌∷◌, length, arith, Bool-cases,
  inl, inr, Option, none, some, is_some,
}
use striem.Common.Text.{Text, same, same-eq, same_refl, same_comm, has_text}
use striem.Common.Distinct.{IsDistinct, covered, IsIncluded}
use striem.Store.Defs.{Dataset}
use striem.Store.Datasets.{order_datasets, insert_dataset, without, keep_only}
use striem.Deployment.Prepare.{Prepared}
use striem.Deployment.Load.{
  existing_named, with_signature, unchanged, all_unchanged, storage_changed, names_of,
}

abbrev pub dataset_names : List Dataset → List Text
dataset_names [] = []
dataset_names (d ∷ ds) = d.name ∷ dataset_names ds

-- The order of the rows keeps their number and names.
length-insert_dataset :
    (d : Dataset) (ds : List Dataset) → length (insert_dataset d ds) ≡ suc (length ds)
unfolding insert_dataset
length-insert_dataset d [] = refl
length-insert_dataset d (o ∷ ds) = ground (arith, length-insert_dataset d ds)

pub length-order_datasets : (ds : List Dataset) → length (order_datasets ds) ≡ length ds
unfolding order_datasets
length-order_datasets [] = refl
length-order_datasets (d ∷ ds) =
    length-insert_dataset d (order_datasets ds) ∙ ap suc (length-order_datasets ds)

names-insert_dataset :
    (s : Text) (d : Dataset) (ds : List Dataset)
    → has_text s (dataset_names (insert_dataset d ds))
      ≡ same s d.name || has_text s (dataset_names ds)
unfolding insert_dataset has_text
names-insert_dataset s d [] = refl
names-insert_dataset s d (o ∷ ds) = ground (arith, names-insert_dataset s d ds)

pub names-order_datasets :
    (s : Text) (ds : List Dataset)
    → has_text s (dataset_names (order_datasets ds)) ≡ has_text s (dataset_names ds)
unfolding order_datasets has_text
names-order_datasets s [] = refl
names-order_datasets s (d ∷ ds) =
    ground (arith, names-insert_dataset s d (order_datasets ds), names-order_datasets s ds)

existing_named-names :
    (name : Text) (ds : List Dataset)
    → is_some (existing_named name ds) ≡ true
    → has_text name (dataset_names ds) ≡ true
unfolding existing_named has_text
existing_named-names name [] h = cc
existing_named-names name (d ∷ ds) h = elim (Bool-cases (is_some (existing_named name ds))) [
  | inl later ↦ ground (arith, existing_named-names name ds later)
  | inr last ↦ elim (Bool-cases (same d.name name)) [
    | inl here ↦ ground (arith, here, same_comm name d.name)
    | inr other ↦ cc (h, absent last other)
  ]
]
  where
    absent :
        is_some (existing_named name ds) ≡ false
        → same d.name name ≡ false
        → is_some (existing_named name (d ∷ ds)) ≡ false
    absent last other = rw (last, other) refl

length-dataset_names : (ds : List Dataset) → length (dataset_names ds) ≡ length ds
length-dataset_names [] = refl
length-dataset_names (d ∷ ds) = ap suc (length-dataset_names ds)

length-names_of : (ps : List Prepared) → length (names_of ps) ≡ length ps
length-names_of [] = refl
length-names_of (p ∷ ps) = ap suc (length-names_of ps)

with_signature-some :
    (signature : Text) (o : Option Dataset)
    → is_some (with_signature signature o) ≡ true
    → is_some o ≡ true
with_signature-some signature none h = h
with_signature-some signature (some d) h = refl

IsIncluded-of :
    (existing : List Dataset) (ps : List Prepared)
    → all_unchanged existing ps ≡ true
    → IsIncluded (names_of ps) (dataset_names existing)
unfolding all_unchanged unchanged has_text
IsIncluded-of existing [] h t ht = cc
IsIncluded-of existing (p ∷ ps) h t ht = elim (Bool-cases (same t p.configured.name)) [
  | inl here ↦ rw (same-eq t p.configured.name here) (
      existing_named-names p.configured.name existing (
        with_signature-some p.signature (existing_named p.configured.name existing)
          (ground (arith, h))))
  | inr there ↦ IsIncluded-of existing ps (ground (arith, h)) t (ground (arith, ht, there))
]

-- Rows whose names are all kept.
keep_only-all :
    (names : List Text) (ds : List Dataset)
    → IsIncluded (dataset_names ds) names
    → keep_only names ds ≡ ds
unfolding keep_only without has_text
keep_only-all names [] h = refl
keep_only-all names (d ∷ ds) h = ground (
  arith,
  h d.name (ground (arith, same_refl d.name)),
  keep_only-all names ds (λ t ht. h t (ground (arith, ht))),
)

-- Where the prepared datasets have distinct names, are as many as the rows, and each has a row with
-- its name and signature, keeping the rows of those names keeps all rows.
pub keep_only-unchanged :
    (rows : List Dataset) (ps : List Prepared)
    → IsDistinct (names_of ps)
    → storage_changed (order_datasets rows) ps ≡ false
    → keep_only (names_of ps) rows ≡ rows
unfolding storage_changed
keep_only-unchanged rows ps distinct h = keep_only-all (names_of ps) rows (λ t ht.
    covered (names_of ps) (dataset_names (order_datasets rows)) distinct
      (IsIncluded-of (order_datasets rows) ps (ground (arith, h))) as_many t
      (names-order_datasets t rows ∙ ht))
  where
    as_many : length (dataset_names (order_datasets rows)) ≤ length (names_of ps)
    as_many = omega (arith, length-dataset_names (order_datasets rows), length-names_of ps, equal)
      where
        equal : length (order_datasets rows) ≡ length ps
        equal = (==_iff (length (order_datasets rows)) (length ps)).0 (ground (arith, h))
