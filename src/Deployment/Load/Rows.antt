-- ===== src/Deployment/Load/Rows.antt =====
-- The rows that a run of the loader looks for, keeps and replaces.
use striem.Common.{
  ℕ, ◌≡◌, refl, sym, ◌∙◌, Bool, true, false, ◌&&◌, ◌||◌, List, [], ◌∷◌, ◌++◌, arith, if◌then◌else◌,
  Bool-cases, inl, inr, Option, none, some, is_some, ◌⊎◌,
}
use mathlib.Core.Path.{subst}
use striem.Common.Text.{Text, same, same-eq, same_refl, same_comm, has_text}
use striem.Store.Defs.{Dataset}
use striem.Store.Datasets.{order_datasets, insert_dataset, without, keep_only}
use striem.Ingest.Import.{new_row}
use striem.Deployment.Prepare.{Prepared, names_of}
use striem.Deployment.Load.{existing_named, with_signature, unchanged, mapping_of}

-- Whether a row with this name and signature is there.
unfoldable pub has_row : Text → Text → List Dataset → Bool
has_row name signature [] = false
has_row name signature (d ∷ ds) =
    (same d.name name && same d.signature signature) || has_row name signature ds

abbrev pub IsPresent : List Dataset → Prepared → Type 0
IsPresent ds p = has_row p.configured.name p.signature ds ≡ true

abbrev pub ArePresent : List Dataset → List Prepared → Type 0
ArePresent ds [] = Unit {0}
ArePresent ds (p ∷ ps) = IsPresent ds p × ArePresent ds ps

-- Every row has one of the names.
abbrev pub AreNamed : List Text → List Dataset → Type 0
AreNamed names [] = Unit {0}
AreNamed names (d ∷ ds) = (has_text d.name names ≡ true) × AreNamed names ds

has_row-append :
    (name signature : Text) (ds es : List Dataset)
    → has_row name signature (ds ++ es) ≡ has_row name signature ds || has_row name signature es
unfolding has_row
has_row-append name signature [] es = refl
has_row-append name signature (d ∷ ds) es = ground (arith, has_row-append name signature ds es)

has_row-without :
    (name signature other : Text) (ds : List Dataset)
    → same name other ≡ false
    → has_row name signature (without (λ d. same d.name other) ds) ≡ has_row name signature ds
unfolding has_row without
has_row-without name signature other [] ne = refl
has_row-without name signature other (d ∷ ds) ne = elim (Bool-cases (same d.name other)) [
  | inl gone ↦ ground (arith, gone, differs gone, has_row-without name signature other ds ne)
  | inr stays ↦ ground (arith, stays, has_row-without name signature other ds ne)
]
  where
    differs : same d.name other ≡ true → same d.name name ≡ false
    differs gone =
        subst (λ x. same x name ≡ false) (sym (same-eq d.name other gone))
          (same_comm other name ∙ ne)

-- The import of one dataset leaves the rows of other names and has a row for itself.
pub imported-IsPresent :
    (p : Prepared) (id : ℕ) (events : List Text) (ds : List Dataset)
    → IsPresent
        (without (λ d. same d.name p.configured.name) ds ++ (new_row (mapping_of p) id events ∷ []))
        p
unfolding has_row
imported-IsPresent p id events ds = ground (
  arith,
  has_row-append p.configured.name p.signature (without (λ d. same d.name p.configured.name) ds)
      (new_row (mapping_of p) id events ∷ []),
  same_refl p.configured.name,
  same_refl p.signature,
)

pub others-IsPresent :
    (k p : Prepared) (id : ℕ) (events : List Text) (ds : List Dataset)
    → same k.configured.name p.configured.name ≡ false
    → IsPresent ds k
    → IsPresent
        (without (λ d. same d.name p.configured.name) ds ++ (new_row (mapping_of p) id events ∷ []))
        k
others-IsPresent k p id events ds ne h = ground (
  arith,
  has_row-append k.configured.name k.signature (without (λ d. same d.name p.configured.name) ds)
      (new_row (mapping_of p) id events ∷ []),
  has_row-without k.configured.name k.signature p.configured.name ds ne,
  h,
)

keep_only-row :
    (name signature : Text) (names : List Text) (ds : List Dataset)
    → has_text name names ≡ true
    → has_row name signature (keep_only names ds) ≡ has_row name signature ds
unfolding keep_only has_row without
keep_only-row name signature names [] h = refl
keep_only-row name signature names (d ∷ ds) h = elim (Bool-cases (has_text d.name names)) [
  | inl stays ↦ ground (arith, stays, keep_only-row name signature names ds h)
  | inr gone ↦ ground (arith, gone, differs gone, keep_only-row name signature names ds h)
]
  where
    differs : has_text d.name names ≡ false → same d.name name ≡ false
    differs gone = elim (Bool-cases (same d.name name)) [
      | inl eq ↦ cc (subst (λ x. has_text x names ≡ true) (sym (same-eq d.name name eq)) h, gone)
      | inr ne ↦ ne
    ]

pub keep_only-ArePresent :
    (names : List Text) (ds : List Dataset) (ps : List Prepared)
    → ((t : Text) → has_text t (names_of ps) ≡ true → has_text t names ≡ true)
    → ArePresent ds ps
    → ArePresent (keep_only names ds) ps
unfolding has_text
keep_only-ArePresent names ds [] i h = tt
keep_only-ArePresent names ds (p ∷ ps) i h = (
  keep_only-row p.configured.name p.signature names ds
        (i p.configured.name (ground (arith, same_refl p.configured.name)))
      ∙ h.0,
  keep_only-ArePresent names ds ps (λ t ht. i t (ground (arith, ht))) h.1,
)

pub keep_only-AreNamed :
    (names : List Text) (ds : List Dataset) → AreNamed names (keep_only names ds)
unfolding keep_only without
keep_only-AreNamed names [] = tt
keep_only-AreNamed names (d ∷ ds) = elim (Bool-cases (has_text d.name names)) [
  | inl stays ↦ rw stays (stays, keep_only-AreNamed names ds)
  | inr gone ↦ rw gone (keep_only-AreNamed names ds)
]

-- The row that stands for a name is a later one or this one.
chosen :
    (signature : Text) (d : Dataset) (later : Option Dataset) (named : Bool)
    → is_some (
        with_signature signature
          (if is_some later then later else (if named then some d else none)))
      ≡ true
    → (is_some (with_signature signature later) ≡ true)
      ⊎ ((named ≡ true) × (same d.signature signature ≡ true))
chosen signature d (some l) named h = inl h
chosen signature d none true h = inr (refl, ground (arith, h))
chosen signature d none false h = cc

with_signature-row :
    (name signature : Text) (ds : List Dataset)
    → is_some (with_signature signature (existing_named name ds)) ≡ true
    → has_row name signature ds ≡ true
unfolding existing_named has_row
with_signature-row name signature [] h = cc
with_signature-row name signature (d ∷ ds) h =
    elim (chosen signature d (existing_named name ds) (same d.name name) h) [
      | inl later ↦ ground (arith, with_signature-row name signature ds later)
      | inr (named, signed) ↦ ground (arith, named, signed)
    ]

has_row-insert :
    (name signature : Text) (d : Dataset) (ds : List Dataset)
    → has_row name signature (insert_dataset d ds) ≡ has_row name signature (d ∷ ds)
unfolding insert_dataset has_row
has_row-insert name signature d [] = refl
has_row-insert name signature d (o ∷ ds) = ground (arith, has_row-insert name signature d ds)

has_row-order :
    (name signature : Text) (ds : List Dataset)
    → has_row name signature (order_datasets ds) ≡ has_row name signature ds
unfolding order_datasets has_row
has_row-order name signature [] = refl
has_row-order name signature (d ∷ ds) =
    ground
      (arith, has_row-insert name signature d (order_datasets ds), has_row-order name signature ds)

-- A dataset that has not changed is there.
pub unchanged-IsPresent :
    (rows : List Dataset) (p : Prepared)
    → is_some (unchanged (order_datasets rows) p) ≡ true
    → IsPresent rows p
unfolding unchanged
unchanged-IsPresent rows p h =
    sym (has_row-order p.configured.name p.signature rows)
    ∙ with_signature-row p.configured.name p.signature (order_datasets rows) h
