-- ===== src/Deployment/Prepare/Checked.antt =====
-- What the loader knows of the datasets before it touches the store.
use striem.Common.{◌≡◌, refl, ap, ◌∙◌, true, false, not, List, [], ◌∷◌, Option, none, some, arith}
use mathlib.Core.Path.{subst}
use striem.Common.Text.{Text, same_comm, has_text, trim_space}
use striem.Common.Result.{ok, ok_parts, fail_if_parts, ok-injective}
use striem.Common.Distinct.{IsDistinct}
use striem.Store.FullText.{is_empty}
use striem.Ingest.Import.{Letters}
use striem.Deployment.Prepare.{
  ConfiguredDataset, Prepared, Files, Info, Unprepared, names_of, found, local_path, path_of,
  prepare_file, dataset_format, prepare_all, other_casing, all_valid, no_stat, unsigned, blank_name,
  duplicate_name, blank_table, inconsistent_casing, blank_path, bad_indexed_path, not_regular,
  manifest_itself, escapes_base,
}

-- A regular file below the directory of the manifest that is not the manifest, with its signature.
pub record IsFile (f : Files) (c : ConfiguredDataset) (p : Prepared) : Type 0 where
  pub same_entry : p.configured ≡ c
  pub info : Info
  pub relative : f.rel f.base (path_of f c) ≡ some p.path
  pub local : f.is_local p.path ≡ true
  pub there : f.stat p.path ≡ some info
  pub regular : info.regular ≡ true
  pub not_manifest : info.is_manifest ≡ false
  pub signed : f.sign c (path_of f c) info ≡ some p.signature

found_parts : {A : Type 0} (e : Unprepared) (o : Option A) {a : A} → found e o ≡ ok a → o ≡ some a
found_parts e none h = cc
found_parts e (some b) h = ap some (ok-injective h)

local_path_lem :
    (f : Files) (path : Text) {relative : Text}
    → local_path f path ≡ ok relative
    → (f.rel f.base path ≡ some relative) × (f.is_local relative ≡ true)
unfolding local_path
local_path_lem f path {relative} h =
    let (r, hr, h1) = ok_parts _ (found escapes_base (f.rel f.base path)) h in
    let (b, h2) = fail_if_parts (not (f.is_local r)) escapes_base (ok r) h1 in
    let same_path = ok-injective h2 in
    (
      found_parts escapes_base (f.rel f.base path) hr ∙ ap some same_path,
      subst (λ x. f.is_local x ≡ true) same_path (ground (arith, b)),
    )

prepare_file_lem :
    (l : Letters) (f : Files) (c : ConfiguredDataset) {p : Prepared}
    → prepare_file l f c ≡ ok p
    → IsFile f c p
unfolding prepare_file
prepare_file_lem l f c {p} h =
    let (r, h1, k1) = ok_parts _ (local_path f (path_of f c)) h in
    let (format, h2, k2) = ok_parts _ (dataset_format l f (path_of f c) c.format) k1 in
    let (info, h3, k3) = ok_parts _ (found no_stat (f.stat r)) k2 in
    let (h4, k4) = fail_if_parts (not info.regular) not_regular _ k3 in
    let (h5, k5) = fail_if_parts info.is_manifest manifest_itself _ k4 in
    let (signature, h6, k6) = ok_parts _ (found unsigned (f.sign c (path_of f c) info)) k5 in
    subst (IsFile f c) (ok-injective k6) (record {
      same_entry = refl;
      info = info;
      relative = (local_path_lem f (path_of f c) h1).0;
      local = (local_path_lem f (path_of f c) h1).1;
      there = found_parts no_stat (f.stat r) h3;
      regular = ground (arith, h4);
      not_manifest = h5;
      signed = found_parts unsigned (f.sign c (path_of f c) info) h6;
    })

-- Each prepared dataset is one of the entries, in their order, with its file.
abbrev pub AreFiles : Files → List ConfiguredDataset → List Prepared → Type 0
AreFiles f [] [] = Unit {0}
AreFiles f (c ∷ cs) (p ∷ ps) =
    IsFile f c p × (is_empty (trim_space c.name) ≡ false) × AreFiles f cs ps
AreFiles f _ _ = ⊥

-- None of the texts is in the other list.
abbrev pub AreNew : List Text → List Text → Type 0
AreNew seen [] = Unit {0}
AreNew seen (s ∷ ss) = (has_text s seen ≡ false) × AreNew seen ss

new_parts :
    (s : Text) (seen ss : List Text)
    → AreNew (s ∷ seen) ss
    → (has_text s ss ≡ false) × AreNew seen ss
unfolding has_text
new_parts s seen [] h = (refl, tt)
new_parts s seen (t ∷ ss) h =
    let (here, later) = new_parts s seen ss h.1 in
    (ground (arith, h.0, here, same_comm s t), (ground (arith, h.0), later))

-- The same, for a loop with some names so far, which are not those of the entries.
prepare_all-AreNew :
    (l : Letters) (f : Files) (seen : List Text) (tables : List (Text × Text))
    (cs : List ConfiguredDataset) {ps : List Prepared}
    → prepare_all l f seen tables cs ≡ ok ps
    → AreFiles f cs ps × IsDistinct (names_of ps) × AreNew seen (names_of ps)
unfolding prepare_all
prepare_all-AreNew l f seen tables [] {ps} h =
    subst (λ ps. AreFiles f [] ps × IsDistinct (names_of ps) × AreNew seen (names_of ps))
      (ok-injective h) (tt, tt, tt)
prepare_all-AreNew l f seen tables (c ∷ cs) {ps} h =
    let (h1, k1) = fail_if_parts (is_empty (trim_space c.name)) blank_name _ h in
    let (h2, k2) = fail_if_parts (has_text c.name seen) duplicate_name _ k1 in
    let (h3, k3) = fail_if_parts (is_empty (trim_space c.table)) blank_table _ k2 in
    let (h4, k4) =
      fail_if_parts (other_casing (l.to_lower c.table) c.table tables) inconsistent_casing _ k3 in
    let (h5, k5) = fail_if_parts (is_empty (trim_space c.path)) blank_path _ k4 in
    let (h6, k6) = fail_if_parts (not (all_valid l c.indexed_paths)) bad_indexed_path _ k5 in
    let (p, h7, k7) = ok_parts _ (prepare_file l f c) k6 in
    let (qs, h8, k8) =
      ok_parts _ (prepare_all l f (c.name ∷ seen) ((l.to_lower c.table, c.table) ∷ tables) cs) k7 in
    let file = prepare_file_lem l f c h7 in
    let (files, distinct, new) =
      prepare_all-AreNew l f (c.name ∷ seen) ((l.to_lower c.table, c.table) ∷ tables) cs h8 in
    let (here, later) = new_parts c.name seen (names_of qs) new in
    let name = ap (λ x. x.name) file.same_entry in
    subst (λ ps. AreFiles f (c ∷ cs) ps × IsDistinct (names_of ps) × AreNew seen (names_of ps))
      (ok-injective k8) ((file, h1, files), (rw name here, distinct), (rw name h2, later))

-- The datasets that the loop accepts are the entries in their order, with names that are not blank
-- and distinct; each path is local to the directory of the manifest and names a regular file there
-- that is not the manifest, and each signature is that of the entry and the file.
pub prepare_all_lem :
    (l : Letters) (f : Files) (cs : List ConfiguredDataset) {ps : List Prepared}
    → prepare_all l f [] [] cs ≡ ok ps
    → AreFiles f cs ps × IsDistinct (names_of ps)
prepare_all_lem l f cs h = let all = prepare_all-AreNew l f [] [] cs h in (all.0, all.1)
