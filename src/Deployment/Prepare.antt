-- ===== src/Deployment/Prepare.antt =====
-- The first loop of `Load` of internal/deployment/loader.go: it checks the datasets of a manifest and
-- finds their files, before the store is touched.
pub mod Checked
use striem.Common.{
  ℕ, Bool, true, false, not, ◌&&◌, ◌||◌, List, [], ◌∷◌, Option, none, some, if◌then◌else◌,
}
use striem.Common.Int.{ℤ}
use striem.Common.Text.{Text, codes, same, trim_space, has_text, sort_texts}
use striem.Common.Result.{Result, ok, err, ◌>>=◌, ◌>>◌, fail_if}
use striem.Store.FullText.{validate_indexed_path, is_empty}
use striem.Ingest.Import.{Letters}

-- `Dataset` of the manifest.
pub record ConfiguredDataset : Type 0 where
  pub name : Text
  pub table : Text
  pub path : Text
  pub format : Text
  pub source : Text
  pub source_path : Text
  pub timestamp_path : Text
  pub timestamp_format : Text
  pub indexed_paths : List Text

pub record Prepared : Type 0 where
  pub configured : ConfiguredDataset
  pub path : Text
  pub format : Text
  pub signature : Text

-- What `Stat` says of a file; `is_manifest` is `os.SameFile` with the manifest.
pub record Info : Type 0 where
  pub regular : Bool
  pub is_manifest : Bool
  pub size : ℕ
  pub modified : ℤ

-- The directory of the manifest, and the functions of path/filepath, strings and os on it.
-- `sign` is the hash of the JSON of its arguments, where it can be encoded.
pub record Files : Type 0 where
  pub base : Text
  pub is_abs : Text → Bool
  pub join : Text → Text → Text
  pub clean : Text → Text
  pub rel : Text → Text → Option Text
  pub is_local : Text → Bool
  pub ext : Text → Text
  pub equal_fold : Text → Text → Bool
  pub trim_suffix : Text → Text → Text
  pub stat : Text → Option Info
  pub sign : ConfiguredDataset → Text → Info → Option Text

-- The slice `names`.
abbrev pub names_of : List Prepared → List Text
names_of [] = []
names_of (p ∷ ps) = p.configured.name ∷ names_of ps

-- The errors of the loop, in the order of the source.
pub data Unprepared : Type 0 where
  blank_name duplicate_name blank_table inconsistent_casing blank_path bad_indexed_path : Unprepared
  escapes_base bad_format no_stat not_regular manifest_itself unsigned : Unprepared

guessed_format : Files → Text → Text
guessed_format f path =
    let base_path =
      if f.equal_fold (f.ext path) (codes ".gz") then f.trim_suffix path (f.ext path) else path in
    if f.equal_fold (f.ext base_path) (codes ".csv")
    then codes "csv"
    else (if f.equal_fold (f.ext base_path) (codes ".evtx") then codes "evtx" else codes "json")

unfoldable pub dataset_format : Letters → Files → Text → Text → Result Unprepared Text
unfolding guessed_format
dataset_format l f path configured =
    let format = l.to_lower (trim_space configured) in
    if is_empty format || same format (codes "auto")
    then ok (guessed_format f path)
    else (if not (same format (codes "json"))
          && not (same format (codes "csv"))
          && not (same format (codes "evtx"))
        then err bad_format
        else ok format)

abbrev found : {A : Type 0} → Unprepared → Option A → Result Unprepared A
found e none = err e
found e (some a) = ok a

local_path : Files → Text → Result Unprepared Text
local_path f path = do
  relative ← found escapes_base (f.rel f.base path)
  fail_if (not (f.is_local relative)) escapes_base
  ok relative

-- From `path := configured.Path` on.
abbrev pub path_of : Files → ConfiguredDataset → Text
path_of f configured =
    f.clean (if f.is_abs configured.path then configured.path else f.join f.base configured.path)

unfoldable pub prepare_file : Letters → Files → ConfiguredDataset → Result Unprepared Prepared
unfolding local_path dataset_format
prepare_file l f configured = do
  relative ← local_path f (path_of f configured)
  format ← dataset_format l f (path_of f configured) configured.format
  info ← found no_stat (f.stat relative)
  fail_if (not info.regular) not_regular
  fail_if info.is_manifest manifest_itself
  signature ← found unsigned (f.sign configured (path_of f configured) info)
  ok (record { configured = configured; path = relative; format = format; signature = signature })

-- Whether the table is there in another spelling.
unfoldable pub other_casing : Text → Text → List (Text × Text) → Bool
other_casing key table [] = false
other_casing key table ((k, spelling) ∷ tables) =
    if same key k then not (same spelling table) else other_casing key table tables

all_valid : Letters → List Text → Bool
unfolding validate_indexed_path
all_valid l [] = true
all_valid l (path ∷ paths) = validate_indexed_path l.unicode path && all_valid l paths

-- The loop, with the names and the tables so far.
unfoldable pub prepare_all :
    Letters
    → Files
    → List Text
    → List (Text × Text)
    → List ConfiguredDataset
    → Result Unprepared (List Prepared)
unfolding prepare_file other_casing all_valid
prepare_all l f seen tables [] = ok []
prepare_all l f seen tables (c ∷ cs) = do
  fail_if (is_empty (trim_space c.name)) blank_name
  fail_if (has_text c.name seen) duplicate_name
  fail_if (is_empty (trim_space c.table)) blank_table
  fail_if (other_casing (l.to_lower c.table) c.table tables) inconsistent_casing
  fail_if (is_empty (trim_space c.path)) blank_path
  fail_if (not (all_valid l c.indexed_paths)) bad_indexed_path
  p ← prepare_file l f c
  ps ← prepare_all l f (c.name ∷ seen) ((l.to_lower c.table, c.table) ∷ tables) cs
  ok (p ∷ ps)

-- The keys of `indexedPathSet`.
collect : List Text → List Text → List Text
collect set [] = set
collect set (path ∷ paths) = collect (if has_text path set then set else path ∷ set) paths

collect_all : List Text → List ConfiguredDataset → List Text
unfolding collect
collect_all set [] = set
collect_all set (c ∷ cs) = collect_all (collect set c.indexed_paths) cs

unfoldable pub indexed_paths_of : List ConfiguredDataset → List Text
unfolding collect_all
indexed_paths_of cs = sort_texts (collect_all [] cs)
