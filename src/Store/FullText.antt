-- ===== src/Store/FullText.antt =====
-- The configuration of the event storage and the full-text index, in internal/database/database.go.
pub mod Current
pub mod Kept
use striem.Common.{
  ℕ, Bool, true, false, not, ◌&&◌, ◌||◌, List, [], ◌∷◌, Option, none, some, ◌==◌, if◌then◌else◌,
  is_some,
}
use striem.Common.Text.{Text, split_on, sort_texts, has_text}
use striem.Store.Defs.{
  Memory, Engine, invalid_path, no_fts5, Action, ◌>>=◌, ◌>>◌, pure, fail, modify, recall, execute,
  execute_if, query, transaction, all_events,
}

-- `unicode.IsLetter` and `unicode.IsDigit`.
pub record Unicode : Type 0 where
  pub is_letter : ℕ → Bool
  pub is_digit : ℕ → Bool

-- The loop over the characters; the flag says whether the character is the first.
unfoldable pub valid_characters : Unicode → Bool → Text → Bool
valid_characters u first [] = true
valid_characters u first (c ∷ s) =
    (c == 95 || u.is_letter c || (not first && u.is_digit c)) && valid_characters u false s

abbrev pub is_empty : Text → Bool
is_empty [] = true
is_empty (c ∷ s) = false

valid_segments : Unicode → List Text → Bool
unfolding valid_characters
valid_segments u [] = true
valid_segments u (s ∷ ss) = not (is_empty s) && valid_characters u true s && valid_segments u ss

-- Whether `ValidateIndexedPath` returns no error.
unfoldable pub validate_indexed_path : Unicode → Text → Bool
unfolding valid_segments
validate_indexed_path u path = not (is_empty path) && valid_segments u (split_on 46 path)

-- The loop that keeps each path once.
unfoldable pub collect_paths : Unicode → List Text → List Text → Option (List Text)
unfolding validate_indexed_path
collect_paths u seen [] = some seen
collect_paths u seen (p ∷ ps) =
    let rest = collect_paths u (if has_text p seen then seen else p ∷ seen) ps in
    if validate_indexed_path u p then rest else none

unfoldable pub configure_event_storage : Engine → Unicode → List Text → Bool → Action (Unit {0})
unfolding collect_paths
configure_event_storage e u indexed_paths full_text_index =
    elim (collect_paths u [] indexed_paths) [
      | none ↦ fail invalid_path
      | some unique ↦ do
        supported ← if full_text_index then query e (λ _. e.fts5) else pure true
        if supported then pure tt else fail no_fts5
        modify (λ m. record {
          indexed_paths = sort_texts unique;
          full_text_index = full_text_index;
          full_text_ready = false;
          full_text_dirty = false;
          storage_set = true;
        })
    ]

abbrev pub full_text_index_enabled : Memory → Bool
full_text_index_enabled m = m.full_text_index && m.full_text_ready

unfoldable pub mark_full_text_index_dirty : Action (Unit {0})
mark_full_text_index_dirty = modify (λ m.
    if m.full_text_index then record m { full_text_ready = false; full_text_dirty = true } else m)

unfoldable pub drop_full_text_index : Engine → Action (Unit {0})
drop_full_text_index e = do
  execute e (λ db. record db { full_text = none })
  modify (λ m. record m { full_text_ready = false })

-- `CREATE VIRTUAL TABLE`, then `INSERT ... SELECT` of all events.
unfoldable pub fill_full_text : Engine → Bool → Action (Unit {0})
fill_full_text e rebuild = do
  if rebuild then execute e (λ db. record db { full_text = none }) else pure tt
  execute_if e (λ db. not (is_some db.full_text)) (λ db. record db { full_text = some [] })
  execute e (λ db. record db { full_text = some (all_events db.datasets) })

rebuild_full_text : Engine → Bool → Action (Unit {0})
unfolding fill_full_text
rebuild_full_text e rebuild = do
  transaction e (fill_full_text e rebuild)
  modify (λ m. record m { full_text_ready = true; full_text_dirty = false })

-- The part behind the reading of the flags.
sync_with : Engine → Bool → Bool → Bool → Action (Unit {0})
unfolding rebuild_full_text
sync_with e rebuild ready dirty = if not rebuild && ready then pure tt else (do
  exists ← if rebuild || dirty then pure false else query e (λ db. is_some db.full_text)
  if exists
      then modify (λ m. record m { full_text_ready = true })
      else rebuild_full_text e (rebuild || dirty))

unfoldable pub sync_full_text_index : Engine → Bool → Action (Unit {0})
unfolding drop_full_text_index sync_with
sync_full_text_index e rebuild = do
  configured ← recall (λ m. m.full_text_index)
  if configured
      then (do
        ready ← recall (λ m. m.full_text_ready)
        dirty ← recall (λ m. m.full_text_dirty)
        sync_with e rebuild ready dirty)
      else drop_full_text_index e
