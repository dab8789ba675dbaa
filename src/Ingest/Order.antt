-- ===== src/Ingest/Order.antt =====
-- The buffer of `Import` in internal/ingest/ingest.go that brings the workers' results back into the
-- order of the records.
pub mod Sequence
pub mod Arrivals
use striem.Common.{
  ℕ, zero, suc, Bool, true, false, List, [], ◌∷◌, ◌++◌, Option, none, some, length, ◌==◌,
  if◌then◌else◌,
}
use striem.Common.Text.{Text}
use striem.Common.Result.{Result, ok, err, ◌>>=◌}

-- `buffered` is a map from the number of a record to its row, or to the error that it had.
pub record Buffer : Type 0 where
  pub buffered : List (ℕ × Option Text)
  pub next_record : ℕ
  pub written : List Text

unfoldable pub find_result : ℕ → List (ℕ × Option Text) → Option (Option Text)
find_result i [] = none
find_result i ((j, row) ∷ rows) = if i == j then some row else find_result i rows

unfoldable pub delete_result : ℕ → List (ℕ × Option Text) → List (ℕ × Option Text)
delete_result i [] = []
delete_result i ((j, row) ∷ rows) =
    let rest = delete_result i rows in if i == j then rest else (j, row) ∷ rest

-- The loop: it ends where the next record is not there, or at an error, which is returned with its
-- record. Each round takes an entry, so that their number is fuel enough.
unfoldable pub drain : ℕ → Buffer → Result ℕ Buffer
unfolding find_result delete_result
drain zero b = ok b
drain (suc fuel) b = elim (find_result b.next_record b.buffered) [
  | none ↦ ok b
  | some none ↦ err b.next_record
  | some (some row) ↦ drain fuel (record {
    buffered = delete_result b.next_record b.buffered;
    next_record = suc b.next_record;
    written = b.written ++ (row ∷ []);
  })
]

-- `acceptResult`.
unfoldable pub accept_result : ℕ → Option Text → Buffer → Result ℕ Buffer
unfolding drain delete_result
accept_result i row b =
    let entries = (i, row) ∷ delete_result i b.buffered in
    drain (length entries) (record b { buffered = entries })

abbrev pub start : Buffer
start = record { buffered = []; next_record = 1; written = [] }

-- The results of the workers, in the order in which they come, until an error is returned.
unfoldable pub accept_all : (ℕ → Option Text) → List ℕ → Buffer → Result ℕ Buffer
unfolding accept_result
accept_all f [] b = ok b
accept_all f (i ∷ order) b = accept_result i (f i) b >>= accept_all f order
