-- ===== src/Challenge/Configure.antt =====
-- `ConfigureChallenge` of internal/database/questions.go: one transaction brings the stored
-- progress in line with the configured questions.
pub mod Reconcile
use striem.Common.{Bool, false, ◌||◌, List, [], ◌∷◌, if◌then◌else◌}
use striem.Common.Text.{Text, same}
use striem.Common.Result.{Result, ok, err, ◌>>=◌, ◌>>◌, fail_if}
use striem.Challenge.Defs.{Question, Challenge, Faults, storage, Error}
use striem.Challenge.Progress.{Table, upsert, delete, keys}

pub record Store : Type 0 where
  pub table : Table
  pub challenge : Challenge

-- The loop over the configured questions.
upsert_all : Faults → List Question → Table → Result Error Table
upsert_all f [] t = ok t
upsert_all f (q ∷ qs) t = do
  fail_if (f.write q.id) storage
  upsert_all f qs (upsert q.id q.revision t)

-- The key set `retained`.
retains : List Question → Text → Bool
retains [] id = false
retains (q ∷ qs) id = same q.id id || retains qs id

-- The scan of the stored questions, which collects those to remove.
removed : List Question → List Text → List Text
unfolding retains
removed qs [] = []
removed qs (id ∷ ids) = if retains qs id then removed qs ids else id ∷ removed qs ids

delete_all : Faults → List Text → Table → Result Error Table
delete_all f [] t = ok t
delete_all f (id ∷ ids) t = do fail_if (f.remove id) storage; delete_all f ids (delete id t)

-- The statements of the transaction; an error rolls it back.
configure_tx : Faults → Challenge → Table → Result Error Table
unfolding upsert_all removed delete_all
configure_tx f ch t = do
  fail_if f.begin storage
  t' ← upsert_all f ch.questions t
  fail_if f.listing storage
  t'' ← delete_all f (removed ch.questions (keys t')) t'
  fail_if f.commit storage
  ok t''

unfoldable pub configure : Faults → Challenge → Store → Store × Result Error (Unit {0})
unfolding configure_tx
configure f ch s = elim (configure_tx f ch s.table) [
  | ok t ↦ (record { table = t; challenge = ch }, ok tt)
  | err e ↦ (s, err e)
]
