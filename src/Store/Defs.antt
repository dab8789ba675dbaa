-- ===== src/Store/Defs.antt =====
-- The state of `Store` in internal/database/database.go and its statements. A statement succeeds or
-- is refused, as the engine decides for the number of statements before it, and changes nothing
-- where it is refused. When the process dies, all later statements are refused.
use striem.Common.{not, ◌||◌, ℕ, suc, Bool, List, [], ◌∷◌, ◌++◌, Option, if◌then◌else◌}
use striem.Common.Text.{Text}
use striem.Common.Result.{Result, ok, err}
use striem.Challenge.Configure.{Store}

-- A row of the table datasets, with the searched texts of its events in the table events. The
-- events go with the row, `ON DELETE CASCADE`. Source, timestamp path and time of creation, which no
-- operation reads, are left out, and the count of the events is the length of `events`.
pub record Dataset : Type 0 where
  pub id : ℕ
  pub name : Text
  pub table : Text
  pub signature : Text
  pub events : List Text

-- `full_text` is what the table events_fts was filled with, if there is one; `json_indexes` are the
-- names of the expression indexes with their SQL.
pub record Db : Type 0 where
  pub datasets : List Dataset
  pub full_text : Option (List Text)
  pub ordinary_indexes : Bool
  pub json_indexes : List (Text × Text)
  pub challenge_name : Text
  pub progress : Store

-- The fields behind eventStorageMu.
pub record Memory : Type 0 where
  pub indexed_paths : List Text
  pub full_text_index : Bool
  pub full_text_ready : Bool
  pub full_text_dirty : Bool
  pub storage_set : Bool

pub record World : Type 0 where
  pub db : Db
  pub memory : Memory
  pub clock : ℕ

-- Which statements are refused, and whether SQLite has FTS5.
pub record Engine : Type 0 where
  pub fails : ℕ → Bool
  pub fts5 : Bool

pub data StoreError : Type 0 where
  refused invalid_path no_fts5 nothing_retained rejected_input unprepared unread : StoreError

abbrev pub Action : Type 0 → Type 0
Action A = World → World × Result StoreError A

infixl 5 ◌>>=◌ ◌>>◌
abbrev pub after :
    {A B : Type 0} → World × Result StoreError A → (A → Action B) → World × Result StoreError B
after (w, err e) next = (w, err e)
after (w, ok a) next = next a w

abbrev pub ◌>>=◌ : {A B : Type 0} → Action A → (A → Action B) → Action B
(m >>= next) w = after (m w) next

abbrev pub ◌>>◌ : {A B : Type 0} → Action A → Action B → Action B
m >> k = m >>= λ _. k

abbrev pub pure : {A : Type 0} → A → Action A
pure a w = (w, ok a)

abbrev pub fail : {A : Type 0} → StoreError → Action A
fail e w = (w, err e)

abbrev pub modify : (Memory → Memory) → Action (Unit {0})
modify change w = (record w { memory = change w.memory }, ok tt)

abbrev pub recall : {A : Type 0} → (Memory → A) → Action A
recall read w = (w, ok (read w.memory))

-- What the last statement reports of the database.
abbrev pub report : {A : Type 0} → (Db → A) → Action A
report read w = (w, ok (read w.db))

unfoldable pub execute : Engine → (Db → Db) → Action (Unit {0})
execute e change w =
    if e.fails w.clock
    then (record w { clock = suc w.clock }, err refused)
    else (record w { clock = suc w.clock; db = change w.db }, ok tt)

unfoldable pub query : {A : Type 0} → Engine → (Db → A) → Action A
query e read w =
    if e.fails w.clock
    then (record w { clock = suc w.clock }, err refused)
    else (record w { clock = suc w.clock }, ok (read w.db))

-- A statement that the engine refuses where `allowed` does not hold, as `CREATE` of a name in use.
unfoldable pub execute_if : Engine → (Db → Bool) → (Db → Db) → Action (Unit {0})
execute_if e allowed change w =
    if e.fails w.clock || not (allowed w.db)
    then (record w { clock = suc w.clock }, err refused)
    else (record w { clock = suc w.clock; db = change w.db }, ok tt)

-- The statements between `BeginTx` and `Commit`; an error rolls back the database.
abbrev pub rolled_back :
    {A : Type 0} → Db → World × Result StoreError A → World × Result StoreError A
rolled_back before (w, err e) = (record w { db = before }, err e)
rolled_back before (w, ok a) = (w, ok a)

unfoldable pub transaction : {A : Type 0} → Engine → Action A → Action A
unfolding execute
transaction e body = do
  execute e (λ db. db)
  λ w. rolled_back w.db ((do a ← body; execute e (λ db. db); pure a) w)

-- A deferred statement, which does not change what is returned.
unfoldable pub finally : {A : Type 0} → Action A → Action (Unit {0}) → Action A
finally body restore w = let r = body w in ((restore r.0).0, r.1)

-- A deferred statement that runs where an error is returned, and does not change it.
abbrev pub on_error :
    {A : Type 0} → Action (Unit {0}) → World × Result StoreError A → World × Result StoreError A
on_error restore (w, ok a) = (w, ok a)
on_error restore (w, err e) = ((restore w).0, err e)

unfoldable pub restoring : {A : Type 0} → Action A → Action (Unit {0}) → Action A
restoring body restore w = on_error restore (body w)

-- The events of all datasets.
unfoldable pub all_events : List Dataset → List Text
all_events [] = []
all_events (d ∷ ds) = d.events ++ all_events ds
