-- ===== src/Challenge/Progress.antt =====
-- The table `investigation_progress` with the statements that internal/database/questions.go runs
-- on it. Its primary key is the question.
use mathlib.Core.Path.{subst}
use striem.Common.{
  ℕ, ◌≡◌, refl, ap, true, false, ◌&&◌, List, [], ◌∷◌, Option, none, some, arith, if◌then◌else◌,
}
use striem.Common.Int.{ℤ, eqb_ℤ}
use striem.Common.Text.{Text, same, same-eq}

pub record Row : Type 0 where
  pub revision : ℤ
  pub attempts : ℕ
  pub last_attempt : Option Text
  pub solved_at : Option Text
  pub answer : Option Text

abbrev pub Table : Type 0
Table = List (Text × Row)

abbrev pub new_row : ℤ → Row
new_row revision = record {
  revision = revision;
  attempts = 0;
  last_attempt = none;
  solved_at = none;
  answer = none;
}

-- A row, if it has this revision.
abbrev pub at_revision : Option Row → ℤ → Option Row
at_revision none revision = none
at_revision (some row) revision = if eqb_ℤ row.revision revision then some row else none

-- The row of a question, whatever its revision.
unfoldable pub find : Text → Table → Option Row
find id [] = none
find id ((j, row) ∷ t) = if same j id then some row else find id t

-- `ON CONFLICT DO UPDATE`: another revision starts anew.
pub configured : Row → ℤ → Row
configured row revision = if eqb_ℤ row.revision revision then row else new_row revision

-- The row that an insert leaves for what it found.
abbrev pub carry : Option Row → ℤ → Row
carry none revision = new_row revision
carry (some row) revision = configured row revision

-- `INSERT ... ON CONFLICT(question_id) DO UPDATE`.
unfoldable pub upsert : Text → ℤ → Table → Table
unfolding configured
upsert id revision [] = (id, new_row revision) ∷ []
upsert id revision ((j, row) ∷ t) =
    if same j id then (j, configured row revision) ∷ t else (j, row) ∷ upsert id revision t

-- `DELETE ... WHERE question_id = ?`.
unfoldable pub delete : Text → Table → Table
delete id [] = []
delete id ((j, row) ∷ t) = if same j id then delete id t else (j, row) ∷ delete id t

-- `SELECT ... WHERE question_id = ? AND revision = ?`.
unfoldable pub select : Text → ℤ → Table → Option Row
select id revision [] = none
select id revision ((j, row) ∷ t) =
    if same j id && eqb_ℤ row.revision revision then some row else select id revision t

-- `UPDATE ... WHERE question_id = ? AND revision = ?`.
unfoldable pub update : Text → ℤ → (Row → Row) → Table → Table
update id revision f [] = []
update id revision f ((j, row) ∷ t) =
    (j, (if same j id && eqb_ℤ row.revision revision then f row else row)) ∷ update id revision f t

-- The keys of a table.
abbrev pub keys : Table → List Text
keys [] = []
keys ((j, row) ∷ t) = j ∷ keys t

abbrev pub Fresh : Text → Table → Type 0
Fresh id [] = Unit {0}
Fresh id ((j, row) ∷ t) = (same j id ≡ false) × Fresh id t

-- The primary key: no question has two rows.
abbrev pub IsKeyed : Table → Type 0
IsKeyed [] = Unit {0}
IsKeyed ((j, row) ∷ t) = Fresh j t × IsKeyed t

pub same_sym : (s t : Text) → same s t ≡ same t s
unfolding same
same_sym [] [] = refl
same_sym [] (b ∷ t) = refl
same_sym (a ∷ s) [] = refl
same_sym (a ∷ s) (b ∷ t) = ground (arith, same_sym s t)

pub same_trans : (s t u : Text) → same s t ≡ true → same s u ≡ same t u
same_trans s t u h = ap (λ v. same v u) (same-eq s t h)

Fresh-find : (id : Text) (t : Table) → Fresh id t → find id t ≡ none
unfolding find
Fresh-find id [] h = refl
Fresh-find id ((j, row) ∷ t) h = ground (arith, Fresh-find id t h.1)

find_shadowed : (j id : Text) (t : Table) → Fresh j t → same j id ≡ true → find id t ≡ none
find_shadowed j id t k e = Fresh-find id t (subst (λ v. Fresh v t) (same-eq j id e) k)

module _ (id : Text) (revision : ℤ) where
  Fresh-upsert :
      (j : Text) (t : Table) → same j id ≡ false → Fresh j t → Fresh j (upsert id revision t)
  unfolding upsert
  Fresh-upsert j [] h f = ground (arith, same_sym j id)
  Fresh-upsert j ((i, row) ∷ t) h f = ground (arith, Fresh-upsert j t h f.1)

  pub upsert-IsKeyed : (t : Table) → IsKeyed t → IsKeyed (upsert id revision t)
  unfolding upsert
  upsert-IsKeyed [] k = (tt, tt)
  upsert-IsKeyed ((j, row) ∷ t) k = ground (arith, Fresh-upsert j t, upsert-IsKeyed t k.1)

  -- An insert sets the row of its own question.
  pub find-upsert :
      (j : Text) (t : Table)
      → find j (upsert id revision t)
        ≡ (if same id j then some (carry (find j t) revision) else find j t)
  unfolding find upsert
  find-upsert j [] = refl
  find-upsert j ((i, row) ∷ t) =
      ground (arith, find-upsert j t, same_trans i id j, same_trans i j id, same_sym j id)

  pub find-update :
      (f : Row → Row) (j : Text) (t : Table)
      → find j (update id revision f t) ≡ (elim (find j t) [
        | none ↦ none
        | some row ↦ some (if same id j && eqb_ℤ row.revision revision then f row else row)
      ])
  unfolding find update
  find-update f j [] = refl
  find-update f j ((i, row) ∷ t) =
      ground (arith, find-update f j t, same_trans i id j, same_trans i j id, same_sym j id)

  update-Fresh :
      (f : Row → Row) (j : Text) (t : Table) → Fresh j t → Fresh j (update id revision f t)
  unfolding update
  update-Fresh f j [] k = tt
  update-Fresh f j ((i, row) ∷ t) k = (k.0, update-Fresh f j t k.1)

  pub update-IsKeyed : (f : Row → Row) (t : Table) → IsKeyed t → IsKeyed (update id revision f t)
  unfolding update
  update-IsKeyed f [] k = tt
  update-IsKeyed f ((i, row) ∷ t) k = (update-Fresh f i t k.0, update-IsKeyed f t k.1)

  -- With one row to a question, a select finds it exactly if the revision is the stored one.
  pub select-find :
      (t : Table) → IsKeyed t → select id revision t ≡ at_revision (find id t) revision
  unfolding select find
  select-find [] k = refl
  select-find ((j, row) ∷ t) k = ground (arith, select-find t k.1, find_shadowed j id t k.0)

pub find-delete :
    (id j : Text) (t : Table) → find j (delete id t) ≡ (if same id j then none else find j t)
unfolding find delete
find-delete id j [] = ground arith
find-delete id j ((i, row) ∷ t) =
    ground (arith, find-delete id j t, same_trans i id j, same_trans i j id, same_sym j id)

delete-Fresh : (id j : Text) (t : Table) → Fresh j t → Fresh j (delete id t)
unfolding delete
delete-Fresh id j [] k = tt
delete-Fresh id j ((i, row) ∷ t) k = ground (arith, delete-Fresh id j t k.1)

pub delete-IsKeyed : (id : Text) (t : Table) → IsKeyed t → IsKeyed (delete id t)
unfolding delete
delete-IsKeyed id [] k = tt
delete-IsKeyed id ((i, row) ∷ t) k =
    ground (arith, delete-Fresh id i t k.0, delete-IsKeyed id t k.1)
