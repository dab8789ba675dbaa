-- ===== src/Store/Indexes/Lookup.antt =====
-- Looking names up in the lists of indexes.
use striem.Common.{
  ◌≡◌, refl, sym, ◌∙◌, true, false, ◌||◌, List, [], ◌∷◌, ◌++◌, arith, if◌then◌else◌, Bool-cases,
  inl, inr,
}
use mathlib.Core.Path.{subst}
use striem.Common.Text.{Text, same, same-eq, text_before}
use striem.Store.Indexes.{sql_of, remove, has_name, insert_entry, sort_entries}

pub same_cong : (s t u : Text) → same s t ≡ true → same s u ≡ same t u
same_cong s t u h = rw (same-eq s t h) refl

pub has_name-remove_same :
    (n : Text) (k : Text) (js : List (Text × Text))
    → same n k ≡ true
    → has_name n (remove k js) ≡ false
unfolding sql_of remove has_name
has_name-remove_same n k [] h = refl
has_name-remove_same n k ((j, sql) ∷ js) h = elim (Bool-cases (same k j)) [
  | inl gone ↦ ground (arith, gone, has_name-remove_same n k js h)
  | inr stays ↦ ground (arith, stays, same_cong n k j h, has_name-remove_same n k js h)
]

pub has_name-remove_ne :
    (n : Text) (k : Text) (js : List (Text × Text))
    → same n k ≡ false
    → has_name n (remove k js) ≡ has_name n js
unfolding remove has_name
has_name-remove_ne n k [] h = refl
has_name-remove_ne n k ((j, sql) ∷ js) h = elim (Bool-cases (same k j)) [
  | inl gone ↦
      ground (
        arith,
        gone,
        subst (λ x. same n x ≡ false) (same-eq k j gone) h,
        has_name-remove_ne n k js h,
      )
  | inr stays ↦ ground (arith, stays, has_name-remove_ne n k js h)
]

pub sql_of-remove_ne :
    (n : Text) (k : Text) (js : List (Text × Text))
    → same n k ≡ false
    → sql_of n (remove k js) ≡ sql_of n js
unfolding remove sql_of
sql_of-remove_ne n k [] h = refl
sql_of-remove_ne n k ((j, sql) ∷ js) h = elim (Bool-cases (same k j)) [
  | inl gone ↦
      ground
        (arith, gone, subst (λ x. same n x ≡ false) (same-eq k j gone) h, sql_of-remove_ne n k js h)
  | inr stays ↦ ground (arith, stays, sql_of-remove_ne n k js h)
]

pub has_name-append :
    (n k sql : Text) (js : List (Text × Text))
    → has_name n (js ++ ((k, sql) ∷ [])) ≡ has_name n js || same n k
unfolding has_name
has_name-append n k sql [] = ground arith
has_name-append n k sql ((j, t) ∷ js) = ground (arith, has_name-append n k sql js)

pub sql_of-append_there :
    (n k sql : Text) (js : List (Text × Text))
    → has_name n js ≡ true
    → sql_of n (js ++ ((k, sql) ∷ [])) ≡ sql_of n js
unfolding sql_of has_name
sql_of-append_there n k sql [] h = cc
sql_of-append_there n k sql ((j, t) ∷ js) h = ground (arith, h, sql_of-append_there n k sql js)

pub sql_of-append_new :
    (n k sql : Text) (js : List (Text × Text))
    → has_name n js ≡ false
    → same n k ≡ true
    → sql_of n (js ++ ((k, sql) ∷ [])) ≡ sql
unfolding sql_of has_name
sql_of-append_new n k sql [] h eq = ground (arith, eq)
sql_of-append_new n k sql ((j, t) ∷ js) h eq = ground (arith, h, sql_of-append_new n k sql js, eq)

pub sql_of-absent : (n : Text) (js : List (Text × Text)) → has_name n js ≡ false → sql_of n js ≡ []
unfolding sql_of has_name
sql_of-absent n [] h = refl
sql_of-absent n ((j, t) ∷ js) h = ground (arith, h, sql_of-absent n js)

text_before_refl : (s : Text) → text_before s s ≡ true
unfolding text_before
text_before_refl [] = refl
text_before_refl (a ∷ s) = ground (arith, text_before_refl s)

sql_of-insert_entry :
    (n k sql : Text) (js : List (Text × Text))
    → sql_of n (insert_entry (k, sql) js) ≡ (if same n k then sql else sql_of n js)
unfolding sql_of insert_entry
sql_of-insert_entry n k sql [] = refl
sql_of-insert_entry n k sql ((j, t) ∷ js) = elim (Bool-cases (text_before k j)) [
  | inl before ↦ ground (arith, before)
  | inr behind ↦ ground (arith, behind, differs behind, sql_of-insert_entry n k sql js)
]
  where
    differs : text_before k j ≡ false → same n k ≡ true → same n j ≡ false
    differs behind eq = elim (Bool-cases (same n j)) [
      | inl both ↦ cc (
        subst (λ x. text_before x j ≡ true) (same-eq j k (sym (same_cong n j k both) ∙ eq))
            (text_before_refl j),
        behind,
      )
      | inr ne ↦ ne
    ]

pub sql_of-sort_entries :
    (n : Text) (js : List (Text × Text)) → sql_of n (sort_entries js) ≡ sql_of n js
unfolding sql_of sort_entries
sql_of-sort_entries n [] = refl
sql_of-sort_entries n ((k, sql) ∷ js) =
    ground (arith, sql_of-insert_entry n k sql (sort_entries js), sql_of-sort_entries n js)
