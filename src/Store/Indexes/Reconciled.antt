-- ===== src/Store/Indexes/Reconciled.antt =====
-- `CreateEventIndexes` brings the expression indexes in line with the configured paths.
use striem.Common.{
  ◌≡◌, refl, sym, ◌∙◌, true, false, List, [], ◌∷◌, ◌++◌, arith, Bool-cases, inl, inr, ◌⊎◌,
}
use mathlib.Core.Path.{subst}
use striem.Common.Text.{Text, same, same-eq}
use striem.Store.Indexes.{sql_of, remove, has_name}
use striem.Store.Indexes.Lookup.{
  has_name-remove_same, has_name-remove_ne, sql_of-remove_ne, has_name-append, sql_of-append_there,
  sql_of-append_new, sql_of-absent,
}

abbrev pub Entries : Type 0
Entries = List (Text × Text)

-- No name is there twice.
abbrev pub AreUnique : Entries → Type 0
AreUnique [] = Unit {0}
AreUnique ((k, sql) ∷ js) = (has_name k js ≡ false) × AreUnique js

module _ (desired : Entries) where
  -- A name is there with the desired SQL, or is not there and still to be created.
  abbrev pub Settled : Entries → Entries → Text → Type 0
  Settled js left n =
      ((has_name n js ≡ true) × (sql_of n js ≡ sql_of n desired))
      ⊎ ((has_name n js ≡ false) × (sql_of n left ≡ sql_of n desired))

  -- A name that the loop has not come to is as it was.
  abbrev pub Ahead : Entries → Entries → Entries → Text → Type 0
  Ahead rest js left n =
      (has_name n js ≡ true) × (sql_of n js ≡ sql_of n rest) × (sql_of n left ≡ sql_of n desired)

  pub record Middle (rest js left : Entries) : Type 0 where
    pub ahead : (n : Text) → has_name n rest ≡ true → Ahead rest js left n
    pub settled : (n : Text) → has_name n rest ≡ false → Settled js left n

  pub start-Middle : (js : Entries) → Middle js js desired
  start-Middle js = record { ahead = λ n h. (h, refl, refl); settled = λ n h. inr (h, refl) }

  later-differs :
      (k : Text) (rest : Entries) (n : Text)
      → has_name k rest ≡ false
      → has_name n rest ≡ true
      → same n k ≡ false
  later-differs k rest n new h = elim (Bool-cases (same n k)) [
    | inl eq ↦ cc (subst (λ x. has_name x rest ≡ true) (same-eq n k eq) h, new)
    | inr ne ↦ ne
  ]

  head-Ahead :
      (k sql : Text) (rest js left : Entries) (n : Text)
      → Middle ((k, sql) ∷ rest) js left
      → same n k ≡ true
      → (has_name n js ≡ true) × (sql_of n js ≡ sql) × (sql_of n left ≡ sql_of n desired)
  unfolding has_name sql_of
  head-Ahead k sql rest js left n m eq =
      let a = m.ahead n (ground (arith, eq)) in (a.0, (a.1 ∙ ground (arith, eq)), a.2)

  tail-Ahead :
      (k sql : Text) (rest js left : Entries) (n : Text)
      → Middle ((k, sql) ∷ rest) js left
      → same n k ≡ false
      → has_name n rest ≡ true
      → Ahead rest js left n
  unfolding has_name sql_of
  tail-Ahead k sql rest js left n m ne h =
      let a = m.ahead n (ground (arith, ne, h)) in (a.0, (a.1 ∙ ground (arith, ne)), a.2)

  tail-Settled :
      (k sql : Text) (rest js left : Entries) (n : Text)
      → Middle ((k, sql) ∷ rest) js left
      → same n k ≡ false
      → has_name n rest ≡ false
      → Settled js left n
  unfolding has_name
  tail-Settled k sql rest js left n m ne h = m.settled n (ground (arith, ne, h))

  -- The index is as desired and stays.
  pub keep-Middle :
      (k sql : Text) (rest js left : Entries)
      → has_name k rest ≡ false
      → same (sql_of k left) sql ≡ true
      → Middle ((k, sql) ∷ rest) js left
      → Middle rest js (remove k left)
  keep-Middle k sql rest js left new stays m = record { ahead = ahead; settled = settled }
    where
      ahead : (n : Text) → has_name n rest ≡ true → Ahead rest js (remove k left) n
      ahead n h =
          let ne = later-differs k rest n new h in
          let a = tail-Ahead k sql rest js left n m ne h in
          (a.0, a.1, sql_of-remove_ne n k left ne ∙ a.2)

      here : (n : Text) → same n k ≡ true → sql ≡ sql_of n left
      here n eq =
          subst (λ x. sql ≡ sql_of x left) (sym (same-eq n k eq))
            (sym (same-eq (sql_of k left) sql stays))

      settled : (n : Text) → has_name n rest ≡ false → Settled js (remove k left) n
      settled n h = elim (Bool-cases (same n k)) [
        | inl eq ↦ let a = head-Ahead k sql rest js left n m eq in inl (a.0, a.1 ∙ here n eq ∙ a.2)
        | inr ne ↦ elim (tail-Settled k sql rest js left n m ne h) [
          | inl there ↦ inl there
          | inr (absent, wanted) ↦ inr (absent, sql_of-remove_ne n k left ne ∙ wanted)
        ]
      ]

  -- The index is not as desired and is dropped.
  pub drop-Middle :
      (k sql : Text) (rest js left : Entries)
      → has_name k rest ≡ false
      → Middle ((k, sql) ∷ rest) js left
      → Middle rest (remove k js) left
  drop-Middle k sql rest js left new m = record { ahead = ahead; settled = settled }
    where
      ahead : (n : Text) → has_name n rest ≡ true → Ahead rest (remove k js) left n
      ahead n h =
          let ne = later-differs k rest n new h in
          let a = tail-Ahead k sql rest js left n m ne h in
          (has_name-remove_ne n k js ne ∙ a.0, sql_of-remove_ne n k js ne ∙ a.1, a.2)

      settled : (n : Text) → has_name n rest ≡ false → Settled (remove k js) left n
      settled n h = elim (Bool-cases (same n k)) [
        | inl eq ↦ inr (has_name-remove_same n k js eq, (head-Ahead k sql rest js left n m eq).2)
        | inr ne ↦ elim (tail-Settled k sql rest js left n m ne h) [
          | inl (there, is) ↦
              inl (has_name-remove_ne n k js ne ∙ there, sql_of-remove_ne n k js ne ∙ is)
          | inr (absent, wanted) ↦ inr (has_name-remove_ne n k js ne ∙ absent, wanted)
        ]
      ]

  -- One index is created whose name is not there.
  pub create-Settled :
      (k sql : Text) (js left : Entries) (n : Text)
      → has_name k js ≡ false
      → Settled js ((k, sql) ∷ left) n
      → Settled (js ++ ((k, sql) ∷ [])) left n
  unfolding sql_of
  create-Settled k sql js left n new (inl (there, is)) = inl (
    has_name-append n k sql js ∙ ground (arith, there),
    sql_of-append_there n k sql js there ∙ is,
  )
  create-Settled k sql js left n new (inr (absent, wanted)) = elim (Bool-cases (same n k)) [
    | inl eq ↦ inl (
      has_name-append n k sql js ∙ ground (arith, eq, absent),
      sql_of-append_new n k sql js absent eq ∙ ground (arith, eq, wanted),
    )
    | inr ne ↦
        inr (has_name-append n k sql js ∙ ground (arith, ne, absent), ground (arith, ne, wanted))
  ]

  pub done-Settled : (js : Entries) (n : Text) → Settled js [] n → sql_of n js ≡ sql_of n desired
  unfolding sql_of
  done-Settled js n (inl (there, is)) = is
  done-Settled js n (inr (absent, wanted)) = sql_of-absent n js absent ∙ wanted
