-- ===== src/Kql/Sets/Entries.antt =====
-- The entries of a map from keys to values: what goes, what is left, what they weigh.
use striem.Common.{
  ℕ, ◌≤◌, ◌+◌, ◌≡◌, refl, sym, ◌∙◌, true, false, List, [], ◌∷◌, ◌++◌, some, if◌then◌else◌, length,
  Bool-cases, inl, inr, arith,
}
use mathlib.Core.Path.{subst}
use striem.Common.Text.{Text, same, same-eq, same_refl, same_comm, has_text}
use striem.Common.Distinct.{IsDistinct}
use striem.Kql.Sets.Key.{names_of, property_of}
use striem.Kql.Sets.Dynamic.{entry_bytes}
use striem.Kql.Sets.Operations.{without_entry}
use striem.Kql.Sets.Members.{has_text-append, has_text-without_entry}

abbrev pub total_bytes : List (Text × Text) → ℕ
total_bytes [] = 0
total_bytes ((k, raw) ∷ entries) = entry_bytes k raw + total_bytes entries

pub total_bytes-append :
    (xs ys : List (Text × Text)) → total_bytes (xs ++ ys) ≡ total_bytes xs + total_bytes ys
total_bytes-append [] ys = omega arith
total_bytes-append ((k, raw) ∷ xs) ys = omega (arith, total_bytes-append xs ys)

pub IsDistinct-append :
    (xs : List Text) (key : Text)
    → has_text key xs ≡ false
    → IsDistinct xs
    → IsDistinct (xs ++ key ∷ [])
unfolding has_text
IsDistinct-append [] key new d = (refl, tt)
IsDistinct-append (x ∷ xs) key new d = (fresh, IsDistinct-append xs key (ground (arith, new)) d.1)
  where
    apart : same x key ≡ false
    apart = rw (same_comm x key) (ground (arith, new))

    fresh : has_text x (xs ++ key ∷ []) ≡ false
    fresh = rw (has_text-append x xs (key ∷ []), d.0, apart) refl

pub absent_without_entry :
    (key : Text) (entries : List (Text × Text))
    → has_text key (names_of entries) ≡ false
    → without_entry key entries ≡ entries
unfolding without_entry has_text
absent_without_entry key [] h = refl
absent_without_entry key ((k, raw) ∷ entries) h =
    let (ne, later) : (same key k ≡ false) × (has_text key (names_of entries) ≡ false) =
      ground (arith, h) in
    rw (ne, absent_without_entry key entries later) refl

-- Entries that go leave their bytes.
pub total_bytes-without_entry :
    (key raw : Text) (entries : List (Text × Text))
    → IsDistinct (names_of entries)
    → property_of key entries ≡ some raw
    → entry_bytes key raw + total_bytes (without_entry key entries) ≡ total_bytes entries
unfolding property_of without_entry
total_bytes-without_entry key raw [] d h = cc
total_bytes-without_entry key raw ((k, other) ∷ entries) d h = elim (Bool-cases (same key k)) [
  | inl eq ↦ rw (eq, absent_without_entry key entries (absent eq)) (here eq)
  | inr ne ↦ rw ne (there ne (total_bytes-without_entry key raw entries d.1))
]
  where
    raws : same key k ≡ true → raw ≡ other
    raws eq = cc (eq, h)

    here :
        same key k ≡ true
        → entry_bytes key raw + total_bytes entries ≡ entry_bytes k other + total_bytes entries
    here eq = rw (raws eq, same-eq key k eq) refl

    absent : same key k ≡ true → has_text key (names_of entries) ≡ false
    absent eq = rw (same-eq key k eq) d.0

    there :
        same key k ≡ false
        → (property_of key entries ≡ some raw
            → entry_bytes key raw + total_bytes (without_entry key entries) ≡ total_bytes entries)
        → entry_bytes key raw + (entry_bytes k other + total_bytes (without_entry key entries))
          ≡ entry_bytes k other + total_bytes entries
    there ne counted = omega (
      arith,
      counted (subst (λ b. (if b then some other else property_of key entries) ≡ some raw) ne h),
    )

pub IsDistinct-without_entry :
    (key : Text) (entries : List (Text × Text))
    → IsDistinct (names_of entries)
    → IsDistinct (names_of (without_entry key entries))
unfolding without_entry
IsDistinct-without_entry key [] d = tt
IsDistinct-without_entry key ((k, raw) ∷ entries) d = elim (Bool-cases (same key k)) [
  | inl eq ↦ rw eq (IsDistinct-without_entry key entries d.1)
  | inr ne ↦ rw ne (
    has_text-without_entry k key entries ∙ rw d.0 (ground arith),
    IsDistinct-without_entry key entries d.1,
  )
]

pub length-without_entry :
    (key : Text) (entries : List (Text × Text))
    → length (without_entry key entries) ≤ length entries
unfolding without_entry
length-without_entry key [] = omega arith
length-without_entry key ((k, raw) ∷ entries) = ground (arith, length-without_entry key entries)

-- The entries are all in a map.
abbrev pub AreThere : List (Text × Text) → List (Text × Text) → Type 0
AreThere [] entries = Unit {0}
AreThere ((k, raw) ∷ some_entries) entries =
    (property_of k entries ≡ some raw) × AreThere some_entries entries

AreThere-cons :
    (k raw : Text) (es entries : List (Text × Text))
    → has_text k (names_of es) ≡ false
    → AreThere es entries
    → AreThere es ((k, raw) ∷ entries)
unfolding property_of has_text
AreThere-cons k raw [] entries new h = tt
AreThere-cons k raw ((l, other) ∷ es) entries new h =
    (rw apart h.0, AreThere-cons k raw es entries (ground (arith, new)) h.1)
  where
    apart : same l k ≡ false
    apart = rw (same_comm l k) (ground (arith, new))

pub AreThere-refl :
    (entries : List (Text × Text)) → IsDistinct (names_of entries) → AreThere entries entries
unfolding property_of
AreThere-refl [] d = tt
AreThere-refl ((k, raw) ∷ entries) d =
    (rw (same_refl k) refl, AreThere-cons k raw entries entries d.0 (AreThere-refl entries d.1))

property_of-without_entry :
    (s key : Text) (entries : List (Text × Text))
    → same s key ≡ false
    → property_of s (without_entry key entries) ≡ property_of s entries
unfolding property_of without_entry
property_of-without_entry s key [] ne = refl
property_of-without_entry s key ((k, raw) ∷ entries) ne = elim (Bool-cases (same key k)) [
  | inl eq ↦ rw (eq, property_of-without_entry s key entries ne, sym (same-eq key k eq), ne) refl
  | inr apart ↦ rw (apart, property_of-without_entry s key entries ne) refl
]

pub AreThere-without_entry :
    (key : Text) (es entries : List (Text × Text))
    → has_text key (names_of es) ≡ false
    → AreThere es entries
    → AreThere es (without_entry key entries)
unfolding has_text
AreThere-without_entry key [] entries new h = tt
AreThere-without_entry key ((k, raw) ∷ es) entries new h = (
  property_of-without_entry k key entries apart ∙ h.0,
  AreThere-without_entry key es entries (ground (arith, new)) h.1,
)
  where
    apart : same k key ≡ false
    apart = rw (same_comm k key) (ground (arith, new))
