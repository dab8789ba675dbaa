-- ===== src/Kql/Sets/Members.antt =====
-- What `add` does, and which keys are in lists of entries.
use striem.Common.{
  ◌≡◌, refl, ◌+◌, ◌⊎◌, sym, ap, true, false, not, ◌&&◌, ◌||◌, List, [], ◌∷◌, ◌++◌, ltb, ◌==◌,
  length, Bool-cases, inl, inr, arith,
}
use striem.Common.Text.{Text, same, same-eq, same_refl, has_text}
use striem.Common.Result.{ok}
use striem.Kql.Array.Elements.{max_replacement_parts}
use striem.Kql.Sets.Key.{names_of, max_set_storage_bytes}
use striem.Kql.Sets.Dynamic.{DynamicSet, has_key, entry_bytes, add}
use striem.Kql.Sets.Operations.{without_entry}

pub has_text-append :
    (s : Text) (xs ys : List Text) → has_text s (xs ++ ys) ≡ has_text s xs || has_text s ys
unfolding has_text
has_text-append s [] ys = refl
has_text-append s (x ∷ xs) ys = ground (arith, has_text-append s xs ys)

pub names_of-append :
    (xs ys : List (Text × Text)) → names_of (xs ++ ys) ≡ names_of xs ++ names_of ys
names_of-append [] ys = refl
names_of-append ((k, raw) ∷ xs) ys = ap (λ zs. k ∷ zs) (names_of-append xs ys)

-- Only the order of the keys tells the set from the map.
abbrev pub IsFresh : DynamicSet → Type 0
IsFresh set = set.order ≡ names_of set.values

-- What `add` does where it succeeds.
pub add_cases :
    (key raw : Text) (set next : DynamicSet)
    → add key raw set ≡ ok next
    → has_key key set ≡ true × (next ≡ set)
      ⊎ (has_key key set ≡ false
          × ((length set.values == max_replacement_parts) ≡ false)
          × (ltb max_set_storage_bytes (entry_bytes key raw + set.size) ≡ false)
          × (next ≡ record {
            values = set.values ++ (key, raw) ∷ [];
            order = set.order ++ key ∷ [];
            size = set.size + entry_bytes key raw;
          }))
unfolding add
add_cases key raw set next h = elim (Bool-cases (has_key key set)) [
  | inl old ↦ inl (old, cc (old, h))
  | inr new ↦ elim (Bool-cases (length set.values == max_replacement_parts)) [
    | inl full ↦ cc (new, full, h)
    | inr room ↦ elim (Bool-cases (ltb max_set_storage_bytes (entry_bytes key raw + set.size))) [
      | inl long ↦ cc (new, room, long, h)
      | inr short ↦ inr (new, room, short, cc (new, room, short, h))
    ]
  ]
]

pub has_text-without_entry :
    (s key : Text) (entries : List (Text × Text))
    → has_text s (names_of (without_entry key entries))
      ≡ not (same s key) && has_text s (names_of entries)
unfolding without_entry has_text
has_text-without_entry s key [] = ground arith
has_text-without_entry s key ((k, raw) ∷ entries) = elim (Bool-cases (same key k)) [
  | inl eq ↦ rw (eq, sym (same-eq key k eq), has_text-without_entry s key entries) (ground arith)
  | inr ne ↦ rw (ne, has_text-without_entry s key entries) (apart ne)
]
  where
    apart :
        same key k ≡ false
        → same s k || (not (same s key) && has_text s (names_of entries))
          ≡ not (same s key) && (same s k || has_text s (names_of entries))
    apart ne = elim (Bool-cases (same s key)) [
      | inl eq ↦ rw (same-eq s key eq, same_refl key, ne) refl
      | inr ns ↦ rw ns refl
    ]
