-- ===== src/Kql/Sets/Sound.antt =====
-- What holds of every set that is read or combined, and of the results of the operations.
use striem.Common.{
  ◌≤◌, ◌≡◌, sym, ◌∙◌, ap, Bool, true, false, List, [], ◌∷◌, ◌++◌, some, if◌then◌else◌, length,
  length-append, Option-cases, inl, inr, arith,
}
use mathlib.Core.Path.{subst}
use striem.Common.Text.{Text, has_text}
use striem.Common.Result.{ok, ok_parts, ok-injective}
use striem.Common.Distinct.{IsDistinct}
use striem.Kql.Array.Elements.{max_replacement_parts}
use striem.Kql.Sets.Key.{names_of, max_set_storage_bytes}
use striem.Kql.Sets.Dynamic.{DynamicSet, has_key, add}
use striem.Kql.Sets.Operations.{
  SetOperation, set_union, set_intersect, set_difference, other_operation, delete_entry, raw_of,
  or_nothing, union_loop, intersect_loop, delete_if, difference_loop, combine,
}
use striem.Kql.Sets.Entries.{
  total_bytes, total_bytes-append, IsDistinct-append, total_bytes-without_entry,
  IsDistinct-without_entry, length-without_entry, AreThere, AreThere-refl, AreThere-without_entry,
}
use striem.Kql.Sets.Members.{names_of-append, add_cases, IsFresh}

-- The size counts the bytes of what is kept, and the limits are kept.
abbrev pub IsWellFormed : DynamicSet → Type 0
IsWellFormed set =
    IsDistinct (names_of set.values)
    × (set.size ≡ total_bytes set.values)
    × (set.size ≤ max_set_storage_bytes)
    × (length set.values ≤ max_replacement_parts)

pub add-IsWellFormed :
    (key raw : Text) (set next : DynamicSet)
    → IsWellFormed set
    → add key raw set ≡ ok next
    → IsWellFormed next
add-IsWellFormed key raw set next w h = elim (add_cases key raw set next h) [
  | inl (old, eq) ↦ subst IsWellFormed (sym eq) w
  | inr (new, room, short, eq) ↦ subst IsWellFormed (sym eq) (
    subst IsDistinct (sym (names_of-append set.values ((key, raw) ∷ [])))
        (IsDistinct-append (names_of set.values) key new w.0),
    omega (arith, w.1, total_bytes-append set.values ((key, raw) ∷ [])),
    ground (arith, short),
    ground (arith, room, w.3, length-append set.values ((key, raw) ∷ [])),
  )
]

pub add-IsFresh :
    (key raw : Text) (set next : DynamicSet)
    → IsFresh set
    → add key raw set ≡ ok next
    → IsFresh next
add-IsFresh key raw set next f h = elim (add_cases key raw set next h) [
  | inl (old, eq) ↦ subst IsFresh (sym eq) f
  | inr (new, room, short, eq) ↦
      subst IsFresh (sym eq)
        (ap (λ keys. keys ++ key ∷ []) f ∙ sym (names_of-append set.values ((key, raw) ∷ [])))
]

pub delete_entry-IsWellFormed :
    (key raw : Text) (set : DynamicSet)
    → IsWellFormed set
    → raw_of key set ≡ some raw
    → IsWellFormed (delete_entry key raw set)
unfolding delete_entry
delete_entry-IsWellFormed key raw set w h = (
  IsDistinct-without_entry key set.values w.0,
  omega (arith, w.1, total_bytes-without_entry key raw set.values w.0 h),
  omega (arith, w.2),
  omega (arith, w.3, length-without_entry key set.values),
)

pub intersect_step :
    (key raw : Text) (entries : List (Text × Text)) (b : Bool) (result : DynamicSet)
    → has_text key (names_of entries) ≡ false
    → AreThere ((key, raw) ∷ entries) result.values
    → IsWellFormed result
    → AreThere entries (if b then result else delete_entry key raw result).values
      × IsWellFormed (if b then result else delete_entry key raw result)
unfolding delete_entry
intersect_step key raw entries true result new there w = (there.1, w)
intersect_step key raw entries false result new there w = (
  AreThere-without_entry key entries result.values new there.1,
  delete_entry-IsWellFormed key raw result w there.0,
)

intersect_loop-IsWellFormed :
    (current : DynamicSet) (entries : List (Text × Text)) (result : DynamicSet)
    → IsDistinct (names_of entries)
    → AreThere entries result.values
    → IsWellFormed result
    → IsWellFormed (intersect_loop current entries result)
unfolding intersect_loop
intersect_loop-IsWellFormed current [] result d there w = w
intersect_loop-IsWellFormed current ((key, raw) ∷ entries) result d there w =
    let (left, kept) = intersect_step key raw entries (has_key key current) result d.0 there w in
    intersect_loop-IsWellFormed current entries _ d.1 left kept

delete_if-IsWellFormed :
    (key : Text) (set : DynamicSet)
    → IsWellFormed set
    → IsWellFormed (delete_if key (raw_of key set) set)
delete_if-IsWellFormed key set w = elim (Option-cases (raw_of key set)) [
  | inl missing ↦ rw missing w
  | inr (raw, there) ↦ rw there (delete_entry-IsWellFormed key raw set w there)
]

difference_loop-IsWellFormed :
    (entries : List (Text × Text)) (result : DynamicSet)
    → IsWellFormed result
    → IsWellFormed (difference_loop entries result)
unfolding difference_loop
difference_loop-IsWellFormed [] result w = w
difference_loop-IsWellFormed ((key, raw) ∷ entries) result w =
    difference_loop-IsWellFormed entries _ (delete_if-IsWellFormed key result w)

union_loop-IsWellFormed :
    (current : DynamicSet) (keys : List Text) (result next : DynamicSet)
    → IsWellFormed result
    → union_loop current keys result ≡ ok next
    → IsWellFormed next
unfolding union_loop
union_loop-IsWellFormed current [] result next w h = subst IsWellFormed (ok-injective h) w
union_loop-IsWellFormed current (key ∷ keys) result next w h =
    let (longer, added, rest) = ok_parts _ (add key (or_nothing (raw_of key current)) result) h in
    union_loop-IsWellFormed current keys longer next (add-IsWellFormed key _ result longer w added)
      rest

pub combine-IsWellFormed :
    (op : SetOperation) (result current next : DynamicSet)
    → IsWellFormed result
    → combine op result current ≡ ok next
    → IsWellFormed next
unfolding combine
combine-IsWellFormed set_union result current next w h =
    union_loop-IsWellFormed current current.order result next w h
combine-IsWellFormed set_intersect result current next w h = subst IsWellFormed (ok-injective h) (
    intersect_loop-IsWellFormed current result.values result w.0 (AreThere-refl result.values w.0)
      w)
combine-IsWellFormed set_difference result current next w h =
    subst IsWellFormed (ok-injective h) (difference_loop-IsWellFormed current.values result w)
combine-IsWellFormed other_operation result current next w h = subst IsWellFormed (ok-injective h) w
