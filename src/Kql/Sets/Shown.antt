-- ===== src/Kql/Sets/Shown.antt =====
-- What the result of an operation shows: the keys in their order that are left, with their values.
use striem.Common.{
  ◌≡◌, refl, sym, ◌∙◌, ap, Bool, true, false, ◌&&◌, List, [], ◌∷◌, Option, none, some, is_some,
  if◌then◌else◌, Bool-cases, Option-cases, inl, inr, arith,
}
use mathlib.Core.Path.{subst}
use striem.Common.Text.{Text, same, same-eq, has_text}
use striem.Common.Result.{ok, ok_parts, ok-injective}
use striem.Common.Distinct.{IsDistinct}
use striem.Kql.Sets.Key.{names_of, property_of}
use striem.Kql.Sets.Dynamic.{DynamicSet, has_key, add}
use striem.Kql.Sets.Operations.{
  SetOperation, set_union, set_intersect, set_difference, other_operation, delete_entry, raw_of,
  or_nothing, union_loop, intersect_loop, delete_if, difference_loop, combine, kept_values,
}
use striem.Kql.Sets.Members.{IsFresh}
use striem.Kql.Sets.Sound.{add-IsFresh}
use striem.Kql.Sets.Raws.{has_text-property_of, raw_of-combine}

abbrev pub raws_of : List (Text × Text) → List Text
raws_of [] = []
raws_of ((k, raw) ∷ es) = raw ∷ raws_of es

-- Each key is in the order, once.
abbrev pub IsOrdered : DynamicSet → Type 0
IsOrdered set =
    IsDistinct set.order × ((s : Text) → has_key s set ≡ true → has_text s set.order ≡ true)

pub IsFresh-IsOrdered :
    (set : DynamicSet) → IsFresh set → IsDistinct (names_of set.values) → IsOrdered set
IsFresh-IsOrdered set f d = (subst IsDistinct (sym f) d, λ s here. ap (has_text s) f ∙ here)

-- A union keeps all keys; the others take keys from the values and leave the order.
abbrev pub KeepsOrder : SetOperation → DynamicSet → Type 0
KeepsOrder set_union set = IsFresh set
KeepsOrder _ set = IsOrdered set

union_loop-IsFresh :
    (current : DynamicSet) (keys : List Text) (result next : DynamicSet)
    → IsFresh result
    → union_loop current keys result ≡ ok next
    → IsFresh next
unfolding union_loop
union_loop-IsFresh current [] result next f h = subst IsFresh (ok-injective h) f
union_loop-IsFresh current (key ∷ keys) result next f h =
    let (longer, added, rest) = ok_parts _ (add key (or_nothing (raw_of key current)) result) h in
    union_loop-IsFresh current keys longer next (add-IsFresh key _ result longer f added) rest

order-if :
    (key raw : Text) (b : Bool) (set : DynamicSet)
    → (if b then set else delete_entry key raw set).order ≡ set.order
unfolding delete_entry
order-if key raw true set = refl
order-if key raw false set = refl

order-intersect_loop :
    (current : DynamicSet) (entries : List (Text × Text)) (result : DynamicSet)
    → (intersect_loop current entries result).order ≡ result.order
unfolding intersect_loop
order-intersect_loop current [] result = refl
order-intersect_loop current ((key, raw) ∷ entries) result =
    order-intersect_loop current entries _ ∙ order-if key raw (has_key key current) result

order-delete_if :
    (key : Text) (o : Option Text) (set : DynamicSet) → (delete_if key o set).order ≡ set.order
unfolding delete_entry
order-delete_if key none set = refl
order-delete_if key (some raw) set = refl

order-difference_loop :
    (entries : List (Text × Text)) (result : DynamicSet)
    → (difference_loop entries result).order ≡ result.order
unfolding difference_loop
order-difference_loop [] result = refl
order-difference_loop ((key, raw) ∷ entries) result =
    order-difference_loop entries _ ∙ order-delete_if key (raw_of key result) result

-- Fewer keys in the same order.
fewer-IsOrdered :
    (result next : DynamicSet)
    → IsOrdered result
    → next.order ≡ result.order
    → ((s : Text) → is_some (raw_of s next) ≡ true → is_some (raw_of s result) ≡ true)
    → IsOrdered next
fewer-IsOrdered result next (d, all) eq fewer = (
  subst IsDistinct (sym eq) d,
  λ s here.
      ap (has_text s) eq
      ∙ all s (
          has_text-property_of s result.values
          ∙ fewer s (sym (has_text-property_of s next.values) ∙ here)),
)

some_of_if :
    (b : Bool) (o : Option Text) → is_some (if b then o else none) ≡ true → is_some o ≡ true
some_of_if true o h = h
some_of_if false o h = absurd (ground (arith, h))

some_of_unless :
    (b : Bool) (o : Option Text) → is_some (if b then none else o) ≡ true → is_some o ≡ true
some_of_unless true o h = absurd (ground (arith, h))
some_of_unless false o h = h

pub combine-KeepsOrder :
    (op : SetOperation) (result current next : DynamicSet)
    → IsFresh current
    → KeepsOrder op result
    → combine op result current ≡ ok next
    → KeepsOrder op next
unfolding combine
combine-KeepsOrder set_union result current next f o h =
    union_loop-IsFresh current current.order result next o h
combine-KeepsOrder set_intersect result current next f o h =
    fewer-IsOrdered result next o
      (ap (λ set. set.order) (sym (ok-injective h))
        ∙ order-intersect_loop current result.values result)
      (λ s here.
        some_of_if (is_some (raw_of s current)) (raw_of s result)
          (ap is_some (sym (raw_of-combine set_intersect result current next s f h)) ∙ here))
combine-KeepsOrder set_difference result current next f o h =
    fewer-IsOrdered result next o
      (ap (λ set. set.order) (sym (ok-injective h)) ∙ order-difference_loop current.values result)
      (λ s here.
        some_of_unless (is_some (raw_of s current)) (raw_of s result)
          (ap is_some (sym (raw_of-combine set_difference result current next s f h)) ∙ here))
combine-KeepsOrder other_operation result current next f o h = subst IsOrdered (ok-injective h) o

pub KeepsOrder-IsOrdered :
    (op : SetOperation) (set : DynamicSet)
    → IsDistinct (names_of set.values)
    → KeepsOrder op set
    → IsOrdered set
KeepsOrder-IsOrdered set_union set d f = IsFresh-IsOrdered set f d
KeepsOrder-IsOrdered set_intersect set d o = o
KeepsOrder-IsOrdered set_difference set d o = o
KeepsOrder-IsOrdered other_operation set d o = o

pub IsFresh-KeepsOrder :
    (op : SetOperation) (set : DynamicSet)
    → IsDistinct (names_of set.values)
    → IsFresh set
    → KeepsOrder op set
IsFresh-KeepsOrder set_union set d f = f
IsFresh-KeepsOrder set_intersect set d f = IsFresh-IsOrdered set f d
IsFresh-KeepsOrder set_difference set d f = IsFresh-IsOrdered set f d
IsFresh-KeepsOrder other_operation set d f = IsFresh-IsOrdered set f d

-- The keys that are left, with their values, in the order of the list.
abbrev with_raw : Text → Option Text → List (Text × Text) → List (Text × Text)
with_raw key none es = es
with_raw key (some raw) es = (key, raw) ∷ es

pub kept_entries : DynamicSet → List Text → List (Text × Text)
kept_entries set [] = []
kept_entries set (key ∷ keys) = with_raw key (raw_of key set) (kept_entries set keys)

pub kept_values-raws_of :
    (set : DynamicSet) (keys : List Text) → kept_values set keys ≡ raws_of (kept_entries set keys)
unfolding kept_values kept_entries
kept_values-raws_of set [] = refl
kept_values-raws_of set (key ∷ keys) = elim (Option-cases (raw_of key set)) [
  | inl gone ↦ rw (kept_values, gone) (kept_values-raws_of set keys)
  | inr (raw, there) ↦ rw (kept_values, there) (ap (λ rs. raw ∷ rs) (kept_values-raws_of set keys))
]

property_of-with_raw :
    (s key : Text) (o : Option Text) (es : List (Text × Text))
    → property_of s (with_raw key o es) ≡ (if same s key && is_some o then o else property_of s es)
unfolding property_of
property_of-with_raw s key none es = ground arith
property_of-with_raw s key (some raw) es = ground arith

property_of-kept_entries :
    (s : Text) (set : DynamicSet) (keys : List Text)
    → property_of s (kept_entries set keys) ≡ (if has_text s keys then raw_of s set else none)
unfolding property_of has_text kept_entries
property_of-kept_entries s set [] = refl
property_of-kept_entries s set (key ∷ keys) =
    property_of-with_raw s key (raw_of key set) (kept_entries set keys)
    ∙ rw (property_of-kept_entries s set keys) (elim (Bool-cases (same s key)) [
      | inr ne ↦ rw ne refl
      | inl eq ↦ rw (eq, same-eq s key eq) (here (raw_of key set) (has_text key keys))
    ])
  where
    here : (o : Option Text) (b : Bool) → (if is_some o then o else if b then o else none) ≡ o
    here none b = ground arith
    here (some a) b = refl

has_text-kept_entries :
    (s : Text) (set : DynamicSet) (keys : List Text)
    → has_text s keys ≡ false
    → has_text s (names_of (kept_entries set keys)) ≡ false
has_text-kept_entries s set keys h =
    has_text-property_of s (kept_entries set keys)
    ∙ ap is_some (property_of-kept_entries s set keys)
    ∙ rw h refl

IsDistinct-kept_entries :
    (set : DynamicSet) (keys : List Text)
    → IsDistinct keys
    → IsDistinct (names_of (kept_entries set keys))
unfolding kept_entries
IsDistinct-kept_entries set [] d = tt
IsDistinct-kept_entries set (key ∷ keys) (new, d) = elim (Option-cases (raw_of key set)) [
  | inl gone ↦ rw gone (IsDistinct-kept_entries set keys d)
  | inr (raw, there) ↦
      rw there (has_text-kept_entries key set keys new, IsDistinct-kept_entries set keys d)
]

-- The values are those of the set, one for each of its keys.
abbrev pub ShowsAll : DynamicSet → List (Text × Text) → Type 0
ShowsAll set es = IsDistinct (names_of es) × ((s : Text) → property_of s es ≡ raw_of s set)

pub kept_entries-ShowsAll :
    (set : DynamicSet) → IsOrdered set → ShowsAll set (kept_entries set set.order)
kept_entries-ShowsAll set (d, all) = (
  IsDistinct-kept_entries set set.order d,
  λ s. property_of-kept_entries s set set.order ∙ complete s (raw_of s set) refl,
)
  where
    complete :
        (s : Text) (o : Option Text)
        → raw_of s set ≡ o
        → (if has_text s set.order then o else none) ≡ o
    complete s none eq = ground arith
    complete s (some raw) eq = rw (all s (has_text-property_of s set.values ∙ ap is_some eq)) refl
