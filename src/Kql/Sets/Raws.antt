-- ===== src/Kql/Sets/Raws.antt =====
-- Which raw value a set has for a key, behind each operation on sets.
use striem.Common.{
  ◌≡◌, refl, sym, ◌∙◌, ap, Bool, true, false, not, ◌&&◌, ◌||◌, List, [], ◌∷◌, ◌++◌, Option, none,
  some, is_some, if◌then◌else◌, Bool-cases, Option-cases, inl, inr, arith,
}
use striem.Common.Text.{Text, same, same-eq, same_refl, has_text}
use striem.Common.Result.{ok, ok_parts, ok-injective}
use striem.Common.Distinct.{IsIncluded}
use striem.Kql.Sets.Key.{names_of, property_of}
use striem.Kql.Sets.Dynamic.{DynamicSet, has_key, add}
use striem.Kql.Sets.Operations.{
  SetOperation, set_union, set_intersect, set_difference, other_operation, without_entry,
  delete_entry, raw_of, or_nothing, union_loop, intersect_loop, delete_if, difference_loop, combine,
}
use striem.Kql.Sets.Members.{IsFresh, add_cases}

-- The first of two values that may be missing.
abbrev pub or_else : Option Text → Option Text → Option Text
or_else none b = b
or_else (some a) b = some a

-- What an operation means for one key: the value that the result has for it, from that of the
-- result before and that of the argument.
abbrev pub raw_by : SetOperation → Option Text → Option Text → Option Text
raw_by set_union a b = or_else a b
raw_by set_intersect a b = if is_some b then a else none
raw_by set_difference a b = if is_some b then none else a
raw_by other_operation a b = a

pub has_text-property_of :
    (s : Text) (es : List (Text × Text)) → has_text s (names_of es) ≡ is_some (property_of s es)
unfolding has_text property_of
has_text-property_of s [] = refl
has_text-property_of s ((k, raw) ∷ es) = ground (arith, has_text-property_of s es)

property_of-append :
    (s : Text) (xs ys : List (Text × Text))
    → property_of s (xs ++ ys) ≡ or_else (property_of s xs) (property_of s ys)
unfolding property_of
property_of-append s [] ys = refl
property_of-append s ((k, raw) ∷ xs) ys = elim (Bool-cases (same s k)) [
  | inl here ↦ rw here refl
  | inr there ↦ rw there (property_of-append s xs ys)
]

or_else-some : (a b : Option Text) → is_some a ≡ true → or_else a b ≡ a
or_else-some none b h = absurd (ground (arith, h))
or_else-some (some a) b h = refl

or_else-none : (a : Option Text) → or_else a none ≡ a
or_else-none none = refl
or_else-none (some a) = refl

or_else_assoc : (a b c : Option Text) → or_else (or_else a b) c ≡ or_else a (or_else b c)
or_else_assoc none b c = refl
or_else_assoc (some a) b c = refl

or_else_same : (a : Option Text) → or_else a a ≡ a
or_else_same none = refl
or_else_same (some a) = refl

abbrev only : Bool → Option Text → Option Text
only b a = if b then a else none

raw_of-add :
    (s key raw : Text) (set next : DynamicSet)
    → add key raw set ≡ ok next
    → raw_of s next ≡ or_else (raw_of s set) (only (same s key) (some raw))
unfolding property_of
raw_of-add s key raw set next h = elim (add_cases key raw set next h) [
  | inl (old, eq) ↦ ap (raw_of s) eq ∙ known old
  | inr (new, room, short, eq) ↦
      ap (raw_of s) eq ∙ property_of-append s set.values ((key, raw) ∷ [])
]
  where
    known :
        has_key key set ≡ true
        → raw_of s set ≡ or_else (raw_of s set) (only (same s key) (some raw))
    known old = elim (Bool-cases (same s key)) [
      | inl here ↦ sym (
          or_else-some (raw_of s set) _ (
            sym (has_text-property_of s set.values)
            ∙ ap (λ t. has_key t set) (same-eq s key here)
            ∙ old))
      | inr there ↦ rw there (sym (or_else-none (raw_of s set)))
    ]

-- Where the keys are those of the argument, each comes with its value.
raw_of-union_loop :
    (s : Text) (current : DynamicSet) (keys : List Text) (result next : DynamicSet)
    → IsIncluded keys (names_of current.values)
    → union_loop current keys result ≡ ok next
    → raw_of s next ≡ or_else (raw_of s result) (only (has_text s keys) (raw_of s current))
unfolding union_loop has_text
raw_of-union_loop s current [] result next i h =
    ap (raw_of s) (sym (ok-injective h)) ∙ sym (or_else-none (raw_of s result))
raw_of-union_loop s current (key ∷ keys) result next i h =
    let (longer, added, rest) = ok_parts _ (add key (or_nothing (raw_of key current)) result) h in
    raw_of-union_loop s current keys longer next (λ t there. i t (ground (arith, there))) rest
    ∙ ap (λ a. or_else a (only (has_text s keys) (raw_of s current)))
        (raw_of-add s key _ result longer added)
    ∙ or_else_assoc (raw_of s result) _ _
    ∙ ap (or_else (raw_of s result)) (joined (same s key) refl)
  where
    there : is_some (raw_of key current) ≡ true
    there = sym (has_text-property_of key current.values) ∙ i key (ground (arith, same_refl key))

    restored : (o : Option Text) → is_some o ≡ true → some (or_nothing o) ≡ o
    restored none h = absurd (ground (arith, h))
    restored (some a) h = refl

    value : same s key ≡ true → some (or_nothing (raw_of key current)) ≡ raw_of s current
    value here =
        restored (raw_of key current) there ∙ ap (λ t. raw_of t current) (sym (same-eq s key here))

    joined :
        (b : Bool)
        → same s key ≡ b
        → or_else
            (only b (some (or_nothing (raw_of key current))))
            (only (has_text s keys) (raw_of s current))
          ≡ only (b || has_text s keys) (raw_of s current)
    joined false eq = refl
    joined true eq = value eq

property_of-without_entry :
    (s key : Text) (es : List (Text × Text))
    → property_of s (without_entry key es) ≡ (if same s key then none else property_of s es)
unfolding property_of without_entry
property_of-without_entry s key [] = ground arith
property_of-without_entry s key ((k, raw) ∷ es) = elim (Bool-cases (same key k)) [
  | inl eq ↦ rw (eq, sym (same-eq key k eq), property_of-without_entry s key es) (ground arith)
  | inr ne ↦ elim (Bool-cases (same s key)) [
    | inl here ↦ rw (ne, property_of-without_entry s key es, here, apart here ne) refl
    | inr there ↦ rw (ne, property_of-without_entry s key es, there) refl
  ]
]
  where
    apart : same s key ≡ true → same key k ≡ false → same s k ≡ false
    apart here ne = rw (same-eq s key here) ne

raw_of-if :
    (s key raw : Text) (b : Bool) (set : DynamicSet)
    → raw_of s (if b then set else delete_entry key raw set)
      ≡ (if same s key && not b then none else raw_of s set)
unfolding delete_entry
raw_of-if s key raw true set = ground arith
raw_of-if s key raw false set = property_of-without_entry s key set.values ∙ ground arith

-- What goes of a value in a loop.
abbrev unless : Bool → Option Text → Option Text
unless b a = if b then none else a

unless-or : (a b : Bool) (o : Option Text) → unless a (unless b o) ≡ unless (b || a) o
unless-or true b o = ground arith
unless-or false b o = ground arith

raw_of-intersect_loop :
    (s : Text) (current : DynamicSet) (es : List (Text × Text)) (result : DynamicSet)
    → raw_of s (intersect_loop current es result)
      ≡ unless (has_text s (names_of es) && not (has_key s current)) (raw_of s result)
unfolding intersect_loop has_text
raw_of-intersect_loop s current [] result = refl
raw_of-intersect_loop s current ((key, raw) ∷ es) result =
    raw_of-intersect_loop s current es _
    ∙ ap (unless (has_text s (names_of es) && not (has_key s current)))
        (raw_of-if s key raw (has_key key current) result)
    ∙ unless-or (has_text s (names_of es) && not (has_key s current))
        (same s key && not (has_key key current)) (raw_of s result)
    ∙ ap (λ b. unless b (raw_of s result)) together
  where
    together :
        (same s key && not (has_key key current))
          || (has_text s (names_of es) && not (has_key s current))
        ≡ (same s key || has_text s (names_of es)) && not (has_key s current)
    together = elim (Bool-cases (same s key)) [
      | inl eq ↦ rw (same-eq s key eq, same_refl key) (ground arith)
      | inr ne ↦ rw ne refl
    ]

raw_of-delete_if :
    (s key : Text) (set : DynamicSet)
    → raw_of s (delete_if key (raw_of key set) set) ≡ unless (same s key) (raw_of s set)
unfolding delete_entry
raw_of-delete_if s key set = elim (Option-cases (raw_of key set)) [
  | inl missing ↦ rw missing (absent missing)
  | inr (raw, there) ↦ rw there (property_of-without_entry s key set.values)
]
  where
    absent : raw_of key set ≡ none → raw_of s set ≡ unless (same s key) (raw_of s set)
    absent h = elim (Bool-cases (same s key)) [
      | inl eq ↦ rw (same-eq s key eq, same_refl key) h
      | inr ne ↦ rw ne refl
    ]

raw_of-difference_loop :
    (s : Text) (es : List (Text × Text)) (result : DynamicSet)
    → raw_of s (difference_loop es result) ≡ unless (has_text s (names_of es)) (raw_of s result)
unfolding difference_loop has_text
raw_of-difference_loop s [] result = refl
raw_of-difference_loop s ((key, raw) ∷ es) result =
    raw_of-difference_loop s es _
    ∙ ap (unless (has_text s (names_of es))) (raw_of-delete_if s key result)
    ∙ unless-or (has_text s (names_of es)) (same s key) (raw_of s result)

pub raw_of-combine :
    (op : SetOperation) (result current next : DynamicSet) (s : Text)
    → IsFresh current
    → combine op result current ≡ ok next
    → raw_of s next ≡ raw_by op (raw_of s result) (raw_of s current)
unfolding combine
raw_of-combine set_union result current next s fresh h =
    raw_of-union_loop s current current.order result next
      (λ t here. ap (has_text t) (sym fresh) ∙ here) h
    ∙ ap (λ keys. or_else (raw_of s result) (only (has_text s keys) (raw_of s current))) fresh
    ∙ ap (λ b. or_else (raw_of s result) (only b (raw_of s current)))
        (has_text-property_of s current.values)
    ∙ ap (or_else (raw_of s result)) (only_if (raw_of s current))
  where
    only_if : (o : Option Text) → only (is_some o) o ≡ o
    only_if none = refl
    only_if (some a) = refl
raw_of-combine set_intersect result current next s fresh h =
    ap (raw_of s) (sym (ok-injective h))
    ∙ raw_of-intersect_loop s current result.values result
    ∙ rw (has_text-property_of s result.values, has_text-property_of s current.values)
        (both (raw_of s result) (is_some (raw_of s current)))
  where
    both : (o : Option Text) (b : Bool) → unless (is_some o && not b) o ≡ (if b then o else none)
    both none b = ground arith
    both (some a) b = ground arith
raw_of-combine set_difference result current next s fresh h =
    ap (raw_of s) (sym (ok-injective h))
    ∙ raw_of-difference_loop s current.values result
    ∙ ap (λ b. unless b (raw_of s result)) (has_text-property_of s current.values)
raw_of-combine other_operation result current next s fresh h = ap (raw_of s) (sym (ok-injective h))
