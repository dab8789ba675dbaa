-- ===== src/Kql/Sets/Jaccard.antt =====
-- `kqlJaccardIndex` counts what set_intersect and set_union give.
use striem.Common.{
  ℕ, suc, ◌+◌, ◌≡◌, refl, sym, ◌∙◌, ap, Bool, true, false, List, [], ◌∷◌, ◌++◌, some, ◌==◌,
  if◌then◌else◌, length, length-append, Bool-cases, inl, inr, arith,
}
use mathlib.Core.Path.{subst}
use striem.Common.Text.{Text, same, same-eq, same_refl, same_comm, has_text}
use striem.Common.Result.{Result, ok, err, ok_parts, ok-injective}
use striem.Common.Distinct.{IsDistinct}
use striem.Kql.Value.{Value, real}
use striem.Kql.Array.Elements.{Json}
use striem.Kql.Sets.Key.{Tokens, SetError, names_of, property_of, both_empty}
use striem.Kql.Sets.Dynamic.{DynamicSet, has_key, add}
use striem.Kql.Sets.Operations.{
  both_sets, intersection, union_count, kql_jaccard_index, set_union, set_intersect, combine,
  union_loop, intersect_loop, without_entry, delete_entry, raw_of, or_nothing,
}
use striem.Kql.Sets.Members.{IsFresh, add_cases, names_of-append, has_text-append}
use striem.Kql.Sets.Entries.{AreThere, AreThere-refl, absent_without_entry}
use striem.Kql.Sets.Sound.{IsWellFormed, intersect_step}
use striem.Kql.Sets.Compare.{both_sets-IsWellFormed, length-names_of}

-- How many of the first texts are among the second.
count_in : List Text → List Text → ℕ
count_in [] ys = 0
count_in (x ∷ xs) ys = (if has_text x ys then 1 else 0) + count_in xs ys

intersection-count_in :
    (entries : List (Text × Text)) (right : DynamicSet)
    → intersection entries right ≡ count_in (names_of entries) (names_of right.values)
unfolding intersection count_in
intersection-count_in [] right = refl
intersection-count_in ((key, raw) ∷ entries) right =
    ap (λ n. (if has_key key right then 1 else 0) + n) (intersection-count_in entries right)

count_in-append :
    (xs ys : List Text) (key : Text)
    → has_text key xs ≡ false
    → count_in xs (ys ++ key ∷ []) ≡ count_in xs ys
unfolding count_in has_text
count_in-append [] ys key new = refl
count_in-append (x ∷ xs) ys key new =
    rw (has_text-append x ys (key ∷ []), apart, count_in-append xs ys key (ground (arith, new)))
      (ground arith)
  where
    apart : same x key ≡ false
    apart = rw (same_comm x key) (ground (arith, new))

count_in-cons :
    (x : Text) (xs ys : List Text)
    → has_text x xs ≡ false
    → IsDistinct ys
    → count_in ys (x ∷ xs) ≡ (if has_text x ys then 1 else 0) + count_in ys xs
unfolding count_in has_text
count_in-cons x xs [] new d = omega arith
count_in-cons x xs (y ∷ ys) new d = elim (Bool-cases (same y x)) [
  | inl eq ↦ rw (same-eq y x eq, same_refl x, new) (here eq (count_in-cons x xs ys new d.1))
  | inr ne ↦ rw (same_comm x y, ne) (ground (arith, count_in-cons x xs ys new d.1))
]
  where
    absent : same y x ≡ true → has_text x ys ≡ false
    absent eq = rw (sym (same-eq y x eq)) d.0

    here :
        same y x ≡ true
        → count_in ys (x ∷ xs) ≡ (if has_text x ys then 1 else 0) + count_in ys xs
        → 1 + count_in ys (x ∷ xs) ≡ 1 + (0 + count_in ys xs)
    here eq ih = ground (arith, ih, absent eq)

count_in-nil : (ys : List Text) → count_in ys [] ≡ 0
unfolding count_in has_text
count_in-nil [] = refl
count_in-nil (y ∷ ys) = omega (arith, count_in-nil ys)

count_in_comm :
    (xs ys : List Text) → IsDistinct xs → IsDistinct ys → count_in xs ys ≡ count_in ys xs
unfolding count_in
count_in_comm [] ys d e = sym (count_in-nil ys)
count_in_comm (x ∷ xs) ys d e =
    ap (λ n. (if has_text x ys then 1 else 0) + n) (count_in_comm xs ys d.1 e)
    ∙ sym (count_in-cons x xs ys d.0 e)

length-add :
    (key raw : Text) (set next : DynamicSet)
    → add key raw set ≡ ok next
    → length next.values + (if has_key key set then 1 else 0) ≡ suc (length set.values)
length-add key raw set next h = elim (add_cases key raw set next h) [
  | inl (old, eq) ↦ rw (eq, old) (omega arith)
  | inr (new, room, short, eq) ↦
      rw (eq, new) (omega (arith, length-append set.values ((key, raw) ∷ [])))
]

count_in-add :
    (keys : List Text) (key raw : Text) (set next : DynamicSet)
    → has_text key keys ≡ false
    → add key raw set ≡ ok next
    → count_in keys (names_of next.values) ≡ count_in keys (names_of set.values)
count_in-add keys key raw set next absent h = elim (add_cases key raw set next h) [
  | inl (old, eq) ↦ rw eq refl
  | inr (new, room, short, eq) ↦
      rw (eq, names_of-append set.values ((key, raw) ∷ []))
        (count_in-append keys (names_of set.values) key absent)
]

length-union_loop :
    (current : DynamicSet) (keys : List Text) (result next : DynamicSet)
    → IsDistinct keys
    → union_loop current keys result ≡ ok next
    → length next.values + count_in keys (names_of result.values)
      ≡ length result.values + length keys
unfolding union_loop count_in
length-union_loop current [] result next d h =
    ap (λ set. length set.values + 0) (sym (ok-injective h))
length-union_loop current (key ∷ keys) result next d h =
    let (longer, added, rest) = ok_parts _ (add key (or_nothing (raw_of key current)) result) h in
    omega (
      arith,
      length-union_loop current keys longer next d.1 rest,
      length-add key _ result longer added,
      count_in-add keys key _ result longer d.0 added,
    )

length-without_entry :
    (key raw : Text) (entries : List (Text × Text))
    → IsDistinct (names_of entries)
    → property_of key entries ≡ some raw
    → suc (length (without_entry key entries)) ≡ length entries
unfolding property_of without_entry
length-without_entry key raw [] d h = cc
length-without_entry key raw ((k, other) ∷ entries) d h = elim (Bool-cases (same key k)) [
  | inl eq ↦ rw (eq, absent_without_entry key entries (rw (same-eq key k eq) d.0)) refl
  | inr ne ↦ rw ne (ap suc (length-without_entry key raw entries d.1 (later ne)))
]
  where
    later : same key k ≡ false → property_of key entries ≡ some raw
    later ne = subst (λ b. (if b then some other else property_of key entries) ≡ some raw) ne h

length-if :
    (key raw : Text) (b : Bool) (set : DynamicSet)
    → IsWellFormed set
    → raw_of key set ≡ some raw
    → suc (length (if b then set else delete_entry key raw set).values)
      ≡ length set.values + (if b then 1 else 0)
unfolding delete_entry
length-if key raw true set w there = omega arith
length-if key raw false set w there =
    omega (arith, length-without_entry key raw set.values w.0 there)

length-intersect_loop :
    (current : DynamicSet) (entries : List (Text × Text)) (result : DynamicSet)
    → IsDistinct (names_of entries)
    → AreThere entries result.values
    → IsWellFormed result
    → length (intersect_loop current entries result).values + length entries
      ≡ length result.values + intersection entries current
unfolding intersect_loop intersection
length-intersect_loop current [] result d there w = omega arith
length-intersect_loop current ((key, raw) ∷ entries) result d there w =
    let kept_if = if has_key key current then result else delete_entry key raw result in
    let (left, kept) = intersect_step key raw entries (has_key key current) result d.0 there w in
    let rest : length (intersect_loop current ((key, raw) ∷ entries) result).values + length entries
        ≡ length kept_if.values + intersection entries current =
      length-intersect_loop current entries kept_if d.1 left kept in
    omega (arith, rest, length-if key raw (has_key key current) result w there.0)

-- The counts are the numbers of keys that set_intersect and set_union leave.
intersection-combine :
    (a b i : DynamicSet)
    → IsWellFormed a
    → combine set_intersect a b ≡ ok i
    → intersection a.values b ≡ length i.values
unfolding combine
intersection-combine a b i w h = omega (
  arith,
  length-intersect_loop b a.values a w.0 (AreThere-refl a.values w.0) w,
  ap (λ s. length s.values) (ok-injective h),
)

union_count-combine :
    (a b u : DynamicSet)
    → IsWellFormed a
    → IsWellFormed b
    → IsFresh b
    → combine set_union a b ≡ ok u
    → union_count a b ≡ length u.values
unfolding combine union_count
union_count-combine a b u wa wb fresh h =
    let keys : IsDistinct b.order = subst IsDistinct (sym fresh) wb.0 in
    let count : length b.order ≡ length b.values = ap length fresh ∙ length-names_of b.values in
    let both : count_in b.order (names_of a.values) ≡ intersection a.values b =
      ap (λ ks. count_in ks (names_of a.values)) fresh
      ∙ count_in_comm (names_of b.values) (names_of a.values) wb.0 wa.0
      ∙ sym (intersection-count_in a.values b) in
    omega (arith, length-union_loop b b.order a u keys h, count, both)

-- Where both arguments are read as sets and set_union of the two succeeds, kqlJaccardIndex is the
-- number of values that set_intersect of the two gives, divided by the number that set_union gives,
-- and refuses two empty sets.
pub kql_jaccard_index-combine :
    (divide : ℕ → ℕ → ℕ) (k : Tokens) (j : Json) (left right : Value) (a b i u : DynamicSet)
    → both_sets k j left right ≡ ok (some (a, b))
    → combine set_intersect a b ≡ ok i
    → combine set_union a b ≡ ok u
    → kql_jaccard_index divide k j left right ≡ (
        if length u.values == 0
        then err both_empty
        else ok (real (divide (length i.values) (length u.values))))
unfolding kql_jaccard_index
kql_jaccard_index-combine divide k j left right a b i u h common all =
    let (wa, fa, wb, fb) = both_sets-IsWellFormed k j left right a b h in
    let value : ℕ → ℕ → Result SetError Value =
      λ common all. if all == 0 then err both_empty else ok (real (divide common all)) in
    let counted : kql_jaccard_index divide k j left right
        ≡ value (intersection a.values b) (union_count a b) =
      rw h refl in
    counted
    ∙ ap (λ n. value n (union_count a b)) (intersection-combine a b i wa common)
    ∙ ap (λ n. value (length i.values) n) (union_count-combine a b u wa wb fb all)
