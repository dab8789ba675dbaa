-- ===== src/Kql/Sets/Compare.antt =====
-- `kqlSetEquals` and `kqlJaccardIndex` compare what `kqlSetOperation` combines.
use striem.Common.{
  ℕ, suc, ◌≡◌, refl, sym, ◌∙◌, ap, ◌↔◌, Bool, true, false, List, [], ◌∷◌, Option, none, some,
  length, Bool-cases, inl, inr, arith,
}
use mathlib.Core.Path.{subst}
use striem.Common.Text.{Text, same, same-eq, same_refl, has_text}
use striem.Common.Result.{Result, ok, err, ◌>>=◌}
use striem.Common.Distinct.{IsDistinct, IsIncluded, covered, length-IsIncluded}
use striem.Kql.Value.{Value, boolean}
use striem.Kql.Array.Elements.{Json}
use striem.Kql.Array.Concat.{max_replacement_work}
use striem.Kql.Sets.Key.{Tokens, SetError, names_of}
use striem.Kql.Sets.Dynamic.{DynamicSet, has_key, read_dynamic_set}
use striem.Kql.Sets.Operations.{for_set, both_sets, all_exist, equal_sets, kql_set_equals}
use striem.Kql.Sets.Members.{IsFresh}
use striem.Kql.Sets.Sound.{IsWellFormed}
use striem.Kql.Sets.Results.{read_dynamic_set-IsWellFormed}

pub length-names_of : (entries : List (Text × Text)) → length (names_of entries) ≡ length entries
length-names_of [] = refl
length-names_of ((k, raw) ∷ entries) = ap suc (length-names_of entries)

all_exist-IsIncluded :
    (entries : List (Text × Text)) (right : DynamicSet)
    → all_exist entries right ≡ true
    → IsIncluded (names_of entries) (names_of right.values)
unfolding all_exist has_text
all_exist-IsIncluded [] right h t there = cc
all_exist-IsIncluded ((key, raw) ∷ entries) right h t there = elim (Bool-cases (same t key)) [
  | inl eq ↦ rw (same-eq t key eq) (ground (arith, h))
  | inr ne ↦ all_exist-IsIncluded entries right (ground (arith, h)) t (ground (arith, ne, there))
]

IsIncluded-all_exist :
    (entries : List (Text × Text)) (right : DynamicSet)
    → IsIncluded (names_of entries) (names_of right.values)
    → all_exist entries right ≡ true
unfolding all_exist has_text
IsIncluded-all_exist [] right h = refl
IsIncluded-all_exist ((key, raw) ∷ entries) right h =
    rw (h key (rw (same_refl key) refl))
      (IsIncluded-all_exist entries right (λ t there. h t (later t there)))
  where
    later :
        (t : Text)
        → has_text t (names_of entries) ≡ true
        → has_text t (names_of ((key, raw) ∷ entries)) ≡ true
    later t there = ground (arith, there)

same_members : (b c : Bool) → (b ≡ true → c ≡ true) → (c ≡ true → b ≡ true) → b ≡ c
same_members true c f g = sym (f refl)
same_members false true f g = g refl
same_members false false f g = refl

-- As many keys, all of them there.
equal_sets_parts :
    (a b : DynamicSet)
    → equal_sets a b ≡ true
    → (length a.values ≡ length b.values) × (all_exist a.values b ≡ true)
unfolding equal_sets
equal_sets_parts a b h = ground (arith, h)

-- By the pigeonhole principle, as many distinct keys that are all there are all keys.
equal_sets-members :
    (a b : DynamicSet)
    → IsDistinct (names_of a.values)
    → equal_sets a b ≡ true
    → (s : Text) → has_key s a ≡ has_key s b
equal_sets-members a b d h s =
    let (count, there) = equal_sets_parts a b h in
    let included = all_exist-IsIncluded a.values b there in
    same_members (has_key s a) (has_key s b) (included s) (
      covered (names_of a.values) (names_of b.values) d included
        (omega (arith, count, length-names_of a.values, length-names_of b.values)) s)

members-equal_sets :
    (a b : DynamicSet)
    → IsDistinct (names_of a.values)
    → IsDistinct (names_of b.values)
    → ((s : Text) → has_key s a ≡ has_key s b)
    → equal_sets a b ≡ true
unfolding equal_sets
members-equal_sets a b d e h =
    let forth : IsIncluded (names_of a.values) (names_of b.values) =
      (λ s there. sym (h s) ∙ there) in
    let back : IsIncluded (names_of b.values) (names_of a.values) = (λ s there. h s ∙ there) in
    let short = length-IsIncluded (names_of a.values) (names_of b.values) d forth in
    let long = length-IsIncluded (names_of b.values) (names_of a.values) e back in
    let count : length a.values ≡ length b.values =
      omega (arith, short, long, length-names_of a.values, length-names_of b.values) in
    ground (arith, count, IsIncluded-all_exist a.values b forth)

set_parts {ℓ} :
    {A : Type ℓ} (next : DynamicSet → ℕ → Result SetError (Option A))
    (m : Result SetError (Option (DynamicSet × ℕ))) {a : A}
    → (m >>= for_set next) ≡ ok (some a)
    → (set : DynamicSet) × (left : ℕ) × (m ≡ ok (some (set, left))) × (next set left ≡ ok (some a))
set_parts next (err e) h = cc
set_parts next (ok none) h = cc
set_parts next (ok (some (set, left))) h = (set, left, refl, h)

-- What is known of two sets that are read.
pub both_sets-IsWellFormed :
    (k : Tokens) (j : Json) (left right : Value) (a b : DynamicSet)
    → both_sets k j left right ≡ ok (some (a, b))
    → IsWellFormed a × IsFresh a × IsWellFormed b × IsFresh b
unfolding both_sets
both_sets-IsWellFormed k j left right a b h =
    let (a₁, work, read, on) =
      set_parts (λ a work. read_dynamic_set k j right work >>= for_set (λ b rest. ok (some (a, b))))
        (read_dynamic_set k j left max_replacement_work) h in
    let (b₁, rest, again, eq) =
      set_parts (λ b rest. ok (some (a₁, b))) (read_dynamic_set k j right work) on in
    let (wa, fa) = read_dynamic_set-IsWellFormed k j left max_replacement_work a₁ work read in
    let (wb, fb) = read_dynamic_set-IsWellFormed k j right work b₁ rest again in
    let same_sets : Path (DynamicSet × DynamicSet) (a₁, b₁) (a, b) = cc eq in
    subst (λ p. IsWellFormed p.0 × IsFresh p.0 × IsWellFormed p.1 × IsFresh p.1) same_sets
      (wa, fa, wb, fb)

-- Where both arguments are read as sets, kqlSetEquals gives true exactly if the two have the same
-- keys.
pub kql_set_equals-has_key :
    (k : Tokens) (j : Json) (left right : Value) (a b : DynamicSet)
    → both_sets k j left right ≡ ok (some (a, b))
    → (kql_set_equals k j left right ≡ ok (boolean true)) ↔ ((s : Text) → has_key s a ≡ has_key s b)
unfolding kql_set_equals
kql_set_equals-has_key k j left right a b h =
    let (wa, fa, wb, fb) = both_sets-IsWellFormed k j left right a b h in
    (
      λ equal. equal_sets-members a b wa.0 (cc (h, equal)),
      λ same_keys. rw (h, members-equal_sets a b wa.0 wb.0 same_keys) refl,
    )
