-- ===== src/Kql/Sets/Results.antt =====
-- `kqlSetOperation` as a whole.
use striem.Common.{ℕ, ◌≡◌, refl, sym, ◌∙◌, ap, List, [], ◌∷◌, Option, none, some, ltb, arith}
use mathlib.Core.Path.{subst}
use striem.Common.Text.{Text}
use striem.Common.Result.{Result, ok, err, ◌>>=◌, ok_parts, fail_if_parts, ok-injective}
use striem.Kql.Value.{Value}
use striem.Kql.Array.Elements.{Json, ArrayError, dynamic_array, rendered}
use striem.Kql.Array.Concat.{text_bytes, max_replacement_work}
use striem.Kql.Sets.Key.{Tokens, SetError, unsupported_operation, set_value_key}
use striem.Kql.Sets.Dynamic.{DynamicSet, add, empty_set, set_of, read_loop, read_dynamic_set}
use striem.Kql.Sets.Operations.{
  SetOperation, combine, combine_all, for_set, is_other, first_set, kql_set_operation, raw_of,
  rendered_set, lifted,
}
use striem.Kql.Sets.Members.{IsFresh}
use striem.Kql.Sets.Raws.{raw_by, raw_of-combine}
use striem.Kql.Sets.Shown.{
  raws_of, KeepsOrder, combine-KeepsOrder, KeepsOrder-IsOrdered, IsFresh-KeepsOrder, kept_entries,
  kept_values-raws_of, ShowsAll, kept_entries-ShowsAll,
}
use striem.Kql.Sets.Sound.{IsWellFormed, add-IsWellFormed, add-IsFresh, combine-IsWellFormed}

read_loop-IsWellFormed :
    (k : Tokens) (elements : List Text) (work : ℕ) (current next : DynamicSet) (left : ℕ)
    → IsWellFormed current
    → IsFresh current
    → read_loop k elements work current ≡ ok (next, left)
    → IsWellFormed next × IsFresh next
unfolding read_loop
read_loop-IsWellFormed k [] work current next left w f h =
    let eq : current ≡ next = ap (λ p. p.0) (ok-injective h) in
    (subst IsWellFormed eq w, subst IsFresh eq f)
read_loop-IsWellFormed k (element ∷ elements) work current next left w f h =
    let ((key, rest), keyed, on) = ok_parts _ (set_value_key k element work) h in
    let (longer, added, after) = ok_parts _ (add key element current) on in
    read_loop-IsWellFormed k elements rest longer next left
      (add-IsWellFormed key element current longer w added)
      (add-IsFresh key element current longer f added) after

set_of-IsWellFormed :
    (k : Tokens) (elements : Result ArrayError (Option (List Text))) (work : ℕ) (set : DynamicSet)
    (left : ℕ)
    → set_of k elements work ≡ ok (some (set, left))
    → IsWellFormed set × IsFresh set
unfolding set_of
set_of-IsWellFormed k (err e) work set left h = cc
set_of-IsWellFormed k (ok none) work set left h = cc
set_of-IsWellFormed k (ok (some elements)) work set left h =
    let ((next, rest), read, eq) = ok_parts _ (read_loop k elements work empty_set) h in
    read_loop-IsWellFormed k elements work empty_set set left (tt, refl, omega arith, omega arith)
      refl (cc (read, eq))

-- A set that is read is well formed, and has no key that is not there.
pub read_dynamic_set-IsWellFormed :
    (k : Tokens) (j : Json) (value : Value) (work : ℕ) (set : DynamicSet) (left : ℕ)
    → read_dynamic_set k j value work ≡ ok (some (set, left))
    → IsWellFormed set × IsFresh set
unfolding read_dynamic_set
read_dynamic_set-IsWellFormed k j value work set left h =
    set_of-IsWellFormed k (dynamic_array j value) _ set left
      (fail_if_parts (ltb work (text_bytes value)) _ _ h).1

-- The sets that the arguments stand for, read one after the other.
abbrev pub AreSets : Tokens → Json → ℕ → List Value → List DynamicSet → Type 0
AreSets k j work [] [] = Unit {0}
AreSets k j work (v ∷ vs) (set ∷ sets) =
    (left : ℕ) × (read_dynamic_set k j v work ≡ ok (some (set, left))) × AreSets k j left vs sets
AreSets k j work _ _ = ⊥

-- The value for a key in the first set, joined with that in each other.
abbrev pub raw_over : SetOperation → Text → Option Text → List DynamicSet → Option Text
raw_over op s found [] = found
raw_over op s found (set ∷ sets) = raw_over op s (raw_by op found (raw_of s set)) sets

abbrev pub IsJoined : SetOperation → DynamicSet → List DynamicSet → DynamicSet → Type 0
IsJoined op first sets final =
    IsWellFormed final × ((s : Text) → raw_of s final ≡ raw_over op s (raw_of s first) sets)

pub after_read {ℓ} :
    {A : Type ℓ} (next : DynamicSet → ℕ → Result SetError (Option A))
    (m : Result SetError (Option (DynamicSet × ℕ))) {set : DynamicSet} {left : ℕ} {o : Option A}
    → m ≡ ok (some (set, left))
    → (m >>= for_set next) ≡ ok o
    → next set left ≡ ok o
after_read next (err e) read h = cc
after_read next (ok none) read h = cc
after_read next (ok (some (set, left))) read h = cc (read, h)

combine_all-IsJoined :
    (k : Tokens) (j : Json) (op : SetOperation) (result : DynamicSet) (work : ℕ)
    (values : List Value) (sets : List DynamicSet) (o : Option DynamicSet)
    → IsWellFormed result
    → KeepsOrder op result
    → AreSets k j work values sets
    → combine_all k j op result work values ≡ ok o
    → (final : DynamicSet) × (o ≡ some final) × KeepsOrder op final × IsJoined op result sets final
unfolding combine_all
combine_all-IsJoined k j op result work [] [] o w kept r h =
    (result, sym (ok-injective h), kept, (w, λ s. refl))
combine_all-IsJoined k j op result work [] (set ∷ sets) o w kept r h = absurd r
combine_all-IsJoined k j op result work (v ∷ vs) [] o w kept r h = absurd r
combine_all-IsJoined k j op result work (v ∷ vs) (set ∷ sets) o w kept (left, read, r) h =
    let chain : (combine op result set >>= λ next. combine_all k j op next left vs) ≡ ok o =
      after_read
        (λ current left. combine op result current >>= λ next. combine_all k j op next left vs)
        (read_dynamic_set k j v work) read h in
    let (next, combined, on) =
      ok_parts (λ next. combine_all k j op next left vs) (combine op result set) chain in
    let (_, fresh) = read_dynamic_set-IsWellFormed k j v work set left read in
    let (final, eq, ordered, joined) =
      combine_all-IsJoined k j op next left vs sets o
        (combine-IsWellFormed op result set next w combined)
        (combine-KeepsOrder op result set next fresh kept combined) r on in
    (
      final,
      eq,
      ordered,
      (
        joined.0,
        λ s.
            joined.1 s
            ∙ ap (λ a. raw_over op s a sets) (raw_of-combine op result set next s fresh combined),
      ),
    )

-- If the two or more arguments are arrays that readDynamicSet reads as sets, one after the other
-- with the work that is left, and kqlSetOperation succeeds, then there is a set that is well formed
-- (distinct keys, a size that is the sum of the lengths of its keys and values, both limits kept)
-- and has, for each key, the value that the operation gives: for set_union that of the first
-- argument with the key, for set_intersect that of the first argument if all have the key, for
-- set_difference that of the first argument if no other has the key, and otherwise none; and the
-- result is the array of the values of this set, each of them once.
pub kql_set_operation-IsJoined :
    (k : Tokens) (j : Json) (op : SetOperation) (v : Value) (vs : List Value) (first : DynamicSet)
    (sets : List DynamicSet) (result : Value)
    → AreSets k j max_replacement_work (v ∷ vs) (first ∷ sets)
    → kql_set_operation k j op (v ∷ vs) ≡ ok result
    → (final : DynamicSet) × IsJoined op first sets final
      × ((entries : List (Text × Text)) × ShowsAll final entries
          × (lifted (rendered j (raws_of entries)) ≡ ok result))
unfolding kql_set_operation first_set
kql_set_operation-IsJoined k j op v vs first sets result (left, read, r) h =
    let (_, arity) = fail_if_parts _ _ _ h in
    let (_, known) = fail_if_parts (is_other op) unsupported_operation _ arity in
    let (o, combined, shown) =
      ok_parts (λ set. rendered_set j set) (first_set k j op (v ∷ vs)) known in
    let chain =
      after_read (λ first left. combine_all k j op first left vs)
        (read_dynamic_set k j v max_replacement_work) read combined in
    let (w, fresh) = read_dynamic_set-IsWellFormed k j v max_replacement_work first left read in
    let (final, eq, kept, joined) =
      combine_all-IsJoined k j op first left vs sets o w (IsFresh-KeepsOrder op first w.0 fresh) r
        chain in
    (
      final,
      joined,
      (
        kept_entries final final.order,
        kept_entries-ShowsAll final (KeepsOrder-IsOrdered op final joined.0.0 kept),
        ap (λ raws. lifted (rendered j raws)) (sym (kept_values-raws_of final final.order))
            ∙ ap (rendered_set j) (sym eq)
            ∙ shown,
      ),
    )
