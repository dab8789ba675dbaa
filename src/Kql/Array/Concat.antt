-- ===== src/Kql/Array/Concat.antt =====
-- `kqlArrayConcat` of internal/database/kql_array_operations.go.
use striem.Common.{
  ℕ, ◌+◌, ◌-◌, ◌≤◌, ◌≡◌, refl, ap, ◌∙◌, inl, inr, ◌||◌, List, [], ◌∷◌, ◌++◌, Option, none, some,
  ltb, if◌then◌else◌, length, length-append, arith,
}
use striem.Common.Text.{Text}
use striem.Common.Result.{Result, ok, err, Result-cases}
use striem.Kql.Value.{Value, null, text}
use striem.Kql.Array.Elements.{
  max_replacement_parts, Json, ArrayError, too_many_elements, bad_arity, too_much_work,
  dynamic_array, append_array_element, append_all, rendered,
}

abbrev pub max_replacement_work : ℕ
max_replacement_work = 67_108_864

-- The bytes that an argument takes from the work limit.
abbrev pub text_bytes : Value → ℕ
text_bytes (text s) = length s
text_bytes _ = 0

-- The loop over the arguments, with the elements so far, the work that is left and the buffer; none
-- where an argument is no array.
unfoldable pub concat_loop : Json → ℕ → ℕ → Text → List Value → Result ArrayError (Option Text)
concat_loop j count work result [] = ok (some result)
concat_loop j count work result (v ∷ vs) =
    if ltb work (text_bytes v) then err too_much_work else elim (dynamic_array j v) [
      | err x ↦ err x
      | ok none ↦ ok none
      | ok (some elements) ↦
          if ltb max_replacement_parts (count + length elements)
          then err too_many_elements
          else elim (append_all j result elements) [
            | err x ↦ err x
            | ok longer ↦ concat_loop j (count + length elements) (work - text_bytes v) longer vs
          ]
    ]

unfoldable pub kql_array_concat : Json → List Value → Result ArrayError Value
unfolding concat_loop
kql_array_concat j values =
    if ltb (length values) 1 || ltb 64 (length values)
    then err bad_arity
    else elim (concat_loop j 0 max_replacement_work (91 ∷ []) values) [
      | err x ↦ err x
      | ok none ↦ ok null
      | ok (some result) ↦ ok (text (result ++ 93 ∷ []))
    ]

-- The elements of all arguments in a row, where each is an array.
abbrev pub Holds : Json → List Value → List Text → Type 0
Holds j [] all = all ≡ []
Holds j (v ∷ vs) all =
    (es : List Text) × (rest : List Text) × (dynamic_array j v ≡ ok (some es))
    × (all ≡ es ++ rest)
    × Holds j vs rest

abbrev pub total_bytes : List Value → ℕ
total_bytes [] = 0
total_bytes (v ∷ vs) = text_bytes v + total_bytes vs

append_all-append :
    (j : Json) (result : Text) (xs ys : List Text)
    → append_all j result (xs ++ ys)
      ≡ (elim (append_all j result xs) [ err x ↦ err x | ok longer ↦ append_all j longer ys ])
unfolding append_all
append_all-append j result [] ys = refl
append_all-append j result (x ∷ xs) ys = elim (Result-cases (append_array_element j result x)) [
  | inl (longer, e) ↦ ground (arith, e, append_all-append j longer xs ys)
  | inr (e, h) ↦ ground (arith, h)
]

abbrev wrapped : Result ArrayError Text → Result ArrayError (Option Text)
wrapped (err x) = err x
wrapped (ok t) = ok (some t)

concat_loop_lem :
    (j : Json) (count work : ℕ) (result : Text) (vs : List Value) (all : List Text)
    → Holds j vs all
    → count + length all ≤ max_replacement_parts
    → total_bytes vs ≤ work
    → concat_loop j count work result vs ≡ wrapped (append_all j result all)
unfolding concat_loop append_all
concat_loop_lem j count work result [] all h a b = rw h refl
concat_loop_lem j count work result (v ∷ vs) all (es, rest, e, split, h) a b =
    let len : length all ≡ length es + length rest = ap length split ∙ length-append es rest in
    let parts = append_all-append j result es rest in
    rw split (elim (Result-cases (append_all j result es)) [
      | inl (longer, g) ↦ ground (
        arith,
        e,
        g,
        len,
        parts,
        concat_loop_lem j (count + length es) (work - text_bytes v) longer vs rest h
            (omega (arith, len)) (omega (arith, b)),
      )
      | inr (x, g) ↦ ground (arith, e, g, len, parts)
    ])

kql_array_concat-wrapped :
    (j : Json) (values : List Value) (m : Result ArrayError Text)
    → 1 ≤ length values
    → length values ≤ 64
    → concat_loop j 0 max_replacement_work (91 ∷ []) values ≡ wrapped m
    → kql_array_concat j values
      ≡ (elim m [ err x ↦ err x | ok result ↦ ok (text (result ++ 93 ∷ [])) ])
unfolding kql_array_concat
kql_array_concat-wrapped j values (err x) a b h = ground (arith, h)
kql_array_concat-wrapped j values (ok t) a b h = ground (arith, h)

-- Of 1 to 64 arrays within the limits on elements and on bytes, `array_concat` writes the elements
-- in a row, as one array of them is written.
pub kql_array_concat-rendered :
    (j : Json) (values : List Value) (all : List Text)
    → 1 ≤ length values
    → length values ≤ 64
    → Holds j values all
    → length all ≤ max_replacement_parts
    → total_bytes values ≤ max_replacement_work
    → kql_array_concat j values ≡ rendered j all
unfolding rendered
kql_array_concat-rendered j values all a b h c d =
    kql_array_concat-wrapped j values (append_all j (91 ∷ []) all) a b
      (concat_loop_lem j 0 max_replacement_work (91 ∷ []) values all h (omega (arith, c)) d)
