-- ===== src/Kql/Sets/Finishes.antt =====
-- The recursion of `readSetKey` ends on every input.
use striem.Common.{
  ℕ, zero, suc, ◌+◌, ◌*◌, ◌-◌, ◌≤◌, ◌≢◌, refl, inl, inr, List, [], ◌∷◌, ◌++◌, is_some, Bool-cases,
  ltb, ◌==◌, length, arith,
}
use striem.Common.Text.{Text, sort_texts}
use striem.Common.Result.{err, ◌>>=◌, ◌>>◌, fail_if}
use striem.Kql.Array.Elements.{max_replacement_parts}
use striem.Kql.Scalar.{Parser, normalize_number}
use striem.Kql.Sets.Fuel.{
  Finishes, Ends, Finishes->>=, Finishes-Ends, Finishes-fail_if, pay_key-Finishes,
  frame_set_key-Ends, frame_properties-Ends, number_key_of-Finishes, Finishes-weaken, at_end-Ends,
  Ends-after, pay_scalar-Ends, Ends-ne,
}
use striem.Kql.Sets.Key.{
  max_set_key_depth, names_of, repeated_property, boolean_key, too_deep, too_many_nodes,
  too_much_set_work, Token, Tokens, KeyState, unfinished, null_token, open_array, close_array,
  open_object, close_object, bad_token, boolean_token, string_token, number_token, frame_set_key,
  frame_properties, property_of, read_set_key, key_of_token, read_elements, read_properties,
  enough_fuel, set_value_key, with_left, visited, at_end, is_container, scalar_key,
}

-- What the fuel has to be for each function, on the tokens that are left.
abbrev KeyFinishes : Parser → ℕ → Type 0
KeyFinishes p fuel =
    (depth : ℕ) (st : KeyState)
    → 2 + 3 * length st.left ≤ fuel
    → Finishes (length st.left) (read_set_key p fuel depth st)

abbrev TokenFinishes : Parser → ℕ → Type 0
TokenFinishes p fuel =
    (depth : ℕ) (ts : List Token) (st : KeyState)
    → 1 + 3 * length ts ≤ fuel
    → Finishes (length ts) (key_of_token p fuel depth ts st)

abbrev ElementsFinish : Parser → ℕ → Type 0
ElementsFinish p fuel =
    (depth : ℕ) (buffer : Text) (ts : List Token) (st : KeyState)
    → 3 + 3 * length ts ≤ fuel
    → Finishes (length ts) (read_elements p fuel depth buffer ts st)

abbrev PropertiesFinish : Parser → ℕ → Type 0
PropertiesFinish p fuel =
    (depth : ℕ) (properties : List (Text × Text)) (ts : List Token) (st : KeyState)
    → 3 + 3 * length ts ≤ fuel
    → Finishes (length ts) (read_properties p fuel depth properties ts st)

read_set_key-step : (p : Parser) (fuel : ℕ) → TokenFinishes p fuel → KeyFinishes p (suc fuel)
unfolding read_set_key
read_set_key-step p fuel token depth st h =
    let next = key_of_token p fuel depth st.left (visited st) in
    let paid = fail_if (st.work == 0) too_much_set_work >> next in
    let counted = fail_if (st.nodes == 0) too_many_nodes >> paid in
    let last =
      Finishes-fail_if (length st.left) (st.work == 0) too_much_set_work next refl
        (token depth st.left (visited st) (omega (arith, h))) in
    let middle = Finishes-fail_if (length st.left) (st.nodes == 0) too_many_nodes paid refl last in
    Finishes-fail_if (length st.left) (ltb max_set_key_depth depth) too_deep counted refl middle

key_of_token-step :
    (p : Parser) (fuel : ℕ)
    → ElementsFinish p fuel
    → PropertiesFinish p fuel
    → TokenFinishes p (suc fuel)
unfolding read_set_key
key_of_token-step p fuel es ps depth [] st h = refl
key_of_token-step p fuel es ps depth (null_token ∷ ts) st h =
    pay_key-Finishes (suc (length ts)) (122 ∷ []) (with_left ts st) (omega arith)
key_of_token-step p fuel es ps depth (boolean_token b ∷ ts) st h =
    pay_key-Finishes (suc (length ts)) (boolean_key b) (with_left ts st) (omega arith)
key_of_token-step p fuel es ps depth (string_token s ∷ ts) st h =
    pay_key-Finishes (suc (length ts)) (115 ∷ s) (with_left ts st) (omega arith)
key_of_token-step p fuel es ps depth (number_token s ∷ ts) st h =
    number_key_of-Finishes (suc (length ts)) (normalize_number p s) (with_left ts st) (omega arith)
key_of_token-step p fuel es ps depth (open_array ∷ ts) st h =
    Finishes->>= (suc (length ts)) (read_elements p fuel depth (97 ∷ 91 ∷ []) ts st) _
      (es depth (97 ∷ 91 ∷ []) ts st (omega (arith, h)))
      (λ key after less. pay_key-Finishes (suc (length ts)) key after (omega (arith, less)))
key_of_token-step p fuel es ps depth (open_object ∷ ts) st h =
    Finishes->>= (suc (length ts)) (read_properties p fuel depth [] ts st) _
      (ps depth [] ts st (omega (arith, h)))
      (λ key after less. pay_key-Finishes (suc (length ts)) key after (omega (arith, less)))
key_of_token-step p fuel es ps depth (close_array ∷ ts) st h = refl
key_of_token-step p fuel es ps depth (close_object ∷ ts) st h = refl
key_of_token-step p fuel es ps depth (bad_token ∷ ts) st h = refl

-- A round that reads an element.
element-Finishes :
    (p : Parser) (fuel : ℕ)
    → KeyFinishes p fuel
    → ElementsFinish p fuel
    → (depth : ℕ) (buffer : Text) (ts : List Token) (st : KeyState) → 2 + 3 * length ts ≤ fuel
    → Finishes (length ts) (
        read_set_key p fuel (suc depth) (with_left ts st) >>= λ (child, after).
        frame_set_key buffer child >>= λ longer. read_elements p fuel depth longer after.left after)
element-Finishes p fuel ks es depth buffer ts st h =
    Finishes->>= (length ts) (read_set_key p fuel (suc depth) (with_left ts st)) _
      (ks (suc depth) (with_left ts st) h)
      (λ child after less.
        Finishes-Ends (length ts) (frame_set_key buffer child) _ (frame_set_key-Ends buffer child)
          (λ longer.
            Finishes-weaken (read_elements p fuel depth longer after.left after)
              (omega (arith, less)) (es depth longer after.left after (omega (arith, less, h)))))

read_elements-step :
    (p : Parser) (fuel : ℕ)
    → KeyFinishes p fuel
    → ElementsFinish p fuel
    → ElementsFinish p (suc fuel)
unfolding read_set_key
read_elements-step p fuel ks es depth buffer [] st h = refl
read_elements-step p fuel ks es depth buffer (close_array ∷ ts) st h = omega arith
read_elements-step p fuel ks es depth buffer (close_object ∷ ts) st h = refl
read_elements-step p fuel ks es depth buffer (null_token ∷ ts) st h =
    element-Finishes p fuel ks es depth buffer (null_token ∷ ts) st (omega (arith, h))
read_elements-step p fuel ks es depth buffer (boolean_token b ∷ ts) st h =
    element-Finishes p fuel ks es depth buffer (boolean_token b ∷ ts) st (omega (arith, h))
read_elements-step p fuel ks es depth buffer (string_token s ∷ ts) st h =
    element-Finishes p fuel ks es depth buffer (string_token s ∷ ts) st (omega (arith, h))
read_elements-step p fuel ks es depth buffer (number_token s ∷ ts) st h =
    element-Finishes p fuel ks es depth buffer (number_token s ∷ ts) st (omega (arith, h))
read_elements-step p fuel ks es depth buffer (open_array ∷ ts) st h =
    element-Finishes p fuel ks es depth buffer (open_array ∷ ts) st (omega (arith, h))
read_elements-step p fuel ks es depth buffer (open_object ∷ ts) st h =
    element-Finishes p fuel ks es depth buffer (open_object ∷ ts) st (omega (arith, h))
read_elements-step p fuel ks es depth buffer (bad_token ∷ ts) st h =
    element-Finishes p fuel ks es depth buffer (bad_token ∷ ts) st (omega (arith, h))

-- A round that reads a property whose name is new.
property-Finishes :
    (p : Parser) (fuel : ℕ)
    → KeyFinishes p fuel
    → PropertiesFinish p fuel
    → (depth : ℕ) (properties : List (Text × Text)) (name : Text) (ts : List Token) (st : KeyState)
    → 2 + 3 * suc (length ts) ≤ fuel
    → Finishes (suc (length ts)) (
        read_set_key p fuel (suc depth) (with_left ts st) >>= λ (child, after).
        read_properties p fuel depth (properties ++ (name, child) ∷ []) after.left after)
property-Finishes p fuel ks ps depth properties name ts st h =
    Finishes->>= (suc (length ts)) (read_set_key p fuel (suc depth) (with_left ts st)) _
      (ks (suc depth) (with_left ts st) (omega (arith, h)))
      (λ child after less.
        Finishes-weaken
          (read_properties p fuel depth (properties ++ (name, child) ∷ []) after.left after)
          (omega (arith, less)) (ps depth _ after.left after (omega (arith, less, h))))

read_properties-step :
    (p : Parser) (fuel : ℕ)
    → KeyFinishes p fuel
    → PropertiesFinish p fuel
    → PropertiesFinish p (suc fuel)
unfolding read_set_key
read_properties-step p fuel ks ps depth properties [] st h = refl
read_properties-step p fuel ks ps depth properties (close_object ∷ ts) st h =
    Finishes-Ends (suc (length ts))
      (frame_properties properties (111 ∷ 123 ∷ []) (sort_texts (names_of properties))) _
      (frame_properties-Ends properties (111 ∷ 123 ∷ []) (sort_texts (names_of properties)))
      (λ buffer. omega arith)
read_properties-step p fuel ks ps depth properties (string_token name ∷ ts) st h =
    Finishes-fail_if (suc (length ts)) (is_some (property_of name properties)) repeated_property _
      refl (property-Finishes p fuel ks ps depth properties name ts st (omega (arith, h)))
read_properties-step p fuel ks ps depth properties (close_array ∷ ts) st h = refl
read_properties-step p fuel ks ps depth properties (null_token ∷ ts) st h = refl
read_properties-step p fuel ks ps depth properties (boolean_token b ∷ ts) st h = refl
read_properties-step p fuel ks ps depth properties (number_token s ∷ ts) st h = refl
read_properties-step p fuel ks ps depth properties (open_array ∷ ts) st h = refl
read_properties-step p fuel ks ps depth properties (open_object ∷ ts) st h = refl
read_properties-step p fuel ks ps depth properties (bad_token ∷ ts) st h = refl

all-Finish :
    (p : Parser) (fuel : ℕ)
    → KeyFinishes p fuel × TokenFinishes p fuel × ElementsFinish p fuel × PropertiesFinish p fuel
all-Finish p zero = (
  λ depth st h. absurd (omega (arith, h)),
  λ depth ts st h. absurd (omega (arith, h)),
  λ depth buffer ts st h. absurd (omega (arith, h)),
  λ depth properties ts st h. absurd (omega (arith, h)),
)
all-Finish p (suc fuel) =
    let (ks, tokens, es, ps) = all-Finish p fuel in
    (
      read_set_key-step p fuel tokens,
      key_of_token-step p fuel es ps,
      read_elements-step p fuel ks es,
      read_properties-step p fuel ks ps,
    )

-- For every input and whatever its tokens are, setValueKey ends: the fuel of its recursion, three
-- for each token and two, is never used up.
pub set_value_key-ne-unfinished :
    (k : Tokens) (raw : Text) (work : ℕ) → set_value_key k raw work ≢ err unfinished
unfolding set_value_key
set_value_key-ne-unfinished k raw work = elim (Bool-cases (ltb work (length raw))) [
  | inl poor ↦ rw poor (λ eq. cc)
  | inr rich ↦ elim (Bool-cases (is_container raw)) [
    | inl container ↦ rw (rich, container) (Ends-ne _ (ends start))
    | inr scalar ↦ rw (rich, scalar) (Ends-ne _ (pay_scalar-Ends (scalar_key k raw) _))
  ]
]
  where
    start : KeyState
    start = record { work = work - length raw; nodes = max_replacement_parts; left = k.tokens raw }

    ends :
        (st : KeyState)
        → Ends (
            read_set_key k.parser (enough_fuel st.left) 0 st >>= λ (key, after).
            at_end key after.work after.left)
    ends st =
        Ends-after (length st.left) (read_set_key k.parser (enough_fuel st.left) 0 st) _
          ((all-Finish k.parser (enough_fuel st.left)).0 0 st (omega arith))
          (λ (key, after). at_end-Ends key after.work after.left)
