-- ===== src/Kql/Array/Copies.antt =====
-- repeat writes the array of the copies, and never a text that is too long.
use striem.Common.{
  ℕ, zero, suc, ◌+◌, ◌-◌, ◌*◌, ◌/◌, ◌≤◌, ◌<◌, ◌≡◌, refl, sym, ◌↔◌, true, false, [], ◌∷◌, ◌++◌, some,
  ltb, if◌then◌else◌, length, length-append, replicate, Bool-cases, inl, inr, arith,
}
use mathlib.Core.List.{append_assoc}
use native.Mathlib.Nat.{le-div_iff_mul-le}
use striem.Common.Text.{Text}
use striem.Common.Result.{ok, err}
use striem.Kql.Value.{text}
use striem.Kql.Array.Elements.{
  Json, max_replacement_bytes, result_too_long, append_array_element, append_all, rendered,
}
use striem.Kql.Array.Rows.{repeat_copies, repeat_encoded}

module _ (j : Json) (encoded : Text) (compacts : j.compact encoded ≡ some encoded) where
  append_copy :
      (result : Text)
      → 2 ≤ length result
      → length result + length encoded + 2 ≤ max_replacement_bytes
      → append_array_element j result encoded ≡ ok ((result ++ 44 ∷ []) ++ encoded)
  unfolding append_array_element
  append_copy result le short =
      rw (append_array_element, compacts, append_assoc result (44 ∷ []) encoded)
        (ground (arith, le, short))

  append_copies :
      (n : ℕ) (result : Text)
      → 2 ≤ length result
      → length result + n * (length encoded + 1) + 1 ≤ max_replacement_bytes
      → append_all j result (replicate n encoded) ≡ ok (repeat_copies encoded n false result)
  unfolding append_all repeat_copies
  append_copies zero result le short = refl
  append_copies (suc n) result le short =
      rw (append_all, append_copy result le (grind (arith, short)))
        (append_copies n ((result ++ 44 ∷ []) ++ encoded) (omega (arith, le, count))
          (grind (arith, short, count)))
    where
      count : length ((result ++ 44 ∷ []) ++ encoded) ≡ length result + length encoded + 1
      count =
          omega (arith, length-append (result ++ 44 ∷ []) encoded, length-append result (44 ∷ []))

  rendered-copies :
      (n : ℕ)
      → 1 ≤ length encoded
      → 1 + suc n * (length encoded + 1) ≤ max_replacement_bytes
      → rendered j (replicate (suc n) encoded)
        ≡ ok (text (repeat_copies encoded (suc n) true (91 ∷ []) ++ 93 ∷ []))
  unfolding rendered repeat_copies append_all
  rendered-copies n some_bytes short = rw (rendered, whole_loop) refl
    where
      first : append_array_element j (91 ∷ []) encoded ≡ ok (91 ∷ encoded)
      first = rw (append_array_element, compacts) (grind (arith, short))

      whole_loop :
          append_all j (91 ∷ []) (replicate (suc n) encoded)
          ≡ ok (repeat_copies encoded n false (91 ∷ encoded))
      whole_loop =
          rw (append_all, first)
            (append_copies n (91 ∷ encoded) (omega (arith, some_bytes)) (grind (arith, short)))

  -- For an encoded value that is not empty and that json.Compact keeps, and one copy at least,
  -- kqlRepeat is the array of the copies as appendArrayElement writes it, or refused exactly if that
  -- array is longer than the limit.
  pub repeat_encoded-rendered :
      (n : ℕ)
      → 1 ≤ length encoded
      → repeat_encoded encoded (suc n) ≡ (
          if ltb max_replacement_bytes (1 + suc n * (length encoded + 1))
          then err result_too_long
          else rendered j (replicate (suc n) encoded))
  unfolding repeat_encoded
  repeat_encoded-rendered n some_bytes =
      elim (Bool-cases (ltb max_replacement_bytes (1 + suc n * (length encoded + 1)))) [
        | inl long ↦ rw (long, refused (ground (arith, long))) refl
        | inr short ↦
            rw (short, accepted (ground (arith, short)))
              (sym (rendered-copies n some_bytes (ground (arith, short))))
      ]
    where
      limit :
          (suc n ≤ (max_replacement_bytes - 1) / (length encoded + 1))
          ↔ (suc n * (length encoded + 1) ≤ max_replacement_bytes - 1)
      limit = le-div_iff_mul-le (omega arith)

      refused :
          max_replacement_bytes < 1 + suc n * (length encoded + 1)
          → ltb ((max_replacement_bytes - 1) / (length encoded + 1)) (suc n) ≡ true
      refused long =
          elim (Bool-cases (ltb ((max_replacement_bytes - 1) / (length encoded + 1)) (suc n))) [
            | inl yes_long ↦ yes_long
            | inr within ↦ absurd (omega (arith, long, limit.0 (ground (arith, within))))
          ]

      accepted :
          1 + suc n * (length encoded + 1) ≤ max_replacement_bytes
          → ltb ((max_replacement_bytes - 1) / (length encoded + 1)) (suc n) ≡ false
      accepted short = ground (arith, limit.1 (omega (arith, short)))
