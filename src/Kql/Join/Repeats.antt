-- ===== src/Kql/Join/Repeats.antt =====
-- strrep gives so many copies of the text, or an error exactly if that is too long.
use native.Mathlib.Nat.{mul-suc}
use mathlib.Core.Path.{subst}
use mathlib.Core.List.{append_assoc, append-nil}
use striem.Common.{
  ℕ, zero, suc, ◌+◌, ◌-◌, ◌*◌, ◌≤◌, min, ◌≡◌, refl, sym, ap, ◌∙◌, true, false, not, ◌&&◌, ◌||◌, [],
  ◌∷◌, ◌++◌, ltb, if◌then◌else◌, length, length-append, replicate, Bool-cases, inl, inr, arith,
}
use striem.Common.Text.{Text}
use striem.Common.Int.{pos}
use striem.Common.Result.{Result, ok, err}
use striem.Kql.Value.{Value, null, text, integer}
use striem.Kql.Join.{
  Driver, JoinError, max_character_string_bytes, output_too_long, input_too_long, repeat_loop,
  is_empty, strrep_within, strrep,
}
use striem.Kql.Join.Limits.{tail, joined, bounded}

repeat_loop-later :
    (value delimiter output : Text) (n : ℕ)
    → repeat_loop value delimiter n false output ≡ output ++ tail delimiter (replicate n value)
unfolding repeat_loop
repeat_loop-later value delimiter output zero = sym (append-nil output)
repeat_loop-later value delimiter output (suc n) =
    repeat_loop-later value delimiter ((output ++ delimiter) ++ value) n
    ∙ append_assoc (output ++ delimiter) value (tail delimiter (replicate n value))
    ∙ append_assoc output delimiter (value ++ tail delimiter (replicate n value))

repeat_loop-joined :
    (value delimiter : Text) (n : ℕ)
    → repeat_loop value delimiter n true [] ≡ joined delimiter (replicate n value)
unfolding repeat_loop joined
repeat_loop-joined value delimiter zero = refl
repeat_loop-joined value delimiter (suc n) = repeat_loop-later value delimiter value n

length-tail :
    (value delimiter : Text) (n : ℕ)
    → length (tail delimiter (replicate n value)) ≡ length value * n + length delimiter * n
length-tail value delimiter zero = omega arith
length-tail value delimiter (suc n) = omega (
  arith,
  length-append delimiter (value ++ tail delimiter (replicate n value)),
  length-append value (tail delimiter (replicate n value)),
  length-tail value delimiter n,
  mul-suc (length value) n,
  mul-suc (length delimiter) n,
)

length-joined :
    (value delimiter : Text) (n : ℕ)
    → length (joined delimiter (replicate (suc n) value))
      ≡ length value * suc n + length delimiter * n
unfolding joined
length-joined value delimiter n = omega (
  arith,
  length-append value (tail delimiter (replicate n value)),
  length-tail value delimiter n,
  mul-suc (length value) n,
)

tail-nil : (n : ℕ) → tail [] (replicate n []) ≡ []
tail-nil zero = refl
tail-nil (suc n) = tail-nil n

joined-nil :
    (value delimiter : Text) (n : ℕ)
    → is_empty value && is_empty delimiter ≡ true
    → joined delimiter (replicate n value) ≡ []
unfolding is_empty joined
joined-nil [] [] zero h = refl
joined-nil [] [] (suc n) h = tail-nil n
joined-nil [] (c ∷ delimiter) n h = cc
joined-nil (c ∷ value) delimiter n h = cc

-- The last two branches.
abbrev copies : Text → Text → ℕ → Result JoinError Value
copies value delimiter count =
    if ltb max_character_string_bytes (length value * count + length delimiter * (count - 1))
    then err output_too_long
    else if is_empty value && is_empty delimiter
    then ok (text [])
    else ok (text (repeat_loop value delimiter count true []))

copies_lem :
    (value delimiter : Text) (n : ℕ)
    → copies value delimiter (suc n) ≡ bounded (joined delimiter (replicate (suc n) value))
unfolding bounded
copies_lem value delimiter n =
    ap
      (λ (r : Result JoinError Value).
        if ltb max_character_string_bytes (length value * suc n + length delimiter * (suc n - 1))
        then err output_too_long
        else r)
      whole
    ∙ ap
        (λ k.
          if ltb max_character_string_bytes k
          then err output_too_long
          else ok (text (joined delimiter (replicate (suc n) value))))
        (ap (λ k. length value * suc n + length delimiter * k) one_less
          ∙ sym (length-joined value delimiter n))
  where
    one_less : suc n - 1 ≡ n
    one_less = omega arith

    whole :
        Path
          (Result JoinError Value)
          (if is_empty value && is_empty delimiter
            then ok (text [])
            else ok (text (repeat_loop value delimiter (suc n) true [])))
          (ok (text (joined delimiter (replicate (suc n) value))))
    whole = elim (Bool-cases (is_empty value && is_empty delimiter)) [
      | inl nothing ↦
          rw nothing (ap (λ s. ok (text s)) (sym (joined-nil value delimiter (suc n) nothing)))
      | inr something ↦
          rw something (ap (λ s. ok (text s)) (repeat_loop-joined value delimiter (suc n)))
    ]

strrep_within-copies :
    (d : Driver) (value delimiter : Text) (count : ℕ)
    → d.valid value ≡ true
    → d.valid delimiter ≡ true
    → length value ≤ max_character_string_bytes
    → length delimiter ≤ max_character_string_bytes
    → strrep_within d value delimiter count ≡ copies value delimiter (min count 1024)
unfolding strrep_within
strrep_within-copies d value delimiter count valid valid' short short' =
    ap (λ b. if b then err input_too_long else rest) in_limits
    ∙ ap (λ b. if b then ok null else copies value delimiter (min count 1024)) both_valid
  where
    rest : Result JoinError Value
    rest =
        if not (d.valid value) || not (d.valid delimiter)
        then ok null
        else copies value delimiter (min count 1024)

    in_limits :
        ltb max_character_string_bytes (length value)
          || ltb max_character_string_bytes (length delimiter)
        ≡ false
    in_limits = ground (arith, short, short')

    both_valid : not (d.valid value) || not (d.valid delimiter) ≡ false
    both_valid = ground (arith, valid, valid')

-- strrep, for a text and a delimiter that are valid and within the limit, and a count from 1 to
-- 67108864, gives the copies with the delimiter between two, 1024 at most, or the error of the
-- limit exactly if that is too long.
pub strrep_lem :
    (d : Driver) (value delimiter : Text) (n : ℕ)
    → d.valid value ≡ true
    → d.valid delimiter ≡ true
    → length value ≤ max_character_string_bytes
    → length delimiter ≤ max_character_string_bytes
    → suc n ≤ 67_108_864
    → strrep d (text value) (integer (pos (suc n))) (text delimiter)
      ≡ bounded (joined delimiter (replicate (min (suc n) 1024) value))
unfolding strrep
strrep_lem d value delimiter n valid valid' short short' high =
    ap (λ b. if b then ok null else strrep_within d value delimiter (suc n)) in_range
    ∙ strrep_within-copies d value delimiter (suc n) valid valid' short short'
    ∙ subst (λ k. copies value delimiter k ≡ bounded (joined delimiter (replicate k value)))
        some_copies (copies_lem value delimiter (min n 1023))
  where
    in_range : ltb (suc n) 1 || ltb 67_108_864 (suc n) ≡ false
    in_range = ground (arith, high)

    some_copies : suc (min n 1023) ≡ min (suc n) 1024
    some_copies = omega arith
