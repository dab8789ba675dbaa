-- ===== src/Kql/Scalar/Normal.antt =====
-- `normalizeNumber` keeps the value and leaves no zero at either end.
use striem.Common.{
  ℕ, ◌+◌, ◌-◌, ◌^◌, ◌<◌, ◌≡◌, refl, sym, ◌∙◌, ap, ◌⊎◌, inl, inr, Bool, false, [], ◌∷◌, ◌++◌, Option,
  some, ltb, length, length-append, Bool-cases, arith,
}
use mathlib.Core.List.{append-nil}
use mathlib.Core.Path.{subst}
use striem.Common.Int.{
  ℤ, pos, ltb_ℤ, ◌+ℤ◌, ◌-ℤ◌, min_int64, max_int64, wrap64, wrap64_fits, IsInt64,
}
use striem.Common.Text.{Text}
use striem.Kql.Scalar.Zeros.{
  zeros, starts_with_zero, trim_zeros_lem, starts_with_zero-trim_zeros, length-zeros,
  trim_right_zeros_lem, trim_right_zeros-positive, IsTrimmed, trim_right_zeros-IsTrimmed, together,
}
use striem.Kql.Scalar.Point.{cut_lengths, IsUnpointed, cut-IsUnpointed}
use striem.Kql.Scalar.{
  NormalizedNumber, trim_zeros, trim_right_zeros, without_trailing, without_leading, scaled,
  without_point, cut, is_point, point_parts, zero_number,
}

-- The digits, at least one, with zeros around them are the value, and the scale counts those behind.
abbrev pub IsNormalOf : Text → ℤ → NormalizedNumber → Type 0
IsNormalOf value scale n =
    (i : ℕ) × (k : ℕ) × (value ≡ zeros i ++ (n.digits ++ zeros k))
    × (n.scale ≡ scale +ℤ pos k)
    × (0 < length n.digits)
    × IsTrimmed n.digits

add_zero : (z : ℤ) → z ≡ z +ℤ pos 0
unfolding ◌+ℤ◌
add_zero z = ground arith

made_lem :
    (negative : Bool) (digits : Text) (scale : ℤ) (n : NormalizedNumber)
    → Path
        (Option NormalizedNumber)
        (some (record { negative = negative; digits = digits; scale = scale }))
        (some n)
    → (n.negative ≡ negative) × (n.digits ≡ digits) × (n.scale ≡ scale)
made_lem negative digits scale n h = (cc h, cc h, cc h)

-- Digits from which `k` zeros were taken.
made-IsNormalOf :
    (negative : Bool) (value digits : Text) (scale made_scale : ℤ) (k : ℕ) (n : NormalizedNumber)
    → value ≡ digits ++ zeros k
    → made_scale ≡ scale +ℤ pos k
    → 0 < length digits
    → IsTrimmed digits
    → Path
        (Option NormalizedNumber)
        (some (record { negative = negative; digits = digits; scale = made_scale }))
        (some n)
    → IsNormalOf value scale n × (n.negative ≡ negative)
made-IsNormalOf negative value digits scale made_scale k n eq scales some_digits trimmed h =
    let (same_negative, same_digits, same_scale) = made_lem negative digits made_scale n h in
    (
      (
        0,
        k,
        eq ∙ ap (λ d. d ++ zeros k) (sym same_digits),
        same_scale ∙ scales,
        omega (arith, some_digits, ap length same_digits),
        subst IsTrimmed (sym same_digits) trimmed,
      ),
      same_negative,
    )

without_trailing-IsNormalOf :
    (negative : Bool) (value : Text) (scale : ℤ) (n : NormalizedNumber)
    → starts_with_zero value ≡ false
    → 0 < length (trim_right_zeros value)
    → IsInt64 scale
    → length value < 2 ^ 62
    → without_trailing negative value scale ≡ some n
    → IsNormalOf value scale n × (n.negative ≡ negative)
unfolding without_trailing
without_trailing-IsNormalOf negative value scale n front some_kept fits short h =
    let (k, eq) = trim_right_zeros_lem value in
    let kept = trim_right_zeros value in
    let trailing = length value - length kept in
    let count : trailing ≡ k =
      omega (arith, ap length eq, length-append kept (zeros k), length-zeros k) in
    let trimmed = trim_right_zeros-IsTrimmed value front in
    elim (Bool-cases (ltb 0 trailing)) [
      | inl some_zeros ↦ elim (Bool-cases (ltb_ℤ (max_int64 -ℤ pos trailing) scale)) [
        | inl high ↦ cc (some_zeros, high, h)
        | inr low ↦
            let keeps : IsInt64 (scale +ℤ pos trailing) =
              unfold ◌+ℤ◌ ◌-ℤ◌ in ground (arith, low, fits, short) in
            made-IsNormalOf negative value kept scale (wrap64 (scale +ℤ pos trailing)) k n eq
              (wrap64_fits (scale +ℤ pos trailing) keeps ∙ ap (λ t. scale +ℤ pos t) count) some_kept
              trimmed (cc (some_zeros, low, h))
      ]
      | inr no_zeros ↦
          let none_left : k ≡ 0 = ground (arith, no_zeros, count) in
          let whole : value ≡ kept = eq ∙ ap (λ m. kept ++ zeros m) none_left ∙ append-nil kept in
          made-IsNormalOf negative value value scale scale 0 n (sym (append-nil value))
            (add_zero scale) (omega (arith, some_kept, ap length whole))
            (subst IsTrimmed (sym whole) trimmed) (cc (no_zeros, h))
    ]

scaled-IsNormalOf :
    (negative : Bool) (exponent : ℤ) (fractional : ℕ) (value : Text) (n : NormalizedNumber)
    → starts_with_zero value ≡ false
    → IsInt64 exponent
    → length value < 2 ^ 62
    → fractional < 2 ^ 62
    → scaled negative exponent fractional value ≡ some n
    → (n ≡ zero_number) × (value ≡ [])
      ⊎ (IsNormalOf value (exponent -ℤ pos fractional) n × (n.negative ≡ negative))
unfolding scaled
scaled-IsNormalOf negative exponent fractional [] n front fits short few h = inl (cc h, refl)
scaled-IsNormalOf negative exponent fractional (c ∷ s) n front fits short few h =
    elim (Bool-cases (ltb_ℤ exponent (min_int64 +ℤ pos fractional))) [
      | inl low ↦ cc (low, h)
      | inr high ↦
          let keeps : IsInt64 (exponent -ℤ pos fractional) =
            unfold ◌+ℤ◌ ◌-ℤ◌ in ground (arith, high, fits, few) in
          let exact = wrap64_fits (exponent -ℤ pos fractional) keeps in
          inr (
            without_trailing-IsNormalOf negative (c ∷ s) (exponent -ℤ pos fractional) n front
              (trim_right_zeros-positive c s front) keeps short
              (ap (without_trailing negative (c ∷ s)) (sym exact) ∙ cc (high, h)))
    ]

without_leading-IsNormalOf :
    (negative : Bool) (value : Text) (exponent : ℤ) (fractional : ℕ) (n : NormalizedNumber)
    → IsInt64 exponent
    → length value < 2 ^ 62
    → fractional < 2 ^ 62
    → without_leading negative value exponent fractional ≡ some n
    → (n ≡ zero_number) × ((i : ℕ) × (value ≡ zeros i))
      ⊎ (IsNormalOf value (exponent -ℤ pos fractional) n × (n.negative ≡ negative))
unfolding without_leading
without_leading-IsNormalOf negative value exponent fractional n fits short few h =
    let (i, eq) = trim_zeros_lem value in
    let count : length value ≡ i + length (trim_zeros value) =
      omega (arith, ap length eq, length-append (zeros i) (trim_zeros value), length-zeros i) in
    elim (scaled-IsNormalOf negative exponent fractional (trim_zeros value) n
      (starts_with_zero-trim_zeros value) fits (omega (arith, count, short)) few h) [
        | inl (zero_eq, empty) ↦
            inl (zero_eq, (i, eq ∙ ap (λ t. zeros i ++ t) empty ∙ append-nil (zeros i)))
        | inr ((a, k, digits, scale, some_digits, trimmed), sign) ↦ inr (
          (
            i + a,
            k,
            eq ∙ together i a (trim_zeros value) (n.digits ++ zeros k) digits,
            scale,
            some_digits,
            trimmed,
          ),
          sign,
        )
      ]

abbrev pub IsNormal : Text → ℤ → Bool → NormalizedNumber → Type 0
IsNormal value exponent negative n =
    (digits : Text) × (behind : ℕ) × IsUnpointed value digits behind
    × ((n ≡ zero_number) × ((i : ℕ) × (digits ≡ zeros i))
        ⊎ (IsNormalOf digits (exponent -ℤ pos behind) n × (n.negative ≡ negative)))

-- For a number without sign and exponent part, shorter than 2^62, and an exponent in int64: where
-- normalizeNumber accepts them, it gives the number 0 if all digits are zeros, or there are none;
-- otherwise it keeps the sign, and its digits, with some zeros in front and behind, are the digits
-- of the number without its first point, the scale is the exponent less the digits behind the point
-- plus the zeros that were taken from behind, and there is a digit, and the digits neither start nor
-- end with a zero.
pub without_point-IsNormal :
    (negative : Bool) (value : Text) (exponent : ℤ) (n : NormalizedNumber)
    → IsInt64 exponent
    → length value < 2 ^ 62
    → without_point negative value exponent ≡ some n
    → IsNormal value exponent negative n
unfolding without_point
without_point-IsNormal negative value exponent n fits short h =
    let (digits, fractional) = point_parts value (cut is_point value) in
    let (few, fewer) = cut_lengths is_point value in
    (
      digits,
      fractional,
      cut-IsUnpointed value,
      without_leading-IsNormalOf negative digits exponent fractional n fits
          (omega (arith, few, short)) (omega (arith, fewer, short)) h,
    )
