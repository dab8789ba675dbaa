-- ===== src/Kql/Scalar.antt =====
-- `kqlScalar`, `normalizeNumber`, `decodeJSONScalar` and `sqliteScalarEqual` of
-- internal/database/sqlite_functions.go, and `decodeJSONSearchScalar` of kql_array_search.go, on
-- bytes.
pub mod Zeros
pub mod Point
pub mod Normal
pub mod Tests
use striem.Common.{
  ℕ, ◌-◌, ◌+◌, Bool, true, false, ◌||◌, ◌&&◌, List, [], ◌∷◌, ◌++◌, Option, none, some, ltb, ◌==◌,
  if◌then◌else◌, length,
}
use mathlib.Core.List.{reverse}
use striem.Common.Int.{ℤ, pos, ltb_ℤ, eqb_ℤ, ◌+ℤ◌, ◌-ℤ◌, min_int64, max_int64, wrap64}
use striem.Common.Text.{Text, codes, same}

-- `strconv.ParseInt` in base ten, and `json.Unmarshal` of a string.
pub record Parser : Type 0 where
  pub parse_int : Text → Option ℤ
  pub unmarshal_text : Text → Option Text

pub record NormalizedNumber : Type 0 where
  pub negative : Bool
  pub digits : Text
  pub scale : ℤ

pub data KqlScalar : Type 0 where
  text_scalar : Text → KqlScalar
  boolean_scalar : Text → KqlScalar
  number_scalar : NormalizedNumber → KqlScalar

-- What is before the first mark, and what is behind it; none where there is no mark.
abbrev pub onto : ℕ → Option (Text × Text) → Option (Text × Text)
onto c none = none
onto c (some (before, behind)) = some (c ∷ before, behind)

unfoldable pub cut : (ℕ → Bool) → Text → Option (Text × Text)
cut is_mark [] = none
cut is_mark (c ∷ s) = let rest = cut is_mark s in if is_mark c then some ([], s) else onto c rest

abbrev pub is_exponent : ℕ → Bool
is_exponent c = c == 101 || c == 69

abbrev pub is_point : ℕ → Bool
is_point c = c == 46

-- `strings.TrimLeft`, and `strings.TrimRight`, of zeros.
unfoldable pub trim_zeros : Text → Text
trim_zeros [] = []
trim_zeros (c ∷ s) = if c == 48 then trim_zeros s else c ∷ s

unfoldable pub trim_right_zeros : Text → Text
unfolding trim_zeros
trim_right_zeros s = reverse (trim_zeros (reverse s))

-- Whether the mantissa is empty without zeros and points.
unfoldable pub is_blank : Text → Bool
is_blank [] = true
is_blank (c ∷ s) = (c == 48 || c == 46) && is_blank s

abbrev pub zero_number : NormalizedNumber
zero_number = record { negative = false; digits = 48 ∷ []; scale = pos 0 }

-- From the trailing zeros on.
unfoldable pub without_trailing : Bool → Text → ℤ → Option NormalizedNumber
unfolding trim_right_zeros
without_trailing negative value scale =
    let kept = trim_right_zeros value in
    let trailing = length value - length kept in
    if ltb 0 trailing
    then (if ltb_ℤ (max_int64 -ℤ pos trailing) scale
        then none
        else some
            (record { negative = negative; digits = kept; scale = wrap64 (scale +ℤ pos trailing) }))
    else some (record { negative = negative; digits = value; scale = scale })

-- From the scale on, with the number of digits behind the point.
unfoldable pub scaled : Bool → ℤ → ℕ → Text → Option NormalizedNumber
unfolding without_trailing
scaled negative exponent fractional [] = some zero_number
scaled negative exponent fractional (c ∷ s) =
    if ltb_ℤ exponent (min_int64 +ℤ pos fractional)
    then none
    else without_trailing negative (c ∷ s) (wrap64 (exponent -ℤ pos fractional))

-- From the leading zeros on.
unfoldable pub without_leading : Bool → Text → ℤ → ℕ → Option NormalizedNumber
unfolding trim_zeros scaled
without_leading negative value exponent fractional =
    scaled negative exponent fractional (trim_zeros value)

-- The digits without the point, and how many of them are behind it.
abbrev pub point_parts : Text → Option (Text × Text) → Text × ℕ
point_parts value none = (value, 0)
point_parts value (some (whole, fraction)) = (whole ++ fraction, length fraction)

-- From the point on.
unfoldable pub without_point : Bool → Text → ℤ → Option NormalizedNumber
unfolding cut without_leading
without_point negative value exponent =
    let (digits, fractional) = point_parts value (cut is_point value) in
    without_leading negative digits exponent fractional

-- From the exponent on.
unfoldable pub without_exponent : Parser → Bool → Text → Option NormalizedNumber
unfolding cut without_point is_blank
without_exponent p negative value = elim (cut is_exponent value) [
  | none ↦ without_point negative value (pos 0)
  | some (mantissa, behind) ↦
      if is_blank mantissa then some zero_number else elim (p.parse_int behind) [
        | none ↦ none
        | some exponent ↦ without_point negative mantissa exponent
      ]
]

unfoldable pub normalize_number : Parser → Text → Option NormalizedNumber
unfolding without_exponent
normalize_number p [] = without_exponent p false []
normalize_number p (c ∷ s) =
    if c == 45
    then without_exponent p true s
    else if c == 43
    then without_exponent p false s
    else without_exponent p false (c ∷ s)

abbrev pub number_of : Option NormalizedNumber → Option KqlScalar
number_of none = none
number_of (some number) = some (number_scalar number)

abbrev pub text_of_json : Option Text → Option KqlScalar
text_of_json none = none
text_of_json (some s) = some (text_scalar s)

unfoldable pub decode_json_scalar : Parser → Text → Option KqlScalar
unfolding normalize_number
decode_json_scalar p [] = none
decode_json_scalar p (c ∷ s) =
    if c == 34
    then text_of_json (p.unmarshal_text (c ∷ s))
    else if c == 116
    then number_of (normalize_number p (codes "1"))
    else if c == 102
    then number_of (normalize_number p (codes "0"))
    else if c == 110 || c == 123 || c == 91
    then none
    else number_of (normalize_number p (c ∷ s))

unfoldable pub decode_json_search_scalar : Parser → Text → Option KqlScalar
unfolding decode_json_scalar
decode_json_search_scalar p raw =
    if same raw (codes "true") || same raw (codes "false")
    then some (boolean_scalar raw)
    else decode_json_scalar p raw

abbrev pub same_sign : Bool → Bool → Bool
same_sign true b = b
same_sign false true = false
same_sign false false = true

abbrev pub same_number : NormalizedNumber → NormalizedNumber → Bool
same_number a b = same_sign a.negative b.negative && same a.digits b.digits && eqb_ℤ a.scale b.scale

unfoldable pub sqlite_scalar_equal : KqlScalar → KqlScalar → Bool
sqlite_scalar_equal (text_scalar s) (text_scalar t) = same s t
sqlite_scalar_equal (boolean_scalar s) (boolean_scalar t) = same s t
sqlite_scalar_equal (number_scalar a) (number_scalar b) = same_number a b
sqlite_scalar_equal _ _ = false
