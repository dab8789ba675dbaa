-- ===== src/Common/Decimal.antt =====
-- `strconv.Itoa` and `strconv.FormatInt` in base ten.
use striem.Common.{ℕ, zero, suc, ◌+◌, ◌/◌, ◌%◌, true, false, [], ◌∷◌, ltb}
use striem.Common.Int.{ℤ, pos, negsuc}
use striem.Common.Text.{Text}

-- The number itself is the fuel: each step divides it by 10.
decimal_from : ℕ → ℕ → Text → Text
decimal_from zero n digits = digits
decimal_from (suc fuel) n digits = elim (ltb n 10) [
  | true ↦ (48 + n) ∷ digits
  | false ↦ decimal_from fuel (n / 10) ((48 + n % 10) ∷ digits)
]

unfoldable pub decimal : ℕ → Text
unfolding decimal_from
decimal n = decimal_from (suc n) n []

unfoldable pub format_int : ℤ → Text
unfolding decimal
format_int (pos n) = decimal n
format_int (negsuc n) = 45 ∷ decimal (suc n)
