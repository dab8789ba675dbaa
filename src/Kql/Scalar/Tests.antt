-- ===== src/Kql/Scalar/Tests.antt =====
-- Numbers in normal form, and the theorem on them.
use striem.Common.{◌≡◌, refl, true, false, some, arith}
use striem.Common.Int.{pos, negsuc, ◌+ℤ◌, ◌-ℤ◌, wrap64}
use striem.Common.Text.{codes}
use striem.Kql.Scalar.{Parser, NormalizedNumber, without_point, normalize_number}
use striem.Kql.Scalar.Normal.{IsNormal, without_point-IsNormal}

abbrev parser : Parser
parser = record { parse_int = λ _. some (pos 3); unmarshal_text = some }

abbrev half_and_more : NormalizedNumber
half_and_more = record { negative = true; digits = codes "1205"; scale = negsuc 2 }

normalizes : normalize_number parser (codes "-01.2050") ≡ some half_and_more
unfolding normalize_number ◌+ℤ◌ ◌-ℤ◌ wrap64
normalizes = refl

with_exponent :
    normalize_number parser (codes "12e3")
    ≡ some (record { negative = false; digits = codes "12"; scale = pos 3 })
unfolding normalize_number ◌+ℤ◌ ◌-ℤ◌ wrap64
with_exponent = refl

without_sign : without_point true (codes "01.2050") (pos 0) ≡ some half_and_more
unfolding without_point ◌+ℤ◌ ◌-ℤ◌ wrap64
without_sign = refl

without_point-IsNormal_example : IsNormal (codes "01.2050") (pos 0) true half_and_more
without_point-IsNormal_example =
    without_point-IsNormal true (codes "01.2050") (pos 0) half_and_more (omega arith, omega arith)
      (omega arith) without_sign
