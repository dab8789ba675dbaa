-- ===== src/Kql/Value.antt =====
-- The values that SQLite passes to a registered function, and those that it returns.
use striem.Common.{ℕ, Bool}
use striem.Common.Int.{ℤ}
use striem.Common.Text.{Text}

-- Texts are bytes here. A float is its 64 bits.
pub data Value : Type 0 where
  null : Value
  integer : ℤ → Value
  real : ℕ → Value
  text : Text → Value
  blob : Text → Value
  boolean : Bool → Value
