-- ===== src/Kql/Array/Cells.antt =====
-- zip turns its arrays into rows, within the limit on cells.
use striem.Common.{ℕ, ◌*◌, ◌≤◌, ◌≡◌, List, [], ◌∷◌, length}
use striem.Common.Text.{Text}
use striem.Common.Result.{Result}
use striem.Kql.Value.{Value}
use striem.Kql.Array.Elements.{max_replacement_parts}

-- None is longer than the size.
abbrev pub AreWithin : List (List Text) → ℕ → Type 0
AreWithin [] size = Unit {0}
AreWithin (array ∷ arrays) size = (length array ≤ size) × AreWithin arrays size

-- What reading says of the arrays.
abbrev pub IsRead : ℕ → ℕ → List Value → List (List Text) → ℕ → Type 0
IsRead count old values arrays size =
    (length arrays ≡ length values)
    × (old ≤ size)
    × (size * count ≤ max_replacement_parts)
    × AreWithin arrays size
