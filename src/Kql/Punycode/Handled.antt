-- ===== src/Kql/Punycode/Handled.antt =====
-- Which runes the outer loop of punycodeEncode has handled.
use striem.Common.{
  ℕ, ◌+◌, ◌≤◌, ◌<◌, ◌≡◌, refl, ap, ◌⊎◌, ◌&&◌, [], ◌∷◌, ltb, leb, ◌==◌, ==_iff, if◌then◌else◌,
  length, Bool-cases, inl, inr, arith,
}
use striem.Common.Text.{Text}
use striem.Kql.Punycode.{max_int, Encoder, least_rune, encode_rune, encode_pass, basic_runes}

pub count_below : ℕ → Text → ℕ
count_below n [] = 0
count_below n (r ∷ rs) = (if ltb r n then 1 else 0) + count_below n rs

pub count_below-le : (n : ℕ) (rs : Text) → count_below n rs ≤ length rs
unfolding count_below
count_below-le n [] = omega arith
count_below-le n (r ∷ rs) = ground (arith, count_below-le n rs)

count_of : ℕ → Text → ℕ
count_of n [] = 0
count_of n (r ∷ rs) = (if r == n then 1 else 0) + count_of n rs

count_below-suc : (m : ℕ) (rs : Text) → count_below (m + 1) rs ≡ count_below m rs + count_of m rs
unfolding count_below count_of
count_below-suc m [] = omega arith
count_below-suc m (r ∷ rs) = ground (arith, count_below-suc m rs)

least_rune-le : (n m : ℕ) (rs : Text) → least_rune n m rs ≤ m
unfolding least_rune
least_rune-le n m [] = omega arith
least_rune-le n m (r ∷ rs) =
    ground (arith, least_rune-le n (if leb n r && ltb r m then r else m) rs)

le-least_rune : (n m : ℕ) (rs : Text) → n ≤ m → n ≤ least_rune n m rs
unfolding least_rune
le-least_rune n m [] h = h
le-least_rune n m (r ∷ rs) h =
    le-least_rune n (if leb n r && ltb r m then r else m) rs (ground (arith, h))

-- No rune is from `n` on and below the least.
count_below-least :
    (n m k : ℕ) (rs : Text) → n ≤ k → k ≤ least_rune n m rs → count_below k rs ≡ count_below n rs
unfolding least_rune count_below
count_below-least n m k [] h le = refl
count_below-least n m k (r ∷ rs) h le = ground (
  arith,
  h,
  le,
  least_rune-le n (if leb n r && ltb r m then r else m) rs,
  count_below-least n (if leb n r && ltb r m then r else m) k rs h le,
)

-- The least rune is the start, or one of the runes.
least_rune_cases :
    (n m : ℕ) (rs : Text) → (least_rune n m rs ≡ m) ⊎ (1 ≤ count_of (least_rune n m rs) rs)
unfolding least_rune count_of
least_rune_cases n m [] = inl refl
least_rune_cases n m (r ∷ rs) =
    ground (arith, least_rune_cases n (if leb n r && ltb r m then r else m) rs)

handled-encode_rune :
    (n basic : ℕ) (e : Encoder) (r : ℕ)
    → (encode_rune n basic e r).handled ≡ e.handled + (if r == n then 1 else 0)
unfolding encode_rune
handled-encode_rune n basic e r = elim (Bool-cases (ltb r n)) [
  | inl below ↦ rw below (ground (arith, below))
  | inr above ↦ elim (Bool-cases (r == n)) [
    | inl here ↦ rw (above, here) refl
    | inr other ↦ rw (above, other) (omega arith)
  ]
]

handled-encode_pass :
    (n basic : ℕ) (e : Encoder) (rs : Text)
    → (encode_pass n basic e rs).handled ≡ e.handled + count_of n rs
unfolding encode_pass count_of
handled-encode_pass n basic e [] = omega arith
handled-encode_pass n basic e (r ∷ rs) = omega (
  arith,
  handled-encode_pass n basic (encode_rune n basic e r) rs,
  handled-encode_rune n basic e r,
)

-- What Go decodes from UTF-8.
abbrev pub AreRunes : Text → Type 0
AreRunes [] = Unit {0}
AreRunes (r ∷ rs) = (r ≤ 0x10ffff) × AreRunes rs

count_below-max : (rs : Text) → AreRunes rs → count_below max_int rs ≡ length rs
unfolding count_below
count_below-max [] h = refl
count_below-max (r ∷ rs) h = ground (arith, h.0, count_below-max rs h.1)

pub count_below-basic : (rs : Text) → count_below 128 rs ≡ length (basic_runes rs)
unfolding count_below basic_runes
count_below-basic [] = refl
count_below-basic (r ∷ rs) = ground (arith, count_below-basic rs)

count_of-le : (m : ℕ) (rs : Text) → AreRunes rs → 1 ≤ count_of m rs → m ≤ 0x10ffff
unfolding count_of
count_of-le m [] h some_one = absurd (omega (arith, some_one))
count_of-le m (r ∷ rs) h some_one = elim (Bool-cases (r == m)) [
  | inl here ↦ omega (arith, (==_iff r m).0 here, h.0)
  | inr other ↦ count_of-le m rs h.1 (ground (arith, other, some_one))
]

-- A pass for the least rune that is left handles one at least.
pub pass_progress :
    (n : ℕ) (rs : Text)
    → AreRunes rs
    → n ≤ max_int
    → count_below n rs < length rs
    → (count_below n rs < count_below (least_rune n max_int rs + 1) rs)
      × (least_rune n max_int rs + 1 ≤ max_int)
pass_progress n rs valid le more = elim (least_rune_cases n max_int rs) [
  | inl none_left ↦ absurd (
      omega
        (arith, more, count_below-max rs valid, same_count, ap (λ m. count_below m rs) none_left))
  | inr there ↦ (
    omega (arith, there, same_count, count_below-suc (least_rune n max_int rs) rs),
    omega (arith, count_of-le (least_rune n max_int rs) rs valid there),
  )
]
  where
    same_count : count_below (least_rune n max_int rs) rs ≡ count_below n rs
    same_count =
        count_below-least n max_int (least_rune n max_int rs) rs (le-least_rune n max_int rs le)
          (omega arith)

-- After a pass, all runes up to the least that was left are handled.
pub handled-least_rune :
    (runes : Text) (basic n : ℕ) (e : Encoder)
    → n ≤ max_int
    → e.handled ≡ count_below n runes
    → (encode_pass (least_rune n max_int runes) basic e runes).handled
      ≡ count_below (least_rune n max_int runes + 1) runes
handled-least_rune runes basic n e le count = omega (
  arith,
  handled-encode_pass (least_rune n max_int runes) basic e runes,
  count,
  count_below-suc (least_rune n max_int runes) runes,
  count_below-least n max_int (least_rune n max_int runes) runes (le-least_rune n max_int runes le)
      (omega arith),
)
