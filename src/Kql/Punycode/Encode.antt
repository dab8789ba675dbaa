-- ===== src/Kql/Punycode/Encode.antt =====
-- Encoding ends, and writes ASCII.
use striem.Common.{
  Option, none, some, sym, ℕ, zero, suc, ◌+◌, ◌-◌, ◌*◌, ◌/◌, ◌%◌, ◌≤◌, ◌<◌, ◌≡◌, refl, true, false,
  [], ◌∷◌, ◌++◌, ltb, ◌==◌, length, Bool-cases, inl, inr, arith,
}
use native.Mathlib.Nat.{mod-lt, div-le_self}
use striem.Common.Text.{Text}
use striem.Kql.Punycode.Delta.{punycode_threshold_bounds}
use striem.Kql.Punycode.Handled.{
  count_below, count_below-le, AreRunes, count_below-basic, pass_progress, handled-least_rune,
}
use striem.Kql.Punycode.{
  max_punycode_bytes, start_encoder, encode_runes, punycode_encode, limit, max_int,
  punycode_threshold, punycode_digit, Outcome, done, failed, unfinished, is_ascii, onto_digits,
  put_digits, appended, written, Encoder, least_rune, encode_rune, encode_pass, with_delta,
  encode_loop, basic_runes,
}

is_ascii-append : (s t : Text) → is_ascii s ≡ true → is_ascii t ≡ true → is_ascii (s ++ t) ≡ true
is_ascii-append [] t h k = k
is_ascii-append (c ∷ s) t h k = ground (arith, h, is_ascii-append s t (ground (arith, h)) k)

punycode_digit-lt : (d : ℕ) → d < 36 → ltb (punycode_digit d) 0x80 ≡ true
punycode_digit-lt d h = ground (arith, h)

-- The loops that wrote it ended, and it is ASCII.
abbrev IsAscii : Option Text → Type 0
IsAscii none = ⊥
IsAscii (some s) = is_ascii s ≡ true

onto_digits-IsAscii :
    (c : ℕ) (o : Option Text) → ltb c 0x80 ≡ true → IsAscii o → IsAscii (onto_digits c o)
onto_digits-IsAscii c none h k = k
onto_digits-IsAscii c (some s) h k = ground (arith, h, k)

-- Each round lowers the number, and below the threshold, which is positive, the loop ends.
put_digits-IsAscii : (fuel k q bias : ℕ) → q < fuel → IsAscii (put_digits fuel k q bias)
unfolding put_digits
put_digits-IsAscii zero k q bias le = absurd (omega (arith, le))
put_digits-IsAscii (suc fuel) k q bias le = elim (Bool-cases (ltb q (punycode_threshold k bias))) [
  | inl last ↦ rw (put_digits, last, punycode_digit-lt q (ground (arith, last, range))) refl
  | inr more ↦
      rw (put_digits, more)
        (onto_digits-IsAscii _ (put_digits fuel (k + 36) _ bias)
          (punycode_digit-lt
            (punycode_threshold k bias
              + (q - punycode_threshold k bias) % (36 - punycode_threshold k bias))
            digit)
          (put_digits-IsAscii fuel (k + 36) _ bias (shorter more)))
]
  where
    range : (1 ≤ punycode_threshold k bias) × (punycode_threshold k bias ≤ 26)
    range = punycode_threshold_bounds k bias

    digit :
        punycode_threshold k bias
          + (q - punycode_threshold k bias) % (36 - punycode_threshold k bias)
        < 36
    digit = omega (
      arith,
      range,
      mod-lt (q - punycode_threshold k bias) {m = 36 - punycode_threshold k bias}
          (omega (arith, range)),
    )

    shorter :
        ltb q (punycode_threshold k bias) ≡ false
        → (q - punycode_threshold k bias) / (36 - punycode_threshold k bias) < fuel
    shorter more = ground (
      arith,
      more,
      range,
      le,
      div-le_self (q - punycode_threshold k bias) (36 - punycode_threshold k bias),
    )

appended-IsAscii : (s t : Option Text) → IsAscii s → IsAscii t → IsAscii (appended s t)
appended-IsAscii none t h k = h
appended-IsAscii (some s) none h k = k
appended-IsAscii (some s) (some t) h k = is_ascii-append s t h k

encode_rune-IsAscii :
    (n basic : ℕ) (e : Encoder) (r : ℕ)
    → IsAscii e.output
    → IsAscii (encode_rune n basic e r).output
unfolding encode_rune
encode_rune-IsAscii n basic e r h = elim (Bool-cases (ltb r n)) [
  | inl below ↦ rw below h
  | inr above ↦ elim (Bool-cases (r == n)) [
    | inl here ↦
        rw (above, here)
          (appended-IsAscii e.output (put_digits (suc e.delta) 36 e.delta e.bias) h
            (put_digits-IsAscii (suc e.delta) 36 e.delta e.bias (omega arith)))
    | inr other ↦ rw (above, other) h
  ]
]

encode_pass-IsAscii :
    (n basic : ℕ) (e : Encoder) (rs : Text)
    → IsAscii e.output
    → IsAscii (encode_pass n basic e rs).output
unfolding encode_pass
encode_pass-IsAscii n basic e [] h = h
encode_pass-IsAscii n basic e (r ∷ rs) h =
    encode_pass-IsAscii n basic (encode_rune n basic e r) rs (encode_rune-IsAscii n basic e r h)

-- The fuel was enough, and what is written is ASCII.
abbrev pub Encodes : Outcome → Type 0
Encodes (done output) = is_ascii output ≡ true
Encodes failed = Unit {0}
Encodes unfinished = ⊥

written-Encodes : (o : Option Text) → IsAscii o → Encodes (written o)
written-Encodes none h = h
written-Encodes (some s) h = h

encode_loop-Encodes :
    (fuel : ℕ) (runes : Text) (basic n : ℕ) (e : Encoder)
    → AreRunes runes
    → n ≤ max_int
    → e.handled ≡ count_below n runes
    → length runes < e.handled + fuel
    → IsAscii e.output
    → Encodes (encode_loop fuel runes basic n e)
unfolding encode_loop
encode_loop-Encodes zero runes basic n e valid le count enough ascii =
    absurd (omega (arith, enough, count, count_below-le n runes))
encode_loop-Encodes (suc fuel) runes basic n e valid le count enough ascii =
    let m = least_rune n max_int runes in
    let delta = e.delta + (m - n) * (e.handled + 1) in
    elim (Bool-cases (ltb e.handled (length runes))) [
      | inr all ↦ rw (encode_loop, all) (written-Encodes e.output ascii)
      | inl more ↦ elim (Bool-cases (ltb limit delta)) [
        | inl high ↦ rw (encode_loop, more, high) tt
        | inr low ↦
            let (further, in_range) =
              pass_progress n runes valid le (ground (arith, more, count)) in
            let handled = handled-least_rune runes basic n (with_delta delta e) le count in
            rw (encode_loop, more, low)
              (encode_loop-Encodes fuel runes basic (m + 1) _ valid in_range handled
                (omega (arith, enough, handled, count, further))
                (encode_pass-IsAscii m basic (with_delta delta e) runes ascii))
      ]
    ]

is_ascii-basic_runes : (rs : Text) → is_ascii (basic_runes rs) ≡ true
unfolding basic_runes
is_ascii-basic_runes [] = refl
is_ascii-basic_runes (r ∷ rs) = ground (arith, is_ascii-basic_runes rs)

start_encoder-IsAscii :
    (basic : Text) → is_ascii basic ≡ true → IsAscii (start_encoder basic).output
start_encoder-IsAscii basic h = elim (Bool-cases (ltb 0 (length basic))) [
  | inl some_basic ↦ rw some_basic (is_ascii-append basic (45 ∷ []) h refl)
  | inr no_basic ↦ rw no_basic h
]

-- Where the runes of the input are at most 0x10FFFF, as those of UTF-8 are, the loops of
-- punycodeEncode end: the outer one does its test at most once more than the input has runes, and the
-- one that writes the digits of a number at most once more than the number says; and where it
-- accepts the input, the output is ASCII.
pub punycode_encode-Encodes :
    (runes_of : Text → Option Text) (input : Text)
    → ((runes : Text) → runes_of input ≡ some runes → AreRunes runes)
    → Encodes (punycode_encode runes_of input)
unfolding punycode_encode
punycode_encode-Encodes runes_of input valid =
    elim (Bool-cases (ltb max_punycode_bytes (length input))) [
      | inl long ↦ rw long tt
      | inr short ↦ rw short (encodes (runes_of input) valid)
    ]
  where
    encodes :
        (o : Option Text)
        → ((runes : Text) → o ≡ some runes → AreRunes runes)
        → Encodes (encode_runes o)
    encodes none h = tt
    encodes (some runes) h =
        encode_loop-Encodes (suc (length runes)) runes _ 128 (start_encoder (basic_runes runes))
          (h runes refl) (omega arith) (sym (count_below-basic runes)) (omega arith)
          (start_encoder-IsAscii (basic_runes runes) (is_ascii-basic_runes runes))
