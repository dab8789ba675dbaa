-- ===== src/Kql/Punycode/Round.antt =====
-- What is encoded of ASCII is decoded again.
use striem.Common.{
  ℕ, suc, ◌<◌, ◌≡◌, refl, true, false, [], ◌∷◌, ◌++◌, Option, some, ltb, if◌then◌else◌, length,
  length-append, arith,
}
use striem.Common.Text.{Text}
use striem.Kql.Punycode.{
  max_punycode_bytes, done, is_ascii, cut_last, decode_loop, punycode_decode, basic_runes,
  start_encoder, encode_loop, punycode_encode,
}

basic_runes-ascii : (t : Text) → is_ascii t ≡ true → basic_runes t ≡ t
unfolding basic_runes
basic_runes-ascii [] h = refl
basic_runes-ascii (c ∷ t) h =
    let (here, later) : (ltb c 0x80 ≡ true) × (is_ascii t ≡ true) = ground (arith, h) in
    rw (here, basic_runes-ascii t later) refl

cut_last-append : (t : Text) → cut_last (t ++ 45 ∷ []) ≡ some (t, [])
unfolding cut_last
cut_last-append [] = refl
cut_last-append (c ∷ t) = rw (cut_last-append t) refl

is_ascii-dash : (t : Text) → is_ascii t ≡ true → is_ascii (t ++ 45 ∷ []) ≡ true
is_ascii-dash [] h = refl
is_ascii-dash (c ∷ t) h = ground (arith, h, is_ascii-dash t (ground (arith, h)))

-- What is written of ASCII alone.
abbrev dashed : Text → Text
dashed t = if ltb 0 (length t) then t ++ 45 ∷ [] else t

-- Nothing is left to handle.
encode_loop-handled :
    (fuel : ℕ) (runes : Text) (basic n : ℕ)
    → encode_loop (suc fuel) runes basic n (start_encoder runes) ≡ done (dashed runes)
unfolding encode_loop
encode_loop-handled fuel runes basic n = ground arith

encode_ascii :
    (runes_of : Text → Option Text) (t : Text)
    → runes_of t ≡ some t
    → is_ascii t ≡ true
    → length t < max_punycode_bytes
    → punycode_encode runes_of t ≡ done (dashed t)
unfolding punycode_encode
encode_ascii runes_of t runes ascii short =
    let fits : ltb max_punycode_bytes (length t) ≡ false = ground (arith, short) in
    rw (fits, runes, basic_runes-ascii t ascii) (encode_loop-handled (length t) t (length t) 128)

decode_dash :
    (t : Text)
    → is_ascii t ≡ true
    → length t < max_punycode_bytes
    → punycode_decode (t ++ 45 ∷ []) ≡ done t
unfolding punycode_decode decode_loop
decode_dash t ascii short =
    let fits : ltb max_punycode_bytes (length (t ++ 45 ∷ [])) ≡ false =
      ground (arith, short, length-append t (45 ∷ [])) in
    rw (fits, is_ascii-dash t ascii, cut_last-append t) refl

decode_ascii :
    (t : Text)
    → is_ascii t ≡ true
    → length t < max_punycode_bytes
    → punycode_decode (dashed t) ≡ done t
decode_ascii [] ascii short = unfold punycode_decode in refl
decode_ascii (c ∷ t) ascii short =
    let some_basic : ltb 0 (length (c ∷ t)) ≡ true = ground arith in
    rw some_basic (decode_dash (c ∷ t) ascii short)

-- For every text of ASCII of fewer than 65,536 bytes, which are its runes, punycodeEncode succeeds,
-- and punycodeDecode gives the text back from what it wrote.
pub punycode_decode-encode :
    (runes_of : Text → Option Text) (t : Text)
    → runes_of t ≡ some t
    → is_ascii t ≡ true
    → length t < max_punycode_bytes
    → (encoded : Text) × (punycode_encode runes_of t ≡ done encoded)
      × (punycode_decode encoded ≡ done t)
punycode_decode-encode runes_of t runes ascii short =
    (dashed t, encode_ascii runes_of t runes ascii short, decode_ascii t ascii short)
