-- ===== src/Kql/Punycode.antt =====
-- internal/database/kql_punycode.go: punycodeEncode and punycodeDecode, and in Domains the functions
-- around them. Inputs are bytes; the output of the decoder is its runes.
pub mod Delta
pub mod Decode
pub mod Handled
pub mod Encode
pub mod Round
pub mod Domains
pub mod Labels
pub mod Tests
use striem.Common.{
  ℕ, zero, suc, ◌+◌, ◌-◌, ◌*◌, ◌/◌, ◌%◌, ◌^◌, Bool, true, false, not, ◌&&◌, ◌||◌, List, [], ◌∷◌,
  ◌++◌, Option, none, some, ltb, leb, ◌==◌, if◌then◌else◌, length, take, drop,
}
use striem.Common.Text.{Text}

abbrev pub max_punycode_bytes : ℕ
max_punycode_bytes = 65_536

-- The largest int32.
abbrev pub limit : ℕ
limit = 2_147_483_647

-- The loop of punycodeAdapt, with the number itself as fuel: each round divides it by 35.
unfoldable pub adapt_loop : ℕ → ℕ → ℕ → ℕ
adapt_loop zero delta k = k + 36 * delta / (delta + 38)
adapt_loop (suc fuel) delta k =
    let rest = adapt_loop fuel (delta / 35) (k + 36) in
    if ltb 455 delta then rest else k + 36 * delta / (delta + 38)

unfoldable pub punycode_adapt : ℕ → ℕ → Bool → ℕ
unfolding adapt_loop
punycode_adapt delta points first =
    let damped = if first then delta / 700 else delta / 2 in
    let sum = damped + damped / points in adapt_loop sum sum 0

abbrev pub punycode_digit : ℕ → ℕ
punycode_digit d = if ltb d 26 then 97 + d else 48 + d - 26

unfoldable pub punycode_threshold : ℕ → ℕ → ℕ
punycode_threshold k bias = if leb k bias then 1 else if leb (bias + 26) k then 26 else k - bias

unfoldable pub digit_value : ℕ → Option ℕ
digit_value c =
    if leb 97 c && leb c 122
    then some (c - 97)
    else if leb 65 c && leb c 90
    then some (c - 65)
    else if leb 48 c && leb c 57
    then some (c - 48 + 26)
    else none

-- The inner loop of punycodeDecode: the number that the digits stand for, and what is behind them.
unfoldable pub read_delta : ℕ → ℕ → ℕ → ℕ → Text → Option (ℕ × Text)
unfolding digit_value punycode_threshold
read_delta bias k i w [] = none
read_delta bias k i w (c ∷ s) =
    let t = punycode_threshold k bias in
    elim (digit_value c) [
      | none ↦ none
      | some digit ↦
          if ltb ((limit - i) / w) digit
          then none
          else if ltb digit t
          then some (i + digit * w, s)
          else if ltb (limit / (36 - t)) w
          then none
          else read_delta bias (k + 36) (i + digit * w) (w * (36 - t)) s
    ]

-- `unfinished` is the end of the fuel.
pub data Outcome : Type 0 where
  done : Text → Outcome
  failed unfinished : Outcome

-- Whether the decoded rune is refused.
abbrev pub is_refused : ℕ → ℕ → Bool
is_refused n count =
    ltb 0x10ffff n || (leb 0xd800 n && leb n 0xdfff) || leb max_punycode_bytes count

abbrev pub inserted : ℕ → ℕ → Text → Text
inserted i rune output = take i output ++ rune ∷ drop i output

-- The outer loop of punycodeDecode.
unfoldable pub decode_loop : ℕ → ℕ → ℕ → ℕ → Text → Text → Outcome
decode_loop fuel n i bias output [] = done output
decode_loop zero n i bias output (c ∷ s) = unfinished
decode_loop (suc fuel) n i bias output (c ∷ s) = elim (read_delta bias 36 i 1 (c ∷ s)) [
  | none ↦ failed
  | some (next, rest) ↦
      let count = suc (length output) in
      let rune = n + next / count in
      if ltb (limit - n) (next / count)
      then failed
      else if is_refused rune (length output)
      then failed
      else decode_loop fuel rune (suc (next % count)) (punycode_adapt (next - i) count (i == 0))
          (inserted (next % count) rune output) rest
]

-- What is before the last `-`, if there is one, and what is behind it.
abbrev pub behind_dash : ℕ → Text → Option (Text × Text) → Option (Text × Text)
behind_dash c s none = if c == 45 then some ([], s) else none
behind_dash c s (some (before, behind)) = some (c ∷ before, behind)

unfoldable pub cut_last : Text → Option (Text × Text)
cut_last [] = none
cut_last (c ∷ s) = behind_dash c s (cut_last s)

abbrev pub is_ascii : Text → Bool
is_ascii [] = true
is_ascii (c ∷ s) = ltb c 0x80 && is_ascii s

abbrev pub decode_parts : Text → Option (Text × Text) → Outcome
decode_parts input none = decode_loop (length input) 128 0 72 [] input
decode_parts input (some (output, rest)) = decode_loop (length rest) 128 0 72 output rest

unfoldable pub punycode_decode : Text → Outcome
unfolding decode_loop cut_last
punycode_decode input =
    if ltb max_punycode_bytes (length input)
    then failed
    else if not (is_ascii input)
    then failed
    else decode_parts input (cut_last input)

abbrev pub onto_digits : ℕ → Option Text → Option Text
onto_digits c none = none
onto_digits c (some s) = some (c ∷ s)

-- The digits of a number; none is the end of the fuel.
unfoldable pub put_digits : ℕ → ℕ → ℕ → ℕ → Option Text
put_digits zero k q bias = none
put_digits (suc fuel) k q bias =
    let t = punycode_threshold k bias in
    let rest = put_digits fuel (k + 36) ((q - t) / (36 - t)) bias in
    if ltb q t
    then some (punycode_digit q ∷ [])
    else onto_digits (punycode_digit (t + (q - t) % (36 - t))) rest

-- No output is the end of the fuel in the loop that writes the digits of a number.
pub record Encoder : Type 0 where
  pub output : Option Text
  pub delta : ℕ
  pub bias : ℕ
  pub handled : ℕ

abbrev pub appended : Option Text → Option Text → Option Text
appended none t = none
appended (some s) none = none
appended (some s) (some t) = some (s ++ t)

abbrev pub written : Option Text → Outcome
written none = unfinished
written (some s) = done s

-- The least rune of `n` at least, or `m`.
unfoldable pub least_rune : ℕ → ℕ → Text → ℕ
least_rune n m [] = m
least_rune n m (r ∷ rs) = least_rune n (if leb n r && ltb r m then r else m) rs

-- One rune in the loop that writes the runes equal to `n`.
unfoldable pub encode_rune : ℕ → ℕ → Encoder → ℕ → Encoder
encode_rune n basic e r =
    if ltb r n
    then record { output = e.output; delta = e.delta + 1; bias = e.bias; handled = e.handled }
    else if r == n
    then record {
      output = appended e.output (put_digits (suc e.delta) 36 e.delta e.bias);
      delta = 0;
      bias = punycode_adapt e.delta (e.handled + 1) (e.handled == basic);
      handled = e.handled + 1;
    }
    else e

unfoldable pub encode_pass : ℕ → ℕ → Encoder → Text → Encoder
encode_pass n basic e [] = e
encode_pass n basic e (r ∷ rs) = encode_pass n basic (encode_rune n basic e r) rs

abbrev pub with_delta : ℕ → Encoder → Encoder
with_delta delta e = record { output = e.output; delta = delta; bias = e.bias; handled = e.handled }

abbrev pub max_int : ℕ
max_int = 9_223_372_036_854_775_807

-- The outer loop.
unfoldable pub encode_loop : ℕ → Text → ℕ → ℕ → Encoder → Outcome
encode_loop zero runes basic n e = unfinished
encode_loop (suc fuel) runes basic n e =
    let m = least_rune n max_int runes in
    let delta = e.delta + (m - n) * (e.handled + 1) in
    let after = encode_pass m basic (with_delta delta e) runes in
    let rest = encode_loop fuel runes basic (m + 1) (with_delta (after.delta + 1) after) in
    if ltb e.handled (length runes)
    then if ltb limit delta then failed else rest
    else written e.output

unfoldable pub basic_runes : Text → Text
basic_runes [] = []
basic_runes (r ∷ rs) = let rest = basic_runes rs in if ltb r 0x80 then r ∷ rest else rest

abbrev pub start_encoder : Text → Encoder
start_encoder basic = record {
  output = some (if ltb 0 (length basic) then basic ++ 45 ∷ [] else basic);
  delta = 0;
  bias = 72;
  handled = length basic;
}

abbrev pub encode_runes : Option Text → Outcome
encode_runes none = failed
encode_runes (some runes) =
    encode_loop (suc (length runes)) runes (length (basic_runes runes)) 128
      (start_encoder (basic_runes runes))

-- The runes of a text, none where it is not UTF-8, are an argument.
unfoldable pub punycode_encode : (Text → Option Text) → Text → Outcome
unfolding encode_loop basic_runes
punycode_encode runes_of input =
    if ltb max_punycode_bytes (length input) then failed else encode_runes (runes_of input)
