-- ===== src/Kql/Punycode/Decode.antt =====
-- Decoding ends, and gives valid runes, no more than the bytes it read.
use striem.Common.{
  ℕ, zero, suc, ◌+◌, ◌-◌, ◌/◌, ◌%◌, ◌≤◌, ◌<◌, ◌≡◌, ◌&&◌, refl, sym, ap, ◌∙◌, Bool, true, false, not,
  [], ◌∷◌, ◌++◌, Option, none, some, ltb, leb, ◌==◌, length, length-append, length-take,
  length-drop, take, drop, Bool-cases, ==_iff, Option-cases, inl, inr, arith,
}
use native.Mathlib.Nat.{mod-lt}
use striem.Common.Text.{Text}
use striem.Kql.Punycode.Delta.{read_delta-lt}
use striem.Kql.Punycode.{
  limit, max_punycode_bytes, read_delta, Outcome, done, failed, unfinished, is_refused, inserted,
  decode_loop, cut_last, behind_dash, is_ascii, decode_parts, punycode_decode,
}

-- A Unicode scalar value.
abbrev pub is_scalar : ℕ → Bool
is_scalar n = leb n 0x10ffff && not (leb 0xd800 n && leb n 0xdfff)

abbrev pub AreScalars : Text → Type 0
AreScalars [] = Unit {0}
AreScalars (c ∷ s) = (is_scalar c ≡ true) × AreScalars s

AreScalars-append : (s t : Text) → AreScalars s → AreScalars t → AreScalars (s ++ t)
AreScalars-append [] t h k = k
AreScalars-append (c ∷ s) t h k = (h.0, AreScalars-append s t h.1 k)

AreScalars-take : (n : ℕ) (s : Text) → AreScalars s → AreScalars (take n s)
AreScalars-take zero s h = tt
AreScalars-take (suc n) [] h = tt
AreScalars-take (suc n) (c ∷ s) h = (h.0, AreScalars-take n s h.1)

AreScalars-drop : (n : ℕ) (s : Text) → AreScalars s → AreScalars (drop n s)
AreScalars-drop zero s h = h
AreScalars-drop (suc n) [] h = tt
AreScalars-drop (suc n) (c ∷ s) h = AreScalars-drop n s h.1

AreScalars-inserted :
    (i rune : ℕ) (output : Text)
    → is_scalar rune ≡ true
    → AreScalars output
    → AreScalars (inserted i rune output)
AreScalars-inserted i rune output r h =
    AreScalars-append (take i output) (rune ∷ drop i output) (AreScalars-take i output h)
      (r, AreScalars-drop i output h)

length-inserted :
    (i rune : ℕ) (output : Text) → length (inserted i rune output) ≡ suc (length output)
length-inserted i rune output = omega (
  arith,
  length-append (take i output) (rune ∷ drop i output),
  length-take i output,
  length-drop i output,
)

-- The fuel was enough, and what is decoded is valid and no longer than the bound.
abbrev pub Decodes : ℕ → Outcome → Type 0
Decodes n (done output) = AreScalars output × (length output ≤ n)
Decodes n failed = Unit {0}
Decodes n unfinished = ⊥

Decodes-weaken : {m n : ℕ} (r : Outcome) → m ≤ n → Decodes m r → Decodes n r
Decodes-weaken (done output) le h = (h.0, omega (arith, le, h.1))
Decodes-weaken failed le h = tt
Decodes-weaken unfinished le h = h

not_refused :
    (rune count : ℕ)
    → is_refused rune count ≡ false
    → (is_scalar rune ≡ true) × (count < max_punycode_bytes)
not_refused rune count h = ground (arith, h)

-- What the next round starts from, where a rune is accepted.
abbrev Continues : ℕ → Text → ℕ → ℕ → Type 0
Continues next output rune more =
    (suc (next % suc (length output)) ≤ limit)
    × AreScalars (inserted (next % suc (length output)) rune output)
    × (length (inserted (next % suc (length output)) rune output) + more ≤ length output + suc more)

not_refused-Continues :
    (next : ℕ) (output : Text) (rune more : ℕ)
    → is_refused rune (length output) ≡ false
    → AreScalars output
    → Continues next output rune more
not_refused-Continues next output rune more good valid =
    let (scalar, room) = not_refused rune (length output) good in
    (
      omega (arith, room, mod-lt next {m = suc (length output)} (omega arith)),
      AreScalars-inserted (next % suc (length output)) rune output scalar valid,
      omega (arith, length-inserted (next % suc (length output)) rune output),
    )

decode_loop-Decodes :
    (fuel n i bias : ℕ) (output s : Text)
    → length s ≤ fuel
    → i ≤ limit
    → AreScalars output
    → Decodes (length output + length s) (decode_loop fuel n i bias output s)
unfolding decode_loop
decode_loop-Decodes fuel n i bias output [] enough le valid = (valid, omega arith)
decode_loop-Decodes zero n i bias output (c ∷ s) enough le valid = absurd (omega (arith, enough))
decode_loop-Decodes (suc fuel) n i bias output (c ∷ s) enough le valid =
    elim (Option-cases (read_delta bias 36 i 1 (c ∷ s))) [
      | inl bad ↦ rw (decode_loop, bad) tt
      | inr ((next, rest), read) ↦
          let rune = n + next / suc (length output) in
          let fewer = read_delta-lt bias i c next s rest le read in
          elim (Bool-cases (ltb (limit - n) (next / suc (length output)))) [
            | inl high ↦ rw (decode_loop, read, high) tt
            | inr low ↦ elim (Bool-cases (is_refused rune (length output))) [
              | inl bad ↦ rw (decode_loop, read, low, bad) tt
              | inr good ↦
                  let (in_range, scalars, longer) =
                    not_refused-Continues next output rune (length rest) good valid in
                  rw (decode_loop, read, low, good)
                    (Decodes-weaken _ (omega (arith, longer, fewer)) (
                      decode_loop-Decodes fuel rune (suc (next % suc (length output))) _
                        (inserted (next % suc (length output)) rune output) rest
                        (omega (arith, fewer, enough)) in_range scalars))
            ]
          ]
    ]

ascii-AreScalars : (s : Text) → is_ascii s ≡ true → AreScalars s
ascii-AreScalars [] h = tt
ascii-AreScalars (c ∷ s) h = (ground (arith, h), ascii-AreScalars s (ground (arith, h)))

-- The two parts of a text with a dash.
behind_dash_lem :
    (c : ℕ) (s before behind : Text) (parts : Option (Text × Text))
    → ((b t : Text) → parts ≡ some (b, t) → s ≡ b ++ 45 ∷ t)
    → behind_dash c s parts ≡ some (before, behind)
    → c ∷ s ≡ before ++ 45 ∷ behind
behind_dash_lem c s before behind none h eq = elim (Bool-cases (c == 45)) [
  | inl dash ↦
      let pair : Path (Text × Text) ([], s) (before, behind) = cc (dash, eq) in
      ap (λ d. d ∷ s) ((==_iff c 45).0 dash) ∙ ap (λ p. p.0 ++ 45 ∷ p.1) pair
  | inr other ↦ cc (other, eq)
]
behind_dash_lem c s before behind (some (b, t)) h eq =
    let pair : Path (Text × Text) (c ∷ b, t) (before, behind) = cc eq in
    ap (λ u. c ∷ u) (h b t refl) ∙ ap (λ p. p.0 ++ 45 ∷ p.1) pair

cut_last_lem :
    (s before behind : Text) → cut_last s ≡ some (before, behind) → s ≡ before ++ 45 ∷ behind
unfolding cut_last
cut_last_lem [] before behind h = cc
cut_last_lem (c ∷ s) before behind h =
    behind_dash_lem c s before behind (cut_last s) (cut_last_lem s) h

is_ascii-append : (s t : Text) → is_ascii (s ++ t) ≡ true → is_ascii s ≡ true
is_ascii-append [] t h = refl
is_ascii-append (c ∷ s) t h = ground (arith, h, is_ascii-append s t)

decode_parts-Decodes :
    (input : Text) (parts : Option (Text × Text))
    → cut_last input ≡ parts
    → is_ascii input ≡ true
    → Decodes (length input) (decode_parts input parts)
decode_parts-Decodes input none h ascii =
    Decodes-weaken (decode_loop (length input) 128 0 72 [] input) (omega arith)
      (decode_loop-Decodes (length input) 128 0 72 [] input (omega arith) (omega arith) tt)
decode_parts-Decodes input (some (before, behind)) h ascii =
    let whole = cut_last_lem input before behind h in
    let front : is_ascii before ≡ true =
      is_ascii-append before (45 ∷ behind) (ap is_ascii (sym whole) ∙ ascii) in
    Decodes-weaken (decode_loop (length behind) 128 0 72 before behind)
      (omega (arith, ap length whole, length-append before (45 ∷ behind)))
      (decode_loop-Decodes (length behind) 128 0 72 before behind (omega arith) (omega arith)
        (ascii-AreScalars before front))

-- For every input, the loops of punycodeDecode end; and where it accepts the input, every rune of
-- the output is a Unicode scalar value, and there are no more runes than the input has bytes.
pub punycode_decode-Decodes : (input : Text) → Decodes (length input) (punycode_decode input)
unfolding punycode_decode
punycode_decode-Decodes input = elim (Bool-cases (ltb max_punycode_bytes (length input))) [
  | inl long ↦ rw long tt
  | inr short ↦ elim (Bool-cases (is_ascii input)) [
    | inl ascii ↦ rw (short, ascii) (decode_parts-Decodes input (cut_last input) refl ascii)
    | inr other ↦ rw (short, other) tt
  ]
]
