-- ===== src/Kql/Ipv4/Round.antt =====
-- An address that `format_ipv4` writes is the one that `parse_ipv4` reads.
use striem.Common.Int.{pos}
use striem.Kql.Value.{Value, integer, text}
use striem.Kql.Ipv4.Functions.{
  has_slash, parse_ipv4_address, parse_ipv4_range, ipv4_bits, kql_parse_ipv4, format_ipv4,
  formatted_bits, effective_prefix,
}
use native.Mathlib.Nat.{div-mul-le_self}
use striem.Common.{
  List, [], length, ◌-◌, false, some, ◌^◌, ◌≤◌, ℕ, suc, ◌+◌, ◌*◌, ◌/◌, ◌%◌, ◌<◌, ◌≡◌, refl, ltb,
  arith, ◌⊎◌, inl, inr, ap, ◌∙◌, Bool-cases, ◌∷◌, ◌++◌,
}
use striem.Common.Text.{Text}
use striem.Kql.Ipv4.Netip.{parse_addr, addr_text, masked, is_empty, scan_fields, octet}

scan-digit :
    (d value digits fields bits : ℕ) {v : ℕ} (s : Text)
    → d < 10
    → v ≡ value * 10 + d
    → v < 256
    → (digits ≡ 0) ⊎ (0 < value)
    → scan_fields ((d + 48) ∷ s) value digits fields bits ≡ scan_fields s v (suc digits) fields bits
unfolding scan_fields
scan-digit d value digits fields bits {v} s a e b c =
    let same : scan_fields s (value * 10 + (d + 48 - 48)) (suc digits) fields bits
        ≡ scan_fields s v (suc digits) fields bits =
      ap (λ w. scan_fields s w (suc digits) fields bits) (omega arith) in
    ground (arith, same)

scan-dot :
    (value digits fields bits : ℕ) (s : Text)
    → 0 < digits
    → fields < 3
    → scan_fields (46 ∷ s) value digits fields bits
      ≡ scan_fields s 0 0 (suc fields) (bits * 256 + value)
unfolding scan_fields
scan-dot value digits fields bits s a b = ground arith

-- The digits of a field are read up to what follows.
scan-octet :
    (n fields bits : ℕ) (s : Text)
    → n < 256
    → (digits : ℕ) × (0 < digits)
      × (scan_fields (octet n ++ s) 0 0 fields bits ≡ scan_fields s n digits fields bits)
unfolding scan_fields octet
scan-octet n fields bits s h = elim (Bool-cases (ltb n 10)) [
  | inl one ↦ (
    1,
    omega arith,
    rw (octet, one)
        (scan-digit n 0 0 fields bits s (ground (arith, one)) (omega arith) h (inl refl)),
  )
  | inr more ↦ elim (Bool-cases (ltb n 100)) [
    | inl two ↦ (
      2,
      omega arith,
      rw (octet, more, two)
          (scan-digit (n / 10) 0 0 fields bits ((n % 10 + 48) ∷ s) (ground (arith, two))
              (omega arith) (omega arith) (inl refl)
            ∙ scan-digit (n % 10) (n / 10) 1 fields bits s (omega arith) (omega arith) h
                (inr (ground (arith, more)))),
    )
    | inr three ↦ (
      3,
      omega arith,
      rw (octet, more, three)
          (scan-digit (n / 100) 0 0 fields bits ((n / 10 % 10 + 48) ∷ (n % 10 + 48) ∷ s)
              (omega arith) (omega arith) (omega arith) (inl refl)
            ∙ scan-digit (n / 10 % 10) (n / 100) 1 fields bits {v = n / 10} ((n % 10 + 48) ∷ s)
                (omega arith) (omega arith) (omega arith) (inr (ground (arith, three)))
            ∙ scan-digit (n % 10) (n / 10) 2 fields bits s (omega arith) (omega arith) h
                (inr (ground (arith, more)))),
    )
  ]
]

scan-last :
    (value digits bits : ℕ)
    → 0 < digits
    → scan_fields [] value digits 3 bits ≡ some (bits * 256 + value)
unfolding scan_fields
scan-last value digits bits h = ground arith

pub parse_addr-addr_text : (a : ℕ) → a < 2 ^ 32 → parse_addr (addr_text a) ≡ some a
unfolding parse_addr addr_text
parse_addr-addr_text a h =
    let x = a / 2 ^ 24 in
    let y = a / 2 ^ 16 % 256 in
    let z = a / 2 ^ 8 % 256 in
    let w = a % 256 in
    let tail₄ = octet w ++ [] in
    let tail₃ = octet z ++ (46 ∷ tail₄) in
    let tail₂ = octet y ++ (46 ∷ tail₃) in
    let (n₁, k₁, e₁) = scan-octet x 0 0 (46 ∷ tail₂) (omega arith) in
    let (n₂, k₂, e₂) = scan-octet y 1 (0 * 256 + x) (46 ∷ tail₃) (omega arith) in
    let (n₃, k₃, e₃) = scan-octet z 2 ((0 * 256 + x) * 256 + y) (46 ∷ tail₄) (omega arith) in
    let (n₄, k₄, e₄) = scan-octet w 3 (((0 * 256 + x) * 256 + y) * 256 + z) [] (omega arith) in
    e₁
    ∙ scan-dot x n₁ 0 0 tail₂ k₁ (omega arith)
    ∙ e₂
    ∙ scan-dot y n₂ 1 (0 * 256 + x) tail₃ k₂ (omega arith)
    ∙ e₃
    ∙ scan-dot z n₃ 2 ((0 * 256 + x) * 256 + y) tail₄ k₃ (omega arith)
    ∙ e₄
    ∙ scan-last w n₄ (((0 * 256 + x) * 256 + y) * 256 + z) k₄
    ∙ ap some (omega arith)

octet_plain :
    (n size : ℕ) (s : Text)
    → n < 256
    → has_slash s ≡ false
    → length s ≤ size
    → (has_slash (octet n ++ s) ≡ false)
      × (is_empty (octet n ++ s) ≡ false)
      × (length (octet n ++ s) ≤ size + 3)
unfolding octet
octet_plain n size s h a b = ground arith

addr_text_plain :
    (a : ℕ)
    → a < 2 ^ 32
    → (has_slash (addr_text a) ≡ false)
      × (is_empty (addr_text a) ≡ false)
      × (length (addr_text a) ≤ 15)
unfolding addr_text
addr_text_plain a h =
    let z = a / 2 ^ 8 % 256 in
    let y = a / 2 ^ 16 % 256 in
    let tail₄ = octet (a % 256) ++ [] in
    let tail₃ = octet z ++ (46 ∷ tail₄) in
    let tail₂ = octet y ++ (46 ∷ tail₃) in
    let (p₄, _, l₄) = octet_plain (a % 256) 0 [] (omega arith) refl (omega arith) in
    let (p₃, _, l₃) = octet_plain z 4 (46 ∷ tail₄) (omega arith) p₄ (omega (arith, l₄)) in
    let (p₂, _, l₂) = octet_plain y 8 (46 ∷ tail₃) (omega arith) p₃ (omega (arith, l₃)) in
    octet_plain (a / 2 ^ 24) 12 (46 ∷ tail₂) (omega arith) p₂ (omega (arith, l₂))

masked_all : (a : ℕ) → masked a 32 ≡ a
unfolding masked
masked_all a = omega arith

masked-le : (a p : ℕ) → masked a p ≤ a
unfolding masked
masked-le a p = div-mul-le_self a (2 ^ (32 - p))

format_ipv4-number :
    (n p : ℕ) (masks : List Value)
    → n < 2 ^ 32
    → effective_prefix 32 masks ≡ some p
    → format_ipv4 (integer (pos n)) masks false ≡ addr_text (masked n p)
unfolding format_ipv4 formatted_bits
format_ipv4-number n p masks h e = ground (arith, e)

parse_ipv4_range-plain :
    (s : Text) {a : ℕ}
    → has_slash s ≡ false
    → is_empty s ≡ false
    → length s ≤ 15
    → parse_addr s ≡ some a
    → parse_ipv4_range s ≡ some (record { addr = a; bits = 32 })
unfolding parse_ipv4_range parse_ipv4_address
parse_ipv4_range-plain [] h some_text len e = absurd (cc some_text)
parse_ipv4_range-plain (c ∷ s) h some_text len e = ground (arith, h, e)

ipv4_bits-addr_text : (a : ℕ) → a < 2 ^ 32 → ipv4_bits (text (addr_text a)) ≡ some (a, 32)
unfolding ipv4_bits
ipv4_bits-addr_text a h =
    let (plain, some_text, len) = addr_text_plain a h in
    rw
      (
        ipv4_bits,
        parse_ipv4_range-plain (addr_text a) plain some_text len (parse_addr-addr_text a h),
        masked_all a,
      )
      refl

-- What `format_ipv4` writes for a 32-bit number and a mask is read back as the masked number.
pub parse-format_ipv4 :
    (n p : ℕ) (masks : List Value)
    → n < 2 ^ 32
    → effective_prefix 32 masks ≡ some p
    → kql_parse_ipv4 (text (format_ipv4 (integer (pos n)) masks false)) ≡ integer (pos (masked n p))
unfolding kql_parse_ipv4
parse-format_ipv4 n p masks h e =
    rw
      (
        kql_parse_ipv4,
        format_ipv4-number n p masks h e,
        ipv4_bits-addr_text (masked n p) (omega (arith, masked-le n p)),
      )
      refl
