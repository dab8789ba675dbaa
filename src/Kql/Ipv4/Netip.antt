-- ===== src/Kql/Ipv4/Netip.antt =====
-- What kql_ipv4.go and sqlite_functions.go use of the standard library: the IPv4 part of net/netip
-- and the bit counts of math/bits. Texts are bytes; an IPv6 text is rejected behind both parsers.
use striem.Common.{
  ℕ, zero, suc, ◌+◌, ◌-◌, ◌*◌, ◌/◌, ◌%◌, ◌^◌, Bool, true, false, ◌&&◌, ◌||◌, [], ◌∷◌, ◌++◌, Option,
  none, some, ltb, leb, ◌==◌, if◌then◌else◌,
}
use striem.Common.Text.{Text}

abbrev pub is_digit : ℕ → Bool
is_digit c = leb 48 c && leb c 57

abbrev pub is_empty : Text → Bool
is_empty [] = true
is_empty (c ∷ s) = false

-- `parseIPv4Fields`: the value and the number of digits of the current field, the number of
-- fields before it and their bits.
unfoldable pub scan_fields : Text → ℕ → ℕ → ℕ → ℕ → Option ℕ
scan_fields [] value digits fields bits =
    if digits == 0 || ltb fields 3 then none else some (bits * 256 + value)
scan_fields (c ∷ s) value digits fields bits = elim (is_digit c) [
  | true ↦ elim ((digits == 1 && value == 0) || ltb 255 (value * 10 + (c - 48))) [
    | true ↦ none
    | false ↦ scan_fields s (value * 10 + (c - 48)) (suc digits) fields bits
  ]
  | false ↦ elim (c == 46 && ltb 0 digits && ltb fields 3) [
    | true ↦ scan_fields s 0 0 (suc fields) (bits * 256 + value)
    | false ↦ none
  ]
]

-- `netip.ParseAddr`, where the address is an IPv4 one.
unfoldable pub parse_addr : Text → Option ℕ
unfolding scan_fields
parse_addr s = scan_fields s 0 0 0 0

pub record Prefix : Type 0 where
  pub addr : ℕ
  pub bits : ℕ

-- The parts around the last slash.
unfoldable pub split_slash : Text → Option (Text × Text)
split_slash [] = none
split_slash (c ∷ s) = elim (split_slash s) [
  | some (before, after) ↦ some (c ∷ before, after)
  | none ↦ if c == 47 then some ([], s) else none
]

-- One or two digits, the first of two not 0; longer numbers are out of range anyhow.
unfoldable pub parse_bits : Text → Option ℕ
parse_bits (c ∷ []) = if is_digit c then some (c - 48) else none
parse_bits (c ∷ d ∷ []) =
    let n = (c - 48) * 10 + (d - 48) in
    if leb 49 c && leb c 57 && is_digit d && leb n 32 then some n else none
parse_bits _ = none

-- `netip.ParsePrefix`.
unfoldable pub parse_prefix : Text → Option Prefix
unfolding split_slash parse_addr parse_bits
parse_prefix s = elim (split_slash s) [
  | none ↦ none
  | some (before, after) ↦ elim (parse_addr before) [
    | none ↦ none
    | some a ↦ elim (parse_bits after) [
      | none ↦ none
      | some b ↦ some (record { addr = a; bits = b })
    ]
  ]
]

-- The upper `prefix` of 32 bits: `bits & (^uint32(0) << (32 - prefix))`.
unfoldable pub masked : ℕ → ℕ → ℕ
masked bits prefix = bits / 2 ^ (32 - prefix) * 2 ^ (32 - prefix)

-- `Prefix.Contains`.
abbrev pub contains : Prefix → ℕ → Bool
contains p a = masked a p.bits == masked p.addr p.bits

-- A number up to 255 in decimal.
unfoldable pub octet : ℕ → Text
octet n =
    if ltb n 10
    then (n + 48) ∷ []
    else if ltb n 100
    then (n / 10 + 48) ∷ (n % 10 + 48) ∷ []
    else (n / 100 + 48) ∷ (n / 10 % 10 + 48) ∷ (n % 10 + 48) ∷ []

-- `Addr.String` and `Prefix.String`.
unfoldable pub addr_text : ℕ → Text
unfolding octet
addr_text a =
    octet (a / 2 ^ 24)
    ++ (46 ∷ octet (a / 2 ^ 16 % 256)
        ++ (46 ∷ octet (a / 2 ^ 8 % 256) ++ (46 ∷ (octet (a % 256) ++ []))))

unfoldable pub prefix_text : Prefix → Text
unfolding addr_text octet
prefix_text p = addr_text p.addr ++ 47 ∷ octet p.bits

-- `bits.TrailingZeros32` for the first argument 32, and `bits.Len64 - 1` for 63.
unfoldable pub trailing_zeros : ℕ → ℕ → ℕ
trailing_zeros zero n = 0
trailing_zeros (suc k) n = let rest = trailing_zeros k (n / 2) in if n % 2 == 0 then suc rest else 0

unfoldable pub log2 : ℕ → ℕ → ℕ
log2 zero n = 0
log2 (suc k) n = let rest = log2 k (n / 2) in if ltb n 2 then 0 else suc rest
