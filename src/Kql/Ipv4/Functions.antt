-- ===== src/Kql/Ipv4/Functions.antt =====
-- The functions of internal/database/kql_ipv4.go. `utf8.ValidString` is left out of
-- `parseIPv4Address`: the parsers behind it take no byte but digits, dots and a slash.
use striem.Common.{
  ℕ, zero, suc, ◌+◌, ◌-◌, ◌^◌, Bool, true, false, ◌||◌, List, [], ◌∷◌, ◌++◌, Option, none, some,
  ltb, leb, ◌==◌, if◌then◌else◌, length, map,
}
use striem.Common.Int.{ℤ, pos, negsuc}
use striem.Common.Text.{Text}
use striem.Kql.Value.{Value, null, integer, text, boolean}
use striem.Kql.Ipv4.Netip.{
  is_empty, parse_addr, Prefix, parse_prefix, masked, contains, addr_text, prefix_text, octet,
  trailing_zeros, log2,
}

abbrev pub max_ipv4_address_bytes : ℕ
max_ipv4_address_bytes = 18

abbrev pub has_slash : Text → Bool
has_slash [] = false
has_slash (c ∷ s) = c == 47 || has_slash s

unfoldable pub parse_ipv4_address : Text → Bool → Option ℕ
parse_ipv4_address value allow_prefix =
    if ltb (length value) 1 || ltb max_ipv4_address_bytes (length value)
    then none
    else if has_slash value
    then (if allow_prefix
        then elim (parse_prefix value) [ none ↦ none | some p ↦ some p.addr ]
        else none)
    else parse_addr value

unfoldable pub parse_ipv4_range : Text → Option Prefix
unfolding parse_ipv4_address
parse_ipv4_range value =
    if is_empty value || ltb max_ipv4_address_bytes (length value)
    then none
    else if has_slash value
    then elim (parse_prefix value) [
      | none ↦ none
      | some p ↦ some (record p { addr = masked p.addr p.bits })
    ]
    else elim (parse_ipv4_address value false) [
      | none ↦ none
      | some a ↦ some (record { addr = a; bits = 32 })
    ]

-- The masked bits and the length of the prefix.
unfoldable pub ipv4_bits : Value → Option (ℕ × ℕ)
unfolding parse_ipv4_range
ipv4_bits (text s) = elim (parse_ipv4_range s) [
  | none ↦ none
  | some p ↦ some (masked p.addr p.bits, p.bits)
]
ipv4_bits _ = none

unfoldable pub ipv4_prefix : Value → Option ℕ
ipv4_prefix (integer (pos n)) = if ltb 32 n then none else some n
ipv4_prefix _ = none

unfoldable pub kql_parse_ipv4 : Value → Value
unfolding ipv4_bits
kql_parse_ipv4 v = elim (ipv4_bits v) [ none ↦ null | some (bits, _) ↦ integer (pos bits) ]

unfoldable pub kql_parse_ipv4_mask : Value → Value → Value
unfolding ipv4_bits ipv4_prefix
kql_parse_ipv4_mask v mask = elim (ipv4_bits v) [
  | none ↦ null
  | some (bits, inherited) ↦ elim (ipv4_prefix mask) [
    | none ↦ null
    | some prefix ↦ integer (pos (masked bits (if ltb inherited prefix then inherited else prefix)))
  ]
]

unfoldable pub kql_ipv4_netmask_suffix : Value → Value
unfolding ipv4_bits
kql_ipv4_netmask_suffix v = elim (ipv4_bits v) [
  | none ↦ null
  | some (_, prefix) ↦ integer (pos prefix)
]

-- The switch on the value: the bits to format and the prefix that comes with them.
unfoldable pub formatted_bits : Value → Option (ℕ × ℕ)
unfolding ipv4_bits
formatted_bits (text s) = ipv4_bits (text s)
formatted_bits (integer (pos n)) = if ltb (2 ^ 32 - 1) n then none else some (n, 32)
formatted_bits _ = none

-- The prefix that the optional mask leaves; more masks than one are refused.
unfoldable pub effective_prefix : ℕ → List Value → Option ℕ
unfolding ipv4_prefix
effective_prefix inherited [] = some inherited
effective_prefix inherited (mask ∷ []) = elim (ipv4_prefix mask) [
  | none ↦ none
  | some explicit ↦ some (if ltb explicit inherited then explicit else inherited)
]
effective_prefix inherited (_ ∷ _ ∷ _) = none

unfoldable pub format_ipv4 : Value → List Value → Bool → Text
unfolding formatted_bits effective_prefix
format_ipv4 v masks with_mask = elim (formatted_bits v) [
  | none ↦ []
  | some (bits, inherited) ↦ elim (effective_prefix inherited masks) [
    | none ↦ []
    | some prefix ↦
        let result = addr_text (masked bits prefix) in
        if with_mask then result ++ 47 ∷ octet prefix else result
  ]
]

abbrev pub less : ℕ → ℕ → ℤ
less a b = if ltb a b then negsuc 0 else if ltb b a then pos 1 else pos 0

unfoldable pub compare_ipv4 : Value → Value → List Value → Option ℤ
unfolding ipv4_bits effective_prefix
compare_ipv4 left right masks = elim (ipv4_bits left) [
  | none ↦ none
  | some (a, left_prefix) ↦ elim (ipv4_bits right) [
    | none ↦ none
    | some (b, right_prefix) ↦
        elim (effective_prefix (if ltb right_prefix left_prefix then right_prefix else left_prefix)
          masks) [ none ↦ none | some prefix ↦ some (less (masked a prefix) (masked b prefix)) ]
  ]
]

unfoldable pub kql_ipv4_compare : Value → Value → List Value → Value
kql_ipv4_compare left right masks = elim (compare_ipv4 left right masks) [
  | none ↦ null
  | some order ↦ integer order
]

unfoldable pub kql_ipv4_is_match : Value → Value → List Value → Value
kql_ipv4_is_match left right masks = elim (compare_ipv4 left right masks) [
  | none ↦ null
  | some (pos zero) ↦ boolean true
  | some _ ↦ boolean false
]

-- 10.0.0.0/8, 172.16.0.0/12 and 192.168.0.0/16.
abbrev pub private_ipv4_prefixes : List Prefix
private_ipv4_prefixes =
    record { addr = 0x0a00_0000; bits = 8 }
    ∷ record { addr = 0xac10_0000; bits = 12 }
    ∷ record { addr = 0xc0a8_0000; bits = 16 }
    ∷ []

abbrev pub some_contains : List Prefix → ℕ → Bool
some_contains [] a = false
some_contains (p ∷ ps) a = contains p a || some_contains ps a

unfoldable pub kql_ipv4_is_private : Value → Value
unfolding parse_ipv4_address
kql_ipv4_is_private (text s) = elim (parse_ipv4_address s true) [
  | none ↦ null
  | some a ↦ boolean (some_contains private_ipv4_prefixes a)
]
kql_ipv4_is_private _ = null

-- The host bits of the largest aligned block that fits the addresses that remain.
unfoldable pub block_bits : ℕ → ℕ → ℕ
unfolding trailing_zeros log2
block_bits start last =
    let host_bits = trailing_zeros 32 start in
    let remaining_bits = log2 63 (last - start + 1) in
    if ltb remaining_bits host_bits then remaining_bits else host_bits

-- The loop of `kqlIPv4RangeToCIDRList`. Each round takes an address at least, so the fuel is the
-- number of addresses that are left.
unfoldable pub cidr_blocks : ℕ → ℕ → ℕ → List Prefix
unfolding block_bits
cidr_blocks zero start last = []
cidr_blocks (suc fuel) start last = elim (leb start last) [
  | false ↦ []
  | true ↦
      let host_bits = block_bits start last in
      record { addr = start; bits = 32 - host_bits } ∷ cidr_blocks fuel (start + 2 ^ host_bits) last
]

abbrev pub range_to_cidrs : ℕ → ℕ → List Prefix
range_to_cidrs start last = cidr_blocks (suc last - start) start last

-- `json.Marshal` of texts that need no escape.
abbrev pub json_strings : List Text → Text
json_strings [] = 93 ∷ []
json_strings (s ∷ []) = 34 ∷ s ++ 34 ∷ 93 ∷ []
json_strings (s ∷ t ∷ rest) = 34 ∷ s ++ 34 ∷ 44 ∷ json_strings (t ∷ rest)

unfoldable pub kql_ipv4_range_to_cidr_list : Value → Value → Value
unfolding parse_ipv4_address cidr_blocks
kql_ipv4_range_to_cidr_list (text first) (text last) = elim (parse_ipv4_address first false) [
  | none ↦ null
  | some a ↦ elim (parse_ipv4_address last false) [
    | none ↦ null
    | some b ↦
        if ltb b a then null else text (91 ∷ json_strings (map prefix_text (range_to_cidrs a b)))
  ]
]
kql_ipv4_range_to_cidr_list _ _ = null
