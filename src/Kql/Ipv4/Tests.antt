-- ===== src/Kql/Ipv4/Tests.antt =====
-- The IPv4 functions on some addresses, and the theorems on them.
use striem.Common.{ℕ, ◌≡◌, refl, true, false, ◌&&◌, leb, if◌then◌else◌, [], ◌∷◌, arith}
use striem.Common.Int.{pos}
use striem.Common.Text.{codes}
use striem.Kql.Value.{Value, null, integer, text, boolean}
use striem.Kql.Ipv4.Netip.{
  scan_fields, parse_addr, split_slash, parse_bits, parse_prefix, masked, octet, addr_text,
  prefix_text, trailing_zeros, log2,
}
use striem.Kql.Ipv4.Functions.{
  parse_ipv4_address, parse_ipv4_range, ipv4_bits, ipv4_prefix, kql_parse_ipv4, format_ipv4,
  effective_prefix, compare_ipv4, kql_ipv4_compare, kql_ipv4_is_private, block_bits, cidr_blocks,
  range_to_cidrs, kql_ipv4_range_to_cidr_list, kql_ipv4_netmask_suffix, kql_parse_ipv4_mask,
}
use striem.Kql.Ipv4.Cidr.{AreCanonical, count_containing, range_to_cidrs-count}
use striem.Kql.Ipv4.Round.{parse-format_ipv4}

abbrev addr : Value
addr = text (codes "10.1.2.3")

abbrev near : Value
near = text (codes "10.1.2.99/25")

parses : kql_parse_ipv4 addr ≡ integer (pos 0x0a01_0203)
unfolding kql_parse_ipv4 ipv4_bits parse_ipv4_range parse_ipv4_address parse_addr scan_fields masked
parses = refl

rejects_leading_zero : kql_parse_ipv4 (text (codes "10.1.02.3")) ≡ null
unfolding kql_parse_ipv4 ipv4_bits parse_ipv4_range parse_ipv4_address parse_addr scan_fields masked
rejects_leading_zero = refl

masks_range : kql_parse_ipv4 near ≡ integer (pos 0x0a01_0200)
unfolding kql_parse_ipv4 ipv4_bits parse_ipv4_range parse_prefix split_slash parse_bits parse_addr
    scan_fields masked
masks_range = refl

masks_again : kql_parse_ipv4_mask near (integer (pos 8)) ≡ integer (pos 0x0a00_0000)
unfolding kql_parse_ipv4_mask ipv4_bits ipv4_prefix parse_ipv4_range parse_prefix split_slash
    parse_bits parse_addr scan_fields masked
masks_again = refl

gives_suffix : kql_ipv4_netmask_suffix near ≡ integer (pos 25)
unfolding kql_ipv4_netmask_suffix ipv4_bits parse_ipv4_range parse_prefix split_slash parse_bits
    parse_addr scan_fields masked
gives_suffix = refl

is_private : kql_ipv4_is_private addr ≡ boolean true
unfolding kql_ipv4_is_private parse_ipv4_address parse_addr scan_fields masked
is_private = refl

orders : kql_ipv4_compare addr near [] ≡ integer (pos 0)
unfolding kql_ipv4_compare compare_ipv4 ipv4_bits effective_prefix parse_ipv4_range
    parse_ipv4_address parse_prefix split_slash parse_bits parse_addr scan_fields masked
orders = refl

lists_range :
    kql_ipv4_range_to_cidr_list (text (codes "10.0.0.1")) (text (codes "10.0.0.4"))
    ≡ text (codes "[\"10.0.0.1/32\",\"10.0.0.2/31\",\"10.0.0.4/32\"]")
unfolding kql_ipv4_range_to_cidr_list parse_ipv4_address parse_addr scan_fields cidr_blocks
    block_bits trailing_zeros log2 prefix_text addr_text octet
lists_range = refl

range_to_cidrs-count_example :
    AreCanonical (range_to_cidrs 5 260)
    × ((x : ℕ)
        → count_containing x (range_to_cidrs 5 260) ≡ (if leb 5 x && leb x 260 then 1 else 0))
range_to_cidrs-count_example = range_to_cidrs-count 5 260

parse-format_ipv4_example :
    kql_parse_ipv4 (text (format_ipv4 (integer (pos 0x0a01_0203)) (integer (pos 24) ∷ []) false))
    ≡ integer (pos (masked 0x0a01_0203 24))
unfolding effective_prefix ipv4_prefix
parse-format_ipv4_example =
    parse-format_ipv4 0x0a01_0203 24 (integer (pos 24) ∷ []) (omega arith) refl
