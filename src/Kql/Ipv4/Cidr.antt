-- ===== src/Kql/Ipv4/Cidr.antt =====
-- `kqlIPv4RangeToCIDRList` cuts a range into blocks that hold each of its addresses once.
use native.Mathlib.Nat.{mul-div_cancel, one-le-pow, pow-le-pow_right, le_trans}
use striem.Common.{
  refl, ℕ, zero, suc, ◌+◌, ◌-◌, ◌*◌, ◌^◌, ◌≤◌, ◌≡◌, refl, Bool, true, false, ◌&&◌, ltb, leb,
  if◌then◌else◌, arith, inl, inr, Bool-cases, leb→le, List, [], ◌∷◌,
}
use striem.Kql.Ipv4.Netip.{Prefix, masked, contains, trailing_zeros, log2}
use striem.Kql.Ipv4.Functions.{block_bits, cidr_blocks, range_to_cidrs}
use striem.Kql.Ipv4.Blocks.{trailing_zeros-le, trailing_zeros-divides, pow-log2-le, block_lem}

-- How many of the blocks hold the address.
abbrev pub count_containing : ℕ → List Prefix → ℕ
count_containing x [] = 0
count_containing x (p ∷ ps) =
    let rest = count_containing x ps in if contains p x then suc rest else rest

record IsBlock (start last bits : ℕ) : Type 0 where
  few : bits ≤ 32
  fits : 2 ^ bits ≤ last - start + 1
  aligned : (q : ℕ) × (start ≡ q * 2 ^ bits)

block_bits-IsBlock : (start last : ℕ) → start ≤ last → IsBlock start last (block_bits start last)
unfolding block_bits
block_bits-IsBlock start last h =
    let tz : trailing_zeros 32 start ≤ 32 = trailing_zeros-le 32 start in
    let log : 2 ^ log2 63 (last - start + 1) ≤ last - start + 1 =
      pow-log2-le 63 (last - start + 1) (omega arith) in
    let divides = trailing_zeros-divides 32 start in
    chosen (trailing_zeros 32 start) (log2 63 (last - start + 1)) tz log divides
  where
    chosen :
        (t l : ℕ)
        → t ≤ 32
        → 2 ^ l ≤ last - start + 1
        → ((j : ℕ) → j ≤ t → (q : ℕ) × (start ≡ q * 2 ^ j))
        → IsBlock start last (if ltb l t then l else t)
    chosen t l a b d = elim (Bool-cases (ltb l t)) [
      | inl less ↦
          rw less
            (record { few = ground (arith, less); fits = b; aligned = d l (ground (arith, less)) })
      | inr more ↦ rw more (record {
        few = a;
        fits = le_trans (pow-le-pow_right {n = 2} (omega arith) (ground (arith, more))) b;
        aligned = d t (omega arith);
      })
    ]

contains_block :
    (start last bits x : ℕ)
    → IsBlock start last bits
    → contains (record { addr = start; bits = 32 - bits }) x
      ≡ leb start x && ltb x (start + 2 ^ bits)
unfolding masked
contains_block start last bits x b =
    let (q, e) = b.aligned in
    let bits_back : 32 - (32 - bits) ≡ bits = omega (arith, b.few) in
    rw (bits_back, e) (block_lem (2 ^ bits) q x (one-le-pow bits 2 (omega arith)))

cidr_blocks-more :
    (fuel start last : ℕ)
    → leb start last ≡ true
    → cidr_blocks (suc fuel) start last
      ≡ record { addr = start; bits = 32 - block_bits start last }
        ∷ cidr_blocks fuel (start + 2 ^ block_bits start last) last
unfolding cidr_blocks
cidr_blocks-more fuel start last h = ground (arith, h)

cidr_blocks_zero : (start last : ℕ) → cidr_blocks 0 start last ≡ []
unfolding cidr_blocks
cidr_blocks_zero start last = refl

cidr_blocks-done : (fuel start last : ℕ) → leb start last ≡ false → cidr_blocks fuel start last ≡ []
unfolding cidr_blocks
cidr_blocks-done zero start last h = refl
cidr_blocks-done (suc fuel) start last h = ground (arith, h)

abbrev one_if : Bool → ℕ
one_if b = if b then 1 else 0

-- A block of `size` addresses at the start, and what is behind it.
count_step :
    (x start last size : ℕ)
    → start ≤ last
    → 1 ≤ size
    → size ≤ last - start + 1
    → (if leb start x && ltb x (start + size)
        then suc (one_if (leb (start + size) x && leb x last))
        else one_if (leb (start + size) x && leb x last))
      ≡ one_if (leb start x && leb x last)
count_step x start last size a b c = ground arith

-- A range is cut into blocks that are aligned, lie in it and hold each of its addresses once.
pub cidr_blocks-count :
    (fuel start last x : ℕ)
    → suc last ≤ start + fuel
    → count_containing x (cidr_blocks fuel start last)
      ≡ (if leb start x && leb x last then 1 else 0)
cidr_blocks-count zero start last x h =
    rw (cidr_blocks-done zero start last (ground arith)) (ground arith)
cidr_blocks-count (suc fuel) start last x h = elim (Bool-cases (leb start last)) [
  | inr done ↦ rw (cidr_blocks-done (suc fuel) start last done) (ground (arith, done))
  | inl more ↦
      let le : start ≤ last = leb→le start last more in
      let size_pos : 1 ≤ 2 ^ block_bits start last =
        one-le-pow (block_bits start last) 2 (omega arith) in
      rw
        (
          cidr_blocks-more fuel start last more,
          contains_block start last (block_bits start last) x (block_bits-IsBlock start last le),
          cidr_blocks-count fuel (start + 2 ^ block_bits start last) last x
              (omega (arith, size_pos)),
        )
        (count_step x start last (2 ^ block_bits start last) le size_pos
          (block_bits-IsBlock start last le).fits)
]

-- The bits behind each prefix are 0, as `netip.Prefix.Masked` leaves them.
abbrev pub AreCanonical : List Prefix → Type 0
AreCanonical [] = Unit {0}
AreCanonical (p ∷ ps) = (masked p.addr p.bits ≡ p.addr) × AreCanonical ps

block_canonical : (start last bits : ℕ) → IsBlock start last bits → masked start (32 - bits) ≡ start
unfolding masked
block_canonical start last bits b =
    let (q, e) = b.aligned in
    let bits_back : 32 - (32 - bits) ≡ bits = omega (arith, b.few) in
    rw (bits_back, e, mul-div_cancel q (one-le-pow bits 2 (omega arith))) refl

blocks_canonical : (fuel start last : ℕ) → AreCanonical (cidr_blocks fuel start last)
blocks_canonical zero start last = rw (cidr_blocks_zero start last) tt
blocks_canonical (suc fuel) start last = elim (Bool-cases (leb start last)) [
  | inr done ↦ rw (cidr_blocks-done (suc fuel) start last done) tt
  | inl more ↦ rw (cidr_blocks-more fuel start last more) (
    block_canonical start last (block_bits start last)
        (block_bits-IsBlock start last (leb→le start last more)),
    blocks_canonical fuel (start + 2 ^ block_bits start last) last,
  )
]

-- The list for a range is of canonical prefixes. An address of the range is in exactly one of
-- them, and any other address in none.
pub range_to_cidrs-count :
    (start last : ℕ)
    → AreCanonical (range_to_cidrs start last)
      × ((x : ℕ)
          → count_containing x (range_to_cidrs start last)
            ≡ (if leb start x && leb x last then 1 else 0))
range_to_cidrs-count start last = (
  blocks_canonical (suc last - start) start last,
  λ x. cidr_blocks-count (suc last - start) start last x (omega arith),
)
