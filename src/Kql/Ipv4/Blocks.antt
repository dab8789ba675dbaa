-- ===== src/Kql/Ipv4/Blocks.antt =====
-- Blocks of addresses: the alignment and the size that `kqlIPv4RangeToCIDRList` chooses.
use native.Mathlib.Nat.{mul-div_cancel, div-add-mod', mod-lt, mul-le-mul_right, pow-suc}
use striem.Common.{
  ℕ, zero, suc, ◌+◌, ◌*◌, ◌/◌, ◌%◌, ◌^◌, ◌≤◌, ◌<◌, ◌≡◌, ◌&&◌, ltb, leb, ◌==◌, arith, inl, inr, ap,
  Bool-cases,
}
use striem.Kql.Ipv4.Netip.{trailing_zeros, log2}

pub trailing_zeros-le : (k n : ℕ) → trailing_zeros k n ≤ k
unfolding trailing_zeros
trailing_zeros-le zero n = omega arith
trailing_zeros-le (suc k) n = ground (arith, trailing_zeros-le k (n / 2))

doubled : (n q j : ℕ) → n % 2 ≡ 0 → n / 2 ≡ q * 2 ^ j → n ≡ q * 2 ^ suc j
doubled n q j even e =
    let half : n ≡ 2 * (n / 2) = omega arith in grind (arith, half, e, pow-suc 2 j)

-- Every power of two up to that one divides the number.
pub trailing_zeros-divides : (k n j : ℕ) → j ≤ trailing_zeros k n → (q : ℕ) × (n ≡ q * 2 ^ j)
unfolding trailing_zeros
trailing_zeros-divides k n zero h = (n, omega arith)
trailing_zeros-divides zero n (suc j) h = absurd (omega (arith, h))
trailing_zeros-divides (suc k) n (suc j) h =
    let even : n % 2 ≡ 0 = ground arith in
    let (q, e) = trailing_zeros-divides k (n / 2) j (ground arith) in (q, doubled n q j even e)

pub pow-log2-le : (k n : ℕ) → 1 ≤ n → 2 ^ log2 k n ≤ n
unfolding log2
pow-log2-le zero n h = omega arith
pow-log2-le (suc k) n h =
    let half : 2 * (n / 2) ≤ n = omega arith in
    ground (arith, half, pow-log2-le k (n / 2), pow-suc 2 (log2 k (n / 2)))

-- A block of `m` addresses from a multiple of `m` on.
pub block_lem :
    (m q x : ℕ) → 0 < m → (x / m * m == q * m / m * m) ≡ (leb (q * m) x && ltb x (q * m + m))
block_lem m q x h =
    let parts : x / m * m + x % m ≡ x = div-add-mod' x m in
    let small : x % m < m = mod-lt x h in
    rw (mul-div_cancel q h) (elim (Bool-cases (ltb (x / m) q)) [
      | inl below ↦
          let le : suc (x / m) * m ≤ q * m = mul-le-mul_right m (ground (arith, below)) in
          ground (arith, le)
      | inr not_below ↦ elim (Bool-cases (ltb q (x / m))) [
        | inl above ↦
            let le : suc q * m ≤ x / m * m = mul-le-mul_right m (ground (arith, above)) in
            ground (arith, le)
        | inr not_above ↦
            let same : x / m ≡ q = ground (arith, not_below, not_above) in
            let equal : x / m * m ≡ q * m = ap (λ d. d * m) same in ground (arith, equal)
      ]
    ])
