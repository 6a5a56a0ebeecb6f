-- ===== src/Util/SignificantBits/Truncate.antt =====
-- A truncated number has as few significant bits as was asked for.
use native.Mathlib.Nat.{div-mul-le_self, div-add-mod', mod-lt}
use sector_blockchain.Prelude.{
  ℕ, zero, suc, ◌+◌, ◌-◌, ◌*◌, ◌/◌, ◌%◌, ◌^◌, ◌≤◌, ◌<◌, ◌≡◌, refl, ap, arith, ltb, tests,
  Bool-cases, ◌⊎◌, inl, inr,
}
use sector_blockchain.Prelude.Int.{pos}
use sector_blockchain.Util.SignificantBits.{
  bit_length, truncate_to_significant_bits, count_loop, and_bit, count_significant_bits,
}
use sector_blockchain.Util.SignificantBits.Bits.{
  pow_suc, pow_pos, div_pow_suc, bit_and_high, bit_and_bit, lt-pow-bit_length, bit_length-le,
}

-- The number of low bits that a truncation clears.
unfoldable pub lower : ℕ → ℕ → ℕ
lower x k = bit_length x - k

-- `x` without its low bits.
unfoldable pub truncated : ℕ → ℕ → ℕ
unfolding lower
truncated x k = x / 2 ^ lower x k * 2 ^ lower x k

pow_lower :
    (x k : ℕ) → 2 ^ bit_length x - 1 - (2 ^ lower x k - 1) ≡ 2 ^ bit_length x - 2 ^ lower x k
pow_lower x k = omega (arith, pow_pos (lower x k))

pub lower_lem : (x k : ℕ) → lower x k ≡ bit_length x - k
unfolding lower
lower_lem x k = refl

lower-le : (x k : ℕ) → lower x k ≤ bit_length x
unfolding lower
lower-le x k = omega arith

pub le_or_lt : (m n : ℕ) → (m ≤ n) ⊎ (n < m)
le_or_lt m n = omega arith

-- On a number that is not negative a truncation rounds down to a multiple of `2 ^ lower`.
pub truncate-pos : (x k : ℕ) → truncate_to_significant_bits (pos x) k ≡ pos (truncated x k)
unfolding truncate_to_significant_bits truncated
truncate-pos x k = elim (Bool-cases (ltb (bit_length x) k)) [
  | inl short ↦
      let e : lower x k ≡ 0 = unfold lower in omega (tests, short) in
      rw short (rw (e, lower) (ap pos (omega arith)))
  | inr long ↦
      rw (long, ← lower_lem, pow_lower)
        (ap pos (bit_and_high (lower x k) (bit_length x) x (lower-le x k) (lt-pow-bit_length x)))
]

pub truncated-le : (x k : ℕ) → truncated x k ≤ x
unfolding truncated
truncated-le x k = div-mul-le_self x (2 ^ lower x k)

-- A bit below `l` of a multiple of `2 ^ l` is clear.
low_bit_clear : (l i q : ℕ) → i < l → q * 2 ^ l / 2 ^ i % 2 ≡ 0
low_bit_clear zero i q h = absurd (omega arith)
low_bit_clear (suc l) zero q h = omega (arith, ap (λ (t : ℕ). q * t) (pow_suc l))
low_bit_clear (suc l) (suc i) q h =
    let half : q * 2 ^ suc l / 2 ≡ q * 2 ^ l = omega (arith, ap (λ (t : ℕ). q * t) (pow_suc l)) in
    rw (← div_pow_suc, half) (low_bit_clear l i q (omega arith))

count_loop-le :
    (rounds i q l : ℕ) → count_loop rounds i (pos (q * 2 ^ l)) ≤ bit_length (q * 2 ^ l) - l
unfolding count_loop and_bit
count_loop-le zero i q l = omega arith
count_loop-le (suc rounds) i q l = elim (le_or_lt l i) [
  | inl ge ↦ ground (arith, count_loop-le rounds (i + 1) q l)
  | inr lt ↦
      ground
        (arith, bit_and_bit i (q * 2 ^ l), low_bit_clear l i q lt, count_loop-le rounds (i + 1) q l)
]

bit_length-truncated : (x k : ℕ) → bit_length (truncated x k) ≤ bit_length x
bit_length-truncated x k =
    bit_length-le (truncated x k) (bit_length x)
      (omega (arith, truncated-le x k, lt-pow-bit_length x))

-- A multiple of `2 ^ l` has no significant bits below `l`.
pub count-multiple-le :
    (q l : ℕ) → count_significant_bits (pos (q * 2 ^ l)) ≤ bit_length (q * 2 ^ l) - l
unfolding count_significant_bits
count-multiple-le q l = count_loop-le (bit_length (q * 2 ^ l)) 0 q l

-- On a number that is not negative the result of a truncation is at most the number, the loss is
-- below the power of two above which `num_significant_bits` bits are kept, and the result has at
-- most `num_significant_bits` significant bits.
pub count-truncate :
    (x k : ℕ)
    → (t : ℕ) × (truncate_to_significant_bits (pos x) k ≡ pos t)
      × (t ≤ x)
      × (x < t + 2 ^ (bit_length x - k))
      × (count_significant_bits (pos t) ≤ k)
unfolding truncated lower
count-truncate x k = (
  truncated x k,
  truncate-pos x k,
  truncated-le x k,
  omega (arith, div-add-mod' x (2 ^ lower x k), mod-lt x {m = 2 ^ lower x k} (pow_pos (lower x k))),
  omega (arith, count-multiple-le (x / 2 ^ lower x k) (lower x k), bit_length-truncated x k),
)
