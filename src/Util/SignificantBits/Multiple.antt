-- ===== src/Util/SignificantBits/Multiple.antt =====
-- A truncated number, rounded down once more to a multiple of a power of two.
use native.Mathlib.Nat.{
  div-mul-le_self, le-div_iff_mul-le, mul-le-mul_right, mul_assoc, mul-div_cancel, pow-le-pow_right,
}
use sector_blockchain.Prelude.{
  ℕ, zero, suc, ◌-◌, ◌*◌, ◌/◌, ◌^◌, ◌≤◌, ◌<◌, ◌≡◌, refl, ap, sym, ◌∙◌, arith, inl, inr,
}
use sector_blockchain.Prelude.Int.{pos}
use sector_blockchain.Util.SignificantBits.{bit_length, count_significant_bits}
use sector_blockchain.Util.SignificantBits.Bits.{pow_suc, pow_pos, lt-pow-bit_length, bit_length-le}
use sector_blockchain.Util.SignificantBits.Truncate.{
  truncated, truncated-le, lower, lower_lem, le_or_lt, count-multiple-le,
}

pub pow_split : (a p : ℕ) → a ≤ p → 2 ^ p ≡ 2 ^ (p - a) * 2 ^ a
pow_split zero p h = let e : p - 0 ≡ p = omega arith in rw e (omega arith)
pow_split (suc a) zero h = absurd (omega arith)
pow_split (suc a) (suc p) h =
    let e : suc p - suc a ≡ p - a = omega arith in
    rw e (
      omega (
        arith,
        pow_suc p,
        pow_split a p (omega arith),
        ap (λ (t : ℕ). 2 ^ (p - a) * t) (pow_suc a),
      ))

-- Rounding down to a multiple of a smaller power of two keeps a number above a power of two.
pow-le-round : (a p y : ℕ) → a ≤ p → 2 ^ p ≤ y → 2 ^ p ≤ y / 2 ^ a * 2 ^ a
pow-le-round a p y h le =
    let q : 2 ^ (p - a) ≤ y / 2 ^ a =
      (le-div_iff_mul-le (pow_pos a)).1 (omega (arith, pow_split a p h)) in
    omega (arith, pow_split a p h, mul-le-mul_right (2 ^ a) q)

pow_lt_inv : (a b : ℕ) → 2 ^ a < 2 ^ b → a < b
pow_lt_inv a zero h = absurd (omega (arith, pow_pos a))
pow_lt_inv zero (suc b) h = omega arith
pow_lt_inv (suc a) (suc b) h = omega (arith, pow_lt_inv a b (omega (arith, pow_suc a, pow_suc b)))

-- The top bit of a number that is not 0.
top_bit : (x : ℕ) → 0 < x → (p : ℕ) × (bit_length x ≡ suc p) × (2 ^ p ≤ x)
top_bit x h = go (bit_length x) refl
  where
    go : (n : ℕ) → bit_length x ≡ n → (p : ℕ) × (bit_length x ≡ suc p) × (2 ^ p ≤ x)
    go zero e = absurd (omega (arith, rw e at (lt-pow-bit_length x)))
    go (suc p) e = elim (le_or_lt (2 ^ p) x) [
      | inl le ↦ (p, e, le)
      | inr lt ↦ absurd (omega (arith, bit_length-le x p lt, e))
    ]

-- `x` truncated to `k` bits and then rounded down to a multiple of `2 ^ j`
unfoldable pub rounded : ℕ → ℕ → ℕ → ℕ
rounded x k j = truncated x k / 2 ^ j * 2 ^ j

pub rounded-le : (x k j : ℕ) → rounded x k j ≤ x
unfolding rounded
rounded-le x k j = omega (arith, div-mul-le_self (truncated x k) (2 ^ j), truncated-le x k)

module _ (x k j : ℕ) (keep : 0 < k) (big : 2 ^ j ≤ x) where
  -- the top bit survives
  pow-le-rounded_top :
      (p : ℕ) → bit_length x ≡ suc p → 2 ^ p ≤ x → (j ≤ p) × (2 ^ p ≤ rounded x k j)
  unfolding rounded truncated lower
  pow-le-rounded_top p e le =
      let small : j < suc p =
        pow_lt_inv j (suc p) (omega (arith, big, rw e at (lt-pow-bit_length x))) in
      (
        omega arith,
        pow-le-round j p _ (omega arith)
            (pow-le-round (bit_length x - k) p x (omega (arith, e, keep)) le),
      )

  pub lt-rounded : x < 2 * rounded x k j
  lt-rounded =
      let (p, e, le) = top_bit x (omega (arith, big, pow_pos j)) in
      let (_, top) = pow-le-rounded_top p e le in
      omega (arith, top, pow_suc p, rw e at (lt-pow-bit_length x))

  pub pow-le-rounded : 2 ^ j ≤ rounded x k j
  pow-le-rounded =
      let (p, e, le) = top_bit x (omega (arith, big, pow_pos j)) in
      let (small, top) = pow-le-rounded_top p e le in
      omega (arith, top, pow-le-pow_right {n = 2} (omega arith) small)

bit_length_mono : (y x : ℕ) → y ≤ x → bit_length y ≤ bit_length x
bit_length_mono y x h = bit_length-le y (bit_length x) (omega (arith, lt-pow-bit_length x))

-- Below the truncation the second rounding does nothing.
rounded-truncated : (x k j : ℕ) → j ≤ lower x k → rounded x k j ≡ truncated x k
unfolding rounded truncated
rounded-truncated x k j h =
    let e : x / 2 ^ lower x k * 2 ^ lower x k ≡ x / 2 ^ lower x k * 2 ^ (lower x k - j) * 2 ^ j =
      ap (λ (t : ℕ). x / 2 ^ lower x k * t) (pow_split j (lower x k) h) ∙ sym (mul_assoc _ _ _) in
    rw e (ap (λ (t : ℕ). t * 2 ^ j) (mul-div_cancel _ (pow_pos j)))

pub count-rounded : (x k j : ℕ) → count_significant_bits (pos (rounded x k j)) ≤ k
count-rounded x k j = elim (le_or_lt j (lower x k)) [
  | inl le ↦ rw (rounded-truncated x k j le) (
      unfold truncated in
      omega (
        arith,
        count-multiple-le (x / 2 ^ lower x k) (lower x k),
        lower_lem x k,
        bit_length_mono (truncated x k) x (truncated-le x k),
      ))
  | inr lt ↦
      unfold rounded in
      omega (
        arith,
        count-multiple-le (truncated x k / 2 ^ j) j,
        lower_lem x k,
        bit_length_mono (rounded x k j) x (rounded-le x k j),
      )
]
