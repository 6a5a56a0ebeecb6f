-- ===== src/Consensus/Difficulty/Adjust/Bounds.antt =====
-- The new values stay near the old ones, and the rounding never fails.
use native.Mathlib.Nat.{div-add-mod', div-le_self, mul-mod_left}
use sector_blockchain.Prelude.{
  ℕ, ◌-◌, ◌*◌, ◌/◌, ◌%◌, ◌^◌, ◌≤◌, ◌<◌, ◌≡◌, ap, arith, min, max, leb, if◌then◌else◌,
}
use sector_blockchain.Python.{ok, uint}
use sector_blockchain.Prelude.Int.{pos, abs}
use sector_blockchain.Util.SignificantBits.{truncate_to_significant_bits, count_significant_bits}
use sector_blockchain.Util.SignificantBits.Bits.{pow_pos}
use sector_blockchain.Util.SignificantBits.Truncate.{truncated, truncate-pos}
use sector_blockchain.Util.SignificantBits.Multiple.{
  rounded, rounded-le, lt-rounded, pow-le-rounded, count-rounded,
}
use sector_blockchain.Consensus.Constants.{ConsensusConstants}
use sector_blockchain.Consensus.Difficulty.Adjust.{adjust_sub_slot_iters, adjust_difficulty}

-- `num_sps_sub_slot` is the power of two that its comment asks for, at least one bit is kept, and
-- the factor is not 0.
pub record IsAdjustConstants (c : ConsensusConstants) (j : ℕ) : Type 0 where
  pub power : c.num_sps_sub_slot ≡ 2 ^ j
  pub keep : 0 < c.significant_bits
  pub factor : 0 < c.difficulty_change_max_factor

-- The value between the bounds, before it is rounded: `low` is the least value of the program.
pub bounded : ConsensusConstants → ℕ → ℕ → ℕ → ℕ
bounded c low precise last =
    if leb last precise
    then min precise (c.difficulty_change_max_factor * last)
    else max (max low precise) (last / c.difficulty_change_max_factor)

mul_grows : (n k : ℕ) → 0 < n → k ≤ n * k
mul_grows n k h = grind arith

module _ (c : ConsensusConstants) (j : ℕ) (h : IsAdjustConstants c j) where
  module _ (low precise last : ℕ) (le : low ≤ last) where
    low-le-bounded : low ≤ bounded c low precise last
    unfolding bounded
    low-le-bounded = ground (arith, mul_grows c.difficulty_change_max_factor last h.factor)

    bounded-le : bounded c low precise last ≤ c.difficulty_change_max_factor * last
    unfolding bounded
    bounded-le = ground (
      arith,
      mul_grows c.difficulty_change_max_factor last h.factor,
      div-le_self last c.difficulty_change_max_factor,
    )

    div-le-bounded : last / c.difficulty_change_max_factor ≤ bounded c low precise last
    unfolding bounded
    div-le-bounded = ground (
      arith,
      mul_grows c.difficulty_change_max_factor last h.factor,
      div-le_self last c.difficulty_change_max_factor,
    )

  abbrev abs_truncate :
      (x : ℕ)
      → abs (truncate_to_significant_bits (pos x) c.significant_bits)
        ≡ truncated x c.significant_bits
  abs_truncate x = ap abs (truncate-pos x c.significant_bits)

  sub_mod :
      (x : ℕ)
      → truncated x c.significant_bits - truncated x c.significant_bits % c.num_sps_sub_slot
        ≡ rounded x c.significant_bits j
  unfolding rounded
  sub_mod x = rw h.power (omega (arith, div-add-mod' (truncated x c.significant_bits) (2 ^ j)))

  rounded_mod : (x : ℕ) → rounded x c.significant_bits j % c.num_sps_sub_slot ≡ 0
  unfolding rounded
  rounded_mod x = rw h.power (mul-mod_left _ (2 ^ j))

  rounded_zero : (x : ℕ) → truncated x c.significant_bits ≡ rounded x c.significant_bits 0
  unfolding rounded
  rounded_zero x = omega arith

  -- The choice between the bounds, as both calls make it.
  choice_lem :
      (low precise last : ℕ)
      → low ≤ last
      → c.difficulty_change_max_factor * last < 2 ^ 64
      → (if leb last precise
          then uint 64 (min precise (c.difficulty_change_max_factor * last))
          else uint 64 (max (max low precise) (last / c.difficulty_change_max_factor)))
        ≡ ok (bounded c low precise last)
  unfolding bounded
  choice_lem low precise last le fits = ground (
    arith,
    mul_grows c.difficulty_change_max_factor last h.factor,
    div-le_self last c.difficulty_change_max_factor,
  )

  -- From iterations of at least one per signage point, where the greatest change fits 64 bits, and
  -- with constants whose factor of change and number of significant bits are not 0 and whose number
  -- of signage points is a power of two, the call returns, with no assertion failing. The new
  -- iterations are a multiple of the number of signage points and not 0, at most the factor above
  -- the old ones, more than half of what is the factor below them, and have no more significant
  -- bits than the constant allows.
  pub adjust_sub_slot_iters_bounds :
      (precise last : ℕ)
      → c.num_sps_sub_slot ≤ last
      → c.difficulty_change_max_factor * last < 2 ^ 64
      → (v : ℕ) × (adjust_sub_slot_iters c precise last ≡ ok v)
        × (v % c.num_sps_sub_slot ≡ 0)
        × (c.num_sps_sub_slot ≤ v)
        × (v ≤ c.difficulty_change_max_factor * last)
        × (last / c.difficulty_change_max_factor < 2 * v)
        × (count_significant_bits (pos v) ≤ c.significant_bits)
  unfolding adjust_sub_slot_iters
  adjust_sub_slot_iters_bounds precise last le fits =
      let x = bounded c c.num_sps_sub_slot precise last in
      let v = rounded x c.significant_bits j in
      let low = low-le-bounded c.num_sps_sub_slot precise last le in
      let high = bounded-le c.num_sps_sub_slot precise last le in
      let near = div-le-bounded c.num_sps_sub_slot precise last le in
      let big : 2 ^ j ≤ x = omega (arith, low, h.power) in
      let count = count-rounded x c.significant_bits j in
      let small = rounded-le x c.significant_bits j in
      (
        v,
        ground (
          arith,
          choice_lem c.num_sps_sub_slot precise last le fits,
          abs_truncate x,
          sub_mod x,
          count,
          small,
          high,
          h.factor,
          h.power,
          pow_pos j,
          mul_grows c.difficulty_change_max_factor last h.factor,
          div-le_self last c.difficulty_change_max_factor,
        ),
        rounded_mod x,
        omega (arith, h.power, pow-le-rounded x c.significant_bits j h.keep big),
        omega (arith, small, high),
        omega (arith, near, lt-rounded x c.significant_bits j h.keep big),
        count,
      )

  -- From a difficulty that is not 0, where the greatest change fits 64 bits, and with constants
  -- whose factor of change and number of significant bits are not 0 and whose number of signage
  -- points is a power of two, the call returns, with no assertion failing. The new difficulty is
  -- not 0, at most the factor above the old one, more than half of what is the factor below it, and
  -- has no more significant bits than the constant allows.
  pub adjust_difficulty_bounds :
      (precise last : ℕ)
      → 0 < last
      → c.difficulty_change_max_factor * last < 2 ^ 64
      → (v : ℕ) × (adjust_difficulty c precise last ≡ ok v)
        × (0 < v)
        × (v ≤ c.difficulty_change_max_factor * last)
        × (last / c.difficulty_change_max_factor < 2 * v)
        × (count_significant_bits (pos v) ≤ c.significant_bits)
  unfolding adjust_difficulty
  adjust_difficulty_bounds precise last pos_last fits =
      let x = bounded c 1 precise last in
      let v = rounded x c.significant_bits 0 in
      let low = low-le-bounded 1 precise last pos_last in
      let high = bounded-le 1 precise last pos_last in
      let near = div-le-bounded 1 precise last pos_last in
      let count = count-rounded x c.significant_bits 0 in
      let small = rounded-le x c.significant_bits 0 in
      (
        v,
        ground (
          arith,
          choice_lem 1 precise last pos_last fits,
          abs_truncate x,
          rounded_zero x,
          count,
          small,
          high,
          h.factor,
          mul_grows c.difficulty_change_max_factor last h.factor,
          div-le_self last c.difficulty_change_max_factor,
        ),
        omega (arith, pow-le-rounded x c.significant_bits 0 h.keep low),
        omega (arith, small, high),
        omega (arith, near, lt-rounded x c.significant_bits 0 h.keep low),
        count,
      )
