-- ===== src/Consensus/PotIterations/Infusion.antt =====
-- The infusion point of a block against its signage point.
use native.Mathlib.Nat.{mod-lt, mod-eq_of_lt, mod-eq-sub-mod, mul-le-mul_right}
use sector_blockchain.Prelude.{
  ℕ, ◌+◌, ◌-◌, ◌*◌, ◌/◌, ◌%◌, ◌^◌, ◌≤◌, ◌<◌, ◌≡◌, Bool, arith, ◌⊎◌, inl, inr, ltb, leb,
  if◌then◌else◌,
}
use sector_blockchain.Python.{ok}
use sector_blockchain.Consensus.Constants.{ConsensusConstants}
use sector_blockchain.Consensus.PotIterations.{
  is_overflow_block, calculate_sp_interval_iters, calculate_sp_iters, calculate_ip_iters,
  infusion_iters,
}

-- A chain's signage points: at least one, more than the extra intervals of an infusion.
pub record IsPotConstants (c : ConsensusConstants) : Type 0 where
  pub positive : 0 < c.num_sps_sub_slot
  pub extra : c.num_sp_intervals_extra < c.num_sps_sub_slot

-- A block's place: `interval` iterations between signage points, of which the sub-slot holds a
-- whole number, a signage point of the sub-slot, and required iterations below the interval.
pub record IsPlace (c : ConsensusConstants) (interval i required : ℕ) : Type 0 where
  pub fits : c.num_sps_sub_slot * interval < 2 ^ 64
  pub index : i < c.num_sps_sub_slot
  pub above : 0 < required
  pub below : required < interval

mul-div : (n k : ℕ) → 0 < n → n * k / n ≡ k
mul-div n k h = grind arith

mul-mod : (n k : ℕ) → n * k % n ≡ 0
mul-mod n k = grind arith

le_or_lt : (m n : ℕ) → (m ≤ n) ⊎ (n < m)
le_or_lt m n = omega arith

mod_wrap : (x m : ℕ) → m ≤ x → x < m + m → x % m + m ≡ x
mod_wrap x m h k = omega (arith, mod-eq-sub-mod h, mod-eq_of_lt {n = x - m} {m = m} (omega arith))

mul_grows : (k n : ℕ) → 0 < n → k ≤ n * k
mul_grows k n h = grind arith

mul_mono_lt : (k i n : ℕ) → 0 < k → i < n → k * i + k ≤ n * k
mul_mono_lt k i n pos h = grind arith

module _ (c : ConsensusConstants) (h : IsPotConstants c) where
  pub interval_lem :
      (k : ℕ)
      → c.num_sps_sub_slot * k < 2 ^ 64
      → calculate_sp_interval_iters c (c.num_sps_sub_slot * k) ≡ ok k
  unfolding calculate_sp_interval_iters
  interval_lem k fits = ground (
    arith,
    mul-div c.num_sps_sub_slot k,
    mul-mod c.num_sps_sub_slot k,
    mul_grows k c.num_sps_sub_slot,
  )

  module _ (k i required : ℕ) (p : IsPlace c k i required) where
    pub sp_bound : k * i + k ≤ c.num_sps_sub_slot * k
    sp_bound = mul_mono_lt k i c.num_sps_sub_slot (omega (arith, p.above, p.below)) p.index

    pub sp_iters_lem : calculate_sp_iters c (c.num_sps_sub_slot * k) i ≡ ok (k * i)
    unfolding calculate_sp_iters
    sp_iters_lem = rw (interval_lem k p.fits) (ground (arith, sp_bound, p.fits, p.index))

    pub ip_iters_lem :
        calculate_ip_iters c (c.num_sps_sub_slot * k) i required
        ≡ ok ((k * i + c.num_sp_intervals_extra * k + required) % (c.num_sps_sub_slot * k))
    unfolding calculate_ip_iters infusion_iters
    ip_iters_lem =
        rw (sp_iters_lem, interval_lem k p.fits)
          (ground (
            arith,
            sp_bound,
            p.fits,
            p.above,
            p.below,
            mul-mod k i,
            mod-lt (k * i + c.num_sp_intervals_extra * k + required) {m = c.num_sps_sub_slot * k}
                (omega (arith, sp_bound, p.above, p.below)),
          ))

    -- the infusion point, before it wraps at the end of the sub-slot
    late :
        (c.num_sps_sub_slot ≤ i + c.num_sp_intervals_extra)
        → c.num_sps_sub_slot * k ≤ k * i + c.num_sp_intervals_extra * k
    late q = omega (arith, mul-le-mul_right k q)

    early :
        i + c.num_sp_intervals_extra < c.num_sps_sub_slot
        → k * i + c.num_sp_intervals_extra * k + k ≤ c.num_sps_sub_slot * k
    early q = omega (arith, mul-le-mul_right k q)

    extra_bound : c.num_sp_intervals_extra * k + k ≤ c.num_sps_sub_slot * k
    extra_bound = omega (arith, mul-le-mul_right k h.extra)

    ip : ℕ
    ip = (k * i + c.num_sp_intervals_extra * k + required) % (c.num_sps_sub_slot * k)

    -- What `ip` is, by whether the block is an overflow block.
    ip_cases :
        (ip + c.num_sps_sub_slot * k ≡ k * i + c.num_sp_intervals_extra * k + required)
          × (c.num_sps_sub_slot ≤ i + c.num_sp_intervals_extra)
        ⊎ (ip ≡ k * i + c.num_sp_intervals_extra * k + required)
          × (i + c.num_sp_intervals_extra < c.num_sps_sub_slot)
    unfolding ip
    ip_cases = elim (le_or_lt c.num_sps_sub_slot (i + c.num_sp_intervals_extra)) [
      | inl q ↦
          inl (
            mod_wrap _ _ (omega (arith, late q)) (omega (arith, extra_bound, sp_bound, p.below)),
            q,
          )
      | inr q ↦ inr (mod-eq_of_lt (omega (arith, early q, p.below)), q)
    ]

  module _ (k i required : ℕ) (p : IsPlace c k i required) where
    ip_bound : ip k i required p < c.num_sps_sub_slot * k
    unfolding ip
    ip_bound = mod-lt _ (omega (arith, sp_bound k i required p, p.above, p.below))

    overflow_cases :
        leb (c.num_sps_sub_slot - c.num_sp_intervals_extra) i ≡ ltb (ip k i required p) (k * i)
    overflow_cases = elim (ip_cases k i required p) [
      | inl (e, q) ↦ ground (arith, e, q, extra_bound k i required p, p.below)
      | inr (e, q) ↦ ground (arith, e, q, p.above)
    ]

    distance_cases :
        (if leb (c.num_sps_sub_slot - c.num_sp_intervals_extra) i
          then ip k i required p + c.num_sps_sub_slot * k
          else ip k i required p)
        ≡ k * i + c.num_sp_intervals_extra * k + required
    distance_cases = elim (ip_cases k i required p) [
      | inl (e, q) ↦ ground (arith, e, q)
      | inr (e, q) ↦ ground (arith, e, q)
    ]

  -- At a block's place the infusion point lies inside the sub-slot, the extra intervals and the
  -- required iterations behind the signage point, and it wraps round the end of the sub-slot, to
  -- before the signage point, exactly for an overflow block.
  pub ip_iters-overflow :
      (k i required : ℕ)
      → IsPlace c k i required
      → (ip : ℕ) × (sp : ℕ) × (overflow : Bool) × (calculate_ip_iters c
            (c.num_sps_sub_slot * k)
            i
            required
          ≡ ok ip)
        × (calculate_sp_iters c (c.num_sps_sub_slot * k) i ≡ ok sp)
        × (is_overflow_block c i ≡ ok overflow)
        × (ip < c.num_sps_sub_slot * k)
        × (overflow ≡ ltb ip sp)
        × ((if overflow then ip + c.num_sps_sub_slot * k else ip)
            ≡ sp + c.num_sp_intervals_extra * k + required)
  unfolding ip is_overflow_block
  ip_iters-overflow k i required p = (
    ip k i required p,
    k * i,
    leb (c.num_sps_sub_slot - c.num_sp_intervals_extra) i,
    ip_iters_lem k i required p,
    sp_iters_lem k i required p,
    ground (arith, p.index),
    ip_bound k i required p,
    overflow_cases k i required p,
    distance_cases k i required p,
  )
