-- ===== src/Consensus/Tests.antt =====
-- Runs of the consensus rules on small chains and with the default constants.
use sector_blockchain.Prelude.{
  ℕ, ◌+◌, ◌-◌, ◌*◌, ◌/◌, ◌%◌, ◌^◌, ◌≤◌, ◌<◌, ◌≡◌, refl, ◌⊎◌, arith, Bool, false, none, some, ltb,
  if◌then◌else◌,
}
use sector_blockchain.Prelude.Int.{pos}
use sector_blockchain.Python.{ok}
use sector_blockchain.Util.SignificantBits.{count_significant_bits}
use sector_blockchain.Consensus.Constants.{default_constants}
use sector_blockchain.Consensus.BlockRecord.{BlockRecord, ip_iters, sp_total_iters}
use sector_blockchain.Consensus.BlockRecord.SignagePoint.{sp_total_iters-distance}
use sector_blockchain.Consensus.Deficit.{calculate_deficit}
use sector_blockchain.Consensus.Deficit.Run.{
  IsDeficitConstants, SameSlot, here, next, calculate_deficit_range, deficit-SameSlot,
  challenge_block_start,
}
use sector_blockchain.Consensus.BlockRewards.{calculate_pool_reward, calculate_base_farmer_reward}
use sector_blockchain.Consensus.BlockRewards.Schedule.{block_reward, rewards_split}
use sector_blockchain.Consensus.PotIterations.{
  is_overflow_block, calculate_sp_iters, calculate_ip_iters,
}
use sector_blockchain.Consensus.PotIterations.Infusion.{
  IsPotConstants, ip_iters_lem, IsPlace, ip_iters-overflow,
}
use sector_blockchain.Consensus.Difficulty.Adjust.{adjust_sub_slot_iters, adjust_difficulty}
use sector_blockchain.Consensus.Difficulty.Adjust.Bounds.{
  IsAdjustConstants, adjust_sub_slot_iters_bounds, adjust_difficulty_bounds,
}

abbrev deficit_constants : IsDeficitConstants default_constants
deficit_constants = record { positive = omega arith; fits = omega arith }

abbrev pot_constants : IsPotConstants default_constants
pot_constants = record { positive = omega arith; extra = omega arith }

abbrev adjust_constants : IsAdjustConstants default_constants 6
adjust_constants = record { power = refl; keep = omega arith; factor = omega arith }

-- The block at a height with a deficit, a signage point and total iterations.
abbrev block : ℕ → ℕ → ℕ → BlockRecord
block height deficit index = record {
  header_hash = height + 1;
  prev_hash = height;
  height = height;
  weight = 7 * (height + 1);
  total_iters = 2 ^ 28 + 5000000;
  signage_point_index = index;
  sub_slot_iters = 2 ^ 27;
  required_iters = 1000;
  deficit = deficit;
  overflow = ltb 60 index;
  timestamp = some (1000 * height);
  sub_epoch_summary_included = none;
}

calculate_deficit_range_example :
    (r : ℕ) × (calculate_deficit default_constants 6 (some (block 5 16 3)) false 1 ≡ ok r)
    × (r ≤ 16)
calculate_deficit_range_example =
    calculate_deficit_range default_constants deficit_constants 6 (block 5 16 3) false 1
      (omega arith)

one_more : SameSlot default_constants (block 5 15 3) 1 (block 6 14 4)
one_more =
    let e : calculate_deficit default_constants 6 (some (block 5 15 3)) false 0 ≡ ok 14 =
      unfold calculate_deficit in refl in
    next {q = block 6 14 4} here (omega arith) e

deficit-SameSlot_example : ◌≡◌ {A = ℕ} 14 (15 - 1)
deficit-SameSlot_example =
    deficit-SameSlot default_constants deficit_constants (block 5 15 3) 1 (block 6 14 4)
      (omega arith) one_more

challenge_block_start_example :
    (◌≡◌ {A = ℕ} 16 16) ⊎ ((◌≡◌ {A = ℕ} 16 0) × ((0 < 1) ⊎ (◌≡◌ {A = ℕ} 16 1)))
challenge_block_start_example =
    challenge_block_start default_constants deficit_constants 6 (block 5 16 3) false 1 15
      (omega arith) (omega arith) (unfold calculate_deficit in refl) refl

rewards_split_example :
    (pool : ℕ) × (farmer : ℕ) × (calculate_pool_reward 1681920 ≡ ok pool)
    × (calculate_base_farmer_reward 1681920 ≡ ok farmer)
    × (pool ≡ 7 * farmer)
    × (pool + farmer ≡ block_reward 1681920)
rewards_split_example = rewards_split 1681920

abbrev place : IsPlace default_constants 2097152 62 1000
place = record { fits = omega arith; index = omega arith; above = omega arith; below = omega arith }

ip_iters-overflow_example :
    (ip : ℕ) × (sp : ℕ) × (overflow : Bool) × (calculate_ip_iters default_constants
        (64 * 2097152)
        62
        1000
      ≡ ok ip)
    × (calculate_sp_iters default_constants (64 * 2097152) 62 ≡ ok sp)
    × (is_overflow_block default_constants 62 ≡ ok overflow)
    × (ip < 64 * 2097152)
    × (overflow ≡ ltb ip sp)
    × ((if overflow then ip + 64 * 2097152 else ip) ≡ sp + 3 * 2097152 + 1000)
ip_iters-overflow_example = ip_iters-overflow default_constants pot_constants 2097152 62 1000 place

sp_total_iters-distance_example :
    (s : ℕ) × (sp_total_iters (block 5 0 62) default_constants ≡ ok s)
    × (s + 3 * 2097152 + 1000 ≡ 273435456)
    × (start : ℕ) × (ip : ℕ) × (ip_iters (block 5 0 62) default_constants ≡ ok ip)
    × (start + ip ≡ 273435456)
    × ((block 5 0 62).overflow ≡ ltb s start)
    × (start ≤ s + 134217728)
sp_total_iters-distance_example =
    sp_total_iters-distance default_constants pot_constants (block 5 0 62) 2097152 (record {
      slot = refl;
      place = place;
      flag = unfold is_overflow_block in refl;
      fits = omega arith;
      reach = (
        2098152,
        unfold ip_iters in ip_iters_lem default_constants pot_constants 2097152 62 1000 place,
        omega arith,
      );
    })

adjust_sub_slot_iters_bounds_example :
    (v : ℕ) × (adjust_sub_slot_iters default_constants 100000000 (2 ^ 27) ≡ ok v)
    × (v % 64 ≡ 0)
    × (64 ≤ v)
    × (v ≤ 3 * 2 ^ 27)
    × (2 ^ 27 / 3 < 2 * v)
    × (count_significant_bits (pos v) ≤ 8)
adjust_sub_slot_iters_bounds_example =
    adjust_sub_slot_iters_bounds default_constants 6 adjust_constants 100000000 (2 ^ 27)
      (omega arith) (omega arith)

adjust_difficulty_bounds_example :
    (v : ℕ) × (adjust_difficulty default_constants 1000 7 ≡ ok v)
    × (0 < v)
    × (v ≤ 3 * 7)
    × (7 / 3 < 2 * v)
    × (count_significant_bits (pos v) ≤ 8)
adjust_difficulty_bounds_example =
    adjust_difficulty_bounds default_constants 6 adjust_constants 1000 7 (omega arith) (omega arith)
