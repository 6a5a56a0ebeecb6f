-- ===== src/Consensus/PotIterations.antt =====
-- sector/consensus/pot_iterations.py: where in a sub-slot signage and infusion points lie.
pub mod Infusion
use sector_blockchain.Prelude.{
  ℕ, ◌+◌, ◌-◌, ◌*◌, ◌/◌, ◌%◌, ◌^◌, Bool, ◌||◌, max, not, ltb, leb, ◌==◌, if◌then◌else◌,
}
use sector_blockchain.Python.{
  Result, ok, raise, value_error, zero_division, assert, uint, floor_div, modulo, ◌>>=◌, ◌>>◌,
}
use sector_blockchain.Consensus.Constants.{ConsensusConstants}

-- `NUM_SPS_SUB_SLOT - NUM_SP_INTERVALS_EXTRA` may be negative in Python; the index is above it
-- then, as it is above the 0 at which `-` stops here.
unfoldable pub is_overflow_block : ConsensusConstants → ℕ → Result Bool
is_overflow_block c signage_point_index =
    if leb c.num_sps_sub_slot signage_point_index
    then raise value_error
    else ok (leb (c.num_sps_sub_slot - c.num_sp_intervals_extra) signage_point_index)

unfoldable pub calculate_sp_interval_iters : ConsensusConstants → ℕ → Result ℕ
calculate_sp_interval_iters c sub_slot_iters = do
  r ← modulo sub_slot_iters c.num_sps_sub_slot
  assert (r == 0)
  q ← floor_div sub_slot_iters c.num_sps_sub_slot
  uint 64 q

unfoldable pub calculate_sp_iters : ConsensusConstants → ℕ → ℕ → Result ℕ
calculate_sp_iters c sub_slot_iters signage_point_index =
    if leb c.num_sps_sub_slot signage_point_index then raise value_error else do
      interval ← calculate_sp_interval_iters c sub_slot_iters
      uint 64 (interval * signage_point_index)

-- `sp_iters % sp_interval_iters != 0 or sp_iters >= sub_slot_iters`, and then the test of
-- `required_iters`, and the value that is returned.
infusion_iters : ConsensusConstants → ℕ → ℕ → ℕ → ℕ → Result ℕ
infusion_iters c sub_slot_iters sp_iters sp_interval_iters required_iters = do
  r ← modulo sp_iters sp_interval_iters
  if not (r == 0) || leb sub_slot_iters sp_iters
      then raise value_error
      else if leb sp_interval_iters required_iters || required_iters == 0
      then raise value_error
      else do
        v ←
            modulo (sp_iters + c.num_sp_intervals_extra * sp_interval_iters + required_iters)
              sub_slot_iters
        uint 64 v

unfoldable pub calculate_ip_iters : ConsensusConstants → ℕ → ℕ → ℕ → Result ℕ
unfolding infusion_iters
calculate_ip_iters c sub_slot_iters signage_point_index required_iters = do
  sp_iters ← calculate_sp_iters c sub_slot_iters signage_point_index
  sp_interval_iters ← calculate_sp_interval_iters c sub_slot_iters
  infusion_iters c sub_slot_iters sp_iters sp_interval_iters required_iters

-- sector/consensus/pos_quality.py, at a plot size of at least 1: `2 ** (k - 1)` is a fraction at 0.
unfoldable pub expected_plot_size : ℕ → ℕ
expected_plot_size k = (2 * k + 1) * 2 ^ (k - 1)

-- `std_hash` is SHA-256 of the two strings, one after the other, read as a number.
module _ (std_hash : ℕ → ℕ → ℕ) where
  unfoldable pub calculate_iterations_quality : ℕ → ℕ → ℕ → ℕ → ℕ → Result ℕ
  calculate_iterations_quality difficulty_constant_factor quality_string size difficulty
        cc_sp_output_hash =
      do
        let sp_quality_string = std_hash quality_string cc_sp_output_hash
        q ←
            floor_div (difficulty * difficulty_constant_factor * sp_quality_string)
              (2 ^ 256 * expected_plot_size size)
        iters ← uint 64 q
        ok (max iters 1)
