-- ===== src/Consensus/Constants.antt =====
-- sector/consensus/constants.py: the parameters of a chain that the modelled code reads.
-- A Python integer that is never negative is a native number; hash and key constants are left out.
use sector_blockchain.Prelude.{ℕ, ◌^◌}

pub record ConsensusConstants : Type 0 where
  pub slot_blocks_target : ℕ
  pub min_blocks_per_challenge_block : ℕ
  pub max_sub_slot_blocks : ℕ
  pub num_sps_sub_slot : ℕ
  pub sub_slot_iters_starting : ℕ
  pub difficulty_constant_factor : ℕ
  pub difficulty_starting : ℕ
  pub difficulty_change_max_factor : ℕ
  pub sub_epoch_blocks : ℕ
  pub epoch_blocks : ℕ
  pub significant_bits : ℕ
  pub sub_slot_time_target : ℕ
  pub num_sp_intervals_extra : ℕ

-- sector/consensus/default_constants.py
abbrev pub default_constants : ConsensusConstants
default_constants = record {
  slot_blocks_target = 32;
  min_blocks_per_challenge_block = 16;
  max_sub_slot_blocks = 128;
  num_sps_sub_slot = 64;
  sub_slot_iters_starting = 2 ^ 27;
  difficulty_constant_factor = 2 ^ 57;
  difficulty_starting = 7;
  difficulty_change_max_factor = 3;
  sub_epoch_blocks = 384;
  epoch_blocks = 4608;
  significant_bits = 8;
  sub_slot_time_target = 600;
  num_sp_intervals_extra = 3;
}
