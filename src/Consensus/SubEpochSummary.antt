-- ===== src/Consensus/SubEpochSummary.antt =====
-- sector/types/blockchain_format/sub_epoch_summary.py
use sector_blockchain.Prelude.{ℕ, Option}

pub record SubEpochSummary : Type 0 where
  pub prev_subepoch_summary_hash : ℕ
  pub reward_chain_hash : ℕ
  pub num_blocks_overflow : ℕ
  pub new_difficulty : Option ℕ
  pub new_sub_slot_iters : Option ℕ
