-- ===== src/Consensus/BlockRecord.antt =====
-- sector/consensus/block_record.py: what is kept in memory of each block.
-- A 32-byte string is the number that it spells, so `==` is equality of the strings. Fields that
-- no modelled code reads (VDF outputs, puzzle hashes, reward claims, slot hashes) are left out.
pub mod SignagePoint
use sector_blockchain.Prelude.{
  ℕ, Option, some, none, Bool, true, false, ◌-◌, ◌==◌, ◌+◌, if◌then◌else◌, ltb,
}
use sector_blockchain.Python.{Result, ok, raise, value_error, uint_sub, uint, ◌>>=◌}
use sector_blockchain.Consensus.Constants.{ConsensusConstants}
use sector_blockchain.Consensus.SubEpochSummary.{SubEpochSummary}
use sector_blockchain.Consensus.PotIterations.{calculate_sp_iters, calculate_ip_iters}

pub record BlockRecord : Type 0 where
  pub header_hash : ℕ
  pub prev_hash : ℕ
  pub height : ℕ
  pub weight : ℕ
  pub total_iters : ℕ
  pub signage_point_index : ℕ
  pub sub_slot_iters : ℕ
  pub required_iters : ℕ
  pub deficit : ℕ
  pub overflow : Bool
  pub timestamp : Option ℕ
  pub sub_epoch_summary_included : Option SubEpochSummary

-- `timestamp is not None`
unfoldable pub is_transaction_block : BlockRecord → Bool
is_transaction_block b = elim b.timestamp [ none ↦ false | some t ↦ true ]

module _ (b : BlockRecord) (c : ConsensusConstants) where
  unfoldable pub is_challenge_block : Bool
  is_challenge_block = b.deficit + 1 == c.min_blocks_per_challenge_block

  unfoldable pub sp_iters : Result ℕ
  sp_iters = calculate_sp_iters c b.sub_slot_iters b.signage_point_index

  unfoldable pub ip_iters : Result ℕ
  ip_iters = calculate_ip_iters c b.sub_slot_iters b.signage_point_index b.required_iters

  unfoldable pub ip_sub_slot_total_iters : Result ℕ
  unfolding ip_iters
  ip_sub_slot_total_iters = do ip ← ip_iters; uint_sub 128 b.total_iters ip

  unfoldable pub sp_sub_slot_total_iters : Result ℕ
  unfolding ip_iters
  sp_sub_slot_total_iters = do
    ip ← ip_iters
    if b.overflow
        then uint_sub 128 b.total_iters (ip + b.sub_slot_iters)
        else uint_sub 128 b.total_iters ip

  unfoldable pub sp_total_iters : Result ℕ
  unfolding sp_sub_slot_total_iters sp_iters
  sp_total_iters = do start ← sp_sub_slot_total_iters; sp ← sp_iters; ok (start + sp)
