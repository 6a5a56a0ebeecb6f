-- ===== src/Consensus/Difficulty.antt =====
-- sector/consensus/difficulty_adjustment.py: sub-slot iterations and difficulty of the next block.
-- The walks back along the chain are in the children, and so is the choice of the new values.
pub mod Walk
pub mod Adjust
pub mod SubEpoch
pub mod Next
pub mod Change
use sector_blockchain.Prelude.{
  ℕ, ◌+◌, ◌-◌, ◌*◌, Bool, true, false, Option, none, some, ltb, ◌==◌, not, ◌||◌, if◌then◌else◌,
}
use sector_blockchain.Python.{
  Result, ok, raise, value_error, assertion_error, uint, uint_sub, ◌>>=◌,
}
use sector_blockchain.Consensus.Constants.{ConsensusConstants}
use sector_blockchain.Consensus.BlockRecord.{BlockRecord, sp_total_iters}
use sector_blockchain.Consensus.BlockchainInterface.{BlockchainInterface}
use Walk.{is_some, get_second_to_last_transaction_block_in_previous_epoch, last_tx_before}
use Adjust.{rate, adjust_sub_slot_iters, adjust_difficulty}
use SubEpoch.{can_finish_sub_and_full_epoch}

-- `assert b.timestamp is not None`
abbrev timestamp_of : BlockRecord → Result ℕ
timestamp_of b = elim b.timestamp [ none ↦ raise assertion_error | some t ↦ ok t ]

module _ (c : ConsensusConstants) (blocks : BlockchainInterface) where
  -- Whether the values stay: `not new_slot or not can_finish_epoch`, unless that is skipped.
  keeps_values : ℕ → ℕ → ℕ → Bool → Bool → Bool → Result Bool
  keeps_values prev_header_hash height deficit included new_slot skip_epoch_check =
      if skip_epoch_check then ok false else do
        (_, can_finish_epoch) ←
            can_finish_sub_and_full_epoch c blocks height (some prev_header_hash) deficit included
        ok (not new_slot || not can_finish_epoch)

  -- The new iterations from the blocks at the two ends of the epoch.
  epoch_sub_slot_iters : BlockRecord → ℕ → Result ℕ
  epoch_sub_slot_iters prev_b signage_point_total_iters = do
    last_block_prev ← get_second_to_last_transaction_block_in_previous_epoch blocks c prev_b
    last_block_curr ← last_tx_before blocks (prev_b.height + 1) signage_point_total_iters prev_b
    t ← timestamp_of last_block_curr
    s ← timestamp_of last_block_prev
    new_ssi_precise ←
        rate c.sub_slot_time_target last_block_curr.total_iters last_block_prev.total_iters 1 t s
    adjust_sub_slot_iters c new_ssi_precise last_block_curr.sub_slot_iters

  unfoldable pub get_next_sub_slot_iters : ℕ → ℕ → ℕ → ℕ → Bool → Bool → ℕ → Bool → Result ℕ
  unfolding keeps_values epoch_sub_slot_iters
  get_next_sub_slot_iters prev_header_hash height curr_sub_slot_iters deficit included new_slot
        signage_point_total_iters skip_epoch_check =
      do
        next_height ← uint 32 (height + 1)
        if ltb next_height c.epoch_blocks
            then uint 64 c.sub_slot_iters_starting
            else if not (blocks.contains_block prev_header_hash)
            then raise value_error
            else do
              prev_b ← blocks.block_record prev_header_hash
              same ← keeps_values prev_header_hash height deficit included new_slot skip_epoch_check
              if same
                  then ok curr_sub_slot_iters
                  else epoch_sub_slot_iters prev_b signage_point_total_iters

  -- The new difficulty from the blocks at the two ends of the epoch.
  epoch_difficulty : BlockRecord → ℕ → Result ℕ
  epoch_difficulty prev_b signage_point_total_iters = do
    last_block_prev ← get_second_to_last_transaction_block_in_previous_epoch blocks c prev_b
    last_block_curr ← last_tx_before blocks (prev_b.height + 1) signage_point_total_iters prev_b
    t ← timestamp_of last_block_curr
    s ← timestamp_of last_block_prev
    actual_epoch_time ← uint_sub 64 t s
    before ← blocks.block_record prev_b.prev_hash
    old_difficulty ← uint_sub 64 prev_b.weight before.weight
    new_difficulty_precise ←
        rate c.sub_slot_time_target last_block_curr.weight last_block_prev.weight
          c.slot_blocks_target actual_epoch_time 0
    adjust_difficulty c new_difficulty_precise old_difficulty

  unfoldable pub get_next_difficulty : ℕ → ℕ → ℕ → ℕ → Bool → Bool → ℕ → Bool → Result ℕ
  unfolding keeps_values epoch_difficulty
  get_next_difficulty prev_header_hash height current_difficulty deficit included new_slot
        signage_point_total_iters skip_epoch_check =
      do
        next_height ← uint 32 (height + 1)
        if ltb (next_height + 3 * c.max_sub_slot_blocks) c.epoch_blocks
            then uint 64 c.difficulty_starting
            else if not (blocks.contains_block prev_header_hash)
            then raise value_error
            else do
              prev_b ← blocks.block_record prev_header_hash
              same ← keeps_values prev_header_hash height deficit included new_slot skip_epoch_check
              if same
                  then ok current_difficulty
                  else epoch_difficulty prev_b signage_point_total_iters

  -- `prev_difficulty`
  block_difficulty : BlockRecord → Result ℕ
  block_difficulty b =
      if b.height == 0
      then uint 64 b.weight
      else do p ← blocks.block_record b.prev_hash; uint_sub 64 b.weight p.weight

  -- What is returned for the block behind `prev_b`, once `prev_difficulty` is known.
  next_values : Bool → BlockRecord → ℕ → Result (ℕ × ℕ)
  next_values is_first_in_sub_slot prev_b prev_difficulty =
      if is_some prev_b.sub_epoch_summary_included
      then ok (prev_b.sub_slot_iters, prev_difficulty)
      else do
        sp ← sp_total_iters prev_b c
        difficulty ←
            get_next_difficulty prev_b.prev_hash prev_b.height prev_difficulty prev_b.deficit false
              is_first_in_sub_slot sp false
        sub_slot_iters ←
            get_next_sub_slot_iters prev_b.prev_hash prev_b.height prev_b.sub_slot_iters
              prev_b.deficit false is_first_in_sub_slot sp false
        ok (sub_slot_iters, difficulty)

  unfoldable pub get_next_sub_slot_iters_and_difficulty : Bool → Option BlockRecord → Result (ℕ × ℕ)
  unfolding block_difficulty next_values
  get_next_sub_slot_iters_and_difficulty is_first_in_sub_slot none =
      ok (c.sub_slot_iters_starting, c.difficulty_starting)
  get_next_sub_slot_iters_and_difficulty is_first_in_sub_slot (some prev_b) = do
    prev_difficulty ← block_difficulty prev_b
    next_values is_first_in_sub_slot prev_b prev_difficulty
