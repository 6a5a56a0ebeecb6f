-- ===== src/Consensus/Difficulty/SubEpoch.antt =====
-- sector/consensus/difficulty_adjustment.py: whether the next sub-slot starts a sub-epoch and an
-- epoch.
pub mod Finish
use sector_blockchain.Prelude.{
  ℕ, ◌+◌, ◌-◌, Bool, true, false, Option, none, some, ltb, ◌==◌, if◌then◌else◌,
}
use sector_blockchain.Python.{Result, ok, raise, assertion_error, uint, modulo, ◌>>=◌}
use sector_blockchain.Consensus.Constants.{ConsensusConstants}
use sector_blockchain.Consensus.BlockchainInterface.{BlockchainInterface}
use sector_blockchain.Consensus.Difficulty.Walk.{no_summary}

unfoldable pub height_can_be_first_in_epoch : ConsensusConstants → ℕ → Result Bool
height_can_be_first_in_epoch c height = do
  r ← modulo height c.sub_epoch_blocks
  q ← modulo (height - r) c.epoch_blocks
  ok (q == 0)

-- What is left once the walk has told whether the sub-epoch has its summary already.
finish : ConsensusConstants → ℕ → Bool → Result (Bool × Bool)
finish c height false = ok (false, false)
finish c height true = do
  next ← uint 32 (height + 1)
  e ← height_can_be_first_in_epoch c next
  ok (true, e)

-- `height < SUB_EPOCH_BLOCKS - 1` is `height + 1 < SUB_EPOCH_BLOCKS`.
unfoldable pub can_finish_sub_and_full_epoch :
    ConsensusConstants → BlockchainInterface → ℕ → Option ℕ → ℕ → Bool → Result (Bool × Bool)
unfolding finish height_can_be_first_in_epoch
can_finish_sub_and_full_epoch c blocks height prev_header_hash deficit
      block_at_height_included_ses =
    if ltb (height + 1) c.sub_epoch_blocks then ok (false, false) else elim prev_header_hash [
      | none ↦ raise assertion_error
      | some prev ↦
          if ltb 0 deficit
          then ok (false, false)
          else if block_at_height_included_ses
          then ok (false, false)
          else do
            r ← modulo (height + 1) c.sub_epoch_blocks
            if ltb 1 r
                then (do
                  curr ← blocks.block_record prev
                  clear ← no_summary blocks (curr.height + 1) c curr
                  finish c height clear)
                else finish c height true
    ]
