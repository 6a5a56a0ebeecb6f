-- ===== src/Consensus/Deficit.antt =====
-- sector/consensus/deficit.py: how many blocks a sub-slot still needs.
pub mod Run
use sector_blockchain.Prelude.{ℕ, Bool, Option, none, some, ltb, ◌==◌, if◌then◌else◌}
use sector_blockchain.Python.{Result, raise, assertion_error, uint, uint_sub}
use sector_blockchain.Consensus.Constants.{ConsensusConstants}
use sector_blockchain.Consensus.BlockRecord.{BlockRecord}

-- The branches on `prev_deficit`.
next_deficit : ConsensusConstants → ℕ → Bool → ℕ → Result ℕ
next_deficit c prev_deficit overflow num_finished_sub_slots =
    if prev_deficit == c.min_blocks_per_challenge_block
    then (if overflow
        then (if ltb 0 num_finished_sub_slots
            then uint_sub 8 prev_deficit 1
            else uint 8 prev_deficit)
        else uint_sub 8 prev_deficit 1)
    else if prev_deficit == 0
    then (if num_finished_sub_slots == 0
        then uint 8 0
        else if num_finished_sub_slots == 1
        then (if overflow
            then uint 8 c.min_blocks_per_challenge_block
            else uint_sub 8 c.min_blocks_per_challenge_block 1)
        else uint_sub 8 c.min_blocks_per_challenge_block 1)
    else uint_sub 8 prev_deficit 1

unfoldable pub calculate_deficit : ConsensusConstants → ℕ → Option BlockRecord → Bool → ℕ → Result ℕ
unfolding next_deficit
calculate_deficit c height prev_b overflow num_finished_sub_slots =
    if height == 0 then uint_sub 8 c.min_blocks_per_challenge_block 1 else elim prev_b [
      | none ↦ raise assertion_error
      | some b ↦ next_deficit c b.deficit overflow num_finished_sub_slots
    ]
