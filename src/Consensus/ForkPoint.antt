-- ===== src/Consensus/ForkPoint.antt =====
-- sector/consensus/find_fork_point.py: where two chains part.
pub mod Ancestors
pub mod Answer
pub mod Highest
pub mod Same
pub mod Rounds
use sector_blockchain.Prelude.{
  ℕ, zero, suc, ◌+◌, Bool, true, false, ltb, ◌==◌, ◌&&◌, ◌||◌, Option, none, some, if◌then◌else◌,
}
use sector_blockchain.Prelude.Int.{ℤ, pos, negsuc}
use sector_blockchain.Python.{Result, ok, raise, out_of_fuel, ◌>>=◌}
use sector_blockchain.Consensus.SubEpochSummary.{SubEpochSummary}
use sector_blockchain.Consensus.BlockRecord.{BlockRecord}
use sector_blockchain.Consensus.BlockchainInterface.{BlockchainInterface}

-- `==` of optional numbers, of truth values, and of the two data classes, field by field
abbrev pub same_option : Option ℕ → Option ℕ → Bool
same_option none none = true
same_option none (some y) = false
same_option (some x) none = false
same_option (some x) (some y) = x == y

abbrev pub same_bool : Bool → Bool → Bool
same_bool true b = b
same_bool false true = false
same_bool false false = true

abbrev pub same_summary : Option SubEpochSummary → Option SubEpochSummary → Bool
same_summary none none = true
same_summary none (some y) = false
same_summary (some x) none = false
same_summary (some x) (some y) =
    x.prev_subepoch_summary_hash == y.prev_subepoch_summary_hash
    && (x.reward_chain_hash == y.reward_chain_hash
        && (x.num_blocks_overflow == y.num_blocks_overflow
            && (same_option x.new_difficulty y.new_difficulty
                && same_option x.new_sub_slot_iters y.new_sub_slot_iters)))

unfoldable pub same_record : BlockRecord → BlockRecord → Bool
same_record a b =
    a.header_hash == b.header_hash
    && (a.prev_hash == b.prev_hash
        && (a.height == b.height
            && (a.weight == b.weight
                && (a.total_iters == b.total_iters
                    && (a.signage_point_index == b.signage_point_index
                        && (a.sub_slot_iters == b.sub_slot_iters
                            && (a.required_iters == b.required_iters
                                && (a.deficit == b.deficit
                                    && (same_bool a.overflow b.overflow
                                        && (same_option a.timestamp b.timestamp
                                            && same_summary a.sub_epoch_summary_included
                                                b.sub_epoch_summary_included))))))))))

-- The loop, with fuel: each round goes back from one of the blocks at least.
unfoldable pub fork_loop : ℕ → BlockchainInterface → BlockRecord → BlockRecord → Result ℤ
fork_loop zero blocks block_1 block_2 = raise out_of_fuel
fork_loop (suc fuel) blocks block_1 block_2 =
    let back_2 = (do p ← blocks.block_record block_2.prev_hash; fork_loop fuel blocks block_1 p) in
    let back_1 = (do p ← blocks.block_record block_1.prev_hash; fork_loop fuel blocks p block_2) in
    let back_both = (do
      q ← blocks.block_record block_2.prev_hash
      p ← blocks.block_record block_1.prev_hash
      fork_loop fuel blocks p q) in
    if ltb 0 block_2.height || ltb 0 block_1.height
    then (if ltb block_1.height block_2.height
        then back_2
        else if ltb block_2.height block_1.height
        then back_1
        else if block_2.header_hash == block_1.header_hash
        then ok (pos block_2.height)
        else back_both)
    else if same_record block_2 block_1
    then ok (pos 0)
    else ok (negsuc 0)

unfoldable pub find_fork_point_in_chain : BlockchainInterface → BlockRecord → BlockRecord → Result ℤ
unfolding fork_loop
find_fork_point_in_chain blocks block_1 block_2 =
    fork_loop (block_1.height + block_2.height + 1) blocks block_1 block_2
