-- ===== src/Consensus/ChainTests.antt =====
-- Runs of the difficulty adjustment on a chain with short epochs.
use sector_blockchain.Prelude.{
  ℕ, ◌+◌, ◌-◌, ◌*◌, ◌<◌, ◌≡◌, refl, ◌⊎◌, inl, inr, ap, Bool-cases, arith, true, false, none, some,
  ◌==◌, not, if◌then◌else◌,
}
use sector_blockchain.Python.{ok, raise, key_error}
use sector_blockchain.Prelude.Int.{ℤ}
use sector_blockchain.Consensus.Constants.{ConsensusConstants, default_constants}
use sector_blockchain.Consensus.BlockRecord.{BlockRecord, is_transaction_block}
use sector_blockchain.Consensus.BlockchainInterface.{BlockchainInterface}
use sector_blockchain.Util.SignificantBits.{
  truncate_to_significant_bits, bit_length, count_significant_bits,
}
use sector_blockchain.Consensus.Difficulty.Walk.{
  get_second_to_last_transaction_block_in_previous_epoch, get_blocks_at_height, fetch_heights,
  last_tx_before,
}
use sector_blockchain.Consensus.Difficulty.Adjust.{rate, adjust_sub_slot_iters, adjust_difficulty}
use sector_blockchain.Consensus.Difficulty.Adjust.Bounds.{IsAdjustConstants}
use sector_blockchain.Consensus.Difficulty.SubEpoch.{can_finish_sub_and_full_epoch}
use sector_blockchain.Consensus.Difficulty.SubEpoch.Finish.{
  IsLinked, EndsSubEpoch, starts_epoch, can_finish_sub_and_full_epoch-cases,
}
use sector_blockchain.Consensus.Difficulty.{get_next_sub_slot_iters, get_next_difficulty}
use sector_blockchain.Consensus.Difficulty.Next.{
  IsSlotIters, HasSlotIters, get_next_sub_slot_iters-IsSlotIters,
}
use sector_blockchain.Consensus.Difficulty.Change.{get_next_difficulty_change}
use sector_blockchain.Consensus.ForkPoint.{find_fork_point_in_chain}
use sector_blockchain.Consensus.ForkPoint.Answer.{IsFork}
use sector_blockchain.Consensus.ForkPoint.Highest.{find_fork_point_in_chain-IsFork}

-- Epochs of 12 blocks, in 2 sub-epochs each.
abbrev short : ConsensusConstants
short = record default_constants {
  sub_epoch_blocks = 6;
  epoch_blocks = 12;
  max_sub_slot_blocks = 2;
  min_blocks_per_challenge_block = 1;
}

abbrev block_at : ℕ → BlockRecord
block_at height = record {
  header_hash = height + 1;
  prev_hash = height;
  height = height;
  weight = 100 * (height + 1);
  total_iters = 1000 * height;
  signage_point_index = 1;
  sub_slot_iters = 320;
  required_iters = 2;
  deficit = 0;
  overflow = false;
  timestamp = some (600 * height);
  sub_epoch_summary_included = none;
}

-- The chain that has such a block at every height.
abbrev endless : BlockchainInterface
endless = record {
  block_record = λ x. if x == 0 then raise key_error else ok (block_at (x - 1));
  height_to_block_record = λ h. ok (block_at h);
  height_to_hash = λ h. some (h + 1);
  contains_block = λ x. not (x == 0);
  contains_height = λ h. true;
}

read_lem : (x : ℕ) (b : BlockRecord) → endless.block_record x ≡ ok b → b ≡ block_at (x - 1)
read_lem x b e = elim (Bool-cases (x == 0)) [
  | inl z ↦ absurd (cc (rw z at e))
  | inr p ↦ cc (rw p at e)
]

read-pos : (k : ℕ) → 0 < k → endless.block_record k ≡ ok (block_at (k - 1))
read-pos k h = let ne : (k == 0) ≡ false = ground arith in rw ne refl

endless-IsLinked : IsLinked endless
endless-IsLinked = record {
  present = λ x b e h.
      let r = read_lem x b e in
      let same : b.prev_hash ≡ b.height = rw r refl in
      (block_at (b.prev_hash - 1), read-pos b.prev_hash (omega (arith, same, h)));
  below = λ x b p e f. lower x b p (read_lem x b e) f;
}
  where
    lower :
        (x : ℕ) (b p : BlockRecord)
        → b ≡ block_at (x - 1)
        → endless.block_record b.prev_hash ≡ ok p
        → p.height < b.height
    lower x b p r f = elim (Bool-cases (b.prev_hash == 0)) [
      | inl z ↦ absurd (cc (rw z at f))
      | inr n ↦
          let q : p.height ≡ b.prev_hash - 1 =
            ap (λ (y : BlockRecord). y.height) (read_lem b.prev_hash p f) in
          let same : b.prev_hash ≡ b.height = rw r refl in ground (arith, q, same, n)
    ]

can_finish_sub_and_full_epoch-cases_example :
    EndsSubEpoch short endless (block_at 11) 11 0 false
      × (can_finish_sub_and_full_epoch short endless 11 (some 12) 0 false
          ≡ ok (true, starts_epoch short 12))
    ⊎ (¬ EndsSubEpoch short endless (block_at 11) 11 0 false)
      × (can_finish_sub_and_full_epoch short endless 11 (some 12) 0 false ≡ ok (false, false))
can_finish_sub_and_full_epoch-cases_example =
    can_finish_sub_and_full_epoch-cases short endless endless-IsLinked (omega arith) (omega arith)
      11 12 0 (block_at 11) false refl (omega arith)

abbrev short-IsAdjustConstants : IsAdjustConstants short 6
short-IsAdjustConstants = record { power = refl; keep = omega arith; factor = omega arith }

endless-HasSlotIters : HasSlotIters short endless
endless-HasSlotIters = record {
  starting = record { whole = refl; enough = omega arith };
  all = λ x b e. rw (read_lem x b e) (record { whole = refl; enough = omega arith });
  room = λ x b e. rw (read_lem x b e) (omega arith);
}

new_iters : get_next_sub_slot_iters short endless 12 11 320 0 false true 10500 false ≡ ok 960
unfolding get_next_sub_slot_iters can_finish_sub_and_full_epoch
    get_second_to_last_transaction_block_in_previous_epoch get_blocks_at_height fetch_heights
    last_tx_before is_transaction_block rate adjust_sub_slot_iters truncate_to_significant_bits
    bit_length count_significant_bits
new_iters = refl

get_next_sub_slot_iters-IsSlotIters_example : IsSlotIters short 960
get_next_sub_slot_iters-IsSlotIters_example =
    get_next_sub_slot_iters-IsSlotIters short endless 6 short-IsAdjustConstants endless-HasSlotIters
      12 11 320 0 false true 10500 false 960 (record { whole = refl; enough = omega arith })
      new_iters

new_difficulty : get_next_difficulty short endless 12 11 100 0 false true 10500 false ≡ ok 33
unfolding get_next_difficulty can_finish_sub_and_full_epoch
    get_second_to_last_transaction_block_in_previous_epoch get_blocks_at_height fetch_heights
    last_tx_before is_transaction_block rate adjust_difficulty truncate_to_significant_bits
    bit_length count_significant_bits
new_difficulty = refl

get_next_difficulty_change_example :
    (false ≡ true)
    ⊎ ((true ≡ true)
        × EndsSubEpoch short endless (block_at 11) 11 0 false
        × (starts_epoch short 12 ≡ true))
get_next_difficulty_change_example =
    get_next_difficulty_change short endless endless-IsLinked (omega arith) (omega arith) 12 11 100
      0 (block_at 11) false true 10500 33 false refl (omega arith) new_difficulty (omega arith)

find_fork_point_in_chain-IsFork_example :
    (r : ℤ) × (find_fork_point_in_chain endless (block_at 5) (block_at 3) ≡ ok r)
    × IsFork endless (block_at 5) (block_at 3) r
find_fork_point_in_chain-IsFork_example =
    find_fork_point_in_chain-IsFork endless endless-IsLinked (block_at 5) (block_at 3) (6, refl)
      (4, refl)
