-- ===== src/Consensus/Difficulty/Walk.antt =====
-- sector/consensus/difficulty_adjustment.py: the walks along the chain. A walk back has the height
-- of its first block, and one more, for fuel: each block is lower than the one behind it.
use sector_blockchain.Prelude.{
  ℕ, zero, suc, ◌+◌, ◌-◌, ◌*◌, Bool, true, false, Option, none, some, List, [], ◌∷◌, ◌++◌, ltb,
  ◌==◌, not, ◌||◌, get_elem?, drop, if◌then◌else◌,
}
use mathlib.Core.List.{reverse}
use sector_blockchain.Python.{
  Result, ok, raise, index_error, out_of_fuel, assert, uint, uint_sub, modulo, ◌>>=◌, ◌>>◌,
}
use sector_blockchain.Consensus.Constants.{ConsensusConstants}
use sector_blockchain.Consensus.BlockRecord.{BlockRecord, is_transaction_block}
use sector_blockchain.Consensus.BlockchainInterface.{BlockchainInterface}

abbrev pub is_some {ℓ} : {A : Type ℓ} → Option A → Bool
is_some none = false
is_some (some a) = true

-- `l[i]`
abbrev pub at_index : List BlockRecord → ℕ → Result BlockRecord
at_index l i = elim (get_elem? l i) [ none ↦ raise index_error | some b ↦ ok b ]

-- Whether the height of `b` has the hash of `b` in the chain of the peak.
abbrev pub is_main : BlockchainInterface → BlockRecord → Bool
is_main blocks b =
    if blocks.contains_height b.height
    then (elim (blocks.height_to_hash b.height) [ none ↦ false | some h ↦ h == b.header_hash ])
    else false

module _ (blocks : BlockchainInterface) where
  -- `for h in range(...)`: `n` heights from `h` on.
  unfoldable pub fetch_heights : ℕ → ℕ → Result (List BlockRecord)
  fetch_heights zero h = ok []
  fetch_heights (suc n) h = do
    k ← uint 32 h
    assert (blocks.contains_height k)
    b ← blocks.height_to_block_record k
    rest ← fetch_heights n (h + 1)
    ok (b ∷ rest)

  -- The loop of the slow search, with `target_blocks` in the order in which they are met.
  unfoldable pub fetch_back : ℕ → ℕ → ℕ → BlockRecord → List BlockRecord → Result (List BlockRecord)
  fetch_back zero target n curr target_blocks = raise out_of_fuel
  fetch_back (suc fuel) target n curr target_blocks =
      let next =
        if ltb curr.height (target + n) then target_blocks ++ (curr ∷ []) else target_blocks in
      let rest = (do p ← blocks.block_record curr.prev_hash; fetch_back fuel target n p next) in
      if ltb curr.height target
      then ok target_blocks
      else if curr.height == 0
      then ok next
      else rest

  unfoldable pub get_blocks_at_height : BlockRecord → ℕ → ℕ → Result (List BlockRecord)
  get_blocks_at_height prev_b target_height max_num_blocks =
      if is_main blocks prev_b then fetch_heights max_num_blocks target_height else do
        target_blocks ← fetch_back (prev_b.height + 1) target_height max_num_blocks prev_b []
        ok (reverse target_blocks)

  -- `while found_tx_block < 2`
  unfoldable pub back_to_second_tx : ℕ → ℕ → BlockRecord → Result BlockRecord
  back_to_second_tx zero found curr = raise out_of_fuel
  back_to_second_tx (suc fuel) found curr =
      let rest = (do
        p ← blocks.block_record curr.prev_hash
        back_to_second_tx fuel (if is_transaction_block p then found + 1 else found) p) in
      if ltb found 2 then rest else ok curr

  -- `while next_b.sub_epoch_summary_included is None`; the list is what `fetched_index` has not
  -- passed. The result is `curr_b`.
  unfoldable pub to_summary : List BlockRecord → BlockRecord → BlockRecord → Result BlockRecord
  to_summary [] curr next =
      if is_some next.sub_epoch_summary_included then ok curr else raise index_error
  to_summary (b ∷ rest) curr next =
      let go = to_summary rest next b in
      if is_some next.sub_epoch_summary_included then ok curr else go

  -- The second to last transaction block, once the blocks round the end of the epoch are fetched.
  unfoldable pub second_to_last : ConsensusConstants → List BlockRecord → ℕ → Result BlockRecord
  second_to_last c fetched height_prev_epoch_surpass = do
    curr ← at_index fetched c.max_sub_slot_blocks
    assert (curr.height + 1 == height_prev_epoch_surpass)
    next ← at_index fetched (c.max_sub_slot_blocks + 1)
    assert (next.height == height_prev_epoch_surpass)
    last ← to_summary (drop (c.max_sub_slot_blocks + 1) fetched) curr next
    back_to_second_tx (last.height + 2) (if is_transaction_block last then 1 else 0) last

  unfoldable pub get_second_to_last_transaction_block_in_previous_epoch :
      ConsensusConstants → BlockRecord → Result BlockRecord
  get_second_to_last_transaction_block_in_previous_epoch c last_b = do
    let height_in_next_epoch =
        last_b.height + 2 * c.max_sub_slot_blocks + c.min_blocks_per_challenge_block + 5
    r ← modulo height_in_next_epoch c.epoch_blocks
    height_epoch_surpass ← uint 32 (height_in_next_epoch - r)
    height_prev_epoch_surpass ← uint_sub 32 height_epoch_surpass c.epoch_blocks
    r' ← modulo height_prev_epoch_surpass c.epoch_blocks
    assert (r' == 0)
    assert (ltb (height_in_next_epoch - height_epoch_surpass) (5 * c.max_sub_slot_blocks))
    if height_prev_epoch_surpass == 0
        then (do first ← get_blocks_at_height last_b 0 1; at_index first 0)
        else do
          target ← uint_sub 32 height_prev_epoch_surpass (c.max_sub_slot_blocks + 1)
          count ← uint 32 (3 * c.max_sub_slot_blocks + c.min_blocks_per_challenge_block + 3)
          fetched ← get_blocks_at_height last_b target count
          second_to_last c fetched height_prev_epoch_surpass

  -- `while last_block_curr.total_iters > signage_point_total_iters or not ...is_transaction_block`
  unfoldable pub last_tx_before : ℕ → ℕ → BlockRecord → Result BlockRecord
  last_tx_before zero sp curr = raise out_of_fuel
  last_tx_before (suc fuel) sp curr =
      let rest = (do p ← blocks.block_record curr.prev_hash; last_tx_before fuel sp p) in
      if ltb sp curr.total_iters || not (is_transaction_block curr) then rest else ok curr

  -- `while curr.height % SUB_EPOCH_BLOCKS > 0`: whether no block down to the start of the sub-epoch
  -- includes a summary.
  unfoldable pub no_summary : ℕ → ConsensusConstants → BlockRecord → Result Bool
  no_summary zero c curr = raise out_of_fuel
  no_summary (suc fuel) c curr =
      let rest = (do p ← blocks.block_record curr.prev_hash; no_summary fuel c p) in
      do
        r ← modulo curr.height c.sub_epoch_blocks
        if is_some curr.sub_epoch_summary_included
            then ok false
            else if r == 0
            then ok true
            else rest
