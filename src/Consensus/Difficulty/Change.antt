-- ===== src/Consensus/Difficulty/Change.antt =====
-- When the difficulty changes.
use sector_blockchain.Prelude.{
  ℕ, ◌+◌, ◌^◌, ◌≤◌, ◌<◌, ◌≡◌, ◌≢◌, refl, ◌⊎◌, ap, ◌∙◌, arith, Bool, true, false, inl, inr, ◌*◌,
  Bool-cases, ltb, if◌then◌else◌,
}
use sector_blockchain.Python.{ok, uint, ◌>>=◌, >>=-eq-ok, uint_lem}
use sector_blockchain.Consensus.Constants.{ConsensusConstants}
use sector_blockchain.Consensus.BlockRecord.{BlockRecord}
use sector_blockchain.Consensus.BlockchainInterface.{BlockchainInterface}
use sector_blockchain.Consensus.Difficulty.SubEpoch.Finish.{
  IsLinked, EndsSubEpoch, starts_epoch, can_finish_sub_and_full_epoch-cases,
}
use sector_blockchain.Consensus.Difficulty.{keeps_values, epoch_difficulty, get_next_difficulty}

module _ (c : ConsensusConstants) (blocks : BlockchainInterface) (linked : IsLinked blocks)
    (pos : 0 < c.sub_epoch_blocks) (epoch : 0 < c.epoch_blocks) where
  -- The values may change only in a new sub-slot, behind the last block of an epoch.
  keeps_values-false :
      (prev height deficit : ℕ) (b : BlockRecord) (included new_slot : Bool)
      → blocks.block_record prev ≡ ok b
      → height + 1 < 2 ^ 32
      → keeps_values c blocks prev height deficit included new_slot false ≡ ok false
      → (new_slot ≡ true)
        × EndsSubEpoch c blocks b height deficit included
        × (starts_epoch c (height + 1) ≡ true)
  unfolding keeps_values
  keeps_values-false prev height deficit b included new_slot r fits e =
      elim (can_finish_sub_and_full_epoch-cases c blocks linked pos epoch height prev deficit b
        included r fits) [
          | inl (ends, q) ↦ (ground (arith, q), ends, ground (arith, q))
          | inr (_, q) ↦ absurd (ground (arith, q))
        ]

  -- Past the first epoch the call is the one behind the tests, and both tests passed.
  past_tests :
      (prev height current deficit : ℕ) (b : BlockRecord) (included new_slot : Bool) (sp v : ℕ)
      → blocks.block_record prev ≡ ok b
      → c.epoch_blocks ≤ height + 1 + 3 * c.max_sub_slot_blocks
      → get_next_difficulty c blocks prev height current deficit included new_slot sp false ≡ ok v
      → (height + 1 < 2 ^ 32)
        × ((keeps_values c blocks prev height deficit included new_slot false >>= λ same.
              if same then ok current else epoch_difficulty c blocks b sp)
            ≡ ok v)
  unfolding get_next_difficulty
  past_tests prev height current deficit b included new_slot sp v r late e =
      let (next, fits, e1) = >>=-eq-ok (uint 32 (height + 1)) _ e in
      let n : (next ≡ height + 1) × (height + 1 < 2 ^ 32) = uint_lem 32 (height + 1) fits in
      let tests : ltb (next + 3 * c.max_sub_slot_blocks) c.epoch_blocks ≡ false =
        ground (arith, n.0, late) in
      elim (Bool-cases (blocks.contains_block prev)) [
        | inl there ↦ (n.1, rw (tests, there, r) at e1)
        | inr missing ↦ absurd (ground (arith, rw (tests, missing) at e1))
      ]

  unskipped :
      (prev height current deficit : ℕ) (b : BlockRecord) (included new_slot : Bool) (sp v : ℕ)
      → blocks.block_record prev ≡ ok b
      → c.epoch_blocks ≤ height + 1 + 3 * c.max_sub_slot_blocks
      → get_next_difficulty c blocks prev height current deficit included new_slot sp false ≡ ok v
      → v ≢ current
      → (new_slot ≡ true)
        × EndsSubEpoch c blocks b height deficit included
        × (starts_epoch c (height + 1) ≡ true)
  unskipped prev height current deficit b included new_slot sp v r late e ne =
      let (fits, inner) =
        past_tests prev height current deficit b included new_slot sp v r late e in
      let (same, k, e2) =
        >>=-eq-ok (keeps_values c blocks prev height deficit included new_slot false) _ inner in
      elim (Bool-cases same) [
        | inl stay ↦ absurd (ne (ground (arith, rw stay at e2)))
        | inr go ↦ keeps_values-false prev height deficit b included new_slot r fits (k ∙ ap ok go)
      ]

  -- On a complete chain, past the first epoch and unless the caller skips the check of the epoch, a
  -- difficulty other than the current one is returned only for a new sub-slot behind a block that
  -- ends its sub-epoch and that the first block of an epoch may follow.
  pub get_next_difficulty_change :
      (prev height current deficit : ℕ) (b : BlockRecord) (included new_slot : Bool) (sp v : ℕ)
      (skip_epoch_check : Bool)
      → blocks.block_record prev ≡ ok b
      → c.epoch_blocks ≤ height + 1 + 3 * c.max_sub_slot_blocks
      → get_next_difficulty c blocks prev height current deficit included new_slot sp
          skip_epoch_check
        ≡ ok v
      → v ≢ current
      → (skip_epoch_check ≡ true)
        ⊎ ((new_slot ≡ true)
            × EndsSubEpoch c blocks b height deficit included
            × (starts_epoch c (height + 1) ≡ true))
  get_next_difficulty_change prev height current deficit b included new_slot sp v true r late e ne =
      inl refl
  get_next_difficulty_change prev height current deficit b included new_slot sp v false r late e
        ne =
      inr (unskipped prev height current deficit b included new_slot sp v r late e ne)
