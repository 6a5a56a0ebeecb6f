-- ===== src/Consensus/Difficulty/Next.antt =====
-- What the next block's values may be, given those of the chain.
use mathlib.Core.Path.{subst}
use sector_blockchain.Prelude.{
  ℕ, zero, suc, ◌+◌, ◌^◌, ◌%◌, ◌≤◌, ◌<◌, ◌≡◌, arith, Bool, true, false, not, ◌||◌, inl, inr, ◌*◌,
  Bool-cases, ltb, if◌then◌else◌,
}
use sector_blockchain.Python.{ok, uint, ◌>>=◌, >>=-eq-ok}
use sector_blockchain.Consensus.Constants.{ConsensusConstants}
use sector_blockchain.Consensus.BlockRecord.{BlockRecord, is_transaction_block}
use sector_blockchain.Consensus.BlockchainInterface.{BlockchainInterface}
use sector_blockchain.Consensus.Difficulty.Walk.{
  last_tx_before, get_second_to_last_transaction_block_in_previous_epoch,
}
use sector_blockchain.Consensus.Difficulty.Adjust.{rate, adjust_sub_slot_iters}
use sector_blockchain.Consensus.Difficulty.Adjust.Bounds.{
  IsAdjustConstants, adjust_sub_slot_iters_bounds,
}
use sector_blockchain.Consensus.Difficulty.{
  timestamp_of, keeps_values, epoch_sub_slot_iters, get_next_sub_slot_iters,
}

abbrev pub InChain : BlockchainInterface → BlockRecord → Type 0
InChain blocks b = (x : ℕ) × (blocks.block_record x ≡ ok b)

-- The walk to the last transaction block stays on the chain, and ends at such a block whose total
-- iterations do not pass the signage point.
pub last_tx_before_lem :
    (blocks : BlockchainInterface) (fuel sp : ℕ) (curr b : BlockRecord)
    → InChain blocks curr
    → last_tx_before blocks fuel sp curr ≡ ok b
    → InChain blocks b × (is_transaction_block b ≡ true) × (b.total_iters ≤ sp)
unfolding last_tx_before
last_tx_before_lem blocks zero sp curr b i e = absurd (cc)
last_tx_before_lem blocks (suc fuel) sp curr b i e =
    elim (Bool-cases (ltb sp curr.total_iters || not (is_transaction_block curr))) [
      | inl more ↦
          let (p, r, q) =
            >>=-eq-ok (blocks.block_record curr.prev_hash) (λ p. last_tx_before blocks fuel sp p)
              (rw more at e) in
          last_tx_before_lem blocks fuel sp p b (curr.prev_hash, r) q
      | inr done ↦
          let same : curr ≡ b = ground (arith, rw done at e) in
          subst (λ x. InChain blocks x × (is_transaction_block x ≡ true) × (x.total_iters ≤ sp))
            same (i, ground (arith, done), ground (arith, done))
    ]

-- Iterations that a sub-slot can have: one or more for each signage point, as many for each.
pub record IsSlotIters (c : ConsensusConstants) (v : ℕ) : Type 0 where
  pub whole : v % c.num_sps_sub_slot ≡ 0
  pub enough : c.num_sps_sub_slot ≤ v

-- Every block of the chain has such iterations, with room for the greatest change.
pub record HasSlotIters (c : ConsensusConstants) (blocks : BlockchainInterface) : Type 0 where
  pub starting : IsSlotIters c c.sub_slot_iters_starting
  pub all :
      (x : ℕ) (b : BlockRecord) → blocks.block_record x ≡ ok b → IsSlotIters c b.sub_slot_iters
  pub room :
      (x : ℕ) (b : BlockRecord)
      → blocks.block_record x ≡ ok b
      → c.difficulty_change_max_factor * b.sub_slot_iters < 2 ^ 64

module _ (c : ConsensusConstants) (blocks : BlockchainInterface) (j : ℕ) (h : IsAdjustConstants c j)
    (slots : HasSlotIters c blocks) where
  adjusted-IsSlotIters :
      (precise v : ℕ) (b : BlockRecord)
      → InChain blocks b
      → adjust_sub_slot_iters c precise b.sub_slot_iters ≡ ok v
      → IsSlotIters c v
  adjusted-IsSlotIters precise v b (x, e) r =
      let (w, s, whole, enough, _, _, _) =
        adjust_sub_slot_iters_bounds c j h precise b.sub_slot_iters (slots.all x b e).enough
          (slots.room x b e) in
      let same : w ≡ v = cc in
      subst (λ t. IsSlotIters c t) same (record { whole = whole; enough = enough })

  epoch-IsSlotIters :
      (prev_b : BlockRecord) (sp v : ℕ)
      → InChain blocks prev_b
      → epoch_sub_slot_iters c blocks prev_b sp ≡ ok v
      → IsSlotIters c v
  unfolding epoch_sub_slot_iters
  epoch-IsSlotIters prev_b sp v i e =
      let (first, _, e1) =
        >>=-eq-ok (get_second_to_last_transaction_block_in_previous_epoch blocks c prev_b) _ e in
      let (curr, walk, e2) = >>=-eq-ok (last_tx_before blocks (prev_b.height + 1) sp prev_b) _ e1 in
      let (t, _, e3) = >>=-eq-ok (timestamp_of curr) _ e2 in
      let (s, _, e4) = >>=-eq-ok (timestamp_of first) _ e3 in
      let (precise, _, e5) =
        >>=-eq-ok (rate c.sub_slot_time_target curr.total_iters first.total_iters 1 t s) _ e4 in
      adjusted-IsSlotIters precise v curr
        ((last_tx_before_lem blocks (prev_b.height + 1) sp prev_b curr i walk).0) e5

  -- the call behind the tests of the first epoch and of the block's presence
  later-IsSlotIters :
      (prev height curr deficit : ℕ) (included new_slot : Bool) (sp : ℕ) (skip : Bool) (v : ℕ)
      → IsSlotIters c curr
      → (do
        prev_b ← blocks.block_record prev
        same ← keeps_values c blocks prev height deficit included new_slot skip
        if same then ok curr else epoch_sub_slot_iters c blocks prev_b sp)
        ≡ ok v
      → IsSlotIters c v
  later-IsSlotIters prev height curr deficit included new_slot sp skip v good e =
      let (b, r, e1) = >>=-eq-ok (blocks.block_record prev) _ e in
      let (same, _, e2) =
        >>=-eq-ok (keeps_values c blocks prev height deficit included new_slot skip) _ e1 in
      last same b r e2
    where
      last :
          (same : Bool) (b : BlockRecord)
          → blocks.block_record prev ≡ ok b
          → (if same then ok curr else epoch_sub_slot_iters c blocks b sp) ≡ ok v
          → IsSlotIters c v
      last true b r q = let w : curr ≡ v = cc in subst (λ t. IsSlotIters c t) w good
      last false b r q = epoch-IsSlotIters b sp v (prev, r) q

  -- Where every block of the chain has iterations that a sub-slot can have, and so does the
  -- current value, the iterations that the call returns are such too.
  pub get_next_sub_slot_iters-IsSlotIters :
      (prev height curr deficit : ℕ) (included new_slot : Bool) (sp : ℕ) (skip : Bool) (v : ℕ)
      → IsSlotIters c curr
      → get_next_sub_slot_iters c blocks prev height curr deficit included new_slot sp skip ≡ ok v
      → IsSlotIters c v
  unfolding get_next_sub_slot_iters
  get_next_sub_slot_iters-IsSlotIters prev height curr deficit included new_slot sp skip v good e =
      let (next, _, e1) = >>=-eq-ok (uint 32 (height + 1)) _ e in
      elim (Bool-cases (ltb next c.epoch_blocks)) [
        | inl early ↦
            let w : c.sub_slot_iters_starting ≡ v = ground (arith, rw early at e1) in
            subst (λ t. IsSlotIters c t) w slots.starting
        | inr late ↦ elim (Bool-cases (blocks.contains_block prev)) [
          | inl there ↦
              later-IsSlotIters prev height curr deficit included new_slot sp skip v good
                (rw (late, there) at e1)
          | inr missing ↦ absurd (ground (arith, rw (late, missing) at e1))
        ]
      ]
