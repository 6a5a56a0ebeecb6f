-- ===== src/Consensus/Deficit/Run.antt =====
-- The deficit along a chain.
use sector_blockchain.Prelude.{
  ℕ, zero, suc, ◌+◌, ◌-◌, ◌≤◌, ◌<◌, ◌≡◌, ◌⊎◌, Bool, some, arith, ◌==◌, if◌then◌else◌,
}
use sector_blockchain.Python.{ok}
use sector_blockchain.Consensus.Constants.{ConsensusConstants}
use sector_blockchain.Consensus.BlockRecord.{BlockRecord}
use sector_blockchain.Consensus.Deficit.{calculate_deficit}

-- The minimum fits its type, and a challenge block needs a block at least.
pub record IsDeficitConstants (c : ConsensusConstants) : Type 0 where
  pub positive : 0 < c.min_blocks_per_challenge_block
  pub fits : c.min_blocks_per_challenge_block < 256

-- The rule with no bound and no error: `m` is the minimum for a challenge block.
deficit_rule : ℕ → ℕ → Bool → ℕ → ℕ
deficit_rule m d overflow n =
    if d == 0
    then (if n == 0 then 0 else if n == 1 then (if overflow then m else m - 1) else m - 1)
    else if d == m
    then (if overflow then (if n == 0 then m else m - 1) else m - 1)
    else d - 1

-- Block after block of one sub-slot, each with the deficit that `calculate_deficit` gives it.
pub data SameSlot (c : ConsensusConstants) (b : BlockRecord) : ℕ → BlockRecord → Type 0 where
  here : SameSlot c b 0 b
  next :
      {k : ℕ} {p q : BlockRecord}
      → SameSlot c b k p
      → 0 < q.height
      → calculate_deficit c q.height (some p) q.overflow 0 ≡ ok q.deficit
      → SameSlot c b (suc k) q

module _ (c : ConsensusConstants) (h : IsDeficitConstants c) where
  -- Behind a block whose deficit is at most the minimum, the call returns a deficit that is at
  -- most the minimum, whatever the overflow flag and the number of finished sub-slots.
  pub calculate_deficit_range :
      (height : ℕ) (b : BlockRecord) (overflow : Bool) (n : ℕ)
      → b.deficit ≤ c.min_blocks_per_challenge_block
      → (r : ℕ) × (calculate_deficit c height (some b) overflow n ≡ ok r)
        × (r ≤ c.min_blocks_per_challenge_block)
  unfolding calculate_deficit deficit_rule
  calculate_deficit_range zero b overflow n le =
      (c.min_blocks_per_challenge_block - 1, ground arith, ground arith)
  calculate_deficit_range (suc k) b overflow n le = (
    deficit_rule c.min_blocks_per_challenge_block b.deficit overflow n,
    ground arith,
    ground arith,
  )

  same_slot_step :
      (p q : BlockRecord)
      → 0 < q.height
      → calculate_deficit c q.height (some p) q.overflow 0 ≡ ok q.deficit
      → p.deficit < c.min_blocks_per_challenge_block
      → q.deficit ≡ p.deficit - 1
  unfolding calculate_deficit
  same_slot_step p q pos e lt = ground arith

  -- From a deficit below the minimum, `k` more blocks of the same sub-slot lower the deficit by
  -- `k`, down to 0.
  pub deficit-SameSlot :
      (b : BlockRecord) (k : ℕ) (q : BlockRecord)
      → b.deficit < c.min_blocks_per_challenge_block
      → SameSlot c b k q
      → q.deficit ≡ b.deficit - k
  deficit-SameSlot b k q lt here = omega arith
  deficit-SameSlot b k q lt (next {k = j} {p = p} run pos e) =
      let ih = deficit-SameSlot b j p lt run in
      omega (arith, ih, same_slot_step p q pos e (omega (arith, ih)))

  -- A block after genesis becomes a challenge block only behind a block whose deficit is the
  -- minimum, or behind one whose deficit is 0 and in a new sub-slot (or where the minimum is 1).
  pub challenge_block_start :
      (height : ℕ) (b : BlockRecord) (overflow : Bool) (n r : ℕ)
      → 0 < height
      → b.deficit ≤ c.min_blocks_per_challenge_block
      → calculate_deficit c height (some b) overflow n ≡ ok r
      → r + 1 ≡ c.min_blocks_per_challenge_block
      → (b.deficit ≡ c.min_blocks_per_challenge_block)
        ⊎ ((b.deficit ≡ 0) × ((0 < n) ⊎ (c.min_blocks_per_challenge_block ≡ 1)))
  unfolding calculate_deficit
  challenge_block_start height b overflow n r pos le e last = ground arith
