-- ===== src/Consensus/ForkPoint/Answer.antt =====
-- sector/consensus/find_fork_point.py: what the answer of the search says of two chains.
use sector_blockchain.Prelude.{ℕ, ◌<◌, ◌≡◌, ◌≢◌, sym, ap, ◌∙◌}
use sector_blockchain.Prelude.Int.{ℤ, pos, negsuc}
use sector_blockchain.Consensus.BlockRecord.{BlockRecord}
use sector_blockchain.Consensus.BlockchainInterface.{BlockchainInterface}
use sector_blockchain.Consensus.ForkPoint.Ancestors.{Ancestor}

module _ (blocks : BlockchainInterface) where
  -- The chains of the two blocks have no block in common above a height.
  abbrev pub PartAbove : BlockRecord → BlockRecord → ℕ → Type 0
  PartAbove b1 b2 n =
      (c1 c2 : BlockRecord)
      → Ancestor blocks c1 b1
      → Ancestor blocks c2 b2
      → c1.height ≡ c2.height
      → n < c1.height
      → c1.header_hash ≢ c2.header_hash

  -- The answer for two blocks: a height at which they have a common block, with none above it, or -1
  -- where not even the blocks at height 0 are the same.
  unfoldable pub IsFork : BlockRecord → BlockRecord → ℤ → Type 0
  IsFork b1 b2 (pos h) =
      (a1 : BlockRecord) × (a2 : BlockRecord) × Ancestor blocks a1 b1
      × Ancestor blocks a2 b2
      × (a1.height ≡ h)
      × (a2.height ≡ h)
      × (a1.header_hash ≡ a2.header_hash)
      × PartAbove b1 b2 h
  IsFork b1 b2 (negsuc k) =
      (k ≡ 0)
      × PartAbove b1 b2 0
      × ((a1 a2 : BlockRecord)
          → Ancestor blocks a1 b1
          → Ancestor blocks a2 b2
          → a1.height ≡ 0
          → a2.height ≡ 0
          → a1 ≢ a2)

  -- The answer for two blocks behind is the answer for the blocks, where no common block is lost.
  pub IsFork-behind :
      (p1 p2 b1 b2 : BlockRecord) (r : ℤ)
      → ((a : BlockRecord) → Ancestor blocks a p1 → Ancestor blocks a b1)
      → ((a : BlockRecord) → Ancestor blocks a p2 → Ancestor blocks a b2)
      → ((c1 c2 : BlockRecord)
          → Ancestor blocks c1 b1
          → Ancestor blocks c2 b2
          → c1.height ≡ c2.height
          → c1.header_hash ≡ c2.header_hash
          → Ancestor blocks c1 p1 × Ancestor blocks c2 p2)
      → IsFork p1 p2 r
      → IsFork b1 b2 r
  unfolding IsFork
  IsFork-behind p1 p2 b1 b2 (pos h) up1 up2 down (a1, a2, x1, x2, e1, e2, same, part) = (
    a1,
    a2,
    up1 a1 x1,
    up2 a2 x2,
    e1,
    e2,
    same,
    λ c1 c2 y1 y2 level above q.
        let (z1, z2) = down c1 c2 y1 y2 level q in part c1 c2 z1 z2 level above q,
  )
  IsFork-behind p1 p2 b1 b2 (negsuc k) up1 up2 down (minus_one, part, apart) = (
    minus_one,
    (λ c1 c2 y1 y2 level above q.
        let (z1, z2) = down c1 c2 y1 y2 level q in part c1 c2 z1 z2 level above q),
    (λ a1 a2 y1 y2 e1 e2 q.
        let (z1, z2) = down a1 a2 y1 y2 (e1 ∙ sym e2) (ap (λ (b : BlockRecord). b.header_hash) q) in
        apart a1 a2 z1 z2 e1 e2 q),
  )
