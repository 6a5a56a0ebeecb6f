-- ===== src/Consensus/ForkPoint/Ancestors.antt =====
-- The blocks behind a block of a chain.
use mathlib.Core.Path.{subst}
use sector_blockchain.Prelude.{◌≤◌, ◌<◌, ◌≡◌, refl, arith, ◌⊎◌, inl, inr}
use sector_blockchain.Python.{ok}
use sector_blockchain.Consensus.BlockRecord.{BlockRecord}
use sector_blockchain.Consensus.BlockchainInterface.{BlockchainInterface}
use sector_blockchain.Consensus.Difficulty.SubEpoch.Finish.{IsLinked}
use sector_blockchain.Consensus.Difficulty.Next.{InChain}

-- `a` is `b` or behind it.
pub data Ancestor (blocks : BlockchainInterface) (a : BlockRecord) : BlockRecord → Type 0 where
  itself : Ancestor blocks a a
  behind :
      {b p : BlockRecord}
      → blocks.block_record b.prev_hash ≡ ok p
      → Ancestor blocks a p
      → Ancestor blocks a b

module _ (blocks : BlockchainInterface) (linked : IsLinked blocks) where
  pub Ancestor-height :
      (a b : BlockRecord) → InChain blocks b → Ancestor blocks a b → a.height ≤ b.height
  Ancestor-height a b i itself = omega arith
  Ancestor-height a b (x, e) (behind {p = p} q r) =
      let lower = linked.below x b p e q in
      omega (arith, lower, Ancestor-height a p (b.prev_hash, q) r)

  -- What is behind a block is the block, or behind the one before it.
  pub Ancestor-cases :
      (a b p : BlockRecord)
      → InChain blocks b
      → blocks.block_record b.prev_hash ≡ ok p
      → Ancestor blocks a b
      → (a ≡ b) ⊎ (Ancestor blocks a p × (a.height < b.height))
  Ancestor-cases a b p i e itself = inl refl
  Ancestor-cases a b p (x, f) e (behind {p = q} g r) =
      let same : q ≡ p = cc (e, g) in
      let lower = linked.below x b p f e in
      let s = subst (λ (y : BlockRecord). Ancestor blocks a y) same r in
      inr (s, omega (arith, lower, Ancestor-height a p (b.prev_hash, e) s))

  -- A block at height 0 has only itself behind it.
  pub Ancestor-lowest :
      (a b : BlockRecord) → InChain blocks b → b.height ≡ 0 → Ancestor blocks a b → a ≡ b
  Ancestor-lowest a b i z itself = refl
  Ancestor-lowest a b (x, f) z (behind {p = q} g r) =
      absurd (omega (arith, z, linked.below x b q f g))
