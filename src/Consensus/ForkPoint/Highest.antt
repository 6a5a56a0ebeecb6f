-- ===== src/Consensus/ForkPoint/Highest.antt =====
-- sector/consensus/find_fork_point.py: the fork point is the highest block that two chains share.
use sector_blockchain.Prelude.{
  ℕ, zero, suc, ◌+◌, ◌<◌, ◌≡◌, refl, sym, ap, ◌∙◌, inl, inr, arith, false, ◌==◌, Bool-cases,
}
use sector_blockchain.Prelude.Int.{ℤ, pos, negsuc}
use sector_blockchain.Python.{ok}
use sector_blockchain.Consensus.BlockRecord.{BlockRecord}
use sector_blockchain.Consensus.BlockchainInterface.{BlockchainInterface}
use sector_blockchain.Consensus.Difficulty.SubEpoch.Finish.{IsLinked}
use sector_blockchain.Consensus.Difficulty.Next.{InChain}
use sector_blockchain.Consensus.ForkPoint.{same_record, fork_loop, find_fork_point_in_chain}
use sector_blockchain.Consensus.ForkPoint.Ancestors.{
  Ancestor, itself, behind, Ancestor-height, Ancestor-cases, Ancestor-lowest,
}
use sector_blockchain.Consensus.ForkPoint.Same.{same_record_refl, same_record-header_hash}
use sector_blockchain.Consensus.ForkPoint.Rounds.{
  order, second_higher, first_higher, level_tests, lowest_test,
}
use sector_blockchain.Consensus.ForkPoint.Answer.{PartAbove, IsFork, IsFork-behind}

module _ (blocks : BlockchainInterface) where
  module _ (linked : IsLinked blocks) where
    abbrev Forks : ℕ → BlockRecord → BlockRecord → Type 0
    Forks fuel b1 b2 = (r : ℤ) × (fork_loop fuel blocks b1 b2 ≡ ok r) × IsFork blocks b1 b2 r

    -- A higher block is behind no block of a lower one.
    passed :
        (b p low c d : BlockRecord)
        → InChain blocks b
        → InChain blocks low
        → blocks.block_record b.prev_hash ≡ ok p
        → low.height < b.height
        → Ancestor blocks c b
        → Ancestor blocks d low
        → c.height ≡ d.height
        → Ancestor blocks c p
    passed b p low c d i j e lt x y level = elim (Ancestor-cases blocks linked c b p i e x) [
      | inl same ↦
          let h : c.height ≡ b.height = ap (λ (z : BlockRecord). z.height) same in
          absurd (omega (arith, h, level, lt, Ancestor-height blocks linked d low j y))
      | inr (q, _) ↦ q
    ]

    -- At one height, a common block that is not the blocks themselves is behind both.
    both_behind :
        (b1 b2 p q c1 c2 : BlockRecord)
        → InChain blocks b1
        → InChain blocks b2
        → blocks.block_record b1.prev_hash ≡ ok p
        → blocks.block_record b2.prev_hash ≡ ok q
        → b1.height ≡ b2.height
        → (b2.header_hash == b1.header_hash) ≡ false
        → Ancestor blocks c1 b1
        → Ancestor blocks c2 b2
        → c1.height ≡ c2.height
        → c1.header_hash ≡ c2.header_hash
        → Ancestor blocks c1 p × Ancestor blocks c2 q
    both_behind b1 b2 p q c1 c2 i1 i2 e1 e2 eq differ x1 x2 level hashes =
        elim (Ancestor-cases blocks linked c1 b1 p i1 e1 x1) [
          | inl s1 ↦ elim (Ancestor-cases blocks linked c2 b2 q i2 e2 x2) [
            | inl s2 ↦
                let k1 = ap (λ (z : BlockRecord). z.header_hash) s1 in
                let k2 = ap (λ (z : BlockRecord). z.header_hash) s2 in
                absurd (clash _ _ differ (sym k2 ∙ sym hashes ∙ k1))
            | inr (_, low) ↦
                let h1 = ap (λ (z : BlockRecord). z.height) s1 in
                absurd (omega (arith, h1, level, eq, low))
          ]
          | inr (y1, low) ↦ elim (Ancestor-cases blocks linked c2 b2 q i2 e2 x2) [
            | inl s2 ↦
                let h2 = ap (λ (z : BlockRecord). z.height) s2 in
                absurd (omega (arith, h2, level, eq, low))
            | inr (y2, _) ↦ (y1, y2)
          ]
        ]
      where
        clash : (m n : ℕ) → (m == n) ≡ false → m ≡ n → ⊥
        clash m n e h = ground arith

    -- Nothing behind a block is higher than it.
    part_itself :
        (b1 b2 : BlockRecord) (h : ℕ) → InChain blocks b1 → b1.height ≡ h → PartAbove blocks b1 b2 h
    part_itself b1 b2 h i e c1 c2 x1 x2 level above q =
        omega (arith, e, above, Ancestor-height blocks linked c1 b1 i x1)

    -- One turn of the loop, where a turn fewer gives the answer for all lower blocks.
    module _ (fuel : ℕ)
        (rest : (c1 c2 : BlockRecord)
          → InChain blocks c1
          → InChain blocks c2
          → c1.height + c2.height < fuel
          → Forks fuel c1 c2)
        (b1 b2 : BlockRecord) (i1 : InChain blocks b1) (i2 : InChain blocks b2)
        (f : b1.height + b2.height < suc fuel) where
      back_second : b1.height < b2.height → Forks (suc fuel) b1 b2
      unfolding fork_loop
      back_second lt =
          let (p, e) = linked.present (i2.0) b2 (i2.1) (omega (arith, lt)) in
          let lower = linked.below (i2.0) b2 p (i2.1) e in
          let (r, er, fr) = rest b1 p i1 (b2.prev_hash, e) (omega (arith, f, lower)) in
          let (t, u) = second_higher _ _ lt in
          (
            r,
            rw (t, u, e) er,
            IsFork-behind blocks b1 p b1 b2 r (λ a x. x) (λ a x. behind e x)
                (λ c1 c2 x1 x2 level q. (x1, passed b2 p b1 c2 c1 i2 i1 e lt x2 x1 (sym level))) fr,
          )

      back_first : b2.height < b1.height → Forks (suc fuel) b1 b2
      unfolding fork_loop
      back_first gt =
          let (p, e) = linked.present (i1.0) b1 (i1.1) (omega (arith, gt)) in
          let lower = linked.below (i1.0) b1 p (i1.1) e in
          let (r, er, fr) = rest p b2 (b1.prev_hash, e) i2 (omega (arith, f, lower)) in
          let (t, u, v) = first_higher _ _ gt in
          (
            r,
            rw (t, u, v, e) er,
            IsFork-behind blocks p b2 b1 b2 r (λ a x. behind e x) (λ a x. x)
                (λ c1 c2 x1 x2 level q. (passed b1 p b2 c1 c2 i1 i2 e gt x1 x2 level, x2)) fr,
          )

      back_level : b1.height ≡ b2.height → 0 < b1.height → Forks (suc fuel) b1 b2
      unfolding fork_loop IsFork
      back_level eq positive =
          let (t, u, v) = level_tests _ _ eq positive in
          elim (Bool-cases (b2.header_hash == b1.header_hash)) [
            | inl same ↦ (
              pos b2.height,
              rw (t, u, v, same) refl,
              (b1, b2, itself, itself, eq, refl, ground (arith, same), part_itself b1 b2 _ i1 eq),
            )
            | inr differ ↦
                let (q, eq2) = linked.present (i2.0) b2 (i2.1) (omega (arith, eq, positive)) in
                let (p, e1) = linked.present (i1.0) b1 (i1.1) positive in
                let lower1 = linked.below (i1.0) b1 p (i1.1) e1 in
                let lower2 = linked.below (i2.0) b2 q (i2.1) eq2 in
                let (r, er, fr) =
                  rest p q (b1.prev_hash, e1) (b2.prev_hash, eq2)
                    (omega (arith, f, lower1, lower2)) in
                (
                  r,
                  rw (t, u, v, differ, eq2, e1) er,
                  IsFork-behind blocks p q b1 b2 r (λ a x. behind e1 x) (λ a x. behind eq2 x)
                      (λ c1 c2 x1 x2 level hashes.
                        both_behind b1 b2 p q c1 c2 i1 i2 e1 eq2 eq differ x1 x2 level hashes)
                      fr,
                )
          ]

      lowest : b1.height ≡ 0 → b2.height ≡ 0 → Forks (suc fuel) b1 b2
      unfolding fork_loop IsFork
      lowest z1 z2 =
          let t = lowest_test _ _ z1 z2 in
          elim (Bool-cases (same_record b2 b1)) [
            | inl same ↦ (
              pos 0,
              rw (t, same) refl,
              (
                b1,
                b2,
                itself,
                itself,
                z1,
                z2,
                sym (same_record-header_hash b2 b1 same),
                part_itself b1 b2 0 i1 z1,
              ),
            )
            | inr differ ↦ (
              negsuc 0,
              rw (t, differ) refl,
              (
                refl,
                part_itself b1 b2 0 i1 z1,
                (λ a1 a2 x1 x2 h1 h2 q.
                    let s1 = Ancestor-lowest blocks linked a1 b1 i1 z1 x1 in
                    let s2 = Ancestor-lowest blocks linked a2 b2 i2 z2 x2 in
                    let one : b2 ≡ b1 = sym s2 ∙ sym q ∙ s1 in
                    cc (differ, one, same_record_refl b1)),
              ),
            )
          ]

    fork_loop-IsFork :
        (fuel : ℕ) (b1 b2 : BlockRecord)
        → InChain blocks b1
        → InChain blocks b2
        → b1.height + b2.height < fuel
        → Forks fuel b1 b2
    fork_loop-IsFork zero b1 b2 i1 i2 f = absurd (omega arith)
    fork_loop-IsFork (suc fuel) b1 b2 i1 i2 f =
        let rest = fork_loop-IsFork fuel in
        elim (order b1.height b2.height) [
          | inl lt ↦ back_second fuel rest b1 b2 i1 i2 f lt
          | inr (inl gt) ↦ back_first fuel rest b1 b2 i1 i2 f gt
          | inr (inr (inl (eq, positive))) ↦ back_level fuel rest b1 b2 i1 i2 f eq positive
          | inr (inr (inr (z1, z2))) ↦ lowest fuel rest b1 b2 i1 i2 f z1 z2
        ]

    -- On a complete chain the search from two of its blocks ends, and its answer is the greatest height
    -- at which the blocks behind the two are the same, or -1 where they have no block in common.
    pub find_fork_point_in_chain-IsFork :
        (block_1 block_2 : BlockRecord)
        → InChain blocks block_1
        → InChain blocks block_2
        → (r : ℤ) × (find_fork_point_in_chain blocks block_1 block_2 ≡ ok r)
          × IsFork blocks block_1 block_2 r
    unfolding find_fork_point_in_chain
    find_fork_point_in_chain-IsFork block_1 block_2 i1 i2 =
        fork_loop-IsFork (block_1.height + block_2.height + 1) block_1 block_2 i1 i2 (omega arith)
