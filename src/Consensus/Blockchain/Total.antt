-- ===== src/Consensus/Blockchain/Total.antt =====
-- sector/consensus/blockchain.py: the searches of `_reconsider_peak` end on a chain in step.
use sector_blockchain.Prelude.{
  ℕ, zero, suc, ◌+◌, ◌^◌, ◌<◌, ◌≡◌, refl, sym, ◌∙◌, arith, Bool, true, false, Bool-cases, ◌⊎◌, inl,
  inr, ◌==◌, lt→ltb, some, List, [], ◌∷◌,
}
use sector_blockchain.Prelude.Int.{ℤ, pos, negsuc}
use sector_blockchain.Prelude.Dict.{Dict, lookup}
use sector_blockchain.Python.{ok}
use sector_blockchain.Consensus.BlockRecord.{BlockRecord}
use sector_blockchain.Consensus.ForkPoint.{fork_loop, find_fork_point_in_chain, same_record}
use sector_blockchain.Consensus.ForkPoint.Rounds.{
  order, second_higher, first_higher, level_tests, lowest_test,
}
use sector_blockchain.Consensus.Blockchain.{
  FullBlock, BlockStore, Blockchain, interface, block_record, item, at_fork, blocks_to_add,
}
use sector_blockchain.Consensus.Blockchain.Path.{IsPath, IsStore}
use sector_blockchain.Consensus.Blockchain.Collect.{AtMost}
use sector_blockchain.Consensus.Blockchain.Chain.{IsChain, item-some}

module _ {Body Coins : Type 0} (s : Blockchain Body Coins) (is : IsChain s) where
  -- The block behind is in memory, unless the height is 0.
  abbrev pub Behind : BlockRecord → Type 0
  Behind b =
      (j : ℕ)
      → b.height ≡ suc j
      → (p : BlockRecord) × (lookup b.prev_hash s.block_records ≡ some p) × (p.height ≡ j)

  pub known-Behind : (x : ℕ) (b : BlockRecord) → lookup x s.block_records ≡ some b → Behind b
  known-Behind x b e j up =
      let (p, q, level) = is.stored.before x j b (sym (is.cached x) ∙ e) up in
      (p, is.cached b.prev_hash ∙ q, level)

  back :
      (b : BlockRecord)
      → Behind b
      → 0 < b.height
      → (p : BlockRecord) × (block_record s b.prev_hash ≡ ok p) × Behind p × (p.height < b.height)
  unfolding block_record
  back b behind positive = by_height b.height refl
    where
      by_height :
          (n : ℕ)
          → b.height ≡ n
          → (p : BlockRecord) × (item b.prev_hash s.block_records ≡ ok p)
            × Behind p
            × (p.height < b.height)
      by_height zero z = absurd (omega (arith, z, positive))
      by_height (suc j) up =
          let (p, q, level) = behind j up in
          (
            p,
            item-some b.prev_hash s.block_records p q,
            known-Behind b.prev_hash p q,
            omega (arith, up, level),
          )

  fork_loop-total :
      (fuel : ℕ) (b1 b2 : BlockRecord)
      → Behind b1
      → Behind b2
      → b1.height + b2.height < fuel
      → (r : ℤ) × (fork_loop fuel (interface s) b1 b2 ≡ ok r)
  unfolding fork_loop interface
  fork_loop-total zero b1 b2 k1 k2 f = absurd (omega arith)
  fork_loop-total (suc fuel) b1 b2 k1 k2 f = elim (order b1.height b2.height) [
    | inl lt ↦
        let (p, e, k, low) = back b2 k2 (omega (arith, lt)) in
        let (r, q) = fork_loop-total fuel b1 p k1 k (omega (arith, f, low)) in
        let (t, u) = second_higher _ _ lt in (r, rw (t, u, e) q)
    | inr (inl gt) ↦
        let (p, e, k, low) = back b1 k1 (omega (arith, gt)) in
        let (r, q) = fork_loop-total fuel p b2 k k2 (omega (arith, f, low)) in
        let (t, u, v) = first_higher _ _ gt in (r, rw (t, u, v, e) q)
    | inr (inr (inl (eq, positive))) ↦
        let (t, u, v) = level_tests _ _ eq positive in
        elim (Bool-cases (b2.header_hash == b1.header_hash)) [
          | inl same ↦ (pos b2.height, rw (t, u, v, same) refl)
          | inr differ ↦
              let (p2, e2, m2, low2) = back b2 k2 (omega (arith, eq, positive)) in
              let (p1, e1, m1, low1) = back b1 k1 positive in
              let (r, q) = fork_loop-total fuel p1 p2 m1 m2 (omega (arith, f, low1, low2)) in
              (r, rw (t, u, v, differ, e2, e1) q)
        ]
    | inr (inr (inr (z1, z2))) ↦
        let t = lowest_test _ _ z1 z2 in
        elim (Bool-cases (same_record b2 b1)) [
          | inl same ↦ (pos 0, rw (t, same) refl)
          | inr differ ↦ (negsuc 0, rw (t, differ) refl)
        ]
  ]

  pub find_fork_point-total :
      (b1 b2 : BlockRecord)
      → Behind b1
      → Behind b2
      → (r : ℤ) × (find_fork_point_in_chain (interface s) b1 b2 ≡ ok r)
  unfolding find_fork_point_in_chain
  find_fork_point-total b1 b2 k1 k2 =
      fork_loop-total (b1.height + b2.height + 1) b1 b2 k1 k2 (omega arith)

module _ {Body : Type 0} (store : BlockStore Body) (is : IsStore store) (hashes : Dict ℕ) (n x : ℕ)
    (path : IsPath store.records hashes n x) (small : n < 2 ^ 32) where
  at_fork-total :
      (fork_height : ℤ) (curr : ℕ)
      → AtMost fork_height n
      → (done : Bool) × (at_fork hashes fork_height curr ≡ ok done)
  unfolding at_fork
  at_fork-total (negsuc k) curr a = (false, refl)
  at_fork-total (pos h) curr a =
      let (b, e, _, _, _) = path.each h a in
      let fits = lt→ltb h (2 ^ 32) (omega (arith, a, small)) in
      let hash = item-some h hashes b.header_hash e in (curr == b.header_hash, rw (fits, hash) refl)

  pub blocks_to_add-total :
      (fork_height : ℤ)
      → AtMost fork_height n
      → (fuel curr : ℕ) (b : BlockRecord) → lookup curr store.records ≡ some b
      → b.height < fuel
      → (blocks : List (FullBlock Body × BlockRecord)) × (blocks_to_add fuel store hashes
            fork_height curr
          ≡ ok blocks)
  unfolding blocks_to_add
  blocks_to_add-total z most zero curr b e f = absurd (omega arith)
  blocks_to_add-total z most (suc fuel) curr b e f =
      let (done, d) = at_fork-total z curr most in
      let (full, ef, level) = is.full curr b e in
      elim (Bool-cases done) [
        | inl halt ↦ ([], rw (d, halt) refl)
        | inr go_on ↦ elim (height_cases full.height b.height level) [
          | inl lowest ↦ ((full, b) ∷ [], rw (d, go_on, ef, e, lowest) refl)
          | inr (later, (j, up)) ↦
              let (p, ep, low) = is.before curr j b e up in
              let (more, q) =
                blocks_to_add-total z most fuel b.prev_hash p ep (omega (arith, low, up, f)) in
              ((full, b) ∷ more, rw (d, go_on, ef, e, later, q) refl)
        ]
      ]
    where
      height_cases :
          (m n : ℕ) → m ≡ n → ((m == 0) ≡ true) ⊎ (((m == 0) ≡ false) × ((j : ℕ) × (n ≡ suc j)))
      height_cases m zero e = inl (ground (arith, e))
      height_cases m (suc j) e = inr (ground (arith, e), (j, refl))
