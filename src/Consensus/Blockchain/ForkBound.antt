-- ===== src/Consensus/Blockchain/ForkBound.antt =====
-- sector/consensus/blockchain.py: the fork with the peak is not above the peak.
use mathlib.Core.Path.{subst}
use sector_blockchain.Prelude.{
  ℕ, zero, suc, ◌≤◌, ◌<◌, ◌≡◌, refl, sym, ◌∙◌, arith, true, false, Bool-cases, ◌⊎◌, inl, inr, ◌==◌,
  ◌||◌, ltb, some,
}
use sector_blockchain.Prelude.Int.{ℤ, pos, negsuc}
use sector_blockchain.Prelude.Dict.{lookup}
use sector_blockchain.Python.{ok, >>=-eq-ok}
use sector_blockchain.Consensus.BlockRecord.{BlockRecord}
use sector_blockchain.Consensus.ForkPoint.{fork_loop, find_fork_point_in_chain, same_record}
use sector_blockchain.Consensus.Blockchain.{Blockchain, interface, block_record}
use sector_blockchain.Consensus.Blockchain.Collect.{AtMost, item-ok}
use sector_blockchain.Consensus.Blockchain.Chain.{IsChain}

AtMost-mono : (r : ℤ) (m n : ℕ) → AtMost r m → m ≤ n → AtMost r n
AtMost-mono (pos h) m n a l = omega (arith, a, l)
AtMost-mono (negsuc k) m n a l = tt

positive_or_zero : (n : ℕ) → (n ≡ 0) ⊎ ((j : ℕ) × (n ≡ suc j))
positive_or_zero zero = inl refl
positive_or_zero (suc j) = inr (j, refl)

level_positive : (m n : ℕ) → (ltb 0 n || ltb 0 m) ≡ true → ltb m n ≡ false → ltb n m ≡ false → 0 < n
level_positive m n h a b = ground arith

module _ {Body Coins : Type 0} (s : Blockchain Body Coins) (is : IsChain s) where
  -- The block behind a known one is known, and lower.
  behind_known :
      (x : ℕ) (b p : BlockRecord)
      → lookup x s.block_records ≡ some b
      → 0 < b.height
      → block_record s b.prev_hash ≡ ok p
      → (lookup b.prev_hash s.block_records ≡ some p) × (p.height < b.height)
  unfolding block_record
  behind_known x b p e positive r = elim (positive_or_zero b.height) [
    | inl z ↦ absurd (omega (arith, z, positive))
    | inr (j, up) ↦
        let found = item-ok b.prev_hash s.block_records p r in
        let (q, e1, e2) = is.stored.before x j b (sym (is.cached x) ∙ e) up in
        let same : q ≡ p = cc (e1, found, is.cached b.prev_hash) in (found, lower j p q same up e2)
  ]
    where
      lower :
          (j : ℕ) (p q : BlockRecord)
          → q ≡ p
          → b.height ≡ suc j
          → q.height ≡ j
          → p.height < b.height
      lower j p q same up e2 =
          let h : q.height ≡ p.height = rw same refl in omega (arith, h, up, e2)

  fork_loop-AtMost :
      (fuel x : ℕ) (b1 b2 : BlockRecord) (r : ℤ)
      → lookup x s.block_records ≡ some b2
      → fork_loop fuel (interface s) b1 b2 ≡ ok r
      → AtMost r b2.height
  unfolding fork_loop interface
  fork_loop-AtMost zero x b1 b2 r e q = absurd (cc (q))
  fork_loop-AtMost (suc fuel) x b1 b2 r e q =
      elim (Bool-cases (ltb 0 b2.height || ltb 0 b1.height)) [
        | inl going ↦ elim (Bool-cases (ltb b1.height b2.height)) [
          | inl higher ↦
              let (p, e1, r1) =
                >>=-eq-ok (block_record s b2.prev_hash) _ (rw (going, higher) at q) in
              let (known, low) = behind_known x b2 p e (ground (arith, higher)) e1 in
              AtMost-mono r p.height b2.height (fork_loop-AtMost fuel b2.prev_hash b1 p r known r1)
                (omega (arith, low))
          | inr not_higher ↦ elim (Bool-cases (ltb b2.height b1.height)) [
            | inl lower ↦
                let (p, e1, r1) =
                  >>=-eq-ok (block_record s b1.prev_hash) _ (rw (going, not_higher, lower) at q) in
                fork_loop-AtMost fuel x p b2 r e r1
            | inr level ↦ elim (Bool-cases (b2.header_hash == b1.header_hash)) [
              | inl same ↦
                  let here : pos b2.height ≡ r = cc (rw (going, not_higher, level, same) at q) in
                  subst (λ z. AtMost z b2.height) here (omega arith)
              | inr differ ↦
                  let (p2, e2, r2) =
                    >>=-eq-ok (block_record s b2.prev_hash) _
                      (rw (going, not_higher, level, differ) at q) in
                  let (p1, e1, r1) = >>=-eq-ok (block_record s b1.prev_hash) _ r2 in
                  let (known, low) =
                    behind_known x b2 p2 e
                      (level_positive b1.height b2.height going not_higher level) e2 in
                  AtMost-mono r p2.height b2.height
                    (fork_loop-AtMost fuel b2.prev_hash p1 p2 r known r1) (omega (arith, low))
            ]
          ]
        ]
        | inr over ↦ elim (Bool-cases (same_record b2 b1)) [
          | inl same ↦
              let here : pos 0 ≡ r = cc (rw (over, same) at q) in
              subst (λ z. AtMost z b2.height) here (omega arith)
          | inr differ ↦
              let here : negsuc 0 ≡ r = cc (rw (over, differ) at q) in
              subst (λ z. AtMost z b2.height) here tt
        ]
      ]

  pub find_fork_point-AtMost :
      (b1 b2 : BlockRecord) (r : ℤ)
      → lookup b2.header_hash s.block_records ≡ some b2
      → find_fork_point_in_chain (interface s) b1 b2 ≡ ok r
      → AtMost r b2.height
  unfolding find_fork_point_in_chain
  find_fork_point-AtMost b1 b2 r e q = fork_loop-AtMost _ b2.header_hash b1 b2 r e q
