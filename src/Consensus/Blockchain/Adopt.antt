-- ===== src/Consensus/Blockchain/Adopt.antt =====
-- sector/consensus/blockchain.py: what `_reconsider_peak` and the update of the memory leave.
use mathlib.Core.List.{reverse}
use mathlib.Core.Path.{subst}
use sector_blockchain.Prelude.{
  ℕ, suc, ◌≤◌, ◌≡◌, refl, ap, arith, Bool-cases, inl, inr, ◌==◌, Option, none, some, List, [], ◌∷◌,
  if◌then◌else◌,
}
use sector_blockchain.Prelude.Int.{ℤ, pos}
use sector_blockchain.Prelude.Dict.{lookup}
use sector_blockchain.Python.{Result, ok, uint}
use sector_blockchain.Consensus.BlockRecord.{BlockRecord}
use sector_blockchain.Consensus.ForkPoint.{find_fork_point_in_chain}
use sector_blockchain.Consensus.Blockchain.{
  FullBlock, BlockStore, Blockchain, Attempt, gives, keeping, >>--eq-gives, keeping-gives, Parts,
  present, or_zero, interface, set_peak, blocks_to_add,
}
use sector_blockchain.Consensus.Blockchain.Receive.{
  Outcome, apply_blocks, fork_of, rolled_back, adopt, adopt_genesis,
}
use sector_blockchain.Consensus.Blockchain.Collect.{AtMost, oldest_first}
use sector_blockchain.Consensus.Blockchain.Chain.{IsChain}
use sector_blockchain.Consensus.Blockchain.ForkBound.{find_fork_point-AtMost}

returned_lem : {Coins A : Type 0} (o p : A) → ◌≡◌ {A = Attempt Coins A} (gives p) (gives o) → o ≡ p
returned_lem o p e = cc (e)

module _ {Body Coins Npc Spends : Type 0} (parts : Parts Body Coins Npc Spends) where
  -- What `adopt` and `adopt_genesis` return, where they return.
  pub adopt-ok :
      (s : Blockchain Body Coins) (store : BlockStore Body) (b : BlockRecord) (fork_height : ℤ)
      (coins : Coins) (npc_result : Option Npc) (o : Outcome Body Coins)
      → adopt parts s store b fork_height coins npc_result ≡ gives o
      → (blocks : List (FullBlock Body × BlockRecord)) × (blocks_to_add
            (suc (suc b.height))
            store
            s.hash_at
            fork_height
            b.header_hash
          ≡ ok blocks)
        × (o.fetched ≡ oldest_first blocks)
        × (o.new_height ≡ some b.height)
        × (o.store ≡ set_peak b.header_hash store)
  unfolding adopt
  adopt-ok s store b fork_height coins npc_result o e =
      let (blocks, e1, r1) =
        >>--eq-gives
          (keeping coins
            (blocks_to_add (suc (suc b.height)) store s.hash_at fork_height b.header_hash))
          _ e in
      let (next, e2, r2) =
        >>--eq-gives (apply_blocks parts b npc_result (reverse blocks) coins) _ r1 in
      let (h, e3, r3) = >>--eq-gives (keeping next (uint 32 (or_zero fork_height))) _ r2 in
      let same = returned_lem o _ r3 in
      (
        blocks,
        keeping-gives coins
            (blocks_to_add (suc (suc b.height)) store s.hash_at fork_height b.header_hash) blocks
            e1,
        ap (λ (z : Outcome Body Coins). z.fetched) same,
        ap (λ (z : Outcome Body Coins). z.new_height) same,
        ap (λ (z : Outcome Body Coins). z.store) same,
      )

  pub adopt_genesis-ok :
      (s : Blockchain Body Coins) (store : BlockStore Body) (b : BlockRecord)
      (npc_result : Option Npc) (o : Outcome Body Coins)
      → adopt_genesis parts s store b npc_result ≡ gives o
      → (o.fetched ≡ b ∷ []) × (o.new_height ≡ some 0) × (o.store ≡ set_peak b.header_hash store)
  unfolding adopt_genesis
  adopt_genesis-ok s store b npc_result o e =
      let (block, e1, r1) =
        >>--eq-gives (keeping s.coin_store (present (lookup b.header_hash store.full_blocks))) _
          e in
      let (coins, e2, r2) =
        >>--eq-gives
          (parts.new_block block (parts.tx_removals_and_additions npc_result) s.coin_store) _ r1 in
      let same = returned_lem o _ r2 in
      (
        ap (λ (z : Outcome Body Coins). z.fetched) same,
        ap (λ (z : Outcome Body Coins). z.new_height) same,
        ap (λ (z : Outcome Body Coins). z.store) same,
      )

  -- The fork is at most at the height of the peak, where the caller's is.
  pub rolled_back-AtMost :
      (s : Blockchain Body Coins)
      → IsChain s
      → (b peak : BlockRecord) (fork_point_with_peak : Option ℕ) (fork_height : ℤ) (coins : Coins)
      → lookup peak.header_hash s.block_records ≡ some peak
      → ((h : ℕ) → fork_point_with_peak ≡ some h → h ≤ peak.height)
      → rolled_back parts s b peak fork_point_with_peak ≡ gives (fork_height, coins)
      → AtMost fork_height peak.height
  unfolding rolled_back fork_of
  rolled_back-AtMost s is b peak given fork_height coins there below e =
      let (f, e1, r1) = >>--eq-gives (keeping s.coin_store (fork_of s b peak given)) _ e in
      let e1 = keeping-gives s.coin_store (fork_of s b peak given) f e1 in
      let (c, e2, r2) =
        >>--eq-gives
          (if b.prev_hash == peak.header_hash
            then gives s.coin_store
            else parts.rollback_to_block f s.coin_store)
          _ r1 in
      let same : f ≡ fork_height = cc (r2) in
      subst (λ z. AtMost z peak.height) same
        (elim (Bool-cases (b.prev_hash == peak.header_hash)) [
          | inl next ↦
              let here : pos peak.height ≡ f = cc (rw next at e1) in
              subst (λ z. AtMost z peak.height) here (omega arith)
          | inr apart ↦ searched given f below (rw apart at e1)
        ])
    where
      searched :
          (given : Option ℕ) (f : ℤ)
          → ((h : ℕ) → given ≡ some h → h ≤ peak.height)
          → ◌≡◌ {A = Result ℤ}
              (elim given [
                | none ↦ find_fork_point_in_chain (interface s) b peak
                | some h ↦ ok (pos h)
              ])
              (ok f)
          → AtMost f peak.height
      searched none f below q = find_fork_point-AtMost s is b peak f there q
      searched (some h) f below q =
          let here : pos h ≡ f = cc (q) in subst (λ z. AtMost z peak.height) here (below h refl)
