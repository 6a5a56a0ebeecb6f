-- ===== src/Consensus/Blockchain/Received.antt =====
-- sector/consensus/blockchain.py: `receive_block` keeps the records in memory and the block store
-- in step.
use mathlib.Core.Path.{subst}
use sector_blockchain.Prelude.{
  ℕ, suc, ◌+◌, ◌≤◌, ◌≡◌, refl, sym, ◌∙◌, ap, arith, true, false, Bool-cases, Option-cases, inl, inr,
  ◌==◌, Option, none, some, if◌then◌else◌,
}
use sector_blockchain.Prelude.Dict.{Dict, lookup, has_key, has_key-lookup}
use sector_blockchain.Python.{Result, ok, >>=-eq-ok, Result-cases}
use sector_blockchain.Consensus.BlockRecord.{BlockRecord}
use sector_blockchain.Consensus.Blockchain.{
  FullBlock, Blockchain, Parts, PreValidationResult, present, contains_block, block_record,
}
use sector_blockchain.Consensus.Blockchain.Receive.{
  Answer, connection, header_checked, validated, receive_block,
}
use sector_blockchain.Consensus.Blockchain.Collect.{item-ok}
use sector_blockchain.Consensus.Blockchain.Chain.{IsChain, Follows}
use sector_blockchain.Consensus.Blockchain.Reconsider.{add_validated-IsChain}

-- The record of a block has the block's hash, predecessor and height.
abbrev pub RecordsBlocks : {Body Coins Npc Spends : Type 0} → Parts Body Coins Npc Spends → Type 0
RecordsBlocks {Body} {Coins} parts =
    (s : Blockchain Body Coins) (iters : ℕ) (block : FullBlock Body) (b : BlockRecord)
    → parts.block_to_block_record s iters block ≡ ok b
    → (b.header_hash ≡ block.header_hash)
      × (b.prev_hash ≡ block.prev_header_hash)
      × (block.height ≡ b.height)

pub not_there : {V : Type 0} (x : ℕ) (d : Dict V) → has_key x d ≡ false → lookup x d ≡ none
not_there {V} x d e = absent (lookup x d) (sym (has_key-lookup x d) ∙ e)
  where
    absent : (o : Option V) → (elim o [ none ↦ false | some v ↦ true ]) ≡ false → o ≡ none
    absent none h = refl
    absent (some v) h = absurd (cc (h))

module _ {Body Coins : Type 0} (s : Blockchain Body Coins) (is : IsChain s)
    (block : FullBlock Body) where
  pub unknown :
      contains_block s block.header_hash ≡ false
      → lookup block.header_hash s.block_store.records ≡ none
  unfolding contains_block
  unknown e = sym (is.cached block.header_hash) ∙ not_there block.header_hash s.block_records e

  -- A connected block is at height 0 or above its predecessor.
  pub connection-none :
      connection s block ≡ ok none
      → (j : ℕ) → block.height ≡ suc j
      → (p : BlockRecord) × (lookup block.prev_header_hash s.block_store.records ≡ some p)
        × (p.height ≡ j)
  unfolding connection block_record
  connection-none e j up =
      let later = not_first block.height j up in
      elim (Bool-cases (contains_block s block.prev_header_hash)) [
        | inr missing ↦ absurd (cc (rw (later, missing) at e))
        | inl there ↦
            let (p, e1, r1) =
              >>=-eq-ok (block_record s block.prev_header_hash) _ (rw (later, there) at e) in
            let found = item-ok block.prev_header_hash s.block_records p e1 in
            (
              p,
              sym (is.cached block.prev_header_hash) ∙ found,
              below p.height block.height j _ up r1,
            )
      ]
    where
      not_first : (n j : ℕ) → n ≡ suc j → (n == 0) ≡ false
      not_first n j h = ground (arith)

      below :
          (m n j : ℕ) (answer : Answer)
          → n ≡ suc j
          → ◌≡◌ {A = Result (Option Answer)}
              (if m + 1 == n then ok none else ok (some answer))
              (ok none)
          → m ≡ j
      below m n j answer up e = elim (Bool-cases (m + 1 == n)) [
        | inl level ↦ ground (arith, level, up)
        | inr apart ↦ absurd (cc (rw apart at e))
      ]

module _ {Body Coins Npc Spends : Type 0} (parts : Parts Body Coins Npc Spends)
    (records_blocks : RecordsBlocks parts) where
  -- A validated block has the record of a block.
  pub validated-inr :
      (s : Blockchain Body Coins) (block : FullBlock Body) (pre : Option (PreValidationResult Npc))
      (given : Option ℕ) (b : BlockRecord) (npc_result : Option Npc)
      → validated parts s block pre given ≡ ok (inr (b, npc_result))
      → (b.header_hash ≡ block.header_hash)
        × (b.prev_hash ≡ block.prev_header_hash)
        × (block.height ≡ b.height)
  unfolding validated
  validated-inr s block pre given b npc_result e =
      let ((iters, error, npc), e1, r1) = >>=-eq-ok (header_checked parts s block pre) _ e in
      elim (Option-cases error) [
        | inr (x, failed) ↦ absurd (cc (rw failed at r1))
        | inl sound ↦
            let (n, e2, r2) = >>=-eq-ok (present iters) _ (rw sound at r1) in
            let (code, e3, r3) = >>=-eq-ok (parts.validate_block_body s block npc given) _ r2 in
            elim (Option-cases code) [
              | inr (x, failed) ↦ absurd (cc (rw failed at r3))
              | inl right ↦
                  let (c, e4, r4) =
                    >>=-eq-ok (parts.block_to_block_record s n block) _ (rw right at r3) in
                  let same : c ≡ b = cc (r4) in
                  subst
                    (λ (z : BlockRecord).
                      (z.header_hash ≡ block.header_hash)
                      × (z.prev_hash ≡ block.prev_header_hash)
                      × (block.height ≡ z.height))
                    same (records_blocks s n block c e4)
            ]
      ]

  module _ (s : Blockchain Body Coins) (is : IsChain s) (block : FullBlock Body)
      (pre : Option (PreValidationResult Npc)) (given : Option ℕ) where
    pub validated-Follows :
        (b : BlockRecord) (npc_result : Option Npc)
        → contains_block s block.header_hash ≡ false
        → connection s block ≡ ok none
        → validated parts s block pre given ≡ ok (inr (b, npc_result))
        → Follows s.block_store block b
    validated-Follows b npc_result new connected e =
        let (h1, h2, h3) = validated-inr s block pre given b npc_result e in
        record {
          fresh = unknown s is block new;
          hash = h1;
          height = h3;
          before = λ j up.
              let (p, q, level) = connection-none s is block connected j (h3 ∙ up) in
              (p, subst (λ x. lookup x s.block_store.records ≡ some p) (sym h2) q, level);
        }

    -- Whatever `receive_block` answers or raises, these stay in step: the records in memory are the
    -- ones of the block store, which are linked; and where there is a peak, the hashes by height
    -- are the path to it, the block store has it marked, and no known block above height 0 is
    -- heavier. The caller's fork point, if any, is not above the peak, and the record of a block
    -- has the block's hash, predecessor and height. The sub-epoch summaries, the heights of the
    -- cache and the coins are not part of the statement.
    pub receive_block-IsChain :
        ((k n : ℕ) → given ≡ some k → s.peak_height ≡ some n → k ≤ n)
        → IsChain (receive_block parts s block pre given).0
    unfolding receive_block
    receive_block-IsChain below = elim (Bool-cases (contains_block s block.header_hash)) [
      | inl known ↦ rw known is
      | inr new ↦ elim (Result-cases (connection s block)) [
        | inr (x, e) ↦ rw (new, e) is
        | inl (answer, e) ↦ elim (Option-cases answer) [
          | inr (a, q) ↦ rw (new, e, q) is
          | inl none_yet ↦ elim (Result-cases (validated parts s block pre given)) [
            | inr (x, v) ↦ rw (new, e, none_yet, v) is
            | inl (inl a, v) ↦ rw (new, e, none_yet, v) is
            | inl (inr (b, npc_result), v) ↦
                let follows = validated-Follows b npc_result new (e ∙ ap ok none_yet) v in
                rw (new, e, none_yet, v)
                  (add_validated-IsChain parts s is block b follows given npc_result below)
          ]
        ]
      ]
    ]
