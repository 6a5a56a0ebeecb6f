-- ===== src/Consensus/Blockchain/Index.antt =====
-- sector/consensus/blockchain.py: the hashes by height of the records that are in memory.
use mathlib.Core.Path.{subst}
use sector_blockchain.Prelude.{
  ℕ, ◌≡◌, sym, ◌∙◌, ap, arith, Bool, false, Bool-cases, Option-cases, inl, inr, ◌==◌, ltb, not,
  ◌&&◌, Option, none, some, List, [], if◌then◌else◌,
}
use sector_blockchain.Prelude.Dict.{Dict, lookup, member, add, lookup-insert, member-add}
use sector_blockchain.Prelude.Int.{ℤ}
use sector_blockchain.Python.{ok, Result-cases}
use sector_blockchain.Consensus.BlockRecord.{BlockRecord}
use sector_blockchain.Consensus.Blockchain.{
  FullBlock, BlockStore, Blockchain, Attempt, gives, stops, Attempt-cases, Parts,
  PreValidationResult, contains_block, get_peak, drop_summaries, add_block_record, add_full_block,
}
use sector_blockchain.Consensus.Blockchain.Receive.{
  Outcome, rolled_back, commit, settle, reconsider_peak, add_validated, connection, validated,
  receive_block,
}
use sector_blockchain.Consensus.Blockchain.Received.{RecordsBlocks, validated-inr, not_there}

-- The hashes that are listed for a height.
unfoldable pub listed : ℕ → Dict (List ℕ) → List ℕ
listed h heights = elim (lookup h heights) [ none ↦ [] | some x ↦ x ]

-- Whether a record in memory is at a height.
unfoldable pub stands_at : ℕ → Option BlockRecord → Bool
stands_at h none = false
stands_at h (some b) = b.height == h

-- The hashes listed for a height are those of the records in memory that are at the height.
unfoldable pub IsIndexed : {Body Coins : Type 0} → Blockchain Body Coins → Type 0
IsIndexed s =
    (x h : ℕ) → member x (listed h s.heights_in_cache) ≡ stands_at h (lookup x s.block_records)

module _ {Body Coins : Type 0} (s : Blockchain Body Coins) where
  -- The entries of one height after a new record, and where that record stands.
  new_entry :
      (b : BlockRecord)
      → lookup b.header_hash s.block_records ≡ none
      → IsIndexed s
      → (x h : ℕ)
      → member x
          (elim (if b.height == h
            then some (add b.header_hash (listed b.height s.heights_in_cache))
            else lookup h s.heights_in_cache) [ none ↦ [] | some l ↦ l ])
        ≡ stands_at h (if b.header_hash == x then some b else lookup x s.block_records)
  unfolding IsIndexed listed stands_at
  new_entry b fresh is x h = elim (Bool-cases (b.header_hash == x)) [
    | inl here ↦
        let same : b.header_hash ≡ x = ground (arith, here) in
        let before =
          is x h ∙ ap (stands_at h) (subst (λ y. lookup y s.block_records ≡ none) same fresh) in
        elim (Bool-cases (b.height == h)) [
          | inl level ↦
              rw (level, here, member-add b.header_hash x (listed b.height s.heights_in_cache))
                (ground (arith, here, level))
          | inr apart ↦ rw (apart, here) (before ∙ sym apart)
        ]
    | inr there ↦ elim (Bool-cases (b.height == h)) [
      | inl level ↦
          let same : b.height ≡ h = ground (arith, level) in
          let before =
            subst
              (λ n. member x (listed n s.heights_in_cache) ≡ stands_at h (lookup x s.block_records))
              (sym same) (is x h) in
          rw (level, member-add b.header_hash x (listed b.height s.heights_in_cache))
            (rw there before)
      | inr apart ↦ rw (apart, there) (is x h)
    ]
  ]

  pub add_block_record-IsIndexed :
      (b : BlockRecord)
      → lookup b.header_hash s.block_records ≡ none
      → IsIndexed s
      → IsIndexed (add_block_record b s)
  unfolding add_block_record IsIndexed listed
  add_block_record-IsIndexed b fresh is x h =
      ap (λ (o : Option (List ℕ)). member x (elim o [ none ↦ [] | some l ↦ l ]))
        (lookup-insert b.height h (add b.header_hash (listed b.height s.heights_in_cache))
          s.heights_in_cache)
      ∙ new_entry b fresh is x h
      ∙ ap (stands_at h) (sym (lookup-insert b.header_hash x b s.block_records))

module _ {Body Coins Npc Spends : Type 0} (parts : Parts Body Coins Npc Spends) where
  -- `_reconsider_peak` changes no part of the memory but the sub-epoch summaries above a fork.
  pub reconsidered :
      (Q : Blockchain Body Coins → Type 0) (s : Blockchain Body Coins) (store : BlockStore Body)
      (b : BlockRecord) (genesis : Bool) (given : Option ℕ) (npc_result : Option Npc)
      → Q s
      → ((z : ℤ) → Q (record s { sub_epoch_summaries = drop_summaries z s.sub_epoch_summaries }))
      → Q (reconsider_peak parts s store b genesis given npc_result).0
  unfolding reconsider_peak
  reconsidered Q s store b genesis given npc_result q qz = elim (Result-cases (get_peak s)) [
    | inr (x, e) ↦ rw (reconsider_peak, e) q
    | inl (found, e) ↦ elim (Option-cases found) [
      | inl none_yet ↦ rw (reconsider_peak, e, none_yet) q
      | inr (peak, there) ↦ elim (Bool-cases (not genesis && ltb peak.weight b.weight)) [
        | inr light ↦ rw (reconsider_peak, e, there, light) q
        | inl heavy ↦ elim (Attempt-cases (rolled_back parts s b peak given)) [
          | inr (x, left, r) ↦ rw (reconsider_peak, e, there, heavy, r) q
          | inl ((fork_height, coins), r) ↦
              rw (reconsider_peak, e, there, heavy, r) (qz fork_height)
        ]
      ]
    ]
  ]

  settle-IsIndexed :
      (b : BlockRecord) (r : Blockchain Body Coins × Attempt Coins (Outcome Body Coins))
      → IsIndexed (r.0)
      → IsIndexed (add_block_record b (r.0))
      → IsIndexed (settle parts b r).0
  unfolding settle commit IsIndexed add_block_record
  settle-IsIndexed b (t, stops x left) old new = old
  settle-IsIndexed b (t, gives o) old new = new

  module _ (records_blocks : RecordsBlocks parts) where
    added :
        (s : Blockchain Body Coins)
        → IsIndexed s
        → (block : FullBlock Body) (pre : Option (PreValidationResult Npc)) (given : Option ℕ)
        → (b : BlockRecord) (npc_result : Option Npc) → contains_block s block.header_hash ≡ false
        → validated parts s block pre given ≡ ok (inr (b, npc_result))
        → IsIndexed (add_validated parts s block b given npc_result).0
    unfolding add_validated contains_block IsIndexed
    added s is block pre given b npc_result new v =
        let hash = (validated-inr parts records_blocks s block pre given b npc_result v).0 in
        let fresh =
          subst (λ y. lookup y s.block_records ≡ none) (sym hash)
            (not_there block.header_hash s.block_records new) in
        let store = add_full_block block.header_hash block b s.block_store in
        settle-IsIndexed b (reconsider_peak parts s store b (block.height == 0) given npc_result)
          (reconsidered IsIndexed s store b (block.height == 0) given npc_result is (λ z. is))
          (reconsidered (λ t. IsIndexed (add_block_record b t)) s store b (block.height == 0) given
            npc_result (add_block_record-IsIndexed s b fresh is)
            (λ z.
              add_block_record-IsIndexed
                (record s { sub_epoch_summaries = drop_summaries z s.sub_epoch_summaries }) b fresh
                is))

    -- Whatever `receive_block` answers or raises, the hashes that the memory lists for each height are
    -- those of the records in memory at that height, where they were before and the record of a
    -- block has the block's hash.
    pub receive_block-IsIndexed :
        (s : Blockchain Body Coins)
        → IsIndexed s
        → (block : FullBlock Body) (pre : Option (PreValidationResult Npc)) (given : Option ℕ)
        → IsIndexed (receive_block parts s block pre given).0
    unfolding receive_block add_validated contains_block
    receive_block-IsIndexed s is block pre given =
        elim (Bool-cases (contains_block s block.header_hash)) [
          | inl known ↦ rw known is
          | inr new ↦ elim (Result-cases (connection s block)) [
            | inr (x, e) ↦ rw (new, e) is
            | inl (answer, e) ↦ elim (Option-cases answer) [
              | inr (a, q) ↦ rw (new, e, q) is
              | inl none_yet ↦ elim (Result-cases (validated parts s block pre given)) [
                | inr (x, v) ↦ rw (new, e, none_yet, v) is
                | inl (inl a, v) ↦ rw (new, e, none_yet, v) is
                | inl (inr (b, npc_result), v) ↦
                    rw (new, e, none_yet, v) (added s is block pre given b npc_result new v)
              ]
            ]
          ]
        ]
