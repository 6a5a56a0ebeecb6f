-- ===== src/Consensus/Blockchain/Peak.antt =====
-- sector/consensus/blockchain.py: a received block leaves a chain that ends in its heaviest block.
use mathlib.Core.Path.{subst}
use sector_blockchain.Prelude.{
  ℕ, suc, ◌≤◌, ◌<◌, ◌≡◌, refl, sym, ◌∙◌, ap, arith, true, ◌==◌, Option, none, some,
}
use sector_blockchain.Prelude.Int.{ℤ}
use sector_blockchain.Prelude.Dict.{Dict, lookup, insert, has_key-lookup}
use sector_blockchain.Consensus.SubEpochSummary.{SubEpochSummary}
use sector_blockchain.Consensus.BlockRecord.{BlockRecord}
use sector_blockchain.Consensus.Blockchain.{
  FullBlock, BlockStore, Blockchain, gives, Parts, insert_hashes, add_full_block, set_peak,
  add_block_record,
}
use sector_blockchain.Consensus.Blockchain.Receive.{Outcome, adopt, adopt_genesis, commit}
use sector_blockchain.Consensus.Blockchain.Path.{
  IsPath, IsPath-first, IsPath-known, lookup-insert-same,
}
use sector_blockchain.Consensus.Blockchain.Collect.{AtMost, oldest_first, blocks_to_add-IsPath}
use sector_blockchain.Consensus.Blockchain.Chain.{
  IsPeak, AreInStep, IsChain, Follows, still_known, add_full_block-IsStore, cached-add,
  heaviest-add, marked-add,
}
use sector_blockchain.Consensus.Blockchain.Adopt.{adopt-ok, adopt_genesis-ok}

module _ {Body Coins : Type 0} (s : Blockchain Body Coins) (is : IsChain s) (block : FullBlock Body)
    (b : BlockRecord) (follows : Follows s.block_store block b) where
  abbrev pub store : BlockStore Body
  store = add_full_block block.header_hash block b s.block_store

  pub b_known : lookup b.header_hash (insert block.header_hash b s.block_store.records) ≡ some b
  b_known =
      subst (λ y. lookup y (insert block.header_hash b s.block_store.records) ≡ some b)
        (sym follows.hash) (lookup-insert-same block.header_hash b s.block_store.records)

  -- The block is no new peak.
  pub orphan-AreInStep :
      ((peak : BlockRecord) (h : ℕ)
        → s.peak_height ≡ some h
        → IsPeak s.block_store s.hash_at h peak
        → 0 < b.height
        → b.weight ≤ peak.weight)
      → (h : ℕ) → s.peak_height ≡ some h
      → AreInStep store (insert b.header_hash b s.block_records) s.hash_at s.peak_height
  unfolding add_full_block
  orphan-AreInStep light h e = record {
    stored = add_full_block-IsStore s.block_store is.stored block b follows;
    cached = cached-add s.block_store is.stored block b follows s.block_records is.cached;
    unborn = λ q. absurd (cc (e, q));
    top = λ k q.
        let (peak, p) = is.top k q in
        (
          peak,
          record {
            path =
                IsPath-known s.block_store.records
                  (insert block.header_hash b s.block_store.records) s.hash_at k peak.header_hash
                  (still_known s.block_store is.stored block b follows) p.path;
            in_store =
                still_known s.block_store is.stored block b follows peak.header_hash peak
                  p.in_store;
            level = p.level;
            marked = marked-add s.block_store is.stored block b follows peak p.in_store p.marked;
            weighs_most =
                heaviest-add s.block_store is.stored block b follows peak.weight p.weighs_most
                  (light peak k q p);
          },
        );
  }

  -- The block is the new peak.
  pub peak-AreInStep :
      (hashes : Dict ℕ)
      → IsPath (insert block.header_hash b s.block_store.records) hashes b.height b.header_hash
      → ((x : ℕ) (c : BlockRecord)
          → lookup x s.block_store.records ≡ some c
          → 0 < c.height
          → c.weight ≤ b.weight)
      → AreInStep
          (set_peak b.header_hash store)
          (insert b.header_hash b s.block_records)
          hashes
          (some b.height)
  unfolding add_full_block set_peak
  peak-AreInStep hashes path heavy =
      let i = add_full_block-IsStore s.block_store is.stored block b follows in
      record {
        stored = record { named = i.named; full = i.full; before = i.before };
        cached = cached-add s.block_store is.stored block b follows s.block_records is.cached;
        unborn = λ q. absurd (cc (q));
        top = λ k q.
            let level : b.height ≡ k = cc (q) in
            (
              b,
              record {
                path =
                    subst
                      (λ m.
                        IsPath (insert block.header_hash b s.block_store.records) hashes m
                          b.header_hash)
                      level path;
                in_store = b_known;
                level = level;
                marked =
                    rw
                      (
                        has_key-lookup b.header_hash
                            (insert block.header_hash b s.block_store.records),
                        b_known,
                      )
                      refl;
                weighs_most =
                    heaviest-add s.block_store is.stored block b follows b.weight heavy
                      (λ z. omega arith);
              },
            );
      }

-- The memory after an outcome with a new peak.
pub commit-IsChain :
    {Body Coins : Type 0} (s : Blockchain Body Coins) (b : BlockRecord) (o : Outcome Body Coins)
    (after : BlockStore Body) (hashes : Dict ℕ) (n : ℕ)
    → o.store ≡ after
    → insert_hashes o.fetched s.hash_at ≡ hashes
    → o.new_height ≡ some n
    → AreInStep after (insert b.header_hash b s.block_records) hashes (some n)
    → IsChain (commit b o s)
unfolding commit add_block_record
commit-IsChain s b o after hashes n e1 e2 e3 is =
    let one =
      subst
        (λ (d : BlockStore _). AreInStep d (insert b.header_hash b s.block_records) hashes (some n))
        (sym e1) is in
    let two =
      subst (λ (d : Dict ℕ). AreInStep o.store (insert b.header_hash b s.block_records) d (some n))
        (sym e2) one in
    at_height o.new_height e3 two
  where
    at_height :
        (t : Option ℕ)
        → t ≡ some n
        → AreInStep o.store
            (insert b.header_hash b s.block_records)
            (insert_hashes o.fetched s.hash_at)
            (some n)
        → AreInStep o.store
            (insert b.header_hash b s.block_records)
            (insert_hashes o.fetched s.hash_at)
            (elim t [ none ↦ s.peak_height | some h ↦ some h ])
    at_height none q x = absurd (cc (q))
    at_height (some h) q x =
        let same : n ≡ h = cc (q) in
        subst
          (λ m.
            AreInStep o.store (insert b.header_hash b s.block_records)
              (insert_hashes o.fetched s.hash_at) (some m))
          same x

module _ {Body Coins Npc Spends : Type 0} (parts : Parts Body Coins Npc Spends)
    (s : Blockchain Body Coins) (is : IsChain s) (block : FullBlock Body) (b : BlockRecord)
    (follows : Follows s.block_store block b) where
  pub genesis-IsChain :
      (npc_result : Option Npc) (o : Outcome Body Coins)
      → s.peak_height ≡ none
      → (block.height == 0) ≡ true
      → adopt_genesis parts s (store s is block b follows) b npc_result ≡ gives o
      → IsChain (commit b o s)
  unfolding insert_hashes add_full_block
  genesis-IsChain npc_result o none_yet lowest e =
      let (e1, e2, e3) = adopt_genesis-ok parts s (store s is block b follows) b npc_result o e in
      let z : b.height ≡ 0 = sym follows.height ∙ is_zero block.height lowest in
      commit-IsChain s b o (set_peak b.header_hash (store s is block b follows))
        (insert b.height b.header_hash s.hash_at) 0 e3 (ap (λ l. insert_hashes l s.hash_at) e1) e2
        (subst
          (λ n.
            AreInStep (set_peak b.header_hash (store s is block b follows))
              (insert b.header_hash b s.block_records) (insert b.height b.header_hash s.hash_at)
              (some n))
          z
          (peak-AreInStep s is block b follows (insert b.height b.header_hash s.hash_at)
            (IsPath-first (insert block.header_hash b s.block_store.records) s.hash_at b
              (b_known s is block b follows) z)
            (λ x c there positive.
              let nothing = is.unborn none_yet x in absurd (cc (nothing, there)))))
    where
      is_zero : (n : ℕ) → (n == 0) ≡ true → n ≡ 0
      is_zero n h = ground (arith)

  pub adopt-IsChain :
      (npc_result : Option Npc) (o : Outcome Body Coins) (fork_height : ℤ) (coins : Coins) (h : ℕ)
      (peak : BlockRecord)
      → s.peak_height ≡ some h
      → IsPeak s.block_store s.hash_at h peak
      → AtMost fork_height peak.height
      → peak.weight < b.weight
      → (summaries : Dict SubEpochSummary)
      → adopt parts s (store s is block b follows) b fork_height coins npc_result ≡ gives o
      → IsChain (commit b o (record s { sub_epoch_summaries = summaries }))
  unfolding add_full_block
  adopt-IsChain npc_result o fork_height coins h peak eh p below heavier summaries e =
      let (blocks, e1, e2, e3, e4) =
        adopt-ok parts s (store s is block b follows) b fork_height coins npc_result o e in
      let all = insert block.header_hash b s.block_store.records in
      let path =
        IsPath-known s.block_store.records all s.hash_at h peak.header_hash
          (still_known s.block_store is.stored block b follows) p.path in
      commit-IsChain (record s { sub_epoch_summaries = summaries }) b o
        (set_peak b.header_hash (store s is block b follows))
        (insert_hashes (oldest_first blocks) s.hash_at) b.height e4
        (ap (λ l. insert_hashes l s.hash_at) e2) e3
        (peak-AreInStep s is block b follows (insert_hashes (oldest_first blocks) s.hash_at)
          (blocks_to_add-IsPath (store s is block b follows)
            (add_full_block-IsStore s.block_store is.stored block b follows) s.hash_at h
            peak.header_hash path fork_height (subst (λ m. AtMost fork_height m) p.level below)
            (suc (suc b.height)) b.header_hash b blocks (b_known s is block b follows) e1)
          (λ x c there positive.
            let w = p.weighs_most x c there positive in omega (arith, w, heavier)))
