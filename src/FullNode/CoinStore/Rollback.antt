-- ===== src/FullNode/CoinStore/Rollback.antt =====
-- sector/full_node/coin_store.py: a rollback ends, and undoes the blocks above its height.
use sector_blockchain.Prelude.{
  ℕ, ◌≡◌, refl, sym, ap, ◌∙◌, true, false, Bool-cases, Option-cases, inl, inr, Option, none, some,
  List, if◌then◌else◌,
}
use sector_blockchain.Prelude.Int.{ℤ}
use sector_blockchain.Prelude.Dict.{lookup, has_key, member}
use sector_blockchain.Python.{ok}
use sector_blockchain.Util.LruCache.{LruCache}
use sector_blockchain.Util.LruCache.Use.{has_key-some}
use sector_blockchain.Consensus.Blockchain.{above}
use sector_blockchain.FullNode.Conditions.{Coin, CoinRecord}
use sector_blockchain.FullNode.CoinStore.{
  CoinStore, CoinBlock, unspend, delete_where, update_where, rollback_cache, rollback_to_block,
  new_block,
}
use sector_blockchain.FullNode.CoinStore.Table.{undo, lookup-rolled}
use sector_blockchain.FullNode.CoinStore.Coherent.{IsCoherent}
use sector_blockchain.FullNode.CoinStore.Grown.{new_block-IsGrown}
use sector_blockchain.FullNode.CoinStore.Removal.{remove_all_lem}
use sector_blockchain.FullNode.CoinStore.Patched.{
  patched, queued, IsPatched, rollback_cache-IsPatched,
}

module _ (coin_name : Coin → ℕ) (z : ℤ) where
  -- The entries of the cache after the loop, and after the removals.
  queued_present :
      (k : ℕ) (c d : LruCache CoinRecord) (delete_queue : List ℕ)
      → IsPatched z c.cache c d delete_queue
      → member k delete_queue ≡ true
      → has_key k d.cache ≡ true
  queued_present k c d delete_queue p m = elim (Option-cases (lookup k c.cache)) [
    | inl missing ↦
        let not_queued = p.names k ∙ ap (queued z) missing in absurd (cc (m, not_queued))
    | inr (r, there) ↦
        let value : lookup k d.cache ≡ patched z (some r) (some r) =
          p.values k ∙ ap (λ (o : Option CoinRecord). patched z o o) there in
        elim (Bool-cases (above r.spent_block_index z)) [
          | inl late ↦ has_key-some k (unspend r) d.cache (rw late at value)
          | inr early ↦ has_key-some k r d.cache (rw early at value)
        ]
  ]

  left_in_cache :
      (k : ℕ) (s : CoinStore) (d e : LruCache CoinRecord) (delete_queue : List ℕ) (r : CoinRecord)
      → IsCoherent coin_name s
      → IsPatched z s.coin_record_cache.cache s.coin_record_cache d delete_queue
      → lookup k e.cache ≡ (if member k delete_queue then none else lookup k d.cache)
      → lookup k e.cache ≡ some r
      → undo z (lookup k s.coin_record_db) ≡ some r
  unfolding undo
  left_in_cache k s d e queue r is p looked found =
      elim (Option-cases (lookup k s.coin_record_cache.cache)) [
        | inl missing ↦
            let not_queued : member k queue ≡ false = p.names k ∙ ap (queued z) missing in
            let no_value : lookup k d.cache ≡ none =
              p.values k ∙ ap (λ (o : Option CoinRecord). patched z o o) missing in
            let nothing = rw (not_queued, no_value) at looked in absurd (cc (nothing, found))
        | inr (w, there) ↦
            let row = is.cached k w there in
            let in_queue : member k queue ≡ above w.confirmed_block_index z =
              p.names k ∙ ap (queued z) there in
            let value : lookup k d.cache ≡ patched z (some w) (some w) =
              p.values k ∙ ap (λ (o : Option CoinRecord). patched z o o) there in
            elim (Bool-cases (above w.confirmed_block_index z)) [
              | inl new ↦ let nothing = rw (in_queue, new) at looked in absurd (cc (nothing, found))
              | inr old ↦
                  let same = rw (in_queue, old) at looked in
                  rw (row, old) (split w (sym value ∙ sym same ∙ found))
            ]
      ]
    where
      split :
          (w : CoinRecord)
          → (if above w.spent_block_index z then some (unspend w) else some w) ≡ some r
          → some (if above w.spent_block_index z then unspend w else w) ≡ some r
      split w q = elim (Bool-cases (above w.spent_block_index z)) [
        | inl late ↦ rw late (rw late at q)
        | inr early ↦ rw early (rw early at q)
      ]

  -- A rollback of a store in order ends; its table has what `undo` leaves, and its cache agrees.
  rollback_lem :
      (s : CoinStore)
      → IsCoherent coin_name s
      → (t : CoinStore) × (rollback_to_block coin_name z s ≡ ok t)
        × ((k : ℕ) → lookup k t.coin_record_db ≡ undo z (lookup k s.coin_record_db))
        × ((k : ℕ) (r : CoinRecord)
            → lookup k t.coin_record_cache.cache ≡ some r
            → lookup k t.coin_record_db ≡ some r)
  unfolding rollback_to_block
  rollback_lem s is =
      let c = s.coin_record_cache in
      let loop =
        rollback_cache-IsPatched z coin_name c.cache c is.is_cache.distinct
          (λ k r e. is.named k r (is.cached k r e)) is.is_cache is.room (λ k e. e) in
      let (d, q, used, looked) =
        remove_all_lem (rollback_cache coin_name z c.cache c).1
          (rollback_cache coin_name z c.cache c).0 loop.is_cache loop.apart
          (λ k m.
            queued_present k c (rollback_cache coin_name z c.cache c).0
              (rollback_cache coin_name z c.cache c).1 loop m) in
      (
        record {
          coin_record_db = update_where z (delete_where z s.coin_record_db);
          coin_record_cache = d;
        },
        rw q refl,
        (λ k. lookup-rolled z k s.coin_record_db is.table),
        λ k r e.
            lookup-rolled z k s.coin_record_db is.table
            ∙ left_in_cache k s (rollback_cache coin_name z c.cache c).0 d
                (rollback_cache coin_name z c.cache c).1 r is loop (looked k) e,
      )

module _ (coin_name : Coin → ℕ) where
  -- A rollback to a height undoes a block above it: on a store in order whose rows are all at most
  -- at the height, if the block is taken, the rollback ends, with every row of the table as it was
  -- before the block, and a cache that has nothing but rows of that table.
  pub rollback_to_block-new_block :
      (s t : CoinStore) (z : ℤ) (block : CoinBlock) (tx_additions : List Coin)
      (tx_removals : List ℕ)
      → IsCoherent coin_name s
      → ((k : ℕ) (r : CoinRecord)
          → lookup k s.coin_record_db ≡ some r
          → (above r.confirmed_block_index z ≡ false) × (above r.spent_block_index z ≡ false))
      → above block.height z ≡ true
      → new_block coin_name block tx_additions tx_removals s ≡ ok t
      → (u : CoinStore) × (rollback_to_block coin_name z t ≡ ok u)
        × ((k : ℕ) → lookup k u.coin_record_db ≡ lookup k s.coin_record_db)
        × ((k : ℕ) (r : CoinRecord)
            → lookup k u.coin_record_cache.cache ≡ some r
            → lookup k u.coin_record_db ≡ some r)
  unfolding undo
  rollback_to_block-new_block s t z block tx_additions tx_removals is below up e =
      let grown = new_block-IsGrown coin_name z block tx_additions tx_removals s t up is e in
      let (u, q, table, cached) = rollback_lem coin_name z t grown.coherent in
      (u, q, λ k. table k ∙ grown.undone k ∙ settled k, cached)
    where
      settled : (k : ℕ) → undo z (lookup k s.coin_record_db) ≡ lookup k s.coin_record_db
      settled k = elim (Option-cases (lookup k s.coin_record_db)) [
        | inl missing ↦ rw missing refl
        | inr (r, there) ↦ let (a, b) = below k r there in rw (there, a, b) refl
      ]
