-- ===== src/FullNode/CoinStore.antt =====
-- sector/full_node/coin_store.py: the records of the coins, in a table with a cache in front of it.
-- The table is a dict by the name of a coin, which is its primary key, and the statements of SQL
-- are functions on it. `coin_name` is the number that `Coin.name` spells. A block is what the store
-- reads of it. An exception leaves the table as it was, by the transaction of the database.
pub mod Table
pub mod Coherent
pub mod Grown
pub mod Removal
pub mod Patched
pub mod Rollback
use sector_blockchain.Prelude.{
  ℕ, ◌+◌, Bool, true, false, not, ◌&&◌, ◌||◌, ltb, leb, ◌==◌, Option, none, some, List, [], ◌∷◌,
  ◌++◌, length, if◌then◌else◌,
}
use sector_blockchain.Prelude.Int.{ℤ}
use sector_blockchain.Prelude.Dict.{Dict, lookup, has_key, insert}
use sector_blockchain.Python.{Result, ok, raise, value_error, integrity_error, assert, ◌>>=◌, ◌>>◌}
use sector_blockchain.Util.LruCache.{LruCache, get, put, remove}
use sector_blockchain.Consensus.Blockchain.{above}
use sector_blockchain.FullNode.Conditions.{Coin, CoinRecord, same_bytes}

pub record CoinStore : Type 0 where
  pub coin_record_db : Dict CoinRecord
  pub coin_record_cache : LruCache CoinRecord

-- What only a transaction block has: the time, and the reward coins it claims.
pub record TransactionBlock : Type 0 where
  pub timestamp : ℕ
  pub reward_claims_incorporated : List Coin

pub record CoinBlock : Type 0 where
  pub height : ℕ
  pub foliage_transaction_block : Option TransactionBlock

unfoldable pub same_coin : Coin → Coin → Bool
unfolding same_bytes
same_coin a b =
    same_bytes a.parent_coin_info b.parent_coin_info
    && (same_bytes a.puzzle_hash b.puzzle_hash && a.amount == b.amount)

unfoldable pub has_coin : Coin → List Coin → Bool
unfolding same_coin
has_coin c [] = false
has_coin c (d ∷ coins) = same_coin c d || has_coin c coins

-- `set` of a list of coins, each once.
unfoldable pub set_of : List Coin → List Coin
unfolding has_coin
set_of [] = []
set_of (c ∷ coins) = let rest = set_of coins in if has_coin c coins then rest else c ∷ rest

-- The set is gone through in some order; here it is the order of the list.
unfoldable pub get_included_reward_coins : CoinBlock → List Coin
unfolding set_of
get_included_reward_coins block = elim block.foliage_transaction_block [
  | none ↦ []
  | some tx ↦ set_of tx.reward_claims_incorporated
]

-- `DELETE FROM coin_record WHERE confirmed_index>?`
unfoldable pub delete_where : ℤ → Dict CoinRecord → Dict CoinRecord
delete_where block_index [] = []
delete_where block_index ((k, r) ∷ d) =
    let rest = delete_where block_index d in
    if above r.confirmed_block_index block_index then rest else (k, r) ∷ rest

abbrev pub unspend : CoinRecord → CoinRecord
unspend r = record r { spent_block_index = 0; spent = false }

-- `UPDATE coin_record SET spent_index = 0, spent = 0 WHERE spent_index>?`
unfoldable pub update_where : ℤ → Dict CoinRecord → Dict CoinRecord
update_where block_index [] = []
update_where block_index ((k, r) ∷ d) =
    (k, if above r.spent_block_index block_index then unspend r else r) ∷ update_where block_index d

-- `sum` of the amounts
abbrev pub sum_amounts : List Coin → ℕ
sum_amounts [] = 0
sum_amounts (c ∷ coins) = c.amount + sum_amounts coins

-- The removal of the queued names from the cache.
unfoldable pub remove_all : List ℕ → LruCache CoinRecord → Result (LruCache CoinRecord)
remove_all [] c = ok c
remove_all (n ∷ delete_queue) c = let rest = remove_all delete_queue in remove n c >>= rest

module _ (coin_name : Coin → ℕ) where
  unfoldable pub get_coin_record : ℕ → CoinStore → Option CoinRecord × CoinStore
  get_coin_record name s =
      let (cached, c) = get name s.coin_record_cache in
      elim cached [
        | some r ↦ (some r, record s { coin_record_cache = c })
        | none ↦ elim (lookup name s.coin_record_db) [
          | none ↦ (none, record s { coin_record_cache = c })
          | some r ↦ (some r, record s { coin_record_cache = put (coin_name r.coin) r c })
        ]
      ]

  unfoldable pub add_coin_record : CoinRecord → Bool → CoinStore → Result CoinStore
  add_coin_record r allow_replace s =
      let (found, c) = get (coin_name r.coin) s.coin_record_cache in
      (elim found [ none ↦ ok c | some x ↦ remove (coin_name r.coin) c ]) >>= λ cache.
      if not allow_replace && has_key (coin_name r.coin) s.coin_record_db
      then raise integrity_error
      else ok (record {
        coin_record_db = insert (coin_name r.coin) r s.coin_record_db;
        coin_record_cache = cache;
      })

  unfoldable pub set_spent : ℕ → ℕ → CoinStore → Result (ℕ × CoinStore)
  unfolding get_coin_record add_coin_record
  set_spent name index s =
      let (current, t) = get_coin_record name s in
      elim current [
        | none ↦ raise value_error
        | some r ↦
            assert (not r.spent)
            >> (add_coin_record (record r { spent_block_index = index; spent = true }) true t
                >>= λ next. ok (r.coin.amount, next))
      ]

  -- The loops over the additions, the reward coins and the removals.
  unfoldable pub add_coins : ℕ → ℕ → Bool → List Coin → CoinStore → Result CoinStore
  unfolding add_coin_record
  add_coins height timestamp coinbase [] s = ok s
  add_coins height timestamp coinbase (c ∷ coins) s =
      let rest = add_coins height timestamp coinbase coins in
      add_coin_record
        (record {
          coin = c;
          confirmed_block_index = height;
          spent_block_index = 0;
          spent = false;
          coinbase = coinbase;
          timestamp = timestamp;
        })
        false s
      >>= rest

  unfoldable pub spend_coins : ℕ → List ℕ → CoinStore → Result (ℕ × CoinStore)
  unfolding set_spent
  spend_coins index [] s = ok (0, s)
  spend_coins index (n ∷ tx_removals) s =
      let rest = spend_coins index tx_removals in
      set_spent n index s >>= λ first. rest first.1 >>= λ others. ok (first.0 + others.0, others.1)

  unfoldable pub new_block : CoinBlock → List Coin → List ℕ → CoinStore → Result CoinStore
  unfolding add_coins spend_coins get_included_reward_coins
  new_block block tx_additions tx_removals s = elim block.foliage_transaction_block [
    | none ↦ ok s
    | some tx ↦ do
      a ← add_coins block.height tx.timestamp false tx_additions s
      let included_reward_coins = get_included_reward_coins block
      assert (
          if block.height == 0
          then length included_reward_coins == 0
          else leb 2 (length included_reward_coins))
      b ← add_coins block.height tx.timestamp true included_reward_coins a
      (total_amount_spent, c) ← spend_coins block.height tx_removals b
      assert (leb (sum_amounts tx_additions) total_amount_spent)
      ok c
  ]

  -- The loop over the entries that the cache has at its start: the cache, and the names to remove.
  unfoldable pub rollback_cache :
      ℤ → Dict CoinRecord → LruCache CoinRecord → LruCache CoinRecord × List ℕ
  rollback_cache block_index [] c = (c, [])
  rollback_cache block_index ((n, r) ∷ items) c =
      let next =
        if above r.spent_block_index block_index then put (coin_name r.coin) (unspend r) c else c in
      let (done, delete_queue) = rollback_cache block_index items next in
      (done, if above r.confirmed_block_index block_index then n ∷ delete_queue else delete_queue)

  unfoldable pub rollback_to_block : ℤ → CoinStore → Result CoinStore
  unfolding rollback_cache remove_all delete_where update_where
  rollback_to_block block_index s =
      let (cache, delete_queue) =
        rollback_cache block_index s.coin_record_cache.cache s.coin_record_cache in
      remove_all delete_queue cache >>= λ c. ok (record {
        coin_record_db = update_where block_index (delete_where block_index s.coin_record_db);
        coin_record_cache = c;
      })
