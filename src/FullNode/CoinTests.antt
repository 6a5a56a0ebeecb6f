-- ===== src/FullNode/CoinTests.antt =====
-- A run of the store of coins: a block that spends a coin, and its rollback.
use mathlib.Core.Path.{subst}
use sector_blockchain.Prelude.{
  ℕ, ◌≡◌, refl, sym, ap, ◌∙◌, arith, Bool, true, false, Bool-cases, inl, inr, ◌==◌, some, [], ◌∷◌,
}
use sector_blockchain.Prelude.Int.{pos}
use sector_blockchain.Prelude.Dict.{lookup, has_key, insert, delete}
use sector_blockchain.Python.{ok}
use sector_blockchain.Util.LruCache.{get, remove}
use sector_blockchain.Util.LruCache.Keys.{AreDistinct}
use sector_blockchain.Consensus.Blockchain.{above}
use sector_blockchain.FullNode.Conditions.{Coin, CoinRecord, same_bytes}
use sector_blockchain.FullNode.CoinStore.{
  CoinStore, CoinBlock, set_of, has_coin, same_coin, get_included_reward_coins, new_block,
  rollback_to_block,
}
use sector_blockchain.FullNode.CoinStore.Coherent.{IsCoherent}
use sector_blockchain.FullNode.CoinStore.Rollback.{rollback_to_block-new_block}

-- Coins that are named by their amounts.
abbrev coin_of : ℕ → Coin
coin_of n = record { parent_coin_info = []; puzzle_hash = []; amount = n }

abbrev amount_of : Coin → ℕ
amount_of c = c.amount

abbrev old_record : CoinRecord
old_record = record {
  coin = coin_of 10;
  confirmed_block_index = 2;
  spent_block_index = 0;
  spent = false;
  coinbase = false;
  timestamp = 50;
}

abbrev new_record : ℕ → Bool → CoinRecord
new_record n coinbase = record {
  coin = coin_of n;
  confirmed_block_index = 5;
  spent_block_index = 0;
  spent = false;
  coinbase = coinbase;
  timestamp = 99;
}

abbrev before : CoinStore
before = record {
  coin_record_db = (10, old_record) ∷ [];
  coin_record_cache = record { cache = (10, old_record) ∷ []; capacity = 4 };
}

abbrev block : CoinBlock
block = record {
  height = 5;
  foliage_transaction_block = some (record {
    timestamp = 99;
    reward_claims_incorporated = coin_of 20 ∷ coin_of 20 ∷ coin_of 21 ∷ [];
  });
}

abbrev after : CoinStore
after = record {
  coin_record_db =
      (10, record old_record { spent_block_index = 5; spent = true })
      ∷ (4, new_record 4 false)
      ∷ (20, new_record 20 true)
      ∷ (21, new_record 21 true)
      ∷ [];
  coin_record_cache = record { cache = []; capacity = 4 };
}

only_old :
    (k : ℕ) (r : CoinRecord) → lookup k before.coin_record_db ≡ some r → (10 ≡ k) × (old_record ≡ r)
unfolding lookup
only_old k r e = elim (Bool-cases (10 == k)) [
  | inl same ↦ (ground (arith, same), cc (rw same at e))
  | inr other ↦ absurd (cc (rw other at e))
]

before-IsCoherent : IsCoherent amount_of before
unfolding AreDistinct has_key
before-IsCoherent = record {
  named =
      λ k r e. ap (λ (x : CoinRecord). x.coin.amount) (sym (only_old k r e).1) ∙ (only_old k r e).0;
  unspent = λ k r e q. ap (λ (x : CoinRecord). x.spent_block_index) (sym (only_old k r e).1);
  table = (refl, tt);
  cached = λ k r e. e;
  is_cache = record { distinct = (refl, tt); fits = omega arith };
  room = omega arith;
}

block_taken : new_block amount_of block (coin_of 4 ∷ []) (10 ∷ []) before ≡ ok after
unfolding new_block set_of has_coin same_coin same_bytes get_included_reward_coins get lookup
    has_key insert delete remove
block_taken = refl

rollback_to_block-new_block_example :
    (u : CoinStore) × (rollback_to_block amount_of (pos 4) after ≡ ok u)
    × ((k : ℕ) → lookup k u.coin_record_db ≡ lookup k before.coin_record_db)
    × ((k : ℕ) (r : CoinRecord)
        → lookup k u.coin_record_cache.cache ≡ some r
        → lookup k u.coin_record_db ≡ some r)
rollback_to_block-new_block_example =
    rollback_to_block-new_block amount_of before after (pos 4) block (coin_of 4 ∷ []) (10 ∷ [])
      before-IsCoherent
      (λ k r e. (
        subst (λ (x : CoinRecord). above x.confirmed_block_index (pos 4) ≡ false) (only_old k r e).1
            refl,
        subst (λ (x : CoinRecord). above x.spent_block_index (pos 4) ≡ false) (only_old k r e).1
            refl,
      ))
      refl block_taken
