-- ===== src/Consensus/BlockchainTests.antt =====
-- Runs of `receive_block` on a chain of one block, with the store of coins.
use mathlib.Core.Path.{subst}
use sector_blockchain.Prelude.{
  ℕ, false, ◌≡◌, refl, sym, ◌∙◌, ap, arith, inl, inr, Bool-cases, ◌==◌, none, some, List, [], ◌∷◌,
  map,
}
use sector_blockchain.Prelude.Dict.{lookup, member, has_key, insert}
use sector_blockchain.Python.{Result, ok, raise}
use sector_blockchain.Consensus.BlockRecord.{BlockRecord, is_transaction_block}
use sector_blockchain.Consensus.ForkPoint.{find_fork_point_in_chain, same_record}
use sector_blockchain.Consensus.Blockchain.{
  interface, FullBlock, Blockchain, Attempt, gives, stops, Parts, contains_block, block_record,
  get_peak, add_full_block, set_peak, add_block_record, blocks_to_add, insert_hashes,
}
use sector_blockchain.Consensus.Blockchain.Receive.{receive_block}
use sector_blockchain.Consensus.Blockchain.Path.{IsPath-first}
use sector_blockchain.Consensus.Blockchain.Chain.{IsPeak, IsChain}
use sector_blockchain.Consensus.Blockchain.Received.{RecordsBlocks, receive_block-IsChain}
use sector_blockchain.Consensus.Blockchain.Index.{
  IsIndexed, listed, stands_at, receive_block-IsIndexed,
}
use sector_blockchain.Util.LruCache.{get}
use sector_blockchain.FullNode.Conditions.{Coin, same_bytes}
use sector_blockchain.FullNode.CoinStore.{
  CoinStore, CoinBlock, set_of, has_coin, same_coin, get_included_reward_coins, new_block,
  rollback_to_block,
}

-- Coins that are named by their amounts.
abbrev coin_of : ℕ → Coin
coin_of n = record { parent_coin_info = []; puzzle_hash = []; amount = n }

abbrev amount_of : Coin → ℕ
amount_of c = c.amount

-- A body is the weight of the block and what the store of coins reads of it.
abbrev Body : Type 0
Body = ℕ × CoinBlock

-- The additions and the removals of a block.
abbrev Spends : Type 0
Spends = List Coin × List ℕ

abbrev record_of : FullBlock Body → BlockRecord
record_of block = record {
  header_hash = block.header_hash;
  prev_hash = block.prev_header_hash;
  height = block.height;
  weight = block.body.0;
  total_iters = 1;
  signage_point_index = 1;
  sub_slot_iters = 320;
  required_iters = 2;
  deficit = 0;
  overflow = false;
  timestamp = some 7;
  sub_epoch_summary_included = none;
}

-- A call of the store of coins. What an exception leaves in its cache is not followed here.
abbrev attempt : CoinStore → Result CoinStore → Attempt CoinStore CoinStore
attempt before (ok after) = gives after
attempt before (raise exc) = stops exc before

-- Every block is valid.
abbrev parts : Parts Body CoinStore Spends Spends
parts = record {
  validate_header = λ s block. ok (some 5, none, none);
  validate_block_body = λ s block npc_result fork. ok none;
  block_to_block_record = λ s iters block. ok (record_of block);
  tx_removals_and_additions = λ npc_result. elim npc_result [ none ↦ ([], []) | some x ↦ x ];
  get_tx_removals_and_additions =
      λ block npc_result. ok (elim npc_result [ none ↦ ([], []) | some x ↦ x ]);
  new_block =
      λ block spends s. attempt s (new_block amount_of (block.body.1) (spends.0) (spends.1) s);
  rollback_to_block = λ fork_height s. attempt s (rollback_to_block amount_of fork_height s);
  rollback_transaction = λ before left. record left { coin_record_db = before.coin_record_db };
}

parts-RecordsBlocks : RecordsBlocks parts
parts-RecordsBlocks s iters block b e =
    let same : record_of block ≡ b = cc (e) in
    subst
      (λ (z : BlockRecord).
        (z.header_hash ≡ block.header_hash)
        × (z.prev_hash ≡ block.prev_header_hash)
        × (block.height ≡ z.height))
      same (refl, refl, refl)

-- A block with two reward coins, but the first has none.
abbrev block_of : ℕ → ℕ → ℕ → ℕ → List Coin → FullBlock Body
block_of header_hash prev_header_hash height weight coins = record {
  header_hash = header_hash;
  prev_header_hash = prev_header_hash;
  height = height;
  body = (
    weight,
    record {
      height = height;
      foliage_transaction_block =
          some (record { timestamp = 7; reward_claims_incorporated = coins });
    },
  );
}

abbrev genesis : FullBlock Body
genesis = block_of 10 3 0 100 []

abbrev successor : FullBlock Body
successor = block_of 11 10 1 150 (coin_of 1 ∷ coin_of 2 ∷ [])

abbrev one_block : Blockchain Body CoinStore
one_block = record {
  peak_height = some 0;
  block_records = (10, record_of genesis) ∷ [];
  heights_in_cache = (0, 10 ∷ []) ∷ [];
  hash_at = (0, 10) ∷ [];
  sub_epoch_summaries = [];
  block_store = record {
    full_blocks = (10, genesis) ∷ [];
    records = (10, record_of genesis) ∷ [];
    peak = some 10;
  };
  coin_store = record {
    coin_record_db = [];
    coin_record_cache = record { cache = []; capacity = 4 };
  };
}

only :
    (x : ℕ) (b : BlockRecord)
    → lookup x one_block.block_store.records ≡ some b
    → (10 ≡ x) × (record_of genesis ≡ b)
unfolding lookup
only x b e = elim (Bool-cases (10 == x)) [
  | inl same ↦ (ground (arith, same), cc (rw same at e))
  | inr other ↦ absurd (cc (rw other at e))
]

one_block-IsPeak : IsPeak one_block.block_store one_block.hash_at 0 (record_of genesis)
unfolding lookup insert
one_block-IsPeak = record {
  path = IsPath-first one_block.block_store.records [] (record_of genesis) refl refl;
  in_store = refl;
  level = refl;
  marked = refl;
  weighs_most = λ x b e positive.
      let same = ap (λ (z : BlockRecord). z.height) (only x b e).1 in
      absurd (omega (arith, same, positive));
}

one_block-IsChain : IsChain one_block
unfolding lookup
one_block-IsChain = record {
  stored = record {
    named = λ x b e. ap (λ (z : BlockRecord). z.header_hash) (sym (only x b e).1) ∙ (only x b e).0;
    full = λ x b e. (
      genesis,
      subst (λ y. lookup y one_block.block_store.full_blocks ≡ some genesis) (only x b e).0 refl,
      ap (λ (z : BlockRecord). z.height) (only x b e).1,
    );
    before = λ x j b e up.
        let same = ap (λ (z : BlockRecord). z.height) (only x b e).1 in
        absurd (omega (arith, same, up));
  };
  cached = λ x. refl;
  unborn = λ e. absurd (cc (e));
  top = λ h e.
      let zero_h : 0 ≡ h = cc (e) in
      (
        record_of genesis,
        subst (λ n. IsPeak one_block.block_store one_block.hash_at n (record_of genesis)) zero_h
            one_block-IsPeak,
      );
}

receive_block-IsChain_example : IsChain (receive_block parts one_block successor none none).0
receive_block-IsChain_example =
    receive_block-IsChain parts parts-RecordsBlocks one_block one_block-IsChain successor none none
      (λ k n e q. absurd (cc (e)))

-- The blocks one after the other, each with no fork point.
abbrev receive_all : List (FullBlock Body) → Blockchain Body CoinStore → Blockchain Body CoinStore
receive_all [] s = s
receive_all (block ∷ blocks) s = receive_all blocks (receive_block parts s block none none).0

-- A second block after the first, and a heavier one beside the first.
abbrev third : FullBlock Body
third = block_of 12 11 2 160 (coin_of 3 ∷ coin_of 4 ∷ [])

abbrev rival : FullBlock Body
rival = block_of 21 10 1 200 (coin_of 5 ∷ coin_of 6 ∷ [])

abbrev reorganised : Blockchain Body CoinStore
reorganised = receive_all (successor ∷ third ∷ rival ∷ []) one_block

-- After the reorganisation to the shorter chain the peak is at height 1, its coins are the only
-- ones, and height 2 still has its hash.
stale_height :
    (reorganised.peak_height ≡ some 1)
    × (lookup 1 reorganised.hash_at ≡ some 21)
    × (lookup 2 reorganised.hash_at ≡ some 12)
    × (map (λ x. x.0) reorganised.coin_store.coin_record_db ≡ 5 ∷ 6 ∷ [])
unfolding rollback_to_block new_block set_of has_coin same_coin same_bytes get_included_reward_coins
    get receive_block contains_block has_key block_record lookup get_peak blocks_to_add
    add_full_block insert is_transaction_block add_block_record insert_hashes set_peak
    find_fork_point_in_chain interface same_record
stale_height = (refl, refl, refl, refl)

one_block-IsIndexed : IsIndexed one_block
unfolding IsIndexed listed stands_at lookup member
one_block-IsIndexed x h = elim (Bool-cases (0 == h)) [
  | inl lowest ↦ elim (Bool-cases (10 == x)) [
    | inl same ↦ rw (listed, lookup, lowest, same) (ground (arith, lowest, same))
    | inr other ↦ rw (listed, lookup, lowest, other) (ground (arith, other))
  ]
  | inr above ↦ elim (Bool-cases (10 == x)) [
    | inl same ↦ rw (listed, lookup, above, same) (sym above)
    | inr other ↦ rw (listed, lookup, above, other) refl
  ]
]

receive_block-IsIndexed_example : IsIndexed (receive_block parts one_block rival none none).0
receive_block-IsIndexed_example =
    receive_block-IsIndexed parts parts-RecordsBlocks one_block one_block-IsIndexed rival none none

-- A heavier block with a single reward coin, which the store of coins does not take.
abbrev poor : FullBlock Body
poor = block_of 31 10 1 300 (coin_of 7 ∷ [])
