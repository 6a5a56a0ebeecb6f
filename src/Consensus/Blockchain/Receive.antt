-- ===== src/Consensus/Blockchain/Receive.antt =====
-- sector/consensus/blockchain.py: `receive_block` and `_reconsider_peak`.
use mathlib.Core.List.{reverse}
use sector_blockchain.Prelude.{
  ℕ, suc, ◌+◌, Bool, true, false, ltb, ◌==◌, not, ◌&&◌, Option, none, some, List, [], ◌∷◌, map,
  if◌then◌else◌, ◌⊎◌, inl, inr,
}
use sector_blockchain.Prelude.Int.{ℤ, pos}
use sector_blockchain.Prelude.Dict.{lookup}
use sector_blockchain.Python.{Result, ok, raise, assertion_error, assert, uint, ◌>>=◌, ◌>>◌}
use sector_blockchain.Consensus.BlockRecord.{BlockRecord, is_transaction_block}
use sector_blockchain.Consensus.ForkPoint.{find_fork_point_in_chain}
use sector_blockchain.Consensus.Blockchain.{
  ReceiveBlockResult, new_peak, added_as_orphan, invalid_block, already_have_block,
  disconnected_block, invalid_prev_block_hash, invalid_height, FullBlock, PreValidationResult,
  BlockStore, Blockchain, Attempt, gives, stops, ◌>>-◌, keeping, Parts, present, drop_summaries,
  insert_hashes, insert_summaries, or_zero, contains_block, block_record, get_peak, interface,
  add_full_block, set_peak, add_block_record, blocks_to_add,
}

-- What `_reconsider_peak` returns, with the stores it leaves.
pub record Outcome (Body Coins : Type 0) : Type 0 where
  pub fork_height : Option ℕ
  pub new_height : Option ℕ
  pub fetched : List BlockRecord
  pub store : BlockStore Body
  pub coins : Coins

-- The answer of `receive_block`: the result, the error and the fork height.
abbrev pub Answer : Type 0
Answer = ReceiveBlockResult × (Option ℕ × Option ℕ)

module _ {Body Coins : Type 0} where
  -- The height of the fork with the peak.
  unfoldable pub fork_of : Blockchain Body Coins → BlockRecord → BlockRecord → Option ℕ → Result ℤ
  fork_of s b peak fork_point_with_peak =
      if b.prev_hash == peak.header_hash then ok (pos peak.height) else (elim fork_point_with_peak [
        | none ↦ find_fork_point_in_chain (interface s) b peak
        | some h ↦ ok (pos h)
      ])

  -- The stores as they are, and no new peak.
  abbrev pub no_change : Blockchain Body Coins → BlockStore Body → Outcome Body Coins
  no_change s store = record {
    fork_height = none;
    new_height = none;
    fetched = [];
    store = store;
    coins = s.coin_store;
  }

  -- The update of the memory, once the database has the new block.
  unfoldable pub commit :
      BlockRecord → Outcome Body Coins → Blockchain Body Coins → Blockchain Body Coins
  commit b o s =
      let added = add_block_record b s in
      record added {
        hash_at = insert_hashes o.fetched added.hash_at;
        sub_epoch_summaries = insert_summaries o.fetched added.sub_epoch_summaries;
        peak_height = elim o.new_height [ none ↦ added.peak_height | some h ↦ some h ];
        block_store = o.store;
        coin_store = o.coins;
      }

  -- A block after the first has its predecessor in memory, at the height below.
  unfoldable pub connection : Blockchain Body Coins → FullBlock Body → Result (Option Answer)
  connection s block =
      if block.height == 0
      then ok none
      else if not (contains_block s block.prev_header_hash)
      then ok (some (disconnected_block, (some invalid_prev_block_hash, none)))
      else (do
        prev ← block_record s block.prev_header_hash
        if prev.height + 1 == block.height
            then ok none
            else ok (some (invalid_block, (some invalid_height, none))))

module _ {Body Coins Npc Spends : Type 0} (parts : Parts Body Coins Npc Spends) where
  -- `for fetched_full_block, fetched_block_record in reversed(blocks_to_add)`
  unfoldable pub apply_blocks :
      BlockRecord → Option Npc → List (FullBlock Body × BlockRecord) → Coins → Attempt Coins Coins
  apply_blocks new npc_result [] coins = gives coins
  apply_blocks new npc_result ((full, b) ∷ blocks) coins =
      let rest = apply_blocks new npc_result blocks in
      if is_transaction_block b
      then (let npc = if b.header_hash == new.header_hash then npc_result else none in
          keeping coins (parts.get_tx_removals_and_additions full npc) >>- λ spends.
          parts.new_block full spends coins >>- λ next. rest next)
      else rest coins

  -- The fork, and the coins rolled back to it where the block does not follow the peak.
  unfoldable pub rolled_back :
      Blockchain Body Coins → BlockRecord → BlockRecord → Option ℕ → Attempt Coins (ℤ × Coins)
  unfolding fork_of
  rolled_back s b peak fork_point_with_peak =
      keeping s.coin_store (fork_of s b peak fork_point_with_peak) >>- λ fork_height.
      (if b.prev_hash == peak.header_hash
        then gives s.coin_store
        else parts.rollback_to_block fork_height s.coin_store)
      >>- λ coins. gives (fork_height, coins)

  -- The change to the stores for a heavier block; `store` has the block already.
  unfoldable pub adopt :
      Blockchain Body Coins
      → BlockStore Body
      → BlockRecord
      → ℤ
      → Coins
      → Option Npc
      → Attempt Coins (Outcome Body Coins)
  unfolding apply_blocks
  adopt s store b fork_height coins npc_result =
      keeping coins (blocks_to_add (suc (suc b.height)) store s.hash_at fork_height b.header_hash)
      >>- λ newest_first. apply_blocks b npc_result (reverse newest_first) coins >>- λ next.
          keeping next (uint 32 (or_zero fork_height)) >>- λ height. gives (record {
            fork_height = some height;
            new_height = some b.height;
            fetched = map (λ x. x.1) (reverse newest_first);
            store = set_peak b.header_hash store;
            coins = next;
          })

  -- The first block of all becomes the peak, if there is none.
  unfoldable pub adopt_genesis :
      Blockchain Body Coins
      → BlockStore Body
      → BlockRecord
      → Option Npc
      → Attempt Coins (Outcome Body Coins)
  adopt_genesis s store b npc_result =
      keeping s.coin_store (present (lookup b.header_hash store.full_blocks)) >>- λ block.
      parts.new_block block (parts.tx_removals_and_additions npc_result) s.coin_store >>- λ coins.
      gives (record {
        fork_height = some 0;
        new_height = some 0;
        fetched = b ∷ [];
        store = set_peak b.header_hash store;
        coins = coins;
      })

  unfoldable pub reconsider_peak :
      Blockchain Body Coins
      → BlockStore Body
      → BlockRecord
      → Bool
      → Option ℕ
      → Option Npc
      → Blockchain Body Coins × Attempt Coins (Outcome Body Coins)
  unfolding rolled_back adopt adopt_genesis
  reconsider_peak s store b genesis fork_point_with_peak npc_result = elim (get_peak s) [
    | raise e ↦ (s, stops e s.coin_store)
    | ok none ↦ (
      s,
      if genesis then adopt_genesis s store b npc_result else stops assertion_error s.coin_store,
    )
    | ok (some peak) ↦
        if not genesis && ltb peak.weight b.weight
        then (elim (rolled_back s b peak fork_point_with_peak) [
          | stops e left ↦ (s, stops e left)
          | gives (fork_height, coins) ↦ (
            record s { sub_epoch_summaries = drop_summaries fork_height s.sub_epoch_summaries },
            adopt s store b fork_height coins npc_result,
          )
        ])
        else (s, gives (no_change s store))
  ]

  -- The commit of the transaction, or its rollback where an exception passes: the memory is not
  -- updated then, but the summaries above a fork are gone from it, and the coins are what is left.
  unfoldable pub settle :
      BlockRecord
      → Blockchain Body Coins × Attempt Coins (Outcome Body Coins)
      → Blockchain Body Coins × Result Answer
  unfolding commit
  settle b (s, stops e left) =
      (record s { coin_store = parts.rollback_transaction s.coin_store left }, raise e)
  settle b (s, gives o) = (
    commit b o s,
    elim o.fork_height [
      | none ↦ ok (added_as_orphan, (none, none))
      | some h ↦ ok (new_peak, (none, some h))
    ],
  )

  -- From the validated block to the answer.
  unfoldable pub add_validated :
      Blockchain Body Coins
      → FullBlock Body
      → BlockRecord
      → Option ℕ
      → Option Npc
      → Blockchain Body Coins × Result Answer
  unfolding reconsider_peak settle
  add_validated s block b fork_point_with_peak npc_result =
      let store = add_full_block block.header_hash block b s.block_store in
      settle b (reconsider_peak s store b (block.height == 0) fork_point_with_peak npc_result)

  -- The iterations, an error and the conditions, from the validation or from an earlier one.
  unfoldable pub header_checked :
      Blockchain Body Coins
      → FullBlock Body
      → Option (PreValidationResult Npc)
      → Result (Option ℕ × Option ℕ × Option Npc)
  header_checked s block none = parts.validate_header s block
  header_checked s block (some p) = do
    assert (elim p.error [ none ↦ true | some e ↦ false ])
    ok (p.required_iters, none, p.npc_result)

  -- The checks of the body, and the record of the block.
  unfoldable pub validated :
      Blockchain Body Coins
      → FullBlock Body
      → Option (PreValidationResult Npc)
      → Option ℕ
      → Result (Answer ⊎ (BlockRecord × Option Npc))
  unfolding header_checked
  validated s block pre_validation_result fork_point_with_peak = do
    (required_iters, error, npc_result) ← header_checked s block pre_validation_result
    elim error [
      | some e ↦ ok (inl (invalid_block, (some e, none)))
      | none ↦ do
        iters ← present required_iters
        error_code ← parts.validate_block_body s block npc_result fork_point_with_peak
        elim error_code [
          | some e ↦ ok (inl (invalid_block, (some e, none)))
          | none ↦ do b ← parts.block_to_block_record s iters block; ok (inr (b, npc_result))
        ]
    ]

  unfoldable pub receive_block :
      Blockchain Body Coins
      → FullBlock Body
      → Option (PreValidationResult Npc)
      → Option ℕ
      → Blockchain Body Coins × Result Answer
  unfolding connection validated add_validated
  receive_block s block pre_validation_result fork_point_with_peak =
      if contains_block s block.header_hash
      then (s, ok (already_have_block, (none, none)))
      else (elim (connection s block) [
        | raise e ↦ (s, raise e)
        | ok (some answer) ↦ (s, ok answer)
        | ok none ↦ elim (validated s block pre_validation_result fork_point_with_peak) [
          | raise e ↦ (s, raise e)
          | ok (inl answer) ↦ (s, ok answer)
          | ok (inr (b, npc_result)) ↦ add_validated s block b fork_point_with_peak npc_result
        ]
      ])
