-- ===== src/Consensus/Blockchain.antt =====
-- sector/consensus/blockchain.py: the blocks that a node knows, and the path to its heaviest peak.
-- The tables of sector/full_node/block_store.py are dicts by header hash; its cache of full blocks,
-- which a rollback clears of the block, is left out. A transaction of the database that fails
-- leaves the tables as they were; what the store of coins holds in memory is not rolled back, and
-- `rollback_transaction` says what is left of that store. The validation of a block, the coins and
-- what a block spends are parts that the chain calls, here the record `Parts`; `Body` is what is in
-- a full block besides its header. A call returns the new state with its answer, also where it
-- raises.
pub mod Receive
pub mod Path
pub mod Collect
pub mod Chain
pub mod ForkBound
pub mod Adopt
pub mod Peak
pub mod Reconsider
pub mod Received
pub mod Total
pub mod Heavier
pub mod Index
pub mod Atomic
use mathlib.Core.List.{reverse}
use sector_blockchain.Prelude.{
  ◌≡◌, refl, ℕ, zero, suc, ◌+◌, Bool, true, false, ltb, ◌==◌, not, ◌&&◌, Option, none, some, List,
  [], ◌∷◌, map, if◌then◌else◌, ◌⊎◌, inl, inr,
}
use sector_blockchain.Prelude.Int.{ℤ, pos, negsuc}
use sector_blockchain.Prelude.Dict.{Dict, lookup, has_key, insert, add}
use sector_blockchain.Python.{
  Result, ok, raise, Exc, key_error, assertion_error, out_of_fuel, assert, uint, ◌>>=◌, ◌>>◌,
}
use sector_blockchain.Consensus.SubEpochSummary.{SubEpochSummary}
use sector_blockchain.Consensus.BlockRecord.{BlockRecord, is_transaction_block}
use sector_blockchain.Consensus.BlockchainInterface.{BlockchainInterface}
use sector_blockchain.Consensus.ForkPoint.{find_fork_point_in_chain}

pub data ReceiveBlockResult : Type 0 where
  new_peak added_as_orphan invalid_block already_have_block disconnected_block : ReceiveBlockResult

-- Values of the enumeration `Err`.
abbrev pub invalid_prev_block_hash : ℕ
invalid_prev_block_hash = 51

abbrev pub invalid_height : ℕ
invalid_height = 34

pub record FullBlock (Body : Type 0) : Type 0 where
  pub header_hash : ℕ
  pub prev_header_hash : ℕ
  pub height : ℕ
  pub body : Body

pub record PreValidationResult (Npc : Type 0) : Type 0 where
  pub error : Option ℕ
  pub required_iters : Option ℕ
  pub npc_result : Option Npc

-- The tables of the block store, and which record is marked as the peak.
pub record BlockStore (Body : Type 0) : Type 0 where
  pub full_blocks : Dict (FullBlock Body)
  pub records : Dict BlockRecord
  pub peak : Option ℕ

pub record Blockchain (Body Coins : Type 0) : Type 0 where
  pub peak_height : Option ℕ
  pub block_records : Dict BlockRecord
  pub heights_in_cache : Dict (List ℕ)
  pub hash_at : Dict ℕ
  pub sub_epoch_summaries : Dict SubEpochSummary
  pub block_store : BlockStore Body
  pub coin_store : Coins

-- A call that changes the coins: what it gives, or an exception with the coins that it leaves.
pub data Attempt (Coins A : Type 0) : Type 0 where
  gives : A → Attempt Coins A
  stops : Exc → Coins → Attempt Coins A

infixl 5 ◌>>-◌
abbrev pub ◌>>-◌ :
    {Coins A B : Type 0} (call : Attempt Coins A) (next : A → Attempt Coins B) → Attempt Coins B
stops exc left >>- next = stops exc left
gives given >>- next = next given

-- A call that does not change the coins.
abbrev pub keeping : {Coins A : Type 0} → Coins → Result A → Attempt Coins A
keeping coins (raise exc) = stops exc coins
keeping coins (ok returned) = gives returned

pub >>--eq-gives :
    {Coins A B : Type 0} (call : Attempt Coins A) (next : A → Attempt Coins B) {final : B}
    → (call >>- next) ≡ gives final
    → (given : A) × (call ≡ gives given) × (next given ≡ gives final)
>>--eq-gives (stops exc left) next e = absurd (cc (e))
>>--eq-gives (gives given) next e = (given, refl, e)

pub Attempt-cases :
    {Coins A : Type 0} (call : Attempt Coins A)
    → ((given : A) × (call ≡ gives given))
      ⊎ ((exc : Exc) × (left : Coins) × (call ≡ stops exc left))
Attempt-cases (gives given) = inl (given, refl)
Attempt-cases (stops exc left) = inr (exc, left, refl)

pub keeping-gives :
    {Coins A : Type 0} (coins : Coins) (r : Result A) (a : A) → keeping coins r ≡ gives a → r ≡ ok a
keeping-gives coins (raise exc) a e = absurd (cc (e))
keeping-gives coins (ok returned) a e = cc (e)

-- What the chain calls: the header's validation (its iterations, an error, the conditions of its
-- spends), the body's, the record of a block, the spends of a block, and the store of coins. The last
-- is the store of coins after a rollback of the database, from the store at the start of the
-- transaction and the store as the exception left it.
pub record Parts (Body Coins Npc Spends : Type 0) : Type 0 where
  pub validate_header :
      Blockchain Body Coins → FullBlock Body → Result (Option ℕ × Option ℕ × Option Npc)
  pub validate_block_body :
      Blockchain Body Coins → FullBlock Body → Option Npc → Option ℕ → Result (Option ℕ)
  pub block_to_block_record : Blockchain Body Coins → ℕ → FullBlock Body → Result BlockRecord
  pub tx_removals_and_additions : Option Npc → Spends
  pub get_tx_removals_and_additions : FullBlock Body → Option Npc → Result Spends
  pub new_block : FullBlock Body → Spends → Coins → Attempt Coins Coins
  pub rollback_to_block : ℤ → Coins → Attempt Coins Coins
  pub rollback_transaction : Coins → Coins → Coins

-- `d[k]`
abbrev pub item {ℓ} : {V : Type ℓ} → ℕ → Dict V → Result V
item k d = elim (lookup k d) [ none ↦ raise key_error | some v ↦ ok v ]

-- `x = ...; assert x is not None`
abbrev pub present {ℓ} : {V : Type ℓ} → Option V → Result V
present o = elim o [ none ↦ raise assertion_error | some v ↦ ok v ]

-- `a > b`, where `b` may be negative
abbrev pub above : ℕ → ℤ → Bool
above a (pos b) = ltb b a
above a (negsuc b) = true

-- `del` of the heights above the fork
unfoldable pub drop_summaries : ℤ → Dict SubEpochSummary → Dict SubEpochSummary
drop_summaries fork_height [] = []
drop_summaries fork_height ((h, ses) ∷ d) =
    let rest = drop_summaries fork_height d in if above h fork_height then rest else (h, ses) ∷ rest

-- The loop over the fetched records.
unfoldable pub insert_hashes : List BlockRecord → Dict ℕ → Dict ℕ
insert_hashes [] d = d
insert_hashes (b ∷ records) d = insert_hashes records (insert b.height b.header_hash d)

unfoldable pub insert_summaries : List BlockRecord → Dict SubEpochSummary → Dict SubEpochSummary
insert_summaries [] d = d
insert_summaries (b ∷ records) d =
    insert_summaries records
      (elim b.sub_epoch_summary_included [ none ↦ d | some ses ↦ insert b.height ses d ])

-- `fork_height < 0 or curr != self.height_to_hash(uint32(fork_height))`, as whether it is false
unfoldable pub at_fork : Dict ℕ → ℤ → ℕ → Result Bool
at_fork hashes (negsuc n) curr = ok false
at_fork hashes (pos h) curr = do height ← uint 32 h; x ← item height hashes; ok (curr == x)

-- `max(fork_height, 0)`
abbrev pub or_zero : ℤ → ℕ
or_zero (pos h) = h
or_zero (negsuc n) = 0

-- `INSERT OR REPLACE` writes the row of the hash with `is_peak` False.
abbrev pub unmark : ℕ → Option ℕ → Option ℕ
unmark header_hash none = none
unmark header_hash (some x) = if header_hash == x then none else some x

module _ {Body : Type 0} where
  unfoldable pub add_full_block :
      ℕ → FullBlock Body → BlockRecord → BlockStore Body → BlockStore Body
  add_full_block header_hash block b store = record store {
    full_blocks = insert header_hash block store.full_blocks;
    records = insert header_hash b store.records;
    peak = unmark header_hash store.peak;
  }

  unfoldable pub set_peak : ℕ → BlockStore Body → BlockStore Body
  set_peak header_hash store = record store {
    peak = if has_key header_hash store.records then some header_hash else none;
  }

  -- `while fork_height < 0 or curr != ...`: the blocks from the new peak back to the fork.
  unfoldable pub blocks_to_add :
      ℕ → BlockStore Body → Dict ℕ → ℤ → ℕ → Result (List (FullBlock Body × BlockRecord))
  unfolding at_fork
  blocks_to_add zero store hashes fork_height curr = raise out_of_fuel
  blocks_to_add (suc fuel) store hashes fork_height curr =
      at_fork hashes fork_height curr >>= λ done.
      if done
      then ok []
      else (present (lookup curr store.full_blocks) >>= λ full.
          present (lookup curr store.records) >>= λ b.
          let rest = blocks_to_add fuel store hashes fork_height b.prev_hash in
          if full.height == 0
          then ok ((full, b) ∷ [])
          else (rest >>= λ more. ok ((full, b) ∷ more)))

module _ {Body Coins : Type 0} where
  unfoldable pub contains_block : Blockchain Body Coins → ℕ → Bool
  contains_block s header_hash = has_key header_hash s.block_records

  unfoldable pub block_record : Blockchain Body Coins → ℕ → Result BlockRecord
  block_record s header_hash = item header_hash s.block_records

  unfoldable pub height_to_block_record : Blockchain Body Coins → ℕ → Result BlockRecord
  unfolding block_record
  height_to_block_record s height = do x ← item height s.hash_at; block_record s x

  unfoldable pub get_peak : Blockchain Body Coins → Result (Option BlockRecord)
  unfolding height_to_block_record
  get_peak s = elim s.peak_height [
    | none ↦ ok none
    | some h ↦ do b ← height_to_block_record s h; ok (some b)
  ]

  -- The chain as the fork search reads it; where a height is missing the code's own read raises.
  unfoldable pub interface : Blockchain Body Coins → BlockchainInterface
  unfolding block_record height_to_block_record contains_block
  interface s = record {
    block_record = block_record s;
    height_to_block_record = height_to_block_record s;
    height_to_hash = λ h. lookup h s.hash_at;
    contains_block = contains_block s;
    contains_height = λ h. has_key h s.hash_at;
  }

  unfoldable pub add_block_record : BlockRecord → Blockchain Body Coins → Blockchain Body Coins
  add_block_record b s = record s {
    block_records = insert b.header_hash b s.block_records;
    heights_in_cache =
        insert b.height
          (add b.header_hash (elim (lookup b.height s.heights_in_cache) [ none ↦ [] | some x ↦ x ]))
          s.heights_in_cache;
  }
