-- ===== src/Consensus/Blockchain/Heavier.antt =====
-- sector/consensus/blockchain.py: a valid heavier block becomes the peak.
use mathlib.Core.List.{reverse}
use sector_blockchain.Prelude.{ℕ, suc, ◌≡◌, false, ◌⊎◌, ◌==◌, Option, none, some, List}
use sector_blockchain.Prelude.Int.{ℤ}
use sector_blockchain.Python.{Result, ok, raise, Exc}
use sector_blockchain.Consensus.BlockRecord.{BlockRecord}
use sector_blockchain.Consensus.Blockchain.{
  FullBlock, BlockStore, Blockchain, gives, stops, blocks_to_add, Parts, new_peak, add_full_block,
}
use sector_blockchain.Consensus.Blockchain.Receive.{Answer, apply_blocks, fork_of, rolled_back}
use sector_blockchain.Consensus.Blockchain.Received.{RecordsBlocks}

-- What can stop the change to a heavier block: the store of coins refuses the rollback to the fork, or
-- the spends or the coins of a block on the branch from the fork are refused.
pub data Refused {Body Coins Npc Spends : Type 0} (parts : Parts Body Coins Npc Spends)
    (s : Blockchain Body Coins) (after : BlockStore Body) (b peak : BlockRecord) (given : Option ℕ)
    (npc_result : Option Npc) : Exc → Type 0 where
  at_rollback :
      (fork_height : ℤ) (x : Exc) (left : Coins)
      → fork_of s b peak given ≡ ok fork_height
      → (b.prev_hash == peak.header_hash) ≡ false
      → parts.rollback_to_block fork_height s.coin_store ≡ stops x left
      → Refused parts s after b peak given npc_result x
  at_block :
      (fork_height : ℤ) (coins : Coins) (branch : List (FullBlock Body × BlockRecord)) (x : Exc)
      (left : Coins)
      → rolled_back parts s b peak given ≡ gives (fork_height, coins)
      → blocks_to_add (suc (suc b.height)) after s.hash_at fork_height b.header_hash ≡ ok branch
      → apply_blocks parts b npc_result (reverse branch) coins ≡ stops x left
      → Refused parts s after b peak given npc_result x

module _ {Body Coins Npc Spends : Type 0} (parts : Parts Body Coins Npc Spends)
    (records_blocks : RecordsBlocks parts) where
  -- What a heavier block is answered: it is the new peak, or the change to it is refused.
  abbrev pub TakesOrRefuses :
      Blockchain Body Coins
      → FullBlock Body
      → BlockRecord
      → BlockRecord
      → Option ℕ
      → Option Npc
      → Blockchain Body Coins × Result Answer
      → Type 0
  TakesOrRefuses s block b peak given npc_result r =
      ((k : ℕ) × (r.1 ≡ ok (new_peak, (none, some k)))
        × (r.0.peak_height ≡ some block.height)
        × (r.0.block_store.peak ≡ some block.header_hash))
      ⊎ ((x : Exc) × (r.1 ≡ raise x)
          × Refused parts s (add_full_block block.header_hash block b s.block_store) b peak given
              npc_result x)
