-- ===== src/Consensus/Blockchain/Atomic.antt =====
-- sector/consensus/blockchain.py: what is left of the chain where `receive_block` raises.
use sector_blockchain.Prelude.Int.{ℤ}
use sector_blockchain.Consensus.BlockRecord.{BlockRecord}
use sector_blockchain.Consensus.Blockchain.{Blockchain, Parts, drop_summaries}

module _ {Body Coins Npc Spends : Type 0} (parts : Parts Body Coins Npc Spends) where
  -- A chain as it was, but that the summaries above some height may be gone.
  pub data IsTrimmed (s : Blockchain Body Coins) : Blockchain Body Coins → Type 0 where
    untouched : IsTrimmed s s
    trimmed :
        (fork_height : ℤ)
        → IsTrimmed s
            (record s { sub_epoch_summaries = drop_summaries fork_height s.sub_epoch_summaries })

  -- The same after a rollback of the database, which leaves of the coins what the exception left.
  pub data IsRolledBack (s : Blockchain Body Coins) : Blockchain Body Coins → Type 0 where
    not_begun : IsRolledBack s s
    rolled :
        (t : Blockchain Body Coins) (left : Coins)
        → IsTrimmed s t
        → IsRolledBack s (record t { coin_store = parts.rollback_transaction t.coin_store left })
