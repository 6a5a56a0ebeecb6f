-- ===== src/Consensus/BlockchainInterface.antt =====
-- sector/consensus/blockchain_interface.py: the reads of a chain of blocks that the difficulty
-- adjustment makes. A read of a missing block raises; a missing height has no hash.
use sector_blockchain.Prelude.{ℕ, Option, Bool}
use sector_blockchain.Python.{Result}
use sector_blockchain.Consensus.BlockRecord.{BlockRecord}

pub record BlockchainInterface : Type 0 where
  pub block_record : ℕ → Result BlockRecord
  pub height_to_block_record : ℕ → Result BlockRecord
  pub height_to_hash : ℕ → Option ℕ
  pub contains_block : ℕ → Bool
  pub contains_height : ℕ → Bool
