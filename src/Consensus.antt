-- ===== src/Consensus.antt =====
-- sector/consensus: the rules by which a chain of blocks is valid.
pub mod Constants
pub mod SubEpochSummary
pub mod BlockRecord
pub mod Deficit
pub mod BlockRewards
pub mod PotIterations
pub mod BlockchainInterface
pub mod Difficulty
pub mod ForkPoint
pub mod Blockchain
mod Tests
mod ChainTests
mod BlockchainTests
