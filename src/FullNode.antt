-- ===== src/FullNode.antt =====
-- sector/full_node: the state that a node keeps beside the chain, and the checks of a spend.
pub mod CoinStore
pub mod SyncStore
pub mod Conditions
mod Tests
mod CoinTests
