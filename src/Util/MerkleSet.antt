-- ===== src/Util/MerkleSet.antt =====
-- sector/util/merkle_set.py: a set of 32-byte hashes as a binary tree of their bits.
pub mod Node
pub mod Operations
pub mod Hash
pub mod Bits
pub mod Shape
pub mod Added
pub mod Included
pub mod Removed
pub mod Canonical
pub mod History
unfoldable pub use Node.*
unfoldable pub use Operations.*
