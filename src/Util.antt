-- ===== src/Util.antt =====
-- sector/util: arithmetic and data structures that the other parts share.
pub mod SignificantBits
pub mod Ints
pub mod MerkleSet
pub mod Streamable
pub mod LruCache
mod Tests
