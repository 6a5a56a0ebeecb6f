-- ===== src/Util/Ints.antt =====
-- sector/util/struct_stream.py and sector/util/ints.py: integers of a fixed size and their bytes.
-- A file that is read is the list of the bytes that are left.
pub mod Format
pub mod Bytes
pub mod StructStream
pub mod UInt128
pub mod Int512
pub mod RoundTrip
unfoldable pub use Format.*
