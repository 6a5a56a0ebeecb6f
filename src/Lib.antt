-- ===== src/Lib.antt =====
-- A model of parts of the sector blockchain's node, with theorems that make them correct.
--
-- The program. A chain of blocks grows by proofs of space and time. The consensus rules
-- (sector/consensus) compute from a block's predecessors what the block must claim: its deficit, its
-- difficulty, the iterations of its sub-slot, its reward. A full node (sector/full_node) tracks what
-- its peers have and checks the conditions of spends; the server (sector/server) limits the messages
-- of a connection; all of them use the integers, the bit arithmetic and the set of hashes of
-- sector/util. The difficulty adjustment reads blocks through `BlockchainInterface`, here a record of
-- functions that the theorems take as a parameter, with the laws they need as named hypotheses.
--
-- The files.
-- Prelude: names of the libraries, Boolean tests, lists, integers, and Python's dicts and sets.
-- Python: exceptions as the values of a result type, the checked integer constructors.
-- Consensus.Constants, .SubEpochSummary, .BlockRecord, .BlockchainInterface: the data of
--   sector/consensus/constants.py, default_constants.py, block_record.py, blockchain_interface.py.
-- Consensus.Deficit, .BlockRewards, .PotIterations: sector/consensus/deficit.py, block_rewards.py,
--   pot_iterations.py and pos_quality.py, function by function.
-- Consensus.Difficulty: sector/consensus/difficulty_adjustment.py. Walk has the searches for blocks,
--   SubEpoch the end of sub-epochs, Adjust the bounded and rounded new values.
-- Consensus.ForkPoint: sector/consensus/find_fork_point.py.
-- Consensus.Blockchain: receive_block and _reconsider_peak of sector/consensus/blockchain.py, with the
--   tables of sector/full_node/block_store.py. Receive has the handler, Path and Chain what it keeps,
--   Collect and Total its loops, Adopt, Peak, Reconsider, Received and Heavier what it answers,
--   Index and Atomic what it does to the heights of the cache and where it raises.
-- Util.SignificantBits, .Ints, .MerkleSet, .Streamable, .LruCache: sector/util/significant_bits.py,
--   ints.py and struct_stream.py, merkle_set.py, streamable.py (annotations are the data type `Ty`),
--   lru_cache.py.
-- FullNode.SyncStore, .Conditions, .CoinStore: sector/full_node/sync_store.py,
--   mempool_check_conditions.py, coin_store.py (the table is a dict, its SQL statements functions).
-- Server.RateLimits: sector/server/rate_limits.py, with the message types of sector/protocols.
-- The modules whose names end in Tests run the theorems on concrete values.
--
-- How the code is read. A Python integer that cannot be negative is a native number, another one an
-- integer; `uint w` keeps the range check of a constructor, which raises and does not wrap. A method
-- that changes its object takes the old state and returns the new one. A hash of 32 bytes is the
-- number that its bytes spell. An exception is a `raise` of the result type. The loops over previous
-- blocks run on fuel: each step goes to a lower block, so a fuel above the height of the first is
-- enough. `make_middle` has 257 steps, since a hash has 256 bits and two hashes differ at one.
--
-- The loop that collects the blocks of a new peak has fuel of the block's height and two, the fork
-- search of both heights and one. The theorems on `receive_block` are about a chain whose cache has
-- not been cleaned, so that it has every block of the store.
--
-- A call that changes the coins is an `Attempt`: where it raises, it says what it leaves of the store of
-- coins, since a rollback of the database does not undo what the store holds in memory.
--
-- Parameters. What `receive_block` calls (the validation of a block, its record, its spends, the store
-- of coins) is the record `Parts`; the name of a coin in the store of coins is a function. The others
-- are the digests, the integer casts of the package clvm, the clock, the float product of a limit and
-- the percentage of the rate limiter, and the strings with their UTF-8 codec.
--
-- Not modelled: signatures, proofs of space and of time, the virtual machine of the puzzles, the
-- databases below their tables, the network and the wallet; of the modelled files the parsing of
-- conditions, the proofs of the set of hashes, the cleaning of the cache of blocks, and the queries of
-- the stores that no modelled code makes.
pub mod Prelude
pub mod Python
pub mod Consensus
pub mod FullNode
pub mod Util
pub mod Server
