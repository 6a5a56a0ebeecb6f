-- ===== src/Consensus/BlockRewards.antt =====
-- sector/consensus/block_rewards.py: the coins that a block creates.
-- The source multiplies floats; each of its products is a number with few binary digits, so it is
-- exact, and `int` of it is the quotient written here.
pub mod Schedule
use sector_blockchain.Prelude.{ℕ, ◌*◌, ◌/◌, ltb, ◌==◌, if◌then◌else◌}
use sector_blockchain.Python.{Result, ok, raise, value_error, uint}

-- `_octet_per_sector`
abbrev pub octet_per_sector : ℕ
octet_per_sector = 1_000_000_000_000

-- `_blocks_per_year`
abbrev pub blocks_per_year : ℕ
blocks_per_year = 1_681_920

unfoldable pub calculate_pool_reward : ℕ → Result ℕ
calculate_pool_reward height =
    if height == 0
    then uint 64 (7 * 100_000 * octet_per_sector / 8)
    else if ltb height (3 * blocks_per_year)
    then uint 64 (7 * 2 * octet_per_sector / 8)
    else if ltb height (6 * blocks_per_year)
    then uint 64 (7 * 1 * octet_per_sector / 8)
    else if ltb height (9 * blocks_per_year)
    then uint 64 (7 * octet_per_sector / (8 * 2))
    else if ltb height (12 * blocks_per_year)
    then uint 64 (7 * octet_per_sector / (8 * 4))
    else uint 64 (7 * octet_per_sector / (8 * 8))

unfoldable pub calculate_base_farmer_reward : ℕ → Result ℕ
calculate_base_farmer_reward height =
    if height == 0
    then uint 64 (100_000 * octet_per_sector / 8)
    else if ltb height (3 * blocks_per_year)
    then uint 64 (2 * octet_per_sector / 8)
    else if ltb height (6 * blocks_per_year)
    then uint 64 (1 * octet_per_sector / 8)
    else if ltb height (9 * blocks_per_year)
    then uint 64 (octet_per_sector / (8 * 2))
    else if ltb height (12 * blocks_per_year)
    then uint 64 (octet_per_sector / (8 * 4))
    else uint 64 (octet_per_sector / (8 * 8))
