-- ===== src/Consensus/BlockRewards/Schedule.antt =====
-- The rewards follow one schedule of halvings.
use sector_blockchain.Prelude.{ℕ, ◌+◌, ◌*◌, ◌/◌, ◌^◌, ◌≡◌, arith, min, ltb, ◌==◌, if◌then◌else◌}
use sector_blockchain.Python.{ok}
use sector_blockchain.Consensus.BlockRewards.{
  octet_per_sector, blocks_per_year, calculate_pool_reward, calculate_base_farmer_reward,
}

-- The whole reward of a block: a premine at genesis, then two coins, halved every three years,
-- four times at most.
pub block_reward : ℕ → ℕ
block_reward height =
    if height == 0
    then 100_000 * octet_per_sector
    else 2 * octet_per_sector / 2 ^ min 4 (height / (3 * blocks_per_year))

era : (h : ℕ) → ℕ
era h =
    if ltb h (3 * blocks_per_year)
    then 0
    else if ltb h (6 * blocks_per_year)
    then 1
    else if ltb h (9 * blocks_per_year)
    then 2
    else if ltb h (12 * blocks_per_year)
    then 3
    else 4

era_lem : (h : ℕ) → min 4 (h / (3 * blocks_per_year)) ≡ era h
unfolding era
era_lem h = ground arith

-- At every height both calls return, the pool's part is seven times the farmer's, and together
-- they are the whole reward of the halving schedule.
pub rewards_split :
    (height : ℕ)
    → (pool : ℕ) × (farmer : ℕ) × (calculate_pool_reward height ≡ ok pool)
      × (calculate_base_farmer_reward height ≡ ok farmer)
      × (pool ≡ 7 * farmer)
      × (pool + farmer ≡ block_reward height)
unfolding calculate_pool_reward calculate_base_farmer_reward block_reward era
rewards_split height = (
  7 * (block_reward height / 8),
  block_reward height / 8,
  ground (arith, era_lem height),
  ground (arith, era_lem height),
  ground (arith, era_lem height),
  ground (arith, era_lem height),
)
