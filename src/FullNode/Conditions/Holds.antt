-- ===== src/FullNode/Conditions/Holds.antt =====
-- sector/full_node/mempool_check_conditions.py: what the conditions of a spend mean, with no order of
-- checks and no errors.
use sector_blockchain.Prelude.{ℕ, ◌+◌, ◌≤◌, ◌≡◌, true, Option, List, length, All}
use sector_blockchain.Prelude.Int.{ℤ, pos, negsuc}
use sector_blockchain.Prelude.Dict.{Dict}
use sector_blockchain.Python.{Result, ok}
use sector_blockchain.FullNode.Conditions.{
  unknown, agg_sig_unsafe, agg_sig_me, create_coin, reserve_fee, create_coin_announcement,
  assert_coin_announcement, create_puzzle_announcement, assert_puzzle_announcement,
  assert_my_coin_id, assert_my_parent_id, assert_my_puzzlehash, assert_my_amount,
  assert_seconds_relative, assert_seconds_absolute, assert_height_relative, assert_height_absolute,
  CoinRecord, ConditionWithArgs, contains, var0, name, or_now,
}

-- An integer has been reached by `n`, and the sum of an integer and `k` has.
abbrev pub Reached : ℤ → ℕ → Type 0
Reached (pos m) n = m ≤ n
Reached (negsuc m) n = Unit {0}

abbrev pub ReachedFrom : ℤ → ℕ → ℕ → Type 0
ReachedFrom (pos m) k n = m + k ≤ n
ReachedFrom (negsuc m) k n = k ≤ n + (m + 1)

module _ (std_hash : List ℕ → List ℕ) (int_to_bytes : ℕ → List ℕ)
    (int_from_bytes : List ℕ → Result ℤ) (now : ℕ) (unspent : CoinRecord)
    (coin_names puzzle_names : List (List ℕ)) (height : ℕ) (timestamp : Option ℕ) where
  -- The argument of the condition is an integer with the property.
  abbrev IsInt : ConditionWithArgs → (ℤ → Type 0) → Type 0
  IsInt c P = (v : List ℕ) × (var0 c ≡ ok v) × ((a : ℤ) × (int_from_bytes v ≡ ok a) × P a)

  -- The argument of the condition is one of the announcements.
  abbrev IsAnnounced : ConditionWithArgs → List (List ℕ) → Type 0
  IsAnnounced c names =
      (v : List ℕ) × (var0 c ≡ ok v) × ((length v ≡ 32) × (contains v names ≡ true))

  -- The condition holds of the coin, the announcements, the height and the time.
  unfoldable pub Holds : ConditionWithArgs → Type 0
  Holds c = elim (c.opcode) [
    | unknown ↦ Unit {0}
    | agg_sig_unsafe ↦ Unit {0}
    | agg_sig_me ↦ Unit {0}
    | create_coin ↦ Unit {0}
    | reserve_fee ↦ Unit {0}
    | create_coin_announcement ↦ Unit {0}
    | create_puzzle_announcement ↦ Unit {0}
    | assert_coin_announcement ↦ IsAnnounced c coin_names
    | assert_puzzle_announcement ↦ IsAnnounced c puzzle_names
    | assert_my_coin_id ↦ var0 c ≡ ok (name std_hash int_to_bytes int_from_bytes now unspent.coin)
    | assert_my_parent_id ↦ var0 c ≡ ok unspent.coin.parent_coin_info
    | assert_my_puzzlehash ↦ var0 c ≡ ok unspent.coin.puzzle_hash
    | assert_my_amount ↦ IsInt c (λ a. a ≡ pos unspent.coin.amount)
    | assert_seconds_relative ↦ IsInt c (λ a.
        ReachedFrom a unspent.timestamp (or_now std_hash int_to_bytes int_from_bytes now timestamp))
    | assert_seconds_absolute ↦
        IsInt c (λ a. Reached a (or_now std_hash int_to_bytes int_from_bytes now timestamp))
    | assert_height_relative ↦ IsInt c (λ a. ReachedFrom a unspent.confirmed_block_index height)
    | assert_height_absolute ↦ IsInt c (λ a. Reached a height)
  ]

  unfoldable pub AllHold : Dict (List ConditionWithArgs) → Type 0
  unfolding Holds
  AllHold d = All (λ (e : ℕ × List ConditionWithArgs). All Holds (e.1)) d
