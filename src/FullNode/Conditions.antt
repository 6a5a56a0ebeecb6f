-- ===== src/FullNode/Conditions.antt =====
-- sector/full_node/mempool_check_conditions.py: the conditions of a spend against the state of the
-- chain. Bytes are lists of numbers. The digest `std_hash` and the integer casts of the package
-- `clvm` are parameters; so is `now`, the value of `int(time.time())`.
pub mod Holds
pub mod Accept
use sector_blockchain.Prelude.{
  ℕ, zero, suc, ◌+◌, ◌-◌, Bool, true, false, ltb, leb, ◌==◌, not, ◌&&◌, ◌||◌, Option, none, some,
  List, [], ◌∷◌, ◌++◌, length, if◌then◌else◌,
}
use sector_blockchain.Prelude.Int.{ℤ, pos, negsuc}
use sector_blockchain.Prelude.Dict.{Dict}
use sector_blockchain.Python.{
  Result, ok, raise, Exc, value_error, index_error, require, ◌>>=◌, ◌>>◌,
}

-- The errors of sector/util/errors.py that the checks return.
pub data Err : Type 0 where
  invalid_condition assert_my_coin_id_failed assert_announce_consumed_failed : Err
  assert_height_relative_failed assert_height_absolute_failed assert_seconds_absolute_failed : Err
  assert_seconds_relative_failed assert_my_parent_id_failed assert_my_puzzlehash_failed
        assert_my_amount_failed :
      Err

pub data ConditionOpcode : Type 0 where
  unknown agg_sig_unsafe agg_sig_me create_coin reserve_fee : ConditionOpcode
  create_coin_announcement assert_coin_announcement : ConditionOpcode
  create_puzzle_announcement assert_puzzle_announcement : ConditionOpcode
  assert_my_coin_id assert_my_parent_id assert_my_puzzlehash assert_my_amount : ConditionOpcode
  assert_seconds_relative assert_seconds_absolute : ConditionOpcode
  assert_height_relative assert_height_absolute : ConditionOpcode

pub record Coin : Type 0 where
  pub parent_coin_info : List ℕ
  pub puzzle_hash : List ℕ
  pub amount : ℕ

pub record CoinRecord : Type 0 where
  pub coin : Coin
  pub confirmed_block_index : ℕ
  pub spent_block_index : ℕ
  pub spent : Bool
  pub coinbase : Bool
  pub timestamp : ℕ

pub record ConditionWithArgs : Type 0 where
  pub opcode : ConditionOpcode
  pub vars : List (List ℕ)

-- `==` of bytes, and `in` of a set of bytes
unfoldable pub same_bytes : List ℕ → List ℕ → Bool
same_bytes [] [] = true
same_bytes [] (y ∷ ys) = false
same_bytes (x ∷ xs) [] = false
same_bytes (x ∷ xs) (y ∷ ys) = x == y && same_bytes xs ys

unfoldable pub contains : List ℕ → List (List ℕ) → Bool
contains x [] = false
contains x (y ∷ ys) = same_bytes x y || contains x ys

-- `condition.vars[0]`
abbrev pub var0 : ConditionWithArgs → Result (List ℕ)
var0 condition = elim (condition.vars) [ [] ↦ raise index_error | v ∷ vs ↦ ok v ]

-- `bytes32(v)`
abbrev pub bytes32 : List ℕ → Result (List ℕ)
bytes32 v = if length v == 32 then ok v else raise value_error

-- `n < a` and `a + k` where `a` may be negative
abbrev pub below : ℕ → ℤ → Bool
below n (pos m) = ltb n m
below n (negsuc m) = false

abbrev pub plus : ℤ → ℕ → ℤ
plus (pos m) k = pos (m + k)
plus (negsuc m) k = if leb k m then negsuc (m - k) else pos (k - (m + 1))

-- `a != n` where `a` may be negative
abbrev pub equals : ℕ → ℤ → Bool
equals n (pos m) = n == m
equals n (negsuc m) = false

-- `except ValueError: return Err.INVALID_CONDITION`
abbrev pub or_invalid : Result ℤ → (ℤ → Option Err) → Result (Option Err)
or_invalid (ok a) k = ok (k a)
or_invalid (raise value_error) k = ok (some invalid_condition)
or_invalid (raise e) k = raise e

abbrev pub fail_if : Bool → Err → Option Err
fail_if b e = if b then some e else none

module _ (std_hash : List ℕ → List ℕ) (int_to_bytes : ℕ → List ℕ)
    (int_from_bytes : List ℕ → Result ℤ) (now : ℕ) where
  -- `Coin.name()`
  unfoldable pub name : Coin → List ℕ
  name c = std_hash ((c.parent_coin_info ++ c.puzzle_hash) ++ int_to_bytes c.amount)

  unfoldable pub mempool_assert_announcement :
      ConditionWithArgs → List (List ℕ) → Result (Option Err)
  mempool_assert_announcement condition announcements = do
    v ← var0 condition
    announcement_hash ← bytes32 v
    ok (fail_if (not (contains announcement_hash announcements)) assert_announce_consumed_failed)

  unfoldable pub mempool_assert_my_coin_id : ConditionWithArgs → CoinRecord → Result (Option Err)
  unfolding name
  mempool_assert_my_coin_id condition unspent = do
    v ← var0 condition
    ok (fail_if (not (same_bytes (name (unspent.coin)) v)) assert_my_coin_id_failed)

  unfoldable pub mempool_assert_absolute_block_height_exceeds :
      ConditionWithArgs → ℕ → Result (Option Err)
  mempool_assert_absolute_block_height_exceeds condition prev_transaction_block_height = do
    v ← var0 condition
    or_invalid (int_from_bytes v) λ block_index_exceeds_this.
        fail_if (below prev_transaction_block_height block_index_exceeds_this)
          assert_height_absolute_failed

  unfoldable pub mempool_assert_relative_block_height_exceeds :
      ConditionWithArgs → CoinRecord → ℕ → Result (Option Err)
  mempool_assert_relative_block_height_exceeds condition unspent prev_transaction_block_height = do
    v ← var0 condition
    or_invalid (int_from_bytes v) λ expected_block_age.
        fail_if
          (below prev_transaction_block_height
            (plus expected_block_age unspent.confirmed_block_index))
          assert_height_relative_failed

  -- `if timestamp is None: timestamp = uint64(int(time.time()))`
  abbrev pub or_now : Option ℕ → ℕ
  or_now none = now
  or_now (some t) = t

  unfoldable pub mempool_assert_absolute_time_exceeds :
      ConditionWithArgs → Option ℕ → Result (Option Err)
  mempool_assert_absolute_time_exceeds condition timestamp = do
    v ← var0 condition
    or_invalid (int_from_bytes v) λ expected_seconds.
        fail_if (below (or_now timestamp) expected_seconds) assert_seconds_absolute_failed

  unfoldable pub mempool_assert_relative_time_exceeds :
      ConditionWithArgs → CoinRecord → Option ℕ → Result (Option Err)
  mempool_assert_relative_time_exceeds condition unspent timestamp = do
    v ← var0 condition
    or_invalid (int_from_bytes v) λ expected_seconds.
        fail_if (below (or_now timestamp) (plus expected_seconds unspent.timestamp))
          assert_seconds_relative_failed

  unfoldable pub mempool_assert_my_parent_id : ConditionWithArgs → CoinRecord → Result (Option Err)
  mempool_assert_my_parent_id condition unspent = do
    v ← var0 condition
    ok (fail_if (not (same_bytes (unspent.coin.parent_coin_info) v)) assert_my_parent_id_failed)

  unfoldable pub mempool_assert_my_puzzlehash : ConditionWithArgs → CoinRecord → Result (Option Err)
  mempool_assert_my_puzzlehash condition unspent = do
    v ← var0 condition
    ok (fail_if (not (same_bytes (unspent.coin.puzzle_hash) v)) assert_my_puzzlehash_failed)

  unfoldable pub mempool_assert_my_amount : ConditionWithArgs → CoinRecord → Result (Option Err)
  mempool_assert_my_amount condition unspent = do
    v ← var0 condition
    a ← int_from_bytes v
    ok (fail_if (not (equals (unspent.coin.amount) a)) assert_my_amount_failed)

  module _ (unspent : CoinRecord)
      (coin_announcement_names puzzle_announcement_names : List (List ℕ))
      (prev_transaction_block_height : ℕ) (timestamp : Option ℕ) where
    -- The error of one condition; a condition of another opcode has none.
    unfoldable pub check_condition : ConditionWithArgs → Result (Option Err)
    check_condition cvp = elim (cvp.opcode) [
      | assert_my_coin_id ↦ mempool_assert_my_coin_id cvp unspent
      | assert_coin_announcement ↦ mempool_assert_announcement cvp coin_announcement_names
      | assert_puzzle_announcement ↦ mempool_assert_announcement cvp puzzle_announcement_names
      | assert_height_absolute ↦
          mempool_assert_absolute_block_height_exceeds cvp prev_transaction_block_height
      | assert_height_relative ↦
          mempool_assert_relative_block_height_exceeds cvp unspent prev_transaction_block_height
      | assert_seconds_absolute ↦ mempool_assert_absolute_time_exceeds cvp timestamp
      | assert_seconds_relative ↦ mempool_assert_relative_time_exceeds cvp unspent timestamp
      | assert_my_parent_id ↦ mempool_assert_my_parent_id cvp unspent
      | assert_my_puzzlehash ↦ mempool_assert_my_puzzlehash cvp unspent
      | assert_my_amount ↦ mempool_assert_my_amount cvp unspent
      | _ ↦ ok none
    ]

    -- The loops: the first error ends them.
    unfoldable pub check_list : List ConditionWithArgs → Result (Option Err)
    check_list [] = ok none
    check_list (cvp ∷ con_list) =
        let rest = check_list con_list in
        do error ← check_condition cvp; elim error [ none ↦ rest | some e ↦ ok (some e) ]

    unfoldable pub mempool_check_conditions_dict :
        Dict (List ConditionWithArgs) → Result (Option Err)
    mempool_check_conditions_dict [] = ok none
    mempool_check_conditions_dict ((opcode, con_list) ∷ entries) =
        let rest = mempool_check_conditions_dict entries in
        do error ← check_list con_list; elim error [ none ↦ rest | some e ↦ ok (some e) ]
