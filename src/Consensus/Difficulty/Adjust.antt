-- ===== src/Consensus/Difficulty/Adjust.antt =====
-- sector/consensus/difficulty_adjustment.py: how the precise new values are bounded and rounded,
-- the last part of `_get_next_sub_slot_iters` and of `_get_next_difficulty`.
pub mod Bounds
use sector_blockchain.Prelude.{
  ℕ, ◌+◌, ◌-◌, ◌*◌, ◌/◌, Bool, min, max, ltb, leb, ◌==◌, ◌&&◌, if◌then◌else◌,
}
use sector_blockchain.Python.{
  Result, ok, raise, value_error, zero_division, assert, uint, floor_div, modulo, ◌>>=◌, ◌>>◌,
}
use sector_blockchain.Prelude.Int.{pos, abs}
use sector_blockchain.Util.SignificantBits.{truncate_to_significant_bits, count_significant_bits}
use sector_blockchain.Consensus.Constants.{ConsensusConstants}

-- `uint64(m * (a - b) // (d * (s - t)))`. The quotient of two Python integers is rounded down, so
-- it is below 0, and not a uint64, where exactly one of them is.
unfoldable pub rate : ℕ → ℕ → ℕ → ℕ → ℕ → ℕ → Result ℕ
rate m a b d s t =
    if s == t
    then raise zero_division
    else if d == 0
    then raise zero_division
    else if leb b a && ltb t s
    then uint 64 (m * (a - b) / (d * (s - t)))
    else if ltb a b && ltb s t
    then uint 64 (m * (b - a) / (d * (t - s)))
    else if m * (a - b) + m * (b - a) == 0
    then uint 64 0
    else raise value_error

unfoldable pub adjust_sub_slot_iters : ConsensusConstants → ℕ → ℕ → Result ℕ
adjust_sub_slot_iters c new_ssi_precise last_ssi = do
  max_ssi ← uint 64 (c.difficulty_change_max_factor * last_ssi)
  q ← floor_div last_ssi c.difficulty_change_max_factor
  min_ssi ← uint 64 q
  x ←
      if leb last_ssi new_ssi_precise
      then uint 64 (min new_ssi_precise max_ssi)
      else uint 64 (max (max c.num_sps_sub_slot new_ssi_precise) min_ssi)
  let t = abs (truncate_to_significant_bits (pos x) c.significant_bits)
  r ← modulo t c.num_sps_sub_slot
  new_ssi ← uint 64 (t - r)
  assert (leb (count_significant_bits (pos new_ssi)) c.significant_bits)
  ok new_ssi

unfoldable pub adjust_difficulty : ConsensusConstants → ℕ → ℕ → Result ℕ
adjust_difficulty c new_difficulty_precise old_difficulty = do
  max_diff ← uint 64 (c.difficulty_change_max_factor * old_difficulty)
  q ← floor_div old_difficulty c.difficulty_change_max_factor
  min_diff ← uint 64 q
  x ←
      if leb old_difficulty new_difficulty_precise
      then uint 64 (min new_difficulty_precise max_diff)
      else uint 64 (max (max 1 new_difficulty_precise) min_diff)
  let t = abs (truncate_to_significant_bits (pos x) c.significant_bits)
  assert (leb (count_significant_bits (pos t)) c.significant_bits)
  uint 64 t
