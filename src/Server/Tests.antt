-- ===== src/Server/Tests.antt =====
-- A limiter of outgoing messages at 100 percent of the limits.
use sector_blockchain.Prelude.{
  ℕ, ◌+◌, ◌≡◌, arith, Bool, true, false, ltb, ◌==◌, ◌&&◌, ◌||◌, [], ◌∷◌, if◌then◌else◌,
}
use sector_blockchain.Prelude.Dict.{member}
use sector_blockchain.Server.RateLimits.{create, count, roll, process_msg_and_check}
use sector_blockchain.Server.RateLimits.Tables.{message_types}
use sector_blockchain.Server.RateLimits.Counters.{
  IsWithin, run, run-IsWithin, process_msg_and_check_counts,
}

-- `n > limit * 1.0`
abbrev over : ℕ → ℕ → Bool
over n limit = ltb limit n

over-zero : (limit : ℕ) → over 0 limit ≡ false
over-zero limit = ground arith

run-IsWithin_example :
    IsWithin over (run over ((0, 1, 100) ∷ (0, 1, 100) ∷ (1, 21, 50) ∷ []) (create false 0))
run-IsWithin_example = run-IsWithin over over-zero ((0, 1, 100) ∷ (0, 1, 100) ∷ (1, 21, 50) ∷ []) 0

process_msg_and_check_counts_example :
    count 21 (process_msg_and_check over 0 21 50 (create true 0)).1.message_counts ≡ (
      count 21 (roll 0 (create true 0)).message_counts
      + (if 21 == 21
            && member 21 message_types
            && (true || (process_msg_and_check over 0 21 50 (create true 0)).0)
          then 1
          else 0))
process_msg_and_check_counts_example = process_msg_and_check_counts over 0 21 50 (create true 0) 21
