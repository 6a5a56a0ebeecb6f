-- ===== src/Server/RateLimits.antt =====
-- sector/server/rate_limits.py: `RateLimiter`. The clock is an argument: `minute` is
-- `int(time.time() // reset_seconds)`. The product of a limit and the float `percentage_of_limit /
-- 100` is a parameter: `over n limit` is `n > limit * proportion_of_limit`.
pub mod Tables
pub mod Counters
use sector_blockchain.Prelude.{
  ℕ, ◌+◌, ◌*◌, Bool, true, false, ltb, ◌==◌, not, ◌&&◌, ◌||◌, Option, none, some, List, [], ◌∷◌,
  if◌then◌else◌,
}
use sector_blockchain.Prelude.Dict.{Dict, lookup, insert, member}
use sector_blockchain.Server.RateLimits.Tables.{
  RlSettings, default_settings, non_tx_freq, non_tx_max_total_size, message_types, rate_limits_tx,
  rate_limits_other,
}

pub record RateLimiter : Type 0 where
  pub incoming : Bool
  pub current_minute : ℕ
  pub message_counts : Dict ℕ
  pub message_cumulative_sizes : Dict ℕ
  pub non_tx_message_counts : ℕ
  pub non_tx_cumulative_size : ℕ

-- `__init__`
abbrev pub create : Bool → ℕ → RateLimiter
create incoming minute = record {
  incoming = incoming;
  current_minute = minute;
  message_counts = [];
  message_cumulative_sizes = [];
  non_tx_message_counts = 0;
  non_tx_cumulative_size = 0;
}

-- `counter[key]` of a `Counter`
unfoldable pub count : ℕ → Dict ℕ → ℕ
count k c = elim (lookup k c) [ none ↦ 0 | some n ↦ n ]

-- The counters of another minute are dropped.
unfoldable pub roll : ℕ → RateLimiter → RateLimiter
roll minute s = if minute == s.current_minute then s else create s.incoming minute

-- The limits of a type, and whether the aggregate limit holds for it.
unfoldable pub limits_of : ℕ → RlSettings × Bool
limits_of message_type = elim (lookup message_type rate_limits_tx) [
  | some l ↦ (l, false)
  | none ↦ elim (lookup message_type rate_limits_other) [
    | some l ↦ (l, true)
    | none ↦ (default_settings, false)
  ]
]

unfoldable pub total_size : RlSettings → ℕ
total_size l = elim l.max_total_size [ none ↦ l.frequency * l.max_size | some t ↦ t ]

module _ (over : ℕ → ℕ → Bool) where
  -- The value returned for a message of `size` bytes, given the new counts.
  unfoldable pub decide : RlSettings × Bool → ℕ → ℕ → ℕ → ℕ → ℕ → Bool
  decide (l, other) size new_count new_size new_non_tx_count new_non_tx_size =
      if other && over new_non_tx_count non_tx_freq
      then false
      else if other && over new_non_tx_size non_tx_max_total_size
      then false
      else if over new_count l.frequency
      then false
      else if ltb l.max_size size
      then false
      else not (over new_size (total_size l))

  -- `process_msg_and_check(message)`: whether the message may pass, and the limiter then.
  unfoldable pub process_msg_and_check : ℕ → ℕ → ℕ → RateLimiter → Bool × RateLimiter
  process_msg_and_check minute message_type size s0 =
      let s = roll minute s0 in
      if not (member message_type message_types)
      then (true, s)
      else let (l, other) = limits_of message_type in
        let new_count = count message_type s.message_counts + 1 in
        let new_size = count message_type s.message_cumulative_sizes + size in
        let new_non_tx_count =
          if other then s.non_tx_message_counts + 1 else s.non_tx_message_counts in
        let new_non_tx_size =
          if other then s.non_tx_cumulative_size + size else s.non_tx_cumulative_size in
        let ret = decide (l, other) size new_count new_size new_non_tx_count new_non_tx_size in
        if s.incoming || ret
        then (
          ret,
          record s {
            message_counts = insert message_type new_count s.message_counts;
            message_cumulative_sizes = insert message_type new_size s.message_cumulative_sizes;
            non_tx_message_counts = new_non_tx_count;
            non_tx_cumulative_size = new_non_tx_size;
          },
        )
        else (ret, s)
