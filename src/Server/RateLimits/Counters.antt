-- ===== src/Server/RateLimits/Counters.antt =====
-- sector/server/rate_limits.py: what a limiter counts, and that what passes stays within the limits.
use sector_blockchain.Prelude.{
  ℕ, ◌+◌, ◌≡◌, refl, ap, sym, ◌∙◌, arith, Bool, true, false, ◌==◌, ◌&&◌, ◌||◌, List, [], ◌∷◌,
  if◌then◌else◌, Bool-cases, inl, inr,
}
use sector_blockchain.Prelude.Dict.{Dict, lookup, insert, lookup-insert, member}
use sector_blockchain.Server.RateLimits.Tables.{
  RlSettings, message_types, non_tx_freq, non_tx_max_total_size,
}
use sector_blockchain.Server.RateLimits.{
  RateLimiter, create, count, roll, limits_of, total_size, decide, process_msg_and_check,
}

count-insert : (k j n : ℕ) (c : Dict ℕ) → count j (insert k n c) ≡ (if k == j then n else count j c)
unfolding count
count-insert k j n c = ground (arith, lookup-insert k j n c)

count-empty : (k : ℕ) → count k [] ≡ 0
unfolding count lookup
count-empty k = refl

module _ (over : ℕ → ℕ → Bool) where
  -- No counter of the limiter is over its limit.
  unfoldable pub IsWithin : RateLimiter → Type 0
  IsWithin s =
      ((t : ℕ) → over (count t s.message_counts) (limits_of t).0.frequency ≡ false)
      × ((t : ℕ) → over (count t s.message_cumulative_sizes) (total_size (limits_of t).0) ≡ false)
      × (over s.non_tx_message_counts non_tx_freq ≡ false)
      × (over s.non_tx_cumulative_size non_tx_max_total_size ≡ false)

  -- The limiter after a sequence of messages, each with its minute, its type and its size.
  unfoldable pub run : List (ℕ × ℕ × ℕ) → RateLimiter → RateLimiter
  run [] s = s
  run ((minute, t, size) ∷ ms) s = run ms (process_msg_and_check over minute t size s).1

  roll-incoming : (minute : ℕ) (s : RateLimiter) → (roll minute s).incoming ≡ s.incoming
  unfolding roll
  roll-incoming minute s = ground arith

  stored :
      (t nc ns nnc nns : ℕ) (s : RateLimiter)
      → IsWithin s
      → over nc (limits_of t).0.frequency ≡ false
      → over ns (total_size (limits_of t).0) ≡ false
      → over nnc non_tx_freq ≡ false
      → over nns non_tx_max_total_size ≡ false
      → IsWithin (record s {
        message_counts = insert t nc s.message_counts;
        message_cumulative_sizes = insert t ns s.message_cumulative_sizes;
        non_tx_message_counts = nnc;
        non_tx_cumulative_size = nns;
      })
  unfolding IsWithin
  stored t nc ns nnc nns s (a, b, c, d) p q x y = (
    (λ k. elim (Bool-cases (t == k)) [
      | inl e ↦
          let same : t ≡ k = ground arith in
          rw (count-insert t k nc s.message_counts, e, sym same) p
      | inr e ↦ rw (count-insert t k nc s.message_counts, e) (a k)
    ]),
    (λ k. elim (Bool-cases (t == k)) [
      | inl e ↦
          let same : t ≡ k = ground arith in
          rw (count-insert t k ns s.message_cumulative_sizes, e, sym same) q
      | inr e ↦ rw (count-insert t k ns s.message_cumulative_sizes, e) (b k)
    ]),
    x,
    y,
  )

  one :
      (n t k : ℕ) (c : Dict ℕ) (b : Bool)
      → b ≡ true
      → n ≡ count t c
      → (if t == k then n + 1 else count k c) ≡ count k c + (if t == k && true && b then 1 else 0)
  one n t k c p h e = elim (Bool-cases (t == k)) [
    | inl b ↦
        let same : t ≡ k = ground arith in
        rw (b, h) (omega (arith, e ∙ ap (λ (x : ℕ). count x c) same))
    | inr b ↦ rw b (omega arith)
  ]

  process_msg_and_check-roll :
      (minute t size : ℕ) (s : RateLimiter) (k : ℕ)
      → count k (process_msg_and_check over minute t size s).1.message_counts ≡ (
          count k (roll minute s).message_counts
          + (if t == k
                && member t message_types
                && ((roll minute s).incoming || (process_msg_and_check over minute t size s).0)
              then 1
              else 0))
  unfolding process_msg_and_check
  process_msg_and_check-roll minute t size s0 k =
      let s = roll minute s0 in
      let nc = count t s.message_counts + 1 in
      let passes =
        decide over (limits_of t) size nc (count t s.message_cumulative_sizes + size)
          (if (limits_of t).1 then s.non_tx_message_counts + 1 else s.non_tx_message_counts)
          (if (limits_of t).1 then s.non_tx_cumulative_size + size else s.non_tx_cumulative_size) in
      elim (Bool-cases (member t message_types)) [
        | inr e ↦ rw e (ground arith)
        | inl e ↦ elim (Bool-cases (s.incoming || passes)) [
          | inl p ↦
              rw (e, p, count-insert t k nc s.message_counts)
                (one (count t s.message_counts) t k s.message_counts (s.incoming || passes) p refl)
          | inr p ↦ rw (e, p) (ground arith)
        ]
      ]

  -- A message of a known type adds one to the count of its type, where the limiter is an incoming
  -- one or the message passes; no other type's count of the minute changes.
  pub process_msg_and_check_counts :
      (minute t size : ℕ) (s : RateLimiter) (k : ℕ)
      → count k (process_msg_and_check over minute t size s).1.message_counts ≡ (
          count k (roll minute s).message_counts
          + (if t == k
                && member t message_types
                && (s.incoming || (process_msg_and_check over minute t size s).0)
              then 1
              else 0))
  process_msg_and_check_counts minute t size s k =
      process_msg_and_check-roll minute t size s k
      ∙ ap
          (λ (b : Bool).
            count k (roll minute s).message_counts
            + (if t == k
                  && member t message_types
                  && (b || (process_msg_and_check over minute t size s).0)
                then 1
                else 0))
          (roll-incoming minute s)

  create-IsWithin :
      (zero_over : (limit : ℕ) → over 0 limit ≡ false) (incoming : Bool) (minute : ℕ)
      → IsWithin (create incoming minute)
  unfolding IsWithin
  create-IsWithin zero_over incoming minute = (
    (λ t. rw (count-empty t) (zero_over _)),
    (λ t. rw (count-empty t) (zero_over _)),
    zero_over _,
    zero_over _,
  )

  decide-true :
      (l : RlSettings) (other : Bool) (size new_count new_size new_non_tx_count new_non_tx_size : ℕ)
      → decide over (l, other) size new_count new_size new_non_tx_count new_non_tx_size ≡ true
      → (over new_count l.frequency ≡ false)
        × (over new_size (total_size l) ≡ false)
        × (other ≡ true
            → (over new_non_tx_count non_tx_freq ≡ false)
              × (over new_non_tx_size non_tx_max_total_size ≡ false))
  unfolding decide
  decide-true l other size nc ns nnc nns h = ground arith

  roll-IsWithin :
      (zero_over : (limit : ℕ) → over 0 limit ≡ false) (minute : ℕ) (s : RateLimiter)
      → IsWithin s
      → IsWithin (roll minute s)
  unfolding roll
  roll-IsWithin zero_over minute s h = elim (Bool-cases (minute == s.current_minute)) [
    | inl e ↦ rw e h
    | inr e ↦ rw e (create-IsWithin zero_over s.incoming minute)
  ]

  IsWithin-non_tx :
      (s : RateLimiter)
      → IsWithin s
      → (over s.non_tx_message_counts non_tx_freq ≡ false)
        × (over s.non_tx_cumulative_size non_tx_max_total_size ≡ false)
  unfolding IsWithin
  IsWithin-non_tx s (a, b, c, d) = (c, d)

  process_msg_and_check-incoming :
      (minute t size : ℕ) (s : RateLimiter)
      → (process_msg_and_check over minute t size s).1.incoming ≡ s.incoming
  unfolding process_msg_and_check
  process_msg_and_check-incoming minute t size s = ground (arith, roll-incoming minute s)

  process_msg_and_check-IsWithin :
      (zero_over : (limit : ℕ) → over 0 limit ≡ false) (minute t size : ℕ) (s : RateLimiter)
      → s.incoming ≡ false
      → IsWithin s
      → IsWithin (process_msg_and_check over minute t size s).1
  unfolding process_msg_and_check
  process_msg_and_check-IsWithin zero_over minute t size s0 out h0 =
      let s = roll minute s0 in
      let h : IsWithin s = roll-IsWithin zero_over minute s0 h0 in
      let o : s.incoming ≡ false = roll-incoming minute s0 ∙ out in
      let l = (limits_of t).0 in
      let other = (limits_of t).1 in
      let nc = count t s.message_counts + 1 in
      let ns = count t s.message_cumulative_sizes + size in
      let nnc = if other then s.non_tx_message_counts + 1 else s.non_tx_message_counts in
      let nns = if other then s.non_tx_cumulative_size + size else s.non_tx_cumulative_size in
      elim (Bool-cases (member t message_types)) [
        | inr e ↦ rw e h
        | inl e ↦ elim (Bool-cases (s.incoming || decide over (l, other) size nc ns nnc nns)) [
          | inr d ↦ rw (e, d) h
          | inl d ↦
              let (a, b, c) = decide-true l other size nc ns nnc nns (second _ _ d o) in
              let (x, y) = IsWithin-non_tx s h in
              rw (e, d)
                (stored t nc ns nnc nns s h a b (kept _ _ _ other x λ w. (c w).0)
                  (kept _ _ _ other y λ w. (c w).1))
        ]
      ]
    where
      second : (a b : Bool) → (a || b) ≡ true → a ≡ false → b ≡ true
      second a b p q = ground arith

      kept :
          (m n limit : ℕ) (b : Bool)
          → over m limit ≡ false
          → (b ≡ true → over (if b then n else m) limit ≡ false)
          → over (if b then n else m) limit ≡ false
      kept m n l true x y = y refl
      kept m n l false x y = x

  run-incoming-IsWithin :
      (zero_over : (limit : ℕ) → over 0 limit ≡ false) (ms : List (ℕ × ℕ × ℕ)) (s : RateLimiter)
      → s.incoming ≡ false
      → IsWithin s
      → IsWithin (run ms s)
  unfolding run
  run-incoming-IsWithin zero_over [] s o h = h
  run-incoming-IsWithin zero_over ((minute, t, size) ∷ ms) s o h =
      run-incoming-IsWithin zero_over ms (process_msg_and_check over minute t size s).1
        (process_msg_and_check-incoming minute t size s ∙ o)
        (process_msg_and_check-IsWithin zero_over minute t size s o h)

  -- Where 0 is over no limit, a limiter of outgoing messages never has a counter over its limit,
  -- whatever messages it is asked about, at whatever times.
  pub run-IsWithin :
      (zero_over : (limit : ℕ) → over 0 limit ≡ false) (ms : List (ℕ × ℕ × ℕ)) (minute : ℕ)
      → IsWithin (run ms (create false minute))
  run-IsWithin zero_over ms minute =
      run-incoming-IsWithin zero_over ms (create false minute) refl
        (create-IsWithin zero_over false minute)
