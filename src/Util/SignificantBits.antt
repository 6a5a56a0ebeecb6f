-- ===== src/Util/SignificantBits.antt =====
-- sector/util/significant_bits.py: numbers with few significant bits.
pub mod Bits
pub mod Truncate
pub mod Multiple
use Prim.Native.Nat.{bit_and}
use sector_blockchain.Prelude.Int.{ℤ, pos, negsuc, abs, neg}
use sector_blockchain.Prelude.{ℕ, zero, suc, ◌+◌, ◌-◌, ◌/◌, ◌^◌, Bool, ltb, ◌==◌, if◌then◌else◌}

-- Python's `int.bit_length` of a number: how often it is halved until it is 0; the number itself
-- bounds that.
bit_length_loop : ℕ → ℕ → ℕ
bit_length_loop zero n = 0
bit_length_loop (suc rounds) n =
    let rest = bit_length_loop rounds (n / 2) in if n == 0 then 0 else suc rest

unfoldable pub bit_length : ℕ → ℕ
unfolding bit_length_loop
bit_length n = bit_length_loop n n

unfoldable pub truncate_to_significant_bits : ℤ → ℕ → ℤ
truncate_to_significant_bits input_x num_significant_bits =
    let x = abs input_x in
    if ltb (bit_length x) num_significant_bits
    then pos x
    else let lower = bit_length x - num_significant_bits in
      let mask = 2 ^ bit_length x - 1 - (2 ^ lower - 1) in
      elim input_x [ negsuc n ↦ neg (bit_and x mask) | pos n ↦ pos (bit_and x mask) ]

-- `x & (1 << i)`; a negative number stands in two's complement.
and_bit : ℤ → ℕ → ℕ
and_bit (pos n) i = bit_and n (2 ^ i)
and_bit (negsuc n) i = 2 ^ i - bit_and n (2 ^ i)

-- The rounds of `for i in range(x.bit_length())` that are left, and `i`.
count_loop : ℕ → ℕ → ℤ → ℕ
count_loop zero i x = 0
count_loop (suc rounds) i x =
    let rest = count_loop rounds (i + 1) x in
    if ltb 0 (and_bit x i) then bit_length (abs x) - i else rest

unfoldable pub count_significant_bits : ℤ → ℕ
unfolding count_loop and_bit bit_length
count_significant_bits x = count_loop (bit_length (abs x)) 0 x
