-- ===== src/Util/SignificantBits/Bits.antt =====
-- Bit lengths and masks as arithmetic on powers of two.
use Prim.Native.Nat.{bit_and, digits, bit_and-bitwise}
use native.Mathlib.Nat.{pow-succ', one-le-pow, div-div-eq-div-mul}
use sector_blockchain.Prelude.{
  ℕ, zero, suc, ◌+◌, ◌-◌, ◌*◌, ◌/◌, ◌%◌, ◌^◌, ◌≤◌, ◌<◌, min, ◌≡◌, refl, ap, ◌∙◌, arith,
}
use sector_blockchain.Util.SignificantBits.{bit_length_loop, bit_length}

-- What the native `bit_and` stands for: `rounds` binary digits of the two numbers.
abbrev and_rounds : ℕ → ℕ → ℕ → ℕ
and_rounds rounds x mask = digits (λ rest. zero) min rounds x mask

-- Once there are as many rounds as the number, one more changes nothing.
one_more : (r x m : ℕ) → x ≤ r → and_rounds (suc r) x m ≡ and_rounds r x m
one_more zero zero m h = refl
one_more zero (suc x) m h = absurd (omega arith)
one_more (suc r) zero m h = refl
one_more (suc r) (suc x) m h = omega (arith, one_more r (suc x / 2) (m / 2) (omega arith))

settled : (k r x m : ℕ) → k + x ≡ r → and_rounds r x m ≡ and_rounds x x m
settled zero r x m h = let e : r ≡ x = omega arith in rw e
settled (suc k) zero x m h = absurd (omega arith)
settled (suc k) (suc r) x m h = one_more r x m (omega arith) ∙ settled k r x m (omega arith)

-- The lowest digit of `x & m`, and the rest.
pub bit_and-halves : (x m : ℕ) → bit_and x m ≡ 2 * bit_and (x / 2) (m / 2) + min (x % 2) (m % 2)
bit_and-halves zero m = omega (arith, bit_and-bitwise 0 m, bit_and-bitwise 0 (m / 2))
bit_and-halves (suc x) m = omega (
  arith,
  bit_and-bitwise (suc x) m,
  bit_and-bitwise (suc x / 2) (m / 2),
  settled (x - suc x / 2) x (suc x / 2) (m / 2) (omega arith),
)

pub pow_suc : (k : ℕ) → 2 ^ suc k ≡ 2 * 2 ^ k
pow_suc k = pow-succ' 2 k

pub pow_pos : (k : ℕ) → 0 < 2 ^ k
pow_pos k = one-le-pow k 2 (omega arith)

pub div_pow_suc : (n k : ℕ) → n / 2 / 2 ^ k ≡ n / 2 ^ suc k
div_pow_suc n k = rw pow_suc (div-div-eq-div-mul n 2 (2 ^ k))

zero-bit_and : (m : ℕ) → bit_and 0 m ≡ 0
zero-bit_and m = bit_and-bitwise 0 m

bit_and_zero_rounds : (r x : ℕ) → x ≤ r → bit_and x 0 ≡ 0
bit_and_zero_rounds zero x h = let e : x ≡ 0 = omega arith in rw e
bit_and_zero_rounds (suc r) zero h = zero-bit_and 0
bit_and_zero_rounds (suc r) (suc x) h =
    omega (arith, bit_and-halves (suc x) 0, bit_and_zero_rounds r (suc x / 2) (omega arith))

bit_and-zero : (x : ℕ) → bit_and x 0 ≡ 0
bit_and-zero x = bit_and_zero_rounds x x (omega arith)

-- A mask of ones above the lowest `l` of `k + l` digits clears these `l` digits.
pub bit_and_high : (l k x : ℕ) → l ≤ k → x < 2 ^ k → bit_and x (2 ^ k - 2 ^ l) ≡ x / 2 ^ l * 2 ^ l
bit_and_high zero zero x le h = let e : x ≡ 0 = omega arith in rw e
bit_and_high zero (suc k) x le h =
    let e : (2 ^ suc k - 1) / 2 ≡ 2 ^ k - 1 = omega (arith, pow_suc k, pow_pos k) in
    rw (bit_and-halves, e, bit_and_high zero k (x / 2) (omega arith) (omega (arith, pow_suc k)))
      (omega (arith, pow_suc k, pow_pos k))
bit_and_high (suc l) zero x le h = absurd (omega arith)
bit_and_high (suc l) (suc k) x le h =
    let e : (2 ^ suc k - 2 ^ suc l) / 2 ≡ 2 ^ k - 2 ^ l = omega (arith, pow_suc k, pow_suc l) in
    rw (bit_and-halves, e, bit_and_high l k (x / 2) (omega arith) (omega (arith, pow_suc k)))
      (omega (
        arith,
        pow_suc k,
        pow_suc l,
        div_pow_suc x l,
        ap (λ (t : ℕ). x / 2 ^ suc l * t) (pow_suc l),
        ap (λ (t : ℕ). t * 2 ^ l) (div_pow_suc x l),
      ))

-- A mask of one digit.
pub bit_and_bit : (i x : ℕ) → bit_and x (2 ^ i) ≡ x / 2 ^ i % 2 * 2 ^ i
bit_and_bit zero x = rw (bit_and-halves, bit_and-zero) (omega arith)
bit_and_bit (suc i) x =
    let e : 2 ^ suc i / 2 ≡ 2 ^ i = omega (arith, pow_suc i) in
    rw (bit_and-halves, e, bit_and_bit i (x / 2))
      (omega (
        arith,
        pow_suc i,
        ap (λ (t : ℕ). x / 2 ^ suc i % 2 * t) (pow_suc i),
        ap (λ (t : ℕ). t % 2 * 2 ^ i) (div_pow_suc x i),
      ))

loop_bound : (r n : ℕ) → n ≤ r → n < 2 ^ bit_length_loop r n
unfolding bit_length_loop
loop_bound zero n h = omega arith
loop_bound (suc r) n h = ground (arith, loop_bound r (n / 2), pow_suc (bit_length_loop r (n / 2)))

loop_least : (r n k : ℕ) → n < 2 ^ k → bit_length_loop r n ≤ k
unfolding bit_length_loop
loop_least zero n k h = omega arith
loop_least (suc r) n zero h = ground arith
loop_least (suc r) n (suc k) h = ground (arith, loop_least r (n / 2) k, pow_suc k)

-- The bit length is the least number of digits that the number fits.
pub lt-pow-bit_length : (n : ℕ) → n < 2 ^ bit_length n
unfolding bit_length
lt-pow-bit_length n = loop_bound n n (omega arith)

pub bit_length-le : (n k : ℕ) → n < 2 ^ k → bit_length n ≤ k
unfolding bit_length
bit_length-le n k h = loop_least n n k h
