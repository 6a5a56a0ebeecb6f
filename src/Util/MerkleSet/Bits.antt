-- ===== src/Util/MerkleSet/Bits.antt =====
-- `get_bit` of util/merkle_set.py as arithmetic: the bits tell hashes apart, in their order.
use native.Mathlib.Nat.{
  pow-succ', div-div-eq-div-mul, add-mul-div_left, div-add-mod, le-div_iff_mul-le, div-mul-le_self,
  div-eq_of_lt, mul_comm,
}
use sector_blockchain.Prelude.{
  ℕ, zero, suc, ◌+◌, ◌-◌, ◌*◌, ◌/◌, ◌%◌, ◌^◌, ◌≤◌, ◌<◌, ◌≡◌, ◌≢◌, ◌⊎◌, ◌↔◌, inl, inr, refl, sym, ap,
  ◌∙◌, arith, some, get_elem?,
}
use sector_blockchain.Python.{ok}
use sector_blockchain.Util.Ints.Bytes.{to_bytes}
use sector_blockchain.Util.SignificantBits.Bits.{pow_suc, pow_pos}
use sector_blockchain.Util.SignificantBits.Multiple.{pow_split}
use sector_blockchain.Util.MerkleSet.Node.{get_bit}

-- The bit as the code reads it, at a position below 256.
unfoldable pub bit : ℕ → ℕ → ℕ
bit x pos = x / 256 ^ (31 - pos / 8) % 256 / 2 ^ (7 - pos % 8) % 2

get_elem?-to_bytes :
    (size n i : ℕ)
    → i < size
    → get_elem? (to_bytes size n) i ≡ some (n / 256 ^ (size - 1 - i) % 256)
unfolding to_bytes
get_elem?-to_bytes zero n i h = absurd (omega arith)
get_elem?-to_bytes (suc size) n zero h = let e : suc size - 1 - 0 ≡ size = omega arith in rw e
get_elem?-to_bytes (suc size) n (suc i) h =
    let e : suc size - 1 - suc i ≡ size - 1 - i = omega arith in
    rw e (get_elem?-to_bytes size n i (omega arith))

pub get_bit_lem : (x pos : ℕ) → pos < 256 → get_bit x pos ≡ ok (bit x pos)
unfolding get_bit bit
get_bit_lem x pos h =
    let e : 32 - 1 - pos / 8 ≡ 31 - pos / 8 = omega arith in
    rw (get_elem?-to_bytes 32 x (pos / 8) (omega arith), get_bit) (rw e)

pub bit-lt : (x pos : ℕ) → bit x pos < 2
unfolding bit
bit-lt x pos = omega arith

-- Reading a bit of a byte in the byte or in the number is the same.
byte_bit : (b k : ℕ) → k ≤ 7 → b % 256 / 2 ^ k % 2 ≡ b / 2 ^ k % 2
byte_bit b k h =
    let e : 8 - k ≡ suc (7 - k) = omega arith in
    let two : 256 ≡ 2 * 2 ^ (7 - k) * 2 ^ k =
      pow_split k 8 (omega arith) ∙ rw e (ap (λ (t : ℕ). t * 2 ^ k) (pow_suc (7 - k))) in
    let split : b ≡ b % 256 + 2 ^ k * (2 * 2 ^ (7 - k) * (b / 256)) =
      omega (arith, div-add-mod b 256, ap (λ (t : ℕ). t * (b / 256)) two) in
    let q : b / 2 ^ k ≡ b % 256 / 2 ^ k + 2 * 2 ^ (7 - k) * (b / 256) =
      ap (λ (t : ℕ). t / 2 ^ k) split ∙ add-mul-div_left _ _ (pow_pos k) in
    rw q (omega arith)

bytes_pow : (m k : ℕ) → 256 ^ m * 2 ^ k ≡ 2 ^ (8 * m + k)
bytes_pow zero k = let e : 8 * 0 + k ≡ k = omega arith in rw e (omega arith)
bytes_pow (suc m) k =
    let e : 8 * suc m + k - (8 * m + k) ≡ 8 = omega arith in
    let split : 2 ^ (8 * suc m + k) ≡ 2 ^ 8 * 2 ^ (8 * m + k) =
      pow_split (8 * m + k) (8 * suc m + k) (omega arith) ∙ rw e refl in
    omega (arith, split, bytes_pow m k, ap (λ (t : ℕ). t * 2 ^ k) (pow-succ' 256 m))

-- The number that the first `d` bits spell.
pub top : ℕ → ℕ → ℕ
top x d = x / 2 ^ (256 - d)

bit_pow : (x d : ℕ) → d < 256 → bit x d ≡ x / 2 ^ (255 - d) % 2
unfolding bit
bit_pow x d h =
    let e : 8 * (31 - d / 8) + (7 - d % 8) ≡ 255 - d = omega arith in
    byte_bit (x / 256 ^ (31 - d / 8)) (7 - d % 8) (omega arith)
    ∙ ap (λ (t : ℕ). t % 2)
        (div-div-eq-div-mul x (256 ^ (31 - d / 8)) (2 ^ (7 - d % 8))
          ∙ ap (λ (t : ℕ). x / t) (bytes_pow (31 - d / 8) (7 - d % 8) ∙ ap (λ (t : ℕ). 2 ^ t) e))

pub top-suc : (x d : ℕ) → d < 256 → top x (suc d) ≡ 2 * top x d + bit x d
unfolding top
top-suc x d h =
    let e : 256 - suc d ≡ 255 - d = omega arith in
    let f : 256 - d ≡ suc (255 - d) = omega arith in
    let half : x / 2 ^ suc (255 - d) ≡ x / 2 ^ (255 - d) / 2 =
      ap (λ (t : ℕ). x / t) (pow_suc (255 - d) ∙ mul_comm 2 (2 ^ (255 - d)))
      ∙ sym (div-div-eq-div-mul x (2 ^ (255 - d)) 2) in
    rw (bit_pow x d h, e, f, half) (omega arith)

-- The hashes agree on the first `d` bits.
pub Agree : ℕ → ℕ → ℕ → Type 0
Agree d x y = top x d ≡ top y d

pub Agree-zero : (x y : ℕ) → x < 2 ^ 256 → y < 2 ^ 256 → Agree 0 x y
unfolding Agree top
Agree-zero x y hx hy = div-eq_of_lt hx ∙ sym (div-eq_of_lt hy)

pub Agree-all : (x y : ℕ) → Agree 256 x y → x ≡ y
unfolding Agree top
Agree-all x y h = omega (arith, h)

pub Agree-suc : (d x y : ℕ) → d < 256 → Agree d x y → bit x d ≡ bit y d → Agree (suc d) x y
unfolding Agree
Agree-suc d x y h a e = omega (arith, top-suc x d h, top-suc y d h, a, e)

pub Agree-bit : (d x y : ℕ) → d < 256 → Agree (suc d) x y → bit x d ≡ bit y d
unfolding Agree
Agree-bit d x y h a = omega (arith, top-suc x d h, top-suc y d h, a, bit-lt x d, bit-lt y d)

div_mono : (x y p : ℕ) → 0 < p → x ≤ y → x / p ≤ y / p
div_mono x y p pos h =
    let q : (x / p ≤ y / p) ↔ (x / p * p ≤ y) = le-div_iff_mul-le pos in
    q.1 (omega (arith, div-mul-le_self x p))

top-le : (x y d : ℕ) → x ≤ y → top x d ≤ top y d
unfolding top
top-le x y d h = div_mono x y (2 ^ (256 - d)) (pow_pos (256 - d)) h

-- The smaller of two hashes that first differ at a bit has a 0 there, and the larger a 1.
pub Agree-lt :
    (d x y : ℕ) → d < 256 → Agree d x y → bit x d ≢ bit y d → x < y → (bit x d ≡ 0) × (bit y d ≡ 1)
unfolding Agree
Agree-lt d x y h a ne lt =
    let le : top x (suc d) ≤ top y (suc d) = top-le x y (suc d) (omega arith) in
    let facts = bits (bit x d) (bit y d) (bit-lt x d) (bit-lt y d) ne in
    (
      omega (arith, facts, le, top-suc x d h, top-suc y d h, a),
      omega (arith, facts, le, top-suc x d h, top-suc y d h, a),
    )
  where
    bits : (a b : ℕ) → a < 2 → b < 2 → a ≢ b → ((a ≡ 0) × (b ≡ 1)) ⊎ ((a ≡ 1) × (b ≡ 0))
    bits a b p q r = omega arith

pub bits-lt : (d x y : ℕ) → d < 256 → Agree d x y → bit x d ≡ 0 → bit y d ≡ 1 → x < y
unfolding Agree
bits-lt d x y h a p q = elim (order x y) [
  | inl lt ↦ lt
  | inr le ↦ absurd (omega (arith, top-suc x d h, top-suc y d h, a, p, q, top-le y x (suc d) le))
]
  where
    order : (x y : ℕ) → (x < y) ⊎ (y ≤ x)
    order x y = omega arith
