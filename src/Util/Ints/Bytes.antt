-- ===== src/Util/Ints/Bytes.antt =====
-- Big-endian bytes of a number, as Python's `int.to_bytes` and `int.from_bytes` give and read them.
use native.Mathlib.Nat.{
  pow-succ', one-le-pow, mod-lt, mod-eq_of_lt, div-add-mod, mul-le-mul_right, add-mul-mod_self_left,
  add-mul-div_left, div-eq_of_lt,
}
use sector_blockchain.Prelude.{
  ℕ, zero, suc, ◌+◌, ◌*◌, ◌/◌, ◌%◌, ◌^◌, ◌≤◌, ◌<◌, ◌≡◌, refl, sym, ap, ◌∙◌, arith, List, [], ◌∷◌,
  length, All,
}

unfoldable pub to_bytes : ℕ → ℕ → List ℕ
to_bytes zero n = []
to_bytes (suc size) n = (n / 256 ^ size % 256) ∷ to_bytes size n

unfoldable pub from_bytes : List ℕ → ℕ
from_bytes [] = 0
from_bytes (b ∷ bs) = b * 256 ^ length bs + from_bytes bs

abbrev pub IsByte : ℕ → Type 0
IsByte b = b < 256

pub length-to_bytes : (size n : ℕ) → length (to_bytes size n) ≡ size
unfolding to_bytes
length-to_bytes zero n = refl
length-to_bytes (suc size) n = ap suc (length-to_bytes size n)

pub pow256_pos : (k : ℕ) → 0 < 256 ^ k
pow256_pos k = one-le-pow k 256 (omega arith)

last_digit : (n : ℕ) → n % 256 ≤ 255
last_digit n = omega arith

-- The bytes of a number spell its remainder.
from_bytes-to_bytes_mod : (size n : ℕ) → from_bytes (to_bytes size n) ≡ n % 256 ^ size
unfolding to_bytes from_bytes
from_bytes-to_bytes_mod zero n = omega arith
from_bytes-to_bytes_mod (suc size) n =
    rw (length-to_bytes, from_bytes-to_bytes_mod size n)
      (digit n (256 ^ size) (256 ^ suc size) (pow256_pos size) (pow-succ' 256 size))
  where
    digit : (n p q : ℕ) → 0 < p → q ≡ 256 * p → n / p % 256 * p + n % p ≡ n % q
    digit n p q pos e =
        let split : n ≡ n / p % 256 * p + n % p + 256 * p * (n / p / 256) =
          omega (arith, div-add-mod n p, ap (λ (t : ℕ). p * t) (div-add-mod (n / p) 256)) in
        let low : n / p % 256 * p + n % p < 256 * p =
          omega (arith, mod-lt n {m = p} pos, mul-le-mul_right p (last_digit (n / p))) in
        rw e (
          sym (
            ap (λ (t : ℕ). t % (256 * p)) split
            ∙ add-mul-mod_self_left _ (256 * p) (n / p / 256)
            ∙ mod-eq_of_lt low))

pub from_bytes-to_bytes : (size n : ℕ) → n < 256 ^ size → from_bytes (to_bytes size n) ≡ n
from_bytes-to_bytes size n h = from_bytes-to_bytes_mod size n ∙ mod-eq_of_lt h

pub from_bytes-lt : (bs : List ℕ) → All IsByte bs → from_bytes bs < 256 ^ length bs
unfolding from_bytes
from_bytes-lt [] h = omega arith
from_bytes-lt (b ∷ bs) h =
    rw (pow-succ' 256 (length bs))
      (omega (arith, from_bytes-lt bs h.1, mul-le-mul_right (256 ^ length bs) (le_of_byte b h.0)))
  where
    le_of_byte : (b : ℕ) → b < 256 → b ≤ 255
    le_of_byte b h = omega arith

to_bytes-add : (size n k : ℕ) → to_bytes size (n + 256 ^ size * k) ≡ to_bytes size n
unfolding to_bytes
to_bytes-add zero n k = refl
to_bytes-add (suc size) n k =
    let e : 256 ^ suc size * k ≡ 256 ^ size * (256 * k) =
      omega (arith, ap (λ (t : ℕ). t * k) (pow-succ' 256 size)) in
    rw (e, to_bytes-add size n (256 * k), add-mul-div_left n (256 * k) (pow256_pos size))
      (ap (λ (d : ℕ). d ∷ to_bytes size n) (omega arith))

-- Bytes that are read and written again are as they were.
pub to_bytes-from_bytes : (bs : List ℕ) → All IsByte bs → to_bytes (length bs) (from_bytes bs) ≡ bs
unfolding to_bytes from_bytes
to_bytes-from_bytes [] h = refl
to_bytes-from_bytes (b ∷ bs) h =
    let e : b * 256 ^ length bs + from_bytes bs ≡ from_bytes bs + 256 ^ length bs * b =
      omega arith in
    rw
      (
        e,
        to_bytes-add (length bs) (from_bytes bs) b,
        add-mul-div_left (from_bytes bs) b (pow256_pos (length bs)),
        div-eq_of_lt (from_bytes-lt bs h.1),
        to_bytes-from_bytes bs h.1,
      )
      (ap (λ (d : ℕ). d ∷ bs) (omega (arith, h.0)))
