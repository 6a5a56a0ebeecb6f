-- ===== src/Python.antt =====
-- Python's exceptions as values: a call that may raise returns a `Result`.
use sector_blockchain.Prelude.{
  ℕ, ◌-◌, ◌/◌, ◌%◌, ◌^◌, ◌<◌, ◌≡◌, refl, ◌⊎◌, inl, inr, Bool, true, false, arith, ltb, ◌==◌,
  if◌then◌else◌,
}

pub data Exc : Type 0 where
  value_error assertion_error key_error index_error zero_division set_error integrity_error
        struct_error :
      Exc
  -- `SetError` is the one of util/merkle_set.py, `IntegrityError` the one of sqlite3,
  -- `struct.error` the one of struct; the last is no exception: the fuel of a modelled loop ran out
  out_of_fuel : Exc

pub data Result {ℓ} (A : Type ℓ) : Type ℓ where
  ok : A → Result A
  raise : Exc → Result A

-- Running `next` on what a call returns; what it raises passes through.
infixl 5 ◌>>=◌
abbrev pub ◌>>=◌ {κ ℓ} :
    {A : Type κ} {B : Type ℓ} (call : Result A) (next : A → Result B) → Result B
raise exc >>= next = raise exc
ok returned >>= next = next returned

-- `if not b: raise e`, and `assert b`
abbrev pub require : (b : Bool) (exc : Exc) → Result (Unit {0})
require false exc = raise exc
require true exc = ok tt

infixl 5 ◌>>◌
abbrev pub ◌>>◌ {ℓ} : {B : Type ℓ} (statement : Result (Unit {0})) (next : Result B) → Result B
statement >> next = statement >>= λ unit. next

abbrev pub assert : Bool → Result (Unit {0})
assert b = require b assertion_error

-- The constructor of `util/ints.py` for an unsigned integer of `w` bits, at a value that is not
-- negative.
abbrev pub uint : ℕ → ℕ → Result ℕ
uint w n = if ltb n (2 ^ w) then ok n else raise value_error

-- The same at `a - b`, a Python integer that may be negative.
abbrev pub uint_sub : ℕ → ℕ → ℕ → Result ℕ
uint_sub w a b = if ltb a b then raise value_error else uint w (a - b)

-- `a // b` and `a % b`
abbrev pub floor_div : ℕ → ℕ → Result ℕ
floor_div a b = if b == 0 then raise zero_division else ok (a / b)

abbrev pub modulo : ℕ → ℕ → Result ℕ
modulo a b = if b == 0 then raise zero_division else ok (a % b)

pub uint_lem : (w n : ℕ) {m : ℕ} → uint w n ≡ ok m → (m ≡ n) × (n < 2 ^ w)
uint_lem w n h = ground arith

-- A call and what runs behind it return: so does the call alone, and the rest from what it returned.
pub >>=-eq-ok {κ ℓ} :
    {A : Type κ} {B : Type ℓ} (call : Result A) (next : A → Result B) {final : B}
    → (call >>= next) ≡ ok final
    → (returned : A) × (call ≡ ok returned) × (next returned ≡ ok final)
>>=-eq-ok (raise exc) next e = cc
>>=-eq-ok (ok returned) next e = (returned, refl, e)

pub Result-cases {ℓ} :
    {A : Type ℓ} (r : Result A) → ((a : A) × (r ≡ ok a)) ⊎ ((e : Exc) × (r ≡ raise e))
Result-cases (ok a) = inl (a, refl)
Result-cases (raise e) = inr (e, refl)
