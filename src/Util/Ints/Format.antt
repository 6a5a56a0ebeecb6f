-- ===== src/Util/Ints/Format.antt =====
-- The formats of sector/util/ints.py, and what the standard library packs and unpacks.
use sector_blockchain.Prelude.Int.{ℤ, pos, negsuc}
use sector_blockchain.Prelude.{ℕ, ◌-◌, ◌*◌, ◌^◌, Bool, true, false, ltb, ◌==◌, List, if◌then◌else◌}
use sector_blockchain.Python.{Result, ok, raise, struct_error}
use sector_blockchain.Util.Ints.Bytes.{to_bytes, from_bytes}

-- A struct format with one integer, big-endian: `PACK`.
pub record Format : Type 0 where
  pub size : ℕ
  pub signed : Bool

abbrev pub int8 : Format
int8 = record { size = 1; signed = true }

abbrev pub uint8 : Format
uint8 = record { size = 1; signed = false }

abbrev pub int16 : Format
int16 = record { size = 2; signed = true }

abbrev pub uint16 : Format
uint16 = record { size = 2; signed = false }

abbrev pub int32 : Format
int32 = record { size = 4; signed = true }

abbrev pub uint32 : Format
uint32 = record { size = 4; signed = false }

abbrev pub int64 : Format
int64 = record { size = 8; signed = true }

abbrev pub uint64 : Format
uint64 = record { size = 8; signed = false }

-- Whether the standard library packs the value in `size` bytes.
unfoldable pub in_range : ℕ → Bool → ℤ → Bool
in_range size true (pos n) = ltb (2 * n) (256 ^ size)
in_range size true (negsuc n) = ltb (2 * n) (256 ^ size)
in_range size false (pos n) = ltb n (256 ^ size)
in_range size false (negsuc n) = false

-- `int.to_bytes` and `int.from_bytes`: two's complement where the integer is signed.
unfoldable pub encode : ℕ → ℤ → List ℕ
encode size (pos n) = to_bytes size n
encode size (negsuc n) = to_bytes size (256 ^ size - 1 - n)

unfoldable pub decode : ℕ → Bool → List ℕ → ℤ
decode size true bytes =
    let u = from_bytes bytes in
    if ltb (2 * u) (256 ^ size) then pos u else negsuc (256 ^ size - 1 - u)
decode size false bytes = pos (from_bytes bytes)

-- `==` on Python's integers.
unfoldable pub int_eq : ℤ → ℤ → Bool
int_eq (pos m) (pos n) = m == n
int_eq (pos m) (negsuc n) = false
int_eq (negsuc m) (pos n) = false
int_eq (negsuc m) (negsuc n) = m == n

-- `struct.pack` raises a `struct.error` where the value does not fit.
unfoldable pub struct_pack : Format → ℤ → Result (List ℕ)
struct_pack f value =
    if in_range f.size f.signed value then ok (encode f.size value) else raise struct_error
