-- ===== src/Util/Ints/Int512.antt =====
-- sector/util/ints.py: `int512`.
use sector_blockchain.Prelude.Int.{ℤ, pos, negsuc}
use sector_blockchain.Prelude.{
  ℕ, ◌+◌, ◌^◌, Bool, true, ltb, ◌==◌, List, length, take, drop, if◌then◌else◌,
}
use sector_blockchain.Python.{Result, ok, raise, value_error, assert, ◌>>=◌, ◌>>◌}
use sector_blockchain.Util.Ints.Format.{encode, decode}

-- The range `-2 ** 512 < value < 2 ** 512`, one value less than 65 bytes would hold at each end
-- of 513 bits.
unfoldable pub within : ℤ → Bool
within (pos n) = ltb n (2 ^ 512)
within (negsuc n) = ltb (n + 1) (2 ^ 512)

unfoldable pub new : ℤ → Result ℤ
new value = if within value then ok value else raise value_error

unfoldable pub parse : List ℕ → Result (ℤ × List ℕ)
parse file = do
  let read_bytes = take 65 file
  assert (length read_bytes == 65)
  let n = decode 65 true read_bytes
  assert (within n)
  v ← new n
  ok (v, drop 65 file)

unfoldable pub stream : ℤ → Result (List ℕ)
stream v = do assert (within v); ok (encode 65 v)
