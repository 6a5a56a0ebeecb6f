-- ===== src/Util/Ints/UInt128.antt =====
-- sector/util/ints.py: `uint128`.
use sector_blockchain.Prelude.Int.{ℤ}
use sector_blockchain.Prelude.{ℕ, false, ◌==◌, List, length, take, drop, if◌then◌else◌}
use sector_blockchain.Python.{Result, ok, raise, value_error, assert, ◌>>=◌, ◌>>◌}
use sector_blockchain.Util.Ints.Format.{in_range, encode, decode}

unfoldable pub new : ℤ → Result ℤ
new value = if in_range 16 false value then ok value else raise value_error

unfoldable pub parse : List ℕ → Result (ℤ × List ℕ)
parse file = do
  let read_bytes = take 16 file
  assert (length read_bytes == 16)
  let n = decode 16 false read_bytes
  assert (in_range 16 false n)
  v ← new n
  ok (v, drop 16 file)

unfoldable pub stream : ℤ → Result (List ℕ)
stream v = do assert (in_range 16 false v); ok (encode 16 v)
