-- ===== src/Util/Ints/StructStream.antt =====
-- sector/util/struct_stream.py: the class under the integers of a struct format.
use sector_blockchain.Prelude.Int.{ℤ}
use sector_blockchain.Prelude.{ℕ, ◌==◌, List, length, take, drop, if◌then◌else◌}
use sector_blockchain.Python.{Result, ok, raise, value_error, assert, ◌>>=◌, ◌>>◌}
use sector_blockchain.Util.Ints.Format.{Format, decode, int_eq, struct_pack}

-- `except Exception: raise ValueError`
abbrev pub or_value_error : Result ℤ → Result ℤ
or_value_error (raise exc) = raise value_error
or_value_error (ok v) = ok v

-- `__new__`
unfoldable pub new : Format → ℤ → Result ℤ
new f value = or_value_error (do
  bytes ← struct_pack f value
  let v1 = decode f.size f.signed bytes
  if int_eq value v1 then ok value else raise value_error)

unfoldable pub parse : Format → List ℕ → Result (ℤ × List ℕ)
parse f file = do
  let read_bytes = take f.size file
  assert (length read_bytes == f.size)
  v ← new f (decode f.size f.signed read_bytes)
  ok (v, drop f.size file)

-- The bytes that are written.
unfoldable pub stream : Format → ℤ → Result (List ℕ)
stream f v = struct_pack f v

unfoldable pub from_blob : Format → List ℕ → Result ℤ
from_blob f blob = do (v, rest) ← parse f blob; assert (length rest == 0); ok v
