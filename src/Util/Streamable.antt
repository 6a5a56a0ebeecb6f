-- ===== src/Util/Streamable.antt =====
-- sector/util/streamable.py: the serialization of a class of typed fields.
-- A field's annotation is a type `Ty`, and `Val` its values. Strings are a parameter with their UTF-8
-- codec; the types of `size_hints` are not modelled. A file is the list of the bytes that are left.
pub mod RoundTrip
use sector_blockchain.Prelude.Int.{ℤ}
use sector_blockchain.Prelude.{
  ℕ, zero, suc, ◌^◌, ◌<◌, ◌≡◌, Bool, true, false, ltb, ◌==◌, Option, none, some, List, [], ◌∷◌,
  ◌++◌, length, take, drop, All, if◌then◌else◌,
}
use sector_blockchain.Python.{
  Result, ok, raise, value_error, assertion_error, assert, uint, ◌>>=◌, ◌>>◌,
}
use sector_blockchain.Util.Ints.Format.{Format}
use sector_blockchain.Util.Ints.Bytes.{to_bytes, from_bytes}
use sector_blockchain.Util.Ints.StructStream
use sector_blockchain.Util.Ints.UInt128
use sector_blockchain.Util.Ints.Int512

-- The annotations; `struct` is a class of fields, `int_type` a class of util/ints.py.
mutual
  pub data Ty : Type 0 where
    bool bytes str uint128 int512 : Ty
    int_type : Format → Ty
    sized_bytes : ℕ → Ty
    optional : Ty → Ty
    list_of : Ty → Ty
    tuple : Tys → Ty
    struct : Tys → Ty

  pub data Tys : Type 0 where
    end : Tys
    field : Ty → Tys → Tys

-- The prefix of a length, and a read of it.
unfoldable pub write_size : ℕ → Result (List ℕ)
write_size n = do size ← uint 32 n; ok (to_bytes 4 size)

unfoldable pub read_size : List ℕ → Result (ℕ × List ℕ)
read_size f = do
  let size_bytes = take 4 f
  assert (length size_bytes == 4)
  size ← uint 32 (from_bytes size_bytes)
  ok (size, drop 4 f)

unfoldable pub read_exactly : ℕ → List ℕ → Result (List ℕ × List ℕ)
read_exactly n f = do
  let bytes_read = take n f
  assert (length bytes_read == n)
  ok (bytes_read, drop n f)

-- The byte before an optional, and `parse_bool`.
unfoldable pub parse_bool : List ℕ → Result (Bool × List ℕ)
parse_bool [] = raise assertion_error
parse_bool (b ∷ f) =
    if b == 0 then ok (false, f) else if b == 1 then ok (true, f) else raise value_error

unfoldable pub parse_bytes : List ℕ → Result (List ℕ × List ℕ)
unfolding read_size read_exactly
parse_bytes f = do (list_size, g) ← read_size f; read_exactly list_size g

module _ {A : Type 0} where
  -- `for list_index in range(list_size)`
  unfoldable pub parse_items :
      ℕ → (List ℕ → Result (A × List ℕ)) → List ℕ → Result (List A × List ℕ)
  parse_items zero parse_inner f = ok ([], f)
  parse_items (suc n) parse_inner f = do
    (x, g) ← parse_inner f
    (xs, h) ← parse_items n parse_inner g
    ok (x ∷ xs, h)

  unfoldable pub parse_list : (List ℕ → Result (A × List ℕ)) → List ℕ → Result (List A × List ℕ)
  unfolding read_size parse_items
  parse_list parse_inner f = do (list_size, g) ← read_size f; parse_items list_size parse_inner g

  unfoldable pub parse_optional :
      (List ℕ → Result (A × List ℕ)) → List ℕ → Result (Option A × List ℕ)
  unfolding parse_bool
  parse_optional parse_inner f = do
    (present, g) ← parse_bool f
    if present then (do (x, h) ← parse_inner g; ok (some x, h)) else ok (none, g)

  -- `for element in item`
  unfoldable pub stream_items : (A → Result (List ℕ)) → List A → Result (List ℕ)
  stream_items stream_inner [] = ok []
  stream_items stream_inner (x ∷ xs) = do
    a ← stream_inner x
    b ← stream_items stream_inner xs
    ok (a ++ b)

module _ (Str : Type 0) (utf8 : Str → List ℕ) (decode_utf8 : List ℕ → Result Str) where
  -- The values of a type, and those of the fields of a tuple or a class.
  unfoldable mutual
    pub Val : Ty → Type 0
    Val bool = Bool
    Val bytes = List ℕ
    Val str = Str
    Val uint128 = ℤ
    Val int512 = ℤ
    Val (int_type f) = ℤ
    Val (sized_bytes n) = List ℕ
    Val (optional t) = Option (Val t)
    Val (list_of t) = List (Val t)
    Val (tuple ts) = Vals ts
    Val (struct ts) = Vals ts

    pub Vals : Tys → Type 0
    Vals end = Unit {0}
    Vals (field t ts) = Val t × Vals ts

  unfoldable pub parse_str : List ℕ → Result (Str × List ℕ)
  parse_str f = do (b, g) ← parse_bytes f; s ← decode_utf8 b; ok (s, g)

  -- `function_to_parse_one_item`, and `parse` of a class.
  unfoldable mutual
    unfolding Val

    pub parse_item : (t : Ty) → List ℕ → Result (Val t × List ℕ)
    parse_item bool f = parse_bool f
    parse_item bytes f = parse_bytes f
    parse_item str f = parse_str f
    parse_item uint128 f = UInt128.parse f
    parse_item int512 f = Int512.parse f
    parse_item (int_type p) f = StructStream.parse p f
    parse_item (sized_bytes n) f = read_exactly n f
    parse_item (optional t) f = parse_optional (parse_item t) f
    parse_item (list_of t) f = parse_list (parse_item t) f
    parse_item (tuple ts) f = parse_fields ts f
    parse_item (struct ts) f = parse_fields ts f

    pub parse_fields : (ts : Tys) → List ℕ → Result (Vals ts × List ℕ)
    parse_fields end f = ok (tt, f)
    parse_fields (field t ts) f = do
      (x, g) ← parse_item t f
      (xs, h) ← parse_fields ts g
      ok ((x, xs), h)

  -- `stream_one_item`, and `stream` of a class.
  unfoldable mutual
    unfolding Val

    pub stream_one_item : (t : Ty) → Val t → Result (List ℕ)
    stream_one_item bool true = ok (1 ∷ [])
    stream_one_item bool false = ok (0 ∷ [])
    stream_one_item bytes b = do size ← write_size (length b); ok (size ++ b)
    stream_one_item str s = do size ← write_size (length (utf8 s)); ok (size ++ utf8 s)
    stream_one_item uint128 v = UInt128.stream v
    stream_one_item int512 v = Int512.stream v
    stream_one_item (int_type f) v = StructStream.stream f v
    stream_one_item (sized_bytes n) b = ok b
    stream_one_item (optional t) none = ok (0 ∷ [])
    stream_one_item (optional t) (some x) = do b ← stream_one_item t x; ok (1 ∷ b)
    stream_one_item (list_of t) xs = do
      size ← write_size (length xs)
      b ← stream_items (stream_one_item t) xs
      ok (size ++ b)
    stream_one_item (tuple ts) xs = stream ts xs
    stream_one_item (struct ts) xs = stream ts xs

    pub stream : (ts : Tys) → Vals ts → Result (List ℕ)
    stream end xs = ok []
    stream (field t ts) (x, xs) = do a ← stream_one_item t x; b ← stream ts xs; ok (a ++ b)

  -- `from_bytes` of a class: nothing may be left.
  unfoldable pub from_bytes_of : (ts : Tys) → List ℕ → Result (Vals ts)
  from_bytes_of ts blob = do (xs, rest) ← parse_fields ts blob; assert (length rest == 0); ok xs
