-- ===== src/Util/Tests.antt =====
-- Runs of the shared arithmetic, of the integer formats and of the set of hashes.
use sector_blockchain.Prelude.{
  ℕ, ◌+◌, ◌-◌, ◌^◌, ◌≤◌, ◌<◌, ◌≡◌, refl, arith, ◌==◌, ◌||◌, ◌&&◌, not, Option, some, true, List, [],
  ◌∷◌, ◌++◌, length,
}
use sector_blockchain.Prelude.Int.{pos, negsuc}
use sector_blockchain.Python.{Result, ok, raise, value_error}
use sector_blockchain.Util.SignificantBits.{
  truncate_to_significant_bits, count_significant_bits, bit_length,
}
use sector_blockchain.Util.SignificantBits.Truncate.{count-truncate}
use sector_blockchain.Util.Ints.StructStream
use sector_blockchain.Util.Ints.UInt128
use sector_blockchain.Util.Ints.Int512
use sector_blockchain.Util.Ints.Format.{int16, uint8, in_range, decode, encode, int_eq, struct_pack}
use sector_blockchain.Util.Ints.Bytes.{from_bytes, to_bytes}
use sector_blockchain.Util.Ints.RoundTrip.{
  new-in_range, parse-stream, stream-parse, uint128_parse-stream, int512_parse-stream,
}
use sector_blockchain.Util.MerkleSet.Node.{Node, empty, terminal, middle}
use sector_blockchain.Util.MerkleSet.Operations.{add, remove, or_self, is_included}
use sector_blockchain.Util.MerkleSet.Bits.{bit}
use sector_blockchain.Util.MerkleSet.Shape.{has, IsShaped}
use sector_blockchain.Util.MerkleSet.Added.{IsHash, add-IsShaped}
use sector_blockchain.Util.MerkleSet.Removed.{remove-IsShaped}
use sector_blockchain.Util.MerkleSet.Included.{is_included-has}
use sector_blockchain.Util.MerkleSet.Hash.{get_root}
use sector_blockchain.Util.MerkleSet.History.{
  Call, add_hash, remove_hash, run, held, run-held, get_root-held,
}
use sector_blockchain.Util.Streamable.{
  Tys, end, field, bool, str, optional, list_of, int_type, sized_bytes, Val, Vals, write_size,
  stream_items, stream, from_bytes_of,
}
use sector_blockchain.Util.LruCache.{LruCache, get, put}
use sector_blockchain.Util.LruCache.Keys.{AreDistinct}
use sector_blockchain.Util.LruCache.Size.{IsCache, get-put}
use sector_blockchain.Prelude.Dict.{lookup, has_key}
use sector_blockchain.Util.Streamable.RoundTrip.{
  IsValid, AreValid, from_bytes-stream, stream-prefix_free,
}

count-truncate_example :
    (t : ℕ) × (truncate_to_significant_bits (pos 1234567) 8 ≡ pos t)
    × (t ≤ 1234567)
    × (1234567 < t + 2 ^ (bit_length 1234567 - 8))
    × (count_significant_bits (pos t) ≤ 8)
count-truncate_example = count-truncate 1234567 8

new-in_range_example : StructStream.new uint8 (pos 256) ≡ raise value_error
unfolding in_range
new-in_range_example = new-in_range uint8 (pos 256) (omega arith)

parse-stream_example :
    (bytes : List ℕ) × (StructStream.stream int16 (negsuc 41) ≡ ok bytes)
    × (length bytes ≡ 2)
    × (StructStream.parse int16 (bytes ++ (7 ∷ [])) ≡ ok (negsuc 41, 7 ∷ []))
parse-stream_example =
    parse-stream int16 (negsuc 41) (7 ∷ []) (omega arith) (unfold in_range in refl)

read_200 : StructStream.parse uint8 (200 ∷ 9 ∷ []) ≡ ok (pos 200, 9 ∷ [])
unfolding StructStream.parse StructStream.new struct_pack in_range decode from_bytes int_eq encode
    to_bytes
read_200 = refl

stream-parse_example :
    (bytes : List ℕ) × (StructStream.stream uint8 (pos 200) ≡ ok bytes)
    × (◌≡◌ {A = List ℕ} (200 ∷ 9 ∷ []) (bytes ++ (9 ∷ [])))
stream-parse_example =
    stream-parse uint8 (200 ∷ 9 ∷ []) (9 ∷ []) (pos 200) (omega arith)
      (omega arith, (omega arith, tt)) read_200

uint128_parse-stream_example :
    (bytes : List ℕ) × (UInt128.stream (pos (2 ^ 100)) ≡ ok bytes)
    × (UInt128.parse (bytes ++ (1 ∷ [])) ≡ ok (pos (2 ^ 100), 1 ∷ []))
uint128_parse-stream_example = uint128_parse-stream (2 ^ 100) (1 ∷ []) (omega arith)

int512_parse-stream_example :
    (bytes : List ℕ) × (Int512.new (negsuc 99) ≡ ok (negsuc 99))
    × (Int512.stream (negsuc 99) ≡ ok bytes)
    × (length bytes ≡ 65)
    × (Int512.parse (bytes ++ []) ≡ ok (negsuc 99, []))
int512_parse-stream_example = int512_parse-stream (negsuc 99) [] (omega arith)

-- The hashes that are all zeros, and one followed by zeros.
abbrev two : Node
two = middle (terminal 0) (terminal (2 ^ 255))

two-IsShaped : IsShaped 0 IsHash two
unfolding IsShaped
two-IsShaped =
    (omega arith, (omega arith, unfold bit in refl), (omega arith, unfold bit in refl), omega arith)

add-IsShaped_example :
    (o : Option Node) × (add two 1 0 ≡ ok o)
    × IsShaped 0 IsHash (or_self two o)
    × ((z : ℕ) → has z (or_self two o) ≡ (1 == z || has z two))
add-IsShaped_example = add-IsShaped two 1 two-IsShaped (omega arith)

is_included-has_example : (proof : List ℕ) × (is_included (λ t. 5) two 3 0 ≡ ok (has 3 two, proof))
is_included-has_example = is_included-has (λ t. 5) two 3 two-IsShaped

remove-IsShaped_example :
    (o : Option Node) × (remove two 0 0 ≡ ok o)
    × IsShaped 0 IsHash (or_self two o)
    × ((z : ℕ) → has z (or_self two o) ≡ (not (0 == z) && has z two))
remove-IsShaped_example = remove-IsShaped two 0 two-IsShaped

abbrev calls : List Call
calls = add_hash 7 ∷ remove_hash 0 ∷ []

run-held_example :
    (u : Node) × (run (λ t. 5) calls two ≡ ok u)
    × IsShaped 0 IsHash u
    × ((z : ℕ) → has z u ≡ held calls (λ y. has y two) z)
run-held_example = run-held (λ t. 5) calls two (omega arith, (omega arith, tt)) two-IsShaped

-- The order of two insertions, and an insertion twice.
abbrev one_way : List Call
one_way = add_hash 7 ∷ add_hash 9 ∷ []

abbrev other_way : List Call
other_way = add_hash 9 ∷ add_hash 7 ∷ add_hash 9 ∷ []

get_root-held_example :
    (u : Node) × (v : Node) × (run (λ t. 5) one_way empty ≡ ok u)
    × (run (λ t. 5) other_way empty ≡ ok v)
    × (get_root (λ t. 5) u ≡ get_root (λ t. 5) v)
get_root-held_example =
    get_root-held (λ t. 5) one_way other_way (omega arith, (omega arith, tt))
      (omega arith, (omega arith, (omega arith, tt))) (λ z. unfold held in ground arith)

-- A class with a string, an optional flag, two numbers in a list and four bytes; a string is here the
-- list of its bytes.
abbrev fields : Tys
fields =
    field str (field (optional bool) (field (list_of (int_type uint8)) (field (sized_bytes 4) end)))

abbrev decode_bytes : List ℕ → Result (List ℕ)
decode_bytes b = ok b

abbrev object : Vals (List ℕ) (λ s. s) decode_bytes fields
unfolding Val
object = (104 ∷ 105 ∷ [], (some true, (pos 3 ∷ pos 200 ∷ [], (1 ∷ 2 ∷ 3 ∷ 4 ∷ [], tt))))

object-AreValid : AreValid (List ℕ) (λ s. s) decode_bytes fields object
unfolding IsValid Val object in_range
object-AreValid = (
  omega arith,
  (tt, ((omega arith, ((omega arith, refl), ((omega arith, refl), tt))), (refl, tt))),
)

abbrev object_bytes : List ℕ
object_bytes = 0 ∷ 0 ∷ 0 ∷ 2 ∷ 104 ∷ 105 ∷ 1 ∷ 1 ∷ 0 ∷ 0 ∷ 0 ∷ 2 ∷ 3 ∷ 200 ∷ 1 ∷ 2 ∷ 3 ∷ 4 ∷ []

object-stream : stream (List ℕ) (λ s. s) decode_bytes fields object ≡ ok object_bytes
unfolding stream object write_size stream_items StructStream.stream struct_pack in_range to_bytes
    encode
object-stream = refl

from_bytes-stream_example :
    (b : List ℕ) × (stream (List ℕ) (λ s. s) decode_bytes fields object ≡ ok b)
    × (from_bytes_of (List ℕ) (λ s. s) decode_bytes fields b ≡ ok object)
from_bytes-stream_example =
    from_bytes-stream (List ℕ) (λ s. s) decode_bytes (λ s. refl) fields object object-AreValid

stream-prefix_free_example : (object ≡ object) × (◌≡◌ {A = List ℕ} [] [])
stream-prefix_free_example =
    stream-prefix_free (List ℕ) (λ s. s) decode_bytes (λ s. refl) fields object object object_bytes
      object_bytes [] object-AreValid object-AreValid object-stream object-stream refl

-- A full cache for two entries.
abbrev two_entries : LruCache ℕ
two_entries = record { cache = (3, 30) ∷ (4, 40) ∷ []; capacity = 2 }

two_entries-IsCache : IsCache two_entries
unfolding AreDistinct has_key
two_entries-IsCache = record { distinct = (refl, (refl, tt)); fits = omega arith }

-- The older entry is read, so that the other one goes.
get-put_example :
    ((get 3 two_entries).0 ≡ some 30)
    × IsCache (get 3 two_entries).1
    × ((j : ℕ) → lookup j (get 3 two_entries).1.cache ≡ lookup j two_entries.cache)
    × (lookup 3 (put 5 50 (get 3 two_entries).1).cache ≡ some 30)
get-put_example =
    get-put 3 5 30 50 two_entries two_entries-IsCache (omega arith) (unfold lookup in refl) refl
