-- ===== src/Util/Ints/RoundTrip.antt =====
-- Integers survive the way to bytes and back.
use mathlib.Core.Path.{subst}
use native.Mathlib.Nat.{pow-succ'}
use sector_blockchain.Prelude.Int.{ℤ, pos, negsuc, abs}
use sector_blockchain.Prelude.{
  ℕ, zero, suc, ◌-◌, ◌*◌, ◌^◌, ◌<◌, ◌≡◌, refl, sym, ap, ◌∙◌, arith, Bool, true, false, ltb, ◌==◌,
  List, [], ◌∷◌, ◌++◌, length, take, drop, take-length, drop-length, take-append-drop, All,
  if◌then◌else◌, Bool-cases, ==_iff, lt→ltb, ==_refl, inl, inr,
}
use sector_blockchain.Python.{ok, raise, value_error}
use sector_blockchain.Util.Ints.Format.{Format, in_range, encode, decode, int_eq, struct_pack}
use sector_blockchain.Util.Ints.Bytes.{
  to_bytes, from_bytes, IsByte, length-to_bytes, from_bytes-to_bytes, to_bytes-from_bytes,
  from_bytes-lt, pow256_pos,
}
use sector_blockchain.Util.Ints.StructStream
use sector_blockchain.Util.Ints.UInt128
use sector_blockchain.Util.Ints.Int512

pub length-encode : (size : ℕ) (v : ℤ) → length (encode size v) ≡ size
unfolding encode
length-encode size (pos n) = length-to_bytes size n
length-encode size (negsuc n) = length-to_bytes size _

-- What the standard library packs, it unpacks to the same integer.
pub decode-encode :
    (size : ℕ) (signed : Bool) (v : ℤ)
    → 0 < size
    → in_range size signed v ≡ true
    → decode size signed (encode size v) ≡ v
unfolding in_range encode decode
decode-encode size true (pos n) p h =
    rw (from_bytes-to_bytes size n (ground arith)) (ground (arith, h))
decode-encode zero true (negsuc n) p h = absurd (omega arith)
decode-encode (suc k) true (negsuc n) p h =
    rw (from_bytes-to_bytes (suc k) (256 ^ suc k - 1 - n) (ground (arith, pow256_pos (suc k))))
      (ground (arith, h, pow-succ' 256 k))
decode-encode size false (pos n) p h = ap pos (from_bytes-to_bytes size n (ground arith))
decode-encode size false (negsuc n) p h = cc

int_eq_refl : (v : ℤ) → int_eq v v ≡ true
unfolding int_eq
int_eq_refl (pos n) = ground arith
int_eq_refl (negsuc n) = ground arith

-- The constructor takes exactly the integers of its range, and raises a ValueError at any other.
pub new-in_range :
    (f : Format) (v : ℤ)
    → 0 < f.size
    → StructStream.new f v ≡ (if in_range f.size f.signed v then ok v else raise value_error)
new-in_range f v p = elim (Bool-cases (in_range f.size f.signed v)) [
  | inl yes_fits ↦
      unfold StructStream.new struct_pack in
      rw yes_fits (rw (decode-encode f.size f.signed v p yes_fits, int_eq_refl) refl)
  | inr not_fits ↦ unfold StructStream.new struct_pack in rw not_fits
]

parse-encode :
    (f : Format) (v : ℤ) (rest : List ℕ)
    → 0 < f.size
    → in_range f.size f.signed v ≡ true
    → StructStream.parse f (encode f.size v ++ rest) ≡ ok (v, rest)
unfolding StructStream.parse
parse-encode f v rest p h =
    rw
      (
        take-length f.size (encode f.size v) rest (length-encode f.size v),
        drop-length f.size (encode f.size v) rest (length-encode f.size v),
        length-encode f.size v,
        ==_refl f.size,
        decode-encode f.size f.signed v p h,
        new-in_range f v p,
        h,
      )
      refl

-- An integer that the constructor takes is streamed, and parsed back from the front of a file with
-- whatever follows left.
pub parse-stream :
    (f : Format) (v : ℤ) (rest : List ℕ)
    → 0 < f.size
    → in_range f.size f.signed v ≡ true
    → (bytes : List ℕ) × (StructStream.stream f v ≡ ok bytes)
      × (length bytes ≡ f.size)
      × (StructStream.parse f (bytes ++ rest) ≡ ok (v, rest))
parse-stream f v rest p h = (
  encode f.size v,
  unfold StructStream.stream struct_pack in rw h,
  length-encode f.size v,
  parse-encode f v rest p h,
)

encode-decode :
    (size : ℕ) (signed : Bool) (bs : List ℕ)
    → length bs ≡ size
    → All IsByte bs
    → (encode size (decode size signed bs) ≡ bs)
      × (in_range size signed (decode size signed bs) ≡ true)
unfolding encode decode in_range
encode-decode size true bs e h =
    let whole : to_bytes size (from_bytes bs) ≡ bs =
      subst (λ k. to_bytes k (from_bytes bs) ≡ bs) e (to_bytes-from_bytes bs h) in
    let lt : from_bytes bs < 256 ^ size =
      subst (λ k. from_bytes bs < 256 ^ k) e (from_bytes-lt bs h) in
    elim (Bool-cases (ltb (2 * from_bytes bs) (256 ^ size))) [
      | inl small ↦ rw small (whole, small)
      | inr large ↦
          let back : 256 ^ size - 1 - (256 ^ size - 1 - from_bytes bs) ≡ from_bytes bs =
            omega arith in
          rw (large, back) (whole, ground (arith, large))
    ]
encode-decode size false bs e h = (
  subst (λ k. to_bytes k (from_bytes bs) ≡ bs) e (to_bytes-from_bytes bs h),
  lt→ltb _ _ (subst (λ k. from_bytes bs < 256 ^ k) e (from_bytes-lt bs h)),
)

take-IsByte : (n : ℕ) (xs : List ℕ) → All IsByte xs → All IsByte (take n xs)
take-IsByte zero xs h = tt
take-IsByte (suc n) [] h = tt
take-IsByte (suc n) (x ∷ xs) h = (h.0, take-IsByte n xs h.1)

-- What a parse that succeeds has read.
parse_inv :
    (f : Format) (file rest : List ℕ) (v : ℤ)
    → 0 < f.size
    → All IsByte file
    → StructStream.parse f file ≡ ok (v, rest)
    → (length (take f.size file) ≡ f.size)
      × (v ≡ decode f.size f.signed (take f.size file))
      × (rest ≡ drop f.size file)
unfolding StructStream.parse
parse_inv f file rest v p h e = elim (Bool-cases (length (take f.size file) == f.size)) [
  | inr short ↦ absurd (cc (rw short at e))
  | inl full ↦
      let len = (==_iff _ _).0 full in
      let (_, fits) =
        encode-decode f.size f.signed (take f.size file) len (take-IsByte f.size file h) in
      let e' : ok (decode f.size f.signed (take f.size file), drop f.size file) ≡ ok (v, rest) =
        rw (full, new-in_range f (decode f.size f.signed (take f.size file)) p, fits) at e in
      (len, cc e', cc e')
]

-- Where a parse of bytes succeeds, the integer streams to the bytes that were read, which with the
-- bytes left are the file.
pub stream-parse :
    (f : Format) (file rest : List ℕ) (v : ℤ)
    → 0 < f.size
    → All IsByte file
    → StructStream.parse f file ≡ ok (v, rest)
    → (bytes : List ℕ) × (StructStream.stream f v ≡ ok bytes) × (file ≡ bytes ++ rest)
stream-parse f file rest v p h e =
    let (len, ev, er) = parse_inv f file rest v p h e in
    let (same, fits) =
      encode-decode f.size f.signed (take f.size file) len (take-IsByte f.size file h) in
    (
      take f.size file,
      unfold StructStream.stream struct_pack in rw (ev, fits, same) refl,
      take-append-drop f.size file ∙ ap (λ (t : List ℕ). take f.size file ++ t) (sym er),
    )

-- A `uint128` below 2 ** 128 is streamed, and parsed back from the front of a file with whatever
-- follows left.
pub uint128_parse-stream :
    (n : ℕ) (rest : List ℕ)
    → n < 2 ^ 128
    → (bytes : List ℕ) × (UInt128.stream (pos n) ≡ ok bytes)
      × (UInt128.parse (bytes ++ rest) ≡ ok (pos n, rest))
uint128_parse-stream n rest h =
    let v = pos n in
    let fits : in_range 16 false v ≡ true = unfold in_range in ground (arith, h) in
    (
      encode 16 v,
      unfold UInt128.stream in ground (arith, fits),
      unfold UInt128.parse UInt128.new in
          rw
            (
              take-length 16 (encode 16 v) rest (length-encode 16 v),
              drop-length 16 (encode 16 v) rest (length-encode 16 v),
              length-encode 16 v,
              decode-encode 16 false v (omega arith) fits,
              fits,
            )
            refl,
    )

within→in_range : (v : ℤ) → Int512.within v ≡ true → in_range 65 true v ≡ true
unfolding Int512.within in_range
within→in_range (pos n) h = ground arith
within→in_range (negsuc n) h = ground arith

within_lt : (v : ℤ) → abs v < 2 ^ 512 → Int512.within v ≡ true
unfolding Int512.within
within_lt (pos n) h = ground (arith, h)
within_lt (negsuc n) h = ground (arith, h)

-- `int512` takes an integer whose absolute value is below 2 ** 512, streams it in 65 bytes and
-- parses it back.
pub int512_parse-stream :
    (v : ℤ) (rest : List ℕ)
    → abs v < 2 ^ 512
    → (bytes : List ℕ) × (Int512.new v ≡ ok v)
      × (Int512.stream v ≡ ok bytes)
      × (length bytes ≡ 65)
      × (Int512.parse (bytes ++ rest) ≡ ok (v, rest))
int512_parse-stream v rest small =
    let inside = within_lt v small in
    let fits = within→in_range v inside in
    (
      encode 65 v,
      unfold Int512.new in rw inside refl,
      unfold Int512.stream in rw inside refl,
      length-encode 65 v,
      unfold Int512.parse Int512.new in
          rw
            (
              take-length 65 (encode 65 v) rest (length-encode 65 v),
              drop-length 65 (encode 65 v) rest (length-encode 65 v),
              length-encode 65 v,
              decode-encode 65 true v (omega arith) fits,
              inside,
            )
            refl,
    )
