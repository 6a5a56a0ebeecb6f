-- ===== src/Util/Streamable/RoundTrip.antt =====
-- sector/util/streamable.py: what is streamed is parsed back, whatever the annotation.
use sector_blockchain.Prelude.Int.{ℤ, pos, abs}
use sector_blockchain.Prelude.{
  ℕ, ◌^◌, ◌<◌, ◌≡◌, refl, sym, ap, ◌∙◌, Bool, true, false, none, some, List, [], ◌∷◌, ◌++◌, length,
  take-length, drop-length, All, if◌then◌else◌, lt→ltb, ==_refl,
}
use mathlib.Core.Path.{subst}
use mathlib.Core.List.{append_assoc, append-nil}
use sector_blockchain.Python.{Result, ok, ◌>>=◌}
use sector_blockchain.Util.Ints.Format.{Format, in_range}
use sector_blockchain.Util.Ints.Bytes.{to_bytes, length-to_bytes, from_bytes-to_bytes}
use sector_blockchain.Util.Ints.StructStream
use sector_blockchain.Util.Ints.UInt128
use sector_blockchain.Util.Ints.Int512
use sector_blockchain.Util.Ints.RoundTrip.{parse-stream, uint128_parse-stream, int512_parse-stream}
use sector_blockchain.Util.Streamable.{
  Ty, bool, bytes, str, uint128, int512, int_type, sized_bytes, optional, list_of, tuple, struct,
  Tys, end, field, write_size, read_size, read_exactly, parse_bool, parse_bytes, parse_items,
  parse_list, parse_optional, stream_items, Val, Vals, parse_str, parse_item, parse_fields,
  stream_one_item, stream, from_bytes_of,
}

read-write_size :
    (n : ℕ) (rest : List ℕ)
    → n < 2 ^ 32
    → (write_size n ≡ ok (to_bytes 4 n)) × (read_size (to_bytes 4 n ++ rest) ≡ ok (n, rest))
unfolding write_size read_size
read-write_size n rest h =
    let l = length-to_bytes 4 n in
    (
      rw (lt→ltb n (2 ^ 32) h) refl,
      rw
          (
            take-length 4 (to_bytes 4 n) rest l,
            drop-length 4 (to_bytes 4 n) rest l,
            l,
            from_bytes-to_bytes 4 n h,
            lt→ltb n (2 ^ 32) h,
          )
          refl,
    )

read_exactly-append :
    (n : ℕ) (b rest : List ℕ) → length b ≡ n → read_exactly n (b ++ rest) ≡ ok (b, rest)
unfolding read_exactly
read_exactly-append n b rest e =
    rw (take-length n b rest e, drop-length n b rest e, e, ==_refl n) refl

-- What a stream writes for a value, a parse reads back from the front of any file.
abbrev Reads : {A : Type 0} → Result (List ℕ) → (List ℕ → Result (A × List ℕ)) → A → Type 0
Reads {A} written parse v =
    (b : List ℕ) × (written ≡ ok b) × ((rest : List ℕ) → parse (b ++ rest) ≡ ok (v, rest))

Reads-each :
    {A : Type 0} (written : Result (List ℕ)) (parse : List ℕ → Result (A × List ℕ)) (v : A)
    → ((rest : List ℕ) → (b : List ℕ) × (written ≡ ok b) × (parse (b ++ rest) ≡ ok (v, rest)))
    → Reads written parse v
Reads-each written parse v each =
    let (b, e, _) = each [] in
    (
      b,
      e,
      λ rest.
          let (c, f, r) = each rest in
          let same : c ≡ b = cc (e, f) in
          subst (λ (x : List ℕ). parse (x ++ rest) ≡ ok (v, rest)) same r,
    )

int-Reads :
    (f : Format) (v : ℤ)
    → 0 < f.size
    → in_range f.size f.signed v ≡ true
    → Reads (StructStream.stream f v) (StructStream.parse f) v
int-Reads f v p h =
    Reads-each (StructStream.stream f v) (StructStream.parse f) v
      (λ rest. let (b, e, _, r) = parse-stream f v rest p h in (b, e, r))

uint128-Reads : (v : ℤ) (n : ℕ) → v ≡ pos n → n < 2 ^ 128 → Reads (UInt128.stream v) UInt128.parse v
uint128-Reads v n e h = rw e (
    Reads-each (UInt128.stream (pos n)) UInt128.parse (pos n)
      (λ rest. uint128_parse-stream n rest h))

int512-Reads : (v : ℤ) → abs v < 2 ^ 512 → Reads (Int512.stream v) Int512.parse v
int512-Reads v h =
    Reads-each (Int512.stream v) Int512.parse v
      (λ rest. let (b, _, e, _, r) = int512_parse-stream v rest h in (b, e, r))

bool-Reads : (v : Bool) → Reads (ok ((if v then 1 else 0) ∷ [])) parse_bool v
unfolding parse_bool
bool-Reads true = (1 ∷ [], refl, λ rest. refl)
bool-Reads false = (0 ∷ [], refl, λ rest. refl)

bytes-Reads :
    (b : List ℕ)
    → length b < 2 ^ 32
    → Reads (write_size (length b) >>= λ size. ok (size ++ b)) parse_bytes b
unfolding parse_bytes
bytes-Reads b h = (
  to_bytes 4 (length b) ++ b,
  rw ((read-write_size (length b) [] h).0) refl,
  λ rest.
      rw (append_assoc (to_bytes 4 (length b)) b rest, (read-write_size (length b) (b ++ rest) h).1)
        (read_exactly-append (length b) b rest refl),
)

module _ {A : Type 0} (parse_inner : List ℕ → Result (A × List ℕ))
    (stream_inner : A → Result (List ℕ)) where
  items-Reads :
      (xs : List A)
      → All (λ x. Reads (stream_inner x) parse_inner x) xs
      → Reads (stream_items stream_inner xs) (parse_items (length xs) parse_inner) xs
  unfolding stream_items parse_items
  items-Reads [] h = ([], refl, λ rest. refl)
  items-Reads (x ∷ xs) ((a, ea, ra), h) =
      let (b, eb, rb) = items-Reads xs h in
      (a ++ b, rw (ea, eb) refl, λ rest. rw (append_assoc a b rest, ra (b ++ rest), rb rest) refl)

  list-Reads :
      (xs : List A)
      → length xs < 2 ^ 32
      → All (λ x. Reads (stream_inner x) parse_inner x) xs
      → Reads
          (write_size (length xs) >>= λ size. stream_items stream_inner xs >>= λ b. ok (size ++ b))
          (parse_list parse_inner)
          xs
  unfolding parse_list
  list-Reads xs h each =
      let (b, eb, rb) = items-Reads xs each in
      (
        to_bytes 4 (length xs) ++ b,
        rw ((read-write_size (length xs) [] h).0, eb) refl,
        λ rest.
            rw
              (
                append_assoc (to_bytes 4 (length xs)) b rest,
                (read-write_size (length xs) (b ++ rest) h).1,
              )
              (rb rest),
      )

  none-Reads : Reads (ok (0 ∷ [])) (parse_optional parse_inner) none
  unfolding parse_optional parse_bool
  none-Reads = (0 ∷ [], refl, λ rest. refl)

  optional-Reads :
      (x : A)
      → Reads (stream_inner x) parse_inner x
      → Reads (stream_inner x >>= λ b. ok (1 ∷ b)) (parse_optional parse_inner) (some x)
  unfolding parse_optional parse_bool
  optional-Reads x (a, ea, ra) = (1 ∷ a, rw ea refl, λ rest. rw (ra rest) refl)

All-map {ℓ κ μ} :
    {A : Type ℓ} {P : A → Type κ} {Q : A → Type μ}
    → ((x : A) → P x → Q x)
    → (xs : List A) → All P xs
    → All Q xs
All-map f [] h = tt
All-map f (x ∷ xs) (h, hs) = (f x h, All-map f xs hs)

module _ (Str : Type 0) (utf8 : Str → List ℕ) (decode_utf8 : List ℕ → Result Str) where
  -- The values that an object may hold: integers of their ranges, bytes of their sizes, and lengths
  -- that fit a `uint32`.
  unfoldable mutual
    unfolding Val

    pub IsValid : (t : Ty) → Val Str utf8 decode_utf8 t → Type 0
    IsValid bool v = Unit {0}
    IsValid bytes b = length b < 2 ^ 32
    IsValid str s = length (utf8 s) < 2 ^ 32
    IsValid uint128 v = (n : ℕ) × (v ≡ pos n) × (n < 2 ^ 128)
    IsValid int512 v = abs v < 2 ^ 512
    IsValid (int_type f) v = (0 < f.size) × (in_range f.size f.signed v ≡ true)
    IsValid (sized_bytes n) b = length b ≡ n
    IsValid (optional t) none = Unit {0}
    IsValid (optional t) (some x) = IsValid t x
    IsValid (list_of t) xs = (length xs < 2 ^ 32) × All (IsValid t) xs
    IsValid (tuple ts) xs = AreValid ts xs
    IsValid (struct ts) xs = AreValid ts xs

    pub AreValid : (ts : Tys) → Vals Str utf8 decode_utf8 ts → Type 0
    AreValid end xs = Unit {0}
    AreValid (field t ts) (x, xs) = IsValid t x × AreValid ts xs

  module _ (codec : (s : Str) → decode_utf8 (utf8 s) ≡ ok s) where
    str-Reads :
        (s : Str)
        → length (utf8 s) < 2 ^ 32
        → Reads
            (write_size (length (utf8 s)) >>= λ size. ok (size ++ utf8 s))
            (parse_str Str utf8 decode_utf8)
            s
    unfolding parse_str
    str-Reads s h =
        let (b, e, r) = bytes-Reads (utf8 s) h in (b, e, λ rest. rw (r rest, codec s) refl)

    mutual
      unfolding Val parse_item stream_one_item IsValid

      item-Reads :
          (t : Ty) (v : Val Str utf8 decode_utf8 t)
          → IsValid t v
          → Reads (stream_one_item Str utf8 decode_utf8 t v) (parse_item Str utf8 decode_utf8 t) v
      item-Reads bool true h = bool-Reads true
      item-Reads bool false h = bool-Reads false
      item-Reads bytes b h = bytes-Reads b h
      item-Reads str s h = str-Reads s h
      item-Reads uint128 v (n, e, h) = uint128-Reads v n e h
      item-Reads int512 v h = int512-Reads v h
      item-Reads (int_type f) v (p, h) = int-Reads f v p h
      item-Reads (sized_bytes n) b h = (b, refl, λ rest. read_exactly-append n b rest h)
      item-Reads (optional t) none h =
          none-Reads (parse_item Str utf8 decode_utf8 t) (stream_one_item Str utf8 decode_utf8 t)
      item-Reads (optional t) (some x) h =
          optional-Reads (parse_item Str utf8 decode_utf8 t)
            (stream_one_item Str utf8 decode_utf8 t) x (item-Reads t x h)
      item-Reads (list_of t) xs (n, h) =
          list-Reads (parse_item Str utf8 decode_utf8 t) (stream_one_item Str utf8 decode_utf8 t) xs
            n (All-map (λ x q. item-Reads t x q) xs h)
      item-Reads (tuple ts) xs h = fields-Reads ts xs h
      item-Reads (struct ts) xs h = fields-Reads ts xs h

      fields-Reads :
          (ts : Tys) (xs : Vals Str utf8 decode_utf8 ts)
          → AreValid ts xs
          → Reads (stream Str utf8 decode_utf8 ts xs) (parse_fields Str utf8 decode_utf8 ts) xs
      fields-Reads end xs h = ([], refl, λ rest. refl)
      fields-Reads (field t ts) (x, xs) (hx, h) =
          let (a, ea, ra) = item-Reads t x hx in
          let (b, eb, rb) = fields-Reads ts xs h in
          (
            a ++ b,
            rw (ea, eb) refl,
            λ rest. rw (append_assoc a b rest, ra (b ++ rest), rb rest) refl,
          )

    -- An object whose fields hold valid values is streamed, and `from_bytes` gives it back from its
    -- bytes, where the codec of strings gives back what it encodes.
    pub from_bytes-stream :
        (ts : Tys) (xs : Vals Str utf8 decode_utf8 ts)
        → AreValid ts xs
        → (b : List ℕ) × (stream Str utf8 decode_utf8 ts xs ≡ ok b)
          × (from_bytes_of Str utf8 decode_utf8 ts b ≡ ok xs)
    unfolding from_bytes_of
    from_bytes-stream ts xs h =
        let (b, e, r) = fields-Reads ts xs h in
        let whole : parse_fields Str utf8 decode_utf8 ts b ≡ ok (xs, []) =
          ap (parse_fields Str utf8 decode_utf8 ts) (sym (append-nil b)) ∙ r [] in
        (b, e, rw whole refl)

    -- If the bytes of an object begin with those of an object of the same class, the two objects are
    -- equal and nothing is left: different objects have different bytes.
    pub stream-prefix_free :
        (ts : Tys) (xs ys : Vals Str utf8 decode_utf8 ts) (b c r : List ℕ)
        → AreValid ts xs
        → AreValid ts ys
        → stream Str utf8 decode_utf8 ts xs ≡ ok b
        → stream Str utf8 decode_utf8 ts ys ≡ ok c
        → b ≡ c ++ r
        → (xs ≡ ys) × (r ≡ [])
    stream-prefix_free ts xs ys b c r hx hy ex ey same =
        let (b', e, rb) = fields-Reads ts xs hx in
        let (c', f, rc) = fields-Reads ts ys hy in
        let eb : b' ≡ b = cc (e, ex) in
        let ec : c' ≡ c = cc (f, ey) in
        let one : parse_fields Str utf8 decode_utf8 ts b ≡ ok (xs, []) =
          ap (parse_fields Str utf8 decode_utf8 ts)
            (sym (append-nil b) ∙ ap (λ (t : List ℕ). t ++ []) (sym eb))
          ∙ rb [] in
        let two : parse_fields Str utf8 decode_utf8 ts b ≡ ok (ys, r) =
          ap (parse_fields Str utf8 decode_utf8 ts) (same ∙ ap (λ (t : List ℕ). t ++ r) (sym ec))
          ∙ rc r in
        (cc (one, two), cc (one, two))
