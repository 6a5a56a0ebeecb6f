-- ===== src/Util/LruCache/Size.antt =====
-- sector/util/lru_cache.py: a cache never grows past its capacity, and forgets what was longest unused.
use mathlib.Core.Path.{subst}
use sector_blockchain.Prelude.{
  ℕ, suc, ◌<◌, ◌≤◌, ◌≡◌, refl, sym, ap, ◌∙◌, arith, Bool, true, false, Bool-cases, inl, inr, ◌==◌,
  ◌&&◌, not, ltb, Option, none, some, [], ◌∷◌, ◌++◌, length, length-append, drop, ==_refl,
  if◌then◌else◌,
}
use sector_blockchain.Prelude.Dict.{
  Dict, lookup, has_key, insert, delete, lookup-delete, has_key-lookup,
}
use sector_blockchain.Util.LruCache.{LruCache, move_to_end, get, put}
use sector_blockchain.Util.LruCache.Keys.{
  AreDistinct, has_key-delete, delete-insert, delete-missing, length-delete, delete-AreDistinct,
  append-AreDistinct, lookup-append, lookup-missing,
}

module _ {V : Type 0} where
  -- No key twice, and no more entries than the capacity.
  pub record IsCache (c : LruCache V) : Type 0 where
    pub distinct : AreDistinct c.cache
    pub fits : length c.cache ≤ c.capacity

  -- The key that is first in a dict is `j`.
  abbrev pub is_first : ℕ → Dict V → Bool
  is_first j [] = false
  is_first j ((i, w) ∷ d) = i == j

  -- `put` of a new key in a full cache forgets the key that was longest unused, which is the first.
  abbrev pub forgets : ℕ → LruCache V → ℕ → Bool
  forgets key c j =
      not (has_key key c.cache) && (length c.cache == c.capacity && is_first j c.cache)

  pub moved-AreDistinct :
      (k : ℕ) (v : V) (d : Dict V) → AreDistinct d → AreDistinct (move_to_end k v d)
  unfolding move_to_end
  moved-AreDistinct k v d h =
      append-AreDistinct k v (delete k d) (delete-AreDistinct k d h)
        (rw (has_key-delete k k d) (let same = ==_refl k in rw same refl))

  pub lookup-moved :
      (k j : ℕ) (v : V) (d : Dict V)
      → lookup j (move_to_end k v d) ≡ (if k == j then some v else lookup j d)
  unfolding move_to_end
  lookup-moved k j v d = lookup-append j k v (delete k d) gone ∙ ground (arith, lookup-delete k j d)
    where
      gone : has_key k (delete k d) ≡ false
      gone = ground (arith, has_key-delete k k d)

  pub length-moved :
      (k : ℕ) (v : V) (d : Dict V)
      → AreDistinct d
      → length (move_to_end k v d) ≡ (if has_key k d then length d else suc (length d))
  unfolding move_to_end
  length-moved k v d h = elim (Bool-cases (has_key k d)) [
    | inl there ↦
        let shorter = length-delete k d h there in
        let longer = length-append (delete k d) ((k, v) ∷ []) in
        rw there (omega (arith, shorter, longer))
    | inr missing ↦
        let same = ap length (delete-missing k d missing) in
        let longer = length-append (delete k d) ((k, v) ∷ []) in
        rw missing (omega (arith, same, longer))
  ]

  move_to_end-insert :
      (k : ℕ) (v : V) (d : Dict V) → move_to_end k v (insert k v d) ≡ move_to_end k v d
  unfolding move_to_end
  move_to_end-insert k v d = ap (λ (t : Dict V). t ++ ((k, v) ∷ [])) (delete-insert k v d)

  lookup-tail :
      (i j : ℕ) (w : V) (d : Dict V)
      → has_key i d ≡ false
      → lookup j d ≡ (if i == j then none else lookup j ((i, w) ∷ d))
  unfolding lookup
  lookup-tail i j w d new = elim (Bool-cases (i == j)) [
    | inl here ↦
        let same : i ≡ j = ground (arith, here) in
        rw here (lookup-missing j d (subst (λ k. has_key k d ≡ false) same new))
    | inr there ↦ rw there refl
  ]

  -- A new key in a full cache.
  replace_first :
      (key : ℕ) (value : V) (d : Dict V) (capacity : ℕ)
      → AreDistinct d
      → length d ≡ capacity
      → 0 < capacity
      → has_key key d ≡ false
      → AreDistinct (drop 1 (move_to_end key value d))
        × (length (drop 1 (move_to_end key value d)) ≤ capacity)
        × ((j : ℕ)
            → lookup j (drop 1 (move_to_end key value d))
              ≡ (if key == j then some value else if is_first j d then none else lookup j d))
  unfolding AreDistinct has_key
  replace_first key value [] capacity distinct size room missing =
      absurd (omega (arith, size, room))
  replace_first key value ((i, w) ∷ d) capacity (new, distinct) size room missing =
      let rest : has_key key d ≡ false = ground (arith, missing) in
      let whole : drop 1 (move_to_end key value ((i, w) ∷ d)) ≡ d ++ ((key, value) ∷ []) =
        unfold move_to_end in
        ap (λ (t : Dict V). drop 1 (t ++ ((key, value) ∷ [])))
          (delete-missing key ((i, w) ∷ d) missing) in
      (
        subst AreDistinct (sym whole) (append-AreDistinct key value d distinct rest),
        (let n = length-append d ((key, value) ∷ []) in
            let m = ap length whole in omega (arith, n, m, size)),
        λ j.
            ap (lookup j) whole
            ∙ lookup-append j key value d rest
            ∙ ap (λ (o : Option V). if key == j then some value else o) (lookup-tail i j w d new),
      )

  -- `put` keeps the keys distinct and within a capacity of at least one; the key then has the value,
  -- and every other key has the value it had, but for the one longest unused where the cache was full.
  pub put-IsCache :
      (key : ℕ) (value : V) (c : LruCache V)
      → IsCache c
      → 0 < c.capacity
      → IsCache (put key value c)
        × ((j : ℕ)
            → lookup j (put key value c).cache ≡ (
                if key == j
                then some value
                else if forgets key c j
                then none
                else lookup j c.cache))
  unfolding put
  put-IsCache key value c is room =
      subst
        (λ (t : Dict V).
          IsCache (record c { cache = if ltb c.capacity (length t) then drop 1 t else t })
          × ((j : ℕ)
              → lookup j (if ltb c.capacity (length t) then drop 1 t else t) ≡ (
                  if key == j
                  then some value
                  else if forgets key c j
                  then none
                  else lookup j c.cache)))
        (sym (move_to_end-insert key value c.cache))
        (elim (Bool-cases (ltb c.capacity (length (move_to_end key value c.cache)))) [
          | inr small ↦
              let size = length-moved key value c.cache is.distinct in
              rw small (
                record {
                  distinct = moved-AreDistinct key value c.cache is.distinct;
                  fits = ground (arith, small);
                },
                λ j.
                    let kept : forgets key c j ≡ false =
                      nothing_forgotten (has_key key c.cache) (length c.cache) _ c.capacity
                        (is_first j c.cache) size small in
                    lookup-moved key j value c.cache
                    ∙ ap
                        (λ (f : Bool).
                          if key == j then some value else if f then none else lookup j c.cache)
                        (sym kept),
              )
          | inl big ↦
              let (missing, full) =
                new_in_full (has_key key c.cache) (length c.cache) _ c.capacity
                  (length-moved key value c.cache is.distinct) big is.fits in
              let (distinct, size, looked) =
                replace_first key value c.cache c.capacity is.distinct full room missing in
              rw big (
                record { distinct = distinct; fits = size },
                λ j.
                    let forgotten : forgets key c j ≡ is_first j c.cache =
                      first_forgotten (has_key key c.cache) (length c.cache) c.capacity
                        (is_first j c.cache) missing full in
                    looked j
                    ∙ ap
                        (λ (f : Bool).
                          if key == j then some value else if f then none else lookup j c.cache)
                        (sym forgotten),
              )
        ])
    where
      nothing_forgotten :
          (has : Bool) (size moved capacity : ℕ) (first : Bool)
          → moved ≡ (if has then size else suc size)
          → ltb capacity moved ≡ false
          → (not has && (size == capacity && first)) ≡ false
      nothing_forgotten has size moved capacity first e t = ground (arith)

      new_in_full :
          (has : Bool) (size moved capacity : ℕ)
          → moved ≡ (if has then size else suc size)
          → ltb capacity moved ≡ true
          → size ≤ capacity
          → (has ≡ false) × (size ≡ capacity)
      new_in_full has size moved capacity e t fits = (ground (arith), ground (arith))

      first_forgotten :
          (has : Bool) (size capacity : ℕ) (first : Bool)
          → has ≡ false
          → size ≡ capacity
          → (not has && (size == capacity && first)) ≡ first
      first_forgotten has size capacity first e f = ground (arith)

  is_first-moved :
      (key : ℕ) (value : V) (d : Dict V)
      → 1 < length (move_to_end key value d)
      → is_first key (move_to_end key value d) ≡ false
  unfolding move_to_end
  is_first-moved key value d room =
      not_first (delete key d) (ground (arith, has_key-delete key key d)) room
    where
      not_first :
          (e : Dict V)
          → has_key key e ≡ false
          → 1 < length (e ++ ((key, value) ∷ []))
          → is_first key (e ++ ((key, value) ∷ [])) ≡ false
      not_first [] gone room = absurd (omega (arith, room))
      not_first ((i, w) ∷ e) gone room = unfold has_key in ground (arith, gone)

  -- `get` answers with the value of the key and changes no value, and the key it found is then not the
  -- one that a `put` of another key forgets, in a cache for at least two.
  pub get-put :
      (key other : ℕ) (value new_value : V) (c : LruCache V)
      → IsCache c
      → 1 < c.capacity
      → lookup key c.cache ≡ some value
      → (other == key) ≡ false
      → ((get key c).0 ≡ some value)
        × IsCache (get key c).1
        × ((j : ℕ) → lookup j (get key c).1.cache ≡ lookup j c.cache)
        × (lookup key (put other new_value (get key c).1).cache ≡ some value)
  unfolding get
  get-put key other value new_value c is room there apart =
      let size = length-moved key value c.cache is.distinct in
      let known : has_key key c.cache ≡ true =
        has_key-lookup key c.cache
        ∙ ap (λ (o : Option V). elim o [ none ↦ false | some v ↦ true ]) there in
      let moved : LruCache V = record c { cache = move_to_end key value c.cache } in
      let still : IsCache moved = record {
        distinct = moved-AreDistinct key value c.cache is.distinct;
        fits = (let f = is.fits in rw (size, known) f);
      } in
      let same : (j : ℕ) → lookup j moved.cache ≡ lookup j c.cache =
        λ j. lookup-moved key j value c.cache ∙ unchanged j in
      let put_other = (put-IsCache other new_value moved still (omega (arith, room))).1 key in
      let kept : forgets other moved key ≡ false =
        stays (has_key other moved.cache) (is_first key moved.cache) (length moved.cache) c.capacity
          (λ e.
            is_first-moved key value c.cache (full_room (length moved.cache) c.capacity e room)) in
      rw (get, there) (refl, still, same, put_other ∙ rw (apart, kept) (same key ∙ there))
    where
      unchanged : (j : ℕ) → (if key == j then some value else lookup j c.cache) ≡ lookup j c.cache
      unchanged j = elim (Bool-cases (key == j)) [
        | inl here ↦
            let k : key ≡ j = ground (arith, here) in
            rw here (sym (subst (λ i. lookup i c.cache ≡ some value) k there))
        | inr elsewhere ↦ rw elsewhere refl
      ]

      full_room : (n capacity : ℕ) → (n == capacity) ≡ true → 1 < capacity → 1 < n
      full_room n capacity e room = ground (arith)

      stays :
          (has first : Bool) (n capacity : ℕ)
          → ((n == capacity) ≡ true → first ≡ false)
          → (not has && (n == capacity && first)) ≡ false
      stays has first n capacity f = elim (Bool-cases (n == capacity)) [
        | inl full ↦ let q = f full in rw (full, q) (ground (arith))
        | inr free ↦ rw free (ground (arith))
      ]
