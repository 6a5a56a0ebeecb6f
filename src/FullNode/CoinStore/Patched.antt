-- ===== src/FullNode/CoinStore/Patched.antt =====
-- sector/full_node/coin_store.py: the loop of a rollback over the entries of the cache.
use mathlib.Core.Path.{subst}
use sector_blockchain.Prelude.{
  ℕ, ◌<◌, ◌≡◌, refl, sym, ap, ◌∙◌, arith, Bool, true, false, ◌||◌, Bool-cases, inl, inr, ◌==◌,
  Option, none, some, List, [], ◌∷◌, if◌then◌else◌, ==_refl,
}
use sector_blockchain.Prelude.Int.{ℤ}
use sector_blockchain.Prelude.Dict.{Dict, lookup, has_key, member}
use sector_blockchain.Util.LruCache.{LruCache, put}
use sector_blockchain.Util.LruCache.Keys.{AreDistinct, lookup-missing}
use sector_blockchain.Util.LruCache.Size.{IsCache, forgets, put-IsCache}
use sector_blockchain.Util.LruCache.Use.{has_key-some}
use sector_blockchain.Consensus.Blockchain.{above}
use sector_blockchain.FullNode.Conditions.{Coin, CoinRecord}
use sector_blockchain.FullNode.CoinStore.{unspend, rollback_cache}
use sector_blockchain.FullNode.CoinStore.Removal.{AreApart, same_keys}

-- An entry that is there is overwritten in its place, and no other is lost.
overwrite :
    (k : ℕ) (r : CoinRecord) (c : LruCache CoinRecord)
    → IsCache c
    → 0 < c.capacity
    → has_key k c.cache ≡ true
    → IsCache (put k r c)
      × ((put k r c).capacity ≡ c.capacity)
      × ((j : ℕ) → lookup j (put k r c).cache ≡ (if k == j then some r else lookup j c.cache))
overwrite k r c is room there =
    let (now, looked) = put-IsCache k r c is room in
    (
      now,
      unfold put in refl,
      λ j.
          let kept : forgets k c j ≡ false = rw there refl in
          looked j
          ∙ ap (λ (b : Bool). if k == j then some r else if b then none else lookup j c.cache) kept,
    )

module _ (z : ℤ) where
  -- What the loop makes of the entries of a name, and whether it queues the name.
  abbrev pub patched : Option CoinRecord → Option CoinRecord → Option CoinRecord
  patched none o = o
  patched (some r) o = if above r.spent_block_index z then some (unspend r) else o

  abbrev pub queued : Option CoinRecord → Bool
  queued none = false
  queued (some r) = above r.confirmed_block_index z

  pub record IsPatched (items : Dict CoinRecord) (c d : LruCache CoinRecord) (delete_queue : List ℕ)
      : Type 0 where
    pub is_cache : IsCache d
    pub as_large : d.capacity ≡ c.capacity
    pub apart : AreApart delete_queue
    pub names : (k : ℕ) → member k delete_queue ≡ queued (lookup k items)
    pub values : (k : ℕ) → lookup k d.cache ≡ patched (lookup k items) (lookup k c.cache)

  next_cache : ℕ → CoinRecord → LruCache CoinRecord → LruCache CoinRecord
  next_cache n r c = if above r.spent_block_index z then put n (unspend r) c else c

  next_lem :
      (n : ℕ) (r : CoinRecord) (c : LruCache CoinRecord)
      → IsCache c
      → 0 < c.capacity
      → has_key n c.cache ≡ true
      → IsCache (next_cache n r c)
        × ((next_cache n r c).capacity ≡ c.capacity)
        × ((j : ℕ)
            → lookup j (next_cache n r c).cache
              ≡ (if n == j then patched (some r) (lookup j c.cache) else lookup j c.cache))
  unfolding next_cache
  next_lem n r c is room there = elim (Bool-cases (above r.spent_block_index z)) [
    | inr early ↦ rw early (is, refl, λ j. sym (same_either (n == j) (lookup j c.cache)))
    | inl late ↦ rw late (overwrite n (unspend r) c is room there)
  ]
    where
      same_either : (b : Bool) (o : Option CoinRecord) → (if b then o else o) ≡ o
      same_either true o = refl
      same_either false o = refl

  -- One entry before the others.
  entry_first :
      (n : ℕ) (r : CoinRecord) (items : Dict CoinRecord) (c d : LruCache CoinRecord)
      (delete_queue : List ℕ)
      → has_key n items ≡ false
      → ((next_cache n r c).capacity ≡ c.capacity)
      → ((j : ℕ)
          → lookup j (next_cache n r c).cache
            ≡ (if n == j then patched (some r) (lookup j c.cache) else lookup j c.cache))
      → IsPatched items (next_cache n r c) d delete_queue
      → IsPatched
          ((n, r) ∷ items)
          c
          d
          (if above r.confirmed_block_index z then n ∷ delete_queue else delete_queue)
  unfolding lookup member AreApart
  entry_first n r items c d queue new size looked rest = record {
    is_cache = rest.is_cache;
    as_large = rest.as_large ∙ size;
    apart = elim (Bool-cases (above r.confirmed_block_index z)) [
      | inl late ↦ rw late (rest.names n ∙ ap queued (lookup-missing n items new), rest.apart)
      | inr early ↦ rw early (rest.apart)
    ];
    names = λ k. elim (Bool-cases (n == k)) [
      | inl here ↦
          let none_left = rest.names k ∙ ap queued (gone k here) in
          elim (Bool-cases (above r.confirmed_block_index z)) [
            | inl late ↦ rw (late, here, late) refl
            | inr early ↦ rw (early, here, early) none_left
          ]
      | inr there ↦ elim (Bool-cases (above r.confirmed_block_index z)) [
        | inl late ↦ rw (late, there) (rest.names k)
        | inr early ↦ rw (early, there) (rest.names k)
      ]
    ];
    values = λ k. elim (Bool-cases (n == k)) [
      | inl here ↦
          let at_k =
            rest.values k
            ∙ ap (λ (o : Option CoinRecord). patched o (lookup k (next_cache n r c).cache))
                (gone k here) in
          let before = looked k in rw here (at_k ∙ rw here at before)
      | inr there ↦
          let before = looked k in
          rw there (
            rest.values k
            ∙ ap (λ (o : Option CoinRecord). patched (lookup k items) o) (rw there at before))
    ];
  }
    where
      gone : (k : ℕ) → (n == k) ≡ true → lookup k items ≡ none
      gone k here =
          let same : n ≡ k = ground (arith, here) in
          lookup-missing k items (subst (λ j. has_key j items ≡ false) same new)

  module _ (coin_name : Coin → ℕ) where
    pub rollback_cache-IsPatched :
        (items : Dict CoinRecord) (c : LruCache CoinRecord)
        → AreDistinct items
        → ((k : ℕ) (r : CoinRecord) → lookup k items ≡ some r → coin_name r.coin ≡ k)
        → IsCache c
        → 0 < c.capacity
        → ((k : ℕ) → has_key k items ≡ true → has_key k c.cache ≡ true)
        → IsPatched items c
            (rollback_cache coin_name z items c).0
            (rollback_cache coin_name z items c).1
    unfolding rollback_cache AreDistinct lookup member AreApart has_key
    rollback_cache-IsPatched [] c distinct named is room there = record {
      is_cache = is;
      as_large = refl;
      apart = tt;
      names = λ k. refl;
      values = λ k. refl;
    }
    rollback_cache-IsPatched ((n, r) ∷ items) c (new, distinct) named is room there =
        let here = ==_refl n in
        let own : coin_name r.coin ≡ n = named n r (rw here refl) in
        let (now, size, looked) = next_lem n r c is room (there n (rw here refl)) in
        let next_name : (if above r.spent_block_index z
              then put (coin_name r.coin) (unspend r) c
              else c)
            ≡ next_cache n r c =
          unfold next_cache in
          ap (λ (m : ℕ). if above r.spent_block_index z then put m (unspend r) c else c) own in
        let rest =
          rollback_cache-IsPatched items (next_cache n r c) distinct
            (λ k w e. named k w (behind k w e)) now (subst (λ m. 0 < m) (sym size) room)
            (λ k e.
              same_keys k c.cache (next_cache n r c).cache (
                looked k
                ∙ ap
                    (λ (b : Bool).
                      if b then patched (some r) (lookup k c.cache) else lookup k c.cache)
                    (not_first k e))
              ∙ there k (later k e)) in
        subst
          (λ (x : LruCache CoinRecord).
            IsPatched ((n, r) ∷ items) c (rollback_cache coin_name z items x).0 (
              if above r.confirmed_block_index z
              then n ∷ (rollback_cache coin_name z items x).1
              else (rollback_cache coin_name z items x).1))
          (sym next_name)
          (entry_first n r items c (rollback_cache coin_name z items (next_cache n r c)).0
            (rollback_cache coin_name z items (next_cache n r c)).1 new size looked rest)
      where
        not_first : (k : ℕ) → has_key k items ≡ true → (n == k) ≡ false
        not_first k e = elim (Bool-cases (n == k)) [
          | inr apart ↦ apart
          | inl same ↦
              let q : n ≡ k = ground (arith, same) in
              absurd (cc (new, subst (λ j. has_key j items ≡ true) (sym q) e))
        ]

        later : (k : ℕ) → has_key k items ≡ true → (n == k || has_key k items) ≡ true
        later k e = ground (arith, e)

        behind :
            (k : ℕ) (w : CoinRecord)
            → lookup k items ≡ some w
            → (if n == k then some r else lookup k items) ≡ some w
        behind k w e = rw (not_first k (has_key-some k w items e)) e
