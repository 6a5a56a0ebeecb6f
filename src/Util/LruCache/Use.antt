-- ===== src/Util/LruCache/Use.antt =====
-- sector/util/lru_cache.py: what each operation leaves, for the stores that keep a cache.
use mathlib.Core.Path.{subst}
use sector_blockchain.Prelude.{
  ℕ, ◌<◌, ◌≡◌, refl, sym, ap, ◌∙◌, arith, true, false, Bool-cases, Option-cases, ◌⊎◌, inl, inr,
  ◌==◌, Option, none, some, if◌then◌else◌,
}
use sector_blockchain.Prelude.Dict.{Dict, lookup, has_key, delete, lookup-delete, has_key-lookup}
use sector_blockchain.Python.{ok}
use sector_blockchain.Util.LruCache.{LruCache, get, put, remove}
use sector_blockchain.Util.LruCache.Keys.{delete-AreDistinct, length-delete}
use sector_blockchain.Util.LruCache.Size.{
  IsCache, forgets, put-IsCache, lookup-moved, moved-AreDistinct, length-moved,
}

module _ {V : Type 0} where
  pub has_key-some : (k : ℕ) (v : V) (d : Dict V) → lookup k d ≡ some v → has_key k d ≡ true
  has_key-some k v d e =
      has_key-lookup k d ∙ ap (λ (o : Option V). elim o [ none ↦ false | some w ↦ true ]) e

  -- The cache after a call, against the one before: as large, and nothing in it is new but perhaps
  -- an entry.
  pub record IsUse (c d : LruCache V) : Type 0 where
    pub is_cache : IsCache d
    pub as_large : d.capacity ≡ c.capacity
    pub old : (j : ℕ) (w : V) → lookup j d.cache ≡ some w → lookup j c.cache ≡ some w

  pub get_lem :
      (key : ℕ) (c : LruCache V)
      → IsCache c
      → ((get key c).0 ≡ lookup key c.cache) × IsUse c (get key c).1
  unfolding get
  get_lem key c is = elim (Option-cases (lookup key c.cache)) [
    | inl missing ↦
        rw (get, missing) (refl, record { is_cache = is; as_large = refl; old = λ j w e. e })
    | inr (v, there) ↦
        let size = length-moved key v c.cache is.distinct in
        let known = has_key-some key v c.cache there in
        rw (get, there)
          (
            refl,
            record {
              is_cache = record {
                distinct = moved-AreDistinct key v c.cache is.distinct;
                fits = (let f = is.fits in rw (size, known) f);
              };
              as_large = refl;
              old = λ j w e. unmoved j w v there (sym (lookup-moved key j v c.cache) ∙ e);
            },
          )
  ]
    where
      unmoved :
          (j : ℕ) (w v : V)
          → lookup key c.cache ≡ some v
          → (if key == j then some v else lookup j c.cache) ≡ some w
          → lookup j c.cache ≡ some w
      unmoved j w v there e = elim (Bool-cases (key == j)) [
        | inl here ↦
            let k : key ≡ j = ground (arith, here) in
            subst (λ i. lookup i c.cache ≡ some v) k there ∙ rw here at e
        | inr elsewhere ↦ rw elsewhere at e
      ]

  pub put_lem :
      (key : ℕ) (v : V) (c : LruCache V)
      → IsCache c
      → 0 < c.capacity
      → IsCache (put key v c)
        × ((put key v c).capacity ≡ c.capacity)
        × ((j : ℕ) (w : V)
            → lookup j (put key v c).cache ≡ some w
            → ((key ≡ j) × (v ≡ w)) ⊎ (((key == j) ≡ false) × (lookup j c.cache ≡ some w)))
  put_lem key v c is room =
      let (now, looked) = put-IsCache key v c is room in
      (now, unfold put in refl, λ j w e. either j w (sym (looked j) ∙ e))
    where
      either :
          (j : ℕ) (w : V)
          → (if key == j then some v else if forgets key c j then none else lookup j c.cache)
            ≡ some w
          → ((key ≡ j) × (v ≡ w)) ⊎ (((key == j) ≡ false) × (lookup j c.cache ≡ some w))
      either j w e = elim (Bool-cases (key == j)) [
        | inl here ↦ inl (ground (arith, here), cc (rw here at e))
        | inr elsewhere ↦ elim (Bool-cases (forgets key c j)) [
          | inl gone ↦ absurd (cc (rw (elsewhere, gone) at e))
          | inr kept ↦ inr (elsewhere, rw (elsewhere, kept) at e)
        ]
      ]

  pub remove_lem :
      (key : ℕ) (c : LruCache V)
      → IsCache c
      → has_key key c.cache ≡ true
      → (d : LruCache V) × (remove key c ≡ ok d)
        × IsUse c d
        × ((j : ℕ) → lookup j d.cache ≡ (if key == j then none else lookup j c.cache))
  unfolding remove
  remove_lem key c is there = (
    record c { cache = delete key c.cache },
    rw there refl,
    record {
      is_cache = record {
        distinct = delete-AreDistinct key c.cache is.distinct;
        fits =
            (let shorter = length-delete key c.cache is.distinct there in
              let f = is.fits in omega (arith, shorter, f));
      };
      as_large = refl;
      old = λ j w e. not_deleted j w (sym (lookup-delete key j c.cache) ∙ e);
    },
    λ j. lookup-delete key j c.cache,
  )
    where
      not_deleted :
          (j : ℕ) (w : V)
          → (if key == j then none else lookup j c.cache) ≡ some w
          → lookup j c.cache ≡ some w
      not_deleted j w e = elim (Bool-cases (key == j)) [
        | inl here ↦ absurd (cc (rw here at e))
        | inr elsewhere ↦ rw elsewhere at e
      ]
