-- ===== src/Util/LruCache.antt =====
-- sector/util/lru_cache.py: a dict in the order of use, the longest unused key first.
pub mod Keys
pub mod Size
pub mod Use
use sector_blockchain.Prelude.{
  ℕ, Bool, ltb, Option, none, some, List, [], ◌∷◌, ◌++◌, length, drop, if◌then◌else◌,
}
use sector_blockchain.Prelude.Dict.{Dict, lookup, has_key, insert, delete}
use sector_blockchain.Python.{Result, ok, raise, key_error}

pub record LruCache (V : Type 0) : Type 0 where
  pub cache : Dict V
  pub capacity : ℕ

module _ {V : Type 0} where
  -- `move_to_end(key)` of a key with its value
  unfoldable pub move_to_end : ℕ → V → Dict V → Dict V
  move_to_end key value d = delete key d ++ ((key, value) ∷ [])

  unfoldable pub get : ℕ → LruCache V → Option V × LruCache V
  unfolding move_to_end
  get key c = elim (lookup key c.cache) [
    | none ↦ (none, c)
    | some value ↦ (some value, record c { cache = move_to_end key value c.cache })
  ]

  -- `popitem(last=False)` drops the first entry.
  unfoldable pub put : ℕ → V → LruCache V → LruCache V
  unfolding move_to_end
  put key value c =
      let moved = move_to_end key value (insert key value c.cache) in
      record c { cache = if ltb c.capacity (length moved) then drop 1 moved else moved }

  unfoldable pub remove : ℕ → LruCache V → Result (LruCache V)
  remove key c =
      if has_key key c.cache then ok (record c { cache = delete key c.cache }) else raise key_error
