-- ===== src/Util/LruCache/Keys.antt =====
-- sector/util/lru_cache.py: the keys of a dict under the deletion and the addition of an entry.
use sector_blockchain.Prelude.{
  ℕ, suc, ◌≡◌, refl, sym, ap, arith, true, false, Bool-cases, inl, inr, ◌==◌, ◌||◌, none, some, [],
  ◌∷◌, ◌++◌, length, ==_refl, if◌then◌else◌,
}
use sector_blockchain.Prelude.Dict.{Dict, lookup, has_key, insert, delete}

module _ {V : Type 0} where
  -- No key stands twice.
  unfoldable pub AreDistinct : Dict V → Type 0
  AreDistinct [] = Unit {0}
  AreDistinct ((k, v) ∷ d) = (has_key k d ≡ false) × AreDistinct d

  pub has_key-delete :
      (k j : ℕ) (d : Dict V) → has_key j (delete k d) ≡ (if k == j then false else has_key j d)
  unfolding has_key delete
  has_key-delete k j [] = ground arith
  has_key-delete k j ((i, w) ∷ d) = ground (arith, has_key-delete k j d)

  pub delete-insert : (k : ℕ) (v : V) (d : Dict V) → delete k (insert k v d) ≡ delete k d
  unfolding insert delete
  delete-insert k v [] = let same = ==_refl k in rw same refl
  delete-insert k v ((i, w) ∷ d) = elim (Bool-cases (i == k)) [
    | inl here ↦ let same = ==_refl k in rw (here, same) refl
    | inr there ↦
        let rest = delete-insert k v d in rw there (rw there (ap (λ (t : Dict V). (i, w) ∷ t) rest))
  ]

  pub delete-missing : (k : ℕ) (d : Dict V) → has_key k d ≡ false → delete k d ≡ d
  unfolding has_key delete
  delete-missing k [] e = refl
  delete-missing k ((i, w) ∷ d) e = elim (Bool-cases (i == k)) [
    | inl here ↦ absurd (cc (rw here at e))
    | inr there ↦ rw (there, delete-missing k d (rw there at e)) refl
  ]

  pub length-delete :
      (k : ℕ) (d : Dict V)
      → AreDistinct d
      → has_key k d ≡ true
      → suc (length (delete k d)) ≡ length d
  unfolding AreDistinct has_key delete
  length-delete k [] distinct e = absurd (cc (e))
  length-delete k ((i, w) ∷ d) (new, distinct) e = elim (Bool-cases (i == k)) [
    | inl here ↦
        let missing : has_key k d ≡ false = equal_key i k here new in
        rw (here, delete-missing k d missing) refl
    | inr there ↦
        let shorter = length-delete k d distinct (rw there at e) in
        rw there (omega (arith, shorter))
  ]
    where
      equal_key : (i k : ℕ) → (i == k) ≡ true → has_key i d ≡ false → has_key k d ≡ false
      equal_key i k here new = let same : i ≡ k = ground (arith, here) in rw (sym same) new

  pub delete-AreDistinct : (k : ℕ) (d : Dict V) → AreDistinct d → AreDistinct (delete k d)
  unfolding AreDistinct delete
  delete-AreDistinct k [] distinct = tt
  delete-AreDistinct k ((i, w) ∷ d) (new, distinct) = elim (Bool-cases (i == k)) [
    | inl here ↦ rw here (delete-AreDistinct k d distinct)
    | inr there ↦ rw there (still_new, delete-AreDistinct k d distinct)
  ]
    where
      still_new : has_key i (delete k d) ≡ false
      still_new = ground (arith, has_key-delete k i d, new)

  has_key-append :
      (j k : ℕ) (v : V) (d : Dict V) → has_key j (d ++ ((k, v) ∷ [])) ≡ (has_key j d || (k == j))
  unfolding has_key
  has_key-append j k v [] = ground arith
  has_key-append j k v ((i, w) ∷ d) = ground (arith, has_key-append j k v d)

  pub append-AreDistinct :
      (k : ℕ) (v : V) (d : Dict V)
      → AreDistinct d
      → has_key k d ≡ false
      → AreDistinct (d ++ ((k, v) ∷ []))
  unfolding AreDistinct has_key
  append-AreDistinct k v [] distinct e = (refl, tt)
  append-AreDistinct k v ((i, w) ∷ d) (new, distinct) e = (
    ground (arith, has_key-append i k v d, new, e),
    append-AreDistinct k v d distinct (ground (arith, e)),
  )

  pub lookup-append :
      (j k : ℕ) (v : V) (d : Dict V)
      → has_key k d ≡ false
      → lookup j (d ++ ((k, v) ∷ [])) ≡ (if k == j then some v else lookup j d)
  unfolding lookup has_key
  lookup-append j k v [] e = ground arith
  lookup-append j k v ((i, w) ∷ d) e = ground (arith, e, lookup-append j k v d)

  pub lookup-missing : (j : ℕ) (d : Dict V) → has_key j d ≡ false → lookup j d ≡ none
  unfolding lookup has_key
  lookup-missing j [] e = refl
  lookup-missing j ((i, w) ∷ d) e = ground (arith, e, lookup-missing j d)
