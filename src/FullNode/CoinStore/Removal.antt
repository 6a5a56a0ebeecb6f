-- ===== src/FullNode/CoinStore/Removal.antt =====
-- sector/full_node/coin_store.py: the queued names leave the cache.
use mathlib.Core.Path.{subst}
use sector_blockchain.Prelude.{
  ℕ, ◌≡◌, refl, sym, ap, ◌∙◌, arith, Bool, true, false, ◌||◌, Bool-cases, inl, inr, ◌==◌, Option,
  none, some, List, [], ◌∷◌, if◌then◌else◌, ==_refl,
}
use sector_blockchain.Prelude.Dict.{Dict, lookup, has_key, has_key-lookup, member}
use sector_blockchain.Python.{ok}
use sector_blockchain.Util.LruCache.{LruCache}
use sector_blockchain.Util.LruCache.Size.{IsCache}
use sector_blockchain.Util.LruCache.Use.{IsUse, remove_lem}
use sector_blockchain.FullNode.Conditions.{CoinRecord}
use sector_blockchain.FullNode.CoinStore.{remove_all}

-- Each name of a list once.
unfoldable pub AreApart : List ℕ → Type 0
AreApart [] = Unit {0}
AreApart (n ∷ names) = (member n names ≡ false) × AreApart names

pub same_keys :
    (k : ℕ) (c d : Dict CoinRecord) → lookup k d ≡ lookup k c → has_key k d ≡ has_key k c
same_keys k c d e =
    has_key-lookup k d
    ∙ ap (λ (o : Option CoinRecord). elim o [ none ↦ false | some v ↦ true ]) e
    ∙ sym (has_key-lookup k c)

-- The removals find all of their names.
pub remove_all_lem :
    (names : List ℕ) (c : LruCache CoinRecord)
    → IsCache c
    → AreApart names
    → ((n : ℕ) → member n names ≡ true → has_key n c.cache ≡ true)
    → (d : LruCache CoinRecord) × (remove_all names c ≡ ok d)
      × IsUse c d
      × ((k : ℕ) → lookup k d.cache ≡ (if member k names then none else lookup k c.cache))
unfolding remove_all AreApart member
remove_all_lem [] c is apart there =
    (c, refl, record { is_cache = is; as_large = refl; old = λ j w e. e }, λ k. refl)
remove_all_lem (n ∷ names) c is (new, apart) there =
    let here = ==_refl n in
    let (d, q, used, looked) = remove_lem n c is (there n (rw here refl)) in
    let (e, r, used', looked') = remove_all_lem names d used.is_cache apart (λ k m.
      same_keys k c.cache d.cache
        (looked k ∙ ap (λ (b : Bool). if b then none else lookup k c.cache) (other k m))
      ∙ there k (either k m)) in
    (
      e,
      rw q r,
      record {
        is_cache = used'.is_cache;
        as_large = used'.as_large ∙ used.as_large;
        old = λ j w f. used.old j w (used'.old j w f);
      },
      λ k.
          looked' k
          ∙ ap (λ (o : Option CoinRecord). if member k names then none else o) (looked k)
          ∙ merged k,
    )
  where
    either : (k : ℕ) → member k names ≡ true → (n == k || member k names) ≡ true
    either k m = ground (arith, m)

    other : (k : ℕ) → member k names ≡ true → (n == k) ≡ false
    other k m = elim (Bool-cases (n == k)) [
      | inr apart_k ↦ apart_k
      | inl same ↦
          let e : n ≡ k = ground (arith, same) in
          absurd (cc (new, subst (λ j. member j names ≡ true) (sym e) m))
    ]

    merged :
        (k : ℕ)
        → (if member k names then none else if n == k then none else lookup k c.cache)
          ≡ (if n == k || member k names then none else lookup k c.cache)
    merged k = both (member k names) (n == k) (lookup k c.cache)
      where
        both :
            (m e : Bool) (o : Option CoinRecord)
            → (if m then none else if e then none else o) ≡ (if e || m then none else o)
        both true true o = refl
        both true false o = refl
        both false true o = refl
        both false false o = refl
