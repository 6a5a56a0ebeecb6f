-- ===== src/FullNode/CoinStore/Coherent.antt =====
-- sector/full_node/coin_store.py: the cache agrees with the table, through every change of a record.
use mathlib.Core.Path.{subst}
use sector_blockchain.Prelude.{
  ℕ, ◌<◌, ◌≡◌, refl, sym, ap, ◌∙◌, arith, Bool, false, not, ◌&&◌, Bool-cases, Option-cases, ◌⊎◌,
  inl, inr, ◌==◌, Option, none, some, ==_refl,
}
use sector_blockchain.Prelude.Dict.{lookup, has_key, insert, lookup-insert}
use sector_blockchain.Python.{Result, ok, >>=-eq-ok}
use sector_blockchain.Util.LruCache.{LruCache, get, put, remove}
use sector_blockchain.Util.LruCache.Keys.{AreDistinct}
use sector_blockchain.Util.LruCache.Size.{IsCache}
use sector_blockchain.Util.LruCache.Use.{IsUse, get_lem, put_lem, remove_lem}
use sector_blockchain.FullNode.Conditions.{Coin, CoinRecord}
use sector_blockchain.FullNode.CoinStore.{CoinStore, get_coin_record, add_coin_record}
use sector_blockchain.FullNode.CoinStore.Table.{insert-AreDistinct}

module _ (coin_name : Coin → ℕ) where
  -- The rows stand under the names of their coins, one for a name, those of unspent coins with the
  -- index 0; and the cache, for one coin at least, has only what the table has.
  pub record IsCoherent (s : CoinStore) : Type 0 where
    pub named : (k : ℕ) (r : CoinRecord) → lookup k s.coin_record_db ≡ some r → coin_name r.coin ≡ k
    pub unspent :
        (k : ℕ) (r : CoinRecord)
        → lookup k s.coin_record_db ≡ some r
        → r.spent ≡ false
        → r.spent_block_index ≡ 0
    pub table : AreDistinct s.coin_record_db
    pub cached :
        (k : ℕ) (r : CoinRecord)
        → lookup k s.coin_record_cache.cache ≡ some r
        → lookup k s.coin_record_db ≡ some r
    pub is_cache : IsCache s.coin_record_cache
    pub room : 0 < s.coin_record_cache.capacity

  with_cache :
      (s : CoinStore) (c : LruCache CoinRecord)
      → IsCoherent s
      → IsCache c
      → c.capacity ≡ s.coin_record_cache.capacity
      → ((k : ℕ) (r : CoinRecord) → lookup k c.cache ≡ some r → lookup k s.coin_record_db ≡ some r)
      → IsCoherent (record s { coin_record_cache = c })
  with_cache s c is now size cached = record {
    named = is.named;
    unspent = is.unspent;
    table = is.table;
    cached = cached;
    is_cache = now;
    room = subst (λ n. 0 < n) (sym size) is.room;
  }

  -- A read answers what the table has, whatever is cached, and leaves the table.
  pub get_coin_record_lem :
      (name : ℕ) (s : CoinStore)
      → IsCoherent s
      → ((get_coin_record coin_name name s).0 ≡ lookup name s.coin_record_db)
        × IsCoherent (get_coin_record coin_name name s).1
        × ((get_coin_record coin_name name s).1.coin_record_db ≡ s.coin_record_db)
  unfolding get_coin_record
  get_coin_record_lem name s is =
      let (answer, used) = get_lem name s.coin_record_cache is.is_cache in
      let after = (get name s.coin_record_cache).1 in
      let old : (k : ℕ) (r : CoinRecord)
          → lookup k after.cache ≡ some r
          → lookup k s.coin_record_db ≡ some r =
        λ k r e. is.cached k r (used.old k r e) in
      elim (Option-cases (lookup name s.coin_record_cache.cache)) [
        | inr (r, there) ↦
            let hit = answer ∙ there in
            rw (get_coin_record, hit)
              (
                sym (is.cached name r there),
                with_cache s after is used.is_cache used.as_large old,
                refl,
              )
        | inl missing ↦
            let miss = answer ∙ missing in
            elim (Option-cases (lookup name s.coin_record_db)) [
              | inl no_row ↦
                  rw (get_coin_record, miss, no_row)
                    (refl, with_cache s after is used.is_cache used.as_large old, refl)
              | inr (r, row) ↦
                  let (now, size, either) =
                    put_lem (coin_name r.coin) r after used.is_cache
                      (subst (λ n. 0 < n) (sym used.as_large) is.room) in
                  rw (get_coin_record, miss, row)
                    (
                      refl,
                      with_cache s (put (coin_name r.coin) r after) is now (size ∙ used.as_large)
                          (λ k w e. elim (either k w e) [
                            | inl (here, same) ↦
                                let at_name : name ≡ k = sym (is.named name r row) ∙ here in
                                subst (λ j. lookup j s.coin_record_db ≡ some w) at_name
                                  (row ∙ ap (λ (x : CoinRecord). some x) same)
                            | inr (_, before) ↦ old k w before
                          ]),
                      refl,
                    )
            ]
      ]

  -- The cache without an entry of a name.
  dropped :
      (key : ℕ) (c0 c d : LruCache CoinRecord) (found : Option CoinRecord)
      → found ≡ lookup key c0.cache
      → IsUse c0 c
      → ◌≡◌ {A = Result (LruCache CoinRecord)}
          (elim found [ none ↦ ok c | some x ↦ remove key c ])
          (ok d)
      → IsUse c0 d × ((w : CoinRecord) → lookup key d.cache ≡ some w → ⊥)
  dropped key c0 c d none e used q =
      let same : c ≡ d = cc (q) in
      subst (λ x. IsUse c0 x × ((w : CoinRecord) → lookup key x.cache ≡ some w → ⊥)) same
        (used, λ w there. let before = used.old key w there in cc (e, before))
  dropped key c0 c d (some x) e used q = elim (Bool-cases (has_key key c.cache)) [
    | inr missing ↦ absurd (unfold remove in cc (rw missing at q))
    | inl there ↦
        let (removed, r, again, looked) = remove_lem key c used.is_cache there in
        let same : removed ≡ d = cc (r, q) in
        subst (λ y. IsUse c0 y × ((w : CoinRecord) → lookup key y.cache ≡ some w → ⊥)) same
          (
            record {
              is_cache = again.is_cache;
              as_large = again.as_large ∙ used.as_large;
              old = λ j w f. used.old j w (again.old j w f);
            },
            λ w f.
                let gone = looked key in let here = ==_refl key in absurd (cc (f, rw here at gone)),
          )
  ]

  -- A record that is added stands in the table, where without `allow_replace` its name was free.
  pub add_coin_record_lem :
      (r : CoinRecord) (allow_replace : Bool) (s t : CoinStore)
      → IsCoherent s
      → (r.spent ≡ false → r.spent_block_index ≡ 0)
      → add_coin_record coin_name r allow_replace s ≡ ok t
      → IsCoherent t
        × (t.coin_record_db ≡ insert (coin_name r.coin) r s.coin_record_db)
        × ((not allow_replace && has_key (coin_name r.coin) s.coin_record_db) ≡ false)
  unfolding add_coin_record
  add_coin_record_lem r allow s t is plain e =
      let key = coin_name r.coin in
      let (answer, used) = get_lem key s.coin_record_cache is.is_cache in
      let after = (get key s.coin_record_cache).1 in
      let found = (get key s.coin_record_cache).0 in
      let (d, q, rest) =
        >>=-eq-ok (elim found [ none ↦ ok after | some x ↦ remove key after ]) _ e in
      let (kept, gone) = dropped key s.coin_record_cache after d found answer used q in
      elim (Bool-cases (not allow && has_key key s.coin_record_db)) [
        | inl taken ↦ absurd (cc (rw taken at rest))
        | inr free ↦
            let same : record {
              coin_record_db = insert key r s.coin_record_db;
              coin_record_cache = d;
            }
                ≡ t =
              cc (rw free at rest) in
            (
              subst IsCoherent same (added d kept gone),
              ap (λ (x : CoinStore). x.coin_record_db) (sym same),
              free,
            )
      ]
    where
      added :
          (d : LruCache CoinRecord)
          → IsUse s.coin_record_cache d
          → ((w : CoinRecord) → lookup (coin_name r.coin) d.cache ≡ some w → ⊥)
          → IsCoherent (record {
            coin_record_db = insert (coin_name r.coin) r s.coin_record_db;
            coin_record_cache = d;
          })
      added d used gone = record {
        named = λ k w q. elim (inserted k w q) [
          | inl (here, same) ↦ ap (λ (x : CoinRecord). coin_name x.coin) (sym same) ∙ here
          | inr (_, old) ↦ is.named k w old
        ];
        unspent = λ k w q. elim (inserted k w q) [
          | inl (here, same) ↦
              subst (λ (x : CoinRecord). x.spent ≡ false → x.spent_block_index ≡ 0) same plain
          | inr (_, old) ↦ is.unspent k w old
        ];
        table = insert-AreDistinct (coin_name r.coin) r s.coin_record_db is.table;
        cached = λ k w q. elim (Bool-cases (coin_name r.coin == k)) [
          | inl here ↦
              let same : coin_name r.coin ≡ k = ground (arith, here) in
              absurd (gone w (subst (λ j. lookup j d.cache ≡ some w) (sym same) q))
          | inr there ↦
              rw (lookup-insert (coin_name r.coin) k r s.coin_record_db, there)
                (is.cached k w (used.old k w q))
        ];
        is_cache = used.is_cache;
        room = subst (λ n. 0 < n) (sym used.as_large) is.room;
      }
        where
          inserted :
              (k : ℕ) (w : CoinRecord)
              → lookup k (insert (coin_name r.coin) r s.coin_record_db) ≡ some w
              → ((coin_name r.coin ≡ k) × (r ≡ w))
                ⊎ (((coin_name r.coin == k) ≡ false) × (lookup k s.coin_record_db ≡ some w))
          inserted k w q = elim (Bool-cases (coin_name r.coin == k)) [
            | inl here ↦ inl (
              ground (arith, here),
              cc (rw (lookup-insert (coin_name r.coin) k r s.coin_record_db, here) at q),
            )
            | inr there ↦
                inr (there, rw (lookup-insert (coin_name r.coin) k r s.coin_record_db, there) at q)
          ]
