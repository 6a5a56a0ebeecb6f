-- ===== src/FullNode/CoinStore/Table.antt =====
-- sector/full_node/coin_store.py: what a rollback does to the table, name by name.
use mathlib.Core.Path.{subst}
use sector_blockchain.Prelude.{
  ℕ, ◌≡◌, refl, ap, ◌∙◌, arith, false, Bool-cases, inl, inr, ◌==◌, ◌||◌, Option, none, some, [],
  ◌∷◌, if◌then◌else◌,
}
use sector_blockchain.Prelude.Int.{ℤ}
use sector_blockchain.Prelude.Dict.{Dict, lookup, has_key, insert}
use sector_blockchain.Util.LruCache.Keys.{AreDistinct, lookup-missing}
use sector_blockchain.Consensus.Blockchain.{above}
use sector_blockchain.FullNode.Conditions.{CoinRecord}
use sector_blockchain.FullNode.CoinStore.{delete_where, update_where, unspend}

pub has_key-insert :
    {V : Type 0} (k j : ℕ) (v : V) (d : Dict V) → has_key j (insert k v d) ≡ (k == j || has_key j d)
unfolding has_key insert
has_key-insert k j v [] = refl
has_key-insert k j v ((i, w) ∷ d) = ground (arith, has_key-insert k j v d)

pub insert-AreDistinct :
    {V : Type 0} (k : ℕ) (v : V) (d : Dict V) → AreDistinct d → AreDistinct (insert k v d)
unfolding AreDistinct insert has_key
insert-AreDistinct k v [] distinct = (refl, tt)
insert-AreDistinct k v ((i, w) ∷ d) (new, distinct) = elim (Bool-cases (i == k)) [
  | inl here ↦
      let same : i ≡ k = ground (arith, here) in
      rw here (subst (λ n. has_key n d ≡ false) same new, distinct)
  | inr there ↦
      rw there
        (ground (arith, has_key-insert k i v d, new, there), insert-AreDistinct k v d distinct)
]

-- The row of a name after the rollback to a height, from the row before it.
unfoldable pub undo : ℤ → Option CoinRecord → Option CoinRecord
undo z none = none
undo z (some r) =
    if above r.confirmed_block_index z
    then none
    else some (if above r.spent_block_index z then unspend r else r)

pub lookup-rolled :
    (z : ℤ) (k : ℕ) (d : Dict CoinRecord)
    → AreDistinct d
    → lookup k (update_where z (delete_where z d)) ≡ undo z (lookup k d)
unfolding AreDistinct lookup delete_where update_where undo
lookup-rolled z k [] distinct = refl
lookup-rolled z k ((i, r) ∷ d) (new, distinct) =
    let rest = lookup-rolled z k d distinct in
    elim (Bool-cases (above r.confirmed_block_index z)) [
      | inl deleted ↦ elim (Bool-cases (i == k)) [
        | inl here ↦
            let same : i ≡ k = ground (arith, here) in
            let gone = lookup-missing k d (subst (λ n. has_key n d ≡ false) same new) in
            rw (deleted, here, deleted) (rest ∙ ap (undo z) gone)
        | inr there ↦ rw (deleted, there) rest
      ]
      | inr kept ↦ elim (Bool-cases (i == k)) [
        | inl here ↦ rw (kept, here, kept) refl
        | inr there ↦ rw (kept, there) rest
      ]
    ]
