-- ===== src/Consensus/Blockchain/Path.antt =====
-- sector/consensus/blockchain.py: the path from the first block to a peak.
use mathlib.Core.Path.{subst}
use sector_blockchain.Prelude.{
  ℕ, suc, ◌≤◌, ◌≡◌, refl, sym, ◌∙◌, arith, false, ◌⊎◌, inl, inr, ◌==◌, some, ==_refl,
}
use sector_blockchain.Prelude.Dict.{Dict, lookup, insert, lookup-insert}
use sector_blockchain.Consensus.BlockRecord.{BlockRecord}
use sector_blockchain.Consensus.Blockchain.{FullBlock, BlockStore}

-- From height 0 up to `n`, where the hash is `x`, each height has a known block of that height, and
-- the height below it has the block before.
pub record IsPath (records : Dict BlockRecord) (hashes : Dict ℕ) (n x : ℕ) : Type 0 where
  pub top : lookup n hashes ≡ some x
  pub each :
      (k : ℕ)
      → k ≤ n
      → (b : BlockRecord) × (lookup k hashes ≡ some b.header_hash)
        × (lookup b.header_hash records ≡ some b)
        × (b.height ≡ k)
        × ((j : ℕ) → k ≡ suc j → lookup j hashes ≡ some b.prev_hash)

-- Every record stands under its hash, has its full block, and the record before it.
pub record IsStore {Body : Type 0} (store : BlockStore Body) : Type 0 where
  pub named : (x : ℕ) (b : BlockRecord) → lookup x store.records ≡ some b → b.header_hash ≡ x
  pub full :
      (x : ℕ) (b : BlockRecord)
      → lookup x store.records ≡ some b
      → (f : FullBlock Body) × (lookup x store.full_blocks ≡ some f) × (f.height ≡ b.height)
  pub before :
      (x j : ℕ) (b : BlockRecord)
      → lookup x store.records ≡ some b
      → b.height ≡ suc j
      → (p : BlockRecord) × (lookup b.prev_hash store.records ≡ some p) × (p.height ≡ j)

pub lookup-insert-same :
    {V : Type 0} (k : ℕ) (v : V) (d : Dict V) → lookup k (insert k v d) ≡ some v
lookup-insert-same k v d = let same = ==_refl k in rw (lookup-insert k k v d, same) refl

pub lookup-insert-other :
    {V : Type 0} (k j : ℕ) (v : V) (d : Dict V)
    → (k == j) ≡ false
    → lookup j (insert k v d) ≡ lookup j d
lookup-insert-other k j v d e = rw (lookup-insert k j v d, e) refl

differ_above : (n k : ℕ) → k ≤ n → (suc n == k) ≡ false
differ_above n k h = ground arith

module _ (records : Dict BlockRecord) where
  pub IsPath-first :
      (hashes : Dict ℕ) (b : BlockRecord)
      → lookup b.header_hash records ≡ some b
      → b.height ≡ 0
      → IsPath records (insert b.height b.header_hash hashes) b.height b.header_hash
  IsPath-first hashes b e z = record {
    top = lookup-insert-same b.height b.header_hash hashes;
    each = λ k h.
        let zero_k : b.height ≡ k = omega (arith, z, h) in
        (
          b,
          subst (λ (n : ℕ). lookup n (insert b.height b.header_hash hashes) ≡ some b.header_hash)
              zero_k (lookup-insert-same b.height b.header_hash hashes),
          e,
          zero_k,
          λ j q. absurd (omega (arith, z, h, q)),
        );
  }

  -- One more block on the path.
  pub IsPath-next :
      (hashes : Dict ℕ) (n : ℕ) (b : BlockRecord)
      → IsPath records hashes n b.prev_hash
      → lookup b.header_hash records ≡ some b
      → b.height ≡ suc n
      → IsPath records (insert b.height b.header_hash hashes) b.height b.header_hash
  IsPath-next hashes n b path e up = record {
    top = lookup-insert-same b.height b.header_hash hashes;
    each = λ k h. elim (below_or_top n k (omega (arith, up, h))) [
      | inl low ↦
          let (c, e1, e2, e3, e4) = path.each k low in
          (c, keep k low ∙ e1, e2, e3, λ j q. keep j (omega (arith, low, q)) ∙ e4 j q)
      | inr high ↦ (
        b,
        subst (λ (m : ℕ). lookup m (insert b.height b.header_hash hashes) ≡ some b.header_hash)
            (up ∙ sym high) (lookup-insert-same b.height b.header_hash hashes),
        e,
        up ∙ sym high,
        λ j q.
            let here : j ≡ n = omega (arith, high, q) in
            keep j (omega (arith, here))
            ∙ subst (λ (m : ℕ). lookup m hashes ≡ some b.prev_hash) (sym here) path.top,
      )
    ];
  }
    where
      below_or_top : (n k : ℕ) → k ≤ suc n → (k ≤ n) ⊎ (k ≡ suc n)
      below_or_top n k h = omega (arith, h)

      keep : (j : ℕ) → j ≤ n → lookup j (insert b.height b.header_hash hashes) ≡ lookup j hashes
      keep j h = lookup-insert-other b.height j b.header_hash hashes (rw up (differ_above n j h))

  -- A path stays one when blocks become known, and down to any of its heights.
  pub IsPath-known :
      (more : Dict BlockRecord) (hashes : Dict ℕ) (n x : ℕ)
      → ((y : ℕ) (b : BlockRecord) → lookup y records ≡ some b → lookup y more ≡ some b)
      → IsPath records hashes n x
      → IsPath more hashes n x
  IsPath-known more hashes n x known path = record {
    top = path.top;
    each =
        λ k h. let (b, e1, e2, e3, e4) = path.each k h in (b, e1, known b.header_hash b e2, e3, e4);
  }

  pub IsPath-down :
      (hashes : Dict ℕ) (n x k y : ℕ)
      → IsPath records hashes n x
      → k ≤ n
      → lookup k hashes ≡ some y
      → IsPath records hashes k y
  IsPath-down hashes n x k y path h e = record {
    top = e;
    each = λ j q. path.each j (omega (arith, h, q));
  }
