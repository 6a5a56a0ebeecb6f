-- ===== src/Util/MerkleSet/Included.antt =====
-- sector/util/merkle_set.py: `is_included` finds just the hashes of the tree, with a proof of
-- either answer.
use sector_blockchain.Prelude.{
  ℕ, ◌+◌, ◌<◌, ◌≡◌, refl, ◌⊎◌, arith, Bool, true, false, ◌==◌, not, ◌||◌, Bool-cases, inl, inr,
  List, [], ◌∷◌, ◌++◌,
}
use sector_blockchain.Python.{ok}
use sector_blockchain.Util.Ints.Bytes.{to_bytes}
use sector_blockchain.Util.MerkleSet.Node.{Node, empty, terminal, middle, truncated, is_empty}
use sector_blockchain.Util.MerkleSet.Operations.{other_included, is_included}
use sector_blockchain.Util.MerkleSet.Bits.{bit, bit-lt, get_bit_lem}
use sector_blockchain.Util.MerkleSet.Shape.{has, IsShaped, has-IsShaped, is_double-IsShaped}
use sector_blockchain.Util.MerkleSet.Added.{IsHash}

module _ (hash_of : Node → ℕ) where
  -- `other_included` raises nothing at a shaped child.
  other_included_ok :
      (t : Node) (close : Bool) (d : ℕ) (P : ℕ → Type 0) (found : Bool) (proof : List ℕ)
      → IsShaped d P t
      → (q : List ℕ) × (other_included hash_of t close (ok (found, proof)) ≡ ok q)
  unfolding other_included IsShaped
  other_included_ok empty close d P f p s = (0 ∷ [], refl)
  other_included_ok (terminal h) close d P f p s = (1 ∷ to_bytes 32 h, refl)
  other_included_ok (middle l r) true d P f p s = (3 ∷ to_bytes 32 (hash_of (middle l r)), refl)
  other_included_ok (middle l r) false d P f p s =
      let (b, e) = is_double-IsShaped (middle l r) d P s (omega arith) in
      elim (Bool-cases b) [
        | inl t ↦ (p, rw (e, t) refl)
        | inr n ↦ (3 ∷ to_bytes 32 (hash_of (middle l r)), rw (e, n) refl)
      ]
  other_included_ok (truncated h) close d P f p s = absurd s

  Finds : Node → ℕ → ℕ → Type 0
  Finds t x d = (found : Bool) × (proof : List ℕ) × (is_included hash_of t x d ≡ ok (found, proof))

  -- Below a node the search answers, on either side; on the side of the hash, with the right answer.
  is_included_shaped :
      (t : Node) (d : ℕ) (P : ℕ → Type 0) (x : ℕ)
      → IsShaped d P t
      → (proof : List ℕ) × (is_included hash_of t x d ≡ ok (has x t, proof))
  unfolding is_included IsShaped has
  is_included_shaped empty d P x s = (0 ∷ [], refl)
  is_included_shaped (terminal h) d P x s = (1 ∷ to_bytes 32 h, rw (eq_sym x h) refl)
    where
      eq_sym : (x h : ℕ) → (x == h) ≡ (h == x)
      eq_sym x h = ground arith
  is_included_shaped (middle l r) d P x (below, sl, sr, w) =
      let (p, ep) = is_included_shaped l (d + 1) (λ y. P y × (bit y d ≡ 0)) x sl in
      let (q, eq) = is_included_shaped r (d + 1) (λ y. P y × (bit y d ≡ 1)) x sr in
      elim (zero_or_one (bit x d) (bit-lt x d)) [
        | inl z ↦
            let (o, eo) =
              other_included_ok r (not (is_empty l)) (d + 1) (λ y. P y × (bit y d ≡ 1)) (has x r) q
                sr in
            (
              2 ∷ (p ++ o),
              rw (get_bit_lem x d below, z, ep, eq, eo, absent_right z, or_false (has x l)) refl,
            )
        | inr one ↦
            let (o, eo) =
              other_included_ok l (not (is_empty r)) (d + 1) (λ y. P y × (bit y d ≡ 0)) (has x l) p
                sl in
            (2 ∷ (o ++ q), rw (get_bit_lem x d below, one, ep, eq, eo, absent_left one) refl)
      ]
    where
      or_false : (b : Bool) → (b || false) ≡ b
      or_false b = ground arith

      zero_or_one : (n : ℕ) → n < 2 → (n ≡ 0) ⊎ (n ≡ 1)
      zero_or_one n h = omega arith

      absent_right : bit x d ≡ 0 → has x r ≡ false
      absent_right z = elim (Bool-cases (has x r)) [
        | inl e ↦
            absurd (omega (arith, z, (has-IsShaped r (d + 1) (λ y. P y × (bit y d ≡ 1)) x sr e).1))
        | inr e ↦ e
      ]

      absent_left : bit x d ≡ 1 → has x l ≡ false
      absent_left z = elim (Bool-cases (has x l)) [
        | inl e ↦
            absurd (omega (arith, z, (has-IsShaped l (d + 1) (λ y. P y × (bit y d ≡ 0)) x sl e).1))
        | inr e ↦ e
      ]
  is_included_shaped (truncated h) d P x s = absurd s

  -- On a shaped tree the search for a hash raises nothing and answers whether the tree has it.
  pub is_included-has :
      (t : Node) (x : ℕ)
      → IsShaped 0 IsHash t
      → (proof : List ℕ) × (is_included hash_of t x 0 ≡ ok (has x t, proof))
  is_included-has t x s = is_included_shaped t 0 IsHash x s
