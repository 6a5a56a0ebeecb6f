-- ===== src/Util/MerkleSet/History.antt =====
-- sector/util/merkle_set.py: a `MerkleSet` against an abstract set of hashes.
use sector_blockchain.Prelude.{
  ℕ, ◌≡◌, refl, sym, ap, ◌∙◌, Bool, false, ◌==◌, not, ◌&&◌, ◌||◌, List, [], ◌∷◌, All,
}
use sector_blockchain.Python.{Result, ok, ◌>>=◌}
use sector_blockchain.Util.MerkleSet.Node.{Node, empty}
use sector_blockchain.Util.MerkleSet.Operations.{or_self}
use sector_blockchain.Util.MerkleSet.Hash.{get_root, add_already_hashed, remove_already_hashed}
use sector_blockchain.Util.MerkleSet.Shape.{has, IsShaped}
use sector_blockchain.Util.MerkleSet.Added.{IsHash, add-IsShaped}
use sector_blockchain.Util.MerkleSet.Removed.{remove-IsShaped}
use sector_blockchain.Util.MerkleSet.Canonical.{IsShaped-unique}

-- A call of `add_already_hashed` or of `remove_already_hashed`.
pub data Call : Type 0 where
  add_hash : ℕ → Call
  remove_hash : ℕ → Call

-- The hash of a call has 32 bytes.
abbrev pub IsCall : Call → Type 0
IsCall (add_hash x) = IsHash x
IsCall (remove_hash x) = IsHash x

module _ (sha256 : List ℕ → ℕ) where
  call : Call → Node → Result Node
  call (add_hash x) root = add_already_hashed sha256 root x
  call (remove_hash x) root = remove_already_hashed sha256 root x

  -- The root node after the calls, in their order.
  unfoldable pub run : List Call → Node → Result Node
  unfolding call
  run [] root = ok root
  run (c ∷ calls) root = let rest = run calls in call c root >>= rest

-- A set of hashes, as its test, after the calls.
unfoldable pub held : List Call → (ℕ → Bool) → ℕ → Bool
held [] s z = s z
held (add_hash x ∷ calls) s z = held calls (λ y. x == y || s y) z
held (remove_hash x ∷ calls) s z = held calls (λ y. not (x == y) && s y) z

held-ext :
    (calls : List Call) (s t : ℕ → Bool)
    → ((y : ℕ) → s y ≡ t y)
    → (z : ℕ) → held calls s z ≡ held calls t z
unfolding held
held-ext [] s t e z = e z
held-ext (add_hash x ∷ calls) s t e z =
    held-ext calls _ _ (λ y. ap (λ (b : Bool). x == y || b) (e y)) z
held-ext (remove_hash x ∷ calls) s t e z =
    held-ext calls _ _ (λ y. ap (λ (b : Bool). not (x == y) && b) (e y)) z

has-empty : (y : ℕ) → has y empty ≡ false
unfolding has
has-empty y = refl

module _ (sha256 : List ℕ → ℕ) where
  -- Any calls with hashes of 32 bytes, on a shaped tree, go through, and leave a shaped tree that has
  -- the hashes of the set after the same calls.
  pub run-held :
      (calls : List Call) (t : Node)
      → All IsCall calls
      → IsShaped 0 IsHash t
      → (u : Node) × (run sha256 calls t ≡ ok u)
        × IsShaped 0 IsHash u
        × ((z : ℕ) → has z u ≡ held calls (λ y. has y t) z)
  unfolding run call add_already_hashed remove_already_hashed held
  run-held [] t h s = (t, refl, s, λ z. refl)
  run-held (add_hash x ∷ calls) t (hx, h) s =
      let (o, e, so, ho) = add-IsShaped t x s hx in
      let (u, eu, su, hu) = run-held calls (or_self t o) h so in
      (u, rw (e, eu) refl, su, λ z. hu z ∙ held-ext calls _ _ ho z)
  run-held (remove_hash x ∷ calls) t (hx, h) s =
      let (o, e, so, ho) = remove-IsShaped t x s in
      let (u, eu, su, hu) = run-held calls (or_self t o) h so in
      (u, rw (e, eu) refl, su, λ z. hu z ∙ held-ext calls _ _ ho z)

  -- Two histories of a new set that leave the same hashes leave the same root hash.
  pub get_root-held :
      (calls calls' : List Call)
      → All IsCall calls
      → All IsCall calls'
      → ((z : ℕ) → held calls (λ y. false) z ≡ held calls' (λ y. false) z)
      → (u : Node) × (v : Node) × (run sha256 calls empty ≡ ok u)
        × (run sha256 calls' empty ≡ ok v)
        × (get_root sha256 u ≡ get_root sha256 v)
  get_root-held calls calls' h h' same =
      let s : IsShaped 0 IsHash empty = unfold IsShaped in tt in
      let (u, eu, su, hu) = run-held calls empty h s in
      let (v, ev, sv, hv) = run-held calls' empty h' s in
      let one = IsShaped-unique u v 0 IsHash su sv (λ z.
        hu z
        ∙ held-ext calls _ _ has-empty z
        ∙ same z
        ∙ sym (held-ext calls' _ _ has-empty z)
        ∙ sym (hv z)) in
      (u, v, eu, ev, ap (get_root sha256) one)
