-- ===== src/Util/MerkleSet/Hash.antt =====
-- sector/util/merkle_set.py: the hashes of the nodes and the root, and the class `MerkleSet`.
use sector_blockchain.Prelude.{ℕ, Bool, false, ◌&&◌, List, ◌∷◌, ◌++◌, if◌then◌else◌}
use sector_blockchain.Python.{Result, ok, raise, ◌>>=◌}
use sector_blockchain.Util.Ints.Bytes.{to_bytes}
use sector_blockchain.Util.MerkleSet.Node.{
  Node, empty, terminal, middle, truncated, is_empty, is_double,
}
use sector_blockchain.Util.MerkleSet.Operations.{add, remove, is_included, or_self}

-- Whether the node is a double; an error counts as no.
abbrev double? : Node → Bool
double? n = elim (is_double n) [ ok d ↦ d | raise e ↦ false ]

-- `sha256` is the digest, as a number, of the standard library's `hashlib`.
module _ (sha256 : List ℕ → ℕ) where
  -- The mark of `get_hash()`; a truncated node passes for a middle one.
  mark : Node → ℕ
  mark empty = 0
  mark (terminal h) = 1
  mark (middle l r) = 2
  mark (truncated h) = 2

  -- `hashdown`: thirty zeros, the two marks, the two hashes. `prehashed` keeps the state of the
  -- digest behind the marks, which changes no digest.
  hashdown : ℕ → ℕ → ℕ → ℕ → ℕ
  hashdown x a y b = sha256 (to_bytes 30 0 ++ (x ∷ y ∷ (to_bytes 32 a ++ to_bytes 32 b)))

  -- The field `hash`, as `MiddleNode.__init__` sets it.
  unfoldable pub node_hash : Node → ℕ
  unfolding mark hashdown
  node_hash empty = 0
  node_hash (terminal h) = h
  node_hash (truncated h) = h
  node_hash (middle l r) =
      let a = node_hash l in
      let b = node_hash r in
      if is_empty l && double? r
      then b
      else if is_empty r && double? l
      then a
      else hashdown (mark l) a (mark r) b

  -- `compress_root(root.get_hash())`
  unfoldable pub get_root : Node → ℕ
  get_root empty = 0
  get_root (terminal h) = sha256 (1 ∷ to_bytes 32 h)
  get_root (middle l r) = node_hash (middle l r)
  get_root (truncated h) = h

  unfoldable pub add_already_hashed : Node → ℕ → Result Node
  add_already_hashed root toadd = do n ← add root toadd 0; ok (or_self root n)

  unfoldable pub remove_already_hashed : Node → ℕ → Result Node
  remove_already_hashed root toremove = do n ← remove root toremove 0; ok (or_self root n)

  unfoldable pub is_included_already_hashed : Node → ℕ → Result (Bool × List ℕ)
  is_included_already_hashed root tocheck = is_included node_hash root tocheck 0
