-- ===== src/Util/MerkleSet/Operations.antt =====
-- sector/util/merkle_set.py: `add`, `remove` and `is_included` of each class of node.
-- `add` and `remove` may return the node itself, which their callers test by `is`: that is `none`.
use sector_blockchain.Prelude.{
  ℕ, zero, suc, ◌+◌, Bool, false, ltb, ◌==◌, ◌&&◌, not, Option, none, some, List, [], ◌∷◌, ◌++◌,
  if◌then◌else◌,
}
use sector_blockchain.Python.{Result, ok, raise, set_error, out_of_fuel, ◌>>=◌}
use sector_blockchain.Util.Ints.Bytes.{to_bytes}
use sector_blockchain.Util.MerkleSet.Node.{
  Node, empty, terminal, middle, truncated, get_bit, is_empty, is_terminal, is_double, middle_node,
}

-- `_make_middle` of two terminals. A depth of 256 has no bit, so the fuel of `add` is enough.
unfoldable pub make_middle : ℕ → ℕ → ℕ → ℕ → Result Node
make_middle zero a b depth = raise out_of_fuel
make_middle (suc fuel) a b depth =
    let deeper = make_middle fuel a b (depth + 1) in
    do
      x ← get_bit a depth
      y ← get_bit b depth
      if not (x == y)
          then middle_node (terminal a) (terminal b)
          else if x == 0
          then (do m ← deeper; middle_node m empty)
          else (do m ← deeper; middle_node empty m)

-- A middle node with a new child, or itself.
abbrev pub with_left : Node → Option Node → Result (Option Node)
with_left r none = ok none
with_left r (some l) = do n ← middle_node l r; ok (some n)

abbrev pub with_right : Node → Option Node → Result (Option Node)
with_right l none = ok none
with_right l (some r) = do n ← middle_node l r; ok (some n)

unfoldable pub add : Node → ℕ → ℕ → Result (Option Node)
add empty toadd depth = ok (some (terminal toadd))
add (terminal h) toadd depth =
    if toadd == h
    then ok none
    else if ltb h toadd
    then (do n ← make_middle 257 h toadd depth; ok (some n))
    else (do n ← make_middle 257 toadd h depth; ok (some n))
add (middle l r) toadd depth =
    let left = (do n ← add l toadd (depth + 1); with_left r n) in
    let right = (do n ← add r toadd (depth + 1); with_right l n) in
    do bit ← get_bit toadd depth; if bit == 0 then left else right
add (truncated h) toadd depth = ok none

-- `newchild` and `otherchild`: a lone terminal takes the place of the middle node.
abbrev pub collapse : Node → Node → Result Node → Result (Option Node)
collapse newchild otherchild rebuilt =
    if is_empty newchild && is_terminal otherchild
    then ok (some otherchild)
    else if is_terminal newchild && is_empty otherchild
    then ok (some newchild)
    else (do n ← rebuilt; ok (some n))

unfoldable pub remove : Node → ℕ → ℕ → Result (Option Node)
remove empty toremove depth = ok none
remove (terminal h) toremove depth = if toremove == h then ok (some empty) else ok none
remove (middle l r) toremove depth =
    let left = (do
      n ← remove l toremove (depth + 1)
      elim n [ none ↦ ok none | some l' ↦ collapse l' r (middle_node l' r) ]) in
    let right = (do
      n ← remove r toremove (depth + 1)
      elim n [ none ↦ ok none | some r' ↦ collapse r' l (middle_node l r') ]) in
    do bit ← get_bit toremove depth; if bit == 0 then left else right
remove (truncated h) toremove depth = ok none

-- The node that the caller has then: a new one, or the old one.
abbrev pub or_self : Node → Option Node → Node
or_self t none = t
or_self t (some n) = n

-- Bytes of a proof: the marks EMPTY, TERMINAL, MIDDLE and TRUNCATED, and hashes.
module _ (hash_of : Node → ℕ) where
  -- `other_included`, given the call of `is_included` on the same node.
  unfoldable pub other_included : Node → Bool → Result (Bool × List ℕ) → Result (List ℕ)
  other_included empty close included = ok (0 ∷ [])
  other_included (terminal h) close included = ok (1 ∷ to_bytes 32 h)
  other_included (middle l r) close included =
      if close then ok (3 ∷ to_bytes 32 (hash_of (middle l r))) else do
        double ← is_double (middle l r)
        if not double
            then ok (3 ∷ to_bytes 32 (hash_of (middle l r)))
            else (do (_, p) ← included; ok p)
  other_included (truncated h) close included = ok (3 ∷ to_bytes 32 h)

  -- The answer and the bytes that are appended to the proof.
  unfoldable pub is_included : Node → ℕ → ℕ → Result (Bool × List ℕ)
  is_included empty tocheck depth = ok (false, 0 ∷ [])
  is_included (terminal h) tocheck depth = ok (tocheck == h, 1 ∷ to_bytes 32 h)
  is_included (middle l r) tocheck depth =
      let in_left = is_included l tocheck (depth + 1) in
      let in_right = is_included r tocheck (depth + 1) in
      let left = (do
        (found, p) ← in_left
        q ← other_included r (not (is_empty l)) in_right
        ok (found, 2 ∷ (p ++ q))) in
      let right = (do
        p ← other_included l (not (is_empty r)) in_left
        (found, q) ← in_right
        ok (found, 2 ∷ (p ++ q))) in
      do bit ← get_bit tocheck depth; if bit == 0 then left else right
  is_included (truncated h) tocheck depth = raise set_error
