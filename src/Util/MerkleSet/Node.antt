-- ===== src/Util/MerkleSet/Node.antt =====
-- sector/util/merkle_set.py: the nodes of the tree, and `MiddleNode.__init__`.
-- A hash is the number that its 32 bytes spell, big-endian, so `<` is Python's order of the bytes.
use sector_blockchain.Prelude.{
  ℕ, ◌-◌, ◌/◌, ◌%◌, ◌^◌, Bool, true, false, leb, ◌&&◌, ◌||◌, none, some, get_elem?, if◌then◌else◌,
}
use sector_blockchain.Python.{Result, ok, raise, index_error, set_error, ◌>>=◌}
use sector_blockchain.Util.Ints.Bytes.{to_bytes}

pub data Node : Type 0 where
  empty : Node
  terminal : ℕ → Node
  middle : Node → Node → Node
  truncated : ℕ → Node

-- `get_bit`: bit `7 - pos % 8` of byte `pos // 8`.
unfoldable pub get_bit : ℕ → ℕ → Result ℕ
get_bit mybytes pos = elim (get_elem? (to_bytes 32 mybytes) (pos / 8)) [
  | none ↦ raise index_error
  | some b ↦ ok (b / 2 ^ (7 - pos % 8) % 2)
]

abbrev pub is_empty : Node → Bool
is_empty empty = true
is_empty (terminal h) = false
is_empty (middle l r) = false
is_empty (truncated h) = false

abbrev pub is_terminal : Node → Bool
is_terminal empty = false
is_terminal (terminal h) = true
is_terminal (middle l r) = false
is_terminal (truncated h) = false

-- The hash that a terminal holds.
abbrev pub terminal_hash : Node → ℕ
terminal_hash empty = 0
terminal_hash (terminal h) = h
terminal_hash (middle l r) = 0
terminal_hash (truncated h) = h

unfoldable pub is_double : Node → Result Bool
is_double empty = raise set_error
is_double (terminal h) = raise set_error
is_double (middle l r) = elim (is_empty l) [
  | true ↦ is_double r
  | false ↦ elim (is_empty r) [ true ↦ is_double l | false ↦ ok (is_terminal l && is_terminal r) ]
]
is_double (truncated h) = ok false

-- The tests of `MiddleNode.__init__` where neither child is the double beside an empty one.
abbrev pub check_children : Node → Node → Result Node
check_children l r =
    if is_empty l && (is_empty r || is_terminal r)
    then raise set_error
    else if is_empty r && is_terminal l
    then raise set_error
    else if is_terminal l && is_terminal r && leb (terminal_hash r) (terminal_hash l)
    then raise set_error
    else ok (middle l r)

-- `MiddleNode(children)`; `and` asks for `is_double` only beside an empty child.
unfoldable pub middle_node : Node → Node → Result Node
middle_node l r = do
  right_double ← if is_empty l then is_double r else ok false
  if right_double then ok (middle l r) else do
    left_double ← if is_empty r then is_double l else ok false
    if left_double then ok (middle l r) else check_children l r
