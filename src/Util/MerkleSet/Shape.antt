-- ===== src/Util/MerkleSet/Shape.antt =====
-- sector/util/merkle_set.py: what a tree must be like for the nodes' constructors to accept it.
use sector_blockchain.Prelude.{
  ℕ, ◌+◌, ◌≤◌, ◌<◌, ◌≡◌, refl, sym, ◌∙◌, arith, Bool, true, false, ◌==◌, ◌||◌, Bool-cases, inl, inr,
  if◌then◌else◌,
}
use mathlib.Core.Path.{subst}
use sector_blockchain.Python.{ok}
use sector_blockchain.Util.MerkleSet.Node.{
  Node, empty, terminal, middle, truncated, is_double, middle_node,
}
use sector_blockchain.Util.MerkleSet.Bits.{bit, Agree, Agree-suc, bits-lt}

-- The hash is at a terminal of the tree, wherever that stands.
unfoldable pub has : ℕ → Node → Bool
has z empty = false
has z (terminal h) = h == z
has z (middle l r) = has z l || has z r
has z (truncated h) = false

-- 0 for no hash, 1 for one, 2 for more.
abbrev pub weight : Node → ℕ
weight empty = 0
weight (terminal h) = 1
weight (middle l r) = 2
weight (truncated h) = 2

-- The tree of hashes in `P`, at a depth: each hash stands where its bits lead, a middle node has two
-- hashes or more, and nothing is truncated.
unfoldable pub IsShaped : ℕ → (ℕ → Type 0) → Node → Type 0
IsShaped d P empty = Unit {0}
IsShaped d P (terminal h) = P h
IsShaped d P (middle l r) =
    (d < 256)
    × IsShaped (d + 1) (λ x. P x × (bit x d ≡ 0)) l
    × IsShaped (d + 1) (λ x. P x × (bit x d ≡ 1)) r
    × (2 ≤ weight l + weight r)
IsShaped d P (truncated h) = ⊥

pub has-IsShaped :
    (t : Node) (d : ℕ) (P : ℕ → Type 0) (z : ℕ) → IsShaped d P t → has z t ≡ true → P z
unfolding has IsShaped
has-IsShaped empty d P z s h = absurd (ground arith)
has-IsShaped (terminal x) d P z s h = let same : x ≡ z = ground arith in subst P same s
has-IsShaped (middle l r) d P z (_, sl, sr, _) h = elim (Bool-cases (has z l)) [
  | inl e ↦ (has-IsShaped l (d + 1) (λ x. P x × (bit x d ≡ 0)) z sl e).0
  | inr e ↦ (has-IsShaped r (d + 1) (λ x. P x × (bit x d ≡ 1)) z sr (ground arith)).0
]
has-IsShaped (truncated x) d P z s h = absurd s

pub is_double-IsShaped :
    (t : Node) (d : ℕ) (P : ℕ → Type 0)
    → IsShaped d P t
    → 2 ≤ weight t
    → (b : Bool) × (is_double t ≡ ok b)
unfolding is_double IsShaped
is_double-IsShaped empty d P s w = absurd (omega arith)
is_double-IsShaped (terminal x) d P s w = absurd (omega arith)
is_double-IsShaped (middle empty r) d P (_, _, s, n) w =
    is_double-IsShaped r (d + 1) (λ x. P x × (bit x d ≡ 1)) s (omega arith)
is_double-IsShaped (middle (terminal x) empty) d P (_, _, _, n) w = absurd (omega arith)
is_double-IsShaped (middle (terminal x) (terminal y)) d P s w = (true, refl)
is_double-IsShaped (middle (terminal x) (middle c e)) d P s w = (false, refl)
is_double-IsShaped (middle (terminal x) (truncated y)) d P s w = (false, refl)
is_double-IsShaped (middle (middle a b) empty) d P (_, s, _, _) w =
    is_double-IsShaped (middle a b) (d + 1) (λ x. P x × (bit x d ≡ 0)) s (omega arith)
is_double-IsShaped (middle (middle a b) (terminal y)) d P s w = (false, refl)
is_double-IsShaped (middle (middle a b) (middle c e)) d P s w = (false, refl)
is_double-IsShaped (middle (middle a b) (truncated y)) d P s w = (false, refl)
is_double-IsShaped (middle (truncated x) r) d P (_, s, _, _) w = absurd s
is_double-IsShaped (truncated x) d P s w = absurd s

-- What a depth and a property say of two hashes that have it.
abbrev pub Agrees : ℕ → (ℕ → Type 0) → Type 0
Agrees d P = (x y : ℕ) → P x → P y → Agree d x y

pub Agrees-bit :
    (d : ℕ) (P : ℕ → Type 0) (b : ℕ)
    → d < 256
    → Agrees d P
    → Agrees (d + 1) (λ x. P x × (bit x d ≡ b))
Agrees-bit d P b h a x y (px, bx) (py, by) =
    subst (λ (n : ℕ). Agree n x y) (omega arith) (Agree-suc d x y h (a x y px py) (bx ∙ sym by))

-- The constructor takes two shaped children that hold two hashes or more.
pub middle_node-IsShaped :
    (l r : Node) (d : ℕ) (P : ℕ → Type 0)
    → Agrees d P
    → IsShaped d P (middle l r)
    → middle_node l r ≡ ok (middle l r)
unfolding middle_node IsShaped
middle_node-IsShaped empty empty d P a (_, _, _, w) = absurd (omega arith)
middle_node-IsShaped empty (terminal y) d P a (_, _, _, w) = absurd (omega arith)
middle_node-IsShaped empty (middle p q) d P a (h, _, s, w) =
    let (b, e) =
      is_double-IsShaped (middle p q) (d + 1) (λ x. P x × (bit x d ≡ 1)) s (omega arith) in
    rw e (either b)
  where
    either :
        (b : Bool)
        → (if b then ok (middle empty (middle p q)) else ok (middle empty (middle p q)))
          ≡ ok (middle empty (middle p q))
    either true = refl
    either false = refl
middle_node-IsShaped empty (truncated y) d P a (_, _, s, _) = absurd s
middle_node-IsShaped (terminal x) empty d P a (_, _, _, w) = absurd (omega arith)
middle_node-IsShaped (terminal x) (terminal y) d P a (h, (px, bx), (py, by), _) =
    let lt : x < y = bits-lt d x y h (a x y px py) bx by in ground arith
middle_node-IsShaped (terminal x) (middle p q) d P a s = refl
middle_node-IsShaped (terminal x) (truncated y) d P a s = refl
middle_node-IsShaped (middle p q) empty d P a (h, s, _, w) =
    let (b, e) =
      is_double-IsShaped (middle p q) (d + 1) (λ x. P x × (bit x d ≡ 0)) s (omega arith) in
    rw e (either b)
  where
    either :
        (b : Bool)
        → (if b then ok (middle (middle p q) empty) else ok (middle (middle p q) empty))
          ≡ ok (middle (middle p q) empty)
    either true = refl
    either false = refl
middle_node-IsShaped (middle p q) (terminal y) d P a s = refl
middle_node-IsShaped (middle p q) (middle u v) d P a s = refl
middle_node-IsShaped (middle p q) (truncated y) d P a s = refl
middle_node-IsShaped (truncated x) r d P a (_, s, _, _) = absurd s
