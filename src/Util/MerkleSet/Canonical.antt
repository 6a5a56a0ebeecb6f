-- ===== src/Util/MerkleSet/Canonical.antt =====
-- sector/util/merkle_set.py: a shaped tree is given by its hashes alone.
use sector_blockchain.Prelude.{
  ℕ, ◌+◌, ◌≤◌, ◌≡◌, ◌≢◌, refl, sym, ap, ◌∙◌, ◌⊎◌, arith, Bool, true, ◌==◌, ◌&&◌, ◌||◌, Bool-cases,
  inl, inr,
}
use sector_blockchain.Util.MerkleSet.Node.{Node, empty, terminal, middle, truncated}
use sector_blockchain.Util.MerkleSet.Bits.{bit}
use sector_blockchain.Util.MerkleSet.Shape.{has, has-IsShaped, weight, IsShaped}

-- A tree that is not empty has a hash.
some_hash :
    (t : Node) (d : ℕ) (P : ℕ → Type 0) → IsShaped d P t → 1 ≤ weight t → (z : ℕ) × (has z t ≡ true)
unfolding IsShaped has
some_hash empty d P s w = absurd (omega arith)
some_hash (terminal h) d P s w = (h, ground arith)
some_hash (middle l r) d P (_, sl, sr, n) w = elim (nonempty (weight l) (weight r) n) [
  | inl a ↦
      let (z, e) = some_hash l (d + 1) (λ x. P x × (bit x d ≡ 0)) sl a in (z, ground (arith, e))
  | inr b ↦
      let (z, e) = some_hash r (d + 1) (λ x. P x × (bit x d ≡ 1)) sr b in (z, ground (arith, e))
]
  where
    nonempty : (m n : ℕ) → 2 ≤ m + n → (1 ≤ m) ⊎ (1 ≤ n)
    nonempty m n h = omega arith
some_hash (truncated h) d P s w = absurd s

or_left : (a b : Bool) → a ≡ true → (a || b) ≡ true
or_left a b e = ground arith

or_right : (a b : Bool) → b ≡ true → (a || b) ≡ true
or_right a b e = ground arith

-- A tree with more than one hash has two that differ.
two_hashes :
    (t : Node) (d : ℕ) (P : ℕ → Type 0)
    → IsShaped d P t
    → 2 ≤ weight t
    → (y : ℕ) × (z : ℕ) × (has y t ≡ true) × (has z t ≡ true) × (y ≢ z)
unfolding IsShaped has
two_hashes empty d P s w = absurd (omega arith)
two_hashes (terminal h) d P s w = absurd (omega arith)
two_hashes (middle l r) d P (_, sl, sr, n) w = elim (places (weight l) (weight r) n) [
  | inl a ↦
      let (y, z, p, q, ne) = two_hashes l (d + 1) (λ x. P x × (bit x d ≡ 0)) sl a in
      (y, z, or_left (has y l) (has y r) p, or_left (has z l) (has z r) q, ne)
  | inr (inl b) ↦
      let (y, z, p, q, ne) = two_hashes r (d + 1) (λ x. P x × (bit x d ≡ 1)) sr b in
      (y, z, or_right (has y l) (has y r) p, or_right (has z l) (has z r) q, ne)
  | inr (inr (a, b)) ↦
      let (y, p) = some_hash l (d + 1) (λ x. P x × (bit x d ≡ 0)) sl a in
      let (z, q) = some_hash r (d + 1) (λ x. P x × (bit x d ≡ 1)) sr b in
      let zero_bit = (has-IsShaped l (d + 1) (λ x. P x × (bit x d ≡ 0)) y sl p).1 in
      let one_bit = (has-IsShaped r (d + 1) (λ x. P x × (bit x d ≡ 1)) z sr q).1 in
      (
        y,
        z,
        or_left (has y l) (has y r) p,
        or_right (has z l) (has z r) q,
        λ e. absurd (apart (sym zero_bit ∙ ap (λ (x : ℕ). bit x d) e ∙ one_bit)),
      )
]
  where
    places : (m n : ℕ) → 2 ≤ m + n → (2 ≤ m) ⊎ ((2 ≤ n) ⊎ ((1 ≤ m) × (1 ≤ n)))
    places m n h = omega arith

    apart : ◌≢◌ {A = ℕ} 0 1
    apart e = omega arith
two_hashes (truncated h) d P s w = absurd s

-- The children of a shaped middle node have the hashes of their bit.
has-left :
    (l r : Node) (d : ℕ) (P : ℕ → Type 0) (z : ℕ)
    → IsShaped d P (middle l r)
    → has z l ≡ (has z (middle l r) && (bit z d == 0))
unfolding IsShaped has
has-left l r d P z (_, sl, sr, _) = elim (Bool-cases (has z l)) [
  | inl e ↦ let b = (has-IsShaped l (d + 1) (λ x. P x × (bit x d ≡ 0)) z sl e).1 in rw (e, b) refl
  | inr e ↦ elim (Bool-cases (has z r)) [
    | inl f ↦
        let b = (has-IsShaped r (d + 1) (λ x. P x × (bit x d ≡ 1)) z sr f).1 in rw (e, f, b) refl
    | inr f ↦ rw (e, f) refl
  ]
]

has-right :
    (l r : Node) (d : ℕ) (P : ℕ → Type 0) (z : ℕ)
    → IsShaped d P (middle l r)
    → has z r ≡ (has z (middle l r) && (bit z d == 1))
unfolding IsShaped has
has-right l r d P z (_, sl, sr, _) = elim (Bool-cases (has z r)) [
  | inl f ↦
      let b = (has-IsShaped r (d + 1) (λ x. P x × (bit x d ≡ 1)) z sr f).1 in
      rw (f, b) (sym (or_true (has z l)))
  | inr f ↦ elim (Bool-cases (has z l)) [
    | inl e ↦
        let b = (has-IsShaped l (d + 1) (λ x. P x × (bit x d ≡ 0)) z sl e).1 in rw (e, f, b) refl
    | inr e ↦ rw (e, f) refl
  ]
]
  where
    or_true : (b : Bool) → ((b || true) && true) ≡ true
    or_true b = ground arith

lone-not-two :
    (h : ℕ) (t : Node) (d : ℕ) (P : ℕ → Type 0)
    → IsShaped d P t
    → 2 ≤ weight t
    → ((z : ℕ) → has z (terminal h) ≡ has z t)
    → ⊥
unfolding has
lone-not-two h t d P s w same =
    let (y, z, p, q, ne) = two_hashes t d P s w in ne (at y (same y ∙ p) ∙ sym (at z (same z ∙ q)))
  where
    at : (z : ℕ) → (h == z) ≡ true → z ≡ h
    at z e = ground arith

-- Two shaped trees with the same hashes are the same tree.
pub IsShaped-unique :
    (t u : Node) (d : ℕ) (P : ℕ → Type 0)
    → IsShaped d P t
    → IsShaped d P u
    → ((z : ℕ) → has z t ≡ has z u)
    → t ≡ u
unfolding IsShaped has
IsShaped-unique empty empty d P s v same = refl
IsShaped-unique empty (terminal h) d P s v same = absurd (ground (arith, same h))
IsShaped-unique empty (middle l r) d P s v same =
    let (z, e) = some_hash (middle l r) d P v (omega arith) in absurd (cc (same z, e))
IsShaped-unique (terminal h) empty d P s v same = absurd (ground (arith, same h))
IsShaped-unique (terminal h) (terminal k) d P s v same =
    let e : h ≡ k = ground (arith, same h) in ap terminal e
IsShaped-unique (terminal h) (middle l r) d P s v same =
    absurd (lone-not-two h (middle l r) d P v (omega arith) same)
IsShaped-unique (middle l r) empty d P s v same =
    let (z, e) = some_hash (middle l r) d P s (omega arith) in absurd (cc (same z, e))
IsShaped-unique (middle l r) (terminal h) d P s v same =
    absurd (lone-not-two h (middle l r) d P s (omega arith) (λ z. sym (same z)))
IsShaped-unique (middle l r) (middle l' r') d P s v same =
    let left =
      IsShaped-unique l l' (d + 1) (λ x. P x × (bit x d ≡ 0)) (s.1) (v.1)
        (λ z.
          has-left l r d P z s
          ∙ ap (λ (b : Bool). b && (bit z d == 0)) (same z)
          ∙ sym (has-left l' r' d P z v)) in
    let right =
      IsShaped-unique r r' (d + 1) (λ x. P x × (bit x d ≡ 1)) (s.2) (v.2)
        (λ z.
          has-right l r d P z s
          ∙ ap (λ (b : Bool). b && (bit z d == 1)) (same z)
          ∙ sym (has-right l' r' d P z v)) in
    ap (λ (t : Node). middle t r) left ∙ ap (λ (t : Node). middle l' t) right
IsShaped-unique (truncated h) u d P s v same = absurd s
IsShaped-unique t (truncated h) d P s v same = absurd v
