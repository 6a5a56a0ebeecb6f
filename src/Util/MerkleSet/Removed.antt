-- ===== src/Util/MerkleSet/Removed.antt =====
-- sector/util/merkle_set.py: `remove` keeps the shape of a tree and takes the one hash out.
use sector_blockchain.Prelude.{
  ℕ, ◌+◌, ◌≤◌, ◌<◌, ◌≡◌, ◌≢◌, refl, sym, ◌∙◌, ◌⊎◌, arith, Bool, true, false, ◌==◌, not, ◌&&◌, ◌||◌,
  Bool-cases, inl, inr, Option, none, some,
}
use sector_blockchain.Python.{Result, ok, ◌>>=◌}
use sector_blockchain.Util.MerkleSet.Node.{
  Node, empty, terminal, middle, truncated, is_empty, is_terminal, middle_node,
}
use sector_blockchain.Util.MerkleSet.Operations.{collapse, remove, or_self}
use sector_blockchain.Util.MerkleSet.Bits.{bit, bit-lt, get_bit_lem, Agree-zero}
use sector_blockchain.Util.MerkleSet.Shape.{
  has, has-IsShaped, weight, IsShaped, Agrees, Agrees-bit, middle_node-IsShaped,
}
use sector_blockchain.Util.MerkleSet.Added.{IsHash}

-- What `remove` returns of a tree: itself or a new tree, as well shaped, without the one hash.
abbrev Removed : Node → ℕ → (ℕ → Type 0) → ℕ → Result (Option Node) → Type 0
Removed t d P x result =
    (o : Option Node) × (result ≡ ok o)
    × IsShaped d P (or_self t o)
    × (weight t ≤ weight (or_self t o) + 1)
    × ((z : ℕ) → has z (or_self t o) ≡ (not (x == z) && has z t))

lone :
    (t : Node) (d e : ℕ) (P Q : ℕ → Type 0)
    → ((x : ℕ) → Q x → P x)
    → is_terminal t ≡ true
    → IsShaped e Q t
    → IsShaped d P t × (weight t ≡ 1)
unfolding IsShaped
lone empty d e P Q f h s = absurd (cc)
lone (terminal x) d e P Q f h s = (f x s, refl)
lone (middle l r) d e P Q f h s = absurd (cc)
lone (truncated x) d e P Q f h s = absurd (cc)

has-is_empty : (t : Node) (z : ℕ) → is_empty t ≡ true → has z t ≡ false
unfolding has
has-is_empty empty z h = refl
has-is_empty (terminal x) z h = absurd (cc)
has-is_empty (middle l r) z h = absurd (cc)
has-is_empty (truncated x) z h = absurd (cc)

-- Two trees with a hash, of which neither is a lone hash beside an empty tree, have two.
enough :
    (l r : Node)
    → 1 ≤ weight l + weight r
    → (is_empty l && is_terminal r) ≡ false
    → (is_terminal l && is_empty r) ≡ false
    → 2 ≤ weight l + weight r
enough l r h p q = ground arith

-- A hash that is not in the tree is not missed.
absent_stays : (t : Node) (x z : ℕ) → has x t ≡ false → has z t ≡ (not (x == z) && has z t)
absent_stays t x z h = elim (Bool-cases (x == z)) [
  | inl e ↦ let same : x ≡ z = ground arith in rw e (rw (sym same) h)
  | inr e ↦ rw e refl
]

split : (a b : Bool) → (a && b) ≡ true → (a ≡ true) × (b ≡ true)
split a b h = (ground arith, ground arith)

or_false : (b : Bool) → (b || false) ≡ b
or_false b = ground arith

-- The children of a middle node, the left one new, where the one or the other has a hash.
collapsed_left :
    (l r : Node) (d : ℕ) (P : ℕ → Type 0)
    → Agrees d P
    → d < 256
    → IsShaped (d + 1) (λ y. P y × (bit y d ≡ 0)) l
    → IsShaped (d + 1) (λ y. P y × (bit y d ≡ 1)) r
    → 1 ≤ weight l + weight r
    → (n : Node) × (collapse l r (middle_node l r) ≡ ok (some n))
      × IsShaped d P n
      × (1 ≤ weight n)
      × ((z : ℕ) → has z n ≡ (has z l || has z r))
unfolding IsShaped has
collapsed_left l r d P ag below sl sr w = elim (Bool-cases (is_empty l && is_terminal r)) [
  | inl p ↦
      let (pe, pt) = split (is_empty l) (is_terminal r) p in
      let (s, one) = lone r d (d + 1) P (λ y. P y × (bit y d ≡ 1)) (λ x q. q.0) pt sr in
      (r, rw p refl, s, omega (arith, one), λ z. rw (has-is_empty l z pe) refl)
  | inr p ↦ elim (Bool-cases (is_terminal l && is_empty r)) [
    | inl q ↦
        let (qt, qe) = split (is_terminal l) (is_empty r) q in
        let (s, one) = lone l d (d + 1) P (λ y. P y × (bit y d ≡ 0)) (λ x q. q.0) qt sl in
        (
          l,
          rw (p, q) refl,
          s,
          omega (arith, one),
          λ z. rw (has-is_empty r z qe) (sym (or_false (has z l))),
        )
    | inr q ↦
        let s : IsShaped d P (middle l r) = unfold IsShaped in (below, sl, sr, enough l r w p q) in
        (middle l r, rw (p, q, middle_node-IsShaped l r d P ag s) refl, s, omega arith, λ z. refl)
  ]
]

-- The same where the right one is new.
collapsed_right :
    (l r : Node) (d : ℕ) (P : ℕ → Type 0)
    → Agrees d P
    → d < 256
    → IsShaped (d + 1) (λ y. P y × (bit y d ≡ 0)) l
    → IsShaped (d + 1) (λ y. P y × (bit y d ≡ 1)) r
    → 1 ≤ weight l + weight r
    → (n : Node) × (collapse r l (middle_node l r) ≡ ok (some n))
      × IsShaped d P n
      × (1 ≤ weight n)
      × ((z : ℕ) → has z n ≡ (has z l || has z r))
unfolding IsShaped has
collapsed_right l r d P ag below sl sr w = elim (Bool-cases (is_empty r && is_terminal l)) [
  | inl p ↦
      let (pe, pt) = split (is_empty r) (is_terminal l) p in
      let (s, one) = lone l d (d + 1) P (λ y. P y × (bit y d ≡ 0)) (λ x q. q.0) pt sl in
      (
        l,
        rw p refl,
        s,
        omega (arith, one),
        λ z. rw (has-is_empty r z pe) (sym (or_false (has z l))),
      )
  | inr p ↦ elim (Bool-cases (is_terminal r && is_empty l)) [
    | inl q ↦
        let (qt, qe) = split (is_terminal r) (is_empty l) q in
        let (s, one) = lone r d (d + 1) P (λ y. P y × (bit y d ≡ 1)) (λ x q. q.0) qt sr in
        (r, rw (p, q) refl, s, omega (arith, one), λ z. rw (has-is_empty l z qe) refl)
    | inr q ↦
        let two = enough r l (omega (arith, w)) p q in
        let s : IsShaped d P (middle l r) =
          unfold IsShaped in (below, sl, sr, omega (arith, two)) in
        (middle l r, rw (p, q, middle_node-IsShaped l r d P ag s) refl, s, omega arith, λ z. refl)
  ]
]

from_left :
    (l r : Node) (d : ℕ) (P : ℕ → Type 0) (x : ℕ) (result : Result (Option Node))
    → Agrees d P
    → IsShaped d P (middle l r)
    → has x r ≡ false
    → Removed l (d + 1) (λ y. P y × (bit y d ≡ 0)) x result
    → Removed
        (middle l r)
        d
        P
        x
        (result >>= λ n. elim n [ none ↦ ok none | some l' ↦ collapse l' r (middle_node l' r) ])
unfolding IsShaped has
from_left l r d P x result ag (below, sl, sr, w) a (none, e, so, wo, ho) = (
  none,
  rw e refl,
  (below, sl, sr, w),
  omega arith,
  λ z. stays (x == z) (has z l) (has z r) (ho z) (absent_stays r x z a),
)
  where
    stays : (q h k : Bool) → h ≡ (not q && h) → k ≡ (not q && k) → (h || k) ≡ (not q && (h || k))
    stays q h k e f = ground arith
from_left l r d P x result ag (below, sl, sr, w) a (some l', e, so, wo, ho) =
    let (n, en, sn, wn, hn) = collapsed_left l' r d P ag below so sr (omega (arith, w, wo)) in
    (
      some n,
      rw (e, en) refl,
      sn,
      omega (arith, wn),
      λ z. hn z ∙ gone (x == z) (has z l) (has z r) (has z l') (ho z) (absent_stays r x z a),
    )
  where
    gone : (q h k g : Bool) → g ≡ (not q && h) → k ≡ (not q && k) → (g || k) ≡ (not q && (h || k))
    gone q h k g e f = ground arith

from_right :
    (l r : Node) (d : ℕ) (P : ℕ → Type 0) (x : ℕ) (result : Result (Option Node))
    → Agrees d P
    → IsShaped d P (middle l r)
    → has x l ≡ false
    → Removed r (d + 1) (λ y. P y × (bit y d ≡ 1)) x result
    → Removed
        (middle l r)
        d
        P
        x
        (result >>= λ n. elim n [ none ↦ ok none | some r' ↦ collapse r' l (middle_node l r') ])
unfolding IsShaped has
from_right l r d P x result ag (below, sl, sr, w) a (none, e, so, wo, ho) = (
  none,
  rw e refl,
  (below, sl, sr, w),
  omega arith,
  λ z. stays (x == z) (has z l) (has z r) (absent_stays l x z a) (ho z),
)
  where
    stays : (q h k : Bool) → h ≡ (not q && h) → k ≡ (not q && k) → (h || k) ≡ (not q && (h || k))
    stays q h k e f = ground arith
from_right l r d P x result ag (below, sl, sr, w) a (some r', e, so, wo, ho) =
    let (n, en, sn, wn, hn) = collapsed_right l r' d P ag below sl so (omega (arith, w, wo)) in
    (
      some n,
      rw (e, en) refl,
      sn,
      omega (arith, wn),
      λ z. hn z ∙ gone (x == z) (has z l) (has z r) (has z r') (absent_stays l x z a) (ho z),
    )
  where
    gone : (q h k g : Bool) → h ≡ (not q && h) → g ≡ (not q && k) → (h || g) ≡ (not q && (h || k))
    gone q h k g e f = ground arith

remove-Removed :
    (t : Node) (d : ℕ) (P : ℕ → Type 0) (x : ℕ)
    → Agrees d P
    → IsShaped d P t
    → Removed t d P x (remove t x d)
unfolding remove IsShaped has
remove-Removed empty d P x ag s = (none, refl, s, omega arith, λ z. ground arith)
remove-Removed (terminal h) d P x ag s = elim (Bool-cases (x == h)) [
  | inl e ↦ (some empty, rw e refl, tt, omega arith, λ z. taken x h z e)
  | inr e ↦ (none, rw e refl, s, omega arith, λ z. other x h z e)
]
  where
    taken : (x h z : ℕ) → (x == h) ≡ true → false ≡ (not (x == z) && (h == z))
    taken x h z e = ground arith

    other : (x h z : ℕ) → (x == h) ≡ false → (h == z) ≡ (not (x == z) && (h == z))
    other x h z e = ground arith
remove-Removed (middle l r) d P x ag s =
    let (below, sl, sr, w) = parts s in
    elim (zero_or_one (bit x d) (bit-lt x d)) [
      | inl z ↦
          rw (get_bit_lem x d below, z)
            (from_left l r d P x (remove l x (d + 1)) ag s (absent r 1 sr (omega (arith, z))) (
              remove-Removed l (d + 1) (λ y. P y × (bit y d ≡ 0)) x (Agrees-bit d P 0 below ag) sl))
      | inr o ↦
          rw (get_bit_lem x d below, o)
            (from_right l r d P x (remove r x (d + 1)) ag s (absent l 0 sl (omega (arith, o))) (
              remove-Removed r (d + 1) (λ y. P y × (bit y d ≡ 1)) x (Agrees-bit d P 1 below ag) sr))
    ]
  where
    parts : {A B C D : Type 0} → A × B × C × D → A × B × C × D
    parts s = s

    zero_or_one : (n : ℕ) → n < 2 → (n ≡ 0) ⊎ (n ≡ 1)
    zero_or_one n h = omega arith

    absent :
        (t : Node) (b : ℕ)
        → IsShaped (d + 1) (λ y. P y × (bit y d ≡ b)) t
        → bit x d ≢ b
        → has x t ≡ false
    absent t b st ne = elim (Bool-cases (has x t)) [
      | inl e ↦ absurd (ne (has-IsShaped t (d + 1) (λ y. P y × (bit y d ≡ b)) x st e).1)
      | inr e ↦ e
    ]
remove-Removed (truncated h) d P x ag s = absurd s

-- Removing a hash from a shaped tree raises nothing, whether the tree has it or not: the tree that
-- the caller then has is shaped, and it has the hashes it had but for this one.
pub remove-IsShaped :
    (t : Node) (x : ℕ)
    → IsShaped 0 IsHash t
    → (o : Option Node) × (remove t x 0 ≡ ok o)
      × IsShaped 0 IsHash (or_self t o)
      × ((z : ℕ) → has z (or_self t o) ≡ (not (x == z) && has z t))
remove-IsShaped t x s =
    let (o, e, so, _, ho) = remove-Removed t 0 IsHash x (λ a b. Agree-zero a b) s in (o, e, so, ho)
