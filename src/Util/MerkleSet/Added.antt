-- ===== src/Util/MerkleSet/Added.antt =====
-- sector/util/merkle_set.py: `add` keeps the shape of a tree and adds the one hash.
use mathlib.Core.Path.{subst}
use sector_blockchain.Prelude.{
  ℕ, zero, suc, ◌+◌, ◌^◌, ◌≤◌, ◌<◌, ◌≡◌, ◌≢◌, refl, sym, ◌∙◌, ◌⊎◌, arith, Bool, true, false, ltb,
  ◌==◌, ◌||◌, Bool-cases, inl, inr, Option, none, some,
}
use sector_blockchain.Python.{Result, ok, ◌>>=◌}
use sector_blockchain.Util.MerkleSet.Node.{Node, empty, terminal, middle, truncated}
use sector_blockchain.Util.MerkleSet.Operations.{make_middle, with_left, with_right, add, or_self}
use sector_blockchain.Util.MerkleSet.Bits.{
  bit, bit-lt, get_bit_lem, Agree, Agree-all, Agree-lt, Agree-zero,
}
use sector_blockchain.Util.MerkleSet.Shape.{
  has, weight, IsShaped, Agrees, Agrees-bit, middle_node-IsShaped,
}

-- The tree has the two hashes and nothing else.
abbrev HasTwo : ℕ → ℕ → Node → Type 0
HasTwo a b n = (z : ℕ) → has z n ≡ (a == z || b == z)

zero_or_one : (n : ℕ) → n < 2 → (n ≡ 0) ⊎ (n ≡ 1)
zero_or_one n h = omega arith

make_middle-IsShaped :
    (fuel d : ℕ) (P : ℕ → Type 0) (a b : ℕ)
    → 257 ≤ fuel + d
    → d ≤ 256
    → Agrees d P
    → P a
    → P b
    → a < b
    → (n : Node) × (make_middle fuel a b d ≡ ok n) × IsShaped d P n × (weight n ≡ 2) × HasTwo a b n
unfolding make_middle IsShaped has
make_middle-IsShaped zero d P a b f le ag pa pb lt = absurd (omega arith)
make_middle-IsShaped (suc fuel) d P a b f le ag pa pb lt =
    let below : d < 256 = under_256 d le (ag a b pa pb) in
    let ga = get_bit_lem a d below in
    let gb = get_bit_lem b d below in
    elim (Bool-cases (bit a d == bit b d)) [
      | inr ne ↦
          let (za, ob) = Agree-lt d a b below (ag a b pa pb) (differ _ _ ne) lt in
          let s : IsShaped d P (middle (terminal a) (terminal b)) =
            unfold IsShaped in (below, (pa, za), (pb, ob), omega arith) in
          (
            middle (terminal a) (terminal b),
            rw (ga, gb, ne) (middle_node-IsShaped (terminal a) (terminal b) d P ag s),
            s,
            refl,
            λ z. refl,
          )
      | inl e ↦
          let both : bit a d ≡ bit b d = equal _ _ e in
          elim (zero_or_one (bit a d) (bit-lt a d)) [
            | inl z ↦
                let (m, em, sm, wm, hm) =
                  make_middle-IsShaped fuel (d + 1) (λ x. P x × (bit x d ≡ 0)) a b
                    (omega (arith, f)) (omega (arith, below)) (Agrees-bit d P 0 below ag) (pa, z)
                    (pb, sym both ∙ z) lt in
                let s : IsShaped d P (middle m empty) =
                  unfold IsShaped in (below, sm, tt, omega (arith, wm)) in
                (
                  middle m empty,
                  rw (ga, gb, e, z, em) (middle_node-IsShaped m empty d P ag s),
                  s,
                  refl,
                  λ w. or_false (has w m) ∙ hm w,
                )
            | inr o ↦
                let (m, em, sm, wm, hm) =
                  make_middle-IsShaped fuel (d + 1) (λ x. P x × (bit x d ≡ 1)) a b
                    (omega (arith, f)) (omega (arith, below)) (Agrees-bit d P 1 below ag) (pa, o)
                    (pb, sym both ∙ o) lt in
                let s : IsShaped d P (middle empty m) =
                  unfold IsShaped in (below, tt, sm, omega (arith, wm)) in
                (
                  middle empty m,
                  rw (ga, gb, e, o, em) (middle_node-IsShaped empty m d P ag s),
                  s,
                  refl,
                  hm,
                )
          ]
    ]
  where
    differ : (m n : ℕ) → (m == n) ≡ false → m ≢ n
    differ m n e = ground arith

    top_or_below : (d : ℕ) → d ≤ 256 → (d ≡ 256) ⊎ (d < 256)
    top_or_below d le = omega arith

    equal : (m n : ℕ) → (m == n) ≡ true → m ≡ n
    equal m n e = ground arith

    or_false : (b : Bool) → (b || false) ≡ b
    or_false b = ground arith

    under_256 : (d : ℕ) → d ≤ 256 → Agree d a b → d < 256
    under_256 d le h = elim (top_or_below d le) [
      | inl e ↦ absurd (omega (arith, lt, Agree-all a b (subst (λ (n : ℕ). Agree n a b) e h)))
      | inr q ↦ q
    ]

-- What `add` returns of a tree: itself or a new tree, as well shaped, with the one more hash.
abbrev Added : Node → ℕ → (ℕ → Type 0) → ℕ → Result (Option Node) → Type 0
Added t d P x result =
    (o : Option Node) × (result ≡ ok o)
    × IsShaped d P (or_self t o)
    × (weight t ≤ weight (or_self t o))
    × ((z : ℕ) → has z (or_self t o) ≡ (x == z || has z t))

stays_left : (a h c : Bool) → h ≡ (a || h) → (h || c) ≡ (a || (h || c))
stays_left a h c e = ground arith

stays_right : (a h c : Bool) → h ≡ (a || h) → (c || h) ≡ (a || (c || h))
stays_right a h c e = ground arith

or_same : (x h z : ℕ) → h ≡ x → (h == z) ≡ (x == z || h == z)
or_same x h z e = ground arith

same : (x h : ℕ) → h ≡ x → (x == h) ≡ true
same x h e = ground arith

above : (x h : ℕ) → h < x → ((x == h) ≡ false) × (ltb h x ≡ true)
above x h e = (ground arith, ground arith)

beneath : (x h : ℕ) → x < h → ((x == h) ≡ false) × (ltb h x ≡ false)
beneath x h e = (ground arith, ground arith)

with_left-Added :
    (l r : Node) (d : ℕ) (P : ℕ → Type 0) (x : ℕ) (result : Result (Option Node))
    → Agrees d P
    → IsShaped d P (middle l r)
    → Added l (d + 1) (λ y. P y × (bit y d ≡ 0)) x result
    → Added (middle l r) d P x (result >>= with_left r)
unfolding IsShaped has
with_left-Added l r d P x result ag s (none, e, so, wo, ho) =
    (none, rw e refl, s, omega arith, λ z. stays_left (x == z) (has z l) (has z r) (ho z))
with_left-Added l r d P x result ag (below, sl, sr, w) (some n, e, so, wo, ho) =
    let s : IsShaped d P (middle n r) = unfold IsShaped in (below, so, sr, omega (arith, w, wo)) in
    (
      some (middle n r),
      rw (e, middle_node-IsShaped n r d P ag s) refl,
      s,
      omega arith,
      λ z. rw (ho z) (assoc (x == z) (has z l) (has z r)),
    )
  where
    assoc : (a b c : Bool) → ((a || b) || c) ≡ (a || (b || c))
    assoc a b c = ground arith

with_right-Added :
    (l r : Node) (d : ℕ) (P : ℕ → Type 0) (x : ℕ) (result : Result (Option Node))
    → Agrees d P
    → IsShaped d P (middle l r)
    → Added r (d + 1) (λ y. P y × (bit y d ≡ 1)) x result
    → Added (middle l r) d P x (result >>= with_right l)
unfolding IsShaped has
with_right-Added l r d P x result ag s (none, e, so, wo, ho) =
    (none, rw e refl, s, omega arith, λ z. stays_right (x == z) (has z r) (has z l) (ho z))
with_right-Added l r d P x result ag (below, sl, sr, w) (some n, e, so, wo, ho) =
    let s : IsShaped d P (middle l n) = unfold IsShaped in (below, sl, so, omega (arith, w, wo)) in
    (
      some (middle l n),
      rw (e, middle_node-IsShaped l n d P ag s) refl,
      s,
      omega arith,
      λ z. rw (ho z) (swap (has z l) (x == z) (has z r)),
    )
  where
    swap : (a b c : Bool) → (a || (b || c)) ≡ (b || (a || c))
    swap a b c = ground arith

add-Added :
    (t : Node) (d : ℕ) (P : ℕ → Type 0) (x : ℕ)
    → d ≤ 256
    → Agrees d P
    → IsShaped d P t
    → P x
    → Added t d P x (add t x d)
unfolding add IsShaped has
add-Added empty d P x le ag s px = (some (terminal x), refl, px, omega arith, λ z. ground arith)
add-Added (terminal h) d P x le ag s px = elim (three h x) [
  | inl e ↦ (none, rw (same x h e) refl, s, omega arith, λ z. or_same x h z e)
  | inr (inl lt) ↦
      let (n, en, sn, wn, hn) = make_middle-IsShaped 257 d P h x (omega arith) le ag s px lt in
      let (ne, up) = above x h lt in
      (some n, rw (ne, up, en) refl, sn, omega (arith, wn), λ z. hn z ∙ comm (h == z) (x == z))
  | inr (inr gt) ↦
      let (n, en, sn, wn, hn) = make_middle-IsShaped 257 d P x h (omega arith) le ag px s gt in
      let (ne, up) = beneath x h gt in (some n, rw (ne, up, en) refl, sn, omega (arith, wn), hn)
]
  where
    three : (h x : ℕ) → (h ≡ x) ⊎ ((h < x) ⊎ (x < h))
    three h x = omega arith

    comm : (a b : Bool) → (a || b) ≡ (b || a)
    comm a b = ground arith
add-Added (middle l r) d P x le ag s px =
    let (below, sl, sr, w) = parts s in
    elim (zero_or_one (bit x d) (bit-lt x d)) [
      | inl z ↦
          rw (get_bit_lem x d below, z)
            (with_left-Added l r d P x (add l x (d + 1)) ag s (
              add-Added l (d + 1) (λ y. P y × (bit y d ≡ 0)) x (omega (arith, below))
                (Agrees-bit d P 0 below ag) sl (px, z)))
      | inr o ↦
          rw (get_bit_lem x d below, o)
            (with_right-Added l r d P x (add r x (d + 1)) ag s (
              add-Added r (d + 1) (λ y. P y × (bit y d ≡ 1)) x (omega (arith, below))
                (Agrees-bit d P 1 below ag) sr (px, o)))
    ]
  where
    parts : {A B C D : Type 0} → A × B × C × D → A × B × C × D
    parts s = s
add-Added (truncated h) d P x le ag s px = absurd s

-- The hashes of 32 bytes.
abbrev pub IsHash : ℕ → Type 0
IsHash x = x < 2 ^ 256

-- Adding a hash to a shaped tree raises nothing: the tree that the caller then has is shaped, and it
-- has the new hash and those it had, no other.
pub add-IsShaped :
    (t : Node) (x : ℕ)
    → IsShaped 0 IsHash t
    → IsHash x
    → (o : Option Node) × (add t x 0 ≡ ok o)
      × IsShaped 0 IsHash (or_self t o)
      × ((z : ℕ) → has z (or_self t o) ≡ (x == z || has z t))
add-IsShaped t x s h =
    let (o, e, so, _, ho) = add-Added t 0 IsHash x (omega arith) (λ a b. Agree-zero a b) s h in
    (o, e, so, ho)
