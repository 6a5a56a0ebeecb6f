-- ===== src/FullNode/SyncStore/Heaviest.antt =====
-- The heaviest peak that a peer announced.
use mathlib.Core.Path.{subst}
use mathlib.Core.Bool.{false≢true}
use sector_blockchain.Prelude.{
  ℕ, ◌≤◌, ◌≡◌, refl, sym, ◌∙◌, arith, true, false, ltb, ◌==◌, none, some, List, [], ◌∷◌, Bool-cases,
  ◌⊎◌, inl, inr,
}
use sector_blockchain.Prelude.Dict.{Dict, lookup, has_key, has_key-lookup}
use sector_blockchain.Python.{ok, raise, assertion_error}
use sector_blockchain.FullNode.SyncStore.{
  SyncStore, Peak, heaviest, better, get_heaviest_peak, clear_sync_info,
}
use sector_blockchain.FullNode.SyncStore.Peers.{has_block, IsConsistent}

-- `v` is the peak of one of the entries, and its block is a known one.
pub data IsPeak (d : Dict (List ℕ)) (v : Peak) : Dict Peak → Type 0 where
  here : {p : ℕ} {rest : Dict Peak} → has_key v.header_hash d ≡ true → IsPeak d v ((p, v) ∷ rest)
  there : {e : ℕ × Peak} {rest : Dict Peak} → IsPeak d v rest → IsPeak d v (e ∷ rest)

-- No entry with a known block is heavier than `w`.
abbrev AtMost : Dict (List ℕ) → ℕ → Dict Peak → Type 0
AtMost d w [] = Unit {0}
AtMost d w ((p, v) ∷ rest) = (has_key v.header_hash d ≡ true → v.weight ≤ w) × AtMost d w rest

-- The loop from a best peak `a` ends at one that is `a` or an entry's, and the heaviest of them.
record IsBest (d : Dict (List ℕ)) (l : Dict Peak) (a b : Peak) : Type 0 where
  source : (b ≡ a) ⊎ IsPeak d b l
  most : AtMost d b.weight l
  grows : a.weight ≤ b.weight

known-IsPeak :
    {d : Dict (List ℕ)} {b v : Peak} {p : ℕ} {rest : Dict Peak}
    → has_key v.header_hash d ≡ true
    → (b ≡ v) ⊎ IsPeak d b rest
    → IsPeak d b ((p, v) ∷ rest)
known-IsPeak k (inr q) = there q
known-IsPeak {d} {v = v} {p = p} {rest = rest} k (inl e) =
    subst (λ x. IsPeak d x ((p, v) ∷ rest)) (sym e) (here k)

heaviest-some :
    (d : Dict (List ℕ)) (l : Dict Peak) (a : Peak)
    → (b : Peak) × (heaviest d l (some a) ≡ some b) × IsBest d l a b
unfolding heaviest better
heaviest-some d [] a = (a, refl, record { source = inl refl; most = tt; grows = omega arith })
heaviest-some d ((p, v) ∷ rest) a = elim (Bool-cases (has_key v.header_hash d)) [
  | inr strange ↦
      let (b, e, q) = heaviest-some d rest a in
      (
        b,
        rw strange e,
        record { source = later q.source; most = ((λ k. cc), q.most); grows = q.grows },
      )
  | inl k ↦ elim (Bool-cases (ltb a.weight v.weight)) [
    | inl lt ↦
        let (b, e, q) = heaviest-some d rest v in
        (
          b,
          rw (k, lt) e,
          record {
            source = inr (known-IsPeak k q.source);
            most = ((λ _. q.grows), q.most);
            grows = ground (arith, q.grows, lt);
          },
        )
    | inr ge ↦
        let (b, e, q) = heaviest-some d rest a in
        (
          b,
          rw (k, ge) e,
          record {
            source = later q.source;
            most = ((λ _. ground (arith, q.grows, ge)), q.most);
            grows = q.grows;
          },
        )
  ]
]
  where
    later : {b : Peak} → (b ≡ a) ⊎ IsPeak d b rest → (b ≡ a) ⊎ IsPeak d b ((p, v) ∷ rest)
    later (inl e) = inl e
    later (inr q) = inr (there q)

known_tail :
    {d : Dict (List ℕ)} {v w : Peak} {p : ℕ} {rest : Dict Peak}
    → has_key w.header_hash d ≡ false
    → IsPeak d v ((p, w) ∷ rest)
    → IsPeak d v rest
known_tail strange (here k) = absurd (false≢true (sym strange ∙ k))
known_tail strange (there q) = q

-- From no best peak the loop finds one as soon as an entry's block is known.
heaviest-none :
    (d : Dict (List ℕ)) (l : Dict Peak) (v : Peak)
    → IsPeak d v l
    → (b : Peak) × (heaviest d l none ≡ some b) × IsPeak d b l × AtMost d b.weight l
unfolding heaviest better
heaviest-none d [] v i = elim i [ ]
heaviest-none d ((p, w) ∷ rest) v i = elim (Bool-cases (has_key w.header_hash d)) [
  | inl k ↦
      let (b, e, q) = heaviest-some d rest w in
      (b, rw k e, known-IsPeak k q.source, ((λ _. q.grows), q.most))
  | inr strange ↦
      let (b, e, q, most) = heaviest-none d rest v (known_tail strange i) in
      (b, rw strange e, there q, ((λ k. cc), most))
]

lookup-IsPeak :
    (d : Dict (List ℕ)) (l : Dict Peak) (p : ℕ) (v : Peak)
    → lookup p l ≡ some v
    → has_key v.header_hash d ≡ true
    → IsPeak d v l
unfolding lookup
lookup-IsPeak d [] p v e k = absurd (cc)
lookup-IsPeak d ((q, w) ∷ rest) p v e k = elim (Bool-cases (q == p)) [
  | inl same ↦
      let at_w : w ≡ v = cc (rw same at e) in
      subst (λ x. IsPeak d v ((q, x) ∷ rest)) (sym at_w) (here k)
  | inr other ↦ there (lookup-IsPeak d rest p v (rw other at e) k)
]

AtMost-lookup :
    (d : Dict (List ℕ)) (n : ℕ) (l : Dict Peak) (p : ℕ) (v : Peak)
    → AtMost d n l
    → lookup p l ≡ some v
    → has_key v.header_hash d ≡ true
    → v.weight ≤ n
unfolding lookup
AtMost-lookup d n [] p v most e k = absurd (cc)
AtMost-lookup d n ((q, w) ∷ rest) p v most e k = elim (Bool-cases (q == p)) [
  | inl same ↦
      let at_w : w ≡ v = cc (rw same at e) in
      subst (λ (x : Peak). x.weight ≤ n) at_w (most.0 (cc (k, at_w)))
  | inr other ↦ AtMost-lookup d n rest p v most.1 (rw other at e) k
]

member_known : (p h : ℕ) (s : SyncStore) → has_block p h s ≡ true → has_key h s.peak_to_peer ≡ true
unfolding has_block
member_known p h s e = ground (arith, e, has_key-lookup h s.peak_to_peer)

nonempty :
    (d : Dict (List ℕ)) (l : Dict Peak) (v b : Peak) (s : SyncStore)
    → s.peer_to_peak ≡ l
    → s.peak_to_peer ≡ d
    → IsPeak d v l
    → heaviest d l none ≡ some b
    → get_heaviest_peak s ≡ ok (some b)
unfolding get_heaviest_peak
nonempty d [] v b s e f i h = absurd (unfold heaviest in cc)
nonempty d (x ∷ rest) v b s e f i h = ground (arith, e, f, h)

-- In a consistent store where some peer has a peak, the call returns the peak of a peer whose block
-- the store knows, and no peer's peak is heavier.
pub get_heaviest_peak_lem :
    (s : SyncStore) (p : ℕ) (v : Peak)
    → IsConsistent s
    → lookup p s.peer_to_peak ≡ some v
    → (b : Peak) × (get_heaviest_peak s ≡ ok (some b))
      × IsPeak s.peak_to_peer b s.peer_to_peak
      × ((q : ℕ) (w : Peak) → lookup q s.peer_to_peak ≡ some w → w.weight ≤ b.weight)
get_heaviest_peak_lem s p v c e =
    let known = λ (q : ℕ) (w : Peak) (f : lookup q s.peer_to_peak ≡ some w).
      member_known q w.header_hash s (c.peaks q w f) in
    let i = lookup-IsPeak s.peak_to_peer s.peer_to_peak p v e (known p v e) in
    let (b, h, ib, most) = heaviest-none s.peak_to_peer s.peer_to_peak v i in
    (
      b,
      nonempty s.peak_to_peer s.peer_to_peak v b s refl refl i h,
      ib,
      λ q w f. AtMost-lookup s.peak_to_peer b.weight s.peer_to_peak q w most f (known q w f),
    )

heaviest_unknown : (l : Dict Peak) → heaviest [] l none ≡ none
unfolding heaviest has_key
heaviest_unknown [] = refl
heaviest_unknown ((p, v) ∷ rest) = heaviest_unknown rest

-- Once the sync info is cleared, a store in which any peer has a peak has no answer: the call ends
-- in its assertion.
pub get_heaviest_peak-clear_sync_info :
    (s : SyncStore) (p : ℕ) (v : Peak)
    → lookup p s.peer_to_peak ≡ some v
    → get_heaviest_peak (clear_sync_info s) ≡ raise assertion_error
unfolding get_heaviest_peak clear_sync_info
get_heaviest_peak-clear_sync_info s p v e = go s.peer_to_peak e
  where
    go :
        (l : Dict Peak)
        → lookup p l ≡ some v
        → get_heaviest_peak (record s { peak_to_peer = []; peer_to_peak = l })
          ≡ raise assertion_error
    go [] e = absurd (unfold lookup in cc)
    go (x ∷ rest) e = rw (heaviest_unknown (x ∷ rest), get_heaviest_peak) refl
