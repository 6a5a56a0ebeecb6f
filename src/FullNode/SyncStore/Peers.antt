-- ===== src/FullNode/SyncStore/Peers.antt =====
-- Which peers have which block.
use mathlib.Core.Path.{subst}
use sector_blockchain.Prelude.{
  ℕ, ◌≡◌, refl, ap, ◌∙◌, arith, Bool, true, false, ◌==◌, not, ◌||◌, ◌&&◌, Option, none, some, List,
  [], ◌∷◌, if◌then◌else◌, Option-cases, Bool-cases, ==_iff, ==_refl, inl, inr,
}
use sector_blockchain.Prelude.Dict.{
  Dict, lookup, has_key, delete, member, discard, lookup-insert, lookup-delete, has_key-lookup,
  member-add, member-discard,
}
use sector_blockchain.Python.{ok}
use sector_blockchain.FullNode.SyncStore.{
  SyncStore, Peak, create, peer_has_block, with_peer, peer_disconnected, drop_peer,
}

-- Whether the store knows that the peer has the block.
abbrev pub member? : ℕ → Option (List ℕ) → Bool
member? peer none = false
member? peer (some peers) = member peer peers

unfoldable pub has_block : ℕ → ℕ → SyncStore → Bool
has_block peer header_hash s = member? peer (lookup header_hash s.peak_to_peer)

same_key : (d : Dict (List ℕ)) (h k : ℕ) → (h == k) ≡ true → lookup h d ≡ lookup k d
same_key d h k e = ap (λ (x : ℕ). lookup x d) ((==_iff h k).0 e)

with_peer_lem :
    (h p q k : ℕ) (d : Dict (List ℕ))
    → member? q (lookup k (with_peer h p d)) ≡ ((h == k) && (p == q) || member? q (lookup k d))
unfolding with_peer
with_peer_lem h p q k d = elim (Option-cases (lookup h d)) [
  | inl e ↦
      rw (e, with_peer)
        (rw lookup-insert (elim (Bool-cases (h == k)) [
          | inl s ↦ rw s (unfold member in ground (arith, e, same_key d h k s))
          | inr s ↦ rw s refl
        ]))
  | inr (peers, e) ↦
      rw (e, with_peer)
        (rw lookup-insert (elim (Bool-cases (h == k)) [
          | inl s ↦ rw s (ground (arith, e, same_key d h k s, member-add p q peers))
          | inr s ↦ rw s refl
        ]))
]

-- Telling the store of one block of one peer adds that fact and no other.
pub has_block-peer_has_block :
    (h p w ht : ℕ) (new_peak : Bool) (s : SyncStore) (q k : ℕ)
    → has_block q k (peer_has_block h p w ht new_peak s) ≡ ((h == k) && (p == q) || has_block q k s)
unfolding has_block peer_has_block
has_block-peer_has_block h p w ht new_peak s q k = with_peer_lem h p q k s.peak_to_peer

-- What the loop of a disconnection leaves.
left : ℕ → List ℕ → List ℕ
left node peers = if member node peers then discard node peers else peers

without : ℕ → Dict (List ℕ) → Dict (List ℕ)
without node [] = []
without node ((peak, peers) ∷ rest) = (peak, left node peers) ∷ without node rest

member-left :
    (node q : ℕ) (peers : List ℕ) → member q (left node peers) ≡ (not (node == q) && member q peers)
unfolding left
member-left node q peers = elim (Bool-cases (member node peers)) [
  | inl e ↦ rw (e, member-discard) (ground arith)
  | inr e ↦ rw e (elim (Bool-cases (node == q)) [
    | inl s ↦ rw s (rw (← (==_iff node q).0 s) e)
    | inr s ↦ rw s refl
  ])
]

gone :
    (node : ℕ) (peers : List ℕ)
    → member node (if member node peers then discard node peers else peers) ≡ false
unfolding left
gone node peers = member-left node node peers ∙ rw (==_refl node) refl

drop_peer_lem : (node : ℕ) (d : Dict (List ℕ)) → drop_peer node d ≡ ok (without node d)
unfolding drop_peer without left
drop_peer_lem node [] = refl
drop_peer_lem node ((peak, peers) ∷ rest) = ground (arith, gone node peers, drop_peer_lem node rest)

lookup-without :
    (node q k : ℕ) (d : Dict (List ℕ))
    → member? q (lookup k (without node d)) ≡ (not (node == q) && member? q (lookup k d))
unfolding lookup without
lookup-without node q k [] = ground arith
lookup-without node q k ((peak, peers) ∷ rest) =
    ground (arith, member-left node q peers, lookup-without node q k rest)

peak_left :
    (node p : ℕ) (d : Dict Peak)
    → lookup p (if has_key node d then delete node d else d)
      ≡ (if node == p then none else lookup p d)
peak_left node p d = elim (Bool-cases (has_key node d)) [
  | inl e ↦ rw e (lookup-delete node p d)
  | inr e ↦ rw e (elim (Bool-cases (node == p)) [
    | inl s ↦ rw s (rw (← (==_iff node p).0 s) (absent d e))
    | inr s ↦ rw s refl
  ])
]
  where
    absent : (d : Dict Peak) → has_key node d ≡ false → lookup node d ≡ none
    absent d e = ground (arith, has_key-lookup node d, e)

-- A disconnection always goes through, its assertion holding. It takes the peer's peak and the
-- peer itself out of the store, wakes the waiting task, and leaves what is known of other peers.
pub peer_disconnected_lem :
    (node : ℕ) (s : SyncStore)
    → (s' : SyncStore) × (peer_disconnected node s ≡ ok s')
      × (s'.peers_changed ≡ true)
      × ((p : ℕ) → lookup p s'.peer_to_peak ≡ (if node == p then none else lookup p s.peer_to_peak))
      × ((q k : ℕ) → has_block q k s' ≡ (not (node == q) && has_block q k s))
unfolding peer_disconnected has_block
peer_disconnected_lem node s = (
  record s {
    peer_to_peak =
        if has_key node s.peer_to_peak then delete node s.peer_to_peak else s.peer_to_peak;
    peak_to_peer = without node s.peak_to_peer;
    peers_changed = true;
  },
  rw (drop_peer_lem node s.peak_to_peer) refl,
  refl,
  (λ p. peak_left node p s.peer_to_peak),
  λ q k. lookup-without node q k s.peak_to_peer,
)

or_true : (a b : Bool) → b ≡ true → (a || b) ≡ true
or_true true b h = refl
or_true false b h = h

abbrev peak_of : ℕ → ℕ → ℕ → Peak
peak_of h w ht = record { header_hash = h; height = ht; weight = w }

-- Every peak that a peer announced is a block that the store knows the peer to have.
pub record IsConsistent (s : SyncStore) : Type 0 where
  pub peaks :
      (p : ℕ) (v : Peak) → lookup p s.peer_to_peak ≡ some v → has_block p v.header_hash s ≡ true

pub create-IsConsistent : IsConsistent create
create-IsConsistent = record { peaks = λ p v e. absurd (unfold lookup in cc e) }

announced_inv :
    (p q h w ht : ℕ) (s : SyncStore) (v : Peak)
    → lookup q (peer_has_block h p w ht true s).peer_to_peak ≡ some v
    → (if p == q then some (peak_of h w ht) else lookup q s.peer_to_peak) ≡ some v
unfolding peer_has_block
announced_inv p q h w ht s v e = rw lookup-insert at e

-- A consistent store stays consistent when a peer tells of a block, as its peak or not.
pub peer_has_block-IsConsistent :
    (h p w ht : ℕ) (new_peak : Bool) (s : SyncStore)
    → IsConsistent s
    → IsConsistent (peer_has_block h p w ht new_peak s)
peer_has_block-IsConsistent h p w ht new_peak s c = record {
  peaks = λ q v e. rw has_block-peer_has_block (announced new_peak q v e);
}
  where
    announced :
        (peak : Bool) (q : ℕ) (v : Peak)
        → lookup q (peer_has_block h p w ht peak s).peer_to_peak ≡ some v
        → ((h == v.header_hash) && (p == q) || has_block q v.header_hash s) ≡ true
    announced false q v e = or_true _ _ (c.peaks q v (unfold peer_has_block in e))
    announced true q v e =
        let split : (if p == q then some (peak_of h w ht) else lookup q s.peer_to_peak) ≡ some v =
          announced_inv p q h w ht s v e in
        elim (Bool-cases (p == q)) [
          | inl same ↦
              let at_h : peak_of h w ht ≡ v = cc (rw same at split) in
              subst
                (λ (x : Peak).
                  ((h == x.header_hash) && (p == q) || has_block q x.header_hash s) ≡ true)
                at_h (rw (same, ==_refl h) refl)
          | inr other ↦ or_true _ _ (c.peaks q v (rw other at split))
        ]

-- A consistent store stays consistent when a peer disconnects.
pub peer_disconnected-IsConsistent :
    (node : ℕ) (s s' : SyncStore)
    → IsConsistent s
    → peer_disconnected node s ≡ ok s'
    → IsConsistent s'
peer_disconnected-IsConsistent node s s' c e =
    let (t, r, _, peaks, blocks) = peer_disconnected_lem node s in
    let same : t ≡ s' = cc in
    subst IsConsistent same
      (record { peaks = λ p v f. rw blocks (kept node p v s c (rw peaks at f)) })
  where
    kept :
        (node p : ℕ) (v : Peak) (s : SyncStore)
        → IsConsistent s
        → (if node == p then none else lookup p s.peer_to_peak) ≡ some v
        → (not (node == p) && has_block p v.header_hash s) ≡ true
    kept node p v s c f = elim (Bool-cases (node == p)) [
      | inl same ↦ absurd (cc (rw same at f))
      | inr other ↦ rw other (c.peaks p v (rw other at f))
    ]
