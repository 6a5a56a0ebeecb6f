-- ===== src/Consensus/Blockchain/Collect.antt =====
-- sector/consensus/blockchain.py: the blocks from a new peak back to the fork make its path.
use mathlib.Core.List.{reverse, reverse-cons, map-append}
use mathlib.Core.Path.{subst}
use sector_blockchain.Prelude.{
  ℕ, zero, suc, ◌≤◌, ◌≡◌, refl, sym, ◌∙◌, ap, arith, true, false, Bool-cases, inl, inr, ◌==◌,
  Option, none, some, List, [], ◌∷◌, ◌++◌, map,
}
use sector_blockchain.Prelude.Int.{ℤ, pos, negsuc}
use sector_blockchain.Prelude.Dict.{Dict, lookup, insert}
use sector_blockchain.Python.{Result, ok, raise, key_error, uint, uint_lem, >>=-eq-ok}
use sector_blockchain.Consensus.BlockRecord.{BlockRecord}
use sector_blockchain.Consensus.Blockchain.{
  FullBlock, BlockStore, item, present, insert_hashes, at_fork, blocks_to_add,
}
use sector_blockchain.Consensus.Blockchain.Path.{
  IsPath, IsStore, IsPath-first, IsPath-next, IsPath-down,
}

insert_hashes-append :
    (bs cs : List BlockRecord) (d : Dict ℕ)
    → insert_hashes (bs ++ cs) d ≡ insert_hashes cs (insert_hashes bs d)
unfolding insert_hashes
insert_hashes-append [] cs d = refl
insert_hashes-append (b ∷ bs) cs d = insert_hashes-append bs cs (insert b.height b.header_hash d)

-- A fork is not above a height.
abbrev pub AtMost : ℤ → ℕ → Type 0
AtMost (pos h) n = h ≤ n
AtMost (negsuc k) n = Unit {0}

pub item-ok : {V : Type 0} (k : ℕ) (d : Dict V) (v : V) → item k d ≡ ok v → lookup k d ≡ some v
item-ok {V} k d v e = held (lookup k d) e
  where
    held :
        (o : Option V)
        → ◌≡◌ {A = Result V} (elim o [ none ↦ raise key_error | some w ↦ ok w ]) (ok v)
        → o ≡ some v
    held none h = absurd (cc (h))
    held (some w) h = cc (h)

pub present-ok : {V : Type 0} (o : Option V) (v : V) → present o ≡ ok v → o ≡ some v
present-ok none v e = absurd (cc (e))
present-ok (some w) v e = cc (e)

at_fork-true :
    (hashes : Dict ℕ) (fork_height : ℤ) (curr n : ℕ)
    → AtMost fork_height n
    → at_fork hashes fork_height curr ≡ ok true
    → (h : ℕ) × (h ≤ n) × (lookup h hashes ≡ some curr)
unfolding at_fork
at_fork-true hashes (negsuc k) curr n a e = absurd (cc (e))
at_fork-true hashes (pos h) curr n a e =
    let (u, e1, r1) = >>=-eq-ok (uint 32 h) _ e in
    let same : u ≡ h = (uint_lem 32 h e1).0 in
    let (x, e2, r2) = >>=-eq-ok (item u hashes) _ r1 in
    let hash : curr ≡ x = equal curr x r2 in (h, a, rw (sym same, hash) (item-ok u hashes x e2))
  where
    equal : (m n : ℕ) → ok (m == n) ≡ ok true → m ≡ n
    equal m n e = ground (arith)

module _ {Body : Type 0} where
  -- The records of the blocks, which are newest first, in the order of their heights.
  abbrev pub oldest_first : List (FullBlock Body × BlockRecord) → List BlockRecord
  oldest_first blocks = map (λ x. x.1) (reverse blocks)

  insert_hashes-newest :
      (f : FullBlock Body) (b : BlockRecord) (blocks : List (FullBlock Body × BlockRecord))
      (d : Dict ℕ)
      → insert_hashes (oldest_first ((f, b) ∷ blocks)) d
        ≡ insert b.height b.header_hash (insert_hashes (oldest_first blocks) d)
  unfolding insert_hashes
  insert_hashes-newest f b blocks d =
      ap (λ (l : List (FullBlock Body × BlockRecord)). insert_hashes (map (λ x. x.1) l) d)
        (reverse-cons (f, b) blocks)
      ∙ ap (λ (l : List BlockRecord). insert_hashes l d)
          (map-append (λ x. x.1) (reverse blocks) ((f, b) ∷ []))
      ∙ insert_hashes-append (oldest_first blocks) (b ∷ []) d

  -- One turn of the loop that returned: it stops at the fork, or at height 0, or goes on.
  data Turn (store : BlockStore Body) (hashes : Dict ℕ) (fork_height : ℤ) (fuel curr : ℕ)
      (b : BlockRecord) : List (FullBlock Body × BlockRecord) → Type 0 where
    stop : at_fork hashes fork_height curr ≡ ok true → Turn store hashes fork_height fuel curr b []
    first :
        (f : FullBlock Body)
        → b.height ≡ 0
        → Turn store hashes fork_height fuel curr b ((f, b) ∷ [])
    further :
        (f : FullBlock Body) (j : ℕ) (more : List (FullBlock Body × BlockRecord))
        → b.height ≡ suc j
        → blocks_to_add fuel store hashes fork_height b.prev_hash ≡ ok more
        → Turn store hashes fork_height fuel curr b ((f, b) ∷ more)

  turn :
      (store : BlockStore Body)
      → IsStore store
      → (hashes : Dict ℕ) (fork_height : ℤ) (fuel curr : ℕ) (b : BlockRecord)
        (blocks : List (FullBlock Body × BlockRecord))
      → lookup curr store.records ≡ some b
      → blocks_to_add (suc fuel) store hashes fork_height curr ≡ ok blocks
      → Turn store hashes fork_height fuel curr b blocks
  unfolding blocks_to_add
  turn store is hashes fork_height fuel curr b blocks e r =
      let (done, e1, r1) = >>=-eq-ok (at_fork hashes fork_height curr) _ r in
      let (f, ef, height) = is.full curr b e in
      elim (Bool-cases done) [
        | inl halt ↦
            subst
              (λ (l : List (FullBlock Body × BlockRecord)).
                Turn store hashes fork_height fuel curr b l)
              (cc (rw halt at r1)) (stop (e1 ∙ ap ok halt))
        | inr go_on ↦
            let r2 = rw (go_on, ef, e) at r1 in
            elim (Bool-cases (f.height == 0)) [
              | inl lowest ↦
                  subst
                    (λ (l : List (FullBlock Body × BlockRecord)).
                      Turn store hashes fork_height fuel curr b l)
                    (cc (rw lowest at r2)) (first f (ground (arith, height, lowest)))
              | inr higher ↦
                  let (more, e3, r3) =
                    >>=-eq-ok (blocks_to_add fuel store hashes fork_height b.prev_hash) _
                      (rw higher at r2) in
                  let (j, up) = positive f.height b.height height higher in
                  subst
                    (λ (l : List (FullBlock Body × BlockRecord)).
                      Turn store hashes fork_height fuel curr b l)
                    (cc (r3)) (further f j more up e3)
            ]
      ]
    where
      positive : (m n : ℕ) → m ≡ n → (m == 0) ≡ false → (j : ℕ) × (n ≡ suc j)
      positive m zero e h = absurd (ground (arith, e, h))
      positive m (suc n) e h = (n, refl)

  module _ (store : BlockStore Body) (is : IsStore store) (hashes : Dict ℕ) (n x : ℕ)
      (path : IsPath store.records hashes n x) (fork_height : ℤ) (most : AtMost fork_height n) where
    -- The loop from any block that the store has, with some fuel.
    abbrev Leads : ℕ → Type 0
    Leads fuel =
        (curr : ℕ) (b : BlockRecord) (blocks : List (FullBlock Body × BlockRecord))
        → lookup curr store.records ≡ some b
        → blocks_to_add fuel store hashes fork_height curr ≡ ok blocks
        → IsPath store.records (insert_hashes (oldest_first blocks) hashes) b.height b.header_hash

    in_store :
        (curr : ℕ) (b : BlockRecord)
        → lookup curr store.records ≡ some b
        → lookup b.header_hash store.records ≡ some b
    in_store curr b e = subst (λ y. lookup y store.records ≡ some b) (sym (is.named curr b e)) e

    extend :
        (fuel curr : ℕ) (b : BlockRecord) (blocks : List (FullBlock Body × BlockRecord))
        → Leads fuel
        → lookup curr store.records ≡ some b
        → Turn store hashes fork_height fuel curr b blocks
        → IsPath store.records (insert_hashes (oldest_first blocks) hashes) b.height b.header_hash
    unfolding insert_hashes
    extend fuel curr b [] rest e (stop fork) =
        let (h, le, found) = at_fork-true hashes fork_height curr n most fork in
        let (c, e1, e2, e3, _) = path.each h le in
        let hash : c.header_hash ≡ curr = cc (e1, found) in
        let same : c ≡ b = cc (e2, e, hash) in
        let level : h ≡ b.height = sym e3 ∙ ap (λ (z : BlockRecord). z.height) same in
        let at_b : lookup h hashes ≡ some b.header_hash =
          e1 ∙ ap (λ (z : BlockRecord). some z.header_hash) same in
        subst (λ m. IsPath store.records hashes m b.header_hash) level
          (IsPath-down store.records hashes n x h b.header_hash path le at_b)
    extend fuel curr b blocks rest e (first f lowest) =
        IsPath-first store.records hashes b (in_store curr b e) lowest
    extend fuel curr b blocks rest e (further f j more up r) =
        let (p, ep, low) = is.before curr j b e up in
        let path' = rest b.prev_hash p more ep r in
        let under : IsPath store.records (insert_hashes (oldest_first more) hashes) j b.prev_hash =
          subst (λ y. IsPath store.records (insert_hashes (oldest_first more) hashes) j y)
            (is.named b.prev_hash p ep)
            (subst
              (λ m. IsPath store.records (insert_hashes (oldest_first more) hashes) m p.header_hash)
              low path') in
        subst (λ (d : Dict ℕ). IsPath store.records d b.height b.header_hash)
          (sym (insert_hashes-newest f b more hashes))
          (IsPath-next store.records (insert_hashes (oldest_first more) hashes) j b under
            (in_store curr b e) up)

  -- Where the loop ends, the hashes with the blocks it found are a path to the block it began at.
  pub blocks_to_add-IsPath :
      (store : BlockStore Body)
      → IsStore store
      → (hashes : Dict ℕ) (n x : ℕ) → IsPath store.records hashes n x
      → (fork_height : ℤ) → AtMost fork_height n
      → (fuel curr : ℕ) (b : BlockRecord) (blocks : List (FullBlock Body × BlockRecord))
      → lookup curr store.records ≡ some b
      → blocks_to_add fuel store hashes fork_height curr ≡ ok blocks
      → IsPath store.records (insert_hashes (oldest_first blocks) hashes) b.height b.header_hash
  blocks_to_add-IsPath store is hashes n x path fork_height most zero curr b blocks e r =
      unfold blocks_to_add in absurd (cc (r))
  blocks_to_add-IsPath store is hashes n x path fork_height most (suc fuel) curr b blocks e r =
      extend store is hashes n x path fork_height most fuel curr b blocks
        (blocks_to_add-IsPath store is hashes n x path fork_height most fuel) e
        (turn store is hashes fork_height fuel curr b blocks e r)
