-- ===== src/Consensus/Blockchain/Chain.antt =====
-- sector/consensus/blockchain.py: when the memory and the stores of a chain agree.
use mathlib.Core.Path.{subst}
use sector_blockchain.Prelude.{
  ℕ, suc, ◌≤◌, ◌<◌, ◌≡◌, refl, sym, ◌∙◌, ap, arith, false, Bool-cases, ◌⊎◌, inl, inr, ◌==◌, Option,
  none, some, if◌then◌else◌,
}
use sector_blockchain.Prelude.Dict.{Dict, lookup, insert, lookup-insert}
use sector_blockchain.Python.{Result, ok, raise, key_error, ◌>>=◌}
use sector_blockchain.Consensus.BlockRecord.{BlockRecord}
use sector_blockchain.Consensus.Blockchain.{
  FullBlock, BlockStore, Blockchain, item, get_peak, height_to_block_record, block_record,
  add_full_block, unmark,
}
use sector_blockchain.Consensus.Blockchain.Path.{
  IsPath, IsStore, lookup-insert-same, lookup-insert-other,
}

-- The peak: the path of the heights ends in it, the database has it marked, and no known block but
-- perhaps one at height 0 is heavier.
pub record IsPeak {Body : Type 0} (store : BlockStore Body) (hashes : Dict ℕ) (h : ℕ)
    (peak : BlockRecord) : Type 0 where
  pub path : IsPath store.records hashes h peak.header_hash
  pub in_store : lookup peak.header_hash store.records ≡ some peak
  pub level : peak.height ≡ h
  pub marked : store.peak ≡ some peak.header_hash
  pub weighs_most :
      (x : ℕ) (b : BlockRecord)
      → lookup x store.records ≡ some b
      → 0 < b.height
      → b.weight ≤ peak.weight

pub record AreInStep {Body : Type 0} (store : BlockStore Body) (memory : Dict BlockRecord)
    (hashes : Dict ℕ) (peak_height : Option ℕ) : Type 0 where
  pub stored : IsStore store
  pub cached : (x : ℕ) → lookup x memory ≡ lookup x store.records
  pub unborn : peak_height ≡ none → (x : ℕ) → lookup x store.records ≡ none
  pub top : (h : ℕ) → peak_height ≡ some h → (peak : BlockRecord) × IsPeak store hashes h peak

-- The store is linked, all of its records are in memory, and the heights lead to its peak.
abbrev pub IsChain : {Body Coins : Type 0} → Blockchain Body Coins → Type 0
IsChain s = AreInStep s.block_store s.block_records s.hash_at s.peak_height

pub item-some : {V : Type 0} (k : ℕ) (d : Dict V) (v : V) → lookup k d ≡ some v → item k d ≡ ok v
item-some {V} k d v e = there (lookup k d) e
  where
    there :
        (o : Option V)
        → o ≡ some v
        → ◌≡◌ {A = Result V} (elim o [ none ↦ raise key_error | some w ↦ ok w ]) (ok v)
    there none h = absurd (cc (h))
    there (some w) h = cc (h)

module _ {Body Coins : Type 0} (s : Blockchain Body Coins) (is : IsChain s) where
  pub get_peak-unborn : s.peak_height ≡ none → get_peak s ≡ ok none
  unfolding get_peak
  get_peak-unborn e = rw e refl

  read-peak :
      (h : ℕ) (peak : BlockRecord)
      → IsPeak s.block_store s.hash_at h peak
      → height_to_block_record s h ≡ ok peak
  unfolding height_to_block_record block_record
  read-peak h peak p =
      let hash = item-some h s.hash_at peak.header_hash p.path.top in
      let b =
        item-some peak.header_hash s.block_records peak (is.cached peak.header_hash ∙ p.in_store) in
      cc (hash, b)

  pub get_peak-IsPeak :
      (h : ℕ) (peak : BlockRecord)
      → s.peak_height ≡ some h
      → IsPeak s.block_store s.hash_at h peak
      → get_peak s ≡ ok (some peak)
  unfolding get_peak
  get_peak-IsPeak h peak e p = chosen s.peak_height e
    where
      chosen :
          (o : Option ℕ)
          → o ≡ some h
          → ◌≡◌ {A = Result (Option BlockRecord)}
              (elim o [
                | none ↦ ok none
                | some k ↦ (height_to_block_record s k >>= λ b. ok (some b))
              ])
              (ok (some peak))
      chosen none q = absurd (cc (q))
      chosen (some k) q =
          let same : h ≡ k = cc (q) in
          ap (λ (r : Result BlockRecord). r >>= λ b. ok (some b))
            (subst (λ m. height_to_block_record s m ≡ ok peak) same (read-peak h peak p))

-- A block that the store takes: it is new, and follows a known block unless it is at height 0.
pub record Follows {Body : Type 0} (store : BlockStore Body) (block : FullBlock Body)
    (b : BlockRecord) : Type 0 where
  pub fresh : lookup block.header_hash store.records ≡ none
  pub hash : b.header_hash ≡ block.header_hash
  pub height : block.height ≡ b.height
  pub before :
      (j : ℕ)
      → b.height ≡ suc j
      → (p : BlockRecord) × (lookup b.prev_hash store.records ≡ some p) × (p.height ≡ j)

module _ {Body : Type 0} (store : BlockStore Body) (is : IsStore store) (block : FullBlock Body)
    (b : BlockRecord) (follows : Follows store block b) where
  added_cases :
      {V : Type 0} (x : ℕ) (v w : V) (d : Dict V)
      → lookup x (insert block.header_hash v d) ≡ some w
      → ((block.header_hash ≡ x) × (v ≡ w))
        ⊎ (((block.header_hash == x) ≡ false) × (lookup x d ≡ some w))
  added_cases x v w d e = elim (Bool-cases (block.header_hash == x)) [
    | inl same ↦
        inl (ground (arith, same), cc (rw (lookup-insert block.header_hash x v d, same) at e))
    | inr other ↦ inr (other, rw (lookup-insert block.header_hash x v d, other) at e)
  ]

  -- What was known still is.
  pub still_known :
      (y : ℕ) (c : BlockRecord)
      → lookup y store.records ≡ some c
      → lookup y (insert block.header_hash b store.records) ≡ some c
  still_known y c e = elim (Bool-cases (block.header_hash == y)) [
    | inl same ↦
        let there : block.header_hash ≡ y = ground (arith, same) in
        let f = follows.fresh in absurd (cc (f, e, there))
    | inr other ↦ rw (lookup-insert block.header_hash y b store.records, other) e
  ]

  -- The mark of a known peak stays.
  pub marked-add :
      (peak : BlockRecord)
      → lookup peak.header_hash store.records ≡ some peak
      → store.peak ≡ some peak.header_hash
      → unmark block.header_hash store.peak ≡ some peak.header_hash
  marked-add peak known marked = elim (Bool-cases (block.header_hash == peak.header_hash)) [
    | inl same ↦
        let there : block.header_hash ≡ peak.header_hash = ground (arith, same) in
        let f = follows.fresh in absurd (cc (f, known, there))
    | inr other ↦ rw (marked, other) refl
  ]

  pub add_full_block-IsStore : IsStore (add_full_block block.header_hash block b store)
  unfolding add_full_block
  add_full_block-IsStore = record {
    named = λ x c e. elim (added_cases x b c store.records e) [
      | inl (there, same) ↦
          ap (λ (z : BlockRecord). z.header_hash) (sym same) ∙ follows.hash ∙ there
      | inr (_, old) ↦ is.named x c old
    ];
    full = λ x c e. elim (added_cases x b c store.records e) [
      | inl (there, same) ↦ (
        block,
        subst (λ y. lookup y (insert block.header_hash block store.full_blocks) ≡ some block) there
            (lookup-insert-same block.header_hash block store.full_blocks),
        follows.height ∙ ap (λ (z : BlockRecord). z.height) same,
      )
      | inr (other, old) ↦
          let (f, e1, e2) = is.full x c old in
          (f, lookup-insert-other block.header_hash x block store.full_blocks other ∙ e1, e2)
    ];
    before = λ x j c e up. elim (added_cases x b c store.records e) [
      | inl (there, same) ↦
          let (p, e1, e2) = follows.before j (ap (λ (z : BlockRecord). z.height) same ∙ up) in
          (
            p,
            still_known c.prev_hash p
                (subst (λ (z : BlockRecord). lookup z.prev_hash store.records ≡ some p) same e1),
            e2,
          )
      | inr (_, old) ↦
          let (p, e1, e2) = is.before x j c old up in (p, still_known c.prev_hash p e1, e2)
    ];
  }

  -- Its record goes into memory too.
  pub cached-add :
      (memory : Dict BlockRecord)
      → ((x : ℕ) → lookup x memory ≡ lookup x store.records)
      → (x : ℕ)
      → lookup x (insert b.header_hash b memory)
        ≡ lookup x (insert block.header_hash b store.records)
  cached-add memory cached x =
      lookup-insert b.header_hash x b memory
      ∙ ap (λ (y : ℕ). if y == x then some b else lookup x memory) follows.hash
      ∙ ap (λ (o : Option BlockRecord). if block.header_hash == x then some b else o) (cached x)
      ∙ sym (lookup-insert block.header_hash x b store.records)

  -- Where the new block is not heavier than a bound, or at height 0, no block is.
  pub heaviest-add :
      (w : ℕ)
      → ((x : ℕ) (c : BlockRecord) → lookup x store.records ≡ some c → 0 < c.height → c.weight ≤ w)
      → (0 < b.height → b.weight ≤ w)
      → (x : ℕ) (c : BlockRecord) → lookup x (insert block.header_hash b store.records) ≡ some c
      → 0 < c.height
      → c.weight ≤ w
  heaviest-add w old new x c e positive = elim (added_cases x b c store.records e) [
    | inl (_, same) ↦ subst (λ (z : BlockRecord). 0 < z.height → z.weight ≤ w) same new positive
    | inr (_, there) ↦ old x c there positive
  ]
