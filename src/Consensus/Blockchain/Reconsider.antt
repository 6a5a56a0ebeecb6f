-- ===== src/Consensus/Blockchain/Reconsider.antt =====
-- sector/consensus/blockchain.py: every case of `_reconsider_peak` leaves the chain in step.
use mathlib.Core.Path.{subst}
use sector_blockchain.Prelude.{
  ℕ, ◌≤◌, ◌<◌, ◌≡◌, refl, sym, ◌∙◌, arith, Bool, true, false, Bool-cases, Option-cases, inl, inr,
  ◌==◌, ltb, not, ◌&&◌, Option, none, some, if◌then◌else◌,
}
use sector_blockchain.Prelude.Int.{ℤ}
use sector_blockchain.Prelude.Dict.{lookup}
use sector_blockchain.Python.{ok, Exc, assertion_error}
use sector_blockchain.Consensus.BlockRecord.{BlockRecord}
use sector_blockchain.Consensus.Blockchain.{
  FullBlock, Blockchain, Attempt, gives, stops, Attempt-cases, Parts, insert_hashes, get_peak,
  drop_summaries, add_block_record,
}
use sector_blockchain.Consensus.Blockchain.Receive.{
  Outcome, rolled_back, adopt, adopt_genesis, no_change, reconsider_peak, commit, settle,
  add_validated,
}
use sector_blockchain.Consensus.Blockchain.Chain.{
  IsPeak, IsChain, Follows, get_peak-unborn, get_peak-IsPeak,
}
use sector_blockchain.Consensus.Blockchain.Adopt.{rolled_back-AtMost}
use sector_blockchain.Consensus.Blockchain.Peak.{
  store, orphan-AreInStep, genesis-IsChain, adopt-IsChain,
}

module _ {Body Coins Npc Spends : Type 0} (parts : Parts Body Coins Npc Spends)
    (s : Blockchain Body Coins) (is : IsChain s) (block : FullBlock Body) (b : BlockRecord)
    (follows : Follows s.block_store block b) where
  -- The cases of `_reconsider_peak`.
  first_block :
      (given : Option ℕ) (npc_result : Option Npc)
      → get_peak s ≡ ok none
      → reconsider_peak parts s (store s is block b follows) b (block.height == 0) given npc_result
        ≡ (
          s,
          if block.height == 0
              then adopt_genesis parts s (store s is block b follows) b npc_result
              else stops assertion_error s.coin_store,
        )
  unfolding reconsider_peak
  first_block given npc_result g = rw (reconsider_peak, g) refl

  not_heavier :
      (given : Option ℕ) (npc_result : Option Npc) (peak : BlockRecord)
      → get_peak s ≡ ok (some peak)
      → (not (block.height == 0) && ltb peak.weight b.weight) ≡ false
      → reconsider_peak parts s (store s is block b follows) b (block.height == 0) given npc_result
        ≡ (s, gives (no_change s (store s is block b follows)))
  unfolding reconsider_peak
  not_heavier given npc_result peak g t = rw (reconsider_peak, g, t) refl

  pub no_fork :
      (given : Option ℕ) (npc_result : Option Npc) (peak : BlockRecord) (x : Exc) (left : Coins)
      → get_peak s ≡ ok (some peak)
      → (not (block.height == 0) && ltb peak.weight b.weight) ≡ true
      → rolled_back parts s b peak given ≡ stops x left
      → reconsider_peak parts s (store s is block b follows) b (block.height == 0) given npc_result
        ≡ (s, stops x left)
  unfolding reconsider_peak
  no_fork given npc_result peak x left g t r = rw (reconsider_peak, g, t, r) refl

  pub heavier :
      (given : Option ℕ) (npc_result : Option Npc) (peak : BlockRecord) (fork_height : ℤ)
      (coins : Coins)
      → get_peak s ≡ ok (some peak)
      → (not (block.height == 0) && ltb peak.weight b.weight) ≡ true
      → rolled_back parts s b peak given ≡ gives (fork_height, coins)
      → reconsider_peak parts s (store s is block b follows) b (block.height == 0) given npc_result
        ≡ (
          record s { sub_epoch_summaries = drop_summaries fork_height s.sub_epoch_summaries },
          adopt parts s (store s is block b follows) b fork_height coins npc_result,
        )
  unfolding reconsider_peak
  heavier given npc_result peak fork_height coins g t r = rw (reconsider_peak, g, t, r) refl

  -- An outcome after which the chain is one, whether it is committed or raises.
  Settles : Blockchain Body Coins × Attempt Coins (Outcome Body Coins) → Type 0
  Settles (t, stops x left) = IsChain t
  Settles (t, gives o) = IsChain (commit b o t)

  settle-IsChain :
      (r : Blockchain Body Coins × Attempt Coins (Outcome Body Coins))
      → Settles r
      → IsChain (settle parts b r).0
  unfolding settle Settles
  settle-IsChain (t, stops x left) h = h
  settle-IsChain (t, gives o) h = h

  IsPeak-unique :
      (h k : ℕ) (p q : BlockRecord)
      → IsPeak s.block_store s.hash_at h p
      → IsPeak s.block_store s.hash_at k q
      → p ≡ q
  IsPeak-unique h k p q x y =
      let m = x.marked in
      let n = y.marked in
      let same : p.header_hash ≡ q.header_hash = cc (m, n) in
      let a = x.in_store in let c = y.in_store in cc (a, c, same)

  heavier_test :
      (peak : BlockRecord)
      → (not (block.height == 0) && ltb peak.weight b.weight) ≡ false
      → 0 < b.height
      → b.weight ≤ peak.weight
  heavier_test peak t positive =
      weigh block.height b.height peak.weight b.weight follows.height t positive
    where
      weigh : (m n v w : ℕ) → m ≡ n → (not (m == 0) && ltb v w) ≡ false → 0 < n → w ≤ v
      weigh m n v w e t positive = ground (arith)

  test_heavier :
      (peak : BlockRecord)
      → (not (block.height == 0) && ltb peak.weight b.weight) ≡ true
      → peak.weight < b.weight
  test_heavier peak t = weigh (not (block.height == 0)) peak.weight b.weight t
    where
      weigh : (c : Bool) (v w : ℕ) → (c && ltb v w) ≡ true → v < w
      weigh c v w t = ground (arith)

  -- With a peak.
  with_peak :
      (h : ℕ) (peak : BlockRecord)
      → s.peak_height ≡ some h
      → IsPeak s.block_store s.hash_at h peak
      → (given : Option ℕ) (npc_result : Option Npc) → ((k : ℕ) → given ≡ some k → k ≤ peak.height)
      → Settles (
          reconsider_peak parts s
            (store s is block b follows)
            b
            (block.height == 0)
            given
            npc_result)
  unfolding Settles commit add_block_record insert_hashes
  with_peak h peak eh p given npc_result below =
      let g = get_peak-IsPeak s is h peak eh p in
      elim (Bool-cases (not (block.height == 0) && ltb peak.weight b.weight)) [
        | inr light ↦ subst Settles (sym (not_heavier given npc_result peak g light)) (
            orphan-AreInStep s is block b follows
              (λ other k ek q positive.
                subst (λ (z : BlockRecord). b.weight ≤ z.weight) (IsPeak-unique h k peak other p q)
                  (heavier_test peak light positive))
              h eh)
        | inl heavy ↦ elim (Attempt-cases (rolled_back parts s b peak given)) [
          | inr (x, left, r) ↦
              subst Settles (sym (no_fork given npc_result peak x left g heavy r)) is
          | inl ((fork_height, coins), r) ↦
              let there : lookup peak.header_hash s.block_records ≡ some peak =
                is.cached peak.header_hash ∙ p.in_store in
              let most =
                rolled_back-AtMost parts s is b peak given fork_height coins there below r in
              subst Settles (sym (heavier given npc_result peak fork_height coins g heavy r))
                (elim (Attempt-cases
                  (adopt parts s (store s is block b follows) b fork_height coins npc_result)) [
                    | inr (x, left, e) ↦
                        subst
                          (λ z. Settles (
                            record s {
                              sub_epoch_summaries =
                                  drop_summaries fork_height s.sub_epoch_summaries;
                            },
                            z,
                          ))
                          (sym e) is
                    | inl (o, e) ↦
                        subst
                          (λ z. Settles (
                            record s {
                              sub_epoch_summaries =
                                  drop_summaries fork_height s.sub_epoch_summaries;
                            },
                            z,
                          ))
                          (sym e)
                          (adopt-IsChain parts s is block b follows npc_result o fork_height coins h
                            peak eh p most (test_heavier peak heavy)
                            (drop_summaries fork_height s.sub_epoch_summaries) e)
                  ])
        ]
      ]

  without_peak :
      s.peak_height ≡ none
      → (given : Option ℕ) (npc_result : Option Npc)
      → Settles (
          reconsider_peak parts s
            (store s is block b follows)
            b
            (block.height == 0)
            given
            npc_result)
  unfolding Settles
  without_peak none_yet given npc_result =
      subst Settles (sym (first_block given npc_result (get_peak-unborn s is none_yet)))
        (elim (Bool-cases (block.height == 0)) [
          | inr later ↦
              let q : tried given npc_result ≡ stops assertion_error s.coin_store = rw later refl in
              subst (λ z. Settles (s, z)) (sym q) is
          | inl lowest ↦
              let q : tried given npc_result
                  ≡ adopt_genesis parts s (store s is block b follows) b npc_result =
                rw lowest refl in
              elim (Attempt-cases
                (adopt_genesis parts s (store s is block b follows) b npc_result)) [
                  | inr (x, left, e) ↦ subst (λ z. Settles (s, z)) (sym (q ∙ e)) is
                  | inl (o, e) ↦
                      subst (λ z. Settles (s, z)) (sym (q ∙ e))
                        (genesis-IsChain parts s is block b follows npc_result o none_yet lowest e)
                ]
        ])
    where
      tried : Option ℕ → Option Npc → Attempt Coins (Outcome Body Coins)
      tried given npc_result =
          if block.height == 0
          then adopt_genesis parts s (store s is block b follows) b npc_result
          else stops assertion_error s.coin_store

  -- From a validated block that follows the chain, whatever the stores answer.
  pub add_validated-IsChain :
      (given : Option ℕ) (npc_result : Option Npc)
      → ((k n : ℕ) → given ≡ some k → s.peak_height ≡ some n → k ≤ n)
      → IsChain (add_validated parts s block b given npc_result).0
  unfolding add_validated
  add_validated-IsChain given npc_result below =
      settle-IsChain
        (reconsider_peak parts s (store s is block b follows) b (block.height == 0) given
          npc_result)
        (elim (Option-cases s.peak_height) [
          | inl none_yet ↦ without_peak none_yet given npc_result
          | inr (h, eh) ↦
              let (peak, p) = is.top h eh in
              with_peak h peak eh p given npc_result
                (λ k e. subst (λ n. k ≤ n) (sym p.level) (below k h e eh))
        ])
