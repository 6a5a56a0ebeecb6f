-- ===== src/Consensus/Difficulty/SubEpoch/Finish.antt =====
-- When a block may be the last of its sub-epoch.
use native.Mathlib.Decide.{dec_le, ℕ_discrete}
use sector_blockchain.Prelude.{
  ℕ, zero, suc, ◌+◌, ◌-◌, ◌%◌, ◌^◌, ◌≤◌, ◌<◌, ◌≡◌, ◌≢◌, ◌⊎◌, inl, inr, refl, ap, ◌∙◌, arith, Bool,
  true, false, Option, none, some, ltb, ◌==◌, if◌then◌else◌, not,
}
use sector_blockchain.Python.{ok, raise, Exc, Result-cases}
use sector_blockchain.Consensus.SubEpochSummary.{SubEpochSummary}
use sector_blockchain.Consensus.Constants.{ConsensusConstants}
use sector_blockchain.Consensus.BlockRecord.{BlockRecord}
use sector_blockchain.Consensus.BlockchainInterface.{BlockchainInterface}
use sector_blockchain.Consensus.Difficulty.Walk.{no_summary, is_some}
use sector_blockchain.Consensus.Difficulty.SubEpoch.{
  finish, height_can_be_first_in_epoch, can_finish_sub_and_full_epoch,
}

-- A chain with all its blocks: the block behind one that is not at height 0 is there, and lower.
pub record IsLinked (blocks : BlockchainInterface) : Type 0 where
  pub present :
      (x : ℕ) (b : BlockRecord)
      → blocks.block_record x ≡ ok b
      → 0 < b.height
      → (p : BlockRecord) × (blocks.block_record b.prev_hash ≡ ok p)
  pub below :
      (x : ℕ) (b p : BlockRecord)
      → blocks.block_record x ≡ ok b
      → blocks.block_record b.prev_hash ≡ ok p
      → p.height < b.height

-- No block from `b` back to the start of its sub-epoch includes a summary.
pub data IsClear (c : ConsensusConstants) (blocks : BlockchainInterface)
    : BlockRecord → Type 0 where
  start :
      {b : BlockRecord}
      → b.height % c.sub_epoch_blocks ≡ 0
      → b.sub_epoch_summary_included ≡ none
      → IsClear c blocks b
  back :
      {b p : BlockRecord}
      → 0 < b.height % c.sub_epoch_blocks
      → b.sub_epoch_summary_included ≡ none
      → blocks.block_record b.prev_hash ≡ ok p
      → IsClear c blocks p
      → IsClear c blocks b

le_or_lt : (m n : ℕ) → (m ≤ n) ⊎ (n < m)
le_or_lt m n = omega arith

height_pos : (m : ℕ) (b : BlockRecord) → 0 < b.height % m → 0 < b.height
height_pos m b h = grind arith

module _ (c : ConsensusConstants) (blocks : BlockchainInterface)
    (pos : 0 < c.sub_epoch_blocks) where
  -- One block of the walk, where it goes on and where it ends.
  no_summary_back :
      (fuel : ℕ) (b p : BlockRecord)
      → blocks.block_record b.prev_hash ≡ ok p
      → 0 < b.height % c.sub_epoch_blocks
      → no_summary blocks (suc fuel) c b
        ≡ (if is_some b.sub_epoch_summary_included then ok false else no_summary blocks fuel c p)
  unfolding no_summary
  no_summary_back fuel b p e h = ground arith

  no_summary_start :
      (fuel : ℕ) (b : BlockRecord)
      → b.height % c.sub_epoch_blocks ≡ 0
      → no_summary blocks (suc fuel) c b ≡ ok (not (is_some b.sub_epoch_summary_included))
  unfolding no_summary
  no_summary_start fuel b h = ground arith

  no_summary_lost :
      (fuel : ℕ) (b : BlockRecord) (e : Exc)
      → blocks.block_record b.prev_hash ≡ raise e
      → 0 < b.height % c.sub_epoch_blocks
      → no_summary blocks (suc fuel) c b ≢ ok true
  unfolding no_summary
  no_summary_lost fuel b e h r q = ground arith

  is_some-none : (o : Option SubEpochSummary) → is_some o ≡ false → o ≡ none
  is_some-none o h = ground arith

  no_summary→IsClear :
      (fuel : ℕ) (b : BlockRecord) → no_summary blocks fuel c b ≡ ok true → IsClear c blocks b
  no_summary→IsClear zero b h = absurd (unfold no_summary in cc)
  no_summary→IsClear (suc fuel) b h = elim (le_or_lt (b.height % c.sub_epoch_blocks) 0) [
    | inl z ↦
        start (omega arith) (is_some-none _ (ground (arith, no_summary_start fuel b (omega arith))))
    | inr more ↦ elim (Result-cases (blocks.block_record b.prev_hash)) [
      | inr (e, r) ↦ absurd (no_summary_lost fuel b e r more h)
      | inl (p, r) ↦
          let open_end : is_some b.sub_epoch_summary_included ≡ false =
            ground (arith, no_summary_back fuel b p r more) in
          back more (is_some-none _ open_end) r
            (no_summary→IsClear fuel p (ground (arith, open_end, no_summary_back fuel b p r more)))
    ]
  ]

  IsClear→no_summary :
      IsLinked blocks
      → (fuel x : ℕ) (b : BlockRecord) → blocks.block_record x ≡ ok b
      → b.height < fuel
      → IsClear c blocks b
      → no_summary blocks fuel c b ≡ ok true
  IsClear→no_summary linked zero x b e h clear = absurd (omega arith)
  IsClear→no_summary linked (suc fuel) x b e h (start z s) =
      ground (arith, no_summary_start fuel b z)
  IsClear→no_summary linked (suc fuel) x b e h (back {p = p} more s r clear) = ground (
    arith,
    no_summary_back fuel b p r more,
    IsClear→no_summary linked fuel b.prev_hash p r (omega (arith, linked.below x b p e r)) clear,
  )

  no_summary_total :
      IsLinked blocks
      → (fuel x : ℕ) (b : BlockRecord) → blocks.block_record x ≡ ok b
      → b.height < fuel
      → (clear : Bool) × (no_summary blocks fuel c b ≡ ok clear)
  no_summary_total linked zero x b e h = absurd (omega arith)
  no_summary_total linked (suc fuel) x b e h = elim (le_or_lt (b.height % c.sub_epoch_blocks) 0) [
    | inl z ↦ (not (is_some b.sub_epoch_summary_included), no_summary_start fuel b (omega arith))
    | inr more ↦
        let (p, r) = linked.present x b e (height_pos _ b more) in
        let (clear, ih) =
          no_summary_total linked fuel b.prev_hash p r (omega (arith, linked.below x b p e r)) in
        (
          (if is_some b.sub_epoch_summary_included then false else clear),
          ground (arith, no_summary_back fuel b p r more, ih),
        )
  ]

-- What lets the block at `height` be the last of its sub-epoch, with `b` the block behind it: a
-- whole sub-epoch is there, the deficit is 0, and the sub-epoch has no summary yet.
pub record EndsSubEpoch (c : ConsensusConstants) (blocks : BlockchainInterface) (b : BlockRecord)
    (height deficit : ℕ) (included : Bool) : Type 0 where
  pub late : c.sub_epoch_blocks ≤ height + 1
  pub paid : deficit ≡ 0
  pub fresh : included ≡ false
  pub clear : ((height + 1) % c.sub_epoch_blocks ≤ 1) ⊎ IsClear c blocks b

-- `height + 1` lies in the first sub-epoch of an epoch.
pub starts_epoch : ConsensusConstants → ℕ → Bool
starts_epoch c next = (next - next % c.sub_epoch_blocks) % c.epoch_blocks == 0

module _ (c : ConsensusConstants) (blocks : BlockchainInterface) (linked : IsLinked blocks)
    (pos : 0 < c.sub_epoch_blocks) (epoch : 0 < c.epoch_blocks) where
  finish-true :
      (height : ℕ)
      → height + 1 < 2 ^ 32
      → finish c height true ≡ ok (true, starts_epoch c (height + 1))
  unfolding finish height_can_be_first_in_epoch starts_epoch
  finish-true height h = ground arith

  -- The call once the walk's result is known.
  verdict : ℕ → ℕ → Bool → Bool → Bool × Bool
  verdict height deficit included clear =
      if ltb (height + 1) c.sub_epoch_blocks
      then (false, false)
      else if ltb 0 deficit
      then (false, false)
      else if included
      then (false, false)
      else if ltb 1 ((height + 1) % c.sub_epoch_blocks)
      then (if clear then (true, starts_epoch c (height + 1)) else (false, false))
      else (true, starts_epoch c (height + 1))

  finish_lem :
      (height : ℕ) (clear : Bool)
      → height + 1 < 2 ^ 32
      → finish c height clear
        ≡ ok (if clear then (true, starts_epoch c (height + 1)) else (false, false))
  finish_lem height true h = finish-true height h
  finish_lem height false h = unfold finish in refl

  can_finish-verdict :
      (height prev deficit : ℕ) (b : BlockRecord) (included clear : Bool)
      → blocks.block_record prev ≡ ok b
      → height + 1 < 2 ^ 32
      → no_summary blocks (b.height + 1) c b ≡ ok clear
      → can_finish_sub_and_full_epoch c blocks height (some prev) deficit included
        ≡ ok (verdict height deficit included clear)
  unfolding can_finish_sub_and_full_epoch verdict
  can_finish-verdict height prev deficit b included clear e h w =
      ground (arith, finish_lem height clear h, finish_lem height true h)

  -- The conditions of `EndsSubEpoch` with the walk's result for its last one.
  abbrev Ends : ℕ → ℕ → Bool → Bool → Type 0
  Ends height deficit included clear =
      (c.sub_epoch_blocks ≤ height + 1)
      × (deficit ≡ 0)
      × (included ≡ false)
      × (((height + 1) % c.sub_epoch_blocks ≤ 1) ⊎ (clear ≡ true))

  decide-Ends :
      (height deficit : ℕ) (included clear : Bool)
      → Ends height deficit included clear ⊎ ¬ Ends height deficit included clear
  decide-Ends height deficit included clear = elim (dec_le c.sub_epoch_blocks (height + 1)) [
    | no q ↦ inr (λ w. q w.0)
    | yes late ↦ elim (ℕ_discrete deficit 0) [
      | no q ↦ inr (λ w. q w.1)
      | yes paid ↦ last (dec_le ((height + 1) % c.sub_epoch_blocks) 1) included clear late paid
    ]
  ]
    where
      last :
          Dec ((height + 1) % c.sub_epoch_blocks ≤ 1)
          → (i w : Bool) → c.sub_epoch_blocks ≤ height + 1
          → deficit ≡ 0
          → Ends height deficit i w ⊎ ¬ Ends height deficit i w
      last d true w late paid = inr (λ q. cc (q.2))
      last (yes r) false w late paid = inl (late, paid, refl, inl r)
      last (no r) false true late paid = inl (late, paid, refl, inr refl)
      last (no r) false false late paid = inr (λ q. elim (q.3) [ inl s ↦ r s | inr s ↦ cc ])

  verdict-true :
      (height deficit : ℕ) (included clear : Bool)
      → Ends height deficit included clear
      → verdict height deficit included clear ≡ (true, starts_epoch c (height + 1))
  unfolding verdict
  verdict-true height deficit included clear h = ground arith

  verdict-false :
      (height deficit : ℕ) (included clear : Bool)
      → ¬ Ends height deficit included clear
      → verdict height deficit included clear ≡ (false, false)
  unfolding verdict
  verdict-false height deficit included clear h = ground arith

  -- On a complete chain, at a height whose successor fits 32 bits and with positive lengths of the
  -- sub-epoch and the epoch, the call returns, and its first result is true exactly if the block may be
  -- the last of its sub-epoch; its second result is then whether the next block may be the first
  -- of an epoch, and false otherwise.
  pub can_finish_sub_and_full_epoch-cases :
      (height prev deficit : ℕ) (b : BlockRecord) (included : Bool)
      → blocks.block_record prev ≡ ok b
      → height + 1 < 2 ^ 32
      → EndsSubEpoch c blocks b height deficit included
          × (can_finish_sub_and_full_epoch c blocks height (some prev) deficit included
              ≡ ok (true, starts_epoch c (height + 1)))
        ⊎ (¬ EndsSubEpoch c blocks b height deficit included)
          × (can_finish_sub_and_full_epoch c blocks height (some prev) deficit included
              ≡ ok (false, false))
  can_finish_sub_and_full_epoch-cases height prev deficit b included e h =
      let (clear, w) = no_summary_total c blocks pos linked (b.height + 1) prev b e (omega arith) in
      let call = can_finish-verdict height prev deficit b included clear e h w in
      elim (decide-Ends height deficit included clear) [
        | inl q ↦ inl (
          record {
            late = q.0;
            paid = q.1;
            fresh = q.2;
            clear = elim (q.3) [
              | inl s ↦ inl s
              | inr s ↦ inr (no_summary→IsClear c blocks pos (b.height + 1) b (w ∙ ap ok s))
            ];
          },
          call ∙ ap ok (verdict-true height deficit included clear q),
        )
        | inr q ↦ inr (
          (λ ends. q (
            ends.late,
            ends.paid,
            ends.fresh,
            (elim (ends.clear) [
              | inl s ↦ inl s
              | inr s ↦ inr (
                  cc (
                    w,
                    IsClear→no_summary c blocks pos linked (b.height + 1) prev b e (omega arith) s,
                  ))
            ]),
          )),
          call ∙ ap ok (verdict-false height deficit included clear q),
        )
      ]
