-- ===== src/Consensus/ForkPoint/Same.antt =====
-- sector/consensus/find_fork_point.py: the comparison of two records.
use sector_blockchain.Prelude.{
  ℕ, ◌≡◌, refl, arith, Bool, true, false, ◌==◌, ◌&&◌, Option, none, some, ==_refl,
}
use sector_blockchain.Consensus.SubEpochSummary.{SubEpochSummary}
use sector_blockchain.Consensus.BlockRecord.{BlockRecord}
use sector_blockchain.Consensus.ForkPoint.{same_option, same_bool, same_summary, same_record}

same_option_refl : (o : Option ℕ) → same_option o o ≡ true
same_option_refl none = refl
same_option_refl (some x) = ==_refl x

same_bool_refl : (b : Bool) → same_bool b b ≡ true
same_bool_refl true = refl
same_bool_refl false = refl

same_summary_refl : (o : Option SubEpochSummary) → same_summary o o ≡ true
same_summary_refl none = refl
same_summary_refl (some s) =
    rw
      (
        ==_refl s.prev_subepoch_summary_hash,
        ==_refl s.reward_chain_hash,
        ==_refl s.num_blocks_overflow,
        same_option_refl s.new_difficulty,
        same_option_refl s.new_sub_slot_iters,
      )
      refl

pub same_record_refl : (b : BlockRecord) → same_record b b ≡ true
unfolding same_record
same_record_refl b =
    rw
      (
        same_bool_refl b.overflow,
        same_option_refl b.timestamp,
        same_summary_refl b.sub_epoch_summary_included,
      )
      (ground arith)

pub same_record-header_hash :
    (a b : BlockRecord) → same_record a b ≡ true → a.header_hash ≡ b.header_hash
unfolding same_record
same_record-header_hash a b h = first (a.header_hash == b.header_hash) _ h (λ e. ground arith)
  where
    first : {C : Type 0} (x y : Bool) → (x && y) ≡ true → (x ≡ true → C) → C
    first true y h k = k refl
    first false y h k = absurd (cc h)
