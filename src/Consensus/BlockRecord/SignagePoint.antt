-- ===== src/Consensus/BlockRecord/SignagePoint.antt =====
-- The total iterations of a block's signage point against those of its infusion point.
use mathlib.Core.Path.{subst}
use sector_blockchain.Prelude.{
  ℕ, ◌+◌, ◌-◌, ◌*◌, ◌^◌, ◌≤◌, ◌<◌, ◌≡◌, sym, ◌∙◌, ltb, arith, if◌then◌else◌,
}
use sector_blockchain.Python.{Result, ok}
use sector_blockchain.Consensus.Constants.{ConsensusConstants}
use sector_blockchain.Consensus.PotIterations.{is_overflow_block}
use sector_blockchain.Consensus.PotIterations.Infusion.{
  IsPotConstants, IsPlace, ip_iters-overflow, sp_bound, sp_iters_lem,
}
use sector_blockchain.Consensus.BlockRecord.{BlockRecord, ip_iters, sp_total_iters}

-- A record whose fields agree: its place in the sub-slot, its overflow flag, and total iterations
-- that reach back to the start of the sub-slot of its signage point, which is the sub-slot before its
-- own for an overflow block.
pub record IsPlaced (c : ConsensusConstants) (b : BlockRecord) (interval : ℕ) : Type 0 where
  pub slot : b.sub_slot_iters ≡ c.num_sps_sub_slot * interval
  pub place : IsPlace c interval b.signage_point_index b.required_iters
  pub flag : is_overflow_block c b.signage_point_index ≡ ok b.overflow
  pub fits : b.total_iters < 2 ^ 128
  pub reach :
      (ip : ℕ) × (ip_iters b c ≡ ok ip)
      × (ip + (if b.overflow then b.sub_slot_iters else 0) ≤ b.total_iters)

ok_lem : (m n : ℕ) → ◌≡◌ {A = Result ℕ} (ok m) (ok n) → m ≡ n
ok_lem m n e = cc (e)

module _ (c : ConsensusConstants) (h : IsPotConstants c) where
  -- The signage point of a block whose fields agree lies exactly the extra intervals and the required
  -- iterations before the block. It lies before the start of the block's sub-slot exactly where the
  -- block is an overflow block, and then in the sub-slot before, no longer than this one.
  pub sp_total_iters-distance :
      (b : BlockRecord) (interval : ℕ)
      → IsPlaced c b interval
      → (s : ℕ) × (sp_total_iters b c ≡ ok s)
        × (s + c.num_sp_intervals_extra * interval + b.required_iters ≡ b.total_iters)
        × (start : ℕ) × (ip : ℕ) × (ip_iters b c ≡ ok ip)
        × (start + ip ≡ b.total_iters)
        × (b.overflow ≡ ltb s start)
        × (start ≤ s + b.sub_slot_iters)
  unfolding sp_total_iters ip_iters
  sp_total_iters-distance b k p =
      let (ip, sp, o, e, f, g, lt, oe, d) =
        ip_iters-overflow c h k b.signage_point_index b.required_iters p.place in
      let sp_lem = sp_iters_lem c h k b.signage_point_index b.required_iters p.place in
      let here : sp ≡ k * b.signage_point_index =
        ok_lem sp (k * b.signage_point_index) (sym f ∙ sp_lem) in
      let bound = sp_bound c h k b.signage_point_index b.required_iters p.place in
      let inside : sp < b.sub_slot_iters =
        omega (arith, here, bound, p.slot, p.place.above, p.place.below) in
      let own : ip_iters b c ≡ ok ip = rw (p.slot) e in
      let (there, q, reached) = p.reach in
      let same : there ≡ ip = ok_lem there ip (sym q ∙ own) in
      let reach : ip + (if b.overflow then b.sub_slot_iters else 0) ≤ b.total_iters =
        subst (λ n. n + (if b.overflow then b.sub_slot_iters else 0) ≤ b.total_iters) same
          reached in
      (
        (if b.overflow then b.total_iters - (ip + b.sub_slot_iters) else b.total_iters - ip) + sp,
        ground (arith, e, f, g, lt, d, p.slot, p.flag, p.fits, reach),
        ground (arith, e, f, g, lt, d, p.slot, p.flag, p.fits, reach),
        b.total_iters - ip,
        ip,
        own,
        omega (arith, reach),
        ground (arith, f, g, lt, oe, d, p.slot, p.flag, reach, inside),
        ground (arith, f, g, lt, oe, d, p.slot, p.flag, reach, inside),
      )
