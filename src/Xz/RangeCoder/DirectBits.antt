-- ===== src/Xz/RangeCoder/DirectBits.antt =====
-- Direct bits: the masked arithmetic is a comparison and a subtraction.
use galaxys2_kernel_repack.Base.{ℕ, ◌+◌, ◌-◌, ◌*◌, ◌/◌, ◌^◌, ◌<◌, ◌≤◌, ◌≡◌, refl, arith, bit_and}
use galaxys2_kernel_repack.Base.{leb, if◌then◌else◌, ◌⊎◌, inl, inr}
use galaxys2_kernel_repack.Base.Bytes.{u32, sub32, IsU32}
use galaxys2_kernel_repack.Base.Bits
use galaxys2_kernel_repack.Base.{zero, suc}
use galaxys2_kernel_repack.Xz.RangeCoder.{
  Rc, rc_normalize, Direct, direct_step, direct_loop, rc_direct,
}
use galaxys2_kernel_repack.Xz.Dict.{do_while_rounds}
use galaxys2_kernel_repack.Xz.RangeCoder.Cost.{Costs, Costs-refl, Costs-trans, Costs-sum}
use galaxys2_kernel_repack.Xz.RangeCoder.Invariant.{
  IsRange, rc_normalize-Costs, rc_normalize-IsRange,
}

-- The bit by comparison: 1 with the halved range subtracted if the code reaches it, else 0.
abbrev pub compare_step : Rc → ℕ → Direct
compare_step rc dest =
    let range = rc.range / 2 in
    if leb range rc.code
    then record {
      rc = record rc { range = range; code = rc.code - range };
      dest = u32 (dest * 2 + 1);
    }
    else record { rc = record rc { range = range }; dest = u32 (dest * 2) }

mask_all : (r : ℕ) → IsU32 r → bit_and r (2 ^ 32 - 1) ≡ r
mask_all r h = omega (arith, Bits.bit_and-mask 32 r (2 ^ 32 - 1) refl)

mask_none : (r : ℕ) → bit_and r 0 ≡ 0
mask_none r = omega (arith, Bits.bit_and-mask 0 r 0 refl)

side : (range code : ℕ) → (code < range) ⊎ (range ≤ code)
side range code = omega arith

-- For a code below the range the masked arithmetic of a direct bit is the comparison: the bit is 1,
-- with the halved range subtracted from the code, exactly if the code reaches the halved range.
pub direct_step-compare_step :
    (rc : Rc) (dest : ℕ)
    → IsU32 rc.range
    → rc.code < rc.range
    → direct_step rc dest ≡ compare_step rc dest
unfolding direct_step
direct_step-compare_step rc dest h below = elim (side (rc.range / 2) rc.code) [
  | inl less ↦
      let mask : sub32 0 (sub32 rc.code (rc.range / 2) / 2 ^ 31) ≡ 2 ^ 32 - 1 = omega arith in
      rw (mask, mask_all (rc.range / 2) (omega arith)) (ground arith)
  | inr more ↦
      let mask : sub32 0 (sub32 rc.code (rc.range / 2) / 2 ^ 31) ≡ 0 = omega arith in
      rw (mask, mask_none (rc.range / 2)) (ground arith)
]

-- A direct bit keeps the ranges, whatever the code.
direct_step-IsRange :
    (rc : Rc) (dest : ℕ)
    → IsRange rc
    → 2 ^ 24 ≤ rc.range
    → IsRange (direct_step rc dest).rc × Costs 0 1 rc (direct_step rc dest).rc
unfolding direct_step
direct_step-IsRange rc dest h lo =
    (ground (arith, h), record { bytes = 0; moved = omega arith; limit = refl; paid = omega arith })

pub direct_loop-IsRange :
    (left : ℕ) (rc : Rc) (dest : ℕ)
    → IsRange rc
    → IsRange (direct_loop left rc dest).rc × Costs 0 left rc (direct_loop left rc dest).rc
unfolding direct_loop
direct_loop-IsRange zero rc dest h = (h, Costs-refl rc)
direct_loop-IsRange (suc left) rc dest h =
    let n = rc_normalize rc in
    let (nr, lo) = rc_normalize-IsRange rc h in
    let (ranged, cost) = direct_step-IsRange n dest nr lo in
    let r = direct_step n dest in
    let (last, costs) = direct_loop-IsRange left r.rc r.dest ranged in
    (last, Costs-sum (omega arith) (omega arith) (Costs-trans (rc_normalize-Costs rc h) cost) costs)

-- The rounds of `rc_direct` cost a direct bit each.
pub rc_direct-IsRange :
    (rc : Rc) (dest limit : ℕ)
    → IsRange rc
    → 0 < limit
    → IsRange (rc_direct rc dest limit).rc × Costs 0 limit rc (rc_direct rc dest limit).rc
unfolding rc_direct
rc_direct-IsRange rc dest limit h some =
    let rounds : do_while_rounds limit ≡ limit = ground arith in
    rw rounds (direct_loop-IsRange limit rc dest h)
