-- ===== src/Xz/Lzma/Reset.antt =====
-- Resetting the probabilities, and reading the properties byte.
use galaxys2_kernel_repack.Base.{
  ℕ, zero, suc, ◌+◌, ◌-◌, ◌*◌, ◌/◌, ◌^◌, ◌<◌, ◌≤◌, ◌≡◌, refl, ◌∙◌, arith, true, false,
}
use galaxys2_kernel_repack.Base.{◌↔◌, ltb, leb, if◌then◌else◌, ◌&&◌}
use galaxys2_kernel_repack.Base.Bytes.{update}
use galaxys2_kernel_repack.Xz.RangeCoder.Invariant.{probs_total}
use galaxys2_kernel_repack.Xz.RangeCoder.{rc_reset}
use galaxys2_kernel_repack.Xz.Lzma.{
  Lzma, reset_loop, lzma_reset, strip_loop, lzma_props, literal_probs,
}

pub reset_loop-value :
    (left i j : ℕ) (probs : ℕ → ℕ)
    → reset_loop left i probs j ≡ (if leb i j && ltb j (i + left) then 1024 else probs j)
unfolding reset_loop
reset_loop-value zero i j probs = ground arith
reset_loop-value (suc left) i j probs =
    reset_loop-value left (i + 1) j (update probs i (2 ^ 11 / 2)) ∙ ground arith

-- `lzma_reset` writes through `is_match[0]` as one array. The last of the arrays, the sixteen
-- literal coders, ends exactly where it stops: every probability becomes one half, and no
-- memory behind the struct is written.
pub lzma_reset-probs :
    (s : Lzma) (j : ℕ)
    → ((lzma_reset s).probs j ≡ (if ltb j (literal_probs 16) then 1024 else s.probs j))
      × ((lzma_reset s).state ≡ 0)
      × ((lzma_reset s).rep0 ≡ 0)
      × ((lzma_reset s).rc.range ≡ 2 ^ 32 - 1)
unfolding lzma_reset rc_reset
lzma_reset-probs s j = (reset_loop-value probs_total 0 j s.probs ∙ ground arith, refl, refl, refl)

pub strip_loop-div :
    (fuel unit count props q r : ℕ)
    → 0 < unit
    → q ≤ fuel
    → props ≡ q * unit + r
    → r < unit
    → strip_loop fuel unit count props ≡ record { count = count + q; props = r }
unfolding strip_loop
strip_loop-div zero unit count props zero r hu hf e hr = ground arith
strip_loop-div zero unit count props (suc q) r hu hf e hr = absurd (omega arith)
strip_loop-div (suc fuel) unit count props zero r hu hf e hr = ground arith
strip_loop-div (suc fuel) unit count props (suc q) r hu hf e hr =
    ground (arith, strip_loop-div fuel unit (count + 1) (props - unit) q r)

-- The properties byte is `(pb * 5 + lp) * 9 + lc`. It is accepted exactly if `lc + lp` is at most
-- 4, and then the masks and `lc` are those of its parts.
pub lzma_props_lem :
    (s : Lzma) (pb lp lc : ℕ)
    → pb < 5
    → lp < 5
    → lc < 9
    → let r = lzma_props s ((pb * 5 + lp) * 9 + lc) in
      ((r.done ≡ true) ↔ (lc + lp ≤ 4))
      × (lc + lp ≤ 4
          → (r.lzma.pos_mask ≡ 2 ^ pb - 1)
            × (r.lzma.literal_pos_mask ≡ 2 ^ lp - 1)
            × (r.lzma.lc ≡ lc))
unfolding lzma_props lzma_reset
lzma_props_lem s pb lp lc hb hl hc = rw (pb_part, lp_part) (ground arith, λ small. ground arith)
  where
    pb_part :
        strip_loop ((pb * 5 + lp) * 9 + lc) (9 * 5) 0 ((pb * 5 + lp) * 9 + lc)
        ≡ record { count = 0 + pb; props = lp * 9 + lc }
    pb_part =
        strip_loop-div ((pb * 5 + lp) * 9 + lc) 45 0 ((pb * 5 + lp) * 9 + lc) pb (lp * 9 + lc)
          (omega arith) (omega arith) (omega arith) (omega arith)

    lp_part : strip_loop (lp * 9 + lc) 9 0 (lp * 9 + lc) ≡ record { count = 0 + lp; props = lc }
    lp_part =
        strip_loop-div (lp * 9 + lc) 9 0 (lp * 9 + lc) lp lc (omega arith) (omega arith)
          (omega arith) (omega arith)

-- No larger byte is accepted.
pub lzma_props_large : (s : Lzma) (props : ℕ) → 225 ≤ props → (lzma_props s props).done ≡ false
unfolding lzma_props
lzma_props_large s props h = ground arith
