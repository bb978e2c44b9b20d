-- ===== src/Xz/Stream/Index/Laws.antt =====
-- The loop of `dec_index` has rounds enough.
use galaxys2_kernel_repack.Base.{ℕ, zero, suc, ◌-◌, ◌≤◌, ◌<◌, ◌≡◌, arith}
use galaxys2_kernel_repack.Xz.Types.{XzBuf, in_size}
use galaxys2_kernel_repack.Xz.Stream.{XzDec}
use galaxys2_kernel_repack.Xz.Stream.Fields.{input_vli}
use galaxys2_kernel_repack.Xz.Stream.Fields.Laws.{input_vli-Moves}
use galaxys2_kernel_repack.Xz.Stream.Index.{index_field, index_loop, dec_index}

index_loop-fuel :
    (f g : ℕ) (s : XzDec) (b : XzBuf)
    → b.in_pos ≤ in_size b
    → in_size b - b.in_pos < f
    → in_size b - b.in_pos < g
    → index_loop f s b ≡ index_loop g s b
unfolding index_loop
index_loop-fuel zero g s b hb hf hg = absurd (omega arith)
index_loop-fuel (suc f) zero s b hb hf hg = absurd (omega arith)
index_loop-fuel (suc f) (suc g) s b hb hf hg =
    let r = input_vli s b in
    ground (
      arith,
      input_vli-Moves s b hb,
      index_loop-fuel f g (index_field s.index_sequence r.dec).1 r.buf,
    )

-- With the position inside the input, the rounds that `dec_index` allows its loop are enough: every
-- number of rounds above the bytes left gives the same result.
pub dec_index-enough :
    (fuel : ℕ) (s : XzDec) (b : XzBuf)
    → b.in_pos ≤ in_size b
    → in_size b - b.in_pos < fuel
    → index_loop fuel s b ≡ dec_index s b
unfolding dec_index
dec_index-enough fuel s b hb h =
    index_loop-fuel fuel (suc (in_size b - b.in_pos)) s b hb h (omega arith)
