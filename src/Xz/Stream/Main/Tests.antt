-- ===== src/Xz/Stream/Main/Tests.antt =====
-- The padding of a Block at a concrete input.
use galaxys2_kernel_repack.Base.{◌+◌, ◌-◌, ◌%◌, ◌≤◌, ◌≡◌, refl, arith, [], ◌∷◌}
use galaxys2_kernel_repack.Xz.Types.{XzBuf}
use galaxys2_kernel_repack.Xz.Stream.{XzDec, u64, Step}
use galaxys2_kernel_repack.Xz.Stream.Samples.{decoder, buffer}
use galaxys2_kernel_repack.Xz.Stream.Main.{padding_loop}
use galaxys2_kernel_repack.Xz.Stream.Main.Padding.{padding_loop_aligns}

-- A Block of 6 bytes, and two bytes of padding.
abbrev six : XzDec
six = record decoder { block_compressed = 6 }

abbrev zeros : XzBuf
zeros = buffer (0 ∷ 0 ∷ 9 ∷ [])

abbrev padded : Step
padded = padding_loop 4 six zeros

padding_loop_aligns_example :
    (padded.dec.block_compressed % 4 ≡ 0)
    × (padded.buf.in_pos ≤ 0 + 3)
    × (padded.dec.block_compressed ≡ u64 (6 + (padded.buf.in_pos - 0)))
unfolding padding_loop
padding_loop_aligns_example = padding_loop_aligns six zeros (omega arith) refl
