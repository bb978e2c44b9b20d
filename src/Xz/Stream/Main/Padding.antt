-- ===== src/Xz/Stream/Main/Padding.antt =====
-- The padding of a Block and of the Index.
use galaxys2_kernel_repack.Base.{ℕ, ◌+◌, ◌-◌, ◌%◌, ◌^◌, ◌<◌, ◌≤◌, ◌≡◌, refl, arith, bit_and}
use galaxys2_kernel_repack.Base.Bits
use galaxys2_kernel_repack.Xz.Types.{stream_end, XzBuf}
use galaxys2_kernel_repack.Xz.Stream.{XzDec, u64}
use galaxys2_kernel_repack.Xz.Stream.Main.{padding_loop, index_padding_loop}

three : (n : ℕ) → bit_and n 3 ≡ n % 4
three n = Bits.bit_and-mask 2 n 3 refl

-- For a size of 64 bits, padding that is accepted fills a Block up to a multiple of four bytes, takes
-- three bytes at most, and is counted into the size of the Block.
pub padding_loop_aligns :
    (s : XzDec) (b : XzBuf)
    → s.block_compressed < 2 ^ 64
    → (padding_loop 4 s b).ret ≡ stream_end
    → let r = padding_loop 4 s b in
      (r.dec.block_compressed % 4 ≡ 0)
      × (r.buf.in_pos ≤ b.in_pos + 3)
      × (r.dec.block_compressed ≡ u64 (s.block_compressed + (r.buf.in_pos - b.in_pos)))
unfolding padding_loop
padding_loop_aligns s b h e =
    let c = s.block_compressed in
    ground (
      arith,
      three c,
      three (u64 (c + 1)),
      three (u64 (u64 (c + 1) + 1)),
      three (u64 (u64 (u64 (c + 1) + 1) + 1)),
    )

-- Padding of the Index that is accepted fills it up to a multiple of four bytes, with the bytes read
-- in this call counted, and takes three bytes at most.
pub index_padding_loop_aligns :
    (s : XzDec) (b : XzBuf)
    → s.in_start ≤ b.in_pos
    → (index_padding_loop 4 s b).ret ≡ stream_end
    → let r = index_padding_loop 4 s b in
      ((s.index_size + (r.buf.in_pos - s.in_start)) % 4 ≡ 0) × (r.buf.in_pos ≤ b.in_pos + 3)
unfolding index_padding_loop
index_padding_loop_aligns s b h e =
    let at = λ (n : ℕ). three (u64 (s.index_size + (n - s.in_start))) in
    ground (arith, at b.in_pos, at (b.in_pos + 1), at (b.in_pos + 2), at (b.in_pos + 3))
