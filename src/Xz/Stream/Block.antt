-- ===== src/Xz/Stream/Block.antt =====
-- `dec_block`: running the filters on a Block, and checking its sizes.
use galaxys2_kernel_repack.Base.{ℕ, ◌+◌, ◌-◌, Bool}
use galaxys2_kernel_repack.Base.{ltb, ◌==◌, if◌then◌else◌, ◌&&◌, ◌||◌, not}
use galaxys2_kernel_repack.Xz.Types.{XzRet, stream_end, data_error}
use galaxys2_kernel_repack.Xz.Types.{XzBuf, bytes_at}
use galaxys2_kernel_repack.Xz.Crc32.{xz_crc32}
use galaxys2_kernel_repack.Xz.Vli.{vli_unknown}
use galaxys2_kernel_repack.Xz.Stream.{Chain, Ran, XzDec, u64, check_crc32}
use galaxys2_kernel_repack.Xz.Stream.{}
use galaxys2_kernel_repack.Xz.Stream.Fields.{hash_update}
use galaxys2_kernel_repack.Xz.Stream.Header.{is_end}
use mathlib.Core.Option
use mathlib.Core.Option.{Option}

-- A `Step` with the filters.
pub record Run (c : Chain) : Type 0 where
  pub ret : XzRet
  pub dec : XzDec
  pub filters : c.Filters
  pub buf : XzBuf

-- The sizes and the checksum after the filters ran.
pub count_sizes : XzDec → ℕ → ℕ → XzDec
count_sizes s taken given = record s {
  block_compressed = u64 (s.block_compressed + taken);
  block_uncompressed = u64 (s.block_uncompressed + given);
}

-- The update of the hash and of the count at the end of a Block.
pub finish_block : XzDec → XzDec
finish_block s =
    let check = if s.check_type == check_crc32 then 4 else 0 in
    record s {
      block_hash = hash_update (record (s.block_hash) {
        unpadded =
            u64 (u64 (s.block_hash.unpadded + u64 (s.header_size + s.block_compressed)) + check);
        uncompressed = u64 (s.block_hash.uncompressed + s.block_uncompressed);
      });
      block_count = u64 (s.block_count + 1);
    }

-- The checks of the sizes against the Block Header: not above, and at the end not below.
abbrev pub too_long : XzDec → Bool
too_long s =
    ltb s.header_compressed s.block_compressed || ltb s.header_uncompressed s.block_uncompressed

abbrev pub size_differs : ℕ → ℕ → Bool
size_differs header block = not (header == vli_unknown) && not (header == block)

module _ (c : Chain) where
  -- What `dec_block` makes of a run of the filters: the buffer from before, the decoder, and the run.
  pub judge_block : XzBuf → XzDec → Ran (c.Filters) → Run c
  judge_block b s r =
      let s2 = count_sizes s (r.buf.in_pos - b.in_pos) (r.buf.out_pos - b.out_pos) in
      let given = bytes_at (c.mem r.filters) b.out b.out_pos (r.buf.out_pos - b.out_pos) in
      let s3 : XzDec =
        if s.check_type == check_crc32 then record s2 { crc32 = xz_crc32 given s2.crc32 } else s2 in
      let bad =
        size_differs s3.header_compressed s3.block_compressed
        || size_differs s3.header_uncompressed s3.block_uncompressed in
      if too_long s2
      then record { ret = data_error; dec = s2; filters = r.filters; buf = r.buf }
      else if is_end r.ret
      then if bad
        then record { ret = data_error; dec = s3; filters = r.filters; buf = r.buf }
        else record { ret = stream_end; dec = finish_block s3; filters = r.filters; buf = r.buf }
      else record { ret = r.ret; dec = s3; filters = r.filters; buf = r.buf }

  pub dec_block : XzDec → c.Filters → XzBuf → Option (Run c)
  dec_block s f b =
      Option.map (judge_block b (record s { in_start = b.in_pos; out_start = b.out_pos }))
        (c.run s.bcj_active f b)
