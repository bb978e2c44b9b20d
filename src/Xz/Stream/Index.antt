-- ===== src/Xz/Stream/Index.antt =====
-- `dec_index`: the Records of the Index field, checked against the Blocks.
use galaxys2_kernel_repack.Base.{
  ℕ, zero, suc, ◌+◌, ◌-◌, ◌*◌, ◌/◌, ◌%◌, ◌^◌, ◌≤◌, ◌<◌, ◌≡◌, ◌≢◌, refl, arith, min, bit_and, Bool,
  true, false,
}
use galaxys2_kernel_repack.Base.{
  List, [], ◌∷◌, ◌++◌, take, drop, length, ltb, leb, ◌==◌, if◌then◌else◌, ◌&&◌, ◌||◌, not,
}
use galaxys2_kernel_repack.Base.Bytes.{u32, update}
use galaxys2_kernel_repack.Xz.Types.{
  XzRet, ok, stream_end, format_error, options_error, data_error, buf_error,
}
use galaxys2_kernel_repack.Xz.Types.{XzMode, is_single, Mem, XzBuf, in_size, in_byte, bytes_at}
use galaxys2_kernel_repack.Xz.Crc32.{xz_crc32}
use galaxys2_kernel_repack.Xz.Vli.{VliStep, dec_vli, vli_unknown}
use galaxys2_kernel_repack.Xz.Stream.{
  Chain, Seq, IndexSeq, XzDec, Hash, Step, u64, hash_bytes, input_bytes, check_crc32,
  stream_header_size,
}
use galaxys2_kernel_repack.Xz.Stream.{
  stream_header, block_start, block_header, block_uncompress, block_padding, block_check, index,
  index_padding, index_crc32, stream_footer, index_count, index_unpadded, index_uncompressed,
}
use galaxys2_kernel_repack.Xz.Stream.Fields.{
  Fill, fill_temp, input_vli, index_update, hash_update, crc32_validate,
}
use galaxys2_kernel_repack.Xz.Stream.Header.{
  dec_stream_header, dec_stream_footer, xz_dec_reset, Part, dec_block_header, is_ok, is_end,
}
pub mod Laws
mod Tests
pub mod RoundTrip

-- One number of the Index, by its place.
pub index_field : IndexSeq → XzDec → XzRet × XzDec
index_field index_count s =
    let s' : XzDec = record s { index_count = s.vli } in
    if s.vli == s.block_count
    then (ok, record s' { index_sequence = index_unpadded })
    else (data_error, s')
index_field index_unpadded s = (
  ok,
  record s {
    index_hash = record (s.index_hash) { unpadded = u64 (s.index_hash.unpadded + s.vli) };
    index_sequence = index_uncompressed;
  },
)
index_field index_uncompressed s = (
  ok,
  record s {
    index_hash =
        hash_update
          (record (s.index_hash) { uncompressed = u64 (s.index_hash.uncompressed + s.vli) });
    index_count = u64 (s.index_count + 2 ^ 64 - 1);
    index_sequence = index_unpadded;
  },
)

-- The loop of `dec_index`. Each round takes a byte at least, so the bytes of the input and one
-- more round are fuel enough.
pub index_loop : ℕ → XzDec → XzBuf → Step
index_loop zero s b = record { ret = ok; dec = s; buf = b }
index_loop (suc fuel) s b =
    let r = input_vli s b in
    let (ret, s') = index_field s.index_sequence r.dec in
    let more = index_loop fuel s' r.buf in
    if is_end r.ret
    then if is_ok ret
      then if ltb 0 s'.index_count then more else record { ret = stream_end; dec = s'; buf = r.buf }
      else record { ret = ret; dec = s'; buf = r.buf }
    else record { ret = r.ret; dec = index_update r.dec r.buf; buf = r.buf }

pub dec_index : XzDec → XzBuf → Step
dec_index s b = index_loop (suc (in_size b - b.in_pos)) s b
