-- ===== src/Xz/Stream/Main.antt =====
-- `dec_main`, one pass of the `switch` at a time, and `xz_dec_run`.
use galaxys2_kernel_repack.Base.{
  ℕ, zero, suc, ◌+◌, ◌-◌, ◌*◌, ◌/◌, ◌%◌, ◌^◌, ◌≤◌, ◌<◌, ◌≡◌, ◌≢◌, refl, arith, min, bit_and, Bool,
  true, false,
}
use galaxys2_kernel_repack.Base.{
  List, [], ◌∷◌, ◌++◌, take, drop, length, ltb, leb, ◌==◌, if◌then◌else◌, ◌&&◌, ◌||◌, not,
}
use galaxys2_kernel_repack.Base.Bytes.{u32, update}
use galaxys2_kernel_repack.Xz.Types.{
  XzRet, ok, stream_end, format_error, options_error, data_error, buf_error,
}
use galaxys2_kernel_repack.Xz.Types.{XzMode, is_single, Mem, XzBuf, in_size, in_byte, bytes_at}
use galaxys2_kernel_repack.Xz.Crc32.{xz_crc32}
use galaxys2_kernel_repack.Xz.Vli.{VliStep, dec_vli, vli_unknown}
use galaxys2_kernel_repack.Xz.Stream.{
  Chain, Seq, IndexSeq, XzDec, Hash, Step, u64, hash_bytes, input_bytes, check_crc32,
  stream_header_size,
}
use galaxys2_kernel_repack.Xz.Stream.{
  stream_header, block_start, block_header, block_uncompress, block_padding, block_check, index,
  index_padding, index_crc32, stream_footer, index_count, index_unpadded, index_uncompressed,
}
use galaxys2_kernel_repack.Xz.Stream.Fields.{
  Fill, fill_temp, input_vli, index_update, hash_update, crc32_validate,
}
use galaxys2_kernel_repack.Xz.Stream.Header.{
  dec_stream_header, dec_stream_footer, xz_dec_reset, Part, dec_block_header, is_ok, is_end,
}
use galaxys2_kernel_repack.Xz.Stream.Block.{Run, dec_block}
use galaxys2_kernel_repack.Xz.Stream.Index.{dec_index}
use mathlib.Core.Option
use mathlib.Core.Option.{Option, none, some}
pub mod Padding
pub mod Magic
mod Tests

-- What a pass of the `switch` does: it goes round the loop again (`break`), or returns, or the fuel
-- of the filters ran out in it.
pub data Turn : Type 0 where
  again lost : Turn
  give : XzRet → Turn

pub record Pass (c : Chain) : Type 0 where
  pub turn : Turn
  pub dec : XzDec
  pub filters : c.Filters
  pub buf : XzBuf

-- `while (s->block.compressed & 3)`, which takes three bytes at most.
pub padding_loop : ℕ → XzDec → XzBuf → Step
padding_loop zero s b = record { ret = stream_end; dec = s; buf = b }
padding_loop (suc left) s b =
    let b' = record b { in_pos = b.in_pos + 1 } in
    let more =
      padding_loop left (record s { block_compressed = u64 (s.block_compressed + 1) }) b' in
    if bit_and s.block_compressed 3 == 0
    then record { ret = stream_end; dec = s; buf = b }
    else if b.in_pos == in_size b
    then record { ret = ok; dec = s; buf = b }
    else if in_byte b b.in_pos == 0
    then more
    else record { ret = data_error; dec = s; buf = b' }

-- The same for the padding of the Index.
pub index_padding_loop : ℕ → XzDec → XzBuf → Step
index_padding_loop zero s b = record { ret = stream_end; dec = s; buf = b }
index_padding_loop (suc left) s b =
    let b' = record b { in_pos = b.in_pos + 1 } in
    let more = index_padding_loop left s b' in
    if bit_and (u64 (s.index_size + (b.in_pos - s.in_start))) 3 == 0
    then record { ret = stream_end; dec = s; buf = b }
    else if b.in_pos == in_size b
    then record { ret = ok; dec = index_update s b; buf = b }
    else if in_byte b b.in_pos == 0
    then more
    else record { ret = data_error; dec = s; buf = b' }

-- Whether two hashes have the same bytes.
abbrev pub same_hash : Hash → Hash → Bool
same_hash h k = h.unpadded == k.unpadded && (h.uncompressed == k.uncompressed && h.crc32 == k.crc32)

-- The last cases, which do not touch the filters, each falling through into the next.
pub footer_case : XzDec → XzBuf → Step
footer_case s b =
    let r = fill_temp s b in
    if r.full
    then record { ret = dec_stream_footer r.dec; dec = r.dec; buf = r.buf }
    else record { ret = ok; dec = r.dec; buf = r.buf }

pub index_crc32_case : XzDec → XzBuf → Step
index_crc32_case s b =
    let r = crc32_validate s b in
    if is_end r.ret
    then footer_case (record (r.dec) { temp_size = stream_header_size; sequence = stream_footer })
        r.buf
    else r

pub index_padding_case : XzDec → XzBuf → Step
index_padding_case s b =
    let r = index_padding_loop 4 s b in
    let s' = index_update r.dec r.buf in
    if is_end r.ret
    then if same_hash s'.block_hash s'.index_hash
      then index_crc32_case (record s' { sequence = index_crc32 }) r.buf
      else record { ret = data_error; dec = s'; buf = r.buf }
    else r

pub index_case : XzDec → XzBuf → Step
index_case s b =
    let r = dec_index s b in
    if is_end r.ret
    then index_padding_case (record (r.dec) { sequence = index_padding }) r.buf
    else r

module _ (c : Chain) where
  abbrev pub stop : XzRet → XzDec → c.Filters → XzBuf → Pass c
  stop ret s f b = record { turn = give ret; dec = s; filters = f; buf = b }

  abbrev pub stop_step : Step → c.Filters → Pass c
  stop_step r f = stop r.ret r.dec f r.buf

  pub check_case : XzDec → c.Filters → XzBuf → Pass c
  check_case s f b =
      let r = crc32_validate s b in
      if s.check_type == check_crc32
      then if is_end r.ret
        then record {
          turn = again;
          dec = record (r.dec) { sequence = block_start };
          filters = f;
          buf = r.buf;
        }
        else stop_step r f
      else record { turn = again; dec = record s { sequence = block_start }; filters = f; buf = b }

  pub padding_case : XzDec → c.Filters → XzBuf → Pass c
  padding_case s f b =
      let r = padding_loop 4 s b in
      if is_end r.ret
      then check_case (record (r.dec) { sequence = block_check }) f r.buf
      else stop_step r f

  pub uncompress_case : XzDec → c.Filters → XzBuf → Pass c
  uncompress_case s f b = elim (dec_block c s f b) [
    | none ↦ record { turn = lost; dec = s; filters = f; buf = b }
    | some r ↦
        if is_end r.ret
        then padding_case (record (r.dec) { sequence = block_padding }) r.filters r.buf
        else stop r.ret r.dec r.filters r.buf
  ]

  pub block_header_case : XzDec → c.Filters → XzBuf → Pass c
  block_header_case s f b =
      let r = fill_temp s b in
      let p = dec_block_header c r.dec f in
      if r.full
      then if is_ok p.ret
        then uncompress_case (record (p.dec) { sequence = block_uncompress }) p.filters r.buf
        else stop p.ret p.dec p.filters r.buf
      else stop ok r.dec f r.buf

  pub block_start_case : XzDec → c.Filters → XzBuf → Pass c
  block_start_case s f b =
      let size = (in_byte b b.in_pos + 1) * 4 in
      if b.in_pos == in_size b
      then stop ok s f b
      else if in_byte b b.in_pos == 0
      then record {
        turn = again;
        dec = record s { in_start = b.in_pos; sequence = index };
        filters = f;
        buf = record b { in_pos = b.in_pos + 1 };
      }
      else block_header_case
          (record s { header_size = size; temp_size = size; temp_pos = 0; sequence = block_header })
          f b

  pub stream_header_case : XzDec → c.Filters → XzBuf → Pass c
  stream_header_case s f b =
      let r = fill_temp s b in
      let (ret, s') = dec_stream_header (record (r.dec) { sequence = block_start }) in
      if r.full
      then if is_ok ret then block_start_case s' f r.buf else stop ret s' f r.buf
      else stop ok r.dec f r.buf

  pub switch : Seq → XzDec → c.Filters → XzBuf → Pass c
  switch stream_header s f b = stream_header_case s f b
  switch block_start s f b = block_start_case s f b
  switch block_header s f b = block_header_case s f b
  switch block_uncompress s f b = uncompress_case s f b
  switch block_padding s f b = padding_case s f b
  switch block_check s f b = check_case s f b
  switch index s f b = stop_step (index_case s b) f
  switch index_padding s f b = stop_step (index_padding_case s b) f
  switch index_crc32 s f b = stop_step (index_crc32_case s b) f
  switch stream_footer s f b = stop_step (footer_case s b) f

  -- The loop of `dec_main`; `none` means that its fuel, or that of the filters, ran out.
  pub main_loop : ℕ → XzDec → c.Filters → XzBuf → Option (Run c)
  main_loop zero s f b = none
  main_loop (suc fuel) s f b =
      let p = switch s.sequence s f b in
      elim p.turn [
        | again ↦ main_loop fuel p.dec p.filters p.buf
        | lost ↦ none
        | give ret ↦ some (record { ret = ret; dec = p.dec; filters = p.filters; buf = p.buf })
      ]

  -- Two passes take a byte at least.
  pub dec_main : XzDec → c.Filters → XzBuf → Option (Run c)
  dec_main s f b = main_loop (in_size b - b.in_pos + 3) (record s { in_start = b.in_pos }) f b

  -- What `xz_dec_run` makes of the result of `dec_main`, with the positions at the start.
  pub finish_run : XzBuf → Run c → Run c
  finish_run start r =
      let truncated = if r.buf.in_pos == in_size r.buf then data_error else buf_error in
      let single = if is_ok r.ret then truncated else r.ret in
      let still = is_ok r.ret && (start.in_pos == r.buf.in_pos && start.out_pos == r.buf.out_pos) in
      if is_single r.dec.mode
      then if is_end single then record r { ret = single } else record r {
        ret = single;
        buf = record (r.buf) { in_pos = start.in_pos; out_pos = start.out_pos };
      }
      else if still
      then record r {
        ret = if r.dec.allow_buf_error then buf_error else ok;
        dec = record (r.dec) { allow_buf_error = true };
      }
      else record r { dec = record (r.dec) { allow_buf_error = false } }

  pub xz_dec_run : XzDec → c.Filters → XzBuf → Option (Run c)
  xz_dec_run s f b =
      let s = if is_single s.mode then xz_dec_reset s else s in
      Option.map (finish_run b) (dec_main s f b)
