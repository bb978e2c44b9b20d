-- ===== src/Xz/Stream/Header.antt =====
-- The headers and the footer, decoded from `temp`, and the reset of the decoder.
use galaxys2_kernel_repack.Base.{
  ℕ, zero, suc, ◌+◌, ◌-◌, ◌*◌, ◌/◌, ◌%◌, ◌^◌, ◌≤◌, ◌≡◌, min, bit_and, Bool, true, false,
}
use galaxys2_kernel_repack.Base.{
  List, [], ◌∷◌, ◌++◌, take, drop, ltb, leb, ◌==◌, if◌then◌else◌, ◌&&◌, ◌||◌, not,
}
use galaxys2_kernel_repack.Base.Bytes.{u32, update}
use galaxys2_kernel_repack.Xz.Types.{
  XzRet, ok, stream_end, format_error, options_error, data_error, buf_error,
}
use galaxys2_kernel_repack.Xz.Types.{XzMode, is_single, Mem, XzBuf, in_size, in_byte, bytes_at}
use galaxys2_kernel_repack.Xz.Crc32.{xz_crc32}
use galaxys2_kernel_repack.Xz.Vli.{VliStep, dec_vli, vli_unknown}
use galaxys2_kernel_repack.Xz.Stream.{
  Chain, Seq, IndexSeq, stream_header, index_count, XzDec, Hash, Step, check_crc32,
  stream_header_size, array_bytes, get_le32, memeq,
}
pub mod Laws
mod Tests

-- `dec_stream_header`, on `temp.buf`.
abbrev pub header_magic : List ℕ
header_magic = 0xfd ∷ 0x37 ∷ 0x7a ∷ 0x58 ∷ 0x5a ∷ 0x00 ∷ []

pub dec_stream_header : XzDec → XzRet × XzDec
dec_stream_header s =
    let s' : XzDec = record s { check_type = s.temp_buf 7 } in
    if not (memeq (array_bytes s.temp_buf 0 6) header_magic)
    then (format_error, s)
    else if not (xz_crc32 (array_bytes s.temp_buf 6 2) 0 == get_le32 s.temp_buf 8)
    then (data_error, s)
    else if not (s.temp_buf 6 == 0)
    then (options_error, s)
    else if ltb check_crc32 (s.temp_buf 7)
    then (options_error, s')
    else (ok, s')

abbrev pub footer_magic : List ℕ
footer_magic = 0x59 ∷ 0x5a ∷ []

pub dec_stream_footer : XzDec → XzRet
dec_stream_footer s =
    if not (memeq (array_bytes s.temp_buf 10 2) footer_magic)
    then data_error
    else if not (xz_crc32 (array_bytes s.temp_buf 4 6) 0 == get_le32 s.temp_buf 0)
    then data_error
    else if not (s.index_size / 2 ^ 2 == get_le32 s.temp_buf 4)
    then data_error
    else if not (s.temp_buf 8 == 0) || not (s.temp_buf 9 == s.check_type)
    then data_error
    else stream_end

-- `xz_dec_reset`.
abbrev pub zero_hash : Hash
zero_hash = record { unpadded = 0; uncompressed = 0; crc32 = 0 }

pub xz_dec_reset : XzDec → XzDec
xz_dec_reset s = record s {
  sequence = stream_header;
  allow_buf_error = false;
  pos = 0;
  crc32 = 0;
  block_compressed = 0;
  block_uncompressed = 0;
  block_count = 0;
  block_hash = zero_hash;
  index_sequence = index_count;
  index_size = 0;
  index_count = 0;
  index_hash = zero_hash;
  temp_pos = 0;
  temp_size = stream_header_size;
}

-- What a part of `dec_block_header` leaves. `ok` means that the next part follows.
pub record Part (c : Chain) : Type 0 where
  pub ret : XzRet
  pub dec : XzDec
  pub filters : c.Filters

-- `dec_vli` on `temp.buf`.
pub temp_vli : XzDec → XzRet × XzDec
temp_vli s =
    let r =
      dec_vli (array_bytes s.temp_buf s.temp_pos (s.temp_size - s.temp_pos)) s.temp_pos s.pos
        s.vli in
    (r.ret, record s { pos = r.pos; vli = r.vli; temp_pos = r.in_pos })

abbrev pub is_end : XzRet → Bool
is_end stream_end = true
is_end _ = false

abbrev pub is_ok : XzRet → Bool
is_ok ok = true
is_ok _ = false

-- Compressed Size and Uncompressed Size.
pub read_compressed : XzDec → XzRet × XzDec
read_compressed s =
    let (ret, s') = temp_vli s in
    if bit_and (s.temp_buf 1) 0x40 == 0
    then (ok, record s { header_compressed = vli_unknown })
    else if is_end ret
    then (ok, record s' { header_compressed = s'.vli })
    else (data_error, s')

pub read_uncompressed : XzDec → XzRet × XzDec
read_uncompressed s =
    let (ret, s') = temp_vli s in
    if bit_and (s.temp_buf 1) 0x80 == 0
    then (ok, record s { header_uncompressed = vli_unknown })
    else if is_end ret
    then (ok, record s' { header_uncompressed = s'.vli })
    else (data_error, s')

abbrev pub advance : XzDec → ℕ → XzDec
advance s n = record s { temp_pos = s.temp_pos + n }

-- Header Padding: the bytes of `temp` that are left.
pub padding_loop : ℕ → XzDec → XzRet × XzDec
padding_loop zero s = (ok, s)
padding_loop (suc left) s =
    let more = padding_loop left (advance s 1) in
    if s.temp_buf s.temp_pos == 0 then more else (options_error, advance s 1)

module _ (c : Chain) where
  -- The BCJ filter, if there are two filters.
  pub read_bcj : XzDec → c.Filters → Part c
  read_bcj s f =
      let active = not (bit_and (s.temp_buf 1) 0x01 == 0) in
      let s : XzDec = record s { bcj_active = active } in
      let (ret, f') = c.bcj_reset f (s.temp_buf s.temp_pos) in
      if active
      then if ltb (s.temp_size - s.temp_pos) 2
        then record { ret = options_error; dec = s; filters = f }
        else if is_ok ret
        then if s.temp_buf (s.temp_pos + 1) == 0
          then record { ret = ok; dec = advance s 2; filters = f' }
          else record { ret = options_error; dec = advance s 2; filters = f' }
        else record { ret = ret; dec = advance s 1; filters = f' }
      else record { ret = ok; dec = s; filters = f }

  -- The LZMA2 filter: its id, the size of its properties, and the properties.
  pub read_lzma2 : XzDec → c.Filters → Part c
  read_lzma2 s f =
      let (ret, f') = c.lzma2_reset f (s.temp_buf (s.temp_pos + 2)) in
      if ltb (s.temp_size - s.temp_pos) 2
      then record { ret = data_error; dec = s; filters = f }
      else if s.temp_buf s.temp_pos == 0x21
      then if s.temp_buf (s.temp_pos + 1) == 0x01
        then if ltb (s.temp_size - (s.temp_pos + 2)) 1
          then record { ret = data_error; dec = advance s 2; filters = f }
          else record { ret = ret; dec = advance s 3; filters = f' }
        else record { ret = options_error; dec = advance s 2; filters = f }
      else record { ret = options_error; dec = advance s 1; filters = f }

  -- The last part: the padding, and the start of the Block.
  pub end_header : XzDec → c.Filters → Part c
  end_header s f =
      let (ret, s') = padding_loop (s.temp_size - s.temp_pos) s in
      if is_ok ret
      then record {
        ret = ok;
        dec = record s' { temp_pos = 0; block_compressed = 0; block_uncompressed = 0 };
        filters = f;
      }
      else record { ret = ret; dec = s'; filters = f }

  -- The parts one after the other; a part that fails ends the function with its value.
  abbrev pub then_part : Part c → (XzDec → c.Filters → Part c) → Part c
  then_part p next = if is_ok p.ret then next p.dec p.filters else p

  abbrev pub then_field : XzRet × XzDec → c.Filters → (XzDec → c.Filters → Part c) → Part c
  then_field (ret, s) f next =
      if is_ok ret then next s f else record { ret = ret; dec = s; filters = f }

  pub dec_block_header : XzDec → c.Filters → Part c
  dec_block_header s f =
      let s' : XzDec = record s { temp_size = s.temp_size - 4 } in
      let s'' : XzDec = record s' { temp_pos = 2 } in
      if xz_crc32 (array_bytes s.temp_buf 0 s'.temp_size) 0 == get_le32 s.temp_buf s'.temp_size
      then if bit_and (s.temp_buf 1) 0x3e == 0
        then then_field (read_compressed s'') f (λ t g.
          then_field (read_uncompressed t) g
            (λ u h. then_part (then_part (read_bcj u h) read_lzma2) end_header))
        else record { ret = options_error; dec = s''; filters = f }
      else record { ret = data_error; dec = s'; filters = f }
