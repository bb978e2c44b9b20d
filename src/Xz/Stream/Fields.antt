-- ===== src/Xz/Stream/Fields.antt =====
-- The parts of the fields: `fill_temp`, `index_update` and `crc32_validate`.
use galaxys2_kernel_repack.Base.{
  ℕ, zero, suc, ◌+◌, ◌-◌, ◌*◌, ◌/◌, ◌%◌, ◌^◌, ◌≤◌, ◌≡◌, min, bit_and, Bool, true, false,
}
use galaxys2_kernel_repack.Base.{
  List, [], ◌∷◌, ◌++◌, take, drop, ltb, leb, ◌==◌, if◌then◌else◌, ◌&&◌, ◌||◌, not,
}
use galaxys2_kernel_repack.Base.Bytes.{u32, update}
use galaxys2_kernel_repack.Xz.Types.{
  XzRet, ok, stream_end, format_error, options_error, data_error, buf_error,
}
use galaxys2_kernel_repack.Xz.Types.{XzMode, is_single, Mem, XzBuf, in_size, in_byte, bytes_at}
use galaxys2_kernel_repack.Xz.Crc32.{xz_crc32}
use galaxys2_kernel_repack.Xz.Vli.{VliStep, dec_vli, vli_unknown}
use galaxys2_kernel_repack.Xz.Stream.{XzDec, Hash, Step, u64, hash_bytes, input_bytes, put_bytes}
pub mod Laws
mod Tests

-- `fill_temp`: whether `temp` is full.
pub record Fill : Type 0 where
  pub full : Bool
  pub dec : XzDec
  pub buf : XzBuf

pub fill_temp : XzDec → XzBuf → Fill
fill_temp s b =
    let n = min (in_size b - b.in_pos) (s.temp_size - s.temp_pos) in
    let s' : XzDec = record s {
      temp_buf = put_bytes s.temp_buf s.temp_pos (take n (drop b.in_pos b.input));
      temp_pos = s.temp_pos + n;
    } in
    let b' = record b { in_pos = b.in_pos + n } in
    if s.temp_pos + n == s.temp_size
    then record { full = true; dec = record s' { temp_pos = 0 }; buf = b' }
    else record { full = false; dec = s'; buf = b' }

-- `dec_vli` on the caller's input.
pub input_vli : XzDec → XzBuf → Step
input_vli s b =
    let r = dec_vli (drop b.in_pos b.input) b.in_pos s.pos s.vli in
    record {
      ret = r.ret;
      dec = record s { pos = r.pos; vli = r.vli };
      buf = record b { in_pos = r.in_pos };
    }

-- `index_update`.
pub index_update : XzDec → XzBuf → XzDec
index_update s b = record s {
  index_size = u64 (s.index_size + (b.in_pos - s.in_start));
  crc32 = xz_crc32 (input_bytes b s.in_start b.in_pos) s.crc32;
}

-- The update of a hash with the sizes that were added to it.
pub hash_update : Hash → Hash
hash_update h = record h { crc32 = xz_crc32 (hash_bytes h) h.crc32 }

-- The loop of `crc32_validate`, with its bytes left.
pub validate_loop : ℕ → XzDec → XzBuf → Step
validate_loop zero s b = record { ret = stream_end; dec = record s { crc32 = 0; pos = 0 }; buf = b }
validate_loop (suc left) s b =
    let b' = record b { in_pos = b.in_pos + 1 } in
    let more = validate_loop left (record s { pos = s.pos + 8 }) b' in
    if b.in_pos == in_size b
    then record { ret = ok; dec = s; buf = b }
    else if bit_and (s.crc32 / 2 ^ s.pos) 0xff == in_byte b b.in_pos
    then more
    else record { ret = data_error; dec = s; buf = b' }

-- The rounds of the do-while loop: `pos` counts in steps of 8 up to 32, and the first round comes
-- before the test.
abbrev pub validate_rounds : ℕ → ℕ
validate_rounds pos = if ltb pos 32 then 4 - pos / 8 else 1

pub crc32_validate : XzDec → XzBuf → Step
crc32_validate s b = validate_loop (validate_rounds s.pos) s b
