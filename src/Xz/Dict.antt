-- ===== src/Xz/Dict.antt =====
-- The dictionary of resources/lib/xz/xz_dec_lzma2.c: the sliding window of the decoded bytes.
-- In single-call mode `buf` points into the caller's output, in the other modes to a buffer of
-- its own that is used in a circle. `size_t` has 32 bits.
use galaxys2_kernel_repack.Base.{
  ℕ, zero, suc, ◌+◌, ◌-◌, ◌<◌, min, List, Bool, true, false, take, drop,
}
use galaxys2_kernel_repack.Base.{ltb, leb, ◌==◌, if◌then◌else◌, ◌||◌, ◌&&◌}
use galaxys2_kernel_repack.Base.Bytes.{sub32, u32}
use galaxys2_kernel_repack.Xz.Types.{
  XzMode, is_single, is_multi, Ptr, Mem, load, store, bytes_at, store_bytes,
}
use galaxys2_kernel_repack.Xz.Types.{XzBuf, in_size}
pub mod Invariant
pub mod Window
pub mod Copy
pub mod Bytes
pub mod Confined
mod Tests

pub record Dictionary : Type 0 where
  pub buf : Ptr
  pub start : ℕ
  pub pos : ℕ
  pub full : ℕ
  pub limit : ℕ
  pub end : ℕ
  pub size : ℕ
  pub size_max : ℕ
  pub allocated : ℕ
  pub mode : XzMode

pub dict_reset : Dictionary → XzBuf → Dictionary
dict_reset d b =
    let d' : Dictionary =
      if is_single d.mode
      then record d {
        buf = record { region = b.out.region; offset = b.out.offset + b.out_pos };
        end = sub32 b.out_size b.out_pos;
      }
      else d in
    record d' { start = 0; pos = 0; limit = 0; full = 0 }

pub dict_limit : Dictionary → ℕ → Dictionary
dict_limit d out_max = record d {
  limit = if leb (sub32 d.end d.pos) out_max then d.end else u32 (d.pos + out_max);
}

abbrev pub dict_has_space : Dictionary → Bool
dict_has_space d = ltb d.pos d.limit

-- `pos - dist - 1`, and the wrap to the end of the buffer.
pub dict_offset : Dictionary → ℕ → ℕ
dict_offset d dist =
    let back = sub32 (sub32 d.pos dist) 1 in if leb d.pos dist then u32 (back + d.end) else back

pub dict_get : Dictionary → Mem → ℕ → ℕ
dict_get d m dist = if ltb 0 d.full then load m d.buf (dict_offset d dist) else 0

-- `if (dict->full < dict->pos) dict->full = dict->pos;`
abbrev pub raise_full : Dictionary → Dictionary
raise_full d = record d { full = if ltb d.full d.pos then d.pos else d.full }

pub dict_put : Dictionary → Mem → ℕ → Dictionary × Mem
dict_put d m byte = (raise_full (record d { pos = d.pos + 1 }), store m d.buf d.pos byte)

-- The copy loop of `dict_repeat`, with its rounds left; `back` wraps at the end of the buffer.
pub repeat_loop : ℕ → Ptr → ℕ → Mem → ℕ → ℕ → Mem
repeat_loop zero buf end m pos back = m
repeat_loop (suc left) buf end m pos back =
    repeat_loop left buf end (store m buf pos (load m buf back)) (pos + 1)
      (if back + 1 == end then 0 else back + 1)

-- A `do … while (--left > 0)` on 32 bits runs `left` times, and `2 ^ 32` times for 0.
abbrev pub do_while_rounds : ℕ → ℕ
do_while_rounds left = if left == 0 then 4294967296 else left

pub record Repeat : Type 0 where
  pub done : Bool
  pub dict : Dictionary
  pub mem : Mem
  pub len : ℕ

pub dict_repeat : Dictionary → Mem → ℕ → ℕ → Repeat
dict_repeat d m len dist =
    let left = min (sub32 d.limit d.pos) len in
    let rounds = do_while_rounds left in
    if leb d.full dist || leb d.size dist
    then record { done = false; dict = d; mem = m; len = len }
    else record {
      done = true;
      dict = raise_full (record d { pos = d.pos + rounds });
      mem = repeat_loop rounds d.buf d.end m d.pos (dict_offset d dist);
      len = len - left;
    }

pub record Copied : Type 0 where
  pub dict : Dictionary
  pub mem : Mem
  pub buf : XzBuf
  pub left : ℕ

-- One round of the loop of `dict_uncompressed`.
pub copy_size : Dictionary → XzBuf → ℕ → ℕ
copy_size d b left =
    let n = min (in_size b - b.in_pos) (b.out_size - b.out_pos) in
    let n = if ltb (d.end - d.pos) n then d.end - d.pos else n in if ltb left n then left else n

pub copy_round : Dictionary → Mem → XzBuf → ℕ → Copied
copy_round d m b left =
    let n = copy_size d b left in
    let bytes = take n (drop b.in_pos b.input) in
    let m = store_bytes m d.buf d.pos bytes in
    let d : Dictionary = raise_full (record d { pos = d.pos + n }) in
    let wrapped = if is_multi d.mode && d.pos == d.end then 0 else d.pos in
    record {
      dict = record d { pos = wrapped; start = wrapped };
      mem = if is_multi d.mode then store_bytes m b.out b.out_pos bytes else m;
      buf = record b { out_pos = b.out_pos + n; in_pos = b.in_pos + n };
      left = left - n;
    }

abbrev pub copy_goes_on : XzBuf → ℕ → Bool
copy_goes_on b left = ltb 0 left && ltb b.in_pos (in_size b) && ltb b.out_pos b.out_size

pub uncompressed_loop : ℕ → Copied → Copied
uncompressed_loop zero c = c
uncompressed_loop (suc fuel) c =
    let more = uncompressed_loop fuel (copy_round c.dict c.mem c.buf c.left) in
    if copy_goes_on c.buf c.left then more else c

-- A round copies a byte at least, so `left` rounds are enough.
pub dict_uncompressed : Dictionary → Mem → XzBuf → ℕ → Copied
dict_uncompressed d m b left =
    uncompressed_loop left (record { dict = d; mem = m; buf = b; left = left })

pub record Flushed : Type 0 where
  pub count : ℕ
  pub dict : Dictionary
  pub mem : Mem
  pub buf : XzBuf

pub dict_flush : Dictionary → Mem → XzBuf → Flushed
dict_flush d m b =
    let n = d.pos - d.start in
    let wrapped = if is_multi d.mode && d.pos == d.end then 0 else d.pos in
    record {
      count = n;
      dict = record d { pos = wrapped; start = wrapped };
      mem =
          if is_multi d.mode then store_bytes m b.out b.out_pos (bytes_at m d.buf d.start n) else m;
      buf = record b { out_pos = b.out_pos + n };
    }
