-- ===== src/Xz/Bcj.antt =====
-- The BCJ filter of resources/lib/xz/xz_dec_bcj.c, with the ARM filter alone, as in the boot code.
-- The operations of the next filter of the chain are an interface, which Xz/Bcj/Chain fills with
-- `xz_dec_lzma2_run` and `xz_dec_lzma2_reset`.
use galaxys2_kernel_repack.Base.{ℕ, zero, suc, ◌+◌, ◌-◌, ◌*◌, ◌/◌, ◌%◌, ◌^◌, ◌≤◌, ◌≡◌, min, bit_or}
use galaxys2_kernel_repack.Base.{Bool, true, false, ltb, leb, ◌==◌, if◌then◌else◌, ◌&&◌, ◌||◌, not}
use galaxys2_kernel_repack.Base.Bytes.{u8, u32, sub32}
use galaxys2_kernel_repack.Xz.Types.{XzRet, ok, stream_end, options_error}
use galaxys2_kernel_repack.Xz.Types.{
  Ptr, Mem, bcj_temp, load, store, bytes_at, store_bytes, XzBuf, in_size,
}
use mathlib.Core.Option
use mathlib.Core.Option.{Option, none, some}
pub mod Arm
pub mod Flush
pub mod Chain
pub mod Samples
mod Tests

-- `BCJ_ARM`.
abbrev pub bcj_arm_id : ℕ
bcj_arm_id = 7

-- `struct xz_dec_bcj`. The bytes of `temp.buf` stand in the memory, where `b->out` can point to them;
-- `out`, `out_pos` and `out_size` only carry values within one call.
pub record Bcj : Type 0 where
  pub type : ℕ
  pub ret : XzRet
  pub single_call : Bool
  pub pos : ℕ
  pub temp_filtered : ℕ
  pub temp_size : ℕ

abbrev pub temp : Ptr
temp = record { region = bcj_temp; offset = 0 }

-- What a run of the next filter leaves.
pub record Ran (S : Type 0) : Type 0 where
  pub ret : XzRet
  pub state : S
  pub buf : XzBuf

-- The operations of the next filter: its state, with the memory that all filters share, and its run,
-- which is `none` where its loop was not given enough fuel.
pub record Next : Type 1 where
  pub State : Type 0
  pub mem : State → Mem
  pub with_mem : State → Mem → State
  pub run : State → XzBuf → Option (Ran State)
  pub reset : State → ℕ → XzRet × State

-- The body of the loop of `bcj_arm`, on the instruction at `buf + i`.
pub arm_step : ℕ → Mem → Ptr → ℕ → Mem
arm_step pos m p i =
    let addr =
      bit_or (bit_or (load m p i) (load m p (i + 1) * 2 ^ 8)) (load m p (i + 2) * 2 ^ 16) in
    let addr = u32 (addr * 2 ^ 2) in
    let addr = sub32 addr (u32 (pos + i + 8)) in
    let addr = addr / 2 ^ 2 in
    let m' =
      store (store (store m p i (u8 addr)) p (i + 1) (u8 (addr / 2 ^ 8))) p (i + 2)
        (u8 (addr / 2 ^ 16)) in
    if load m p (i + 3) == 0xeb then m' else m

-- The loop of `bcj_arm`: the instructions left, and `i`.
pub arm_loop : ℕ → ℕ → Mem → Ptr → ℕ → Mem
arm_loop zero pos m p i = m
arm_loop (suc left) pos m p i = arm_loop left pos (arm_step pos m p i) p (i + 4)

-- `bcj_arm`: the memory, and the bytes filtered.
pub bcj_arm : Bcj → Mem → Ptr → ℕ → record { mem : Mem; filtered : ℕ }
bcj_arm s m p size = record { mem = arm_loop (size / 4) s.pos m p 0; filtered = size / 4 * 4 }

-- `bcj_apply`: the filter on the bytes from `pos` to `size`.
pub record Applied : Type 0 where
  pub bcj : Bcj
  pub mem : Mem
  pub pos : ℕ

pub bcj_apply : Bcj → Mem → Ptr → ℕ → ℕ → Applied
bcj_apply s m p pos size =
    let r = bcj_arm s m (record p { offset = p.offset + pos }) (size - pos) in
    if s.type == bcj_arm_id
    then record {
      bcj = record s { pos = u32 (s.pos + r.filtered) };
      mem = r.mem;
      pos = pos + r.filtered;
    }
    else record { bcj = s; mem = m; pos = pos }

-- `bcj_flush`.
pub record Drained : Type 0 where
  pub bcj : Bcj
  pub mem : Mem
  pub buf : XzBuf

pub bcj_flush : Bcj → Mem → XzBuf → Drained
bcj_flush s m b =
    let n = min s.temp_filtered (b.out_size - b.out_pos) in
    let m = store_bytes m b.out b.out_pos (bytes_at m temp 0 n) in
    let size = s.temp_size - n in
    record {
      bcj = record s { temp_filtered = s.temp_filtered - n; temp_size = size };
      mem = store_bytes m temp 0 (bytes_at m temp n size);
      buf = record b { out_pos = b.out_pos + n };
    }

-- `xz_dec_bcj_reset`, with the ARM filter alone.
pub xz_dec_bcj_reset : Bcj → ℕ → XzRet × Bcj
xz_dec_bcj_reset s id =
    if id == bcj_arm_id
    then (ok, record s { type = id; ret = ok; pos = 0; temp_filtered = 0; temp_size = 0 })
    else (options_error, s)

abbrev pub is_end : XzRet → Bool
is_end stream_end = true
is_end _ = false

abbrev pub is_ok : XzRet → Bool
is_ok ok = true
is_ok _ = false

module _ (n : Next) where
  -- Where a part of `xz_dec_bcj_run` leaves off: whether it returns, and what.
  pub record Stage : Type 0 where
    pub returns : Bool
    pub ret : XzRet
    pub bcj : Bcj
    pub next : n.State
    pub buf : XzBuf

  abbrev pub give : XzRet → Bcj → n.State → XzBuf → Stage
  give ret s f b = record { returns = true; ret = ret; bcj = s; next = f; buf = b }

  abbrev pub go_on : Bcj → n.State → XzBuf → Stage
  go_on s f b = record { returns = false; ret = ok; bcj = s; next = f; buf = b }

  -- Flushing what was filtered before.
  pub flush_part : Bcj → n.State → XzBuf → Stage
  flush_part s f b =
      let d = bcj_flush s (n.mem f) b in
      let f' = n.with_mem f d.mem in
      if ltb 0 s.temp_filtered
      then if ltb 0 d.bcj.temp_filtered
        then give ok d.bcj f' d.buf
        else if is_end s.ret
        then give stream_end d.bcj f' d.buf
        else go_on d.bcj f' d.buf
      else go_on s f b

  -- Decoding straight into the output, behind the unfiltered bytes of `temp`: what is done with the
  -- run of the next filter, and the buffer from before.
  pub after_direct : Bcj → XzBuf → Ran (n.State) → Stage
  after_direct s b r =
      let s' = record s { ret = r.ret } in
      let a = bcj_apply s' (n.mem r.state) r.buf.out b.out_pos r.buf.out_pos in
      let f' = n.with_mem r.state a.mem in
      let size = r.buf.out_pos - a.pos in
      let kept = store_bytes a.mem temp 0 (bytes_at a.mem r.buf.out a.pos size) in
      let s'' = record (a.bcj) { temp_size = size } in
      let b' = record (r.buf) { out_pos = a.pos } in
      if not (is_end r.ret) && (not (is_ok r.ret) || s.single_call)
      then give r.ret s' r.state r.buf
      else if is_end r.ret
      then give stream_end a.bcj f' r.buf
      else if ltb r.buf.out_pos r.buf.out_size
      then give ok s'' (n.with_mem r.state kept) b'
      else go_on s'' (n.with_mem r.state kept) b'

  pub direct_part : Bcj → n.State → XzBuf → Option Stage
  direct_part s f b =
      let m = store_bytes (n.mem f) b.out b.out_pos (bytes_at (n.mem f) temp 0 s.temp_size) in
      let ran = n.run (n.with_mem f m) (record b { out_pos = b.out_pos + s.temp_size }) in
      if ltb s.temp_size (b.out_size - b.out_pos) || s.temp_size == 0
      then Option.map (after_direct s b) ran
      else some (go_on s f b)

  -- Decoding into `temp`, with `b` pointing there, and flushing it.
  pub after_temp : Bcj → XzBuf → Ran (n.State) → Stage
  after_temp s b r =
      let s' = record s { ret = r.ret; temp_size = r.buf.out_pos } in
      let b' = record (r.buf) { out = b.out; out_pos = b.out_pos; out_size = b.out_size } in
      let a = bcj_apply s' (n.mem r.state) temp s.temp_filtered r.buf.out_pos in
      let filtered = if is_end r.ret then r.buf.out_pos else a.pos in
      let d = bcj_flush (record (a.bcj) { temp_filtered = filtered }) a.mem b' in
      let f' = n.with_mem r.state d.mem in
      if not (is_ok r.ret) && not (is_end r.ret)
      then give r.ret s' r.state b'
      else if ltb 0 d.bcj.temp_filtered
      then give ok d.bcj f' d.buf
      else give r.ret d.bcj f' d.buf

  pub temp_part : Bcj → n.State → XzBuf → Option Stage
  temp_part s f b =
      let ran = n.run f (record b { out = temp; out_pos = s.temp_size; out_size = 16 }) in
      if ltb b.out_pos b.out_size then Option.map (after_temp s b) ran else some (give s.ret s f b)

  -- A part that runs only if the one before went on.
  abbrev pub and_then : Option Stage → (Bcj → n.State → XzBuf → Option Stage) → Option Stage
  and_then o next = elim o [
    | none ↦ none
    | some r ↦ if r.returns then some r else next r.bcj r.next r.buf
  ]

  pub xz_dec_bcj_run : Bcj → n.State → XzBuf → Option Stage
  xz_dec_bcj_run s f b = and_then (and_then (some (flush_part s f b)) direct_part) temp_part
