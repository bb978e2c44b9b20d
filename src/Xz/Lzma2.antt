-- ===== src/Xz/Lzma2.antt =====
-- The LZMA2 layer of resources/lib/xz/xz_dec_lzma2.c: the control bytes, and the buffering that
-- lets the LZMA decoder read ahead safely.
use galaxys2_kernel_repack.Base.{
  ℕ, zero, suc, ◌+◌, ◌-◌, ◌*◌, ◌/◌, ◌^◌, min, bit_and, Bool, true, false,
}
use galaxys2_kernel_repack.Base.{
  List, [], ◌∷◌, ◌++◌, length, take, drop, ltb, leb, ◌==◌, if◌then◌else◌, ◌&&◌, ◌||◌, not,
}
use galaxys2_kernel_repack.Base.Bytes.{u32, sub32}
use galaxys2_kernel_repack.Xz.Types.{
  XzRet, ok, stream_end, mem_error, memlimit_error, options_error, data_error,
}
use galaxys2_kernel_repack.Xz.Types.{
  XzMode, is_multi, is_dynalloc, Ptr, dictionary, Mem, XzBuf, in_size, in_byte,
}
use galaxys2_kernel_repack.Xz.Dict.{
  Dictionary, dict_reset, dict_limit, Copied, dict_uncompressed, Flushed, dict_flush,
}
use galaxys2_kernel_repack.Xz.RangeCoder.{
  Rc, rc_reset, InitStep, rc_read_init, rc_init_bytes, rc_is_finished,
}
use galaxys2_kernel_repack.Xz.Lzma.{Lzma, Symbol, lzma_main, lzma_reset, lzma_props}
use mathlib.Core.Option.{Option, none, some}
pub mod Control
pub mod Inside
pub mod Kept
pub mod Writes
pub mod Sequence
pub mod Samples
mod Tests

-- `enum lzma2_seq`.
pub data Seq : Type 0 where
  control uncompressed_1 uncompressed_2 compressed_0 compressed_1 : Seq
  properties lzma_prepare lzma_run copy : Seq

-- `struct xz_dec_lzma2`. The dictionary and the range decoder stand in `lzma`, and `temp_buf` is
-- the list of the 63 bytes of `temp.buf`.
pub record Lzma2 : Type 0 where
  pub lzma : Lzma
  pub sequence : Seq
  pub next_sequence : Seq
  pub uncompressed : ℕ
  pub compressed : ℕ
  pub need_dict_reset : Bool
  pub need_props : Bool
  pub temp_size : ℕ
  pub temp_buf : List ℕ

abbrev pub lzma_in_required : ℕ
lzma_in_required = 21

abbrev pub temp_buf_size : ℕ
temp_buf_size = 3 * lzma_in_required

-- Overwriting a buffer from index `i` on, and `memzero` from index `i` to the end.
abbrev pub overwrite : List ℕ → ℕ → List ℕ → List ℕ
overwrite buf i xs = take i buf ++ xs ++ drop (i + length xs) buf

abbrev pub zeros : ℕ → List ℕ
zeros zero = []
zeros (suc n) = 0 ∷ zeros n

abbrev pub zero_from : List ℕ → ℕ → List ℕ
zero_from buf i = take i buf ++ zeros (temp_buf_size - i)

-- What a part of `lzma2_lzma` leaves: whether the function goes on, and what it returns if not.
pub data Flow : Type 0 where
  goes_on returns_true returns_false : Flow

pub record Feed : Type 0 where
  pub flow : Flow
  pub dec : Lzma2
  pub buf : XzBuf

-- `s->rc.in`, `s->rc.in_pos` and `s->rc.in_limit`, set for a call of `lzma_main`.
abbrev pub with_input : Lzma → List ℕ → ℕ → ℕ → Lzma
with_input l input in_pos in_limit = record l {
  rc = record (l.rc) { input = input; in_pos = in_pos; in_limit = in_limit };
}

-- The decoding from `temp.buf`, after `n` bytes were added to it.
pub run_temp : Lzma2 → XzBuf → ℕ → ℕ → Feed
run_temp s b n in_limit =
    let r = lzma_main (with_input s.lzma s.temp_buf 0 in_limit) in
    let used = r.lzma.rc.in_pos in
    let s' : Lzma2 = record s { lzma = r.lzma } in
    let s'' : Lzma2 = record s' { compressed = sub32 s.compressed used } in
    if not r.done || ltb (s.temp_size + n) used
    then record { flow = returns_false; dec = s'; buf = b }
    else if ltb used s.temp_size
    then record {
      flow = returns_true;
      dec = record s'' {
        temp_size = s.temp_size - used;
        temp_buf = overwrite s.temp_buf 0 (take (s.temp_size - used) (drop used s.temp_buf));
      };
      buf = b;
    }
    else record {
      flow = goes_on;
      dec = record s'' { temp_size = 0 };
      buf = record b { in_pos = b.in_pos + (used - s.temp_size) };
    }

-- How many bytes the first part moves into `temp.buf`.
pub temp_room : Lzma2 → XzBuf → ℕ
temp_room s b =
    let tmp = sub32 (2 * lzma_in_required) s.temp_size in
    let tmp = min tmp (sub32 s.compressed s.temp_size) in min tmp (in_size b - b.in_pos)

-- The first part of `lzma2_lzma`: what is in `temp.buf` comes first.
pub feed_temp : Lzma2 → XzBuf → Feed
feed_temp s b =
    let n = temp_room s b in
    let filled = s.temp_size + n in
    let bytes = take n (drop b.in_pos b.input) in
    let s' : Lzma2 = record s { temp_buf = overwrite s.temp_buf s.temp_size bytes } in
    if ltb 0 s.temp_size || s.compressed == 0
    then if filled == s.compressed
      then run_temp (record s' { temp_buf = zero_from s'.temp_buf filled }) b n filled
      else if ltb filled lzma_in_required
      then record {
        flow = returns_true;
        dec = record s' { temp_size = filled };
        buf = record b { in_pos = b.in_pos + n };
      }
      else run_temp s' b n (filled - lzma_in_required)
    else record { flow = goes_on; dec = s; buf = b }

-- The second part: straight from the caller's input while there is plenty.
pub feed_input : Lzma2 → XzBuf → Feed
feed_input s b =
    let in_avail = in_size b - b.in_pos in
    let in_limit =
      if leb (s.compressed + lzma_in_required) in_avail
      then b.in_pos + s.compressed
      else in_size b - lzma_in_required in
    let r = lzma_main (with_input s.lzma b.input b.in_pos in_limit) in
    let used = r.lzma.rc.in_pos - b.in_pos in
    if leb lzma_in_required in_avail
    then if not r.done || ltb s.compressed used
      then record { flow = returns_false; dec = record s { lzma = r.lzma }; buf = b }
      else record {
        flow = goes_on;
        dec = record s { lzma = r.lzma; compressed = s.compressed - used };
        buf = record b { in_pos = r.lzma.rc.in_pos };
      }
    else record { flow = goes_on; dec = s; buf = b }

-- The third part: what is left of the input waits in `temp.buf`.
pub keep_rest : Lzma2 → XzBuf → Feed
keep_rest s b =
    let n = min (in_size b - b.in_pos) s.compressed in
    if ltb (in_size b - b.in_pos) lzma_in_required
    then record {
      flow = returns_true;
      dec = record s {
        temp_buf = overwrite s.temp_buf 0 (take n (drop b.in_pos b.input));
        temp_size = n;
      };
      buf = record b { in_pos = b.in_pos + n };
    }
    else record { flow = returns_true; dec = s; buf = b }

-- A part that is run only if the one before went on.
abbrev pub and_then : Feed → (Lzma2 → XzBuf → Feed) → Feed
and_then r next = elim r.flow [ goes_on ↦ next r.dec r.buf | returns_true ↦ r | returns_false ↦ r ]

pub lzma2_lzma : Lzma2 → XzBuf → Feed
lzma2_lzma s b = and_then (and_then (feed_temp s b) feed_input) keep_rest

-- What one pass of the `switch` does: it goes round the loop again, or returns.
pub data Turn : Type 0 where
  again : Turn
  give : XzRet → Turn

pub record Pass : Type 0 where
  pub turn : Turn
  pub dec : Lzma2
  pub buf : XzBuf

-- `case SEQ_CONTROL`, on the control byte.
pub control_byte : Lzma2 → XzBuf → ℕ → Pass
control_byte s b tmp =
    let resets = leb 0xe0 tmp || tmp == 0x01 in
    let s1 : Lzma2 =
      if resets
      then record s {
        need_props = true;
        need_dict_reset = false;
        lzma = record (s.lzma) { dict = dict_reset s.lzma.dict b };
      }
      else s in
    let s2 : Lzma2 = record s1 {
      uncompressed = bit_and tmp 0x1f * 2 ^ 16;
      sequence = uncompressed_1;
    } in
    let s3 : Lzma2 = record s2 { next_sequence = lzma_prepare } in
    if tmp == 0x00
    then record { turn = give stream_end; dec = s; buf = b }
    else if not resets && s.need_dict_reset
    then record { turn = give data_error; dec = s; buf = b }
    else if leb 0x80 tmp
    then if leb 0xc0 tmp
      then record {
        turn = again;
        dec = record s2 { need_props = false; next_sequence = properties };
        buf = b;
      }
      else if s1.need_props
      then record { turn = give data_error; dec = s2; buf = b }
      else record {
        turn = again;
        dec = if leb 0xa0 tmp then record s3 { lzma = lzma_reset s3.lzma } else s3;
        buf = b;
      }
    else if ltb 0x02 tmp
    then record { turn = give data_error; dec = s1; buf = b }
    else record {
      turn = again;
      dec = record s1 { sequence = compressed_0; next_sequence = copy };
      buf = b;
    }

-- The end of `case SEQ_LZMA_RUN`: whether the chunk is complete.
pub after_run : Lzma2 → XzBuf → Pass
after_run s b =
    if s.uncompressed == 0
    then if ltb 0 s.compressed || ltb 0 s.lzma.len || not (rc_is_finished s.lzma.rc)
      then record { turn = give data_error; dec = s; buf = b }
      else record {
        turn = again;
        dec = record s { lzma = record (s.lzma) { rc = rc_reset s.lzma.rc }; sequence = control };
        buf = b;
      }
    else if b.out_pos == b.out_size || b.in_pos == in_size b && ltb s.temp_size s.compressed
    then record { turn = give ok; dec = s; buf = b }
    else record { turn = again; dec = s; buf = b }

-- `case SEQ_LZMA_RUN`.
pub run_chunk : Lzma2 → XzBuf → Pass
run_chunk s b =
    let limited : Lzma = record (s.lzma) {
      dict = dict_limit s.lzma.dict (min (b.out_size - b.out_pos) s.uncompressed);
    } in
    let f = lzma2_lzma (record s { lzma = limited }) b in
    let fl = dict_flush f.dec.lzma.dict f.dec.lzma.mem f.buf in
    let left : Lzma2 = record (f.dec) {
      lzma = record (f.dec.lzma) { dict = fl.dict; mem = fl.mem };
      uncompressed = sub32 f.dec.uncompressed fl.count;
    } in
    elim f.flow [
      | returns_false ↦ record { turn = give data_error; dec = f.dec; buf = f.buf }
      | _ ↦ after_run left fl.buf
    ]

-- `case SEQ_LZMA_PREPARE`, which falls through into `SEQ_LZMA_RUN`.
pub prepare_chunk : Lzma2 → XzBuf → Pass
prepare_chunk s b =
    let r = rc_read_init s.lzma.rc b in
    let s' : Lzma2 = record s { lzma = record (s.lzma) { rc = r.rc } } in
    if ltb s.compressed rc_init_bytes
    then record { turn = give data_error; dec = s; buf = b }
    else if r.done
    then run_chunk (record s' { compressed = s.compressed - rc_init_bytes; sequence = lzma_run })
        r.buf
    else record { turn = give ok; dec = s'; buf = r.buf }

-- `case SEQ_PROPERTIES`, which falls through into `SEQ_LZMA_PREPARE`.
pub read_properties : Lzma2 → XzBuf → ℕ → Pass
read_properties s b props =
    let r = lzma_props s.lzma props in
    let s' : Lzma2 = record s { lzma = r.lzma } in
    if r.done
    then prepare_chunk (record s' { sequence = lzma_prepare }) b
    else record { turn = give data_error; dec = s'; buf = b }

-- `case SEQ_COPY`.
pub copy_chunk : Lzma2 → XzBuf → Pass
copy_chunk s b =
    let c = dict_uncompressed s.lzma.dict s.lzma.mem b s.compressed in
    let s' : Lzma2 = record s {
      lzma = record (s.lzma) { dict = c.dict; mem = c.mem };
      compressed = c.left;
    } in
    if ltb 0 c.left
    then record { turn = give ok; dec = s'; buf = c.buf }
    else record { turn = again; dec = record s' { sequence = control }; buf = c.buf }

abbrev pub take_byte : XzBuf → XzBuf
take_byte b = record b { in_pos = b.in_pos + 1 }

abbrev pub round : Lzma2 → XzBuf → Pass
round s b = record { turn = again; dec = s; buf = take_byte b }

-- One pass of the `switch`, by the position.
pub switch : Seq → Lzma2 → XzBuf → Pass
switch control s b = control_byte s (take_byte b) (in_byte b b.in_pos)
switch uncompressed_1 s b =
    round
      (record s {
        uncompressed = s.uncompressed + in_byte b b.in_pos * 2 ^ 8;
        sequence = uncompressed_2;
      })
      b
switch uncompressed_2 s b =
    round
      (record s { uncompressed = s.uncompressed + in_byte b b.in_pos + 1; sequence = compressed_0 })
      b
switch compressed_0 s b =
    round (record s { compressed = in_byte b b.in_pos * 2 ^ 8; sequence = compressed_1 }) b
switch compressed_1 s b =
    round
      (record s { compressed = s.compressed + in_byte b b.in_pos + 1; sequence = s.next_sequence })
      b
switch properties s b = read_properties s (take_byte b) (in_byte b b.in_pos)
switch lzma_prepare s b = prepare_chunk s b
switch lzma_run s b = run_chunk s b
switch copy s b = copy_chunk s b

abbrev pub is_lzma_run : Seq → Bool
is_lzma_run lzma_run = true
is_lzma_run _ = false

pub record Run : Type 0 where
  pub ret : XzRet
  pub dec : Lzma2
  pub buf : XzBuf

-- The loop of `xz_dec_lzma2_run` on fuel; `none` means that the fuel ran out.
pub run_loop : ℕ → Lzma2 → XzBuf → Option Run
run_loop zero s b = none
run_loop (suc fuel) s b =
    let p = switch s.sequence s b in
    let more = run_loop fuel p.dec p.buf in
    let next : Option Run = elim p.turn [
      | again ↦ more
      | give ret ↦ some (record { ret = ret; dec = p.dec; buf = p.buf })
    ] in
    if ltb b.in_pos (in_size b) || is_lzma_run s.sequence
    then next
    else some (record { ret = ok; dec = s; buf = b })

-- `xz_dec_lzma2_reset`. `vmalloc` is a parameter: whether the memory is there.
pub xz_dec_lzma2_reset : (ℕ → Bool) → Lzma2 → ℕ → XzRet × Lzma2
xz_dec_lzma2_reset vmalloc s props =
    let size = u32 ((2 + bit_and props 1) * 2 ^ (props / 2 + 11)) in
    let d : Dictionary = record (s.lzma.dict) { size = size } in
    let multi : Dictionary = record d { end = size } in
    let ready = λ (d : Dictionary). record s {
      lzma = record (s.lzma) { dict = d; len = 0 };
      sequence = control;
      need_dict_reset = true;
      temp_size = 0;
    } in
    let with_dict = λ (d : Dictionary). record s { lzma = record (s.lzma) { dict = d } } in
    if ltb 39 props
    then (options_error, s)
    else if is_multi d.mode
    then if ltb d.size_max size
      then (memlimit_error, with_dict d)
      else if is_dynalloc d.mode && ltb d.allocated size
      then if vmalloc size
        then (ok, ready (record multi { buf = record { region = dictionary; offset = 0 } }))
        else (mem_error, with_dict (record multi { allocated = 0 }))
      else (ok, ready multi)
    else (ok, ready d)
