-- ===== src/Xz/Unxz.antt =====
-- resources/lib/decompress_unxz.c: `memzero`, `memmove` and `unxz`, with `xz_dec_init` of
-- resources/lib/xz/xz_dec_stream.c. The filters are an interface, as for the stream decoder; memory
-- for the copies is a function of the address. Freeing has no effect in the model.
use galaxys2_kernel_repack.Base.{
  ℕ, zero, suc, ◌+◌, ◌-◌, ◌*◌, ◌^◌, Bool, true, false, not, ◌&&◌, ◌||◌,
}
use galaxys2_kernel_repack.Base.{List, [], ◌∷◌, ltb, ◌==◌, if◌then◌else◌}
use galaxys2_kernel_repack.Base.Bytes.{update}
use galaxys2_kernel_repack.Xz.Types.{
  XzRet, ok, stream_end, unsupported_check, mem_error, memlimit_error, format_error, options_error,
  data_error, buf_error,
}
use galaxys2_kernel_repack.Xz.Types.{XzMode, single, dynalloc, XzBuf, in_size, output, bytes_at}
use galaxys2_kernel_repack.Xz.Stream.{Chain, XzDec}
use galaxys2_kernel_repack.Xz.Stream.Header.{xz_dec_reset}
use galaxys2_kernel_repack.Xz.Stream.Main.{xz_dec_run}
use mathlib.Core.Option.{Option, none, some}
pub mod Copies
pub mod Single
mod Tests

-- `memzero`: the bytes left, and `b`.
pub memzero : ℕ → (ℕ → ℕ) → ℕ → ℕ → ℕ
memzero zero m b = m
memzero (suc left) m b = memzero left (update m b 0) (b + 1)

-- The two loops of `memmove`.
pub move_up : ℕ → (ℕ → ℕ) → ℕ → ℕ → ℕ → ℕ → ℕ
move_up zero m d s i = m
move_up (suc left) m d s i = move_up left (update m (d + i) (m (s + i))) d s (i + 1)

pub move_down : ℕ → (ℕ → ℕ) → ℕ → ℕ → ℕ → ℕ
move_down zero m d s = m
move_down (suc i) m d s = move_down i (update m (d + i) (m (s + i))) d s

pub memmove : (ℕ → ℕ) → ℕ → ℕ → ℕ → ℕ → ℕ
memmove m dest src size =
    if ltb dest src
    then move_up size m dest src 0
    else if ltb src dest
    then move_down size m dest src
    else m

abbrev pub xz_iobuf_size : ℕ
xz_iobuf_size = 4096

-- The calls of `error`, by their messages.
pub data Message : Type 0 where
  out_of_memory wrong_magic unsupported_settings corrupt bug_in_decompressor : Message

-- The `switch` on the result: the message, or none for `return 0`.
unfoldable pub message_of : XzRet → Option Message
message_of stream_end = none
message_of mem_error = some out_of_memory
message_of format_error = some wrong_magic
message_of options_error = some unsupported_settings
message_of data_error = some corrupt
message_of buf_error = some corrupt
message_of ok = some bug_in_decompressor
message_of unsupported_check = some bug_in_decompressor
message_of memlimit_error = some bug_in_decompressor

abbrev pub goes_on : XzRet → Bool
goes_on ok = true
goes_on _ = false

module _ (c : Chain) where
  -- What `unxz` is called with, and the environment: memory for a buffer; the memory of a new
  -- `struct xz_dec`, if there is enough, with its old contents; the two filters in a mode and with
  -- a limit for the dictionary, if they can be created; `fill`, which may fail; `flush`, and
  -- whether it took all.
  pub record Caller : Type 1 where
    pub World : Type 0
    pub malloc : ℕ → Bool
    pub new_dec : Option XzDec
    pub new_filters : XzMode → ℕ → Option (c.Filters)
    pub fill : World → ℕ → World × Option (List ℕ)
    pub flush : World → List ℕ → World × Bool

module _ (c : Chain) (e : Caller c) where
  pub record Request : Type 0 where
    pub has_fill : Bool
    pub has_flush : Bool
    pub input : Option (List ℕ)

  -- What `unxz` leaves: whether it returned 0, the message of its error, `*in_used`.
  pub record Done : Type 0 where
    pub success : Bool
    pub message : Option Message
    pub in_used : ℕ
    pub world : e.World

  unfoldable pub xz_dec_init : XzMode → ℕ → Option (XzDec × c.Filters)
  xz_dec_init mode dict_max = elim e.new_dec [
    | none ↦ none
    | some s ↦ elim (e.new_filters mode dict_max) [
      | none ↦ none
      | some f ↦ some (xz_dec_reset (record s { mode = mode }), f)
    ]
  ]

  -- The loop's variables, and `ret`.
  pub record Multi : Type 0 where
    pub ret : XzRet
    pub dec : XzDec
    pub filters : c.Filters
    pub buf : XzBuf
    pub in_used : ℕ
    pub world : e.World

  -- `fill`, where all of the input is used. The result `buf_error` is that of a failure.
  pub refill : Request → Multi → Multi
  refill q m =
      let (w, read) = e.fill m.world xz_iobuf_size in
      let m' : Multi = record m {
        world = w;
        in_used = m.in_used + m.buf.in_pos;
        buf = record (m.buf) { in_pos = 0 };
      } in
      if m.buf.in_pos == in_size m.buf && q.has_fill
      then elim read [
        | none ↦ record m' { ret = buf_error }
        | some xs ↦ record m' { ret = ok; buf = record (m'.buf) { input = xs } }
      ]
      else record m { ret = ok }

  -- `flush`, where the output is full or the decoder has stopped.
  pub flush_out : Request → Multi → Multi
  flush_out q m =
      let (w, taken) = e.flush m.world (bytes_at (c.mem m.filters) m.buf.out 0 m.buf.out_pos) in
      if q.has_flush
        && (m.buf.out_pos == m.buf.out_size || (not (goes_on m.ret) && ltb 0 m.buf.out_pos))
      then record m {
        ret = if taken then m.ret else buf_error;
        buf = record (m.buf) { out_pos = 0 };
        world = w;
      }
      else m

  -- The do-while loop on fuel.
  pub multi_loop : ℕ → Request → Multi → Option Multi
  multi_loop zero q m = none
  multi_loop (suc fuel) q m =
      let m1 = refill q m in
      if not (goes_on m1.ret) then some m1 else elim (xz_dec_run c m1.dec m1.filters m1.buf) [
        | none ↦ none
        | some r ↦
            let m2 =
              flush_out q
                (record m1 { ret = r.ret; dec = r.dec; filters = r.filters; buf = r.buf }) in
            let rest = multi_loop fuel q m2 in if goes_on m2.ret then rest else some m2
      ]

  -- The end of `unxz`.
  pub finish : Multi → Done
  finish m =
      let in_used = m.in_used + m.buf.in_pos in
      elim (message_of m.ret) [
        | none ↦ record { success = true; message = none; in_used = in_used; world = m.world }
        | some x ↦ record { success = false; message = some x; in_used = in_used; world = m.world }
      ]

  -- The call in single-call mode, or the loop.
  pub decode : ℕ → Request → Multi → Option Multi
  decode fuel q m =
      let once : Option Multi = elim (xz_dec_run c m.dec m.filters m.buf) [
        | none ↦ none
        | some r ↦ some (record m { ret = r.ret; dec = r.dec; filters = r.filters; buf = r.buf })
      ] in
      let many = multi_loop fuel q m in if not q.has_fill && not q.has_flush then once else many

  -- A null input is a new buffer of `in_size` bytes, which the callers that have `fill` give as 0.
  pub unxz : ℕ → Request → e.World → Option Done
  unxz fuel q w =
      let single_call = not q.has_fill && not q.has_flush in
      let lacks : Option Done =
        some (record { success = false; message = some out_of_memory; in_used = 0; world = w }) in
      let input : List ℕ = elim q.input [ none ↦ [] | some xs ↦ xs ] in
      let given : Bool = elim q.input [ none ↦ false | some xs ↦ true ] in
      let init = if single_call then xz_dec_init single 0 else xz_dec_init dynalloc (2 ^ 32 - 1) in
      elim init [
        | none ↦ lacks
        | some (s, f) ↦
            let r = decode fuel q (record {
              ret = ok;
              dec = s;
              filters = f;
              buf = record {
                input = input;
                in_pos = 0;
                out = record { region = output; offset = 0 };
                out_pos = 0;
                out_size = if q.has_flush then xz_iobuf_size else 2 ^ 32 - 1;
              };
              in_used = 0;
              world = w;
            }) in
            if (q.has_flush || not given) && not (e.malloc xz_iobuf_size)
            then lacks
            else elim r [ none ↦ none | some m ↦ some (finish m) ]
      ]
