-- ===== src/Gunzip.antt =====
-- `gunzip` of resources/lib/decompress_inflate.c: the memory that it takes and gives back, the
-- header of the file and the loop around `zlib_inflate`. The zlib library and the callbacks are
-- parameters. A buffer is the list of its bytes, and `next_in` an index into it.
use galaxys2_kernel_repack.Base.{
  ℕ, zero, suc, ◌+◌, ◌-◌, ◌*◌, ◌^◌, bit_and, Bool, true, false, not, ◌&&◌, ◌||◌,
}
use galaxys2_kernel_repack.Base.{
  List, [], ◌++◌, length, get_or, take, drop, ltb, ◌==◌, if◌then◌else◌,
}
use galaxys2_kernel_repack.Malloc.{Heap, malloc, free}
use mathlib.Core.Option.{Option, none, some}
pub mod Memory
pub mod Ends
pub mod File
mod Tests

abbrev pub gzip_iobuf_size : ℕ
gzip_iobuf_size = 16 * 1024

-- The results of zlib; -1 is `z_errno`.
pub data ZRet : Type 0 where
  z_ok z_stream_end z_need_dict z_errno z_stream_error z_data_error z_mem_error z_buf_error
        z_version_error :
      ZRet

-- The calls of `error`, by their messages.
pub data Message : Type 0 where
  no_output_buffer no_input_buffer no_stream no_workspace : Message
  not_gzip header_error read_error write_error uncompression_error : Message

-- What a call of `zlib_inflate` does with the bytes of its input and the room for its output.
pub record Inflated (Stream : Type 0) : Type 0 where
  pub ret : ZRet
  pub stream : Stream
  pub used : ℕ
  pub output : List ℕ

-- The zlib library: the sizes of its structs, `zlib_inflateInit2` with `-MAX_WBITS`, the change of
-- the state that leaves the output buffer as the window, and `zlib_inflate` with a flush of 0.
pub record Zlib : Type 1 where
  pub Stream : Type 0
  pub stream_size : ℕ
  pub workspace_size : ℕ
  pub state_size : ℕ
  pub init2 : ZRet × Stream
  pub without_window : Stream → Stream
  pub inflate : Stream → List ℕ → ℕ → Inflated Stream

-- The callbacks: `fill`, which may fail, and `flush`, and whether it took all.
pub record Caller : Type 1 where
  pub World : Type 0
  pub fill : World → ℕ → World × Option (List ℕ)
  pub flush : World → List ℕ → World × Bool

-- The arguments: which callbacks there are, the input with its `len` bytes, and the address of the
-- output.
pub record Request : Type 0 where
  pub has_fill : Bool
  pub has_flush : Bool
  pub buf : Option (List ℕ)
  pub out_buf : ℕ

-- `next_in` and `avail_in`.
pub record Skipped : Type 0 where
  pub next_in : ℕ
  pub avail_in : ℕ

-- The loop over the file name, with the bytes left; none is a header error.
pub skip_name : ℕ → List ℕ → ℕ → Option Skipped
skip_name zero zbuf i = none
skip_name (suc avail) zbuf i =
    let more = skip_name avail zbuf (i + 1) in
    if get_or zbuf i 0 == 0 then some (record { next_in = i + 1; avail_in = avail }) else more

abbrev pub has_header : List ℕ → Bool
has_header zbuf =
    not (ltb (length zbuf) 10)
    && get_or zbuf 0 0 == 0x1f
    && get_or zbuf 1 0 == 0x8b
    && get_or zbuf 2 0 == 0x08

-- The header of 10 bytes and the name behind it.
pub skip_header : List ℕ → Option Skipped
skip_header zbuf =
    if bit_and (get_or zbuf 3 0) 0x8 == 0
    then some (record { next_in = 10; avail_in = length zbuf - 10 })
    else skip_name (length zbuf - 10) zbuf 10

abbrev pub is_ok : ZRet → Bool
is_ok z_ok = true
is_ok _ = false

abbrev pub is_end : ZRet → Bool
is_end z_stream_end = true
is_end _ = false

-- `out_len`.
abbrev pub out_len : Request → ℕ
out_len q = if q.has_flush then 0x8000 else 0x7fffffff

-- The buffers that `gunzip` takes itself: their addresses. Another one is not null.
pub output_buffer : Request → Heap → ℕ × Heap
output_buffer q h = if q.has_flush then malloc h 0x8000 else (q.out_buf, h)

pub input_buffer : Request → Heap → ℕ × Heap
input_buffer q h = elim q.buf [ none ↦ malloc h gzip_iobuf_size | some _ ↦ (1, h) ]

pub free_input : Request → Heap → Heap
free_input q h = elim q.buf [ none ↦ free h | some _ ↦ h ]

pub free_output : Request → Heap → Heap
free_output q h = if q.has_flush then free h else h

module _ (z : Zlib) (e : Caller) where
  -- The variables of the loop. `out` are the bytes from `out_buf` to `next_out`.
  pub record Loop : Type 0 where
    pub rc : ZRet
    pub stream : z.Stream
    pub zbuf : List ℕ
    pub next_in : ℕ
    pub avail_in : ℕ
    pub out : List ℕ
    pub message : Option Message
    pub world : e.World

  -- A pass, and whether it ends with `break`.
  pub record Pass : Type 0 where
    pub breaks : Bool
    pub loop : Loop

  -- `fill`, in its place `nofill`, which fails.
  pub read : Request → e.World → e.World × Option (List ℕ)
  read q w = let r = e.fill w gzip_iobuf_size in if q.has_fill then r else (w, none)

  -- The part of a pass after `zlib_inflate` and `flush`: what its result means.
  pub judge : Loop → Pass
  judge m =
      if is_end m.rc
      then record { breaks = true; loop = record m { rc = z_ok } }
      else if is_ok m.rc
      then record { breaks = false; loop = m }
      else record {
        breaks = false;
        loop = record m { rc = z_errno; message = some uncompression_error };
      }

  -- `flush`, where there is output.
  pub write_out : Request → Loop → Pass
  write_out q m =
      let (w, taken) = e.flush m.world m.out in
      if q.has_flush && ltb 0 (length m.out)
      then if taken then judge (record m { world = w; out = [] }) else record {
        breaks = true;
        loop = record m { rc = z_errno; message = some write_error; world = w };
      }
      else judge m

  -- `zlib_inflate` on what is there.
  pub inflate_some : Request → Loop → Pass
  inflate_some q m =
      let r =
        z.inflate m.stream (take m.avail_in (drop m.next_in m.zbuf)) (out_len q - length m.out) in
      write_out q (record m {
        rc = r.ret;
        stream = r.stream;
        next_in = m.next_in + r.used;
        avail_in = m.avail_in - r.used;
        out = m.out ++ r.output;
      })

  -- The body of the loop.
  pub pass : Request → Loop → Pass
  pass q m =
      let (w, more) = read q m.world in
      if m.avail_in == 0
      then elim more [
        | none ↦ record {
          breaks = true;
          loop = record m { rc = z_errno; message = some read_error; world = w };
        }
        | some xs ↦
            inflate_some q (record m { zbuf = xs; next_in = 0; avail_in = length xs; world = w })
      ]
      else inflate_some q m

  -- `while (rc == Z_OK)` on fuel.
  pub inflate_loop : ℕ → Request → Loop → Option Loop
  inflate_loop zero q m = none
  inflate_loop (suc fuel) q m =
      let p = pass q m in
      let rest = inflate_loop fuel q p.loop in
      if is_ok m.rc then if p.breaks then some p.loop else rest else some m

  -- What is left behind: the result, the message, `*pos` where it is written, the output that no
  -- `flush` took, and the world.
  pub record Unpacked : Type 0 where
    pub rc : ZRet
    pub message : Option Message
    pub pos : Option ℕ
    pub out : List ℕ
    pub world : e.World

  -- The first bytes: those of the caller, or those that `fill` gives.
  pub first_input : Request → e.World → List ℕ × e.World
  first_input q w =
      let given : List ℕ = elim q.buf [ none ↦ [] | some xs ↦ xs ] in
      let (w', more) = read q w in
      if length given == 0 then (elim more [ none ↦ [] | some xs ↦ xs ], w') else (given, w)

  -- The file has no valid header.
  abbrev pub refused : Option ℕ → Message → e.World → Option Unpacked
  refused pos x w = some (record { rc = z_errno; message = some x; pos = pos; out = []; world = w })

  -- From the end of the header on.
  pub inflate_from : ℕ → Request → List ℕ → e.World → Skipped → Option Unpacked
  inflate_from fuel q zbuf w k =
      let stream = (z.init2).1 in
      elim (inflate_loop fuel q (record {
        rc = (z.init2).0;
        stream = if q.has_flush then stream else z.without_window stream;
        zbuf = zbuf;
        next_in = k.next_in;
        avail_in = k.avail_in;
        out = [];
        message = none;
        world = w;
      })) [
        | none ↦ none
        | some m ↦ some (record {
          rc = m.rc;
          message = m.message;
          pos = some (m.next_in + 8);
          out = m.out;
          world = m.world;
        })
      ]

  -- From the header on, with all of the memory.
  pub unpack_buffer : ℕ → Request → List ℕ → e.World → Option Unpacked
  unpack_buffer fuel q zbuf w =
      if not (has_header zbuf) then refused (some 0) not_gzip w else elim (skip_header zbuf) [
        | none ↦ refused none header_error w
        | some k ↦ inflate_from fuel q zbuf w k
      ]

  pub unpack : ℕ → Request → e.World → Option Unpacked
  unpack fuel q w = let (zbuf, w') = first_input q w in unpack_buffer fuel q zbuf w'

  -- The size of `workspace`.
  abbrev pub inflate_size : Request → ℕ
  inflate_size q = if q.has_flush then z.workspace_size else z.state_size

  -- What `gunzip` leaves.
  pub record Done : Type 0 where
    pub result : Unpacked
    pub heap : Heap

  pub gunzip : ℕ → Request → Heap → e.World → Option Done
  gunzip fuel q h w =
      let (out, h1) = output_buffer q h in
      let (zbuf, h2) = input_buffer q h1 in
      let (strm, h3) = malloc h2 z.stream_size in
      let (workspace, h4) = malloc h3 (inflate_size q) in
      let lacks : Message → Heap → Option Done = λ x h. some (record {
        result = record { rc = z_errno; message = some x; pos = none; out = []; world = w };
        heap = h;
      }) in
      if out == 0
      then lacks no_output_buffer h1
      else if zbuf == 0
      then lacks no_input_buffer (free_output q h2)
      else if strm == 0
      then lacks no_stream (free_output q (free_input q h3))
      else if workspace == 0
      then lacks no_workspace (free_output q (free_input q (free h4)))
      else elim (unpack fuel q w) [
        | none ↦ none
        | some r ↦
            some (record { result = r; heap = free_output q (free_input q (free (free h4))) })
      ]
