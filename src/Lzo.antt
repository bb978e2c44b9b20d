-- ===== src/Lzo.antt =====
-- `unlzo` of resources/lib/decompress_unlzo.c: the framing of lzop files. `lzo1x_decompress_safe`, from
-- the LZO library, and the callbacks are parameters. A buffer is the list of its bytes.
use galaxys2_kernel_repack.Base.{
  ℕ, zero, suc, ◌+◌, ◌-◌, ◌*◌, ◌/◌, ◌^◌, bit_and, Bool, true, false, not, ◌&&◌, ◌||◌,
}
use galaxys2_kernel_repack.Base.{
  List, [], ◌∷◌, ◌++◌, length, get_or, take, drop, ltb, leb, ◌==◌, if◌then◌else◌,
}
use mathlib.Core.Option.{Option, none, some}
pub mod Blocks
mod Tests

abbrev pub lzop_magic : List ℕ
lzop_magic = 0x89 ∷ 0x4c ∷ 0x5a ∷ 0x4f ∷ 0x00 ∷ 0x0d ∷ 0x0a ∷ 0x1a ∷ 0x0a ∷ []

abbrev pub lzo_block_size : ℕ
lzo_block_size = 256 * 1024

abbrev pub header_has_filter : ℕ
header_has_filter = 0x800

abbrev pub header_size_min : ℕ
header_size_min = 9 + 7 + 4 + 8 + 1 + 4

abbrev pub header_size_max : ℕ
header_size_max = 9 + 7 + 1 + 8 + 8 + 4 + 1 + 255 + 4

-- `lzo1x_worst_compress(LZO_BLOCK_SIZE)`.
abbrev pub lzo1x_worst_compress : ℕ
lzo1x_worst_compress = lzo_block_size + lzo_block_size / 16 + 64 + 3

-- `get_unaligned_be16` and `get_unaligned_be32`.
abbrev pub get_be16 : List ℕ → ℕ → ℕ
get_be16 xs i = get_or xs i 0 * 2 ^ 8 + get_or xs (i + 1) 0

abbrev pub get_be32 : List ℕ → ℕ → ℕ
get_be32 xs i =
    get_or xs i 0 * 2 ^ 24
    + get_or xs (i + 1) 0 * 2 ^ 16
    + get_or xs (i + 2) 0 * 2 ^ 8
    + get_or xs (i + 3) 0

-- The loop over the magic bytes.
pub has_magic : List ℕ → List ℕ → Bool
has_magic xs [] = true
has_magic [] (m ∷ ms) = false
has_magic (x ∷ xs) (m ∷ ms) = x == m && has_magic xs ms

-- `parse_header`: `*skip`, or that it returned 0.
pub parse_header : List ℕ → Option ℕ
parse_header input =
    let version = get_be16 input 9 in
    let at_flags = if leb 0x940 version then 17 else 16 in
    let filtered = not (bit_and (get_be32 input at_flags) header_has_filter == 0) in
    let at_mode = if filtered then at_flags + 8 else at_flags + 4 in
    let at_length = if leb 0x940 version then at_mode + 8 + 4 else at_mode + 8 in
    let l = get_or input at_length 0 in
    if ltb (length input) header_size_min
    then none
    else if not (has_magic input lzop_magic)
    then none
    else if ltb (length input - at_mode) (8 + 1 + 4)
    then none
    else if ltb (length input - (at_length + 1)) (l + 4)
    then none
    else some (at_length + 1 + (l + 4))

-- The calls of `error`, by their messages.
pub data Message : Type 0 where
  no_output no_output_buffer both_inputs no_input no_input_buffer : Message
  invalid_header file_corrupted block_too_long data_violation : Message

-- `lzo1x_decompress_safe` on some bytes, with room for as many as the second argument says: its
-- code as a byte, 0 for `LZO_E_OK`, and the bytes that it wrote.
pub record Unpacked : Type 0 where
  pub code : ℕ
  pub out : List ℕ

-- The environment: memory for a buffer of a size; `fill`, which gives at most as many bytes as asked
-- for, and none where it returns 0 or less; `flush`, and whether it took all.
pub record Env : Type 1 where
  pub World : Type 0
  pub malloc : ℕ → Bool
  pub lzo1x_decompress_safe : List ℕ → ℕ → Unpacked
  pub fill : World → ℕ → World × List ℕ
  pub flush : World → List ℕ → World × Bool

module _ (e : Env) where
  -- How `unlzo` is called: with a `fill` and a `flush` or without, and with an output or without.
  pub record Call : Type 0 where
    pub has_fill : Bool
    pub has_flush : Bool
    pub has_output : Bool

  -- The state of the loop: the `in_len` bytes at `in_buf`, the bytes written to `output`, and
  -- `*posp`, 0 before it is set. What a refused block leaves at the end of `output` is left out.
  pub record State : Type 0 where
    pub input : List ℕ
    pub written : List ℕ
    pub posp : ℕ
    pub world : e.World

  -- What `unlzo` leaves: whether it returned 0, and the message of its error.
  pub record Done : Type 0 where
    pub success : Bool
    pub message : Option Message
    pub state : State

  abbrev pub fail : Message → State → Done
  fail m s = record { success = false; message = some m; state = s }

  -- `if (fill && in_len < n)`, with the bytes that are missing.
  pub fill_up : Call → ℕ → State → State
  fill_up c n s =
      let (w, xs) = e.fill s.world (n - length s.input) in
      if c.has_fill && ltb (length s.input) n
      then record s { input = s.input ++ xs; world = w }
      else s

  -- Writing a block out: to `flush`, which may fail, and to `output`.
  pub record Written : Type 0 where
    pub success : Bool
    pub state : State

  pub write_block : Call → State → List ℕ → Written
  write_block c s out =
      let (w, taken) = e.flush s.world out in
      let s' : State = if c.has_flush then record s { world = w } else s in
      if c.has_flush && not taken then record { success = false; state = s' } else record {
        success = true;
        state = if c.has_output then record s' { written = s'.written ++ out } else s';
      }

  -- What a round of the loop does.
  pub data Round : Type 0 where
    again : State → Round
    stop : Done → Round

  -- The rest of a round, with the `src_len` bytes of the block in the buffer.
  pub unpack_block : Call → State → ℕ → ℕ → Round
  unpack_block c s dst_len src_len =
      let packed = take src_len s.input in
      let r = e.lzo1x_decompress_safe packed dst_len in
      let out = if dst_len == src_len then packed else r.out in
      let bad = not (dst_len == src_len) && (not (r.code == 0) || not (dst_len == length r.out)) in
      let w = write_block c s out in
      let after : State = record (w.state) {
        posp = s.posp + src_len + 12;
        input = drop src_len s.input;
      } in
      if bad
      then stop (fail data_violation s)
      else if w.success
      then again after
      else stop (record { success = false; message = none; state = w.state })

  pub round : Call → State → Round
  round c s =
      let s1 = fill_up c 4 s in
      let dst_len = get_be32 s1.input 0 in
      let s2 : State = record s1 { input = drop 4 s1.input } in
      let s3 = fill_up c 8 s2 in
      let src_len = get_be32 s3.input 0 in
      let s4 : State = record s3 { input = drop 8 s3.input } in
      let s5 = fill_up c src_len s4 in
      if ltb (length s1.input) 4
      then stop (fail file_corrupted s1)
      else if dst_len == 0
      then stop
          (record { success = true; message = none; state = record s2 { posp = s2.posp + 4 } })
      else if ltb lzo_block_size dst_len
      then stop (fail block_too_long s2)
      else if ltb (length s3.input) 8
      then stop (fail file_corrupted s3)
      else if src_len == 0 || ltb dst_len src_len
      then stop (fail file_corrupted s4)
      else if ltb (length s5.input) src_len
      then stop (fail file_corrupted s5)
      else unpack_block c s5 dst_len src_len

  -- `for (;;)` on fuel.
  pub block_loop : ℕ → Call → State → Option Done
  block_loop zero c s = none
  block_loop (suc fuel) c s = elim (round c s) [ again t ↦ block_loop fuel c t | stop d ↦ some d ]

  -- After the buffers are there: the header, and the loop.
  pub after_buffers : ℕ → Call → State → Option Done
  after_buffers fuel c s =
      let s1 = if c.has_fill then fill_up c header_size_max (record s { input = [] }) else s in
      elim (parse_header s1.input) [
        | none ↦ some (fail invalid_header s1)
        | some skip ↦ block_loop fuel c (record s1 { input = drop skip s1.input; posp = skip })
      ]

  -- `unlzo`; the input is `none` for a null pointer.
  pub unlzo : ℕ → Call → Option (List ℕ) → e.World → Option Done
  unlzo fuel c input w =
      let start : List ℕ → State = λ xs. record { input = xs; written = []; posp = 0; world = w } in
      let lacks : Message → Option Done = λ m. some (fail m (start [])) in
      let with_output : Option Done = elim input [
        | none ↦
            if not c.has_fill
            then lacks no_input
            else if not (e.malloc lzo1x_worst_compress)
            then lacks no_input_buffer
            else after_buffers fuel c (start [])
        | some xs ↦ if c.has_fill then lacks both_inputs else after_buffers fuel c (start xs)
      ] in
      if c.has_output
      then with_output
      else if not c.has_flush
      then lacks no_output
      else if not (e.malloc lzo_block_size)
      then lacks no_output_buffer
      else with_output
