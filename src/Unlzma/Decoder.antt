-- ===== src/Unlzma/Decoder.antt =====
-- The rest of resources/lib/decompress_unlzma.c: the writer, the two kinds of symbols, and `unlzma`.
-- The probabilities of the source's array `p` stand at their indices.
use galaxys2_kernel_repack.Base.{
  ℕ, zero, suc, ◌+◌, ◌-◌, ◌*◌, ◌/◌, ◌%◌, ◌^◌, min, bit_and, bit_or, Bool, true, false, not, ◌&&◌,
  ◌||◌,
}
use galaxys2_kernel_repack.Base.{List, [], ◌∷◌, get_or, ltb, leb, ◌==◌, if◌then◌else◌}
use galaxys2_kernel_repack.Base.Bytes.{u8, u32, update}
use galaxys2_kernel_repack.Unlzma.{
  Reader, Rc, rc_init, rc_init_code, at_byte, rc_get_bit, rc_direct_bit, rc_bit_tree_decode,
}
use mathlib.Core.Option.{Option, none, some}

-- The indices of the probabilities.
abbrev pub is_rep : ℕ
is_rep = 12 * 2 ^ 4

abbrev pub is_rep_g0 : ℕ
is_rep_g0 = is_rep + 12

abbrev pub is_rep_g1 : ℕ
is_rep_g1 = is_rep_g0 + 12

abbrev pub is_rep_g2 : ℕ
is_rep_g2 = is_rep_g1 + 12

abbrev pub is_rep_0_long : ℕ
is_rep_0_long = is_rep_g2 + 12

abbrev pub pos_slots : ℕ
pos_slots = is_rep_0_long + 12 * 2 ^ 4

abbrev pub spec_pos : ℕ
spec_pos = pos_slots + 4 * 2 ^ 6

abbrev pub align : ℕ
align = spec_pos + 2 ^ 7 - 14

abbrev pub len_coder : ℕ
len_coder = align + 2 ^ 4

abbrev pub len_low : ℕ
len_low = 2

abbrev pub len_mid : ℕ
len_mid = len_low + 2 ^ 7

abbrev pub len_high : ℕ
len_high = len_mid + 2 ^ 7

abbrev pub rep_len_coder : ℕ
rep_len_coder = len_coder + (len_high + 2 ^ 8)

abbrev pub literals : ℕ
literals = rep_len_coder + (len_high + 2 ^ 8)

-- The header of the file, and what follows from it.
pub record Header : Type 0 where
  pub dict_size : ℕ
  pub dst_size : ℕ
  pub lc : ℕ
  pub literal_pos_mask : ℕ
  pub pos_state_mask : ℕ

-- `flush`, and whether it took all.
pub record Output (e : Reader) : Type 0 where
  pub has_flush : Bool
  pub flush : e.World → List ℕ → e.World × Bool

-- The bytes of an array from an index on.
pub bytes_from : (ℕ → ℕ) → ℕ → ℕ → List ℕ
bytes_from buffer i zero = []
bytes_from buffer i (suc n) = buffer i ∷ bytes_from buffer (i + 1) n

-- The loops of `peek_old_byte`.
pub down_to_dict : ℕ → ℕ → ℕ → ℕ
down_to_dict zero size offs = offs
down_to_dict (suc fuel) size offs =
    if ltb size offs then down_to_dict fuel size (offs - size) else offs

pub up_to_dict : ℕ → ℕ → ℕ → ℕ
up_to_dict zero size pos = pos
up_to_dict (suc fuel) size pos =
    if leb size pos then up_to_dict fuel size (u32 (pos + size)) else pos

module _ (e : Reader) (o : Output e) (h : Header) where
  -- `struct rc`, `struct writer` and `struct cstate`, with the probabilities.
  pub record State : Type 0 where
    pub rc : Rc e
    pub probs : ℕ → ℕ
    pub buffer : ℕ → ℕ
    pub previous_byte : ℕ
    pub buffer_pos : ℕ
    pub global_pos : ℕ
    pub state : ℕ
    pub rep0 : ℕ
    pub rep1 : ℕ
    pub rep2 : ℕ
    pub rep3 : ℕ

  -- What a step leaves: whether its result was 0.
  pub record Result : Type 0 where
    pub good : Bool
    pub next : State

  unfoldable pub get_pos : State → ℕ
  get_pos s = u32 (s.global_pos + s.buffer_pos)

  -- `buffer_pos - offs` below 0, which is outside of the buffer, gives 0.
  unfoldable pub peek_old_byte : State → ℕ → ℕ
  peek_old_byte s offs =
      let near = down_to_dict offs h.dict_size offs in
      let back = u32 (s.buffer_pos + 2 ^ 32 - offs) in
      if not o.has_flush
      then if leb near s.buffer_pos then s.buffer (s.buffer_pos - near) else 0
      else s.buffer (up_to_dict (2 ^ 32) h.dict_size back)

  unfoldable pub write_byte : State → ℕ → Result
  write_byte s byte =
      let pos = s.buffer_pos + 1 in
      let s' : State = record s {
        buffer = update s.buffer s.buffer_pos byte;
        previous_byte = byte;
        buffer_pos = pos;
      } in
      let (w, taken) = o.flush s.rc.world (bytes_from s'.buffer 0 h.dict_size) in
      if o.has_flush && pos == h.dict_size
      then record {
        good = taken;
        next = record s' {
          buffer_pos = 0;
          global_pos = u32 (s.global_pos + h.dict_size);
          rc = record (s.rc) { world = w };
        };
      }
      else record { good = true; next = s' }

  unfoldable pub copy_byte : State → ℕ → Result
  copy_byte s offs = write_byte s (peek_old_byte s offs)

  -- The loop of `copy_bytes`, with `len`; a length that is left is a result other than 0.
  unfoldable pub copy_bytes : ℕ → State → ℕ → Result
  copy_bytes zero s rep0 = record { good = true; next = s }
  copy_bytes (suc left) s rep0 =
      let r = copy_byte s rep0 in
      let rest = copy_bytes left r.next rep0 in
      if not r.good
      then r
      else if not (left == 0) && ltb r.next.buffer_pos h.dst_size
      then rest
      else record r { good = left == 0 }

  -- `rc_is_bit_0` with `rc_update_bit_0` or `rc_update_bit_1`.
  pub record Chosen : Type 0 where
    pub bit : ℕ
    pub next : State

  unfoldable pub choose : State → ℕ → Chosen
  choose s i =
      let g = rc_get_bit e s.rc s.probs i 0 in
      record { bit = g.bit; next = record s { rc = g.rc; probs = g.probs } }

  -- The loops of a literal: with the byte at `rep0` while the bits agree, and on their own.
  pub record Literal : Type 0 where
    pub symbol : ℕ
    pub next : State

  unfoldable pub plain_loop : ℕ → State → ℕ → ℕ → Literal
  plain_loop zero s base mi = record { symbol = mi; next = s }
  plain_loop (suc fuel) s base mi =
      let g = rc_get_bit e s.rc s.probs (base + mi) mi in
      let rest = plain_loop fuel (record s { rc = g.rc; probs = g.probs }) base g.symbol in
      if ltb mi 0x100 then rest else record { symbol = mi; next = s }

  unfoldable pub matched_loop : ℕ → State → ℕ → ℕ → ℕ → Literal
  matched_loop zero s base match_byte mi = record { symbol = mi; next = s }
  matched_loop (suc fuel) s base match_byte mi =
      let match_byte = match_byte * 2 in
      let bit = bit_and match_byte 0x100 in
      let g = rc_get_bit e s.rc s.probs (base + 0x100 + bit + mi) mi in
      let s' : State = record s { rc = g.rc; probs = g.probs } in
      let rest = matched_loop fuel s' base match_byte g.symbol in
      let differs = if g.bit == 1 then bit == 0 else not (bit == 0) in
      if differs || not (ltb g.symbol 0x100) then record { symbol = g.symbol; next = s' } else rest

  unfoldable pub process_bit0 : State → Result
  process_bit0 s =
      let base =
        literals
        + 768
          * (bit_and (get_pos s) h.literal_pos_mask * 2 ^ h.lc
              + s.previous_byte / 2 ^ (8 - h.lc)) in
      let m = matched_loop 8 s base (peek_old_byte s s.rep0) 1 in
      let l = if leb 7 s.state then m else record { symbol = 1; next = s } in
      let r = plain_loop 8 l.next base l.symbol in
      let state =
        if ltb s.state 4 then 0 else if ltb s.state 10 then s.state - 3 else s.state - 6 in
      write_byte (record (r.next) { state = state }) (u8 r.symbol)

  -- The choice of a repeated distance, where `is_rep_g0` is 1.
  unfoldable pub older_rep : State → State
  older_rep s =
      let g1 = choose s (is_rep_g1 + s.state) in
      let g2 = choose g1.next (is_rep_g2 + s.state) in
      if g1.bit == 0
      then record (g1.next) { rep1 = s.rep0; rep0 = s.rep1 }
      else if g2.bit == 0
      then record (g2.next) { rep2 = s.rep1; rep1 = s.rep0; rep0 = s.rep2 }
      else record (g2.next) { rep3 = s.rep2; rep2 = s.rep1; rep1 = s.rep0; rep0 = s.rep3 }

  -- The length: its tree has `num_bits` levels at `base`, and `offset` is added.
  pub record Length : Type 0 where
    pub len : ℕ
    pub next : State

  unfoldable pub read_len : State → ℕ → ℕ → ℕ → Length
  read_len s base num_bits offset =
      let g = rc_bit_tree_decode e s.rc s.probs base num_bits in
      record { len = g.symbol + offset; next = record s { rc = g.rc; probs = g.probs } }

  unfoldable pub decode_len : State → ℕ → ℕ → Length
  decode_len s coder pos_state =
      let c = choose s coder in
      let c2 = choose c.next (coder + 1) in
      if c.bit == 0
      then read_len c.next (coder + len_low + pos_state * 2 ^ 3) 3 0
      else if c2.bit == 0
      then read_len c2.next (coder + len_mid + pos_state * 2 ^ 3) 3 8
      else read_len c2.next (coder + len_high) 8 16

  -- The direct bits of a distance, and the bits from the lowest on, with `mi` and `i`.
  unfoldable pub direct_loop : ℕ → State → ℕ → ℕ × State
  direct_loop zero s rep0 = (rep0, s)
  direct_loop (suc left) s rep0 =
      let (bit, rc) = rc_direct_bit e s.rc in
      direct_loop left (record s { rc = rc }) (bit_or (u32 (rep0 * 2)) bit)

  unfoldable pub low_loop : ℕ → State → ℕ → ℕ → ℕ → ℕ → ℕ × State
  low_loop zero s base mi i rep0 = (rep0, s)
  low_loop (suc left) s base mi i rep0 =
      let g = rc_get_bit e s.rc s.probs (base + mi) mi in
      low_loop left (record s { rc = g.rc; probs = g.probs }) base g.symbol (i * 2)
        (if g.bit == 1 then bit_or rep0 i else rep0)

  -- The new distance before it is raised by 1, for a slot of 4 at least.
  unfoldable pub slot_distance : State → ℕ → ℕ × State
  slot_distance s pos_slot =
      let num_bits = pos_slot / 2 - 1 in
      let start = 2 + pos_slot % 2 in
      let short = start * 2 ^ num_bits in
      let (high, s') = direct_loop (num_bits - 4) s start in
      if ltb pos_slot 14
      then low_loop num_bits s (spec_pos + short - pos_slot - 1) 1 1 short
      else low_loop 4 s' align 1 1 (u32 (high * 2 ^ 4))

  -- The distance of a match that is not repeated. The end marker is a distance of 0.
  unfoldable pub new_distance : State → ℕ → State
  new_distance s len =
      let slots = pos_slots + min len 3 * 2 ^ 6 in
      let g = rc_bit_tree_decode e s.rc s.probs slots 6 in
      let s' : State = record s { rc = g.rc; probs = g.probs; state = s.state + 7 } in
      let (distance, s'') = slot_distance s' g.symbol in
      if leb 4 g.symbol
      then record s'' { rep0 = u32 (distance + 1) }
      else record s' { rep0 = g.symbol + 1 }

  -- After the choice of the kind: the length, the distance where it is new, and the copy.
  unfoldable pub finish_match : State → ℕ → ℕ → Result
  finish_match s coder pos_state =
      let l = decode_len s coder pos_state in
      let t = new_distance l.next l.len in
      let copied = copy_bytes (l.len + 2) l.next l.next.rep0 in
      let fresh = copy_bytes (l.len + 2) t t.rep0 in
      if ltb s.state 4
      then if t.rep0 == 0
        then record { good = true; next = t }
        else if ltb h.dict_size t.rep0 || ltb (get_pos t) t.rep0
        then record { good = false; next = t }
        else fresh
      else copied

  unfoldable pub process_bit1 : State → ℕ → Result
  process_bit1 s pos_state =
      let rep = choose s (is_rep + s.state) in
      let fresh : State = record (rep.next) {
        rep3 = s.rep2;
        rep2 = s.rep1;
        rep1 = s.rep0;
        state = if ltb s.state 7 then 0 else 3;
      } in
      let g0 = choose rep.next (is_rep_g0 + s.state) in
      let long = choose g0.next (is_rep_0_long + s.state * 2 ^ 4 + pos_state) in
      let byte : State = record (long.next) { state = if ltb s.state 7 then 9 else 11 } in
      let older = older_rep g0.next in
      let after = if ltb s.state 7 then 8 else 11 in
      if rep.bit == 0
      then finish_match fresh len_coder pos_state
      else if g0.bit == 0
      then if long.bit == 0
        then copy_byte byte s.rep0
        else finish_match (record (long.next) { state = after }) rep_len_coder pos_state
      else finish_match (record older { state = after }) rep_len_coder pos_state

  -- A round of the loop of `unlzma`: it goes on, is done, or has failed.
  pub data Turn : Type 0 where
    goes_on ends corrupt stops : Turn

  pub record Round : Type 0 where
    pub turn : Turn
    pub next : State

  -- `if (rc.buffer_size <= 0) goto exit_3;`
  unfoldable pub after_symbol : State → Round
  after_symbol s =
      if s.rc.size == 0
      then record { turn = stops; next = s }
      else record { turn = goes_on; next = s }

  unfoldable pub round : State → Round
  round s =
      let pos_state = bit_and (get_pos s) h.pos_state_mask in
      let c = choose s (s.state * 2 ^ 4 + pos_state) in
      let r0 = process_bit0 c.next in
      let r1 = process_bit1 c.next pos_state in
      if c.bit == 0
      then if not r0.good then record { turn = corrupt; next = r0.next } else after_symbol r0.next
      else if not r1.good
      then record { turn = corrupt; next = r1.next }
      else if r1.next.rep0 == 0
      then record { turn = ends; next = r1.next }
      else after_symbol r1.next

  unfoldable pub unlzma_loop : ℕ → State → Option Round
  unlzma_loop zero s = none
  unlzma_loop (suc fuel) s =
      let r = round s in
      let rest = unlzma_loop fuel r.next in
      if not (ltb (get_pos s) h.dst_size)
      then some (record { turn = ends; next = s })
      else elim r.turn as (λ _. Option Round) [
        | goes_on ↦ rest
        | ends ↦ some r
        | corrupt ↦ some r
        | stops ↦ some r
      ]

-- The bytes of the header.
pub read_header : (e : Reader) → ℕ → Rc e → List ℕ × Rc e
read_header e zero rc = ([], rc)
read_header e (suc left) rc =
    let r = at_byte e rc in
    let (rest, last) = read_header e left (record r { ptr = r.ptr + 1 }) in
    (get_or r.buffer r.ptr 0 ∷ rest, last)

-- `read_int` on the little-endian bytes from an index on.
pub read_int : List ℕ → ℕ → ℕ → ℕ
read_int xs i zero = 0
read_int xs i (suc size) = read_int xs (i + 1) size * 2 ^ 8 + get_or xs i 0

-- The header of its 13 bytes. The loops that take 9 and 5 off `header.pos`, which is
-- `(pb * 5 + lp) * 9 + lc`, are divisions.
pub header_of : List ℕ → Header
header_of xs =
    let pos = get_or xs 0 0 in
    let size = read_int xs 1 4 in
    record {
      dict_size = if size == 0 then 1 else size;
      dst_size = read_int xs 5 8;
      lc = pos % 9;
      literal_pos_mask = 2 ^ (pos / 9 % 5) - 1;
      pos_state_mask = 2 ^ (pos / 45) - 1;
    }

-- `malloc` and `large_malloc`, by the number of bytes.
pub record Memory : Type 0 where
  pub malloc : ℕ → Bool
  pub large_malloc : ℕ → Bool

pub data Message : Type 0 where
  no_input_buffer bad_header data_corrupt : Message

module _ (e : Reader) (o : Output e) where
  -- What `unlzma` leaves: whether it returned 0, the message of its own error (that of `rc_read` is
  -- `failed` in the range decoder), and `*posp` where it was written.
  pub record Done : Type 0 where
    pub success : Bool
    pub message : Option Message
    pub posp : Option ℕ

  unfoldable pub start : (h : Header) → Rc e → State e o h
  start h rc = record {
    rc = rc;
    probs = λ _. 2 ^ 11 / 2;
    buffer = λ _. 0;
    previous_byte = 0;
    buffer_pos = 0;
    global_pos = 0;
    state = 0;
    rep0 = 1;
    rep1 = 1;
    rep2 = 1;
    rep3 = 1;
  }

  -- What follows the loop.
  pub finish : (h : Header) → Round e o h → Done
  finish h r =
      let s = r.next in
      let (w, taken) = o.flush s.rc.world (bytes_from s.buffer 0 s.buffer_pos) in
      elim r.turn [
        | corrupt ↦ record { success = false; message = some data_corrupt; posp = none }
        | stops ↦ record { success = false; message = none; posp = none }
        | goes_on ↦ record { success = false; message = none; posp = none }
        | ends ↦ record { success = not o.has_flush || taken; message = none; posp = some s.rc.ptr }
      ]

  -- `unlzma`; the input is `none` for a null pointer. Fresh memory for the output is taken as 0.
  pub unlzma : Memory → ℕ → Option (List ℕ) → Bool → e.World → Option Done
  unlzma m fuel buf has_output w =
      let lacks : Option Message → Option Done =
        λ x. some (record { success = false; message = x; posp = none }) in
      let given : Bool = elim buf [ none ↦ false | some xs ↦ true ] in
      let bytes : List ℕ = elim buf [ none ↦ [] | some xs ↦ xs ] in
      let (xs, rc) = read_header e 13 (rc_init e bytes 0 w) in
      let h = header_of xs in
      let r = unlzma_loop e o h fuel (start h (rc_init_code e rc)) in
      let probs = 2 * (1846 + 768 * 2 ^ (h.lc + get_or xs 0 0 / 9 % 5)) in
      if not given && not (m.malloc 0x10000)
      then lacks (some no_input_buffer)
      else if leb (9 * 5 * 5) (get_or xs 0 0)
      then lacks (some bad_header)
      else if not has_output && not (m.large_malloc (min h.dst_size h.dict_size))
      then lacks none
      else if not (m.large_malloc probs)
      then lacks none
      else elim r [ none ↦ none | some x ↦ some (finish h x) ]
