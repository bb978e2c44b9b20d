-- ===== src/Xz/Lzma.antt =====
-- The LZMA symbols of resources/lib/xz/xz_dec_lzma2.c, with the states and the layout of
-- xz_lzma2.h. The arrays of probabilities stand one behind the other in `struct lzma_dec`, and
-- `lzma_reset` writes them as one array; here they are one array, at the offsets of the struct.
use galaxys2_kernel_repack.Base.{
  ℕ, zero, suc, ◌+◌, ◌-◌, ◌*◌, ◌/◌, ◌%◌, ◌^◌, bit_and, Bool, true, false,
}
use galaxys2_kernel_repack.Base.{ltb, leb, ◌==◌, if◌then◌else◌, ◌&&◌, not}
use galaxys2_kernel_repack.Base.Bytes.{u8, u32, not32, update}
use galaxys2_kernel_repack.Xz.Types.{Mem}
use galaxys2_kernel_repack.Xz.Dict.{
  Dictionary, dict_has_space, dict_get, dict_put, Repeat, dict_repeat,
}
use galaxys2_kernel_repack.Xz.RangeCoder.{
  Rc, rc_reset, rc_limit_exceeded, rc_normalize, Decoded, rc_bit, rc_bittree, rc_bittree_reverse,
  Direct, rc_direct,
}
use galaxys2_kernel_repack.Xz.RangeCoder.Invariant.{probs_total}
pub mod Symbols
pub mod Reset
pub mod Reads
pub mod Literals
pub mod Keeps
pub mod Bounds
pub mod Ready
pub mod Writes
pub mod Confined
mod Tests

abbrev pub lit_states : ℕ
lit_states = 7

abbrev pub lzma_state_literal : ℕ → ℕ
lzma_state_literal state = if leb state 3 then 0 else if leb state 9 then state - 3 else state - 6

abbrev pub lzma_state_match : ℕ → ℕ
lzma_state_match state = if ltb state lit_states then 7 else 10

abbrev pub lzma_state_long_rep : ℕ → ℕ
lzma_state_long_rep state = if ltb state lit_states then 8 else 11

abbrev pub lzma_state_short_rep : ℕ → ℕ
lzma_state_short_rep state = if ltb state lit_states then 9 else 11

abbrev pub lzma_get_dist_state : ℕ → ℕ
lzma_get_dist_state len = if ltb len 6 then len - 2 else 3

-- The offsets of the arrays in `struct lzma_dec`, from `is_match` on.
abbrev pub is_match : ℕ → ℕ → ℕ
is_match state pos_state = state * 16 + pos_state

abbrev pub is_rep : ℕ → ℕ
is_rep state = 192 + state

abbrev pub is_rep0 : ℕ → ℕ
is_rep0 state = 204 + state

abbrev pub is_rep1 : ℕ → ℕ
is_rep1 state = 216 + state

abbrev pub is_rep2 : ℕ → ℕ
is_rep2 state = 228 + state

abbrev pub is_rep0_long : ℕ → ℕ → ℕ
is_rep0_long state pos_state = 240 + state * 16 + pos_state

abbrev pub dist_slot_probs : ℕ → ℕ
dist_slot_probs dist_state = 432 + dist_state * 64

abbrev pub dist_special : ℕ
dist_special = 688

abbrev pub dist_align : ℕ
dist_align = 802

abbrev pub match_len_dec : ℕ
match_len_dec = 818

abbrev pub rep_len_dec : ℕ
rep_len_dec = 1332

abbrev pub literal_probs : ℕ → ℕ
literal_probs coder = 1846 + coder * 768

-- `struct xz_dec_lzma2` as far as the symbols use it, with the memory that they write.
pub record Lzma : Type 0 where
  pub rc : Rc
  pub dict : Dictionary
  pub mem : Mem
  pub rep0 : ℕ
  pub rep1 : ℕ
  pub rep2 : ℕ
  pub rep3 : ℕ
  pub state : ℕ
  pub len : ℕ
  pub lc : ℕ
  pub literal_pos_mask : ℕ
  pub pos_mask : ℕ
  pub probs : ℕ → ℕ

-- `rc_bit(&s->rc, &probs[i])` and its siblings, as steps of the whole state.
abbrev pub after : Lzma → Decoded → Lzma
after s d = record s { rc = d.rc; probs = d.probs }

pub lzma_literal_probs : Lzma → ℕ
lzma_literal_probs s =
    let prev_byte = dict_get s.dict s.mem 0 in
    let low = prev_byte / 2 ^ (8 - s.lc) in
    let high = bit_and s.dict.pos s.literal_pos_mask * 2 ^ s.lc in literal_probs (low + high)

-- The loop that decodes a literal behind a match, with fuel; the symbol doubles in each round.
pub matched_loop : ℕ → Rc → (ℕ → ℕ) → ℕ → ℕ → ℕ → ℕ → Decoded
matched_loop zero rc probs base match_byte offset symbol = record {
  value = symbol;
  rc = rc;
  probs = probs;
}
matched_loop (suc fuel) rc probs base match_byte offset symbol =
    let match_bit = bit_and match_byte offset in
    let b = rc_bit rc probs (base + (offset + match_bit + symbol)) in
    let symbol' = symbol * 2 + b.value in
    let offset' =
      if b.value == 1 then bit_and offset match_bit else bit_and offset (not32 match_bit) in
    let more = matched_loop fuel b.rc b.probs base (match_byte * 2) offset' symbol' in
    if ltb symbol' 0x100 then more else record { value = symbol'; rc = b.rc; probs = b.probs }

pub literal_symbol : Lzma → Decoded
literal_symbol s =
    let base = lzma_literal_probs s in
    if ltb s.state lit_states
    then rc_bittree s.rc s.probs base 0x100
    else matched_loop 0x100 s.rc s.probs base (dict_get s.dict s.mem s.rep0 * 2) 0x100 1

pub lzma_literal : Lzma → Lzma
lzma_literal s =
    let d = literal_symbol s in
    let (dict, mem) = dict_put s.dict s.mem (u8 d.value) in
    record (after s d) { dict = dict; mem = mem; state = lzma_state_literal s.state }

-- The tree of a length decoder, and the length that it stands for.
pub len_tree : Lzma → Decoded → ℕ → ℕ → ℕ → Lzma
len_tree s d base limit start =
    let r = rc_bittree d.rc d.probs base limit in
    record (after s r) { len = start + (r.value - limit) }

-- `l` is the offset of the length decoder: `choice`, `choice2`, `low`, `mid` and `high`.
pub lzma_len : Lzma → ℕ → ℕ → Lzma
lzma_len s l pos_state =
    let c = rc_bit s.rc s.probs l in
    let c2 = rc_bit c.rc c.probs (l + 1) in
    if c.value == 0
    then len_tree s c (l + 2 + pos_state * 8) 8 2
    else if c2.value == 0
    then len_tree s c2 (l + 130 + pos_state * 8) 8 10
    else len_tree s c2 (l + 258) 256 18

-- The three forms of a distance: the slot itself, a short one, and one with direct bits.
pub short_distance : Lzma → ℕ → ℕ → ℕ → Lzma
short_distance s dist_slot limit top =
    let base = u32 (top * 2 ^ limit) in
    let r = rc_bittree_reverse s.rc s.probs (dist_special + base - dist_slot - 1) base limit in
    record (after s r) { rep0 = r.value }

pub long_distance : Lzma → ℕ → ℕ → Lzma
long_distance s limit top =
    let d = rc_direct s.rc top (limit - 4) in
    let r = rc_bittree_reverse d.rc s.probs dist_align (u32 (d.dest * 2 ^ 4)) 4 in
    record (after s r) { rep0 = r.value }

pub match_distance : Lzma → ℕ → Lzma
match_distance s dist_slot =
    let limit = dist_slot / 2 - 1 in
    let top = 2 + bit_and dist_slot 1 in
    if ltb dist_slot 4
    then record s { rep0 = dist_slot }
    else if ltb dist_slot 14
    then short_distance s dist_slot limit top
    else long_distance s limit top

pub lzma_match : Lzma → ℕ → Lzma
lzma_match s pos_state =
    let s = record s {
      state = lzma_state_match s.state;
      rep3 = s.rep2;
      rep2 = s.rep1;
      rep1 = s.rep0;
    } in
    let s = lzma_len s match_len_dec pos_state in
    let r = rc_bittree s.rc s.probs (dist_slot_probs (lzma_get_dist_state s.len)) 64 in
    match_distance (after s r) (r.value - 64)

-- The end of `lzma_rep_match`, once the distance is in `rep0`.
pub long_rep : Lzma → ℕ → Lzma
long_rep s pos_state =
    lzma_len (record s { state = lzma_state_long_rep s.state }) rep_len_dec pos_state

pub lzma_rep_match : Lzma → ℕ → Lzma
lzma_rep_match s pos_state =
    let b0 = rc_bit s.rc s.probs (is_rep0 s.state) in
    let long = rc_bit b0.rc b0.probs (is_rep0_long s.state pos_state) in
    let b1 = rc_bit b0.rc b0.probs (is_rep1 s.state) in
    let b2 = rc_bit b1.rc b1.probs (is_rep2 s.state) in
    if b0.value == 0
    then if long.value == 0
      then record (after s long) { state = lzma_state_short_rep s.state; len = 1 }
      else long_rep (after s long) pos_state
    else if b1.value == 0
    then long_rep (record (after s b1) { rep1 = s.rep0; rep0 = s.rep1 }) pos_state
    else if b2.value == 0
    then long_rep (record (after s b2) { rep2 = s.rep1; rep1 = s.rep0; rep0 = s.rep2 }) pos_state
    else long_rep
        (record (after s b2) { rep3 = s.rep2; rep2 = s.rep1; rep1 = s.rep0; rep0 = s.rep3 })
        pos_state

-- `dict_repeat(&s->dict, &s->lzma.len, s->lzma.rep0)`, and whether it was true.
pub record Symbol : Type 0 where
  pub done : Bool
  pub lzma : Lzma

pub repeat_match : Lzma → Symbol
repeat_match s =
    let r = dict_repeat s.dict s.mem s.len s.rep0 in
    record { done = r.done; lzma = record s { dict = r.dict; mem = r.mem; len = r.len } }

-- The body of the loop of `lzma_main`.
pub lzma_symbol : Lzma → Symbol
lzma_symbol s =
    let pos_state = bit_and s.dict.pos s.pos_mask in
    let b = rc_bit s.rc s.probs (is_match s.state pos_state) in
    let r = rc_bit b.rc b.probs (is_rep s.state) in
    if b.value == 0
    then record { done = true; lzma = lzma_literal (after s b) }
    else repeat_match (
        if r.value == 1
        then lzma_rep_match (after s r) pos_state
        else lzma_match (after s r) pos_state)

pub main_loop : ℕ → Lzma → Symbol
main_loop zero s = record { done = true; lzma = s }
main_loop (suc fuel) s =
    let next = lzma_symbol s in
    let more = main_loop fuel next.lzma in
    if dict_has_space s.dict && not (rc_limit_exceeded s.rc)
    then if next.done then more else next
    else record { done = true; lzma = s }

-- Each symbol adds a byte at least, so the space in the dictionary is fuel enough.
pub lzma_main : Lzma → Symbol
lzma_main s =
    let pending = dict_has_space s.dict && ltb 0 s.len in
    let s = if pending then (repeat_match s).lzma else s in
    let r = main_loop (s.dict.limit - s.dict.pos) s in
    if r.done
    then record { done = true; lzma = record (r.lzma) { rc = rc_normalize r.lzma.rc } }
    else r

-- The loop of `lzma_reset` over all probabilities.
pub reset_loop : ℕ → ℕ → (ℕ → ℕ) → ℕ → ℕ
reset_loop zero i probs = probs
reset_loop (suc left) i probs = reset_loop left (i + 1) (update probs i (2 ^ 11 / 2))

pub lzma_reset : Lzma → Lzma
lzma_reset s = record s {
  state = 0;
  rep0 = 0;
  rep1 = 0;
  rep2 = 0;
  rep3 = 0;
  probs = reset_loop probs_total 0 s.probs;
  rc = rc_reset s.rc;
}

-- `while (props >= unit) { props -= unit; ++count; }` with fuel.
pub record Stripped : Type 0 where
  pub count : ℕ
  pub props : ℕ

pub strip_loop : ℕ → ℕ → ℕ → ℕ → Stripped
strip_loop zero unit count props = record { count = count; props = props }
strip_loop (suc fuel) unit count props =
    let more = strip_loop fuel unit (count + 1) (props - unit) in
    if leb unit props then more else record { count = count; props = props }

-- `lzma_props`. The masks are written before the check of `lc + lp`.
pub lzma_props : Lzma → ℕ → Symbol
lzma_props s props =
    let pb = strip_loop props (9 * 5) 0 props in
    let lp = strip_loop pb.props 9 0 pb.props in
    let s' : Lzma = record s {
      pos_mask = 2 ^ pb.count - 1;
      literal_pos_mask = lp.count;
      lc = lp.props;
    } in
    if ltb 224 props
    then record { done = false; lzma = s }
    else if ltb 4 (lp.props + lp.count)
    then record { done = false; lzma = s' }
    else record {
      done = true;
      lzma = lzma_reset (record s' { literal_pos_mask = 2 ^ lp.count - 1 });
    }
