-- ===== src/Xz/Lzma/Bounds.antt =====
-- `LZMA_IN_REQUIRED`: a symbol reads no more than the bytes that the caller keeps in reserve.
use galaxys2_kernel_repack.Base.{ℕ, zero, suc, ◌+◌, ◌-◌, ◌*◌, ◌^◌, ◌<◌, ◌≤◌, ◌≡◌, refl, ap, arith}
use galaxys2_kernel_repack.Base.{ltb, ◌==◌, if◌then◌else◌, bit_and, inr, if_has, ◌&&◌}
use galaxys2_kernel_repack.Base.Bytes.{u8}
use galaxys2_kernel_repack.Base.Bits
use galaxys2_kernel_repack.Xz.Types.Memory.{IsBytes}
use galaxys2_kernel_repack.Xz.RangeCoder.{Rc, Decoded, rc_bit, rc_normalize}
use galaxys2_kernel_repack.Xz.RangeCoder.Cost.{Costs, Costs-sum, Costs-bytes}
use galaxys2_kernel_repack.Xz.RangeCoder.Invariant.{
  IsCoder, rc_normalize-Costs, rc_normalize-IsRange, rc_normalize_reads,
}
use galaxys2_kernel_repack.Xz.RangeCoder.Trees.{IsStep, rc_bit-IsStep, rc_bittree-IsStep}
use galaxys2_kernel_repack.Xz.Dict.{dict_get, dict_has_space}
use galaxys2_kernel_repack.Xz.Dict.Invariant.{
  dict_get-IsByte, dict_put-IsBytes, dict_repeat-IsBytes,
}
use galaxys2_kernel_repack.Xz.Lzma.{
  Lzma, Symbol, after, lzma_match, lzma_rep_match, lzma_literal, lzma_literal_probs, literal_symbol,
  lit_states, repeat_match, lzma_symbol, main_loop, lzma_main, is_match, is_rep,
}
use galaxys2_kernel_repack.Xz.Lzma.Keeps.{
  Keeps, kept, Keeps-trans, lzma_match-Keeps, lzma_rep_match-Keeps,
}
use galaxys2_kernel_repack.Xz.Lzma.Reads.{Reads, Reads-on, lzma_match-Reads, lzma_rep_match-Reads}
use galaxys2_kernel_repack.Xz.Lzma.Literals.{
  IsLiteral, lzma_literal_probs-IsLiteral, matched_loop-IsStep,
}
use galaxys2_kernel_repack.Xz.Lzma.Symbols.{lzma_match-IsMatched, lzma_rep_match-IsMatched}

-- A decoder between two symbols: a valid range coder, one of the twelve states, properties with
-- `lc + lp` up to 4 and `pb` up to 4, and a memory of bytes.
pub record IsLzma (s : Lzma) : Type 0 where
  pub coder : IsCoder s.rc s.probs
  pub valid : s.state < 12
  pub positions : s.pos_mask < 16
  pub context : s.lc ≤ 8
  pub coders : (s.literal_pos_mask + 1) * 2 ^ s.lc ≤ 16
  pub bytes : IsBytes s.mem

literal_symbol-IsStep :
    (s : Lzma) → IsLiteral s → IsCoder s.rc s.probs → IsStep 8 s.rc (literal_symbol s)
unfolding literal_symbol
literal_symbol-IsStep s l h =
    let base = lzma_literal_probs s in
    let room = lzma_literal_probs-IsLiteral s l in
    let (t, _, _) = rc_bittree-IsStep 8 s.rc s.probs base h (omega arith) (omega arith) in
    if_has (IsStep 8 s.rc) (ltb s.state lit_states) (λ _. t)
      (λ _.
        matched_loop-IsStep 7 0x100 s.rc s.probs base (dict_get s.dict s.mem s.rep0 * 2) 0x100 1 1 h
          (omega arith) refl (omega arith) (omega arith) (inr refl) room)

-- A symbol: what it reads, and what it leaves for the next.
pub record IsRead (s t : Lzma) : Type 0 where
  pub cost : Costs 22 26 s.rc t.rc
  pub next : IsLzma t

abbrev IsLzma-IsLiteral : (s : Lzma) → IsLzma s → IsLiteral s
IsLzma-IsLiteral s h = record {
  context = h.context;
  coders = h.coders;
  previous = dict_get-IsByte s.dict s.mem 0 h.bytes;
}

repeat_match-IsRead :
    (s t : Lzma)
    → IsLzma s
    → Reads 22 26 s.rc t
    → Keeps s t
    → t.state < 12
    → IsRead s (repeat_match t).lzma
unfolding repeat_match
repeat_match-IsRead s t h r k valid = record {
  cost = r.cost;
  next = record {
    coder = r.coder;
    valid = valid;
    positions = rw k.positions h.positions;
    context = rw k.context h.context;
    coders = rw (k.masks, k.context) h.coders;
    bytes = dict_repeat-IsBytes t.dict t.mem t.len t.rep0 (rw k.memory h.bytes);
  };
}

lzma_literal-IsRead :
    (s : Lzma) (b : Decoded) → IsLzma s → IsStep 1 s.rc b → IsRead s (lzma_literal (after s b))
unfolding lzma_literal
lzma_literal-IsRead s b h step =
    let start : IsLzma (after s b) = record {
      coder = step.coder;
      valid = h.valid;
      positions = h.positions;
      context = h.context;
      coders = h.coders;
      bytes = h.bytes;
    } in
    let d = literal_symbol (after s b) in
    let r = literal_symbol-IsStep (after s b) (IsLzma-IsLiteral (after s b) start) step.coder in
    record {
      cost = Costs-sum (omega arith) (omega arith) step.cost r.cost;
      next = record {
        coder = r.coder;
        valid = ground (arith, h.valid);
        positions = h.positions;
        context = h.context;
        coders = h.coders;
        bytes = dict_put-IsBytes s.dict s.mem (u8 d.value) h.bytes (omega arith);
      };
    }

-- A symbol takes at most 22 adaptive and 26 direct bits. It leaves a decoder
-- that is ready for the next symbol: all probabilities in the arrays of `struct lzma_dec` are valid.
pub lzma_symbol-IsRead : (s : Lzma) → IsLzma s → IsRead s (lzma_symbol s).lzma
unfolding lzma_symbol
lzma_symbol-IsRead s h =
    let pos_state = bit_and s.dict.pos s.pos_mask in
    let masked = Bits.bit_and_bound s.dict.pos s.pos_mask in
    let small : pos_state < 16 = omega (arith, masked, h.positions) in
    let b = rc_bit s.rc s.probs (is_match s.state pos_state) in
    let r = rc_bit b.rc b.probs (is_rep s.state) in
    let (i, _) =
      rc_bit-IsStep s.rc s.probs (is_match s.state pos_state) h.coder (omega (arith, h.valid)) in
    let (j, _) = rc_bit-IsStep b.rc b.probs (is_rep s.state) i.coder (omega (arith, h.valid)) in
    let both : Costs 2 0 s.rc r.rc = Costs-sum (omega arith) (omega arith) i.cost j.cost in
    let from : Lzma = after s r in
    let far = lzma_match-Reads from pos_state j.coder small in
    let near = lzma_rep_match-Reads from pos_state j.coder h.valid small in
    if_has (λ (x : Symbol). IsRead s x.lzma) (b.value == 0) (λ _. lzma_literal-IsRead s b h i)
      (λ _.
        if_has (λ (t : Lzma). IsRead s (repeat_match t).lzma) (r.value == 1)
          (λ _.
            repeat_match-IsRead s (lzma_rep_match from pos_state) h
              (Reads-on (omega arith) (omega arith) both near)
              (Keeps-trans (kept refl refl refl refl) (lzma_rep_match-Keeps from pos_state))
              (lzma_rep_match-IsMatched from pos_state).1)
          (λ _.
            repeat_match-IsRead s (lzma_match from pos_state) h
              (Reads-on (omega arith) (omega arith) both far)
              (Keeps-trans (kept refl refl refl refl) (lzma_match-Keeps from pos_state))
              (lzma_match-IsMatched from pos_state).1))

-- A symbol and the normalization behind it read 21 bytes at most, `LZMA_IN_REQUIRED`.
pub lzma_symbol_reads :
    (s : Lzma) → IsLzma s → (rc_normalize (lzma_symbol s).lzma.rc).in_pos ≤ s.rc.in_pos + 21
lzma_symbol_reads s h =
    let r = lzma_symbol-IsRead s h in
    let last = rc_normalize-Costs (lzma_symbol s).lzma.rc r.next.coder.ranged in
    let (ranged, _) = rc_normalize-IsRange (lzma_symbol s).lzma.rc r.next.coder.ranged in
    Costs-bytes (Costs-sum (omega arith) (omega arith) r.cost last) h.coder.ranged.low ranged.high

-- The position after the last normalization.
abbrev last_position : Lzma → ℕ
last_position s = (rc_normalize s.rc).in_pos

main_loop_reads :
    (fuel : ℕ) (s : Lzma)
    → IsLzma s
    → last_position s ≤ s.rc.in_limit + 21
    → let t = (main_loop fuel s).lzma in
      IsLzma t
      × (t.rc.in_limit ≡ s.rc.in_limit)
      × (last_position t ≤ s.rc.in_limit + 21)
      × (s.rc.in_pos ≤ t.rc.in_pos)
unfolding main_loop
main_loop_reads zero s h e = (h, refl, e, omega arith)
main_loop_reads (suc fuel) s h e =
    let next = lzma_symbol s in
    let r = lzma_symbol-IsRead s h in
    let near = lzma_symbol_reads s h in
    let more = λ (w : last_position next.lzma ≤ next.lzma.rc.in_limit + 21).
      main_loop_reads fuel next.lzma r.next w in
    ground (arith, r.cost.limit, r.cost.moved, r.next, near, more)

repeat_match-IsLzma : (s : Lzma) → IsLzma s → IsLzma (repeat_match s).lzma
unfolding repeat_match
repeat_match-IsLzma s h = record {
  coder = h.coder;
  valid = h.valid;
  positions = h.positions;
  context = h.context;
  coders = h.coders;
  bytes = dict_repeat-IsBytes s.dict s.mem s.len s.rep0 h.bytes;
}

repeat_match-rc : (s : Lzma) → (repeat_match s).lzma.rc ≡ s.rc
unfolding repeat_match
repeat_match-rc s = refl

normalized : (s : Lzma) → IsLzma s → IsLzma (record s { rc = rc_normalize s.rc })
normalized s h = record {
  coder = record { ranged = (rc_normalize-IsRange s.rc h.coder.ranged).0; likely = h.coder.likely };
  valid = h.valid;
  positions = h.positions;
  context = h.context;
  coders = h.coders;
  bytes = h.bytes;
}

-- A valid decoder whose position is not behind the limit reads 21 bytes behind the limit at most,
-- in a whole run of `lzma_main`, however it ends, and is valid afterwards, with every probability in
-- the arrays inside its bounds. The position never moves back.
pub lzma_main_reads :
    (s : Lzma)
    → IsLzma s
    → s.rc.in_pos ≤ s.rc.in_limit
    → let t = (lzma_main s).lzma in
      IsLzma t × (s.rc.in_pos ≤ t.rc.in_pos) × (t.rc.in_pos ≤ s.rc.in_limit + 21)
unfolding lzma_main
lzma_main_reads s h before =
    let pending = dict_has_space s.dict && ltb 0 s.len in
    let start : Lzma = if pending then (repeat_match s).lzma else s in
    let valid : IsLzma start = if_has IsLzma pending (λ _. repeat_match-IsLzma s h) (λ _. h) in
    let same : start.rc ≡ s.rc =
      if_has (λ (t : Lzma). t.rc ≡ s.rc) pending (λ _. repeat_match-rc s) (λ _. refl) in
    let t = main_loop (start.dict.limit - start.dict.pos) start in
    let limit : start.rc.in_limit ≡ s.rc.in_limit = ap (λ (r : Rc). r.in_limit) same in
    let position : start.rc.in_pos ≡ s.rc.in_pos = ap (λ (r : Rc). r.in_pos) same in
    let first : last_position start ≤ s.rc.in_limit + 21 =
      omega (arith, rc_normalize_reads start.rc, position) in
    let (next, _, last, forward) =
      main_loop_reads (start.dict.limit - start.dict.pos) start valid
        (omega (arith, first, limit)) in
    let one = rc_normalize_reads t.lzma.rc in
    if_has
      (λ (x : Symbol).
        IsLzma x.lzma × (s.rc.in_pos ≤ x.lzma.rc.in_pos) × (x.lzma.rc.in_pos ≤ s.rc.in_limit + 21))
      t.done
      (λ _.
        (normalized t.lzma next, omega (arith, forward, position, one), omega (arith, last, limit)))
      (λ _. (next, omega (arith, forward, position), omega (arith, last, limit, one)))
