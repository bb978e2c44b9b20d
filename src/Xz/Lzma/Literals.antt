-- ===== src/Xz/Lzma/Literals.antt =====
-- What a literal reads, and that its probabilities lie in one of the sixteen literal coders.
use galaxys2_kernel_repack.Base.{
  ℕ, zero, suc, ◌+◌, ◌-◌, ◌*◌, ◌/◌, ◌^◌, ◌<◌, ◌≤◌, ◌≡◌, refl, sym, ap, arith,
}
use galaxys2_kernel_repack.Base.{
  true, false, ltb, ◌==◌, if◌then◌else◌, bit_and, inl, inr, if_has, ◌⊎◌,
}
use galaxys2_kernel_repack.Base.Bytes.{not32}
use galaxys2_kernel_repack.Base.Bits
use galaxys2_kernel_repack.Xz.RangeCoder.{Rc, rc_bit}
use galaxys2_kernel_repack.Xz.RangeCoder.Cost.{Costs-sum}
use galaxys2_kernel_repack.Xz.RangeCoder.Invariant.{IsCoder, probs_total}
use galaxys2_kernel_repack.Xz.RangeCoder.Trees.{IsStep, rc_bit-IsStep}
use galaxys2_kernel_repack.Xz.Dict.{dict_get}
use galaxys2_kernel_repack.Xz.Lzma.{Lzma, lzma_literal_probs, matched_loop}
use native.Mathlib.Nat.{pow-suc, mul-le-mul_right, div-lt_iff_lt-mul, one-le-pow}
use galaxys2_kernel_repack.Xz.RangeCoder.Cost.{pow_add}

-- What the literal coder of a state depends on: the properties `lc` and `lp` with `lc + lp` up to
-- 4, and a byte before.
pub record IsLiteral (s : Lzma) : Type 0 where
  pub context : s.lc ≤ 8
  pub coders : (s.literal_pos_mask + 1) * 2 ^ s.lc ≤ 16
  pub previous : dict_get s.dict s.mem 0 < 256

pub lzma_literal_probs-IsLiteral :
    (s : Lzma) → IsLiteral s → lzma_literal_probs s + 768 ≤ probs_total
unfolding lzma_literal_probs
lzma_literal_probs-IsLiteral s h =
    let byte = dict_get s.dict s.mem 0 in
    let width : 2 ^ (8 - s.lc) * 2 ^ s.lc ≡ 2 ^ 8 =
      let sum : 8 - s.lc + s.lc ≡ 8 = omega (arith, h.context) in
      rw (sym (pow_add 2 (8 - s.lc) s.lc), sum) refl in
    let some : 0 < 2 ^ (8 - s.lc) = one-le-pow (8 - s.lc) 2 (omega arith) in
    let low : byte / 2 ^ (8 - s.lc) < 2 ^ s.lc =
      (div-lt_iff_lt-mul some).1 (omega (arith, h.previous, width)) in
    let masked = mul-le-mul_right (2 ^ s.lc) (Bits.bit_and_bound s.dict.pos s.literal_pos_mask) in
    omega (arith, low, masked, h.coders)

-- A number with one bit that may be set.
bit_or_nothing : (a n : ℕ) → (n ≡ 0) ⊎ (n ≡ 256) → (bit_and n a ≡ 0) ⊎ (bit_and n a ≡ 256)
bit_or_nothing a n (inl none) = rw none (inl (Bits.zero_and a))
bit_or_nothing a n (inr some) =
    rw (some, Bits.bit_and_comm 256 a) (omega (arith, Bits.bit_and-bit 8 a))

next_offset :
    (match_byte offset bit : ℕ)
    → (offset ≡ 0) ⊎ (offset ≡ 256)
    → let match_bit = bit_and match_byte offset in
      let next = if bit == 1 then bit_and offset match_bit else bit_and offset (not32 match_bit) in
      (next ≡ 0) ⊎ (next ≡ 256)
next_offset match_byte offset bit o =
    let match_bit = bit_and match_byte offset in
    if_has (λ (n : ℕ). (n ≡ 0) ⊎ (n ≡ 256)) (bit == 1) (λ _. bit_or_nothing match_bit offset o)
      (λ _. bit_or_nothing (not32 match_bit) offset o)

-- `offset` is 256 as long as the literal agrees with the byte behind the match, then 0. `lo` is the
-- power of 2 below the symbol, and `left + 1` rounds are still to come.
pub matched_loop-IsStep :
    (left fuel : ℕ) (rc : Rc) (probs : ℕ → ℕ) (base match_byte offset symbol lo : ℕ)
    → IsCoder rc probs
    → left < fuel
    → 256 ≡ 2 ^ suc left * lo
    → lo ≤ symbol
    → symbol < 2 * lo
    → (offset ≡ 0) ⊎ (offset ≡ 256)
    → base + 768 ≤ probs_total
    → IsStep (suc left) rc (matched_loop fuel rc probs base match_byte offset symbol)
unfolding matched_loop
matched_loop-IsStep left zero rc probs base match_byte offset symbol lo h lf e a b o room =
    absurd (omega arith)
matched_loop-IsStep zero (suc fuel) rc probs base match_byte offset symbol lo h lf e a b o room =
    let index = base + (offset + bit_and match_byte offset + symbol) in
    let masked = Bits.bit_and_bound match_byte offset in
    let (s, v) = rc_bit-IsStep rc probs index h (omega arith) in
    let last : ltb (symbol * 2 + (rc_bit rc probs index).value) 0x100 ≡ false = ground arith in
    rw last (record { coder = s.coder; reads = s.reads; cost = s.cost })
matched_loop-IsStep (suc left) (suc fuel) rc probs base match_byte offset symbol lo h lf e a b o
      room =
    let match_bit = bit_and match_byte offset in
    let index = base + (offset + match_bit + symbol) in
    let bit = rc_bit rc probs index in
    let masked = Bits.bit_and_bound match_byte offset in
    let split : 256 ≡ 2 ^ suc left * (2 * lo) =
      omega (arith, e, ap (λ (t : ℕ). t * lo) (pow-suc 2 (suc left))) in
    let some : lo ≤ 2 ^ left * lo = grind (arith, one-le-pow left 2) in
    let wide : 256 ≡ 4 * (2 ^ left * lo) =
      omega (arith, split, ap (λ (t : ℕ). t * lo) (pow-suc 2 left)) in
    let (s, v) = rc_bit-IsStep rc probs index h (omega arith) in
    let go : ltb (symbol * 2 + bit.value) 0x100 ≡ true = ground arith in
    let offset' =
      if bit.value == 1 then bit_and offset match_bit else bit_and offset (not32 match_bit) in
    let t =
      matched_loop-IsStep left fuel bit.rc bit.probs base (match_byte * 2) offset'
        (symbol * 2 + bit.value) (2 * lo) s.coder (omega arith) split (omega arith) (omega arith)
        (next_offset match_byte offset bit.value o) room in
    rw go (record {
      coder = t.coder;
      reads = omega (arith, s.reads, t.reads);
      cost = Costs-sum (omega arith) (omega arith) s.cost t.cost;
    })
