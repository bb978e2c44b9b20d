-- ===== src/Xz/Lzma/Ready.antt =====
-- A reset makes the LZMA decoder ready, whatever it held before.
use galaxys2_kernel_repack.Base.{
  ℕ, ◌+◌, ◌-◌, ◌*◌, ◌/◌, ◌%◌, ◌^◌, ◌<◌, ◌≤◌, ◌≡◌, refl, sym, ap, ◌∙◌, arith, true, All, ltb, if_has,
}
use galaxys2_kernel_repack.Base.Bytes.{IsByte}
use galaxys2_kernel_repack.Xz.Types.Memory.{IsBytes}
use galaxys2_kernel_repack.Xz.Types.{Mem, XzBuf}
use galaxys2_kernel_repack.Xz.Dict.{Dictionary}
use galaxys2_kernel_repack.Xz.RangeCoder.{rc_reset, rc_read_init}
use galaxys2_kernel_repack.Xz.RangeCoder.First.{rc_read_init-IsRange}
use galaxys2_kernel_repack.Xz.RangeCoder.Cost.{pow_add}
use galaxys2_kernel_repack.Xz.RangeCoder.Invariant.{IsProb, probs_total}
use galaxys2_kernel_repack.Xz.Lzma.{Lzma, Symbol, strip_loop, reset_loop, lzma_reset, lzma_props}
use galaxys2_kernel_repack.Xz.Lzma.Reset.{reset_loop-value, strip_loop-div}
use galaxys2_kernel_repack.Xz.Lzma.Bounds.{IsLzma}
use native.Mathlib.Nat.{pow-le-pow_right, one-le-pow}

-- What a reset leaves alone: the fields of the properties byte, and bytes in the memory and the input.
pub record IsReset (s : Lzma) : Type 0 where
  pub positions : s.pos_mask < 16
  pub context : s.lc ≤ 8
  pub coders : (s.literal_pos_mask + 1) * 2 ^ s.lc ≤ 16
  pub input : All IsByte s.rc.input
  pub bytes : IsBytes s.mem

pub lzma_reset-IsLzma : (s : Lzma) → IsReset s → IsLzma (lzma_reset s)
unfolding lzma_reset rc_reset
lzma_reset-IsLzma s h = record {
  coder = record {
    ranged = record { low = omega arith; high = omega arith; word = omega arith; bytes = h.input };
    likely = λ i inside. half i inside;
  };
  valid = omega arith;
  positions = h.positions;
  context = h.context;
  coders = h.coders;
  bytes = h.bytes;
}
  where
    half : (i : ℕ) → i < probs_total → IsProb (reset_loop probs_total 0 s.probs i)
    half i inside = ground (arith, reset_loop-value probs_total 0 i s.probs, inside)

-- The loops of `lzma_props` divide.
strip_positions :
    (props : ℕ) → strip_loop props 45 0 props ≡ record { count = props / 45; props = props % 45 }
strip_positions props =
    strip_loop-div props 45 0 props (props / 45) (props % 45) (omega arith) (omega arith)
      (omega arith) (omega arith)
    ∙ ap (λ (n : ℕ). record { count = n; props = props % 45 }) (omega arith)

strip_literals :
    (props : ℕ) → strip_loop props 9 0 props ≡ record { count = props / 9; props = props % 9 }
strip_literals props =
    strip_loop-div props 9 0 props (props / 9) (props % 9) (omega arith) (omega arith) (omega arith)
      (omega arith)
    ∙ ap (λ (n : ℕ). record { count = n; props = props % 9 }) (omega arith)

pow_small : (n m : ℕ) → n ≤ m → 2 ^ n ≤ 2 ^ m
pow_small n m h = pow-le-pow_right (omega arith) h

coders_bound : (lp lc : ℕ) → lc + lp ≤ 4 → (2 ^ lp - 1 + 1) * 2 ^ lc ≤ 16
coders_bound lp lc small =
    let positive = one-le-pow lp 2 in
    let whole : 2 ^ lp - 1 + 1 ≡ 2 ^ lp = omega (arith, positive) in
    let product : (2 ^ lp - 1 + 1) * 2 ^ lc ≡ 2 ^ (lp + lc) =
      ap (λ (t : ℕ). t * 2 ^ lc) whole ∙ sym (pow_add 2 lp lc) in
    omega (arith, product, pow_small (lp + lc) 4 (omega arith))

-- An accepted properties byte makes the decoder ready.
pub lzma_props-IsLzma :
    (s : Lzma) (props : ℕ)
    → All IsByte s.rc.input
    → IsBytes s.mem
    → (lzma_props s props).done ≡ true
    → IsLzma (lzma_props s props).lzma
unfolding lzma_props
lzma_props-IsLzma s props input bytes =
    let lp = props % 45 / 9 in
    let lc = props % 45 % 9 in
    let P = λ (r : Symbol). r.done ≡ true → IsLzma r.lzma in
    rw (strip_positions props, strip_literals (props % 45))
      (if_has P (ltb 224 props) (λ _ d. cc)
        (λ byte.
          if_has P (ltb 4 (lc + lp)) (λ _ d. cc)
            (λ small d.
              let pb : props / 45 ≤ 4 = ground (arith, byte) in
              let positive = one-le-pow (props / 45) 2 in
              let masks = pow_small (props / 45) 4 pb in
              lzma_reset-IsLzma
                (record s {
                  pos_mask = 2 ^ (props / 45) - 1;
                  literal_pos_mask = 2 ^ lp - 1;
                  lc = lc;
                })
                (record {
                  positions = omega (arith, masks, positive);
                  context = omega arith;
                  coders = coders_bound lp lc (ground (arith, small));
                  input = input;
                  bytes = bytes;
                }))))

-- The range decoder takes its first bytes.
pub rc_read_init-IsLzma :
    (s : Lzma) (b : XzBuf) → IsLzma s → IsLzma (record s { rc = (rc_read_init s.rc b).rc })
rc_read_init-IsLzma s b h = record {
  coder = record { ranged = rc_read_init-IsRange s.rc b h.coder.ranged; likely = h.coder.likely };
  valid = h.valid;
  positions = h.positions;
  context = h.context;
  coders = h.coders;
  bytes = h.bytes;
}

-- The range decoder begins again.
pub rc_reset-IsLzma : (s : Lzma) → IsLzma s → IsLzma (record s { rc = rc_reset s.rc })
unfolding rc_reset
rc_reset-IsLzma s h = record {
  coder = record {
    ranged = record {
      low = omega arith;
      high = omega arith;
      word = omega arith;
      bytes = h.coder.ranged.bytes;
    };
    likely = h.coder.likely;
  };
  valid = h.valid;
  positions = h.positions;
  context = h.context;
  coders = h.coders;
  bytes = h.bytes;
}

-- The dictionary and the memory change.
pub with_memory-IsLzma :
    (s : Lzma) (d : Dictionary) (m : Mem)
    → IsLzma s
    → IsBytes m
    → IsLzma (record s { dict = d; mem = m })
with_memory-IsLzma s d m h bytes = record {
  coder = h.coder;
  valid = h.valid;
  positions = h.positions;
  context = h.context;
  coders = h.coders;
  bytes = bytes;
}

-- The properties byte is neither of the input nor of the memory.
pub lzma_props_keeps :
    (s : Lzma) (props : ℕ)
    → let t = (lzma_props s props).lzma in (t.rc.input ≡ s.rc.input) × (t.mem ≡ s.mem)
unfolding lzma_props lzma_reset rc_reset
lzma_props_keeps s props =
    let lp =
      strip_loop (strip_loop props 45 0 props).props 9 0 (strip_loop props 45 0 props).props in
    let P = λ (r : Symbol). (r.lzma.rc.input ≡ s.rc.input) × (r.lzma.mem ≡ s.mem) in
    if_has P (ltb 224 props) (λ _. (refl, refl))
      (λ _. if_has P (ltb 4 (lp.props + lp.count)) (λ _. (refl, refl)) (λ _. (refl, refl)))
