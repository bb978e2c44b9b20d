-- ===== src/Xz/Crc32/Reference.antt =====
-- The CRC32 bit by bit, and the proof that the table computes it eight bits at a time.
use galaxys2_kernel_repack.Base.{
  ℕ, zero, suc, ◌+◌, ◌-◌, ◌*◌, ◌/◌, ◌%◌, ◌^◌, ◌<◌, ◌≤◌, bit_and, bit_xor,
}
use galaxys2_kernel_repack.Base.{
  ◌≡◌, refl, sym, ap, ◌∙◌, arith, List, [], ◌∷◌, All, ◌==◌, ==_iff, if◌then◌else◌,
}
use galaxys2_kernel_repack.Base.{◌⊎◌, inl, inr}
use galaxys2_kernel_repack.Base.Bytes.{IsByte, not32, sub32, update}
use galaxys2_kernel_repack.Base.Bits
use galaxys2_kernel_repack.Xz.Crc32.{
  poly, table_round, table_entry, fill_table, xz_crc32_init, xz_crc32_table, crc_loop, xz_crc32,
}

-- One bit of the division by the polynomial, the lowest bit first.
unfoldable pub shift_bit : ℕ → ℕ
shift_bit r = if r % 2 == 1 then bit_xor (r / 2) poly else r / 2

unfoldable pub shift_bits : ℕ → ℕ → ℕ
shift_bits zero r = r
shift_bits (suc n) r = shift_bits n (shift_bit r)

-- Each byte is added to the register and shifted out bit by bit.
unfoldable pub reference_loop : List ℕ → ℕ → ℕ
reference_loop [] crc = crc
reference_loop (b ∷ rest) crc = reference_loop rest (shift_bits 8 (bit_xor crc b))

parity : (r : ℕ) → (r % 2 ≡ 1) ⊎ (r % 2 ≡ 0)
parity r = omega arith

-- The mask `~((r & 1) - 1)` is all ones for an odd `r`, and zero for an even one.
mask_value : (r : ℕ) → not32 (sub32 (bit_and r 1) 1) ≡ (2 ^ 32 - 1) * (r % 2)
mask_value r = elim (parity r) [
  | inl e ↦ omega (arith, Bits.bit_and-mask 1 r 1 refl)
  | inr e ↦ omega (arith, Bits.bit_and-mask 1 r 1 refl)
]

masked_poly : (r : ℕ) → bit_and poly (not32 (sub32 (bit_and r 1) 1)) ≡ poly * (r % 2)
masked_poly r = rw mask_value (elim (parity r) [ inl e ↦ rw e refl | inr e ↦ rw e refl ])

pub table_round-shift_bit : (r : ℕ) → table_round r ≡ shift_bit r
unfolding table_round shift_bit
table_round-shift_bit r = elim (parity r) [
  | inl e ↦ rw (masked_poly, e) refl
  | inr e ↦ rw (masked_poly, e) (Bits.bit_xor-zero (r / 2))
]

pub table_entry-shift_bits : (n r : ℕ) → table_entry n r ≡ shift_bits n r
unfolding table_entry shift_bits
table_entry-shift_bits zero r = refl
table_entry-shift_bits (suc n) r =
    table_entry-shift_bits n (table_round r) ∙ ap (shift_bits n) (table_round-shift_bit r)

-- A multiple of `2 ^ n` passes through `n` shifts untouched by the polynomial.
shift_bit-even : (x y : ℕ) → shift_bit (bit_xor x (2 * y)) ≡ bit_xor (shift_bit x) y
unfolding shift_bit
shift_bit-even x y = elim (parity x) [
  | inl e ↦
      rw (odd_sum x y e, e)
        (ap (λ t. bit_xor t poly) (halves x y)
          ∙ Bits.bit_xor_assoc (x / 2) y poly
          ∙ ap (bit_xor (x / 2)) (Bits.bit_xor_comm y poly)
          ∙ sym (Bits.bit_xor_assoc (x / 2) poly y))
  | inr e ↦ rw (odd_sum x y e, e) (halves x y)
]
  where
    odd_sum : (x y : ℕ) {d : ℕ} → x % 2 ≡ d → bit_xor x (2 * y) % 2 ≡ d
    odd_sum x y e = omega (arith, Bits.bit_xor-parity x (2 * y))

    halves : (x y : ℕ) → bit_xor x (2 * y) / 2 ≡ bit_xor (x / 2) y
    halves x y = Bits.bit_xor-half x (2 * y) ∙ ap (bit_xor (x / 2)) (omega arith)

shift_bits-high : (n x h : ℕ) → shift_bits n (bit_xor x (h * 2 ^ n)) ≡ bit_xor (shift_bits n x) h
unfolding shift_bits
shift_bits-high zero x h = ap (bit_xor x) (omega arith)
shift_bits-high (suc n) x h =
    ap (λ t. shift_bits n (shift_bit (bit_xor x t))) (Bits.twice-pow h n)
    ∙ ap (shift_bits n) (shift_bit-even x (h * 2 ^ n))
    ∙ shift_bits-high n (shift_bit x) h

fill_table-below : (left i j : ℕ) (table : ℕ → ℕ) → j < i → fill_table left i table j ≡ table j
unfolding fill_table
fill_table-below zero i j table p = refl
fill_table-below (suc left) i j table p =
    fill_table-below left (i + 1) j (update table i (table_entry 8 i)) (omega arith) ∙ ground arith

fill_table-entry :
    (left i j : ℕ) (table : ℕ → ℕ)
    → i ≤ j
    → j < i + left
    → fill_table left i table j ≡ shift_bits 8 j
unfolding fill_table
fill_table-entry zero i j table p q = absurd (omega arith)
fill_table-entry (suc left) i j table p q = elim (first_or_later i j p) [
  | inl e ↦
      fill_table-below left (i + 1) j (update table i (table_entry 8 i)) (omega arith)
      ∙ rw ((==_iff j i).1 (sym e)) (rw e (table_entry-shift_bits 8 j))
  | inr later ↦
      fill_table-entry left (i + 1) j (update table i (table_entry 8 i)) later (omega arith)
]
  where
    first_or_later : (i j : ℕ) → i ≤ j → (i ≡ j) ⊎ (i + 1 ≤ j)
    first_or_later i j p = omega arith

-- After `xz_crc32_init` each of the 256 entries is its index, shifted out bit by bit.
pub xz_crc32_table-shift_bits : (j : ℕ) → j < 256 → xz_crc32_table j ≡ shift_bits 8 j
unfolding xz_crc32_table xz_crc32_init
xz_crc32_table-shift_bits j h = fill_table-entry 256 0 j (λ i. 0) (omega arith) h

-- One byte: the table lookup and the shift are eight bit steps of `crc ^ b`.
byte_step :
    (b crc : ℕ)
    → IsByte b
    → bit_xor (xz_crc32_table (bit_xor b (bit_and crc 0xff))) (crc / 2 ^ 8)
      ≡ shift_bits 8 (bit_xor crc b)
byte_step b crc hb =
    ap (λ t. bit_xor (xz_crc32_table (bit_xor b t)) (crc / 2 ^ 8)) low
    ∙ ap (λ t. bit_xor t (crc / 2 ^ 8)) (xz_crc32_table-shift_bits (bit_xor b (crc % 256)) index)
    ∙ sym (shift_bits-high 8 (bit_xor b (crc % 256)) (crc / 2 ^ 8))
    ∙ ap (shift_bits 8) whole
  where
    low : bit_and crc 0xff ≡ crc % 256
    low = Bits.bit_and-mask 8 crc 0xff refl

    index : bit_xor b (crc % 256) < 256
    index = Bits.bit_xor-lt 8 b (crc % 256) hb (omega arith)

    whole : bit_xor (bit_xor b (crc % 256)) (crc / 2 ^ 8 * 2 ^ 8) ≡ bit_xor crc b
    whole =
        Bits.bit_xor_assoc b (crc % 256) (crc / 2 ^ 8 * 2 ^ 8)
        ∙ ap (bit_xor b) (Bits.bit_xor-add 8 (crc % 256) (crc / 2 ^ 8) (omega arith) ∙ omega arith)
        ∙ Bits.bit_xor_comm b crc

pub crc_loop-reference_loop :
    (buf : List ℕ) (crc : ℕ) → All IsByte buf → crc_loop buf crc ≡ reference_loop buf crc
unfolding crc_loop reference_loop
crc_loop-reference_loop [] crc h = refl
crc_loop-reference_loop (b ∷ rest) crc (hb, h) =
    ap (crc_loop rest) (byte_step b crc hb)
    ∙ crc_loop-reference_loop rest (shift_bits 8 (bit_xor crc b)) h

-- The table-driven checksum of any bytes equals the bit-by-bit division by the polynomial, on
-- the complemented register, whatever the starting value.
pub xz_crc32-reference :
    (buf : List ℕ) (crc : ℕ)
    → All IsByte buf
    → xz_crc32 buf crc ≡ not32 (reference_loop buf (not32 crc))
unfolding xz_crc32
xz_crc32-reference buf crc h = ap not32 (crc_loop-reference_loop buf (not32 crc) h)
