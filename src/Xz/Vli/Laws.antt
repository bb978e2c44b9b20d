-- ===== src/Xz/Vli/Laws.antt =====
-- One round of `dec_vli` in plain arithmetic.
use galaxys2_kernel_repack.Base.{ℕ, ◌+◌, ◌*◌, ◌/◌, ◌%◌, ◌^◌, ◌<◌, ◌≤◌, bit_and, bit_or}
use galaxys2_kernel_repack.Base.{
  ◌≡◌, refl, ap, ◌∙◌, arith, List, [], ◌∷◌, length, ◌==◌, if◌then◌else◌,
}
use galaxys2_kernel_repack.Xz.Types.{stream_end}
use galaxys2_kernel_repack.Base.Bytes.{IsByte}
use galaxys2_kernel_repack.Base.Bits
use galaxys2_kernel_repack.Xz.Vli.{add_group, vli_loop, dec_vli}
use native.Mathlib.Numerals.{towards_suc}
use native.Mathlib.Nat.{pow-le-pow_right, mul-le-mul, mod-eq_of_lt}

-- The continuation bit of a byte.
pub top_bit : (b : ℕ) → IsByte b → bit_and b 0x80 ≡ b / 128 * 128
top_bit b h = omega (arith, Bits.bit_and-bit 7 b)

pub pow_seven : (p : ℕ) → 2 ^ (p + 7) ≡ 128 * 2 ^ p
pow_seven p = simp towards_suc (omega arith)

-- With `pos` below 57 and the value below `2 ^ pos`, the group is added above the value.
pub add_group-add :
    (vli byte pos : ℕ)
    → vli < 2 ^ pos
    → pos ≤ 56
    → add_group vli byte pos ≡ vli + byte % 128 * 2 ^ pos
add_group-add vli byte pos h hp =
    ap (λ t. bit_or vli (t * 2 ^ pos % 2 ^ 64)) (Bits.bit_and-mask 7 byte 0x7f refl)
    ∙ ap (bit_or vli) (mod-eq_of_lt fits)
    ∙ Bits.bit_or-add pos vli (byte % 128) h
  where
    fits : byte % 128 * 2 ^ pos < 2 ^ 64
    fits =
        let low : byte % 128 ≤ 127 = omega arith in
        let high : 2 ^ pos ≤ 2 ^ 56 = pow-le-pow_right (omega arith) hp in
        omega (arith, mul-le-mul low high)

-- A call moves forward inside its input, and past a byte if it returns a number.
vli_loop_bounds :
    (bytes : List ℕ) (in_pos pos vli : ℕ)
    → let r = vli_loop bytes in_pos pos vli in
      (in_pos ≤ r.in_pos)
      × ((r.in_pos ≤ in_pos + length bytes) × (r.ret ≡ stream_end → in_pos < r.in_pos))
unfolding vli_loop
vli_loop_bounds [] in_pos pos vli = ground arith
vli_loop_bounds (b ∷ bytes) in_pos pos vli =
    ground (arith, vli_loop_bounds bytes (in_pos + 1) (pos + 7) (add_group vli b pos))

pub dec_vli_bounds :
    (bytes : List ℕ) (in_pos pos vli : ℕ)
    → let r = dec_vli bytes in_pos pos vli in
      (in_pos ≤ r.in_pos)
      × ((r.in_pos ≤ in_pos + length bytes) × (r.ret ≡ stream_end → in_pos < r.in_pos))
unfolding dec_vli
dec_vli_bounds bytes in_pos pos vli = vli_loop_bounds bytes in_pos pos (if pos == 0 then 0 else vli)
