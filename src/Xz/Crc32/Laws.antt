-- ===== src/Xz/Crc32/Laws.antt =====
-- The checksum over a split buffer, its range, and what it detects.
use galaxys2_kernel_repack.Base.{ℕ, zero, suc, ◌+◌, ◌*◌, ◌/◌, ◌^◌, ◌<◌, ◌≤◌, bit_xor}
use galaxys2_kernel_repack.Base.{◌≡◌, ◌≢◌, refl, sym, ap, ◌∙◌, arith, List, [], ◌∷◌, ◌++◌, All}
use galaxys2_kernel_repack.Base.{ltb, if◌then◌else◌}
use galaxys2_kernel_repack.Base.Bytes.{IsByte, IsU32, not32}
use galaxys2_kernel_repack.Base.Bits
use galaxys2_kernel_repack.Xz.Crc32.{poly, crc_loop, xz_crc32}
use galaxys2_kernel_repack.Xz.Crc32.Reference.{
  shift_bit, shift_bits, reference_loop, crc_loop-reference_loop,
}

shift_bit-lt : (r : ℕ) → IsU32 r → IsU32 (shift_bit r)
unfolding shift_bit
shift_bit-lt r h = ground (arith, Bits.bit_xor-lt 32 (r / 2) poly (omega arith) (omega arith))

shift_bits-lt : (n r : ℕ) → IsU32 r → IsU32 (shift_bits n r)
unfolding shift_bits
shift_bits-lt zero r h = h
shift_bits-lt (suc n) r h = shift_bits-lt n (shift_bit r) (shift_bit-lt r h)

register_lt : (b crc : ℕ) → IsByte b → IsU32 crc → IsU32 (bit_xor crc b)
register_lt b crc hb hc = Bits.bit_xor-lt 32 crc b hc (omega arith)

reference_loop-lt :
    (buf : List ℕ) (crc : ℕ) → All IsByte buf → IsU32 crc → IsU32 (reference_loop buf crc)
unfolding reference_loop
reference_loop-lt [] crc h hc = hc
reference_loop-lt (b ∷ rest) crc (hb, h) hc =
    reference_loop-lt rest (shift_bits 8 (bit_xor crc b)) h
      (shift_bits-lt 8 (bit_xor crc b) (register_lt b crc hb hc))

pub xz_crc32-lt : (buf : List ℕ) (crc : ℕ) → IsU32 (xz_crc32 buf crc)
unfolding xz_crc32
xz_crc32-lt buf crc = omega arith

crc_loop-append :
    (front back : List ℕ) (crc : ℕ)
    → crc_loop (front ++ back) crc ≡ crc_loop back (crc_loop front crc)
unfolding crc_loop
crc_loop-append [] back crc = refl
crc_loop-append (b ∷ front) back crc = crc_loop-append front back _

not32-not32 : (a : ℕ) → IsU32 a → not32 (not32 a) ≡ a
not32-not32 a h = omega arith

-- The checksum of a buffer can be computed piece by piece: the checksum of the first piece is
-- the starting value for the second. The pieces are bytes, and the start is a 32-bit word.
pub xz_crc32-append :
    (front back : List ℕ) (crc : ℕ)
    → All IsByte front
    → IsU32 crc
    → xz_crc32 (front ++ back) crc ≡ xz_crc32 back (xz_crc32 front crc)
unfolding xz_crc32
xz_crc32-append front back crc h hc = ap not32 (
    crc_loop-append front back (not32 crc)
    ∙ ap (crc_loop back) (sym (not32-not32 (crc_loop front (not32 crc)) in_range)))
  where
    in_range : IsU32 (crc_loop front (not32 crc))
    in_range =
        let e = crc_loop-reference_loop front (not32 crc) h in
        let bound = reference_loop-lt front (not32 crc) h (omega arith) in omega arith

-- The top bit of the polynomial keeps the parity of the register, so a bit step loses nothing.
unshift : ℕ → ℕ
unshift s = if ltb s (2 ^ 31) then s * 2 else bit_xor s poly * 2 + 1

poly_top : (x : ℕ) → x < 2 ^ 31 → 2 ^ 31 ≤ bit_xor x poly
poly_top x h = omega (
  arith,
  Bits.bit_xor_assoc x 0x6db88320 (1 * 2 ^ 31),
  Bits.bit_xor-add 31 (bit_xor x 0x6db88320) 1 (Bits.bit_xor-lt 31 x 0x6db88320 h (omega arith)),
)

unshift-shift_bit : (r : ℕ) → IsU32 r → unshift (shift_bit r) ≡ r
unfolding unshift shift_bit
unshift-shift_bit r h = ground (
  arith,
  poly_top (r / 2) (omega arith),
  Bits.bit_xor_assoc (r / 2) poly poly,
  Bits.bit_xor_self poly,
  Bits.bit_xor-zero (r / 2),
)

shift_bits-injective : (n r s : ℕ) → IsU32 r → IsU32 s → shift_bits n r ≡ shift_bits n s → r ≡ s
unfolding shift_bits
shift_bits-injective zero r s hr hs e = e
shift_bits-injective (suc n) r s hr hs e =
    let same =
      shift_bits-injective n (shift_bit r) (shift_bit s) (shift_bit-lt r hr) (shift_bit-lt s hs)
        e in
    sym (unshift-shift_bit r hr) ∙ ap unshift same ∙ unshift-shift_bit s hs

reference_loop-injective :
    (buf : List ℕ) (r s : ℕ)
    → All IsByte buf
    → IsU32 r
    → IsU32 s
    → reference_loop buf r ≡ reference_loop buf s
    → r ≡ s
unfolding reference_loop
reference_loop-injective [] r s h hr hs e = e
reference_loop-injective (b ∷ rest) r s (hb, h) hr hs e =
    let wr = register_lt b r hb hr in
    let ws = register_lt b s hb hs in
    let after =
      reference_loop-injective rest (shift_bits 8 (bit_xor r b)) (shift_bits 8 (bit_xor s b)) h
        (shift_bits-lt 8 (bit_xor r b) wr) (shift_bits-lt 8 (bit_xor s b) ws) e in
    let mixed = shift_bits-injective 8 (bit_xor r b) (bit_xor s b) wr ws after in
    Bits.bit_xor_cancel b r s (Bits.bit_xor_comm b r ∙ mixed ∙ Bits.bit_xor_comm s b)

reference_loop-append :
    (front back : List ℕ) (crc : ℕ)
    → reference_loop (front ++ back) crc ≡ reference_loop back (reference_loop front crc)
unfolding reference_loop
reference_loop-append [] back crc = refl
reference_loop-append (b ∷ front) back crc = reference_loop-append front back _

All-append : (front back : List ℕ) → All IsByte front → All IsByte back → All IsByte (front ++ back)
All-append [] back h k = k
All-append (b ∷ front) back (hb, h) k = (hb, All-append front back h k)

not32_injective : (a b : ℕ) → IsU32 a → IsU32 b → not32 a ≡ not32 b → a ≡ b
not32_injective a b ha hb e = omega arith

-- A damaged byte changes the checksum: two buffers of bytes that differ in exactly one place
-- have different checksums, whatever surrounds the place and from any 32-bit starting value.
pub xz_crc32-detects :
    (front back : List ℕ) (b c crc : ℕ)
    → All IsByte front
    → All IsByte back
    → IsByte b
    → IsByte c
    → IsU32 crc
    → b ≢ c
    → xz_crc32 (front ++ (b ∷ back)) crc ≢ xz_crc32 (front ++ (c ∷ back)) crc
unfolding xz_crc32
xz_crc32-detects front back b c crc hf hk hb hc hcrc ne e = ne same_byte
  where
    start : ℕ
    start = reference_loop front (not32 crc)

    start_lt : IsU32 start
    start_lt = reference_loop-lt front (not32 crc) hf (omega arith)

    as_reference :
        (x : ℕ)
        → IsByte x
        → (crc_loop (front ++ (x ∷ back)) (not32 crc) ≡ reference_loop (x ∷ back) start)
          × IsU32 (reference_loop (x ∷ back) start)
    as_reference x hx = (
      crc_loop-reference_loop (front ++ (x ∷ back)) (not32 crc)
            (All-append front (x ∷ back) hf (hx, hk))
          ∙ reference_loop-append front (x ∷ back) (not32 crc),
      reference_loop-lt (x ∷ back) start (hx, hk) start_lt,
    )

    same_end : reference_loop (b ∷ back) start ≡ reference_loop (c ∷ back) start
    same_end =
        let (eb, rb) = as_reference b hb in
        let (ec, rc) = as_reference c hc in
        not32_injective (reference_loop (b ∷ back) start) (reference_loop (c ∷ back) start) rb rc
          (ap not32 (sym eb) ∙ e ∙ ap not32 ec)

    same_byte : b ≡ c
    same_byte =
        let wb = register_lt b start hb start_lt in
        let wc = register_lt c start hc start_lt in
        Bits.bit_xor_cancel start b c (
          shift_bits-injective 8 (bit_xor start b) (bit_xor start c) wb wc (
            reference_loop-injective back (shift_bits 8 (bit_xor start b))
              (shift_bits 8 (bit_xor start c)) hk (shift_bits-lt 8 (bit_xor start b) wb)
              (shift_bits-lt 8 (bit_xor start c) wc) (unfold reference_loop in same_end)))
