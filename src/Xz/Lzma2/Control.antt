-- ===== src/Xz/Lzma2/Control.antt =====
-- The control byte of a chunk, and the reset for a new Block.
use galaxys2_kernel_repack.Base.{
  ℕ, ◌+◌, ◌*◌, ◌/◌, ◌^◌, ◌≤◌, ◌≡◌, ◌⊎◌, ◌↔◌, arith, bit_and, Bool, true, false,
}
use galaxys2_kernel_repack.Base.Bytes.{u32}
use galaxys2_kernel_repack.Xz.Types.{ok, XzBuf, is_multi}
use galaxys2_kernel_repack.Xz.Lzma2.{Lzma2, again, control_byte, xz_dec_lzma2_reset}

-- The control bytes that `control_byte` goes on with: one that resets the dictionary (1 and
-- `0xe0` and above) always; the others only once a dictionary reset is not wanted any more, and of
-- them 2, those from `0xc0` on, and those from `0x80` on if the properties are known.
pub control_byte_accepts :
    (s : Lzma2) (b : XzBuf) (tmp : ℕ)
    → ((control_byte s b tmp).turn ≡ again) ↔ (
        (tmp ≡ 1)
        ⊎ ((0xe0 ≤ tmp)
            ⊎ ((s.need_dict_reset ≡ false)
                × ((tmp ≡ 2) ⊎ ((0xc0 ≤ tmp) ⊎ ((0x80 ≤ tmp) × (s.need_props ≡ false)))))))
unfolding control_byte
control_byte_accepts s b tmp = ground arith

-- A control byte that is accepted leaves no reset of the dictionary outstanding. After 1, which
-- resets the dictionary alone, properties are wanted; from `0xc0` on they come with the chunk and
-- are not wanted any more.
pub control_byte_needs :
    (s : Lzma2) (b : XzBuf) (tmp : ℕ)
    → (control_byte s b tmp).turn ≡ again
    → let s' = (control_byte s b tmp).dec in
      (s'.need_dict_reset ≡ false)
      × ((tmp ≡ 1 → s'.need_props ≡ true) × (0xc0 ≤ tmp → s'.need_props ≡ false))
unfolding control_byte
control_byte_needs s b tmp e = ground arith

-- If the reset for a new Block succeeds, the byte of the Block Header is at most 39, the dictionary
-- has the size that it announces and a reset of it is wanted. In multi-call mode the buffer ends
-- at that size, which is not above the limit of the decoder.
pub xz_dec_lzma2_reset_accepts :
    (vmalloc : ℕ → Bool) (s : Lzma2) (props : ℕ)
    → (xz_dec_lzma2_reset vmalloc s props).0 ≡ ok
    → let d = (xz_dec_lzma2_reset vmalloc s props).1.lzma.dict in
      (props ≤ 39)
      × ((d.size ≡ u32 ((2 + bit_and props 1) * 2 ^ (props / 2 + 11)))
          × ((xz_dec_lzma2_reset vmalloc s props).1.need_dict_reset ≡ true)
          × (is_multi s.lzma.dict.mode ≡ true → (d.end ≡ d.size) × (d.size ≤ d.size_max)))
unfolding xz_dec_lzma2_reset
xz_dec_lzma2_reset_accepts vmalloc s props e = ground arith

-- `allocated` is never raised: whatever memory the reset gets, the size that it records does not
-- grow.
pub xz_dec_lzma2_reset-allocated :
    (vmalloc : ℕ → Bool) (s : Lzma2) (props : ℕ)
    → (xz_dec_lzma2_reset vmalloc s props).1.lzma.dict.allocated ≤ s.lzma.dict.allocated
unfolding xz_dec_lzma2_reset
xz_dec_lzma2_reset-allocated vmalloc s props = ground arith
