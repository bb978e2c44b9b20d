-- ===== src/Xz/Lzma2/Sequence/Reset.antt =====
-- The reset for a new Block and the order of the chunks.
use galaxys2_kernel_repack.Base.{ℕ, ◌+◌, ◌*◌, ◌^◌, ◌≡◌, refl, sym, subst, arith, bit_and}
use galaxys2_kernel_repack.Base.{Bool, true, false, ltb, if_has, not, ◌&&◌}
use galaxys2_kernel_repack.Xz.Types.{XzRet, ok}
use galaxys2_kernel_repack.Xz.Dict.{Dictionary}
use galaxys2_kernel_repack.Xz.Lzma.Bounds.{IsLzma}
use galaxys2_kernel_repack.Xz.Lzma2.{Lzma2, Seq, control}
use galaxys2_kernel_repack.Xz.Lzma2.Sequence.{IsFilled, IsAt, IsChunked}
use galaxys2_kernel_repack.Xz.Lzma2.{xz_dec_lzma2_reset}
use galaxys2_kernel_repack.Base.Bytes.{u32}
use galaxys2_kernel_repack.Base.{◌/◌}
use galaxys2_kernel_repack.Xz.Types.{is_multi, is_dynalloc}

-- Where a reset of the dictionary is wanted, the LZMA decoder is not in use.
waiting :
    {t : Lzma2}
    → t.sequence ≡ control
    → t.need_dict_reset ≡ true
    → IsFilled t.temp_buf t.temp_size t.lzma.rc.input t.lzma.mem
    → IsChunked t
waiting {t} at wanted filled =
    subst (λ (q : Seq). IsAt q t) (sym at)
      (record {
        filled = filled;
        begins = λ _. refl;
        order = λ _ e. cc;
        ready = λ e.
            idle t.need_props (subst (λ (x : Bool). (not t.need_props && not x) ≡ true) wanted e);
      })
  where
    idle : (x : Bool) → (not x && not true) ≡ true → IsLzma t.lzma
    idle true e = cc
    idle false e = cc

-- After the reset for a new Block, the LZMA decoder is not in use, whatever its memory holds.
pub xz_dec_lzma2_reset-IsChunked :
    (vmalloc : ℕ → Bool) (s : Lzma2) (props : ℕ)
    → IsFilled s.temp_buf s.temp_size s.lzma.rc.input s.lzma.mem
    → (xz_dec_lzma2_reset vmalloc s props).0 ≡ ok
    → IsChunked (xz_dec_lzma2_reset vmalloc s props).1
unfolding xz_dec_lzma2_reset
xz_dec_lzma2_reset-IsChunked vmalloc s props h =
    let size = u32 ((2 + bit_and props 1) * 2 ^ (props / 2 + 11)) in
    let d : Dictionary = record (s.lzma.dict) { size = size } in
    if_has P (ltb 39 props) (λ _ e. cc)
      (λ _.
        if_has P (is_multi d.mode)
          (λ _.
            if_has P (ltb d.size_max size) (λ _ e. cc)
              (λ _.
                if_has P (is_dynalloc d.mode && ltb d.allocated size)
                  (λ _. if_has P (vmalloc size) (λ _ e. waiting refl refl filled) (λ _ e. cc))
                  (λ _ e. waiting refl refl filled)))
          (λ _ e. waiting refl refl filled))
  where
    P : XzRet × Lzma2 → Type 0
    P r = r.0 ≡ ok → IsChunked r.1

    filled : IsFilled s.temp_buf 0 s.lzma.rc.input s.lzma.mem
    filled = record { temp = h.temp; small = omega arith; input = h.input; bytes = h.bytes }
