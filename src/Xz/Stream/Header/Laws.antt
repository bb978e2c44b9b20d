-- ===== src/Xz/Stream/Header/Laws.antt =====
-- What `dec_stream_header` and `dec_stream_footer` accept.
use galaxys2_kernel_repack.Base.{ℕ, ◌≤◌, ◌≡◌, ◌≢◌, ◌↔◌, arith, refl, true, List, [], ◌∷◌}
use galaxys2_kernel_repack.Xz.Types.{ok, format_error}
use galaxys2_kernel_repack.Xz.Crc32.{xz_crc32}
use galaxys2_kernel_repack.Xz.Stream.{
  XzDec, array_bytes, get_le32, memeq, check_crc32, stream_header,
}
use galaxys2_kernel_repack.Xz.Stream.Header.{header_magic, dec_stream_header, xz_dec_reset}

memeq_sound : (xs ys : List ℕ) → memeq xs ys ≡ true → xs ≡ ys
unfolding memeq
memeq_sound [] [] e = ground arith
memeq_sound [] (y ∷ ys) e = ground arith
memeq_sound (x ∷ xs) [] e = ground arith
memeq_sound (x ∷ xs) (y ∷ ys) e = ground (arith, memeq_sound xs ys)

memeq_refl : (xs : List ℕ) → memeq xs xs ≡ true
unfolding memeq
memeq_refl [] = ground arith
memeq_refl (x ∷ xs) = ground (arith, memeq_refl xs)

memeq_lem : (xs ys : List ℕ) → (memeq xs ys ≡ true) ↔ (xs ≡ ys)
memeq_lem xs ys = (memeq_sound xs ys, λ e. rw e (memeq_refl ys))

-- A reset decoder waits for the 12 bytes of a Stream Header.
pub xz_dec_reset_fresh :
    (s : XzDec)
    → let t = xz_dec_reset s in
      (t.sequence ≡ stream_header) × (t.temp_pos ≡ 0) × (t.temp_size ≡ 12) × (t.mode ≡ s.mode)
unfolding xz_dec_reset
xz_dec_reset_fresh s = (refl, refl, refl, refl)

-- Other bytes than the magic ones are `XZ_FORMAT_ERROR`.
pub dec_stream_header_other :
    (s : XzDec)
    → array_bytes s.temp_buf 0 6 ≢ header_magic
    → dec_stream_header s ≡ (format_error, s)
unfolding dec_stream_header
dec_stream_header_other s h = ground (arith, h, memeq_lem (array_bytes s.temp_buf 0 6) header_magic)

-- The Stream Header is accepted exactly with its magic bytes, its CRC32, a reserved first byte of
-- the flags that is 0, and no check or CRC32 as the check. The check is then the one of the flags.
pub dec_stream_header_accepts :
    (s : XzDec)
    → (((dec_stream_header s).0 ≡ ok) ↔ (
        (array_bytes s.temp_buf 0 6 ≡ header_magic)
        × (xz_crc32 (array_bytes s.temp_buf 6 2) 0 ≡ get_le32 s.temp_buf 8)
        × (s.temp_buf 6 ≡ 0)
        × (s.temp_buf 7 ≤ check_crc32)))
      × ((dec_stream_header s).0 ≡ ok → (dec_stream_header s).1.check_type ≡ s.temp_buf 7)
unfolding dec_stream_header
dec_stream_header_accepts s =
    let magic = memeq_lem (array_bytes s.temp_buf 0 6) header_magic in
    (ground (arith, magic), λ accepted. ground (arith, accepted))
