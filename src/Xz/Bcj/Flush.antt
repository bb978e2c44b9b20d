-- ===== src/Xz/Bcj/Flush.antt =====
-- `bcj_flush` moves the filtered bytes out and the others to the front.
use galaxys2_kernel_repack.Base.{ℕ, ◌+◌, ◌-◌, ◌<◌, ◌≡◌, ◌≢◌, refl, sym, ap, ◌∙◌, arith, min}
use galaxys2_kernel_repack.Xz.Types.{bcj_temp, Mem, load, bytes_at, store_bytes, XzBuf}
use galaxys2_kernel_repack.Xz.Types.Memory.{
  load-store_bytes_inside, load-store_bytes_other, length-bytes_at, get_or-bytes_at,
}
use galaxys2_kernel_repack.Xz.Bcj.{Bcj, temp, bcj_flush}

-- Into an output that is not `temp.buf` itself, `bcj_flush` writes the filtered bytes in order, as
-- many as there is room for; what it did not write moves to the front of `temp.buf`, and the
-- numbers of filtered and of all bytes in it drop by those written.
pub bcj_flush_lem :
    (s : Bcj) (m : Mem) (b : XzBuf) (k : ℕ)
    → b.out.region ≢ bcj_temp
    → let n = min s.temp_filtered (b.out_size - b.out_pos) in
      let d = bcj_flush s m b in
      (d.buf.out_pos ≡ b.out_pos + n)
      × (d.bcj.temp_filtered ≡ s.temp_filtered - n)
      × (d.bcj.temp_size ≡ s.temp_size - n)
      × (k < n → load d.mem b.out (b.out_pos + k) ≡ load m temp k)
      × (k < s.temp_size - n → load d.mem temp k ≡ load m temp (n + k))
unfolding bcj_flush
bcj_flush_lem s m b k apart =
    let n = min s.temp_filtered (b.out_size - b.out_pos) in
    let size = s.temp_size - n in
    let xs = bytes_at m temp 0 n in
    let m1 = store_bytes m b.out b.out_pos xs in
    let ys = bytes_at m1 temp n size in
    (
      refl,
      refl,
      refl,
      λ inside.
          load-store_bytes_other ys m1 temp b.out 0 (b.out_pos + k) (λ e. apart (sym e))
          ∙ load-store_bytes_inside xs m b.out b.out_pos k
              (omega (arith, length-bytes_at n m temp 0))
          ∙ get_or-bytes_at n m temp 0 k inside
          ∙ ap (load m temp) (omega arith),
      λ inside.
          ap (load (store_bytes m1 temp 0 ys) temp) (omega arith)
          ∙ load-store_bytes_inside ys m1 temp 0 k (omega (arith, length-bytes_at size m1 temp n))
          ∙ get_or-bytes_at size m1 temp n k inside
          ∙ load-store_bytes_other xs m b.out temp b.out_pos (n + k) apart,
    )
