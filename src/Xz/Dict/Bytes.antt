-- ===== src/Xz/Dict/Bytes.antt =====
-- Copying and flushing in any state of the dictionary: memory stays bytes, and the positions move
-- forward inside the same input.
use galaxys2_kernel_repack.Base.{
  ℕ, zero, suc, ◌-◌, ◌≤◌, ◌≡◌, refl, ap, ◌∙◌, arith, length, take, drop, if_has, All, All-take,
  All-drop,
}
use galaxys2_kernel_repack.Base.Bytes.{IsByte}
use galaxys2_kernel_repack.Xz.Types.{is_multi, Mem, XzBuf, in_size, bytes_at, store_bytes}
use galaxys2_kernel_repack.Xz.Types.Memory.{IsBytes, store_bytes-IsBytes, bytes_at-IsByte}
use galaxys2_kernel_repack.Xz.Dict.{
  Dictionary, Copied, copy_size, copy_round, copy_goes_on, uncompressed_loop, dict_uncompressed,
  dict_flush,
}

pub dict_flush-IsBytes :
    (d : Dictionary) (m : Mem) (b : XzBuf) → IsBytes m → IsBytes (dict_flush d m b).mem
unfolding dict_flush
dict_flush-IsBytes d m b h =
    if_has IsBytes (is_multi d.mode)
      (λ _.
        store_bytes-IsBytes (bytes_at m d.buf d.start (d.pos - d.start)) m b.out b.out_pos h
          (bytes_at-IsByte (d.pos - d.start) m d.buf d.start h))
      (λ _. h)

-- What a copy leaves.
pub record Copies (b : XzBuf) (c : Copied) : Type 0 where
  pub bytes : IsBytes c.mem
  pub forward : b.in_pos ≤ c.buf.in_pos
  pub bound : c.buf.in_pos ≤ in_size b
  pub same : c.buf.input ≡ b.input

copy_round-Copies :
    (d : Dictionary) (m : Mem) (b : XzBuf) (left : ℕ)
    → IsBytes m
    → All IsByte b.input
    → b.in_pos ≤ in_size b
    → Copies b (copy_round d m b left)
unfolding copy_round copy_size
copy_round-Copies d m b left h bytes inside =
    let n = copy_size d b left in
    let xs = take n (drop b.in_pos b.input) in
    let added =
      All-take IsByte n (drop b.in_pos b.input) (All-drop IsByte b.in_pos b.input bytes) in
    let m1 = store_bytes m d.buf d.pos xs in
    let h1 = store_bytes-IsBytes xs m d.buf d.pos h added in
    record {
      bytes =
          if_has IsBytes (is_multi d.mode) (λ _. store_bytes-IsBytes xs m1 b.out b.out_pos h1 added)
            (λ _. h1);
      forward = omega arith;
      bound = ground (arith, inside);
      same = refl;
    }

uncompressed_loop-Copies :
    (fuel : ℕ) (c : Copied)
    → IsBytes c.mem
    → All IsByte c.buf.input
    → c.buf.in_pos ≤ in_size c.buf
    → Copies c.buf (uncompressed_loop fuel c)
unfolding uncompressed_loop
uncompressed_loop-Copies zero c h bytes inside = record {
  bytes = h;
  forward = omega arith;
  bound = inside;
  same = refl;
}
uncompressed_loop-Copies (suc fuel) c h bytes inside =
    let r = copy_round c.dict c.mem c.buf c.left in
    let one = copy_round-Copies c.dict c.mem c.buf c.left h bytes inside in
    let size = ap length one.same in
    let rest =
      uncompressed_loop-Copies fuel r one.bytes (rw one.same bytes)
        (omega (arith, one.bound, size)) in
    if_has (Copies c.buf) (copy_goes_on c.buf c.left)
      (λ _. record {
        bytes = rest.bytes;
        forward = omega (arith, one.forward, rest.forward);
        bound = omega (arith, rest.bound, size);
        same = rest.same ∙ one.same;
      })
      (λ _. record { bytes = h; forward = omega arith; bound = inside; same = refl })

pub dict_uncompressed-Copies :
    (d : Dictionary) (m : Mem) (b : XzBuf) (left : ℕ)
    → IsBytes m
    → All IsByte b.input
    → b.in_pos ≤ in_size b
    → Copies b (dict_uncompressed d m b left)
unfolding dict_uncompressed
dict_uncompressed-Copies d m b left h bytes inside =
    uncompressed_loop-Copies left (record { dict = d; mem = m; buf = b; left = left }) h bytes
      inside

-- A flush takes no input.
pub dict_flush_keeps :
    (d : Dictionary) (m : Mem) (b : XzBuf)
    → ((dict_flush d m b).buf.in_pos ≡ b.in_pos) × ((dict_flush d m b).buf.input ≡ b.input)
unfolding dict_flush
dict_flush_keeps d m b = (refl, refl)
