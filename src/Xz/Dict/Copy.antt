-- ===== src/Xz/Dict/Copy.antt =====
-- Copying chunks that are stored uncompressed, and flushing the dictionary to the output.
use galaxys2_kernel_repack.Base.{ℕ, zero, suc, ◌+◌, ◌-◌, ◌<◌, ◌≤◌, ◌≡◌, ◌≢◌, refl, sym, ◌∙◌, arith}
use galaxys2_kernel_repack.Base.{◌⊎◌, inl, inr, true, false, Bool-cases}
use galaxys2_kernel_repack.Base.{
  length, get_or, take, drop, get_or-take, get_or-drop, length-take-drop,
}
use galaxys2_kernel_repack.Xz.Types.{
  is_multi, Mem, load, XzBuf, in_size, in_byte, bytes_at, store_bytes,
}
use galaxys2_kernel_repack.Xz.Types.Memory.{
  load-store_bytes_inside, load-store_bytes_other, length-bytes_at, get_or-bytes_at,
}
use galaxys2_kernel_repack.Xz.Dict.{
  Dictionary, Copied, copy_size, copy_round, uncompressed_loop, dict_uncompressed, copy_goes_on,
  dict_flush,
}
use galaxys2_kernel_repack.Xz.Dict.Invariant.{IsDict, copy_round-IsDict}

-- There is room for a byte wherever there is output: a circle is never left full, and in
-- single-call mode the dictionary is the rest of the output.
abbrev pub HasRoom : Dictionary → XzBuf → Type 0
HasRoom d b =
    ((is_multi d.mode ≡ true) × (d.pos < d.end))
    ⊎ ((is_multi d.mode ≡ false) × (b.out_size - b.out_pos ≤ d.end - d.pos))

copy_size_bounds :
    (d : Dictionary) (b : XzBuf) (left : ℕ)
    → (copy_size d b left ≤ left)
      × (copy_size d b left ≤ in_size b - b.in_pos)
      × (copy_size d b left ≤ b.out_size - b.out_pos)
      × (copy_size d b left ≤ d.end - d.pos)
unfolding copy_size
copy_size_bounds d b left = ground arith

copy_size_pos :
    (d : Dictionary) (b : XzBuf) (left : ℕ)
    → copy_goes_on b left ≡ true
    → HasRoom d b
    → 0 < copy_size d b left
unfolding copy_size
copy_size_pos d b left go room = ground arith

copy_round-HasRoom :
    (d : Dictionary) (m : Mem) (b : XzBuf) (left : ℕ)
    → IsDict d
    → HasRoom d b
    → HasRoom (copy_round d m b left).dict (copy_round d m b left).buf
unfolding copy_round
copy_round-HasRoom d m b left h room = ground (arith, copy_size_bounds d b left)

-- What the whole copy keeps and where it ends.
pub record IsCopied (b : XzBuf) (left : ℕ) (c : Copied) : Type 0 where
  pub dict_valid : IsDict c.dict
  pub ended : copy_goes_on c.buf c.left ≡ false
  pub taken : c.buf.in_pos + c.left ≡ b.in_pos + left
  pub given : c.buf.out_pos + c.left ≡ b.out_pos + left
  pub in_bound : c.buf.in_pos ≤ in_size b
  pub out_bound : c.buf.out_pos ≤ b.out_size
  pub same_input : c.buf.input ≡ b.input
  pub same_size : c.buf.out_size ≡ b.out_size

-- One round before the rest of the copy.
copy_round-moves :
    (d : Dictionary) (m : Mem) (b : XzBuf) (left : ℕ)
    → let r = copy_round d m b left in
      let n = copy_size d b left in
      (r.buf.in_pos ≡ b.in_pos + n)
      × (r.buf.out_pos ≡ b.out_pos + n)
      × (r.left ≡ left - n)
      × (r.buf.input ≡ b.input)
      × (r.buf.out_size ≡ b.out_size)
unfolding copy_round
copy_round-moves d m b left = (refl, refl, refl, refl, refl)

IsCopied-after :
    (d : Dictionary) (m : Mem) (b : XzBuf) (left : ℕ) {c : Copied}
    → IsCopied (copy_round d m b left).buf (copy_round d m b left).left c
    → IsCopied b left c
IsCopied-after d m b left rest =
    let (i, o, l, same, size) = copy_round-moves d m b left in
    let (le, li, lo, le') = copy_size_bounds d b left in
    record {
      dict_valid = rest.dict_valid;
      ended = rest.ended;
      taken = omega (arith, rest.taken);
      given = omega (arith, rest.given);
      in_bound = rw same at rest.in_bound;
      out_bound = rw size at rest.out_bound;
      same_input = rest.same_input ∙ same;
      same_size = rest.same_size ∙ size;
    }

uncompressed_loop-IsCopied :
    (fuel : ℕ) (d : Dictionary) (m : Mem) (b : XzBuf) (left : ℕ)
    → left ≤ fuel
    → IsDict d
    → HasRoom d b
    → b.in_pos ≤ in_size b
    → b.out_pos ≤ b.out_size
    → IsCopied b left (uncompressed_loop fuel (record { dict = d; mem = m; buf = b; left = left }))
unfolding uncompressed_loop
uncompressed_loop-IsCopied zero d m b left le h room hi ho = ground arith
uncompressed_loop-IsCopied (suc fuel) d m b left le h room hi ho =
    elim (Bool-cases (copy_goes_on b left)) [
      | inl go ↦
          let r = copy_round d m b left in
          let (i, o, l, same, size) = copy_round-moves d m b left in
          let (le', li, lo, le'') = copy_size_bounds d b left in
          let some = copy_size_pos d b left go room in
          rw go (
            IsCopied-after d m b left (
              uncompressed_loop-IsCopied fuel r.dict r.mem r.buf r.left (omega arith)
                (copy_round-IsDict d m b left h) (copy_round-HasRoom d m b left h room)
                (rw same (omega arith)) (rw size (omega arith))))
      | inr stop ↦ rw stop (record {
        dict_valid = h;
        ended = stop;
        taken = refl;
        given = refl;
        in_bound = hi;
        out_bound = ho;
        same_input = refl;
        same_size = refl;
      })
    ]

-- With a valid dictionary, the positions inside the buffers, and room for a byte in the dictionary
-- (in single-call mode, for all of the output), the copy ends by itself: the chunk, the input or
-- the output is used up. It has advanced the input and the output by as many bytes as it took
-- off the chunk, within the bounds of both, and the dictionary stays valid.
pub dict_uncompressed-IsCopied :
    (d : Dictionary) (m : Mem) (b : XzBuf) (left : ℕ)
    → IsDict d
    → HasRoom d b
    → b.in_pos ≤ in_size b
    → b.out_pos ≤ b.out_size
    → IsCopied b left (dict_uncompressed d m b left)
unfolding dict_uncompressed
dict_uncompressed-IsCopied d m b left h room hi ho =
    uncompressed_loop-IsCopied left d m b left (omega arith) h room hi ho

-- The bytes that a round copies.
slice_byte :
    (d : Dictionary) (b : XzBuf) (left k : ℕ)
    → k < copy_size d b left
    → get_or (take (copy_size d b left) (drop b.in_pos b.input)) k 0 ≡ in_byte b (b.in_pos + k)
slice_byte d b left k hk =
    get_or-take (copy_size d b left) (drop b.in_pos b.input) k 0 hk
    ∙ get_or-drop b.in_pos b.input k 0

slice_length :
    (d : Dictionary) (b : XzBuf) (left : ℕ)
    → b.in_pos ≤ in_size b
    → length (take (copy_size d b left) (drop b.in_pos b.input)) ≡ copy_size d b left
slice_length d b left hi =
    let (le, li, lo, le') = copy_size_bounds d b left in
    length-take-drop b.in_pos (copy_size d b left) b.input (omega arith)

-- In multi-call mode, with an output apart from the dictionary, a round puts the same bytes of the input into the output and into the
-- dictionary.
pub copy_round_bytes :
    (d : Dictionary) (m : Mem) (b : XzBuf) (left k : ℕ)
    → is_multi d.mode ≡ true
    → d.buf.region ≢ b.out.region
    → b.in_pos ≤ in_size b
    → k < copy_size d b left
    → let r = copy_round d m b left in
      (load r.mem b.out (b.out_pos + k) ≡ in_byte b (b.in_pos + k))
      × (load r.mem d.buf (d.pos + k) ≡ in_byte b (b.in_pos + k))
unfolding copy_round
copy_round_bytes d m b left k multi apart hi hk =
    let xs = take (copy_size d b left) (drop b.in_pos b.input) in
    let long : k < length xs = rw (slice_length d b left hi) hk in
    rw multi (
      load-store_bytes_inside xs (store_bytes m d.buf d.pos xs) b.out b.out_pos k long
          ∙ slice_byte d b left k hk,
      load-store_bytes_other xs (store_bytes m d.buf d.pos xs) b.out d.buf b.out_pos (d.pos + k)
            (λ e. apart (sym e))
          ∙ load-store_bytes_inside xs m d.buf d.pos k long
          ∙ slice_byte d b left k hk,
    )

-- Flushing advances the output by the bytes between `start` and `pos`, and in multi-call mode
-- puts those bytes there.
pub dict_flush_bytes :
    (d : Dictionary) (m : Mem) (b : XzBuf) (k : ℕ)
    → is_multi d.mode ≡ true
    → k < d.pos - d.start
    → let f = dict_flush d m b in
      (f.count ≡ d.pos - d.start)
      × (f.buf.out_pos ≡ b.out_pos + f.count)
      × (f.dict.start ≡ f.dict.pos)
      × (load f.mem b.out (b.out_pos + k) ≡ load m d.buf (d.start + k))
unfolding dict_flush
dict_flush_bytes d m b k multi hk =
    let xs = bytes_at m d.buf d.start (d.pos - d.start) in
    let long : k < length xs = rw length-bytes_at hk in
    (
      refl,
      refl,
      refl,
      rw multi (
          load-store_bytes_inside xs m b.out b.out_pos k long
          ∙ get_or-bytes_at (d.pos - d.start) m d.buf d.start k hk),
    )
