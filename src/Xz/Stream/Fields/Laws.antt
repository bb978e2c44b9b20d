-- ===== src/Xz/Stream/Fields/Laws.antt =====
-- `fill_temp` and `crc32_validate` move forward inside the input; what `crc32_validate` accepts.
use galaxys2_kernel_repack.Base.{
  ℕ, zero, suc, ◌+◌, ◌-◌, ◌/◌, ◌%◌, ◌^◌, ◌≤◌, ◌<◌, ◌≡◌, ◌↔◌, refl, ap, ◌∙◌, arith, true, false, min,
}
use galaxys2_kernel_repack.Base.{List, [], ◌∷◌, ◌++◌, take, drop, length}
use galaxys2_kernel_repack.Base.Bits
use galaxys2_kernel_repack.Xz.Types.{stream_end, XzBuf, in_size, in_byte}
use galaxys2_kernel_repack.Xz.Vli.Laws.{dec_vli_bounds}
use galaxys2_kernel_repack.Xz.Vli.RoundTrip.{encoding, dec_vli-encoding}
use galaxys2_kernel_repack.Xz.Stream.{XzDec, put_bytes}
use galaxys2_kernel_repack.Xz.Stream.Fields.{
  input_vli, fill_temp, validate_loop, validate_rounds, crc32_validate,
}

-- From one buffer position to a later one of the same input.
pub record Moves (b b' : XzBuf) : Type 0 where
  pub forward : b.in_pos ≤ b'.in_pos
  pub bound : b'.in_pos ≤ in_size b
  pub same : b'.input ≡ b.input

pub Moves-refl : (b : XzBuf) → b.in_pos ≤ in_size b → Moves b b
Moves-refl b h = record { forward = omega arith; bound = h; same = refl }

pub Moves-trans : {a b c : XzBuf} → Moves a b → Moves b c → Moves a c
Moves-trans {a} m n = record {
  forward = omega (arith, m.forward, n.forward);
  bound = rw m.same at n.bound;
  same = n.same ∙ m.same;
}

pub fill_temp-Moves : (s : XzDec) (b : XzBuf) → b.in_pos ≤ in_size b → Moves b (fill_temp s b).buf
unfolding fill_temp
fill_temp-Moves s b h = ground arith

-- A full `temp` took what was missing.
pub fill_temp_full :
    (s : XzDec) (b : XzBuf)
    → (fill_temp s b).full ≡ true
    → s.temp_pos ≤ s.temp_size
    → (fill_temp s b).buf.in_pos ≡ b.in_pos + (s.temp_size - s.temp_pos)
unfolding fill_temp
fill_temp_full s b e h = ground arith

-- The 12 bytes of a Stream Header are taken at once where they are in the input; fewer are all taken.
pub fill_temp_header :
    (s : XzDec) (b : XzBuf)
    → s.temp_pos ≡ 0
    → s.temp_size ≡ 12
    → b.in_pos + 12 ≤ in_size b
    → ((fill_temp s b).full ≡ true)
      × ((fill_temp s b).dec.temp_buf ≡ put_bytes s.temp_buf 0 (take 12 (drop b.in_pos b.input)))
      × ((fill_temp s b).dec.mode ≡ s.mode)
unfolding fill_temp
fill_temp_header s b empty size room =
    let all : min (in_size b - b.in_pos) (s.temp_size - s.temp_pos) ≡ 12 =
      ground (arith, empty, size, room) in
    (ground arith, rw (fill_temp, all, empty) (ground arith), ground arith)

pub fill_temp_short :
    (s : XzDec) (b : XzBuf)
    → s.temp_pos ≡ 0
    → s.temp_size ≡ 12
    → b.in_pos ≤ in_size b
    → in_size b < b.in_pos + 12
    → let r = fill_temp s b in
      (r.full ≡ false)
      × (r.buf.in_pos ≡ in_size b)
      × (r.buf.input ≡ b.input)
      × (r.dec.mode ≡ s.mode)
unfolding fill_temp
fill_temp_short s b empty size inside short = ground arith

validate_loop-Moves :
    (left : ℕ) (s : XzDec) (b : XzBuf) → b.in_pos ≤ in_size b → Moves b (validate_loop left s b).buf
unfolding validate_loop
validate_loop-Moves zero s b h = Moves-refl b h
validate_loop-Moves (suc left) s b h = ground (
  arith,
  validate_loop-Moves left (record s { pos = s.pos + 8 }) (record b { in_pos = b.in_pos + 1 }),
)

pub crc32_validate-Moves :
    (s : XzDec) (b : XzBuf) → b.in_pos ≤ in_size b → Moves b (crc32_validate s b).buf
unfolding crc32_validate
crc32_validate-Moves s b h = validate_loop-Moves (validate_rounds s.pos) s b h

pub length-drop : (n : ℕ) (xs : List ℕ) → length (drop n xs) ≡ length xs - n
length-drop zero xs = ground arith
length-drop (suc n) [] = ground arith
length-drop (suc n) (x ∷ xs) = ground (arith, length-drop n xs)

pub input_vli-Moves :
    (s : XzDec) (b : XzBuf)
    → b.in_pos ≤ in_size b
    → Moves b (input_vli s b).buf
      × ((input_vli s b).ret ≡ stream_end → b.in_pos < (input_vli s b).buf.in_pos)
unfolding input_vli
input_vli-Moves s b h = ground (
  arith,
  dec_vli_bounds (drop b.in_pos b.input) b.in_pos s.pos s.vli,
  length-drop b.in_pos b.input,
)

-- From its first byte and with its four bytes in the input, a CRC32 is accepted exactly if they are those of the
-- computed one, the lowest first.
pub crc32_validate_accepts :
    (s : XzDec) (b : XzBuf)
    → s.pos ≡ 0
    → b.in_pos + 4 ≤ in_size b
    → ((crc32_validate s b).ret ≡ stream_end) ↔ (
        (in_byte b b.in_pos ≡ s.crc32 % 256)
        × ((in_byte b (b.in_pos + 1) ≡ s.crc32 / 256 % 256)
            × ((in_byte b (b.in_pos + 2) ≡ s.crc32 / 65536 % 256)
                × (in_byte b (b.in_pos + 3) ≡ s.crc32 / 16777216 % 256))))
unfolding crc32_validate validate_loop
crc32_validate_accepts s b start room = rw start (
    ground (
      arith,
      Bits.bit_and-mask 8 (s.crc32 / 2 ^ 0) 0xff refl,
      Bits.bit_and-mask 8 (s.crc32 / 2 ^ 8) 0xff refl,
      Bits.bit_and-mask 8 (s.crc32 / 2 ^ 16) 0xff refl,
      Bits.bit_and-mask 8 (s.crc32 / 2 ^ 24) 0xff refl,
    ))

pub drop-append : (n : ℕ) (xs ys zs : List ℕ) → drop n xs ≡ ys ++ zs → drop (n + length ys) xs ≡ zs
drop-append zero xs [] zs e = e
drop-append zero [] (y ∷ ys) zs e = ground (arith, e)
drop-append zero (x ∷ xs) (y ∷ ys) zs e = ground (arith, e, drop-append zero xs ys zs)
drop-append (suc n) [] [] zs e = ground (arith, e)
drop-append (suc n) [] (y ∷ ys) zs e = ground (arith, e)
drop-append (suc n) (x ∷ xs) ys zs e =
    let shift : suc n + length ys ≡ suc (n + length ys) = omega arith in
    ap (λ (k : ℕ). drop k (x ∷ xs)) shift ∙ drop-append n xs ys zs e

-- A number of the Index, spelled from the position on.
pub input_vli-encoding :
    (v : ℕ) (s : XzDec) (b : XzBuf) (rest : List ℕ)
    → s.pos ≡ 0
    → v < 2 ^ 63
    → drop b.in_pos b.input ≡ encoding 8 v ++ rest
    → input_vli s b ≡ record {
      ret = stream_end;
      dec = record s { pos = 0; vli = v };
      buf = record b { in_pos = b.in_pos + length (encoding 8 v) };
    }
unfolding input_vli
input_vli-encoding v s b rest start small spelled =
    rw (start, spelled, dec_vli-encoding v b.in_pos s.vli rest small) refl
