-- ===== src/Xz/Stream/Main/Magic.antt =====
-- Inputs that end or fail in the Stream Header.
use galaxys2_kernel_repack.Base.{
  ℕ, zero, suc, ◌+◌, ◌-◌, ◌<◌, ◌≤◌, ◌≡◌, ◌≢◌, refl, ap, sym, ◌∙◌, arith, true,
}
use galaxys2_kernel_repack.Base.{List, [], ◌∷◌, take, drop, length}
use galaxys2_kernel_repack.Base.Bytes.{update}
use galaxys2_kernel_repack.Xz.Types.{
  XzRet, stream_end, is_single, data_error, ok, format_error, XzBuf, in_size,
}
use galaxys2_kernel_repack.Xz.Stream.{
  Chain, XzDec, Seq, array_bytes, put_bytes, stream_header, block_start,
}
use galaxys2_kernel_repack.Xz.Stream.Fields.{fill_temp}
use galaxys2_kernel_repack.Xz.Stream.Fields.Laws.{length-drop, fill_temp_header, fill_temp_short}
use galaxys2_kernel_repack.Xz.Stream.Header.{header_magic, xz_dec_reset}
use galaxys2_kernel_repack.Xz.Stream.Header.Laws.{dec_stream_header_other, xz_dec_reset_fresh}
use galaxys2_kernel_repack.Xz.Stream.Block.{Run}
use galaxys2_kernel_repack.Xz.Stream.Main.{
  give, Pass, finish_run, xz_dec_run, main_loop, switch, stream_header_case, dec_main,
}
use mathlib.Core.Option.{Option, some}

put_bytes_before : (xs : List ℕ) (buf : ℕ → ℕ) (i j : ℕ) → j < i → put_bytes buf i xs j ≡ buf j
unfolding put_bytes
put_bytes_before [] buf i j h = refl
put_bytes_before (x ∷ xs) buf i j h =
    put_bytes_before xs (update buf i x) (i + 1) j (omega (arith, h)) ∙ ground (arith, h)

-- What was put into an array is read back.
pub array_bytes-put_bytes :
    (n : ℕ) (xs : List ℕ) (buf : ℕ → ℕ) (i : ℕ)
    → n ≤ length xs
    → array_bytes (put_bytes buf i xs) i n ≡ take n xs
unfolding array_bytes put_bytes
array_bytes-put_bytes zero xs buf i h = ground arith
array_bytes-put_bytes (suc n) [] buf i h = absurd (omega arith)
array_bytes-put_bytes (suc n) (x ∷ xs) buf i h =
    let first = put_bytes_before xs (update buf i x) (i + 1) i (omega arith) in
    let rest = array_bytes-put_bytes n xs (update buf i x) (i + 1) (omega (arith, h)) in
    ground (arith, first, rest)

take_nil : (n : ℕ) → take {A = ℕ} n [] ≡ []
take_nil zero = refl
take_nil (suc n) = refl

take-take : (n k : ℕ) (xs : List ℕ) → take n (take (n + k) xs) ≡ take n xs
take-take zero k xs = ground arith
take-take (suc n) k [] = ap (take (suc n)) (take_nil (suc n + k))
take-take (suc n) k (x ∷ xs) =
    let more : suc n + k ≡ suc (n + k) = omega arith in rw more (ap (◌∷◌ x) (take-take n k xs))

length-take : (n : ℕ) (xs : List ℕ) → n ≤ length xs → length (take n xs) ≡ n
length-take zero xs h = ground arith
length-take (suc n) [] h = absurd (omega arith)
length-take (suc n) (x ∷ xs) h = ground (arith, length-take n xs (omega (arith, h)))

-- A decoder at the start of a stream.
record IsFresh (s : XzDec) : Type 0 where
  place : s.sequence ≡ stream_header
  empty : s.temp_pos ≡ 0
  size : s.temp_size ≡ 12

-- The bytes that `temp` holds where 12 of them are in the input.
temp_header :
    (s : XzDec) (b : XzBuf)
    → IsFresh s
    → b.in_pos + 12 ≤ in_size b
    → array_bytes (fill_temp s b).dec.temp_buf 0 6 ≡ take 6 (drop b.in_pos b.input)
temp_header s b h room =
    let xs = drop b.in_pos b.input in
    let long : 12 ≤ length xs = omega (arith, room, length-drop b.in_pos b.input) in
    let six : 6 ≤ length (take 12 xs) = omega (arith, length-take 12 xs long) in
    ap (λ (t : ℕ → ℕ). array_bytes t 0 6) (fill_temp_header s b h.empty h.size room).1
    ∙ (array_bytes-put_bytes 6 (take 12 xs) s.temp_buf 0 six ∙ take-take 6 6 xs)

module _ (c : Chain) where
  -- Twelve bytes without the magic ones end the pass, and fewer bytes are all taken and wait for more.
  stream_header_case_other :
      (s : XzDec) (f : c.Filters) (b : XzBuf)
      → IsFresh s
      → b.in_pos + 12 ≤ in_size b
      → take 6 (drop b.in_pos b.input) ≢ header_magic
      → let p = stream_header_case c s f b in (p.turn ≡ give format_error) × (p.dec.mode ≡ s.mode)
  unfolding stream_header_case
  stream_header_case_other s f b h room other =
      let full = fill_temp_header s b h.empty h.size room in
      let t : XzDec = record ((fill_temp s b).dec) { sequence = block_start } in
      let judged = dec_stream_header_other t (λ e. other (sym (temp_header s b h room) ∙ e)) in
      rw (stream_header_case, full.0, judged) (refl, full.2)

  stream_header_case_short :
      (s : XzDec) (f : c.Filters) (b : XzBuf)
      → IsFresh s
      → b.in_pos ≤ in_size b
      → in_size b < b.in_pos + 12
      → let p = stream_header_case c s f b in
        (p.turn ≡ give ok)
        × (p.buf.in_pos ≡ in_size b)
        × (p.buf.input ≡ b.input)
        × (p.dec.mode ≡ s.mode)
  unfolding stream_header_case
  stream_header_case_short s f b h inside short =
      let (full, taken, same, mode) = fill_temp_short s b h.empty h.size inside short in
      rw (stream_header_case, full) (refl, taken, same, mode)

  -- A pass that returns ends the loop.
  abbrev returned : XzRet → Pass c → Run c
  returned ret p = record { ret = ret; dec = p.dec; filters = p.filters; buf = p.buf }

  main_loop_stops :
      (fuel : ℕ) (s : XzDec) (f : c.Filters) (b : XzBuf) (p : Pass c) (ret : XzRet)
      → switch c s.sequence s f b ≡ p
      → p.turn ≡ give ret
      → main_loop c (suc fuel) s f b ≡ some (returned ret p)
  unfolding main_loop
  main_loop_stops fuel s f b p ret went stops =
      rw (main_loop, went, stops) (ap (λ (q : Pass c). some (returned ret q)) went)

  dec_main_stops :
      (s : XzDec) (f : c.Filters) (b : XzBuf) (ret : XzRet)
      → s.sequence ≡ stream_header
      → let p = stream_header_case c (record s { in_start = b.in_pos }) f b in
        p.turn ≡ give ret → dec_main c s f b ≡ some (returned ret p)
  unfolding dec_main switch
  dec_main_stops s f b ret place stops =
      let start : XzDec = record s { in_start = b.in_pos } in
      let left = in_size b - b.in_pos + 2 in
      let fuel : in_size b - b.in_pos + 3 ≡ suc left = omega arith in
      ap (λ (n : ℕ). main_loop c n start f b) fuel
      ∙ main_loop_stops left start f b (stream_header_case c start f b) ret
          (ap (λ (q : Seq). switch c q start f b) place) stops

  -- What single-call mode makes of a result that is not `XZ_STREAM_END`.
  finish_run_single :
      (b : XzBuf) (r : Run c)
      → is_single r.dec.mode ≡ true
      → r.ret ≢ stream_end
      → let q = finish_run c b r in
        (r.ret ≢ ok → q.ret ≡ r.ret)
        × (r.ret ≡ ok → r.buf.in_pos ≡ in_size r.buf → q.ret ≡ data_error)
        × (q.buf.in_pos ≡ b.in_pos)
        × (q.buf.out_pos ≡ b.out_pos)
  unfolding finish_run
  finish_run_single b r single unfinished = ground arith

  -- A call that returned with an error, the positions of the buffers as before.
  pub record Fails (ret : XzRet) (b : XzBuf) (o : Option (Run c)) : Type 0 where
    pub run : Run c
    pub finished : o ≡ some run
    pub result : run.ret ≡ ret
    pub in_pos : run.buf.in_pos ≡ b.in_pos
    pub out_pos : run.buf.out_pos ≡ b.out_pos

  reset_start : (s : XzDec) (b : XzBuf) → IsFresh (record (xz_dec_reset s) { in_start = b.in_pos })
  reset_start s b =
      let (place, empty, size, mode) = xz_dec_reset_fresh s in
      record { place = place; empty = empty; size = size }

  xz_dec_run-finish :
      (s : XzDec) (f : c.Filters) (b : XzBuf) (r : Run c)
      → is_single s.mode ≡ true
      → dec_main c (xz_dec_reset s) f b ≡ some r
      → xz_dec_run c s f b ≡ some (finish_run c b r)
  unfolding xz_dec_run
  xz_dec_run-finish s f b r single ran = rw (xz_dec_run, single, ran) refl

  -- Whatever the filters are, a call in single-call mode on a buffer whose first twelve bytes do not
  -- begin with the magic bytes returns `XZ_FORMAT_ERROR`, and on fewer than twelve bytes
  -- `XZ_DATA_ERROR`. The positions of the buffers are those from before.
  pub xz_dec_run_rejects :
      (s : XzDec) (f : c.Filters) (b : XzBuf)
      → is_single s.mode ≡ true
      → b.in_pos ≤ in_size b
      → (b.in_pos + 12 ≤ in_size b
          → take 6 (drop b.in_pos b.input) ≢ header_magic
          → Fails format_error b (xz_dec_run c s f b))
        × (in_size b < b.in_pos + 12 → Fails data_error b (xz_dec_run c s f b))
  xz_dec_run_rejects s f b single inside =
      let t = xz_dec_reset s in
      let start : XzDec = record t { in_start = b.in_pos } in
      let p = stream_header_case c start f b in
      let (place, empty, size, kept) = xz_dec_reset_fresh s in
      (
        λ room other.
            let (turn, mode) = stream_header_case_other start f b (reset_start s b) room other in
            let ends =
              finish_run_single b (returned format_error p) (ap is_single (mode ∙ kept) ∙ single)
                (λ e. cc) in
            record {
              run = finish_run c b (returned format_error p);
              finished =
                  xz_dec_run-finish s f b (returned format_error p) single
                    (dec_main_stops t f b format_error place turn);
              result = ends.0 (λ e. cc);
              in_pos = ends.2;
              out_pos = ends.3;
            },
        λ short.
            let (turn, taken, same, mode) =
              stream_header_case_short start f b (reset_start s b) inside short in
            let ends =
              finish_run_single b (returned ok p) (ap is_single (mode ∙ kept) ∙ single) (λ e. cc) in
            record {
              run = finish_run c b (returned ok p);
              finished =
                  xz_dec_run-finish s f b (returned ok p) single
                    (dec_main_stops t f b ok place turn);
              result = ends.1 refl (taken ∙ ap length (sym same));
              in_pos = ends.2;
              out_pos = ends.3;
            },
      )
