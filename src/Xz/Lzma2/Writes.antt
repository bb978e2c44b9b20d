-- ===== src/Xz/Lzma2/Writes.antt =====
-- What a chunk writes: no more than the output has room for.
use galaxys2_kernel_repack.Base.{
  ℕ, ◌+◌, ◌-◌, ◌≤◌, ◌≡◌, refl, sym, subst, ap, ◌∙◌, arith, min, take, drop, ltb, leb, ◌==◌, ◌||◌,
  not, if◌then◌else◌, if_has, List, ◌⊎◌, inl, inr,
}
use galaxys2_kernel_repack.Base.Bytes.{sub32, IsU32}
use galaxys2_kernel_repack.Xz.Types.{XzBuf, in_size, data_error}
use galaxys2_kernel_repack.Xz.Dict.{Dictionary, dict_limit, dict_flush}
use galaxys2_kernel_repack.Xz.Dict.Invariant.{
  IsDict, dict_limit-IsDict, dict_flush-IsDict, dict_limit_keeps, dict_flush_counts,
}
use galaxys2_kernel_repack.Xz.Lzma.{Lzma, lzma_main}
use galaxys2_kernel_repack.Xz.Lzma.Writes.{IsOpen, Grows, Grows-refl, Grows-trans, lzma_main-Grows}
use galaxys2_kernel_repack.Xz.Lzma2.{
  Lzma2, Feed, goes_on, returns_true, returns_false, overwrite, zero_from, with_input, run_temp,
  temp_room, feed_temp, feed_input, keep_rest, and_then, lzma2_lzma, lzma_in_required, Pass, give,
  after_run, run_chunk,
}

-- A part of `lzma2_lzma` writes into the dictionary only, and counts no output.
pub record Writes (s : Lzma2) (b : XzBuf) (r : Feed) : Type 0 where
  pub grows : Grows s.lzma.dict r.dec.lzma.dict
  pub position : r.buf.out_pos ≡ b.out_pos
  pub size : r.buf.out_size ≡ b.out_size
  pub uncompressed : r.dec.uncompressed ≡ s.uncompressed

-- Nothing is decoded.
idle-Writes :
    (s : Lzma2) {b : XzBuf} {r : Feed}
    → IsOpen s.lzma.dict
    → r.dec.lzma ≡ s.lzma
    → r.buf.out_pos ≡ b.out_pos
    → r.buf.out_size ≡ b.out_size
    → r.dec.uncompressed ≡ s.uncompressed
    → Writes s b r
idle-Writes s {b} {r} h e p q u = record {
  grows = subst (λ (l : Lzma). Grows s.lzma.dict l.dict) (sym e) (Grows-refl s.lzma.dict h);
  position = p;
  size = q;
  uncompressed = u;
}

run_temp-Writes :
    (s : Lzma2) (b : XzBuf) (n limit : ℕ) → IsOpen s.lzma.dict → Writes s b (run_temp s b n limit)
unfolding run_temp
run_temp-Writes s b n limit h =
    let r = lzma_main (with_input s.lzma s.temp_buf 0 limit) in
    let used = r.lzma.rc.in_pos in
    let g = lzma_main-Grows (with_input s.lzma s.temp_buf 0 limit) h in
    if_has (Writes s b) (not r.done || ltb (s.temp_size + n) used)
      (λ _. record { grows = g; position = refl; size = refl; uncompressed = refl })
      (λ _.
        if_has (Writes s b) (ltb used s.temp_size)
          (λ _. record { grows = g; position = refl; size = refl; uncompressed = refl })
          (λ _. record { grows = g; position = refl; size = refl; uncompressed = refl }))

-- The same for a decoder that differs in `temp.buf` only.
refilled-Writes :
    (s : Lzma2) (b : XzBuf) (buf : List ℕ) (r : Feed)
    → Writes (record s { temp_buf = buf }) b r
    → Writes s b r
refilled-Writes s b buf r w = record {
  grows = w.grows;
  position = w.position;
  size = w.size;
  uncompressed = w.uncompressed;
}

feed_temp-Writes : (s : Lzma2) (b : XzBuf) → IsOpen s.lzma.dict → Writes s b (feed_temp s b)
unfolding feed_temp
feed_temp-Writes s b h =
    let n = temp_room s b in
    let filled = s.temp_size + n in
    let buf = overwrite s.temp_buf s.temp_size (take n (drop b.in_pos b.input)) in
    if_has (Writes s b) (ltb 0 s.temp_size || s.compressed == 0)
      (λ _.
        if_has (Writes s b) (filled == s.compressed)
          (λ _. refilled-Writes s b (zero_from buf filled) _ (run_temp-Writes _ b n filled h))
          (λ _.
            if_has (Writes s b) (ltb filled lzma_in_required)
              (λ _. idle-Writes s h refl refl refl refl)
              (λ _.
                refilled-Writes s b buf _ (run_temp-Writes _ b n (filled - lzma_in_required) h))))
      (λ _. idle-Writes s h refl refl refl refl)

feed_input-Writes : (s : Lzma2) (b : XzBuf) → IsOpen s.lzma.dict → Writes s b (feed_input s b)
unfolding feed_input
feed_input-Writes s b h =
    let in_avail = in_size b - b.in_pos in
    let in_limit =
      if leb (s.compressed + lzma_in_required) in_avail
      then b.in_pos + s.compressed
      else in_size b - lzma_in_required in
    let start = with_input s.lzma b.input b.in_pos in_limit in
    let r = lzma_main start in
    let g = lzma_main-Grows start h in
    if_has (Writes s b) (leb lzma_in_required in_avail)
      (λ _.
        if_has (Writes s b) (not r.done || ltb s.compressed (r.lzma.rc.in_pos - b.in_pos))
          (λ _. record { grows = g; position = refl; size = refl; uncompressed = refl })
          (λ _. record { grows = g; position = refl; size = refl; uncompressed = refl }))
      (λ _. idle-Writes s h refl refl refl refl)

keep_rest-Writes : (s : Lzma2) (b : XzBuf) → IsOpen s.lzma.dict → Writes s b (keep_rest s b)
unfolding keep_rest
keep_rest-Writes s b h =
    if_has (Writes s b) (ltb (in_size b - b.in_pos) lzma_in_required)
      (λ _. idle-Writes s h refl refl refl refl) (λ _. idle-Writes s h refl refl refl refl)

then-Writes :
    (s : Lzma2) (b : XzBuf) (r : Feed) (next : Lzma2 → XzBuf → Feed)
    → Writes s b r
    → Writes r.dec r.buf (next r.dec r.buf)
    → Writes s b (and_then r next)
then-Writes s b r next h k =
    elim r.flow
      as (λ f.
        Writes s b (elim f [ goes_on ↦ next r.dec r.buf | returns_true ↦ r | returns_false ↦ r ])) [
          | goes_on ↦ record {
            grows = Grows-trans h.grows k.grows;
            position = k.position ∙ h.position;
            size = k.size ∙ h.size;
            uncompressed = k.uncompressed ∙ h.uncompressed;
          }
          | returns_true ↦ h
          | returns_false ↦ h
        ]

lzma2_lzma-Writes : (s : Lzma2) (b : XzBuf) → IsOpen s.lzma.dict → Writes s b (lzma2_lzma s b)
unfolding lzma2_lzma
lzma2_lzma-Writes s b h =
    let t = feed_temp s b in
    let u = and_then t feed_input in
    let first = feed_temp-Writes s b h in
    let second =
      then-Writes s b t feed_input first (feed_input-Writes t.dec t.buf first.grows.again) in
    then-Writes s b u keep_rest second (keep_rest-Writes u.dec u.buf second.grows.again)

-- What a pass puts out: it stays inside the room, it is counted in `uncompressed`, and all of it
-- was flushed, unless the pass gives an error.
pub record Outputs (s : Lzma2) (b : XzBuf) (p : Pass) : Type 0 where
  pub size : p.buf.out_size ≡ b.out_size
  pub forward : b.out_pos ≤ p.buf.out_pos
  pub bound : p.buf.out_pos ≤ b.out_size
  pub counted : p.dec.uncompressed + (p.buf.out_pos - b.out_pos) ≡ s.uncompressed
  pub ordered : IsDict p.dec.lzma.dict
  pub flushed : (p.dec.lzma.dict.start ≡ p.dec.lzma.dict.pos) ⊎ (p.turn ≡ give data_error)

after_run_keeps :
    (s : Lzma2) (b : XzBuf)
    → let p = after_run s b in
      (p.dec.lzma.dict ≡ s.lzma.dict) × (p.dec.uncompressed ≡ s.uncompressed) × (p.buf ≡ b)
unfolding after_run
after_run_keeps s b =
    let P = λ (p : Pass).
      (p.dec.lzma.dict ≡ s.lzma.dict) × (p.dec.uncompressed ≡ s.uncompressed) × (p.buf ≡ b) in
    if_has P (s.uncompressed == 0)
      (λ _. if_has P _ (λ _. (refl, refl, refl)) (λ _. (refl, refl, refl)))
      (λ _. if_has P _ (λ _. (refl, refl, refl)) (λ _. (refl, refl, refl)))

-- A chunk never writes more than the output has room for and than is left of the chunk: with the
-- dictionary in order, all that was decoded flushed before, and the position inside the output,
-- then however the pass ends, the output position moves forward inside the output, the bytes are
-- taken from `uncompressed`, the dictionary stays in order, and all that was decoded has been
-- flushed again, unless the pass gives an error.
pub run_chunk-Outputs :
    (s : Lzma2) (b : XzBuf)
    → IsDict s.lzma.dict
    → s.lzma.dict.start ≡ s.lzma.dict.pos
    → b.out_pos ≤ b.out_size
    → IsU32 s.uncompressed
    → Outputs s b (run_chunk s b)
unfolding run_chunk
run_chunk-Outputs s b h start inside word =
    let room = min (b.out_size - b.out_pos) s.uncompressed in
    let d = dict_limit s.lzma.dict room in
    let s0 : Lzma2 = record s { lzma = record (s.lzma) { dict = d } } in
    let (ordered, limited, low) = dict_limit-IsDict s.lzma.dict room h in
    let (same_start, same_pos) = dict_limit_keeps s.lzma.dict room in
    let f = lzma2_lzma s0 b in
    let w = lzma2_lzma-Writes s0 b (record { ordered = ordered; limited = limited }) in
    let e = f.dec.lzma.dict in
    let fl = dict_flush e f.dec.lzma.mem f.buf in
    let (count, moved, size, none_left) = dict_flush_counts e f.dec.lzma.mem f.buf in
    let left : Lzma2 = record (f.dec) {
      lzma = record (f.dec.lzma) { dict = fl.dict; mem = fl.mem };
      uncompressed = sub32 f.dec.uncompressed fl.count;
    } in
    let few : fl.count ≤ room = omega (
      arith, count, w.grows.again.limited.before, w.grows.limit, w.grows.start, low, same_start,
      start,
    ) in
    let (kept_dict, kept_count, kept_buf) = after_run_keeps left fl.buf in
    let ended : Outputs s b (after_run left fl.buf) =
      let here = ap (λ (b : XzBuf). b.out_pos) kept_buf in
      record {
        size = ap (λ (b : XzBuf). b.out_size) kept_buf ∙ size ∙ w.size;
        forward = omega (arith, here, moved, w.position);
        bound = omega (arith, here, moved, w.position, few, inside);
        counted = omega (arith, here, moved, w.position, kept_count, w.uncompressed, few, word);
        ordered =
            subst IsDict (sym kept_dict)
              (dict_flush-IsDict e f.dec.lzma.mem f.buf w.grows.again.ordered);
        flushed = inl (
            ap (λ (d : Dictionary). d.start) kept_dict
            ∙ none_left
            ∙ sym (ap (λ (d : Dictionary). d.pos) kept_dict));
      } in
    elim f.flow
      as (λ x. Outputs s b (elim x [
        | returns_false ↦ record { turn = give data_error; dec = f.dec; buf = f.buf }
        | _ ↦ after_run left fl.buf
      ])) [
        | goes_on ↦ ended
        | returns_true ↦ ended
        | returns_false ↦ record {
          size = w.size;
          forward = omega (arith, w.position);
          bound = omega (arith, w.position, inside);
          counted = omega (arith, w.position, w.uncompressed);
          ordered = w.grows.again.ordered;
          flushed = inr refl;
        }
      ]
