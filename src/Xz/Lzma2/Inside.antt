-- ===== src/Xz/Lzma2/Inside.antt =====
-- The reserve of `LZMA_IN_REQUIRED` bytes at work: nothing is read behind the input or behind
-- `temp.buf`.
use galaxys2_kernel_repack.Base.{
  ℕ, ◌+◌, ◌-◌, ◌≤◌, ◌≡◌, zero, suc, refl, ap, ◌∙◌, arith, All, All-append, All-take, All-drop, ◌⊎◌,
  inl, inr, List, ◌++◌, length, take, drop,
}
use galaxys2_kernel_repack.Base.{ltb, leb, ◌==◌, if◌then◌else◌, if_has, not, ◌||◌, min}
use galaxys2_kernel_repack.Base.Bytes.{IsByte}
use galaxys2_kernel_repack.Xz.Types.{XzBuf, in_size}
use galaxys2_kernel_repack.Xz.Lzma.{Lzma, lzma_main}
use galaxys2_kernel_repack.Xz.Lzma.Bounds.{IsLzma, lzma_main_reads}
use galaxys2_kernel_repack.Xz.Lzma2.{
  Lzma2, Feed, goes_on, returns_true, returns_false, overwrite, zeros, zero_from, keep_rest,
  and_then, lzma2_lzma, with_input, feed_input, run_temp, feed_temp, temp_room, lzma_in_required,
  temp_buf_size,
}

-- A valid decoder reads from any bytes.
with_input-IsLzma :
    (l : Lzma) (input : List ℕ) (in_pos in_limit : ℕ)
    → IsLzma l
    → All IsByte input
    → IsLzma (with_input l input in_pos in_limit)
with_input-IsLzma l input in_pos in_limit h bytes = record {
  coder = record {
    ranged = record {
      low = h.coder.ranged.low;
      high = h.coder.ranged.high;
      word = h.coder.ranged.word;
      bytes = bytes;
    };
    likely = h.coder.likely;
  };
  valid = h.valid;
  positions = h.positions;
  context = h.context;
  coders = h.coders;
  bytes = h.bytes;
}

-- The state between two calls: a valid decoder, bytes in `temp.buf`, and fewer of them than
-- `LZMA_IN_REQUIRED` twice.
pub record IsFed (s : Lzma2) : Type 0 where
  pub valid : IsLzma s.lzma
  pub bytes : All IsByte s.temp_buf
  pub small : s.temp_size ≤ 42

-- What a part of `lzma2_lzma` leaves: such a state, and a position that only moved forward, inside
-- the same input.
pub record IsInside (b : XzBuf) (r : Feed) : Type 0 where
  pub fed : IsFed r.dec
  pub forward : b.in_pos ≤ r.buf.in_pos
  pub bound : r.buf.in_pos ≤ in_size b
  pub same : r.buf.input ≡ b.input

zeros-IsByte : (n : ℕ) → All IsByte (zeros n)
zeros-IsByte zero = tt
zeros-IsByte (suc n) = (omega arith, zeros-IsByte n)

overwrite-IsByte :
    (buf : List ℕ) (i : ℕ) (xs : List ℕ)
    → All IsByte buf
    → All IsByte xs
    → All IsByte (overwrite buf i xs)
overwrite-IsByte buf i xs h k =
    All-append IsByte (take i buf ++ xs) (drop (i + length xs) buf)
      (All-append IsByte (take i buf) xs (All-take IsByte i buf h) k)
      (All-drop IsByte (i + length xs) buf h)

zero_from-IsByte : (buf : List ℕ) (i : ℕ) → All IsByte buf → All IsByte (zero_from buf i)
zero_from-IsByte buf i h =
    All-append IsByte (take i buf) (zeros (temp_buf_size - i)) (All-take IsByte i buf h)
      (zeros-IsByte (temp_buf_size - i))

-- Decoding from `temp.buf` reads inside it.
run_temp-IsInside :
    (s : Lzma2) (b : XzBuf) (n in_limit : ℕ)
    → IsFed s
    → b.in_pos + n ≤ in_size b
    → in_limit ≤ 42
    → IsInside b (run_temp s b n in_limit)
      × ((run_temp s b n in_limit).dec.lzma.rc.in_pos ≤ temp_buf_size)
unfolding run_temp
run_temp-IsInside s b n in_limit h room small =
    let start = with_input s.lzma s.temp_buf 0 in_limit in
    let r = lzma_main start in
    let used = r.lzma.rc.in_pos in
    let (valid, _, bound) =
      lzma_main_reads start (with_input-IsLzma s.lzma s.temp_buf 0 in_limit h.valid h.bytes)
        (omega arith) in
    let rest = take (s.temp_size - used) (drop used s.temp_buf) in
    let kept = overwrite-IsByte s.temp_buf 0 rest h.bytes (
      All-take IsByte (s.temp_size - used) (drop used s.temp_buf)
        (All-drop IsByte used s.temp_buf h.bytes)) in
    let P = λ (x : Feed). IsInside b x × (x.dec.lzma.rc.in_pos ≤ temp_buf_size) in
    if_has P (not r.done || ltb (s.temp_size + n) used)
      (λ _. (
        record {
          fed = record { valid = valid; bytes = h.bytes; small = h.small };
          forward = omega arith;
          bound = omega arith;
          same = refl;
        },
        omega (arith, bound),
      ))
      (λ good.
        if_has P (ltb used s.temp_size)
          (λ _. (
            record {
              fed = record { valid = valid; bytes = kept; small = omega (arith, h.small) };
              forward = omega arith;
              bound = omega arith;
              same = refl;
            },
            omega (arith, bound),
          ))
          (λ _. (
            record {
              fed = record { valid = valid; bytes = h.bytes; small = omega arith };
              forward = omega arith;
              bound = ground (arith, good, room);
              same = refl;
            },
            omega (arith, bound),
          )))

pub feed_input-IsInside :
    (s : Lzma2) (b : XzBuf)
    → IsFed s
    → All IsByte b.input
    → b.in_pos ≤ in_size b
    → IsInside b (feed_input s b)
unfolding feed_input
feed_input-IsInside s b h bytes inside =
    let in_avail = in_size b - b.in_pos in
    let in_limit =
      if leb (s.compressed + lzma_in_required) in_avail
      then b.in_pos + s.compressed
      else in_size b - lzma_in_required in
    let start = with_input s.lzma b.input b.in_pos in_limit in
    let r = lzma_main start in
    let used = r.lzma.rc.in_pos - b.in_pos in
    if_has (IsInside b) (leb lzma_in_required in_avail)
      (λ enough.
        let (before, after) : (b.in_pos ≤ in_limit) × (in_limit + 21 ≤ in_size b) =
          ground (arith, enough) in
        let (valid, forward, bound) =
          lzma_main_reads start (with_input-IsLzma s.lzma b.input b.in_pos in_limit h.valid bytes)
            before in
        if_has (IsInside b) (not r.done || ltb s.compressed used)
          (λ _. record {
            fed = record { valid = valid; bytes = h.bytes; small = h.small };
            forward = omega arith;
            bound = inside;
            same = refl;
          })
          (λ _. record {
            fed = record { valid = valid; bytes = h.bytes; small = h.small };
            forward = forward;
            bound = omega (arith, bound, after);
            same = refl;
          }))
      (λ _. record { fed = h; forward = omega arith; bound = inside; same = refl })

-- `temp.buf` is filled up to 42 bytes, and decoding from it reads at most its 63 bytes.
pub feed_temp-IsInside :
    (s : Lzma2) (b : XzBuf)
    → IsFed s
    → All IsByte b.input
    → b.in_pos ≤ in_size b
    → IsInside b (feed_temp s b)
      × (((feed_temp s b).dec.lzma ≡ s.lzma) ⊎ ((feed_temp s b).dec.lzma.rc.in_pos ≤ temp_buf_size))
unfolding feed_temp temp_room
feed_temp-IsInside s b h bytes inside =
    let n = temp_room s b in
    let filled = s.temp_size + n in
    let xs = take n (drop b.in_pos b.input) in
    let s' : Lzma2 = record s { temp_buf = overwrite s.temp_buf s.temp_size xs } in
    let small : (n ≤ in_size b - b.in_pos) × (filled ≤ 42) = ground (arith, h.small) in
    let added =
      All-take IsByte n (drop b.in_pos b.input) (All-drop IsByte b.in_pos b.input bytes) in
    let more : IsFed s' = record {
      valid = h.valid;
      bytes = overwrite-IsByte s.temp_buf s.temp_size xs h.bytes added;
      small = h.small;
    } in
    let whole : IsFed (record s' { temp_buf = zero_from s'.temp_buf filled }) = record {
      valid = h.valid;
      bytes = zero_from-IsByte s'.temp_buf filled more.bytes;
      small = h.small;
    } in
    let P = λ (x : Feed).
      IsInside b x × ((x.dec.lzma ≡ s.lzma) ⊎ (x.dec.lzma.rc.in_pos ≤ temp_buf_size)) in
    let run = λ (t : Lzma2) (limit : ℕ) (fed : IsFed t) (low : limit ≤ 42).
      run_temp-IsInside t b n limit fed (omega arith) low in
    if_has P (ltb 0 s.temp_size || s.compressed == 0)
      (λ _.
        if_has P (filled == s.compressed)
          (λ _.
            let r =
              run (record s' { temp_buf = zero_from s'.temp_buf filled }) filled whole small.1 in
            (r.0, inr r.1))
          (λ _.
            if_has P (ltb filled lzma_in_required)
              (λ _. (
                record {
                  fed = record { valid = h.valid; bytes = more.bytes; small = small.1 };
                  forward = omega arith;
                  bound = omega arith;
                  same = refl;
                },
                inl refl,
              ))
              (λ _.
                let r = run s' (filled - lzma_in_required) more (omega arith) in (r.0, inr r.1))))
      (λ _. (record { fed = h; forward = omega arith; bound = inside; same = refl }, inl refl))

keep_rest-IsInside :
    (s : Lzma2) (b : XzBuf)
    → IsFed s
    → All IsByte b.input
    → b.in_pos ≤ in_size b
    → IsInside b (keep_rest s b)
unfolding keep_rest
keep_rest-IsInside s b h bytes inside =
    let n = min (in_size b - b.in_pos) s.compressed in
    let xs = take n (drop b.in_pos b.input) in
    let added =
      All-take IsByte n (drop b.in_pos b.input) (All-drop IsByte b.in_pos b.input bytes) in
    if_has (IsInside b) (ltb (in_size b - b.in_pos) lzma_in_required)
      (λ few. record {
        fed = record {
          valid = h.valid;
          bytes = overwrite-IsByte s.temp_buf 0 xs h.bytes added;
          small = ground (arith, few);
        };
        forward = omega arith;
        bound = omega arith;
        same = refl;
      })
      (λ _. record { fed = h; forward = omega arith; bound = inside; same = refl })

then-IsInside :
    (b : XzBuf) (r : Feed) (next : Lzma2 → XzBuf → Feed)
    → IsInside b r
    → (IsFed r.dec → r.buf.in_pos ≤ in_size r.buf → IsInside r.buf (next r.dec r.buf))
    → IsInside b (and_then r next)
then-IsInside b r next h go =
    elim r.flow
      as (λ f.
        IsInside b (elim f [ goes_on ↦ next r.dec r.buf | returns_true ↦ r | returns_false ↦ r ])) [
          | goes_on ↦ together (go h.fed (rw h.same h.bound))
          | returns_true ↦ h
          | returns_false ↦ h
        ]
  where
    together : IsInside r.buf (next r.dec r.buf) → IsInside b (next r.dec r.buf)
    together k = record {
      fed = k.fed;
      forward = omega (arith, h.forward, k.forward);
      bound = omega (arith, k.bound, ap length h.same);
      same = k.same ∙ h.same;
    }

-- From a valid state, a call of `lzma2_lzma` leaves a valid state and a position that moved
-- forward inside the input, however it returns: the reserve of 21 bytes is enough.
pub lzma2_lzma-IsInside :
    (s : Lzma2) (b : XzBuf)
    → IsFed s
    → All IsByte b.input
    → b.in_pos ≤ in_size b
    → IsInside b (lzma2_lzma s b)
unfolding lzma2_lzma
lzma2_lzma-IsInside s b h bytes inside =
    let first = (feed_temp-IsInside s b h bytes inside).0 in
    let t = feed_temp s b in
    let second =
      then-IsInside b t feed_input first
        (λ fed room. feed_input-IsInside t.dec t.buf fed (rw first.same bytes) room) in
    let u = and_then t feed_input in
    then-IsInside b u keep_rest second
      (λ fed room. keep_rest-IsInside u.dec u.buf fed (rw second.same bytes) room)
