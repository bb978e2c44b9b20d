-- ===== src/Xz/Lzma2/Sequence/Run.antt =====
-- Every run of the LZMA2 decoder and the order of the chunks.
use galaxys2_kernel_repack.Base.{
  ℕ, zero, suc, ◌+◌, ◌<◌, ◌≤◌, ◌≡◌, refl, sym, subst, ap, ◌∙◌, arith, All, length,
}
use galaxys2_kernel_repack.Base.{◌⊎◌, inl, inr}
use galaxys2_kernel_repack.Base.{Bool, true, ltb, if_has, ◌||◌}
use galaxys2_kernel_repack.Base.Bytes.{IsByte}
use galaxys2_kernel_repack.Xz.Types.{XzBuf, in_size, in_byte}
use galaxys2_kernel_repack.Xz.Lzma.Bounds.{IsLzma}
use galaxys2_kernel_repack.Xz.Lzma2.{
  Lzma2, Seq, control, uncompressed_1, uncompressed_2, compressed_0, compressed_1, properties,
  lzma_prepare, lzma_run, copy, again, give, Pass, control_byte, read_properties, take_byte, switch,
}
use galaxys2_kernel_repack.Xz.Lzma2.Sequence.{
  is_ready_next, is_idle, IsAt, IsChunked, Advances, Advances-after,
}
use galaxys2_kernel_repack.Xz.Lzma2.Sequence.Header.{control_byte-Advances}
use galaxys2_kernel_repack.Xz.Lzma2.Sequence.Chunks.{
  run_chunk-Advances, prepare_chunk-Advances, read_properties-Advances, copy_chunk-Advances,
}
use galaxys2_kernel_repack.Xz.Lzma2.{Run, run_loop, round, is_lzma_run}
use mathlib.Core.Option.{Option, none, some}

-- A byte of the header was taken, and a place of the header follows.
round-Advances :
    (t : Lzma2) (b : XzBuf) → b.in_pos < in_size b → IsChunked t → Advances b (round t b)
round-Advances t b inside h = record {
  chunked = h;
  forward = omega arith;
  bound = omega arith;
  same = refl;
}

-- A byte of the input was taken.
taken : (b : XzBuf) (p : Pass) → Advances (take_byte b) p → Advances b p
taken b p h = Advances-after b (take_byte b) p (omega arith) refl h

switch-Advances :
    (q : Seq) (s : Lzma2) (b : XzBuf)
    → s.sequence ≡ q
    → IsAt q s
    → All IsByte b.input
    → b.in_pos ≤ in_size b
    → (ltb b.in_pos (in_size b) || is_lzma_run q) ≡ true
    → Advances b (switch q s b)
unfolding switch
switch-Advances control s b at h bytes inside go =
    taken b (control_byte s (take_byte b) (in_byte b b.in_pos))
      (control_byte-Advances s (take_byte b) (in_byte b b.in_pos) h (ground (arith, go)) at)
switch-Advances uncompressed_1 s b at h bytes inside go =
    round-Advances _ b (ground (arith, go)) (record {
      filled = h.filled;
      begins = λ p. let wrong = h.begins p in cc;
      order = h.order;
      ready = h.ready;
    })
switch-Advances uncompressed_2 s b at h bytes inside go =
    round-Advances _ b (ground (arith, go)) (record {
      filled = h.filled;
      begins = λ p. let wrong = h.begins p in cc;
      order = h.order;
      ready = h.ready;
    })
switch-Advances compressed_0 s b at h bytes inside go =
    round-Advances _ b (ground (arith, go)) (record {
      filled = h.filled;
      begins = λ p. let wrong = h.begins p in cc;
      order = h.order;
      ready = h.ready;
    })
switch-Advances compressed_1 s b at h bytes inside go =
    round-Advances
      (record s { compressed = s.compressed + in_byte b b.in_pos + 1; sequence = s.next_sequence })
      b (ground (arith, go))
      (record {
        filled = h.filled;
        begins = λ p. let wrong = h.begins p in cc;
        order = h.order;
        ready = λ p. h.ready (sym (is_ready_next s.next_sequence (is_idle s)) ∙ p);
      })
switch-Advances properties s b at h bytes inside go =
    taken b (read_properties s (take_byte b) (in_byte b b.in_pos)) (
      read_properties-Advances s (take_byte b) (in_byte b b.in_pos) h at bytes (ground (arith, go)))
switch-Advances lzma_prepare s b at h bytes inside go = prepare_chunk-Advances s b h at bytes inside
switch-Advances lzma_run s b at h bytes inside go = run_chunk-Advances s b h at bytes inside
switch-Advances copy s b at h bytes inside go = copy_chunk-Advances s b h at bytes inside

-- The loop enters another pass.
abbrev pub enters : Lzma2 → XzBuf → Bool
enters s b = ltb b.in_pos (in_size b) || is_lzma_run s.sequence

-- The states that the passes of the loop of `xz_dec_lzma2_run` leave, one after the other.
pub data Reaches (s : Lzma2) (b : XzBuf) : Lzma2 → XzBuf → Type 0 where
  start : Reaches s b s b
  pass :
      {t : Lzma2} {c : XzBuf}
      → Reaches s b t c
      → enters t c ≡ true
      → Reaches s b (switch t.sequence t c).dec (switch t.sequence t c).buf

-- What is reached from a state and a buffer.
pub record IsReached (b : XzBuf) (t : Lzma2) (c : XzBuf) : Type 0 where
  pub chunked : IsChunked t
  pub forward : b.in_pos ≤ c.in_pos
  pub bound : c.in_pos ≤ in_size b
  pub same : c.input ≡ b.input

-- From a state in which the LZMA decoder is only in use after a reset with properties, and on a
-- buffer of bytes, every pass of `xz_dec_lzma2_run` leaves such a state, whatever the bytes are, and the position moves forward inside
-- the same input.
pub Reaches-IsReached :
    {s : Lzma2} {b : XzBuf} {t : Lzma2} {c : XzBuf}
    → IsChunked s
    → All IsByte b.input
    → b.in_pos ≤ in_size b
    → Reaches s b t c
    → IsReached b t c
Reaches-IsReached h bytes inside start = record {
  chunked = h;
  forward = omega arith;
  bound = inside;
  same = refl;
}
Reaches-IsReached {b = b} h bytes inside (pass {t} {c} r go) =
    let k = Reaches-IsReached h bytes inside r in
    let sized = ap length k.same in
    let p =
      switch-Advances t.sequence t c refl k.chunked (rw k.same bytes)
        (omega (arith, k.bound, sized)) go in
    record {
      chunked = p.chunked;
      forward = omega (arith, k.forward, p.forward);
      bound = omega (arith, p.bound, sized);
      same = p.same ∙ k.same;
    }

-- No LZMA chunk is decoded before the state was reset with properties: from a state in which the
-- LZMA decoder is valid wherever the sequence says that it is in use, as `xz_dec_lzma2_reset`
-- leaves it also in memory that was never initialized, and on bytes with the position inside them,
-- the decoder is valid in every state that passes of `xz_dec_lzma2_run` reach, whatever the bytes
-- are, if the first bytes or the symbols of a chunk come next.
pub Reaches-IsLzma :
    {s : Lzma2} {b : XzBuf} {t : Lzma2} {c : XzBuf}
    → IsChunked s
    → All IsByte b.input
    → b.in_pos ≤ in_size b
    → Reaches s b t c
    → (t.sequence ≡ lzma_prepare) ⊎ (t.sequence ≡ lzma_run)
    → IsLzma t.lzma
Reaches-IsLzma {t = t} h bytes inside r at =
    let k = Reaches-IsReached h bytes inside r in
    elim at [ inl p ↦ k.chunked.ready (rw p refl) | inr p ↦ k.chunked.ready (rw p refl) ]

Reaches-trans :
    {s : Lzma2} {b : XzBuf} {t : Lzma2} {c : XzBuf} {u : Lzma2} {d : XzBuf}
    → Reaches s b t c
    → Reaches t c u d
    → Reaches s b u d
Reaches-trans r start = r
Reaches-trans r (pass q go) = pass (Reaches-trans r q) go

abbrev Gives : Lzma2 → XzBuf → Option Run → Type 0
Gives s b none = Unit
Gives s b (some r) = Reaches s b r.dec r.buf

Gives-after :
    {s : Lzma2} {b : XzBuf} {t : Lzma2} {c : XzBuf} (o : Option Run)
    → Reaches s b t c
    → Gives t c o
    → Gives s b o
Gives-after none r h = tt
Gives-after (some x) r h = Reaches-trans r h

run_loop-Gives : (fuel : ℕ) (s : Lzma2) (b : XzBuf) → Gives s b (run_loop fuel s b)
unfolding run_loop
run_loop-Gives zero s b = tt
run_loop-Gives (suc fuel) s b =
    let p = switch s.sequence s b in
    let more = run_loop fuel p.dec p.buf in
    if_has (Gives s b) (enters s b)
      (λ go.
        let one : Reaches s b p.dec p.buf = pass start go in
        elim p.turn
          as (λ t. Gives s b (elim t [
            | again ↦ more
            | give ret ↦ some (record { ret = ret; dec = p.dec; buf = p.buf })
          ])) [ again ↦ Gives-after more one (run_loop-Gives fuel p.dec p.buf) | give ret ↦ one ])
      (λ _. start)

-- What a run gives back is reached.
pub run_loop-Reaches :
    (fuel : ℕ) (s : Lzma2) (b : XzBuf) (r : Run)
    → run_loop fuel s b ≡ some r
    → Reaches s b r.dec r.buf
run_loop-Reaches fuel s b r e = subst (Gives s b) e (run_loop-Gives fuel s b)
