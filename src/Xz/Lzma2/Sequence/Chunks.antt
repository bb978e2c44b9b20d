-- ===== src/Xz/Lzma2/Sequence/Chunks.antt =====
-- The data of the chunks and the order of the chunks.
use galaxys2_kernel_repack.Base.{
  ℕ, ◌-◌, ◌≤◌, ◌≡◌, refl, sym, subst, ap, ◌∙◌, arith, min, All, length,
}
use galaxys2_kernel_repack.Base.{Bool, true, ltb, ◌==◌, if_has, not, ◌||◌, ◌&&◌}
use galaxys2_kernel_repack.Base.Bytes.{IsByte, sub32}
use galaxys2_kernel_repack.Xz.Types.{data_error, XzBuf, in_size}
use galaxys2_kernel_repack.Xz.Dict.{dict_limit, dict_uncompressed, dict_flush}
use galaxys2_kernel_repack.Xz.Dict.Bytes.{
  dict_flush_keeps, dict_flush-IsBytes, dict_uncompressed-Copies,
}
use galaxys2_kernel_repack.Xz.RangeCoder.{rc_read_init, rc_init_bytes, rc_reset, rc_is_finished}
use galaxys2_kernel_repack.Xz.RangeCoder.First.{rc_read_init_moves}
use galaxys2_kernel_repack.Xz.Lzma.{lzma_props}
use galaxys2_kernel_repack.Xz.Lzma.Bounds.{IsLzma}
use galaxys2_kernel_repack.Xz.Lzma.Ready.{
  lzma_props_keeps, rc_reset-IsLzma, with_memory-IsLzma, lzma_props-IsLzma, rc_read_init-IsLzma,
}
use galaxys2_kernel_repack.Xz.Lzma2.{
  Lzma2, Seq, control, properties, lzma_prepare, lzma_run, copy, goes_on, returns_true,
  returns_false, Turn, give, after_run, run_chunk, prepare_chunk, read_properties, copy_chunk,
  lzma2_lzma,
}
use galaxys2_kernel_repack.Xz.Lzma2.Inside.{IsFed, lzma2_lzma-IsInside}
use galaxys2_kernel_repack.Xz.Lzma2.Sequence.{
  is_lzma_seq, is_ready, is_idle, IsFilled, IsAt, IsChunked, Advances, stays, IsLzma-IsFilled,
  Advances-after,
}
use galaxys2_kernel_repack.Xz.Lzma2.Kept.{lzma2_lzma-Keeps}

abbrev marks : Lzma2 → Seq × Bool × Bool
marks s = (s.next_sequence, s.need_props, s.need_dict_reset)

-- The same place of the sequence, with a decoder in use.
IsAt-marks :
    (q : Seq) (s t : Lzma2)
    → marks t ≡ marks s
    → IsAt q s
    → IsFilled t.temp_buf t.temp_size t.lzma.rc.input t.lzma.mem
    → (is_ready q s.next_sequence (is_idle s) ≡ true → IsLzma t.lzma)
    → IsAt q t
IsAt-marks q s t e h filled ready =
    let next : t.next_sequence ≡ s.next_sequence = ap (λ (p : Seq × Bool × Bool). p.0) e in
    let props : t.need_props ≡ s.need_props = ap (λ (p : Seq × Bool × Bool). p.1) e in
    let dict : t.need_dict_reset ≡ s.need_dict_reset = ap (λ (p : Seq × Bool × Bool). p.2) e in
    record {
      filled = filled;
      begins = λ p. h.begins (sym dict ∙ p);
      order = λ p q. ap is_lzma_seq next ∙ h.order (sym props ∙ p) (sym dict ∙ q);
      ready = λ p. ready (rw (sym next, sym props, sym dict) p);
    }

after_run-Advances :
    (s : Lzma2) (b : XzBuf)
    → IsAt lzma_run s
    → s.sequence ≡ lzma_run
    → b.in_pos ≤ in_size b
    → Advances b (after_run s b)
unfolding after_run
after_run-Advances s b h at inside =
    let c : IsChunked s = subst (λ (q : Seq). IsAt q s) (sym at) h in
    let l = rc_reset-IsLzma s.lzma (h.ready refl) in
    if_has (Advances b) (s.uncompressed == 0)
      (λ _.
        if_has (Advances b)
          (ltb 0 s.compressed || ltb 0 s.lzma.len || not (rc_is_finished s.lzma.rc))
          (λ _. stays b c inside)
          (λ _.
            stays b
              (record {
                filled =
                    IsLzma-IsFilled
                      (record s { lzma = record (s.lzma) { rc = rc_reset s.lzma.rc } })
                      h.filled.temp h.filled.small l;
                begins = λ _. refl;
                order = h.order;
                ready = λ _. l;
              })
              inside))
      (λ _.
        if_has (Advances b)
          (b.out_pos == b.out_size || b.in_pos == in_size b && ltb s.temp_size s.compressed)
          (λ _. stays b c inside) (λ _. stays b c inside))

pub run_chunk-Advances :
    (s : Lzma2) (b : XzBuf)
    → IsAt lzma_run s
    → s.sequence ≡ lzma_run
    → All IsByte b.input
    → b.in_pos ≤ in_size b
    → Advances b (run_chunk s b)
unfolding run_chunk
run_chunk-Advances s b h at bytes inside =
    let d = dict_limit s.lzma.dict (min (b.out_size - b.out_pos) s.uncompressed) in
    let s0 : Lzma2 = record s { lzma = record (s.lzma) { dict = d } } in
    let l = h.ready refl in
    let fed : IsFed s0 = record {
      valid = with_memory-IsLzma s.lzma d s.lzma.mem l l.bytes;
      bytes = h.filled.temp;
      small = h.filled.small;
    } in
    let f = lzma2_lzma s0 b in
    let k = lzma2_lzma-IsInside s0 b fed bytes inside in
    let kept = lzma2_lzma-Keeps s0 b in
    let fl = dict_flush f.dec.lzma.dict f.dec.lzma.mem f.buf in
    let l' =
      with_memory-IsLzma f.dec.lzma fl.dict fl.mem k.fed.valid
        (dict_flush-IsBytes f.dec.lzma.dict f.dec.lzma.mem f.buf k.fed.valid.bytes) in
    let left : Lzma2 = record (f.dec) {
      lzma = record (f.dec.lzma) { dict = fl.dict; mem = fl.mem };
      uncompressed = sub32 f.dec.uncompressed fl.count;
    } in
    let (pos, input) = dict_flush_keeps f.dec.lzma.dict f.dec.lzma.mem f.buf in
    let sized = ap length input in
    let here = ap (λ (p : Seq × Seq × Bool × Bool). p.0) kept ∙ at in
    let marked : marks f.dec ≡ marks s =
      ap (λ (p : Seq × Seq × Bool × Bool). (p.1, p.2, p.3)) kept in
    let failed : IsAt lzma_run f.dec =
      IsAt-marks lzma_run s f.dec marked h
        (IsLzma-IsFilled f.dec k.fed.bytes k.fed.small k.fed.valid) (λ _. k.fed.valid) in
    let placed : IsAt lzma_run left =
      IsAt-marks lzma_run s left marked h (IsLzma-IsFilled left k.fed.bytes k.fed.small l')
        (λ _. l') in
    let ended =
      Advances-after b fl.buf (after_run left fl.buf) (omega (arith, pos, k.forward))
        (input ∙ k.same)
        (after_run-Advances left fl.buf placed here
          (omega (arith, pos, sized, k.bound, ap length k.same))) in
    elim f.flow
      as (λ x. Advances b (elim x [
        | returns_false ↦ record { turn = give data_error; dec = f.dec; buf = f.buf }
        | _ ↦ after_run left fl.buf
      ])) [
        | goes_on ↦ ended
        | returns_true ↦ ended
        | returns_false ↦ record {
          chunked = subst (λ (q : Seq). IsAt q f.dec) (sym here) failed;
          forward = k.forward;
          bound = k.bound;
          same = k.same;
        }
      ]

-- What follows the first bytes of a chunk.
runs : (s : Lzma2) → IsAt lzma_prepare s → IsAt lzma_run s
runs s h = record {
  filled = h.filled;
  begins = λ p. let wrong = h.begins p in cc;
  order = h.order;
  ready = h.ready;
}

pub prepare_chunk-Advances :
    (s : Lzma2) (b : XzBuf)
    → IsAt lzma_prepare s
    → s.sequence ≡ lzma_prepare
    → All IsByte b.input
    → b.in_pos ≤ in_size b
    → Advances b (prepare_chunk s b)
unfolding prepare_chunk
prepare_chunk-Advances s b h at bytes inside =
    let r = rc_read_init s.lzma.rc b in
    let s' : Lzma2 = record s { lzma = record (s.lzma) { rc = r.rc } } in
    let l = rc_read_init-IsLzma s.lzma b (h.ready refl) in
    let (forward, bound, same, _, _, _) = rc_read_init_moves s.lzma.rc b inside in
    let sized = ap length same in
    let placed : IsAt lzma_prepare s' =
      IsAt-marks lzma_prepare s s' refl h (IsLzma-IsFilled s' h.filled.temp h.filled.small l)
        (λ _. l) in
    let started : Lzma2 = record s' {
      compressed = s.compressed - rc_init_bytes;
      sequence = lzma_run;
    } in
    let placed' : IsAt lzma_run started =
      IsAt-marks lzma_run s' started refl (runs s' placed) placed.filled (λ _. l) in
    if_has (Advances b) (ltb s.compressed rc_init_bytes)
      (λ _. stays b (subst (λ (q : Seq). IsAt q s) (sym at) h) inside)
      (λ _.
        if_has (Advances b) r.done
          (λ _. Advances-after b r.buf (run_chunk started r.buf) forward same (
            run_chunk-Advances started r.buf placed' refl (rw same bytes)
              (omega (arith, bound, sized))))
          (λ _. Advances-after b r.buf _ forward same (
            stays r.buf (subst (λ (q : Seq). IsAt q s') (sym at) placed)
              (omega (arith, bound, sized)))))

pub read_properties-Advances :
    (s : Lzma2) (b : XzBuf) (props : ℕ)
    → IsAt properties s
    → s.sequence ≡ properties
    → All IsByte b.input
    → b.in_pos ≤ in_size b
    → Advances b (read_properties s b props)
unfolding read_properties
read_properties-Advances s b props h at bytes inside =
    let r = lzma_props s.lzma props in
    let (input, mem) = lzma_props_keeps s.lzma props in
    if_has (Advances b) r.done
      (λ accepted.
        let l = lzma_props-IsLzma s.lzma props h.filled.input h.filled.bytes accepted in
        let t : Lzma2 = record s { lzma = r.lzma; sequence = lzma_prepare } in
        prepare_chunk-Advances t b
          (record {
            filled = IsLzma-IsFilled t h.filled.temp h.filled.small l;
            begins = λ p. let wrong = h.begins p in cc;
            order = h.order;
            ready = λ _. l;
          })
          refl bytes inside)
      (λ _.
        stays b
          (subst (λ (q : Seq). IsAt q (record s { lzma = r.lzma })) (sym at)
            (record {
              filled = record {
                temp = h.filled.temp;
                small = h.filled.small;
                input = rw input h.filled.input;
                bytes = rw mem h.filled.bytes;
              };
              begins = h.begins;
              order = h.order;
              ready = λ p. cc;
            }))
          inside)

-- Any place from which no state of the decoder is taken: bytes were copied.
pub copy_chunk-Advances :
    (s : Lzma2) (b : XzBuf)
    → IsAt copy s
    → s.sequence ≡ copy
    → All IsByte b.input
    → b.in_pos ≤ in_size b
    → Advances b (copy_chunk s b)
unfolding copy_chunk
copy_chunk-Advances s b h at bytes inside =
    let c = dict_uncompressed s.lzma.dict s.lzma.mem b s.compressed in
    let k =
      dict_uncompressed-Copies s.lzma.dict s.lzma.mem b s.compressed h.filled.bytes bytes inside in
    let s' : Lzma2 = record s {
      lzma = record (s.lzma) { dict = c.dict; mem = c.mem };
      compressed = c.left;
    } in
    let filled : IsFilled s.temp_buf s.temp_size s.lzma.rc.input c.mem = record {
      temp = h.filled.temp;
      small = h.filled.small;
      input = h.filled.input;
      bytes = k.bytes;
    } in
    let copied : (t : Turn) (u : Lzma2)
        → IsChunked u
        → Advances b (record { turn = t; dec = u; buf = c.buf }) =
      λ t u at. record { chunked = at; forward = k.forward; bound = k.bound; same = k.same } in
    if_has (Advances b) (ltb 0 c.left)
      (λ _. copied _ _ (
        subst (λ (q : Seq). IsAt q s') (sym at)
          (record {
            filled = filled;
            begins = h.begins;
            order = h.order;
            ready = λ p. with_memory-IsLzma s.lzma c.dict c.mem (h.ready p) k.bytes;
          })))
      (λ _.
        copied _ (record s' { sequence = control })
          (record {
            filled = filled;
            begins = λ _. refl;
            order = h.order;
            ready = λ p. with_memory-IsLzma s.lzma c.dict c.mem (h.ready p) k.bytes;
          }))
