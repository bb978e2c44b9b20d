-- ===== src/Xz/Lzma2/Sequence/Header.antt =====
-- The control byte and the order of the chunks.
use galaxys2_kernel_repack.Base.{ℕ, ◌*◌, ◌^◌, ◌≤◌, ◌≡◌, refl, sym, subst, arith, bit_and}
use galaxys2_kernel_repack.Base.{Bool-cases, inl, inr}
use galaxys2_kernel_repack.Base.{Bool, true, false, ltb, leb, ◌==◌, if_has, ◌||◌}
use galaxys2_kernel_repack.Xz.Types.{XzBuf, in_size}
use galaxys2_kernel_repack.Xz.Lzma.{Lzma, lzma_reset}
use galaxys2_kernel_repack.Xz.Lzma.Bounds.{IsLzma}
use galaxys2_kernel_repack.Xz.Lzma.Ready.{IsReset, lzma_reset-IsLzma}
use galaxys2_kernel_repack.Xz.Lzma2.{
  Lzma2, Seq, control, uncompressed_1, uncompressed_2, compressed_0, compressed_1, properties,
  lzma_prepare, lzma_run, copy, Turn, again, Pass, control_byte,
}
use galaxys2_kernel_repack.Xz.Lzma2.Sequence.{
  is_lzma_seq, is_next, is_idle, IsAt, Advances, stays, IsLzma-IsFilled,
}

is_next_waits : (n : Seq) → is_lzma_seq n ≡ false → is_next n false ≡ false
is_next_waits control h = refl
is_next_waits uncompressed_1 h = refl
is_next_waits uncompressed_2 h = refl
is_next_waits compressed_0 h = refl
is_next_waits compressed_1 h = refl
is_next_waits properties h = refl
is_next_waits lzma_prepare h = cc
is_next_waits lzma_run h = cc
is_next_waits copy h = refl

IsLzma-IsReset : (l : Lzma) → IsLzma l → IsReset l
IsLzma-IsReset l h = record {
  positions = h.positions;
  context = h.context;
  coders = h.coders;
  input = h.coder.ranged.bytes;
  bytes = h.bytes;
}

pub control_byte-Advances :
    (s : Lzma2) (b : XzBuf) (tmp : ℕ)
    → IsAt control s
    → b.in_pos ≤ in_size b
    → s.sequence ≡ control
    → Advances b (control_byte s b tmp)
unfolding control_byte
control_byte-Advances s b tmp h inside at = elim (Bool-cases (leb 0xe0 tmp || tmp == 0x01)) [
  | inl resets ↦ rw resets (
      if_has P (tmp == 0) (λ _. same)
        (λ _.
          if_has P (leb 0x80 tmp)
            (λ large.
              if_has P (leb 0xc0 tmp)
                (λ _. goes (record {
                  filled = h.filled;
                  begins = λ p. cc;
                  order = λ p q. cc;
                  ready = λ p. cc;
                }))
                (λ low. absurd (ground (arith, resets, large, low))))
            (λ small.
              if_has P (ltb 2 tmp) (λ high. absurd (ground (arith, resets, small, high)))
                (λ _. goes (record {
                  filled = h.filled;
                  begins = λ p. cc;
                  order = λ p q. refl;
                  ready = λ p. cc;
                })))))
  | inr keeps ↦ rw keeps (
      if_has P (tmp == 0) (λ _. same)
        (λ _.
          if_has P s.need_dict_reset (λ _. same)
            (λ begun.
              if_has P (leb 0x80 tmp)
                (λ _.
                  if_has P (leb 0xc0 tmp)
                    (λ _. goes (record {
                      filled = h.filled;
                      begins = λ p. cc;
                      order = λ p q. cc;
                      ready = λ p. cc;
                    }))
                    (λ _.
                      if_has P s.need_props
                        (λ wanted. goes (record {
                          filled = h.filled;
                          begins = λ p. cc;
                          order = λ p q. h.order wanted begun;
                          ready = λ p. absurd (not_both (waits wanted begun) p);
                        }))
                        (λ known.
                          let l = h.ready (idle known begun) in
                          let l' = lzma_reset-IsLzma s.lzma (IsLzma-IsReset s.lzma l) in
                          let s' : Lzma2 = record s { lzma = lzma_reset s.lzma } in
                          if_has
                            (λ (t : Lzma2). Advances b (record { turn = again; dec = t; buf = b }))
                            (leb 0xa0 tmp)
                            {x = record s {
                              need_props = s.need_props;
                              uncompressed = bit_and tmp 0x1f * 2 ^ 16;
                              sequence = uncompressed_1;
                              next_sequence = lzma_prepare;
                              lzma = lzma_reset s.lzma;
                            }}
                            {y = record s {
                              uncompressed = bit_and tmp 0x1f * 2 ^ 16;
                              sequence = uncompressed_1;
                              next_sequence = lzma_prepare;
                            }}
                            (λ _. goes (record {
                              filled = IsLzma-IsFilled s' h.filled.temp h.filled.small l';
                              begins = λ p. cc;
                              order = λ p q. cc;
                              ready = λ p. l';
                            }))
                            (λ _. goes (record {
                              filled = h.filled;
                              begins = λ p. cc;
                              order = λ p q. cc;
                              ready = λ p. l;
                            })))))
                (λ _.
                  if_has P (ltb 2 tmp) (λ _. same)
                    (λ _. goes (record {
                      filled = h.filled;
                      begins = λ p. cc;
                      order = λ p q. refl;
                      ready = λ p. h.ready p;
                    }))))))
]
  where
    P : Pass → Type 0
    P p = Advances b p

    goes :
        {t : Turn} {u : Lzma2}
        → IsAt u.sequence u
        → Advances b (record { turn = t; dec = u; buf = b })
    goes {t} {u} c = stays {t = t} {s = u} b c inside

    same : {t : Turn} → Advances b (record { turn = t; dec = s; buf = b })
    same {t} = stays {t = t} {s = s} b (subst (λ (q : Seq). IsAt q s) (sym at) h) inside

    idle : s.need_props ≡ false → s.need_dict_reset ≡ false → is_idle s ≡ true
    idle e f = rw (e, f) refl

    not_both : {x : Bool} → x ≡ false → x ≡ true → ⊥
    not_both e f = cc

    waits :
        s.need_props ≡ true
        → s.need_dict_reset ≡ false
        → is_next s.next_sequence (is_idle s) ≡ false
    waits e f = rw e (is_next_waits s.next_sequence (h.order e f))
