-- ===== src/Xz/Stream/Index/RoundTrip.antt =====
-- `dec_index` on an Index that lists the sizes of the Blocks.
use galaxys2_kernel_repack.Base.{
  ℕ, zero, suc, ◌+◌, ◌-◌, ◌*◌, ◌^◌, ◌≤◌, ◌<◌, ◌≡◌, refl, ap, ◌∙◌, arith, ltb,
}
use galaxys2_kernel_repack.Base.{
  ◌==◌, Bool, true, length-append, List, [], ◌∷◌, ◌++◌, drop, length, All, if◌then◌else◌,
}
use galaxys2_kernel_repack.Xz.Types.{ok, stream_end, XzBuf, in_size}
use galaxys2_kernel_repack.Xz.Vli.RoundTrip.{encoding}
use galaxys2_kernel_repack.Xz.Stream.{
  XzDec, Step, IndexSeq, Hash, u64, index_count, index_unpadded, index_uncompressed,
}
use galaxys2_kernel_repack.Xz.Stream.Fields.{hash_update}
use galaxys2_kernel_repack.Xz.Stream.Fields.Laws.{input_vli-encoding, drop-append}
use galaxys2_kernel_repack.Xz.Stream.Index.{index_field, index_loop, dec_index}
use galaxys2_kernel_repack.Xz.Stream.Index.Laws.{dec_index-enough}

-- The sizes of a Block, as a Record of the Index.
pub record Entry : Type 0 where
  pub unpadded : ℕ
  pub uncompressed : ℕ

abbrev pub entries_bytes : List Entry → List ℕ
entries_bytes [] = []
entries_bytes (e ∷ es) = encoding 8 e.unpadded ++ (encoding 8 e.uncompressed ++ entries_bytes es)

-- The hash over a list of Blocks, one after the other.
abbrev pub hash_entries : Hash → List Entry → Hash
hash_entries h [] = h
hash_entries h (e ∷ es) =
    hash_entries
      (hash_update (record h {
        unpadded = u64 (h.unpadded + e.unpadded);
        uncompressed = u64 (h.uncompressed + e.uncompressed);
      }))
      es

pub record IsEntry (e : Entry) : Type 0 where
  pub small_unpadded : e.unpadded < 2 ^ 63
  pub small_uncompressed : e.uncompressed < 2 ^ 63

-- A round of the loop on a number that leaves more to read.
number_round :
    (fuel v : ℕ) (s s' : XzDec) (b : XzBuf) (rest : List ℕ)
    → s.pos ≡ 0
    → v < 2 ^ 63
    → drop b.in_pos b.input ≡ encoding 8 v ++ rest
    → index_field s.index_sequence (record s { pos = 0; vli = v }) ≡ (ok, s')
    → let b' = record b { in_pos = b.in_pos + length (encoding 8 v) } in
      index_loop (suc fuel) s b ≡ (
        if ltb 0 s'.index_count
        then index_loop fuel s' b'
        else record { ret = stream_end; dec = s'; buf = b' })
unfolding index_loop
number_round fuel v s s' b rest start small spelled stepped =
    rw (input_vli-encoding v s b rest start small spelled, stepped) refl

-- What the loop makes of the Records that are left.
record HasRead (es : List Entry) (s : XzDec) (b : XzBuf) (r : Step) : Type 0 where
  ended : r.ret ≡ stream_end
  hashed : r.dec.index_hash ≡ hash_entries s.index_hash es
  advanced : r.buf.in_pos ≡ b.in_pos + length (entries_bytes es)

entries_length :
    (u v : ℕ) (es : List Entry)
    → length (entries_bytes (record { unpadded = u; uncompressed = v } ∷ es))
      ≡ length (encoding 8 u) + (length (encoding 8 v) + length (entries_bytes es))
entries_length u v es =
    length-append (encoding 8 u) (encoding 8 v ++ entries_bytes es)
    ∙ ap (λ (n : ℕ). length (encoding 8 u) + n) (length-append (encoding 8 v) (entries_bytes es))

-- A Record takes two rounds.
entry_rounds :
    (fuel : ℕ) (e : Entry) (s : XzDec) (b : XzBuf) (rest : List ℕ)
    → IsEntry e
    → s.pos ≡ 0
    → s.index_sequence ≡ index_unpadded
    → 0 < s.index_count
    → s.index_count < 2 ^ 64
    → drop b.in_pos b.input ≡ encoding 8 e.unpadded ++ (encoding 8 e.uncompressed ++ rest)
    → let s1 : XzDec = (index_field index_unpadded (record s { pos = 0; vli = e.unpadded })).1 in
      let s2 : XzDec =
        (index_field index_uncompressed (record s1 { pos = 0; vli = e.uncompressed })).1 in
      let b2 = record b {
        in_pos = b.in_pos + length (encoding 8 e.unpadded) + length (encoding 8 e.uncompressed);
      } in
      index_loop (suc (suc fuel)) s b ≡ (
        if ltb 0 (s.index_count - 1)
        then index_loop fuel s2 b2
        else record { ret = stream_end; dec = s2; buf = b2 })
unfolding index_field
entry_rounds fuel e s b rest ok_entry start place some fits spelled =
    let s1 : XzDec = (index_field index_unpadded (record s { pos = 0; vli = e.unpadded })).1 in
    let b1 = record b { in_pos = b.in_pos + length (encoding 8 e.unpadded) } in
    let b2 = record b { in_pos = b1.in_pos + length (encoding 8 e.uncompressed) } in
    let s2 : XzDec =
      (index_field index_uncompressed (record s1 { pos = 0; vli = e.uncompressed })).1 in
    let yes : ltb 0 s.index_count ≡ true = ground arith in
    let counted : u64 (s.index_count + 2 ^ 64 - 1) ≡ s.index_count - 1 = omega arith in
    number_round (suc fuel) e.unpadded s s1 b (encoding 8 e.uncompressed ++ rest) start
      ok_entry.small_unpadded spelled
      (ap (λ (q : IndexSeq). index_field q (record s { pos = 0; vli = e.unpadded })) place)
    ∙ ap
        (λ (t : Bool).
          if t
          then index_loop (suc fuel) s1 b1
          else record { ret = stream_end; dec = s1; buf = b1 })
        yes
    ∙ number_round fuel e.uncompressed s1 s2 b1 rest refl ok_entry.small_uncompressed
        (drop-append b.in_pos b.input (encoding 8 e.unpadded) (encoding 8 e.uncompressed ++ rest)
          spelled)
        refl
    ∙ ap
        (λ (n : ℕ).
          if ltb 0 n
          then index_loop fuel s2 b2
          else record { ret = stream_end; dec = s2; buf = b2 })
        counted

respell : (xs ys zs rest : List ℕ) → (xs ++ (ys ++ zs)) ++ rest ≡ xs ++ (ys ++ (zs ++ rest))
respell [] [] zs rest = refl
respell [] (y ∷ ys) zs rest = ap (λ (t : List ℕ). y ∷ t) (respell [] ys zs rest)
respell (x ∷ xs) ys zs rest = ap (λ (t : List ℕ). x ∷ t) (respell xs ys zs rest)

records_loop :
    (e : Entry) (es : List Entry) (fuel : ℕ) (s : XzDec) (b : XzBuf) (rest : List ℕ)
    → All IsEntry (e ∷ es)
    → s.pos ≡ 0
    → s.index_sequence ≡ index_unpadded
    → s.index_count ≡ suc (length es)
    → s.index_count < 2 ^ 64
    → drop b.in_pos b.input ≡ entries_bytes (e ∷ es) ++ rest
    → 2 * suc (length es) ≤ fuel
    → HasRead (e ∷ es) s b (index_loop fuel s b)
unfolding index_field
records_loop e es zero s b rest small start place count fits spelled enough = absurd (omega arith)
records_loop e es (suc zero) s b rest small start place count fits spelled enough =
    absurd (omega arith)
records_loop e [] (suc (suc fuel)) s b rest small start place count fits spelled enough =
    let eb =
      entry_rounds fuel e s b rest small.0 start place (omega arith) fits
        (spelled ∙ respell (encoding 8 e.unpadded) (encoding 8 e.uncompressed) [] rest) in
    rw (eb, count)
      (record {
        ended = refl;
        hashed = refl;
        advanced = omega (arith, entries_length e.unpadded e.uncompressed []);
      })
records_loop e (e' ∷ es) (suc (suc fuel)) s b rest small start place count fits spelled enough =
    let tail = entries_bytes (e' ∷ es) ++ rest in
    let far =
      spelled
      ∙ respell (encoding 8 e.unpadded) (encoding 8 e.uncompressed) (entries_bytes (e' ∷ es))
          rest in
    let eb = entry_rounds fuel e s b tail small.0 start place (omega arith) fits far in
    let s1 : XzDec = (index_field index_unpadded (record s { pos = 0; vli = e.unpadded })).1 in
    let s2 : XzDec =
      (index_field index_uncompressed (record s1 { pos = 0; vli = e.uncompressed })).1 in
    let p1 = b.in_pos + length (encoding 8 e.unpadded) in
    let p2 = p1 + length (encoding 8 e.uncompressed) in
    let near = drop-append p1 b.input (encoding 8 e.uncompressed) tail (
      drop-append b.in_pos b.input (encoding 8 e.unpadded) (encoding 8 e.uncompressed ++ tail)
        far) in
    let more =
      records_loop e' es fuel s2 (record b { in_pos = p2 }) rest small.1 refl refl (omega arith)
        (omega arith) near (omega arith) in
    let yes : ltb 0 (s.index_count - 1) ≡ true = ground arith in
    rw (eb, yes)
      (record {
        ended = more.ended;
        hashed = more.hashed;
        advanced = omega (arith, more.advanced, entries_length e.unpadded e.uncompressed (e' ∷ es));
      })

-- The loop goes on only if there are Records.
after_count :
    (es : List Entry) (fuel : ℕ) (s : XzDec) (b : XzBuf) (rest : List ℕ)
    → All IsEntry es
    → length es < 2 ^ 63
    → s.pos ≡ 0
    → s.index_sequence ≡ index_unpadded
    → s.index_count ≡ length es
    → drop b.in_pos b.input ≡ entries_bytes es ++ rest
    → 2 * length es ≤ fuel
    → HasRead es s b (
        if ltb 0 s.index_count
        then index_loop fuel s b
        else record { ret = stream_end; dec = s; buf = b })
after_count [] fuel s b rest small fits start place count spelled enough =
    rw count (record { ended = refl; hashed = refl; advanced = omega arith })
after_count (e ∷ es) fuel s b rest small fits start place count spelled enough =
    let yes : ltb 0 s.index_count ≡ true = ground arith in
    rw yes
      (records_loop e es fuel s b rest small start place count (omega arith) spelled (omega arith))

index_rounds :
    (es : List Entry) (fuel : ℕ) (s : XzDec) (b : XzBuf) (rest : List ℕ)
    → All IsEntry es
    → length es < 2 ^ 63
    → s.pos ≡ 0
    → s.index_sequence ≡ index_count
    → s.block_count ≡ length es
    → drop b.in_pos b.input ≡ encoding 8 (length es) ++ (entries_bytes es ++ rest)
    → 2 * length es ≤ fuel
    → HasRead es s
        (record b { in_pos = b.in_pos + length (encoding 8 (length es)) })
        (index_loop (suc fuel) s b)
unfolding index_field
index_rounds es fuel s b rest small fits start place count spelled enough =
    let n = length es in
    let s1 : XzDec = record s {
      pos = 0;
      vli = n;
      index_count = n;
      index_sequence = index_unpadded;
    } in
    let b1 = record b { in_pos = b.in_pos + length (encoding 8 n) } in
    let same : (n == s.block_count) ≡ true = ground (arith, count) in
    let stepped : index_field s.index_sequence (record s { pos = 0; vli = n }) ≡ (ok, s1) =
      rw (place, same) refl in
    let counted =
      number_round fuel n s s1 b (entries_bytes es ++ rest) start fits spelled stepped in
    let near = drop-append b.in_pos b.input (encoding 8 n) (entries_bytes es ++ rest) spelled in
    let read = after_count es fuel s1 b1 rest small fits refl refl refl near enough in
    rw counted (record { ended = read.ended; hashed = read.hashed; advanced = read.advanced })

-- From its start, an Index with as many Records as Blocks were decoded (fewer than `2 ^ 63`), with
-- sizes below `2 ^ 63`, and with the position inside the input, is read to the
-- end of its Records, whatever bytes follow, and its hash is then the one of its Records in order.
pub dec_index-entries :
    (es : List Entry) (s : XzDec) (b : XzBuf) (rest : List ℕ)
    → All IsEntry es
    → length es < 2 ^ 63
    → s.pos ≡ 0
    → s.index_sequence ≡ index_count
    → s.block_count ≡ length es
    → b.in_pos ≤ in_size b
    → drop b.in_pos b.input ≡ encoding 8 (length es) ++ (entries_bytes es ++ rest)
    → let r = dec_index s b in
      (r.ret ≡ stream_end)
      × (r.dec.index_hash ≡ hash_entries s.index_hash es)
      × (r.buf.in_pos ≡ b.in_pos + length (encoding 8 (length es)) + length (entries_bytes es))
dec_index-entries es s b rest small fits start place count inside spelled =
    let fuel = in_size b - b.in_pos + 2 * length es in
    let read = index_rounds es fuel s b rest small fits start place count spelled (omega arith) in
    rw⁻¹ (dec_index-enough (suc fuel) s b inside (omega arith))
      (read.ended, read.hashed, read.advanced)
