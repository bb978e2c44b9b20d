-- ===== src/Lzo/Blocks.antt =====
-- `unlzo` gives back the blocks of a file that is in memory.
use galaxys2_kernel_repack.Base.{
  ℕ, zero, suc, ◌+◌, ◌/◌, ◌%◌, ◌^◌, ◌<◌, ◌≤◌, ◌≡◌, ◌⊎◌, inl, inr, refl, sym, ap, ◌∙◌, arith,
}
use galaxys2_kernel_repack.Base.{
  true, false, List, [], ◌∷◌, ◌++◌, append_assoc, append-nil, length, length-append, take, drop,
  All, ltb, ◌==◌,
}
use galaxys2_kernel_repack.Lzo.{
  Env, Call, State, Done, Round, again, stop, invalid_header, fail, get_be32, lzo_block_size,
  fill_up, write_block, unpack_block, round, block_loop, after_buffers, unlzo, parse_header,
}
use mathlib.Core.Option.{Option, none, some}

abbrev pub be32_bytes : ℕ → List ℕ → List ℕ
be32_bytes n rest = (n / 2 ^ 24) ∷ (n / 2 ^ 16 % 256) ∷ (n / 2 ^ 8 % 256) ∷ (n % 256) ∷ rest

get_be32_bytes : (n : ℕ) (rest : List ℕ) → get_be32 (be32_bytes n rest) 0 ≡ n
get_be32_bytes n rest = omega arith

-- A block: its bytes, what stands for them in the file, and the checksum that is not looked at.
pub record Block : Type 0 where
  pub raw : List ℕ
  pub packed : List ℕ
  pub checksum : ℕ

abbrev pub frame : Block → List ℕ → List ℕ
frame b rest =
    be32_bytes (length b.raw)
      (be32_bytes (length b.packed) (be32_bytes b.checksum (b.packed ++ rest)))

-- The blocks, and the length 0 behind the last.
abbrev pub frames : List Block → List ℕ → List ℕ
frames [] rest = be32_bytes 0 rest
frames (b ∷ bs) rest = frame b (frames bs rest)

abbrev pub contents : List Block → List ℕ
contents [] = []
contents (b ∷ bs) = b.raw ++ contents bs

take-append : (xs ys : List ℕ) → take (length xs) (xs ++ ys) ≡ xs
take-append [] ys = refl
take-append (x ∷ xs) ys = ap (λ (t : List ℕ). x ∷ t) (take-append xs ys)

drop-append : (xs ys : List ℕ) → drop (length xs) (xs ++ ys) ≡ ys
drop-append [] ys = refl
drop-append (x ∷ xs) ys = drop-append xs ys

module _ (e : Env) where
  -- A block as lzop writes it: of at most 256 KiB, stored if packing did not make it shorter.
  pub record IsBlock (b : Block) : Type 0 where
    pub some_bytes : 0 < length b.packed
    pub small : length b.raw ≤ lzo_block_size
    pub shape :
        (b.packed ≡ b.raw)
        ⊎ ((length b.packed < length b.raw)
            × (e.lzo1x_decompress_safe b.packed (length b.raw) ≡ record { code = 0; out = b.raw }))

  -- A file and an output in memory, without callbacks.
  abbrev pub in_memory : Call e
  in_memory = record { has_fill = false; has_flush = false; has_output = true }

  unpack_block-IsBlock :
      (b : Block) (s : State e) (rest : List ℕ)
      → IsBlock b
      → s.input ≡ b.packed ++ rest
      → unpack_block e in_memory s (length b.raw) (length b.packed)
        ≡ again (record s {
          input = rest;
          written = s.written ++ b.raw;
          posp = s.posp + length b.packed + 12;
        })
  unfolding unpack_block write_block
  unpack_block-IsBlock b s rest h at_block = elim h.shape [
    | inl stored ↦
        let first = ap (take (length b.packed)) at_block ∙ take-append b.packed rest ∙ stored in
        let behind = ap (drop (length b.packed)) at_block ∙ drop-append b.packed rest in
        let same : (length b.raw == length b.packed) ≡ true = ground (arith, ap length stored) in
        rw (first, behind, same) refl
    | inr (shorter, unpacked) ↦
        let first = ap (take (length b.packed)) at_block ∙ take-append b.packed rest in
        let behind = ap (drop (length b.packed)) at_block ∙ drop-append b.packed rest in
        let other : (length b.raw == length b.packed) ≡ false = ground (arith, shorter) in
        let whole : (length b.raw == length b.raw) ≡ true = ground arith in
        rw (first, behind, other, unpacked, whole) refl
  ]

  stay : (n : ℕ) (s : State e) → fill_up e in_memory n s ≡ s
  unfolding fill_up
  stay n s = refl

  round-IsBlock :
      (b : Block) (s : State e) (rest : List ℕ)
      → IsBlock b
      → s.input ≡ frame b rest
      → round e in_memory s
        ≡ again (record s {
          input = rest;
          written = s.written ++ b.raw;
          posp = s.posp + length b.packed + 12;
        })
  unfolding round fill_up
  round-IsBlock b s rest h at_block =
      let behind = be32_bytes (length b.packed) (be32_bytes b.checksum (b.packed ++ rest)) in
      let raw : get_be32 s.input 0 ≡ length b.raw =
        ap (λ (t : List ℕ). get_be32 t 0) at_block ∙ get_be32_bytes (length b.raw) behind in
      let packed : get_be32 (drop 4 s.input) 0 ≡ length b.packed =
        ap (λ (t : List ℕ). get_be32 (drop 4 t) 0) at_block
        ∙ get_be32_bytes (length b.packed) (be32_bytes b.checksum (b.packed ++ rest)) in
      let block : drop 8 (drop 4 s.input) ≡ b.packed ++ rest =
        ap (λ (t : List ℕ). drop 8 (drop 4 t)) at_block in
      let long = length-append b.packed rest in
      let size : length s.input ≡ 12 + length (b.packed ++ rest) =
        ap length at_block ∙ omega arith in
      let size4 : length (drop 4 s.input) ≡ 8 + length (b.packed ++ rest) =
        ap (λ (t : List ℕ). length (drop 4 t)) at_block ∙ omega arith in
      let size12 : length (drop 8 (drop 4 s.input)) ≡ length (b.packed ++ rest) = ap length block in
      let fits : (length b.packed ≤ length b.raw) × (0 < length b.raw) = sizes b h in
      let some_raw : (length b.raw == 0) ≡ false = ground (arith, fits.1) in
      let not_large : ltb lzo_block_size (length b.raw) ≡ false = ground (arith, h.small) in
      let some_packed : (length b.packed == 0) ≡ false = ground (arith, h.some_bytes) in
      let not_longer : ltb (length b.raw) (length b.packed) ≡ false = ground (arith, fits.0) in
      let has4 : ltb (length s.input) 4 ≡ false = ground (arith, size) in
      let has8 : ltb (length (drop 4 s.input)) 8 ≡ false = ground (arith, size4) in
      let has_all : ltb (length (drop 8 (drop 4 s.input))) (length b.packed) ≡ false =
        ground (arith, size12, long) in
      rw (raw, packed, has4, some_raw, not_large, has8, some_packed, not_longer, has_all)
        (unpack_block-IsBlock b (record s { input = drop 8 (drop 4 s.input) }) rest h block)
    where
      sizes : (b : Block) → IsBlock b → (length b.packed ≤ length b.raw) × (0 < length b.raw)
      sizes b h = elim h.shape [
        | inl stored ↦ omega (arith, ap length stored, h.some_bytes)
        | inr (shorter, _) ↦ omega (arith, shorter, h.some_bytes)
      ]

  round-end :
      (s : State e) (rest : List ℕ)
      → s.input ≡ be32_bytes 0 rest
      → round e in_memory s
        ≡ stop (record {
          success = true;
          message = none;
          state = record s { input = rest; posp = s.posp + 4 };
        })
  unfolding round fill_up
  round-end s rest at_end =
      let zero_length : get_be32 s.input 0 ≡ 0 = ap (λ (t : List ℕ). get_be32 t 0) at_end in
      let behind : drop 4 s.input ≡ rest = ap (drop 4) at_end in
      let size : length s.input ≡ 4 + length rest = ap length at_end ∙ omega arith in
      let has4 : ltb (length s.input) 4 ≡ false = ground (arith, size) in
      rw (zero_length, has4, behind) refl

  -- The bytes of the frames.
  abbrev pub frames_length : List Block → ℕ
  frames_length [] = 4
  frames_length (b ∷ bs) = length b.packed + 12 + frames_length bs

  -- A successful end, with what was written and how far the file was read.
  pub record IsUnpacked (r : Option (Done e)) (written : List ℕ) (posp : ℕ) : Type 0 where
    pub done : Done e
    pub returned : r ≡ some done
    pub success : done.success ≡ true
    pub all_written : done.state.written ≡ written
    pub position : done.state.posp ≡ posp

  block_loop-stop :
      (fuel : ℕ) (s : State e) (d : Done e)
      → round e in_memory s ≡ stop d
      → block_loop e (suc fuel) in_memory s ≡ some d
  unfolding block_loop
  block_loop-stop fuel s d p =
      ap
        (λ (r : Round e). elim r as (λ _. Option (Done e)) [
          | again t ↦ block_loop e fuel in_memory t
          | stop d ↦ some d
        ])
        p

  block_loop-again :
      (fuel : ℕ) (s t : State e)
      → round e in_memory s ≡ again t
      → block_loop e (suc fuel) in_memory s ≡ block_loop e fuel in_memory t
  unfolding block_loop
  block_loop-again fuel s t p =
      ap
        (λ (r : Round e). elim r as (λ _. Option (Done e)) [
          | again t ↦ block_loop e fuel in_memory t
          | stop d ↦ some d
        ])
        p

  after_buffers-header :
      (fuel skip : ℕ) (s : State e)
      → parse_header s.input ≡ some skip
      → after_buffers e fuel in_memory s
        ≡ block_loop e fuel in_memory (record s { input = drop skip s.input; posp = skip })
  unfolding after_buffers
  after_buffers-header fuel skip s p =
      ap
        (λ (r : Option ℕ). elim r as (λ _. Option (Done e)) [
          | none ↦ some (fail e invalid_header s)
          | some skip ↦
              block_loop e fuel in_memory (record s { input = drop skip s.input; posp = skip })
        ])
        p

  block_loop-frames :
      (fuel : ℕ) (bs : List Block) (s : State e) (rest : List ℕ)
      → length bs < fuel
      → All IsBlock bs
      → s.input ≡ frames bs rest
      → IsUnpacked
          (block_loop e fuel in_memory s)
          (s.written ++ contents bs)
          (s.posp + frames_length bs)
  block_loop-frames zero bs s rest enough h at_frames = absurd (omega arith)
  block_loop-frames (suc fuel) [] s rest enough h at_frames =
      rw (block_loop-stop fuel s _ (round-end s rest at_frames)) (record {
        done = record {
          success = true;
          message = none;
          state = record s { input = rest; posp = s.posp + 4 };
        };
        returned = refl;
        success = refl;
        all_written = sym (append-nil s.written);
        position = refl;
      })
  block_loop-frames (suc fuel) (b ∷ bs) s rest enough (hb, h) at_frames =
      let next : State e = record s {
        input = frames bs rest;
        written = s.written ++ b.raw;
        posp = s.posp + length b.packed + 12;
      } in
      let r = block_loop-frames fuel bs next rest (omega arith) h refl in
      rw (block_loop-again fuel s next (round-IsBlock b s (frames bs rest) hb at_frames)) (record {
        done = r.done;
        returned = r.returned;
        success = r.success;
        all_written = r.all_written ∙ append_assoc s.written b.raw (contents bs);
        position = omega (arith, r.position);
      })

  -- From a file in memory, with a header that is accepted and well-formed blocks behind it, `unlzo`
  -- returns 0, has written the bytes of all blocks in order, and reports the length of the header
  -- and the blocks. Bytes behind the end do not matter. A round more than there are blocks is enough.
  pub unlzo-frames :
      (fuel skip : ℕ) (input rest : List ℕ) (bs : List Block) (w : e.World)
      → length bs < fuel
      → parse_header input ≡ some skip
      → drop skip input ≡ frames bs rest
      → All IsBlock bs
      → IsUnpacked (unlzo e fuel in_memory (some input) w) (contents bs) (skip + frames_length bs)
  unfolding unlzo
  unlzo-frames fuel skip input rest bs w enough header blocks h =
      let start : State e = record { input = input; written = []; posp = 0; world = w } in
      rw (after_buffers-header fuel skip start header) (
        block_loop-frames fuel bs (record start { input = drop skip input; posp = skip }) rest
          enough h blocks)
