-- ===== src/Gunzip/Memory.antt =====
-- The memory that `gunzip` takes is given back.
use galaxys2_kernel_repack.Base.{
  ℕ, ◌+◌, ◌^◌, ◌<◌, ◌≡◌, ◌≢◌, refl, subst, arith, true, false, ◌==◌, if◌then◌else◌, if_has, List,
  [], ◌∷◌,
}
use galaxys2_kernel_repack.Malloc.{Heap, first_free, malloc, free}
use galaxys2_kernel_repack.Malloc.Blocks.{
  Block, with_block, requests, frees, Steps, start, step, Steps-trans,
}
use galaxys2_kernel_repack.Gunzip.{
  Zlib, Caller, Request, Done, gzip_iobuf_size, output_buffer, input_buffer, free_input,
  free_output, unpack, inflate_size, gunzip,
}
use mathlib.Core.Option.{Option, none, some}

-- Room for some blocks with these bytes in all.
pub record Roomy (h : Heap) (bytes blocks : ℕ) : Type 0 where
  pub begins : 0 < h.free_mem_ptr
  pub address : first_free h + bytes < 2 ^ 32
  pub count : h.malloc_count + blocks < 2 ^ 32

malloc-Roomy :
    (h : Heap) (size bytes blocks : ℕ)
    → Roomy h (size + 3 + bytes) (blocks + 1)
    → Roomy (malloc h size).1 bytes blocks
unfolding malloc
malloc-Roomy h size bytes blocks r = record {
  begins = ground (arith, r.begins);
  address = ground (arith, r.begins, r.address);
  count = ground (arith, r.count);
}

-- Memory that is taken, if it is, and how it is given back.
record Held (h : Heap) (live : List Block) (take : ℕ × Heap) (release : Heap → Heap)
    (bytes blocks : ℕ) : Type 0 where
  held : List Block
  taken : take.0 ≢ 0 → Steps h live take.1 held
  refused : take.0 ≡ 0 → Steps h live take.1 live
  released : (g : Heap) → Steps g held (release g) live
  room : Roomy take.1 bytes blocks

one_block :
    (p size : ℕ) (live : List Block)
    → p ≢ 0
    → with_block p size live ≡ record { at = p; size = size } ∷ live
one_block p size live h =
    if_has (λ (bs : List Block). bs ≡ record { at = p; size = size } ∷ live) (p == 0)
      (λ e. absurd (h (ground (arith, e)))) (λ _. refl)

no_block : (p size : ℕ) (live : List Block) → p ≡ 0 → with_block p size live ≡ live
no_block p size live h =
    if_has (λ (bs : List Block). bs ≡ live) (p == 0) (λ _. refl)
      (λ e. absurd (ground (arith, e, h)))

malloc-Held :
    (h : Heap) (live : List Block) (size bytes blocks : ℕ)
    → Roomy h (size + 3 + bytes) (blocks + 1)
    → Held h live (malloc h size) free bytes blocks
malloc-Held h live size bytes blocks r =
    let p = (malloc h size).0 in
    let b : Block = record { at = p; size = size } in
    let one : Steps h live (malloc h size).1 (with_block p size live) = step start (
      requests size
        (record { address = omega (arith, r.address); count = omega (arith, r.count) })) in
    record {
      held = b ∷ live;
      taken = λ some_place.
          subst (λ (bs : List Block). Steps h live (malloc h size).1 bs)
            (one_block p size live some_place) one;
      refused = λ none.
          subst (λ (bs : List Block). Steps h live (malloc h size).1 bs) (no_block p size live none)
            one;
      released = λ g. step start (frees [] b live);
      room = malloc-Roomy h size bytes blocks r;
    }

-- A buffer that is the caller's.
given-Held :
    (h : Heap) (live : List Block) (p size bytes blocks : ℕ)
    → Roomy h (size + 3 + bytes) (blocks + 1)
    → Held h live (p, h) (λ g. g) bytes blocks
given-Held h live p size bytes blocks r = record {
  held = live;
  taken = λ _. start;
  refused = λ _. start;
  released = λ _. start;
  room = record {
    begins = r.begins;
    address = omega (arith, r.address);
    count = omega (arith, r.count);
  };
}

output_buffer-Held :
    (q : Request) (h : Heap) (live : List Block) (bytes blocks : ℕ)
    → Roomy h (0x8000 + 3 + bytes) (blocks + 1)
    → Held h live (output_buffer q h) (free_output q) bytes blocks
unfolding output_buffer free_output
output_buffer-Held q h live bytes blocks r =
    elim q.has_flush
      as (λ b.
        Held h live (if b then malloc h 0x8000 else (q.out_buf, h)) (λ g. if b then free g else g)
          bytes blocks) [
            | true ↦ malloc-Held h live 0x8000 bytes blocks r
            | false ↦ given-Held h live q.out_buf 0x8000 bytes blocks r
          ]

input_buffer-Held :
    (q : Request) (h : Heap) (live : List Block) (bytes blocks : ℕ)
    → Roomy h (gzip_iobuf_size + 3 + bytes) (blocks + 1)
    → Held h live (input_buffer q h) (free_input q) bytes blocks
unfolding input_buffer free_input
input_buffer-Held q h live bytes blocks r =
    elim q.buf
      as (λ b.
        Held h live (elim b [ none ↦ malloc h gzip_iobuf_size | some _ ↦ (1, h) ])
          (λ g. elim b [ none ↦ free g | some _ ↦ g ]) bytes blocks) [
            | none ↦ malloc-Held h live gzip_iobuf_size bytes blocks r
            | some _ ↦ given-Held h live 1 gzip_iobuf_size bytes blocks r
          ]

module _ (z : Zlib) (e : Caller) where
  abbrev pub all_sizes : Request → ℕ
  all_sizes q =
      0x8000 + 3 + (gzip_iobuf_size + 3 + (z.stream_size + 3 + (inflate_size z e q + 3 + 0)))

  abbrev GivesBack : Heap → List Block → Option (Done z e) → Type 0
  GivesBack h live none = Unit
  GivesBack h live (some d) = Steps h live d.heap live

  gunzip-GivesBack :
      (fuel : ℕ) (q : Request) (h : Heap) (w : e.World) (live : List Block)
      → Roomy h (all_sizes q) 4
      → GivesBack h live (gunzip z e fuel q h w)
  unfolding gunzip
  gunzip-GivesBack fuel q h w live room =
      let out = output_buffer q h in
      let zbuf = input_buffer q out.1 in
      let strm = malloc zbuf.1 z.stream_size in
      let workspace = malloc strm.1 (inflate_size z e q) in
      let a = output_buffer-Held q h live _ 3 room in
      let b = input_buffer-Held q out.1 a.held _ 2 a.room in
      let c = malloc-Held zbuf.1 b.held z.stream_size _ 1 b.room in
      let d = malloc-Held strm.1 c.held (inflate_size z e q) 0 0 c.room in
      let undo_b = λ (g : Heap). Steps-trans (b.released g) (a.released (free_input q g)) in
      let undo_c = λ (g : Heap). Steps-trans (c.released g) (undo_b (free g)) in
      let undo_d = λ (g : Heap). Steps-trans (d.released g) (undo_c (free g)) in
      let P = GivesBack h live in
      if_has P (out.0 == 0) (λ none. a.refused (ground (arith, none)))
        (λ one.
          let to_a = a.taken (some_place one) in
          if_has P (zbuf.0 == 0)
            (λ none.
              Steps-trans to_a (Steps-trans (b.refused (ground (arith, none))) (a.released zbuf.1)))
            (λ two.
              let to_b = Steps-trans to_a (b.taken (some_place two)) in
              if_has P (strm.0 == 0)
                (λ none.
                  Steps-trans to_b (Steps-trans (c.refused (ground (arith, none))) (undo_b strm.1)))
                (λ three.
                  let to_c = Steps-trans to_b (c.taken (some_place three)) in
                  if_has P (workspace.0 == 0)
                    (λ none.
                      Steps-trans to_c
                        (Steps-trans (d.refused (ground (arith, none))) (undo_c workspace.1)))
                    (λ four.
                      let all =
                        Steps-trans (Steps-trans to_c (d.taken (some_place four)))
                          (undo_d workspace.1) in
                      elim (unpack z e fuel q w)
                        as (λ x. P (elim x [
                          | none ↦ none
                          | some r ↦ some (record {
                            result = r;
                            heap = free_output q (free_input q (free (free workspace.1)));
                          })
                        ])) [ none ↦ tt | some r ↦ all ]))))
    where
      some_place : {n : ℕ} → (n == 0) ≡ false → n ≢ 0
      some_place e p = ground (arith, e, p)

  -- Whatever the file is and however `gunzip` ends, also where memory is refused, it leaves the
  -- heap by requests and by freeings of blocks in use, and the blocks in use are those from
  -- before: what it takes it gives back. The heap is one in which the addresses and the count do
  -- not wrap for the four buffers.
  pub gunzip-Steps :
      (fuel : ℕ) (q : Request) (h : Heap) (w : e.World) (live : List Block) (d : Done z e)
      → Roomy h (all_sizes q) 4
      → gunzip z e fuel q h w ≡ some d
      → Steps h live d.heap live
  gunzip-Steps fuel q h w live d room e =
      subst (GivesBack h live) e (gunzip-GivesBack fuel q h w live room)
