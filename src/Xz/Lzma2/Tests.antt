-- ===== src/Xz/Lzma2/Tests.antt =====
-- The chunk decoder at concrete inputs.
use galaxys2_kernel_repack.Base.{ℕ, ◌≤◌, ◌≡◌, ◌↔◌, ◌⊎◌, Bool, true, false, [], ◌∷◌}
use galaxys2_kernel_repack.Xz.Types.{output, XzBuf}
use galaxys2_kernel_repack.Xz.Lzma2.{Lzma2, again, control_byte, xz_dec_lzma2_reset}
use galaxys2_kernel_repack.Base.{arith, refl, All}
use galaxys2_kernel_repack.Base.Bytes.{IsByte}
use galaxys2_kernel_repack.Xz.Lzma.{Lzma}
use galaxys2_kernel_repack.Xz.Lzma2.Writes.{Outputs, run_chunk-Outputs}
use galaxys2_kernel_repack.Xz.Lzma2.{run_chunk, lzma_run, lzma_prepare, switch, Pass}
use galaxys2_kernel_repack.Xz.Lzma.Bounds.{IsLzma}
use galaxys2_kernel_repack.Base.{zero, suc, inl}
use galaxys2_kernel_repack.Xz.Lzma2.Sequence.{IsChunked}
use galaxys2_kernel_repack.Xz.Lzma2.Sequence.Run.{
  Reaches, start, pass, IsReached, Reaches-IsReached, Reaches-IsLzma,
}
use galaxys2_kernel_repack.Xz.Lzma2.Sequence.Reset.{xz_dec_lzma2_reset-IsChunked}
use galaxys2_kernel_repack.Xz.Lzma2.{lzma2_lzma}
use galaxys2_kernel_repack.Xz.Lzma2.Inside.{IsFed, IsInside, lzma2_lzma-IsInside}
use galaxys2_kernel_repack.Xz.Lzma2.Samples.{chunks}
use galaxys2_kernel_repack.Xz.Lzma2.Control.{control_byte_accepts, xz_dec_lzma2_reset-allocated}

abbrev buffer : XzBuf
buffer = record {
  input = 1 ∷ 0 ∷ [];
  in_pos = 1;
  out = record { region = output; offset = 0 };
  out_pos = 0;
  out_size = 20;
}

abbrev enough_memory : ℕ → Bool
enough_memory _ = true

-- Uncompressed chunks, with and without a reset of the dictionary.
abbrev reset_and_copy : ℕ
reset_and_copy = 1

abbrev only_copy : ℕ
only_copy = 2

control_byte_accepts_example : ((control_byte chunks buffer only_copy).turn ≡ again) ↔ (
    (only_copy ≡ 1)
    ⊎ ((0xe0 ≤ only_copy)
        ⊎ ((true ≡ false)
            × ((only_copy ≡ 2) ⊎ ((0xc0 ≤ only_copy) ⊎ ((0x80 ≤ only_copy) × (true ≡ false)))))))
control_byte_accepts_example = control_byte_accepts chunks buffer only_copy

xz_dec_lzma2_reset-allocated_example :
    (xz_dec_lzma2_reset enough_memory chunks 8).1.lzma.dict.allocated ≤ 0
xz_dec_lzma2_reset-allocated_example = xz_dec_lzma2_reset-allocated enough_memory chunks 8

chunks-IsFed : IsFed chunks
chunks-IsFed = record {
  valid = record {
    coder = record {
      ranged = record { low = omega arith; high = omega arith; word = omega arith; bytes = tt };
      likely = λ _ _. (omega arith, omega arith);
    };
    valid = omega arith;
    positions = omega arith;
    context = omega arith;
    coders = omega arith;
    bytes = λ _ _. omega arith;
  };
  bytes = tt;
  small = omega arith;
}

lzma2_lzma-IsInside_example : IsInside buffer (lzma2_lzma chunks buffer)
lzma2_lzma-IsInside_example =
    lzma2_lzma-IsInside chunks buffer chunks-IsFed (omega arith, (omega arith, tt)) (omega arith)

-- A decoder as `kmalloc` leaves it: no state of the LZMA decoder is valid.
abbrev raw_lzma : Lzma
raw_lzma = record (chunks.lzma) { state = 99; pos_mask = 255; lc = 77; probs = λ _. 0 }

abbrev raw : Lzma2
raw =
    (xz_dec_lzma2_reset enough_memory (record chunks { lzma = raw_lzma; next_sequence = lzma_run })
      8).1

raw-IsChunked : IsChunked raw
unfolding xz_dec_lzma2_reset
raw-IsChunked =
    xz_dec_lzma2_reset-IsChunked enough_memory
      (record chunks { lzma = raw_lzma; next_sequence = lzma_run }) 8
      (record { temp = tt; small = omega arith; input = tt; bytes = λ _ _. omega arith }) refl

-- A chunk with new properties of 1 byte that follows a reset of everything.
abbrev chunk : XzBuf
chunk = record buffer { input = 0xe0 ∷ 0 ∷ 0 ∷ 0 ∷ 5 ∷ 93 ∷ 0 ∷ 0 ∷ []; in_pos = 0 }

chunk-IsBytes : All IsByte chunk.input
chunk-IsBytes = ground arith

-- A decoder in use, and the header of a chunk without properties.
abbrev used : Lzma2
used = record chunks { need_dict_reset = false; need_props = false }

used-IsChunked : IsChunked used
used-IsChunked = record {
  filled = record { temp = tt; small = omega arith; input = tt; bytes = λ _ _. omega arith };
  begins = λ _. refl;
  order = λ e _. cc;
  ready = λ _. chunks-IsFed.valid;
}

abbrev plain : XzBuf
plain = record buffer { input = 0x80 ∷ 0 ∷ 0 ∷ 0 ∷ 5 ∷ []; in_pos = 0 }

-- Up to the first bytes of the chunk.
abbrev passes : ℕ → Lzma2 → XzBuf → Pass
passes zero s b = record { turn = again; dec = s; buf = b }
passes (suc n) s b = let p = passes n s b in switch p.dec.sequence p.dec p.buf

prepared : Reaches used plain (passes 5 used plain).dec (passes 5 used plain).buf
unfolding switch control_byte
prepared = pass (pass (pass (pass (pass start refl) refl) refl) refl) refl

prepared_at : (passes 5 used plain).dec.sequence ≡ lzma_prepare
unfolding switch control_byte
prepared_at = refl

Reaches-IsReached_example : IsReached plain (passes 5 used plain).dec (passes 5 used plain).buf
Reaches-IsReached_example = Reaches-IsReached used-IsChunked (ground arith) (omega arith) prepared

Reaches-IsLzma_example : IsLzma (passes 5 used plain).dec.lzma
Reaches-IsLzma_example =
    Reaches-IsLzma used-IsChunked (ground arith) (omega arith) prepared (inl prepared_at)

-- A chunk of 5 bytes into an output of 20.
abbrev running : Lzma2
running = record used {
  sequence = lzma_run;
  uncompressed = 5;
  compressed = 1;
  lzma = record (chunks.lzma) { dict = record (chunks.lzma.dict) { size = 4096; end = 4096 } };
}

run_chunk-Outputs_example : Outputs running plain (run_chunk running plain)
run_chunk-Outputs_example =
    run_chunk-Outputs running plain
      (record {
        started = omega arith;
        filled = omega arith;
        inside = omega arith;
        word = omega arith;
      })
      refl (omega arith) (omega arith)
