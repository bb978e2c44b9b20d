-- ===== src/Xz/Lzma/Tests.antt =====
-- The LZMA decoder at concrete inputs.
use galaxys2_kernel_repack.Base.{◌+◌, ◌-◌, ◌^◌, ◌<◌, ◌≤◌, ◌≡◌, arith, true, false, [], ◌∷◌}
use galaxys2_kernel_repack.Xz.Types.{single, output}
use galaxys2_kernel_repack.Base.{refl}
use galaxys2_kernel_repack.Xz.RangeCoder.{rc_bit, bit_step, rc_normalize}
use galaxys2_kernel_repack.Xz.Lzma.{Lzma, lzma_main, main_loop, lzma_symbol}
use galaxys2_kernel_repack.Xz.Lzma.Confined.{Confined, lzma_main-Confined}
use galaxys2_kernel_repack.Xz.Lzma.Writes.{IsOpen, lzma_main-moves}
use galaxys2_kernel_repack.Xz.Lzma.Bounds.{IsLzma, lzma_main_reads}
use galaxys2_kernel_repack.Xz.Lzma.Symbols.{goes_on, lzma_main-ends}

abbrev decoder : Lzma
decoder = record {
  rc = record {
    range = 2 ^ 32 - 1;
    code = 5000000;
    init_bytes_left = 0;
    input = 7 ∷ 8 ∷ 9 ∷ [];
    in_pos = 0;
    in_limit = 3;
  };
  dict = record {
    buf = record { region = output; offset = 0 };
    start = 0;
    pos = 0;
    full = 0;
    limit = 4;
    end = 10;
    size = 10;
    size_max = 0;
    allocated = 0;
    mode = single;
  };
  mem = λ _ i. i;
  rep0 = 0;
  rep1 = 0;
  rep2 = 0;
  rep3 = 0;
  state = 0;
  len = 0;
  lc = 3;
  literal_pos_mask = 0;
  pos_mask = 3;
  probs = λ _. 1024;
}

lzma_main-ends_example :
    ((lzma_main decoder).lzma.state < 12)
    × ((lzma_main decoder).done ≡ true
        → (inner : Lzma) × (goes_on inner ≡ false)
          × ((lzma_main decoder).lzma ≡ record inner { rc = rc_normalize inner.rc }))
lzma_main-ends_example = lzma_main-ends decoder (omega arith)

-- The decoder with a memory of zeros.
abbrev fresh : Lzma
fresh = record decoder { mem = λ _ _. 0 }

fresh-IsLzma : IsLzma fresh
fresh-IsLzma = record {
  coder = record {
    ranged = record {
      low = omega arith;
      high = omega arith;
      word = omega arith;
      bytes = (omega arith, (omega arith, (omega arith, tt)));
    };
    likely = λ _ _. (omega arith, omega arith);
  };
  valid = omega arith;
  positions = omega arith;
  context = omega arith;
  coders = omega arith;
  bytes = λ _ _. omega arith;
}

lzma_main_reads_example :
    IsLzma (lzma_main fresh).lzma
    × (0 ≤ (lzma_main fresh).lzma.rc.in_pos)
    × ((lzma_main fresh).lzma.rc.in_pos ≤ 3 + 21)
lzma_main_reads_example = lzma_main_reads fresh fresh-IsLzma (omega arith)

-- Room for one byte, which is a literal.
abbrev one_byte : Lzma
one_byte = record decoder { dict = record (decoder.dict) { limit = 1 } }

one_byte-done : (lzma_main one_byte).done ≡ true
unfolding lzma_main main_loop lzma_symbol rc_bit bit_step rc_normalize
one_byte-done = refl

one_byte-IsOpen : IsOpen one_byte.dict
one_byte-IsOpen = record {
  ordered = record {
    started = omega arith;
    filled = omega arith;
    inside = omega arith;
    word = omega arith;
  };
  limited = record { before = omega arith; within = omega arith };
}

lzma_main-moves_example : 0 < (lzma_main one_byte).lzma.dict.pos
lzma_main-moves_example =
    lzma_main-moves one_byte one_byte-IsOpen (omega arith) (omega arith) (omega arith) one_byte-done

lzma_main-Confined_example : Confined one_byte (lzma_main one_byte).lzma
lzma_main-Confined_example = lzma_main-Confined one_byte one_byte-IsOpen
