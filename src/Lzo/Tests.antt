-- ===== src/Lzo/Tests.antt =====
-- `unlzo` at concrete inputs.
use galaxys2_kernel_repack.Base.{ℕ, ◌+◌, refl, arith, true, inl, List, [], ◌∷◌, ◌++◌}
use galaxys2_kernel_repack.Lzo.{Env, parse_header, has_magic, lzop_magic, unlzo}
use galaxys2_kernel_repack.Lzo.Blocks.{
  Block, in_memory, frames_length, IsUnpacked, frames, unlzo-frames,
}
use mathlib.Core.Option.{some}

-- Version 0x1030, no filter, a file name of two bytes.
abbrev header : List ℕ
header =
    lzop_magic
    ++ (0x10 ∷ 0x30 ∷ 0x20 ∷ 0x60 ∷ 0x09 ∷ 0x40 ∷ 1 ∷ 5 ∷ 0 ∷ 0 ∷ 0 ∷ 0 ∷ 0 ∷ 0 ∷ 0 ∷ 0 ∷ [])
    ++ (1 ∷ 2 ∷ 3 ∷ 4 ∷ 0 ∷ 0 ∷ 0 ∷ 0 ∷ 2 ∷ 97 ∷ 98 ∷ 0 ∷ 0 ∷ 0 ∷ 0 ∷ [])

-- A library that gives nothing back, which stored blocks do not need.
abbrev stored_only : Env
stored_only = record {
  World = ℕ;
  malloc = λ _. true;
  lzo1x_decompress_safe = λ _ _. record { code = 250; out = [] };
  fill = λ w _. (w, []);
  flush = λ w _. (w, true);
}

abbrev hello : Block
hello = record { raw = 104 ∷ 105 ∷ []; packed = 104 ∷ 105 ∷ []; checksum = 7 }

abbrev file : List ℕ
file = header ++ frames (hello ∷ []) []

unlzo-frames_example :
    IsUnpacked stored_only
      (unlzo stored_only 2 (in_memory stored_only) (some file) 0)
      (104 ∷ 105 ∷ [])
      (40 + frames_length stored_only (hello ∷ []))
unfolding parse_header has_magic
unlzo-frames_example =
    unlzo-frames stored_only 2 40 file [] (hello ∷ []) 0 (omega arith) refl refl
      (record { some_bytes = omega arith; small = omega arith; shape = inl refl }, tt)
