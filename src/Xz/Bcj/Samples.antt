-- ===== src/Xz/Bcj/Samples.antt =====
-- Test data: the filters of the program, with the states of a BCJ filter and of an LZMA2 decoder.
use galaxys2_kernel_repack.Base.{ℕ, Bool, true, List, [], ◌∷◌}
use galaxys2_kernel_repack.Xz.Types.{ok, single}
use galaxys2_kernel_repack.Xz.Stream.{Chain}
use galaxys2_kernel_repack.Xz.Bcj.{Bcj}
use galaxys2_kernel_repack.Xz.Bcj.Chain.{filters}
use galaxys2_kernel_repack.Xz.Lzma2.{Lzma2}
use galaxys2_kernel_repack.Xz.Lzma2.Samples.{chunks}

abbrev pub filter : Bcj
filter = record {
  type = 7;
  ret = ok;
  single_call = true;
  pos = 8;
  temp_filtered = 2;
  temp_size = 5;
}

abbrev enough_memory : ℕ → Bool
enough_memory _ = true

abbrev pub all_filters : Chain
all_filters = filters enough_memory 1000

-- In single-call mode the dictionary is the output itself.
abbrev pub states : Bcj × Lzma2
states = (
  filter,
  record chunks {
    lzma = record (chunks.lzma) { dict = record (chunks.lzma.dict) { mode = single } };
  },
)

-- An .xz stream with one Block of 15 bytes, through the ARM filter and LZMA2.
abbrev pub stream : List ℕ
stream =
    253 ∷ 55 ∷ 122 ∷ 88 ∷ 90 ∷ 0 ∷ 0 ∷ 1 ∷ 105 ∷ 34 ∷ 222 ∷ 54 ∷ 2 ∷ 1 ∷ 7 ∷ 0 ∷ 33 ∷ 1 ∷ 0 ∷ 0
    ∷ 116 ∷ 65 ∷ 57 ∷ 133 ∷ 224 ∷ 0 ∷ 14 ∷ 0 ∷ 8 ∷ 93 ∷ 0 ∷ 48 ∷ 152 ∷ 136 ∷ 169 ∷ 27 ∷ 85 ∷ 208 ∷ 0
    ∷ 0 ∷ 163 ∷ 140 ∷ 39 ∷ 211 ∷ 0 ∷ 1 ∷ 32 ∷ 15 ∷ 24 ∷ 140 ∷ 189 ∷ 37 ∷ 144 ∷ 66 ∷ 153 ∷ 13 ∷ 1 ∷ 0
    ∷ 0 ∷ 0 ∷ 0 ∷ 1 ∷ 89 ∷ 90 ∷ []
