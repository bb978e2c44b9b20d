-- ===== src/Xz/Lzma2/Samples.antt =====
-- Test data for the chunk decoder: a decoder that waits for its first control byte.
use galaxys2_kernel_repack.Base.{◌-◌, ◌^◌, true, []}
use galaxys2_kernel_repack.Xz.Types.{dynalloc, dictionary}
use galaxys2_kernel_repack.Xz.Lzma2.{Lzma2, control}

abbrev pub chunks : Lzma2
chunks = record {
  lzma = record {
    rc = record {
      range = 2 ^ 32 - 1;
      code = 0;
      init_bytes_left = 5;
      input = [];
      in_pos = 0;
      in_limit = 0;
    };
    dict = record {
      buf = record { region = dictionary; offset = 0 };
      start = 0;
      pos = 0;
      full = 0;
      limit = 0;
      end = 0;
      size = 0;
      size_max = 1048576;
      allocated = 0;
      mode = dynalloc;
    };
    mem = λ _ _. 0;
    rep0 = 0;
    rep1 = 0;
    rep2 = 0;
    rep3 = 0;
    state = 0;
    len = 0;
    lc = 0;
    literal_pos_mask = 0;
    pos_mask = 0;
    probs = λ _. 1024;
  };
  sequence = control;
  next_sequence = control;
  uncompressed = 0;
  compressed = 0;
  need_dict_reset = true;
  need_props = true;
  temp_size = 0;
  temp_buf = [];
}
