-- ===== src/Xz/Stream/Samples.antt =====
-- Test data for the stream decoder: a decoder and a buffer.
use galaxys2_kernel_repack.Base.{ℕ, List, [], ◌∷◌, get_or, false}
use galaxys2_kernel_repack.Xz.Types.{prealloc, output, XzBuf}
use galaxys2_kernel_repack.Xz.Stream.{XzDec, stream_header, index_count, Hash}

abbrev pub no_sizes : Hash
no_sizes = record { unpadded = 0; uncompressed = 0; crc32 = 0 }

-- The Stream Header of a file with a CRC32 check.
abbrev pub header : List ℕ
header = 0xfd ∷ 0x37 ∷ 0x7a ∷ 0x58 ∷ 0x5a ∷ 0 ∷ 0 ∷ 1 ∷ 0x69 ∷ 0x22 ∷ 0xde ∷ 0x36 ∷ []

abbrev pub decoder : XzDec
decoder = record {
  sequence = stream_header;
  pos = 0;
  vli = 0;
  in_start = 0;
  out_start = 0;
  crc32 = 0x04030201;
  check_type = 0;
  mode = prealloc;
  allow_buf_error = false;
  header_compressed = 3;
  header_uncompressed = 0;
  header_size = 12;
  block_compressed = 0;
  block_uncompressed = 0;
  block_count = 1;
  block_hash = no_sizes;
  index_sequence = index_count;
  index_size = 0;
  index_count = 0;
  index_hash = no_sizes;
  temp_pos = 0;
  temp_size = 12;
  temp_buf = λ i. get_or header i 0;
  bcj_active = false;
}

abbrev pub buffer : List ℕ → XzBuf
buffer bytes = record {
  input = bytes;
  in_pos = 0;
  out = record { region = output; offset = 0 };
  out_pos = 0;
  out_size = 20;
}
