-- ===== src/Xz/Stream/Header/Tests.antt =====
-- The Stream Header at a concrete input.
use galaxys2_kernel_repack.Base.{◌≡◌, ◌≤◌, ◌↔◌}
use galaxys2_kernel_repack.Xz.Types.{ok}
use galaxys2_kernel_repack.Xz.Crc32.{xz_crc32}
use galaxys2_kernel_repack.Xz.Stream.{array_bytes, get_le32, check_crc32}
use galaxys2_kernel_repack.Xz.Stream.Samples.{decoder}
use galaxys2_kernel_repack.Xz.Stream.Header.{header_magic, dec_stream_header}
use galaxys2_kernel_repack.Xz.Stream.Header.Laws.{dec_stream_header_accepts}

dec_stream_header_accepts_example :
    (((dec_stream_header decoder).0 ≡ ok) ↔ (
      (array_bytes decoder.temp_buf 0 6 ≡ header_magic)
      × (xz_crc32 (array_bytes decoder.temp_buf 6 2) 0 ≡ get_le32 decoder.temp_buf 8)
      × (decoder.temp_buf 6 ≡ 0)
      × (decoder.temp_buf 7 ≤ check_crc32)))
    × ((dec_stream_header decoder).0 ≡ ok
        → (dec_stream_header decoder).1.check_type ≡ decoder.temp_buf 7)
dec_stream_header_accepts_example = dec_stream_header_accepts decoder
