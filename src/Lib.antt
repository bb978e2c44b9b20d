-- ===== src/Lib.antt =====
-- Verification of the boot decompressor of the Galaxy S2 kernel repack tools.
--
-- The repository packs a kernel and an initramfs into one image. The image starts with the boot
-- code under resources/arch/arm/boot/compressed, which unpacks the kernel with one of the
-- decompressors under resources/lib. This library models the .xz decompressor, the one in
-- resources/lib/xz, in the configuration of that boot code: the ARM BCJ filter is enabled, checks
-- other than CRC32 are not, `size_t` has 32 bits and `vli_type` 64. It also models the wrapper
-- around it, the boot code that calls it, the framing of lzop files, and the decompressor of the
-- older .lzma files, the wrapper around zlib for .gz files, and the heap of the boot code.
--
-- Parts, from the bottom up:
--   Xz/Types       include/linux/xz.h (`enum xz_mode`, `enum xz_ret`, `struct xz_buf`) and the
--                  memory that the decoders share: pointers are a region with an offset.
--   Xz/Crc32       lib/xz/xz_crc32.c: the table and `xz_crc32`.
--   Xz/Vli         `dec_vli` of lib/xz/xz_dec_stream.c.
--   Xz/Dict        `struct dictionary` and the `dict_` functions of lib/xz/xz_dec_lzma2.c.
--   Xz/RangeCoder  `struct rc_dec` and the `rc_` functions of the same file.
--   Xz/Lzma        the LZMA symbols of the same file and of lib/xz/xz_lzma2.h: `lzma_literal`,
--                  `lzma_len`, `lzma_match`, `lzma_rep_match`, `lzma_main`, `lzma_reset`,
--                  `lzma_props`.
--   Xz/Lzma2       the chunks: `lzma2_lzma`, `xz_dec_lzma2_run`, `xz_dec_lzma2_reset`.
--   Xz/Stream      lib/xz/xz_dec_stream.c: Fields, Header, Block, Index and Main (`dec_main`,
--                  `xz_dec_run`). It uses the filters through the record `Chain` of their
--                  operations.
--   Xz/Bcj         lib/xz/xz_dec_bcj.c with the ARM filter, over the record `Next` of the operations
--                  of the next filter. Xz/Bcj/Chain fills `Next` with `xz_dec_lzma2_run` and
--                  `Chain` with both filters.
--   Xz/Unxz        lib/decompress_unxz.c: `memmove`, `memzero`, `unxz`, and `xz_dec_init`.
--   Boot           arch/arm/boot/compressed/misc.c and decompress.c: `memcpy`, `do_decompress`,
--                  `decompress_kernel`. It calls `unxz` as the build with .xz does.
--   Malloc         include/linux/decompress/mm.h: `malloc` and `free` of the boot code.
--   Gunzip         lib/decompress_inflate.c: `gunzip`, with the memory that it takes from Malloc.
--   Lzo            lib/decompress_unlzo.c: `parse_header` and `unlzo`.
--   Unlzma         lib/decompress_unlzma.c: `struct rc` and the `rc_` functions; in Unlzma/Decoder the
--                  writer, `process_bit0`, `process_bit1` and `unlzma`.
-- Base holds the shared names, the Boolean tests, lists, bits and bytes. All paths are under
-- resources/.
--
-- A function that changes a struct takes the struct and returns it. Words wrap by `% 2 ^ 32` and
-- `% 2 ^ 64`, and subtraction on words is `sub32`. The probabilities of `struct lzma_dec` are one
-- array, as `lzma_reset` treats them. A `switch` with fall-through is one function per case, each
-- calling the next; a loop around it runs on fuel and returns an `Option`, or on its rounds left.
--
-- Fuel: `dec_main` has the bytes of its input left and three more passes, and the loop of
-- `xz_dec_lzma2_run` a number of rounds that is a parameter; that they are enough is not shown, and a
-- run without enough fuel is `none` up to `decompress_kernel`. The loops of `lzma_main`
-- and `dict_uncompressed` have the space left in the dictionary and the bytes left in the chunk;
-- `dec_index` has the bytes of the input left and one more. The padding loops have four rounds.
-- `unlzo` on a file in memory takes one round per block and one for the end. The loop of `unxz`
-- with callbacks has its fuel from the caller, since the callbacks decide how long it runs; without
-- callbacks `unxz` does not use it. The loop of `gunzip` in memory takes a round per byte of the
-- file or of the room for its output, and two more. The loop of `unlzma` in memory takes a round
-- per byte to write at most, and one for the end; the loops of `peek_old_byte` have the distance,
-- and the number of 32-bit words.
--
-- Parameters: the callbacks `fill` and `flush`, `lzo1x_decompress_safe`, the functions of zlib, the
-- contents of fresh memory, and, but for `gunzip`, memory allocation.
--
-- Not modelled: freeing, but for `gunzip`; the zlib and LZO libraries, which are copies of other projects;
-- BCJ filters that the build leaves out; the device output and the assembly of the boot code; the
-- scripts.
pub mod Base
pub mod Malloc
pub mod Gunzip
pub mod Xz
pub mod Boot
pub mod Lzo
pub mod Unlzma
