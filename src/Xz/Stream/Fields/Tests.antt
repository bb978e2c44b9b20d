-- ===== src/Xz/Stream/Fields/Tests.antt =====
-- A CRC32 field with the bytes of the computed value.
use galaxys2_kernel_repack.Base.{◌+◌, ◌/◌, ◌%◌, ◌≡◌, ◌↔◌, refl, arith, [], ◌∷◌}
use galaxys2_kernel_repack.Xz.Types.{stream_end, XzBuf, in_byte}
use galaxys2_kernel_repack.Xz.Stream.Samples.{decoder, buffer}
use galaxys2_kernel_repack.Xz.Stream.Fields.{crc32_validate}
use galaxys2_kernel_repack.Xz.Stream.Fields.Laws.{crc32_validate_accepts}

abbrev field : XzBuf
field = buffer (1 ∷ 2 ∷ 3 ∷ 4 ∷ [])

crc32_validate_accepts_example : ((crc32_validate decoder field).ret ≡ stream_end) ↔ (
    (in_byte field 0 ≡ 0x04030201 % 256)
    × ((in_byte field (0 + 1) ≡ 0x04030201 / 256 % 256)
        × ((in_byte field (0 + 2) ≡ 0x04030201 / 65536 % 256)
            × (in_byte field (0 + 3) ≡ 0x04030201 / 16777216 % 256))))
crc32_validate_accepts_example = crc32_validate_accepts decoder field refl (omega arith)
