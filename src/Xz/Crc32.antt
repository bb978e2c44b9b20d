-- ===== src/Xz/Crc32.antt =====
-- resources/lib/xz/xz_crc32.c: the table of the CRC32 and the checksum that is read off it.
use galaxys2_kernel_repack.Base.{ℕ, zero, suc, ◌+◌, ◌/◌, ◌^◌, bit_and, bit_xor, List, [], ◌∷◌}
use galaxys2_kernel_repack.Base.Bytes.{sub32, not32, update}
pub mod Reference
pub mod Laws
mod Tests

abbrev pub poly : ℕ
poly = 0xedb88320

-- One round of the inner loop, `r = (r >> 1) ^ (poly & ~((r & 1) - 1))`.
pub table_round : ℕ → ℕ
table_round r = bit_xor (r / 2) (bit_and poly (not32 (sub32 (bit_and r 1) 1)))

-- The inner loop, with its rounds left.
pub table_entry : ℕ → ℕ → ℕ
table_entry zero r = r
table_entry (suc left) r = table_entry left (table_round r)

-- The outer loop at index `i`, with its rounds left.
pub fill_table : ℕ → ℕ → (ℕ → ℕ) → ℕ → ℕ
fill_table zero i table = table
fill_table (suc left) i table = fill_table left (i + 1) (update table i (table_entry 8 i))

pub xz_crc32_init : (ℕ → ℕ) → ℕ → ℕ
xz_crc32_init table = fill_table 256 0 table

-- The static table, which is zero before the decompressor calls `xz_crc32_init`.
pub xz_crc32_table : ℕ → ℕ
xz_crc32_table = xz_crc32_init (λ i. 0)

-- The loop of `xz_crc32` over the bytes that are left.
pub crc_loop : List ℕ → ℕ → ℕ
crc_loop [] crc = crc
crc_loop (b ∷ rest) crc =
    crc_loop rest (bit_xor (xz_crc32_table (bit_xor b (bit_and crc 0xff))) (crc / 2 ^ 8))

-- `buf` is the `size` bytes from the pointer on.
unfoldable pub xz_crc32 : List ℕ → ℕ → ℕ
unfolding crc_loop xz_crc32_table xz_crc32_init fill_table table_entry table_round
xz_crc32 buf crc = not32 (crc_loop buf (not32 crc))
