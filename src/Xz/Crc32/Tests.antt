-- ===== src/Xz/Crc32/Tests.antt =====
-- The check value of the CRC32 and the theorems at concrete inputs.
use galaxys2_kernel_repack.Base.{ℕ, ◌≡◌, ◌≢◌, refl, arith, List, [], ◌∷◌, ◌++◌}
use galaxys2_kernel_repack.Base.Bytes.{not32}
use galaxys2_kernel_repack.Xz.Crc32.{xz_crc32}
use galaxys2_kernel_repack.Xz.Crc32.Reference.{reference_loop, xz_crc32-reference}
use galaxys2_kernel_repack.Xz.Crc32.Laws.{xz_crc32-detects}

-- The ASCII digits "123456789".
abbrev digits : List ℕ
digits = 49 ∷ 50 ∷ 51 ∷ 52 ∷ 53 ∷ 54 ∷ 55 ∷ 56 ∷ 57 ∷ []

check_value : xz_crc32 digits 0 ≡ 0xcbf43926
unfolding xz_crc32
check_value = refl

xz_crc32-reference_example : xz_crc32 digits 0 ≡ not32 (reference_loop digits (not32 0))
xz_crc32-reference_example = xz_crc32-reference digits 0 (omega arith)

xz_crc32-detects_example :
    xz_crc32 ((49 ∷ []) ++ (50 ∷ 51 ∷ [])) 0 ≢ xz_crc32 ((49 ∷ []) ++ (48 ∷ 51 ∷ [])) 0
xz_crc32-detects_example =
    xz_crc32-detects (49 ∷ []) (51 ∷ []) 50 48 0 (omega arith) (omega arith) (omega arith)
      (omega arith) (omega arith) (omega arith)
