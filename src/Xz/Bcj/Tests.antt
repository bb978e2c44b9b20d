-- ===== src/Xz/Bcj/Tests.antt =====
-- The BCJ filter at concrete inputs.
use galaxys2_kernel_repack.Base.{ℕ, ◌+◌, ◌-◌, ◌*◌, ◌/◌, ◌<◌, ◌≤◌, ◌≡◌, refl, arith, []}
use galaxys2_kernel_repack.Xz.Types.{Mem, XzBuf, output, load}
use galaxys2_kernel_repack.Xz.Types.{Ptr}
use galaxys2_kernel_repack.Xz.Bcj.{temp, Drained, bcj_arm, bcj_flush}
use galaxys2_kernel_repack.Xz.Bcj.Samples.{filter}
use galaxys2_kernel_repack.Xz.Bcj.Flush.{bcj_flush_lem}
use galaxys2_kernel_repack.Xz.Bcj.Arm.{bcj_arm_lem, IsDecoded}

abbrev code : Ptr
code = record { region = output; offset = 0 }

-- Every word is a branch.
abbrev branches : Mem
branches _ _ = 0xeb

bcj_arm_lem_example :
    ((bcj_arm filter branches code 10).filtered ≡ 10 / 4 * 4)
    × ((k : ℕ)
        → k < 10 / 4
        → IsDecoded 8 branches (bcj_arm filter branches code 10).mem code (4 * k))
    × ((j : ℕ)
        → 10 / 4 * 4 ≤ j
        → load (bcj_arm filter branches code 10).mem code j ≡ load branches code j)
bcj_arm_lem_example = bcj_arm_lem filter branches code 10 (λ _ _. omega arith) refl

abbrev buffer : XzBuf
buffer = record { input = []; in_pos = 0; out = code; out_pos = 4; out_size = 20 }

abbrev flushed : Drained
flushed = bcj_flush filter branches buffer

bcj_flush_lem_example :
    (flushed.buf.out_pos ≡ 4 + 2)
    × (flushed.bcj.temp_filtered ≡ 2 - 2)
    × (flushed.bcj.temp_size ≡ 5 - 2)
    × (1 < 2 → load flushed.mem code (4 + 1) ≡ load branches temp 1)
    × (1 < 5 - 2 → load flushed.mem temp 1 ≡ load branches temp (2 + 1))
bcj_flush_lem_example = bcj_flush_lem filter branches buffer 1 (λ e. cc)
