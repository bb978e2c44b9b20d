-- ===== src/Xz/RangeCoder/Tests.antt =====
-- The range coder at concrete inputs.
use galaxys2_kernel_repack.Base.{ℕ, ◌+◌, ◌-◌, ◌*◌, ◌^◌, ◌<◌, ◌≤◌, ◌≡◌, arith, [], ◌∷◌}
use galaxys2_kernel_repack.Xz.RangeCoder.{Rc, rc_bit, rc_bittree, direct_step}
use galaxys2_kernel_repack.Xz.RangeCoder.Invariant.{IsCoder, rc_bit-IsCoder}
use galaxys2_kernel_repack.Xz.RangeCoder.Trees.{IsStep, rc_bittree-IsStep}
use galaxys2_kernel_repack.Xz.RangeCoder.DirectBits.{compare_step, direct_step-compare_step}

abbrev pub coder : Rc
coder = record {
  range = 2 ^ 32 - 1;
  code = 5000000;
  init_bytes_left = 0;
  input = 7 ∷ 8 ∷ 9 ∷ [];
  in_pos = 0;
  in_limit = 3;
}

abbrev pub halves : ℕ → ℕ
halves _ = 1024

abbrev coder-IsCoder : IsCoder coder halves
coder-IsCoder = record { ranged = ground arith; likely = λ i h. (omega arith, omega arith) }

rc_bit-IsCoder_example :
    IsCoder (rc_bit coder halves 3).rc (rc_bit coder halves 3).probs
    × ((rc_bit coder halves 3).value ≤ 1)
    × ((rc_bit coder halves 3).rc.in_pos ≤ 0 + 1)
    × (5000000 < 2 ^ 32 - 1 → (rc_bit coder halves 3).rc.code < (rc_bit coder halves 3).rc.range)
rc_bit-IsCoder_example = rc_bit-IsCoder coder halves 3 coder-IsCoder (omega arith)

rc_bittree-IsStep_example :
    IsStep 3 coder (rc_bittree coder halves 10 (2 ^ 3))
    × (2 ^ 3 ≤ (rc_bittree coder halves 10 (2 ^ 3)).value)
    × ((rc_bittree coder halves 10 (2 ^ 3)).value < 2 * 2 ^ 3)
rc_bittree-IsStep_example =
    rc_bittree-IsStep 3 coder halves 10 coder-IsCoder (omega arith) (omega arith)

direct_step-compare_step_example : direct_step coder 3 ≡ compare_step coder 3
direct_step-compare_step_example = direct_step-compare_step coder 3 (omega arith) (omega arith)
