-- ===== src/Unlzma/Tests.antt =====
-- unlzma at concrete inputs.
use galaxys2_kernel_repack.Base.{ℕ, ◌-◌, ◌^◌, ◌≡◌, refl, arith, false, List, [], ◌∷◌}
use galaxys2_kernel_repack.Base.{◌≢◌}
use galaxys2_kernel_repack.Unlzma.Decoder.{unlzma_loop}
use galaxys2_kernel_repack.Unlzma.Ends.{unlzma_loop-returns}
use mathlib.Core.Option.{none}
use galaxys2_kernel_repack.Xz.RangeCoder
use galaxys2_kernel_repack.Xz.RangeCoder.{rc_bittree}
use galaxys2_kernel_repack.Unlzma.{Reader, Rc, rc_bit_tree_decode}
use galaxys2_kernel_repack.Base.{true}
use galaxys2_kernel_repack.Unlzma.Decoder.{
  Output, Header, State, start, process_bit0, round, goes_on,
}
use galaxys2_kernel_repack.Unlzma.Distances.{places, IsWritten, round-IsWritten}
use galaxys2_kernel_repack.Unlzma.RangeCoder.{Same, rc_bit_tree_decode-rc_bittree}

abbrev no_fill : Reader
no_fill = record { World = ℕ; fill = λ w _. (w, []) }

abbrev bytes : List ℕ
bytes = 7 ∷ 8 ∷ 9 ∷ []

abbrev here : Rc no_fill
here = record {
  buffer = bytes;
  size = 3;
  ptr = 0;
  code = 5000000;
  range = 2 ^ 32 - 1;
  bound = 0;
  failed = false;
  world = 0;
}

abbrev there : RangeCoder.Rc
there = record {
  range = 2 ^ 32 - 1;
  code = 5000000;
  init_bytes_left = 0;
  input = bytes;
  in_pos = 0;
  in_limit = 3;
}

here-Same : Same no_fill here there
here-Same = record {
  range = refl;
  code = refl;
  input = refl;
  place = refl;
  all = refl;
  bytes = (omega arith, (omega arith, (omega arith, tt)));
}

rc_bit_tree_decode-rc_bittree_example :
    Same no_fill
      (rc_bit_tree_decode no_fill here (λ _. 1024) 0 3).rc
      (rc_bittree there (λ _. 1024) 0 (2 ^ 3)).rc
    × ((rc_bit_tree_decode no_fill here (λ _. 1024) 0 3).symbol
        ≡ (rc_bittree there (λ _. 1024) 0 (2 ^ 3)).value - 2 ^ 3)
    × ((rc_bit_tree_decode no_fill here (λ _. 1024) 0 3).probs
        ≡ (rc_bittree there (λ _. 1024) 0 (2 ^ 3)).probs)
rc_bit_tree_decode-rc_bittree_example =
    rc_bit_tree_decode-rc_bittree no_fill here there (λ _. 1024) 0 3 here-Same (omega arith)
      (omega arith)

abbrev in_memory : Output no_fill
in_memory = record { has_flush = false; flush = λ w _. (w, true) }

-- The usual properties, and ten bytes to write.
abbrev ten_bytes : Header
ten_bytes = record {
  dict_size = 4096;
  dst_size = 10;
  lc = 3;
  literal_pos_mask = 0;
  pos_state_mask = 3;
}

-- After two bytes, with distances 1 and 2.
abbrev two_written : State no_fill in_memory ten_bytes
two_written = record (start no_fill in_memory ten_bytes here) {
  buffer_pos = 2;
  previous_byte = 7;
  rep0 = 2;
}

round-IsWritten_example :
    ((places no_fill in_memory ten_bytes two_written
        ≡ record { global = 0; place = 0; rep0 = 1; rep1 = 1; rep2 = 1; rep3 = 1 })
      → IsWritten (
          places no_fill in_memory ten_bytes
            (process_bit0 no_fill in_memory ten_bytes two_written).next))
    × (IsWritten (places no_fill in_memory ten_bytes two_written)
        → (round no_fill in_memory ten_bytes two_written).turn ≡ goes_on
        → IsWritten (
            places no_fill in_memory ten_bytes
              (round no_fill in_memory ten_bytes two_written).next))
round-IsWritten_example = round-IsWritten no_fill in_memory ten_bytes refl two_written

unlzma_loop-returns_example : unlzma_loop no_fill in_memory ten_bytes 9 two_written ≢ none
unfolding start
unlzma_loop-returns_example =
    unlzma_loop-returns no_fill in_memory ten_bytes refl 9 two_written (omega arith) refl
      (omega arith) (omega arith)
