-- ===== src/Malloc/Tests.antt =====
-- The heap at concrete requests.
use galaxys2_kernel_repack.Base.{◌≡◌, refl, arith, [], ◌∷◌}
use galaxys2_kernel_repack.Malloc.{Heap, malloc, free}
use galaxys2_kernel_repack.Malloc.Blocks.{
  Block, IsHeap, requests, frees, Steps, start, step, Steps-IsHeap,
}

-- 4 KiB of memory.
abbrev fresh : Heap
fresh = record {
  malloc_ptr = 0;
  malloc_count = 0;
  free_mem_ptr = 0x1000;
  free_mem_end_ptr = 0x2000;
}

fresh-IsHeap : IsHeap fresh []
fresh-IsHeap = record {
  begins = omega arith;
  ends = omega arith;
  forward = omega arith;
  word = omega arith;
  counted = refl;
  blocks = tt;
  apart = tt;
}

abbrev second : Heap
second = record {
  malloc_ptr = 0x1011;
  malloc_count = 2;
  free_mem_ptr = 0x1000;
  free_mem_end_ptr = 0x2000;
}

abbrev ten : Block
ten = record { at = 0x1000; size = 10 }

abbrev five : Block
five = record { at = 0x100c; size = 5 }

-- Two requests, and the first block is freed.
three_steps : Steps fresh [] (free second) (five ∷ [])
unfolding malloc
three_steps =
    step
      (step (step start (requests 10 (record { address = omega arith; count = omega arith })))
        (requests 5 (record { address = omega arith; count = omega arith })))
      (frees (five ∷ []) ten [])

Steps-IsHeap_example : IsHeap (free second) (five ∷ [])
Steps-IsHeap_example = Steps-IsHeap fresh-IsHeap three_steps

-- A refused request moves `malloc_ptr`, and the end of the next block wraps: it is given out behind the memory.
behind_memory : (malloc (malloc fresh 0x7fffffff).1 0x7ffff000).0 ≡ 0x80001000
unfolding malloc
behind_memory = refl
