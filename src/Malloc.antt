-- ===== src/Malloc.antt =====
-- `malloc` and `free` of the boot code, in resources/include/linux/decompress/mm.h. `unsigned long`
-- has 32 bits, and a negative `int` is the word that it is passed as.
use galaxys2_kernel_repack.Base.{ℕ, ◌+◌, ◌*◌, ◌/◌, ◌^◌, leb, ◌==◌, if◌then◌else◌, not, ◌&&◌}
use galaxys2_kernel_repack.Base.Bytes.{u32, sub32}
pub mod Blocks
mod Tests

-- The globals `malloc_ptr`, `malloc_count`, `free_mem_ptr` and `free_mem_end_ptr`.
pub record Heap : Type 0 where
  pub malloc_ptr : ℕ
  pub malloc_count : ℕ
  pub free_mem_ptr : ℕ
  pub free_mem_end_ptr : ℕ

-- `if (!malloc_ptr) malloc_ptr = free_mem_ptr;`
abbrev pub first_free : Heap → ℕ
first_free h = if h.malloc_ptr == 0 then h.free_mem_ptr else h.malloc_ptr

-- `(malloc_ptr + 3) & ~3`.
abbrev pub align : ℕ → ℕ
align p = u32 (p + 3) / 4 * 4

-- The address, 0 for `NULL`, and the heap. A request that the memory has no room for moves
-- `malloc_ptr` too.
unfoldable pub malloc : Heap → ℕ → ℕ × Heap
malloc h size =
    let p = align (first_free h) in
    let next = u32 (p + size) in
    if leb (2 ^ 31) size
    then (0, h)
    else if not (h.free_mem_end_ptr == 0) && leb h.free_mem_end_ptr next
    then (0, record h { malloc_ptr = next })
    else (p, record h { malloc_ptr = next; malloc_count = u32 (h.malloc_count + 1) })

unfoldable pub free : Heap → Heap
free h =
    let count = sub32 h.malloc_count 1 in
    record h {
      malloc_count = count;
      malloc_ptr = if count == 0 then h.free_mem_ptr else h.malloc_ptr;
    }
