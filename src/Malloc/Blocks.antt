-- ===== src/Malloc/Blocks.antt =====
-- The blocks that are in use, and what `malloc` and `free` do to them.
use galaxys2_kernel_repack.Base.{
  ℕ, ◌+◌, ◌*◌, ◌/◌, ◌%◌, ◌^◌, ◌<◌, ◌≤◌, ◌≡◌, ◌≢◌, ◌⊎◌, inr, refl, arith, List, [], ◌∷◌, ◌++◌, All,
  length, length-append, leb, ◌==◌, if◌then◌else◌, if_has, not, ◌&&◌,
}
use galaxys2_kernel_repack.Base.Bytes.{u32, sub32}
use galaxys2_kernel_repack.Malloc.{Heap, first_free, align, malloc, free}

pub record Block : Type 0 where
  pub at : ℕ
  pub size : ℕ

-- Two blocks share no byte.
abbrev pub Apart : Block → Block → Type 0
Apart a b = (a.at + a.size ≤ b.at) ⊎ (b.at + b.size ≤ a.at)

-- A block stands aligned inside the memory of the heap, in the part that is used.
pub record IsBlock (h : Heap) (b : Block) : Type 0 where
  pub aligned : b.at % 4 ≡ 0
  pub above : h.free_mem_ptr ≤ b.at
  pub inside : b.at + b.size < h.free_mem_end_ptr
  pub used : b.at + b.size ≤ first_free h

-- No two blocks share a byte.
abbrev pub AllApart : List Block → Type 0
AllApart [] = Unit
AllApart (b ∷ bs) = All (Apart b) bs × AllApart bs

-- The heap and the blocks in use.
pub record IsHeap (h : Heap) (live : List Block) : Type 0 where
  pub begins : 0 < h.free_mem_ptr
  pub ends : 0 < h.free_mem_end_ptr
  pub forward : h.free_mem_ptr ≤ first_free h
  pub word : h.malloc_count < 2 ^ 32
  pub counted : h.malloc_count ≡ length live
  pub blocks : All (IsBlock h) live
  pub apart : AllApart live

-- A request for which neither the address nor the count of blocks wraps.
pub record Fits (h : Heap) (size : ℕ) : Type 0 where
  pub address : first_free h + 3 + size < 2 ^ 32
  pub count : h.malloc_count + 1 < 2 ^ 32

-- The blocks in use after a request.
abbrev pub with_block : ℕ → ℕ → List Block → List Block
with_block p size live = if p == 0 then live else record { at = p; size = size } ∷ live

-- A request, or the freeing of any of the blocks in use.
pub data Step : Heap → List Block → Heap → List Block → Type 0 where
  requests :
      {h : Heap} {live : List Block} (size : ℕ)
      → Fits h size
      → Step h live (malloc h size).1 (with_block (malloc h size).0 size live)
  frees :
      {h : Heap} (before : List Block) (b : Block) (after : List Block)
      → Step h (before ++ b ∷ after) (free h) (before ++ after)

-- Some steps.
pub data Steps (h : Heap) (live : List Block) : Heap → List Block → Type 0 where
  start : Steps h live h live
  step :
      {h1 h2 : Heap} {live1 live2 : List Block}
      → Steps h live h1 live1
      → Step h1 live1 h2 live2
      → Steps h live h2 live2

-- The blocks stay where they are when the used part grows.
grow :
    (h h' : Heap)
    → h'.free_mem_ptr ≡ h.free_mem_ptr
    → h'.free_mem_end_ptr ≡ h.free_mem_end_ptr
    → first_free h ≤ first_free h'
    → (live : List Block) → All (IsBlock h) live
    → All (IsBlock h') live
grow h h' low high more [] k = tt
grow h h' low high more (b ∷ live) (k, ks) = (
  record {
    aligned = k.aligned;
    above = omega (arith, low, k.above);
    inside = omega (arith, high, k.inside);
    used = omega (arith, more, k.used);
  },
  grow h h' low high more live ks,
)

-- A block behind the used part shares no byte with those in it.
behind :
    (h : Heap) (b : Block) (live : List Block)
    → first_free h ≤ b.at
    → All (IsBlock h) live
    → All (Apart b) live
behind h b [] after k = tt
behind h b (c ∷ live) after (k, ks) = (inr (omega (arith, k.used, after)), behind h b live after ks)

first_free_of : (n base : ℕ) → 0 < n → (if n == 0 then base else n) ≡ n
first_free_of n base h = ground arith

requests-IsHeap :
    (h : Heap) (live : List Block) (size : ℕ)
    → Fits h size
    → IsHeap h live
    → IsHeap (malloc h size).1 (with_block (malloc h size).0 size live)
unfolding malloc
requests-IsHeap h live size f k =
    let p = align (first_free h) in
    let next = u32 (p + size) in
    let (low, sum, even) : (first_free h ≤ p) × (next ≡ p + size) × (p % 4 ≡ 0) =
      (omega (arith, f.address), omega (arith, f.address), omega arith) in
    let there = first_free_of next h.free_mem_ptr (omega (arith, low, sum, k.begins, k.forward)) in
    let P = λ (r : ℕ × Heap). IsHeap r.1 (with_block r.0 size live) in
    if_has P (leb (2 ^ 31) size) (λ _. k)
      (λ _.
        if_has P (not (h.free_mem_end_ptr == 0) && leb h.free_mem_end_ptr next)
          (λ _. record {
            begins = k.begins;
            ends = k.ends;
            forward = omega (arith, there, low, sum, k.forward);
            word = k.word;
            counted = k.counted;
            blocks =
                grow h (record h { malloc_ptr = next }) refl refl (omega (arith, there, low, sum))
                  live k.blocks;
            apart = k.apart;
          })
          (λ room.
            let h' : Heap = record h {
              malloc_ptr = next;
              malloc_count = u32 (h.malloc_count + 1);
            } in
            let b : Block = record { at = p; size = size } in
            let end : p + size < h.free_mem_end_ptr = ground (arith, room, sum, k.ends) in
            if_has (λ (bs : List Block). IsHeap h' bs) (p == 0)
              (λ none. absurd (ground (arith, none, low, k.begins, k.forward)))
              (λ _. record {
                begins = k.begins;
                ends = k.ends;
                forward = omega (arith, there, low, sum, k.forward);
                word = omega (arith, f.count);
                counted = omega (arith, f.count, k.counted);
                blocks = (
                  record {
                    aligned = even;
                    above = omega (arith, low, k.forward);
                    inside = end;
                    used = omega (arith, there, sum);
                  },
                  grow h h' refl refl (omega (arith, there, low, sum)) live k.blocks,
                );
                apart = (behind h b live low k.blocks, k.apart);
              })))

-- Freeing takes one block out.
All-without :
    (P : Block → Type 0) (before : List Block) (b : Block) (after : List Block)
    → All P (before ++ b ∷ after)
    → All P (before ++ after)
All-without P [] b after (_, k) = k
All-without P (a ∷ before) b after (k, ks) = (k, All-without P before b after ks)

AllApart-without :
    (before : List Block) (b : Block) (after : List Block)
    → AllApart (before ++ b ∷ after)
    → AllApart (before ++ after)
AllApart-without [] b after (_, k) = k
AllApart-without (a ∷ before) b after (k, ks) =
    (All-without (Apart a) before b after k, AllApart-without before b after ks)

frees-IsHeap :
    (h : Heap) (before : List Block) (b : Block) (after : List Block)
    → IsHeap h (before ++ b ∷ after)
    → IsHeap (free h) (before ++ after)
unfolding free
frees-IsHeap h before b after k =
    let count = sub32 h.malloc_count 1 in
    let less : count ≡ length (before ++ after) =
      omega
        (arith, k.counted, k.word, length-append before (b ∷ after), length-append before after) in
    if_has (λ (p : ℕ). IsHeap (record h { malloc_count = count; malloc_ptr = p }) (before ++ after))
      (count == 0) (λ last. emptied (before ++ after) less (ground (arith, last)))
      (λ _. record {
        begins = k.begins;
        ends = k.ends;
        forward = k.forward;
        word = omega arith;
        counted = less;
        blocks =
            grow h (record h { malloc_count = count }) refl refl (omega arith) (before ++ after)
              (All-without (IsBlock h) before b after k.blocks);
        apart = AllApart-without before b after k.apart;
      })
  where
    emptied :
        (live : List Block) {n : ℕ}
        → n ≡ length live
        → n ≡ 0
        → IsHeap (record h { malloc_count = n; malloc_ptr = h.free_mem_ptr }) live
    emptied [] same none = record {
      begins = k.begins;
      ends = k.ends;
      forward = ground arith;
      word = omega arith;
      counted = same;
      blocks = tt;
      apart = tt;
    }
    emptied (c ∷ live) same none = absurd (omega (arith, same, none))

pub Steps-trans :
    {h : Heap} {live : List Block} {h1 : Heap} {live1 : List Block} {h2 : Heap} {live2 : List Block}
    → Steps h live h1 live1
    → Steps h1 live1 h2 live2
    → Steps h live h2 live2
Steps-trans r start = r
Steps-trans r (step q one) = step (Steps-trans r q) one

-- From a heap in order, whatever is requested and whatever blocks in use are freed, in whatever
-- order, as long as neither an address nor the count wraps: the blocks in use stand aligned inside
-- the memory of the heap, no two of them share a byte, and `malloc_count` is their number.
pub Steps-IsHeap :
    {h : Heap} {live : List Block} {h' : Heap} {live' : List Block}
    → IsHeap h live
    → Steps h live h' live'
    → IsHeap h' live'
Steps-IsHeap k start = k
Steps-IsHeap k (step steps (requests {h} {live} size f)) =
    requests-IsHeap h live size f (Steps-IsHeap k steps)
Steps-IsHeap k (step steps (frees {h} before b after)) =
    frees-IsHeap h before b after (Steps-IsHeap k steps)

-- A request that does not wrap is served exactly where it is not negative and the memory from the next aligned address has room for it
-- with a byte to spare; then the block is the first one behind the part that is used, and `malloc_ptr` is its end.
pub malloc_serves :
    (h : Heap) (size : ℕ)
    → Fits h size
    → 0 < h.free_mem_ptr
    → 0 < h.free_mem_end_ptr
    → let p = (first_free h + 3) / 4 * 4 in
      ((malloc h size).0 ≢ 0
        → (size < 2 ^ 31)
          × (p + size < h.free_mem_end_ptr)
          × ((malloc h size).0 ≡ p)
          × ((malloc h size).1.malloc_ptr ≡ p + size))
      × ((size < 2 ^ 31) × (p + size < h.free_mem_end_ptr) → (malloc h size).0 ≡ p)
unfolding malloc
malloc_serves h size f begins ends = ground (arith, f.address)
