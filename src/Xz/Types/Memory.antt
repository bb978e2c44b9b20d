-- ===== src/Xz/Types/Memory.antt =====
-- Reading back what was stored.
use galaxys2_kernel_repack.Base.{
  ℕ, zero, suc, ◌+◌, ◌≤◌, ◌<◌, ◌≡◌, ◌≢◌, refl, ap, ◌∙◌, arith, List, [], ◌∷◌, length, All,
}
use galaxys2_kernel_repack.Base.{◌==◌, if◌then◌else◌, get_or}
use galaxys2_kernel_repack.Base.Bytes.{IsByte}
use galaxys2_kernel_repack.Xz.Types.{
  Region, output, dictionary, bcj_temp, Ptr, Mem, store_at, load, store, store_bytes, bytes_at,
}

pub store_at_same :
    (m : Mem) (r : Region) (i v j : ℕ) → store_at m r i v r j ≡ (if j == i then v else m r j)
store_at_same m output i v j = refl
store_at_same m dictionary i v j = refl
store_at_same m bcj_temp i v j = refl

pub store_at_other : (m : Mem) (r s : Region) (i v j : ℕ) → r ≢ s → store_at m r i v s j ≡ m s j
store_at_other m output output i v j h = absurd (h refl)
store_at_other m output dictionary i v j h = refl
store_at_other m output bcj_temp i v j h = refl
store_at_other m dictionary output i v j h = refl
store_at_other m dictionary dictionary i v j h = absurd (h refl)
store_at_other m dictionary bcj_temp i v j h = refl
store_at_other m bcj_temp output i v j h = refl
store_at_other m bcj_temp dictionary i v j h = refl
store_at_other m bcj_temp bcj_temp i v j h = absurd (h refl)

pub load-store :
    (m : Mem) (p : Ptr) (i v j : ℕ) → load (store m p i v) p j ≡ (if j == i then v else load m p j)
load-store m p i v j = store_at_same m p.region (p.offset + i) v (p.offset + j) ∙ ground arith

pub load-store_other :
    (m : Mem) (p q : Ptr) (i v j : ℕ) → p.region ≢ q.region → load (store m p i v) q j ≡ load m q j
load-store_other m p q i v j h =
    store_at_other m p.region q.region (p.offset + i) v (q.offset + j) h

-- What `memcpy` leaves: the bytes where they were put, and everything else as it was.
pub load-store_bytes_before :
    (xs : List ℕ) (m : Mem) (p : Ptr) (i j : ℕ)
    → j < i
    → load (store_bytes m p i xs) p j ≡ load m p j
unfolding store_bytes
load-store_bytes_before [] m p i j h = refl
load-store_bytes_before (x ∷ xs) m p i j h =
    load-store_bytes_before xs (store m p i x) p (i + 1) j (omega arith)
    ∙ ground (arith, load-store m p i x j)

pub load-store_bytes_after :
    (xs : List ℕ) (m : Mem) (p : Ptr) (i j : ℕ)
    → i + length xs ≤ j
    → load (store_bytes m p i xs) p j ≡ load m p j
unfolding store_bytes
load-store_bytes_after [] m p i j h = refl
load-store_bytes_after (x ∷ xs) m p i j h =
    load-store_bytes_after xs (store m p i x) p (i + 1) j (omega arith)
    ∙ ground (arith, load-store m p i x j)

pub load-store_bytes_inside :
    (xs : List ℕ) (m : Mem) (p : Ptr) (i k : ℕ)
    → k < length xs
    → load (store_bytes m p i xs) p (i + k) ≡ get_or xs k 0
unfolding store_bytes
load-store_bytes_inside [] m p i k h = absurd (omega arith)
load-store_bytes_inside (x ∷ xs) m p i zero h =
    load-store_bytes_before xs (store m p i x) p (i + 1) (i + 0) (omega arith)
    ∙ ground (arith, load-store m p i x (i + 0))
load-store_bytes_inside (x ∷ xs) m p i (suc k) h =
    ap (load (store_bytes (store m p i x) p (i + 1) xs) p) (omega arith)
    ∙ load-store_bytes_inside xs (store m p i x) p (i + 1) k (omega arith)

pub load-store_bytes_other :
    (xs : List ℕ) (m : Mem) (p q : Ptr) (i j : ℕ)
    → p.region ≢ q.region
    → load (store_bytes m p i xs) q j ≡ load m q j
unfolding store_bytes
load-store_bytes_other [] m p q i j h = refl
load-store_bytes_other (x ∷ xs) m p q i j h =
    load-store_bytes_other xs (store m p i x) p q (i + 1) j h ∙ load-store_other m p q i x j h

pub length-bytes_at : (n : ℕ) (m : Mem) (p : Ptr) (i : ℕ) → length (bytes_at m p i n) ≡ n
unfolding bytes_at
length-bytes_at zero m p i = refl
length-bytes_at (suc n) m p i = ap suc (length-bytes_at n m p (i + 1))

pub get_or-bytes_at :
    (n : ℕ) (m : Mem) (p : Ptr) (i k : ℕ) → k < n → get_or (bytes_at m p i n) k 0 ≡ load m p (i + k)
unfolding bytes_at
get_or-bytes_at zero m p i k h = absurd (omega arith)
get_or-bytes_at (suc n) m p i zero h = ap (load m p) (omega arith)
get_or-bytes_at (suc n) m p i (suc k) h =
    get_or-bytes_at n m p (i + 1) k (omega arith) ∙ ap (load m p) (omega arith)

-- A memory of bytes.
abbrev pub IsBytes : Mem → Type 0
IsBytes m = (r : Region) (i : ℕ) → m r i < 256

pub store_at-IsBytes :
    (m : Mem) (q : Region) (i v : ℕ) → IsBytes m → v < 256 → IsBytes (store_at m q i v)
store_at-IsBytes m output i v h hv output j = ground (arith, h output j)
store_at-IsBytes m output i v h hv dictionary j = h dictionary j
store_at-IsBytes m output i v h hv bcj_temp j = h bcj_temp j
store_at-IsBytes m dictionary i v h hv output j = h output j
store_at-IsBytes m dictionary i v h hv dictionary j = ground (arith, h dictionary j)
store_at-IsBytes m dictionary i v h hv bcj_temp j = h bcj_temp j
store_at-IsBytes m bcj_temp i v h hv output j = h output j
store_at-IsBytes m bcj_temp i v h hv dictionary j = h dictionary j
store_at-IsBytes m bcj_temp i v h hv bcj_temp j = ground (arith, h bcj_temp j)

pub store_bytes-IsBytes :
    (xs : List ℕ) (m : Mem) (p : Ptr) (i : ℕ)
    → IsBytes m
    → All IsByte xs
    → IsBytes (store_bytes m p i xs)
unfolding store_bytes
store_bytes-IsBytes [] m p i h bytes = h
store_bytes-IsBytes (x ∷ xs) m p i h (hx, bytes) =
    store_bytes-IsBytes xs (store m p i x) p (i + 1)
      (store_at-IsBytes m p.region (p.offset + i) x h hx) bytes

pub bytes_at-IsByte :
    (n : ℕ) (m : Mem) (p : Ptr) (i : ℕ) → IsBytes m → All IsByte (bytes_at m p i n)
unfolding bytes_at
bytes_at-IsByte zero m p i h = tt
bytes_at-IsByte (suc n) m p i h = (h p.region (p.offset + i), bytes_at-IsByte n m p (i + 1) h)
