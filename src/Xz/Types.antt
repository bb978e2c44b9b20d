-- ===== src/Xz/Types.antt =====
-- The types of resources/include/linux/xz.h, and the memory that the decoder writes.
use galaxys2_kernel_repack.Base.{
  ℕ, zero, suc, ◌+◌, ◌-◌, List, [], ◌∷◌, length, get_or, Bool, true, false,
}
use galaxys2_kernel_repack.Base.Bytes.{update}
pub mod Memory

pub data XzRet : Type 0 where
  ok stream_end unsupported_check mem_error memlimit_error : XzRet
  format_error options_error data_error buf_error : XzRet

pub data XzMode : Type 0 where
  single prealloc dynalloc : XzMode

-- `DEC_IS_SINGLE`, `DEC_IS_MULTI` and `DEC_IS_DYNALLOC` with all modes enabled.
abbrev pub is_single : XzMode → Bool
is_single single = true
is_single prealloc = false
is_single dynalloc = false

abbrev pub is_multi : XzMode → Bool
is_multi single = false
is_multi prealloc = true
is_multi dynalloc = true

abbrev pub is_dynalloc : XzMode → Bool
is_dynalloc single = false
is_dynalloc prealloc = false
is_dynalloc dynalloc = true

-- The three places that `b->out` and `dict->buf` can point into: the caller's output, the
-- allocated dictionary, and the buffer inside `struct xz_dec_bcj`.
pub data Region : Type 0 where
  output dictionary bcj_temp : Region

pub record Ptr : Type 0 where
  pub region : Region
  pub offset : ℕ

abbrev pub Mem : Type 0
Mem = Region → ℕ → ℕ

abbrev pub store_at : Mem → Region → ℕ → ℕ → Mem
store_at m output i v output = update (m output) i v
store_at m output i v dictionary = m dictionary
store_at m output i v bcj_temp = m bcj_temp
store_at m dictionary i v output = m output
store_at m dictionary i v dictionary = update (m dictionary) i v
store_at m dictionary i v bcj_temp = m bcj_temp
store_at m bcj_temp i v output = m output
store_at m bcj_temp i v dictionary = m dictionary
store_at m bcj_temp i v bcj_temp = update (m bcj_temp) i v

-- `p[i]` and `p[i] = v`.
abbrev pub load : Mem → Ptr → ℕ → ℕ
load m p i = m p.region (p.offset + i)

abbrev pub store : Mem → Ptr → ℕ → ℕ → Mem
store m p i v = store_at m p.region (p.offset + i) v

-- The `n` bytes from `p[i]` on.
pub bytes_at : Mem → Ptr → ℕ → ℕ → List ℕ
bytes_at m p i zero = []
bytes_at m p i (suc n) = load m p i ∷ bytes_at m p (i + 1) n

-- `memcpy` of the bytes to `p + i`. The source and the destination do not overlap.
pub store_bytes : Mem → Ptr → ℕ → List ℕ → Mem
store_bytes m p i [] = m
store_bytes m p i (x ∷ xs) = store_bytes (store m p i x) p (i + 1) xs

-- `struct xz_buf`. The input is the list of its `in_size` bytes; a read past its end, which C
-- leaves undefined, gives 0.
pub record XzBuf : Type 0 where
  pub input : List ℕ
  pub in_pos : ℕ
  pub out : Ptr
  pub out_pos : ℕ
  pub out_size : ℕ

abbrev pub in_size : XzBuf → ℕ
in_size b = length b.input

abbrev pub in_byte : XzBuf → ℕ → ℕ
in_byte b i = get_or b.input i 0
