-- ===== src/Xz/Stream.antt =====
-- The .xz container of resources/lib/xz/xz_dec_stream.c and xz_stream.h: `struct xz_dec` and the
-- functions on its fields. The operations of the filters below it are an
-- interface, which Xz/Bcj/Chain fills. The build is that of the
-- ARM boot code: BCJ filters are enabled, checks other than CRC32 are not.
use galaxys2_kernel_repack.Base.{
  ℕ, zero, suc, ◌+◌, ◌-◌, ◌*◌, ◌/◌, ◌%◌, ◌^◌, ◌≤◌, ◌≡◌, min, bit_and, Bool, true, false,
}
use galaxys2_kernel_repack.Base.{
  List, [], ◌∷◌, ◌++◌, take, drop, ltb, leb, ◌==◌, if◌then◌else◌, ◌&&◌, ◌||◌, not,
}
use galaxys2_kernel_repack.Base.Bytes.{u32, update}
use galaxys2_kernel_repack.Xz.Types.{
  XzRet, ok, stream_end, format_error, options_error, data_error, buf_error,
}
use galaxys2_kernel_repack.Xz.Types.{XzMode, is_single, Mem, XzBuf, in_size, in_byte, bytes_at}
use galaxys2_kernel_repack.Xz.Crc32.{xz_crc32}
use galaxys2_kernel_repack.Xz.Vli.{VliStep, dec_vli, vli_unknown}
use mathlib.Core.Option.{Option}
pub mod Samples
pub mod Fields
pub mod Header
pub mod Block
pub mod Index
pub mod Main

-- What a run of the filters leaves.
pub record Ran (F : Type 0) : Type 0 where
  pub ret : XzRet
  pub filters : F
  pub buf : XzBuf

-- What the stream decoder uses of the filters: running them with or without the BCJ filter, and
-- resetting each with its byte of the Block Header. A run is `none` where the loop of the filters was
-- not given enough fuel.
pub record Chain : Type 1 where
  pub Filters : Type 0
  pub mem : Filters → Mem
  pub run : Bool → Filters → XzBuf → Option (Ran Filters)
  pub lzma2_reset : Filters → ℕ → XzRet × Filters
  pub bcj_reset : Filters → ℕ → XzRet × Filters

pub data Seq : Type 0 where
  stream_header block_start block_header block_uncompress block_padding : Seq
  block_check index index_padding index_crc32 stream_footer : Seq

pub data IndexSeq : Type 0 where
  index_count index_unpadded index_uncompressed : IndexSeq

-- `struct xz_dec_hash`.
pub record Hash : Type 0 where
  pub unpadded : ℕ
  pub uncompressed : ℕ
  pub crc32 : ℕ

-- `struct xz_dec` without the filters. The members of its inner structs carry the struct's name.
pub record XzDec : Type 0 where
  pub sequence : Seq
  pub pos : ℕ
  pub vli : ℕ
  pub in_start : ℕ
  pub out_start : ℕ
  pub crc32 : ℕ
  pub check_type : ℕ
  pub mode : XzMode
  pub allow_buf_error : Bool
  pub header_compressed : ℕ
  pub header_uncompressed : ℕ
  pub header_size : ℕ
  pub block_compressed : ℕ
  pub block_uncompressed : ℕ
  pub block_count : ℕ
  pub block_hash : Hash
  pub index_sequence : IndexSeq
  pub index_size : ℕ
  pub index_count : ℕ
  pub index_hash : Hash
  pub temp_pos : ℕ
  pub temp_size : ℕ
  pub temp_buf : ℕ → ℕ
  pub bcj_active : Bool

abbrev pub u64 : ℕ → ℕ
u64 n = n % 2 ^ 64

abbrev pub check_crc32 : ℕ
check_crc32 = 1

abbrev pub stream_header_size : ℕ
stream_header_size = 12

-- The bytes of an array from index `i` on.
pub array_bytes : (ℕ → ℕ) → ℕ → ℕ → List ℕ
array_bytes buf i zero = []
array_bytes buf i (suc n) = buf i ∷ array_bytes buf (i + 1) n

pub put_bytes : (ℕ → ℕ) → ℕ → List ℕ → ℕ → ℕ
put_bytes buf i [] = buf
put_bytes buf i (x ∷ xs) = put_bytes (update buf i x) (i + 1) xs

-- The `n` bytes of a number in little-endian order, and `get_le32`.
pub le_bytes : ℕ → ℕ → List ℕ
le_bytes zero v = []
le_bytes (suc n) v = v % 256 ∷ le_bytes n (v / 256)

pub get_le32 : (ℕ → ℕ) → ℕ → ℕ
get_le32 buf i = buf i + buf (i + 1) * 2 ^ 8 + buf (i + 2) * 2 ^ 16 + buf (i + 3) * 2 ^ 24

-- A `struct xz_dec_hash` as bytes. Four bytes of padding follow; they are zero from `memzero` on.
pub hash_bytes : Hash → List ℕ
hash_bytes h =
    le_bytes 8 h.unpadded ++ (le_bytes 8 h.uncompressed ++ (le_bytes 4 h.crc32 ++ le_bytes 4 0))

-- `memeq` of the pre-boot code in resources/lib/decompress_unxz.c, on lists of one length.
pub memeq : List ℕ → List ℕ → Bool
memeq [] [] = true
memeq [] (y ∷ ys) = false
memeq (x ∷ xs) [] = false
memeq (x ∷ xs) (y ∷ ys) = x == y && memeq xs ys

-- The caller's input between two positions.
abbrev pub input_bytes : XzBuf → ℕ → ℕ → List ℕ
input_bytes b from to = take (to - from) (drop from b.input)

pub record Step : Type 0 where
  pub ret : XzRet
  pub dec : XzDec
  pub buf : XzBuf
