-- ===== src/Xz/Lzma2/Sequence.antt =====
-- The order of the chunks: no LZMA chunk is decoded before the state was reset with properties, also
-- where the memory of a new decoder is not initialized.
use galaxys2_kernel_repack.Base.{
  ℕ, zero, suc, ◌+◌, ◌-◌, ◌*◌, ◌^◌, ◌<◌, ◌≤◌, ◌≡◌, ◌≢◌, refl, sym, subst, ap, ◌∙◌, arith, min,
  bit_and, All, length, List,
}
use galaxys2_kernel_repack.Base.{Bool-cases, inl, inr}
use galaxys2_kernel_repack.Base.{
  Bool, true, false, ltb, leb, ◌==◌, if◌then◌else◌, if_has, not, ◌||◌, ◌&&◌,
}
use galaxys2_kernel_repack.Base.Bytes.{IsByte, sub32}
use galaxys2_kernel_repack.Xz.Types.{
  Mem, XzRet, stream_end, data_error, ok, XzBuf, in_size, in_byte,
}
use galaxys2_kernel_repack.Xz.Types.Memory.{IsBytes}
use galaxys2_kernel_repack.Xz.Dict.{
  Dictionary, dict_reset, dict_limit, dict_uncompressed, dict_flush,
}
use galaxys2_kernel_repack.Xz.Dict.Bytes.{dict_flush-IsBytes, dict_uncompressed-Copies}
use galaxys2_kernel_repack.Xz.RangeCoder.{rc_read_init, rc_init_bytes, rc_reset, rc_is_finished}
use galaxys2_kernel_repack.Xz.RangeCoder.First.{rc_read_init_moves}
use galaxys2_kernel_repack.Xz.Lzma.{Lzma, lzma_reset, lzma_props}
use galaxys2_kernel_repack.Xz.Lzma.Bounds.{IsLzma}
use galaxys2_kernel_repack.Xz.Lzma.Ready.{
  IsReset, lzma_reset-IsLzma, lzma_props-IsLzma, rc_read_init-IsLzma,
}
use galaxys2_kernel_repack.Xz.Lzma2.{
  Lzma2, Seq, control, uncompressed_1, uncompressed_2, compressed_0, compressed_1, properties,
  lzma_prepare, lzma_run, copy, Feed, goes_on, returns_true, returns_false, Turn, again, give, Pass,
  control_byte, run_chunk, prepare_chunk, read_properties, copy_chunk, take_byte, switch,
  lzma2_lzma,
}
use galaxys2_kernel_repack.Xz.Lzma2.Inside.{IsFed, lzma2_lzma-IsInside}
pub mod Header
pub mod Chunks
pub mod Run
pub mod Reset

abbrev pub is_lzma_seq : Seq → Bool
is_lzma_seq lzma_prepare = true
is_lzma_seq lzma_run = true
is_lzma_seq _ = false

-- Whether the state of the LZMA decoder is in use, where it was reset and is not to be reset: in the
-- second argument's place stands what it is where no chunk with new properties is announced.
abbrev pub is_next : Seq → Bool → Bool
is_next lzma_prepare idle = true
is_next lzma_run idle = true
is_next properties idle = false
is_next _ idle = idle

abbrev pub is_ready : Seq → Seq → Bool → Bool
is_ready control next idle = idle
is_ready uncompressed_1 next idle = is_next next idle
is_ready uncompressed_2 next idle = is_next next idle
is_ready compressed_0 next idle = is_next next idle
is_ready compressed_1 next idle = is_next next idle
is_ready properties next idle = false
is_ready lzma_prepare next idle = true
is_ready lzma_run next idle = true
is_ready copy next idle = idle

pub is_ready_next : (n : Seq) (idle : Bool) → is_ready n n idle ≡ is_next n idle
is_ready_next control idle = refl
is_ready_next uncompressed_1 idle = refl
is_ready_next uncompressed_2 idle = refl
is_ready_next compressed_0 idle = refl
is_ready_next compressed_1 idle = refl
is_ready_next properties idle = refl
is_ready_next lzma_prepare idle = refl
is_ready_next lzma_run idle = refl
is_ready_next copy idle = refl

abbrev pub is_idle : Lzma2 → Bool
is_idle s = not s.need_props && not s.need_dict_reset

-- What is not initialized yet is bytes at least.
pub record IsFilled (temp_buf : List ℕ) (temp_size : ℕ) (rc_input : List ℕ) (mem : Mem)
    : Type 0 where
  pub temp : All IsByte temp_buf
  pub small : temp_size ≤ 42
  pub input : All IsByte rc_input
  pub bytes : IsBytes mem

-- The state at a place of the sequence.
pub record IsAt (q : Seq) (s : Lzma2) : Type 0 where
  pub filled : IsFilled s.temp_buf s.temp_size s.lzma.rc.input s.lzma.mem
  pub begins : s.need_dict_reset ≡ true → q ≡ control
  pub order : s.need_props ≡ true → s.need_dict_reset ≡ false → is_lzma_seq s.next_sequence ≡ false
  pub ready : is_ready q s.next_sequence (is_idle s) ≡ true → IsLzma s.lzma

abbrev pub IsChunked : Lzma2 → Type 0
IsChunked s = IsAt s.sequence s

-- What a pass leaves: such a state again, and a position that moved forward inside the same input.
pub record Advances (b : XzBuf) (p : Pass) : Type 0 where
  pub chunked : IsChunked p.dec
  pub forward : b.in_pos ≤ p.buf.in_pos
  pub bound : p.buf.in_pos ≤ in_size b
  pub same : p.buf.input ≡ b.input

-- A pass that leaves the buffer alone.
pub stays :
    {t : Turn} {s : Lzma2} (b : XzBuf)
    → IsChunked s
    → b.in_pos ≤ in_size b
    → Advances b (record { turn = t; dec = s; buf = b })
stays b h inside = record { chunked = h; forward = omega arith; bound = inside; same = refl }

-- What a decoder in use is made of is initialized.
pub IsLzma-IsFilled :
    (s : Lzma2)
    → All IsByte s.temp_buf
    → s.temp_size ≤ 42
    → IsLzma s.lzma
    → IsFilled s.temp_buf s.temp_size s.lzma.rc.input s.lzma.mem
IsLzma-IsFilled s temp small h = record {
  temp = temp;
  small = small;
  input = h.coder.ranged.bytes;
  bytes = h.bytes;
}

-- A pass that starts where another left off.
pub Advances-after :
    (b b' : XzBuf) (p : Pass)
    → b.in_pos ≤ b'.in_pos
    → b'.input ≡ b.input
    → Advances b' p
    → Advances b p
Advances-after b b' p forward same h = record {
  chunked = h.chunked;
  forward = omega (arith, forward, h.forward);
  bound = omega (arith, h.bound, ap length same);
  same = h.same ∙ same;
}
