-- ===== src/Xz/Vli.antt =====
-- `dec_vli` of resources/lib/xz/xz_dec_stream.c: integers of up to 63 bits, seven bits a byte.
use galaxys2_kernel_repack.Base.{ℕ, ◌+◌, ◌-◌, ◌*◌, ◌%◌, ◌^◌, bit_and, bit_or, List, [], ◌∷◌}
use galaxys2_kernel_repack.Base.{◌==◌, if◌then◌else◌, ◌&&◌, not}
use galaxys2_kernel_repack.Xz.Types.{XzRet, ok, stream_end, data_error}
pub mod Laws
pub mod Resume
pub mod RoundTrip
mod Tests

-- `VLI_MAX`, `VLI_UNKNOWN` and `7 * VLI_BYTES_MAX` for a `vli_type` of 64 bits.
abbrev pub vli_unknown : ℕ
vli_unknown = 2 ^ 64 - 1

abbrev pub vli_bits_max : ℕ
vli_bits_max = 7 * 9

-- What `dec_vli` leaves: its result, `*in_pos`, and the fields `pos` and `vli` of the decoder.
pub record VliStep : Type 0 where
  pub ret : XzRet
  pub in_pos : ℕ
  pub pos : ℕ
  pub vli : ℕ

-- `s->vli |= (vli_type)(byte & 0x7F) << s->pos`
abbrev pub add_group : ℕ → ℕ → ℕ → ℕ
add_group vli byte pos = bit_or vli (bit_and byte 0x7f * 2 ^ pos % 2 ^ 64)

-- The loop. The list holds the bytes from `in[in_pos]` up to `in_size`.
pub vli_loop : List ℕ → ℕ → ℕ → ℕ → VliStep
vli_loop [] in_pos pos vli = record { ret = ok; in_pos = in_pos; pos = pos; vli = vli }
vli_loop (byte ∷ rest) in_pos pos vli =
    let vli' = add_group vli byte pos in
    let more = vli_loop rest (in_pos + 1) (pos + 7) vli' in
    if bit_and byte 0x80 == 0
    then if byte == 0 && not (pos == 0)
      then record { ret = data_error; in_pos = in_pos + 1; pos = pos; vli = vli' }
      else record { ret = stream_end; in_pos = in_pos + 1; pos = 0; vli = vli' }
    else if pos + 7 == vli_bits_max
    then record { ret = data_error; in_pos = in_pos + 1; pos = pos + 7; vli = vli' }
    else more

unfoldable pub dec_vli : List ℕ → ℕ → ℕ → ℕ → VliStep
unfolding vli_loop
dec_vli bytes in_pos pos vli = vli_loop bytes in_pos pos (if pos == 0 then 0 else vli)
