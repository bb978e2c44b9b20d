-- ===== src/Xz/Stream/Index/Tests.antt =====
-- An Index with one Record: a Block of 5 bytes that decodes to 300.
use galaxys2_kernel_repack.Base.{◌+◌, ◌≡◌, refl, arith, List, [], ◌∷◌, length}
use galaxys2_kernel_repack.Xz.Types.{stream_end, XzBuf}
use galaxys2_kernel_repack.Xz.Vli.RoundTrip.{encoding}
use galaxys2_kernel_repack.Xz.Stream.Samples.{decoder, buffer, no_sizes}
use galaxys2_kernel_repack.Xz.Stream.Index.{dec_index}
use galaxys2_kernel_repack.Xz.Stream.Index.RoundTrip.{
  Entry, entries_bytes, hash_entries, dec_index-entries,
}

abbrev index_bytes : XzBuf
index_bytes = buffer (1 ∷ 5 ∷ 172 ∷ 2 ∷ 0 ∷ [])

abbrev one_block : List Entry
one_block = record { unpadded = 5; uncompressed = 300 } ∷ []

dec_index-entries_example :
    ((dec_index decoder index_bytes).ret ≡ stream_end)
    × ((dec_index decoder index_bytes).dec.index_hash ≡ hash_entries no_sizes one_block)
    × ((dec_index decoder index_bytes).buf.in_pos
        ≡ 0 + length (encoding 8 (length one_block)) + length (entries_bytes one_block))
dec_index-entries_example =
    dec_index-entries one_block decoder index_bytes (0 ∷ []) (ground arith) (omega arith) refl refl
      refl (omega arith) refl
