-- ===== src/Boot/Tests.antt =====
-- The boot code at concrete inputs.
use galaxys2_kernel_repack.Base.{
  ℕ, ◌+◌, ◌<◌, ◌≤◌, ◌≡◌, ◌≢◌, ◌↔◌, refl, arith, true, inl, List, [], ◌∷◌, take, length,
}
use galaxys2_kernel_repack.Xz.Types.{XzRet, stream_end, single}
use galaxys2_kernel_repack.Xz.Stream.Samples.{decoder}
use galaxys2_kernel_repack.Xz.Stream.{XzDec}
use galaxys2_kernel_repack.Xz.Bcj.Samples.{all_filters, states, stream}
use galaxys2_kernel_repack.Xz.Stream.Header.{header_magic, xz_dec_reset}
use galaxys2_kernel_repack.Xz.Stream.Block.{Run}
use galaxys2_kernel_repack.Xz.Stream.Main.{xz_dec_run}
use galaxys2_kernel_repack.Xz.Unxz.{Caller, xz_dec_init, wrong_magic, corrupt}
use galaxys2_kernel_repack.Xz.Unxz.Single.{whole}
use galaxys2_kernel_repack.Xz.Unxz.Copies.{copied}
use galaxys2_kernel_repack.Boot.{memcpy, decompress_kernel}
use galaxys2_kernel_repack.Boot.Copies.{memcpy-copied}
use galaxys2_kernel_repack.Boot.Kernel.{
  answer, halted, decompress_kernel_boots, decompress_kernel_rejects,
}
use mathlib.Core.Option
use mathlib.Core.Option.{some}

-- Sixteen bytes to two addresses before them.
memcpy-copied_example : memcpy (λ a. a + 100) 8 10 16 9 ≡ copied (λ a. a + 100) 8 10 16 9
memcpy-copied_example = memcpy-copied (λ a. a + 100) 8 10 16 9 (inl (omega arith))

-- Memory for the decoder and for its two filters.
abbrev enough_memory : Caller all_filters
enough_memory = record {
  World = ℕ;
  malloc = λ _. true;
  new_dec = some decoder;
  new_filters = λ _ _. some states;
  fill = λ w _. (w, some []);
  flush = λ w _. (w, true);
}

abbrev fresh : XzDec
fresh = xz_dec_reset (record decoder { mode = single })

decompress_kernel_boots_example :
    (decompress_kernel all_filters enough_memory 0 stream 0
      ≡ Option.map
          (λ (r : Run all_filters). answer r.ret)
          (xz_dec_run all_filters fresh states (whole stream)))
    × ((ret : XzRet) → ((answer ret).boots ≡ true) ↔ (ret ≡ stream_end))
unfolding xz_dec_init
decompress_kernel_boots_example =
    decompress_kernel_boots all_filters enough_memory 0 stream 0 fresh states refl

-- The first bytes of a gzip file.
abbrev gzip : List ℕ
gzip = 31 ∷ 139 ∷ 8 ∷ 0 ∷ 0 ∷ 0 ∷ 0 ∷ 0 ∷ 0 ∷ 3 ∷ 1 ∷ 0 ∷ 0 ∷ []

decompress_kernel_rejects_example :
    (12 ≤ length gzip
      → take 6 gzip ≢ header_magic
      → decompress_kernel all_filters enough_memory 0 gzip 0 ≡ some (halted wrong_magic))
    × (length gzip < 12
        → decompress_kernel all_filters enough_memory 0 gzip 0 ≡ some (halted corrupt))
decompress_kernel_rejects_example =
    decompress_kernel_rejects all_filters enough_memory 0 gzip 0 decoder states refl refl
