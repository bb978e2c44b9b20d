-- ===== src/Xz/Unxz/Tests.antt =====
-- `memmove` and `unxz` at concrete inputs.
use galaxys2_kernel_repack.Base.{ℕ, ◌≡◌, refl, true, []}
use galaxys2_kernel_repack.Xz.Types.{single}
use galaxys2_kernel_repack.Xz.Stream.Samples.{decoder}
use galaxys2_kernel_repack.Xz.Stream.{XzDec}
use galaxys2_kernel_repack.Xz.Bcj.Samples.{all_filters, states, stream}
use galaxys2_kernel_repack.Xz.Stream.Header.{xz_dec_reset}
use galaxys2_kernel_repack.Xz.Stream.Main.{xz_dec_run}
use galaxys2_kernel_repack.Xz.Unxz.{Caller, xz_dec_init, unxz, memmove}
use galaxys2_kernel_repack.Xz.Unxz.Copies.{copied, memmove-copied}
use galaxys2_kernel_repack.Xz.Unxz.Single.{whole, in_memory, report, unxz-in_memory}
use mathlib.Core.Option
use mathlib.Core.Option.{some}

-- Five bytes, two addresses further.
memmove-copied_example : memmove (λ a. a) 12 10 5 14 ≡ copied (λ a. a) 12 10 5 14
memmove-copied_example = memmove-copied (λ a. a) 12 10 5 14

-- Memory for the decoder and for its two filters.
abbrev enough_memory : Caller all_filters
enough_memory = record {
  World = ℕ;
  malloc = λ _. true;
  new_dec = some decoder;
  new_filters = λ _ _. some states;
  fill = λ w _. (w, some []);
  flush = λ w _. (w, true);
}

abbrev fresh : XzDec
fresh = xz_dec_reset (record decoder { mode = single })

unxz-in_memory_example :
    unxz all_filters enough_memory 0 (in_memory all_filters enough_memory stream) 0
    ≡ Option.map
        (report all_filters enough_memory 0)
        (xz_dec_run all_filters fresh states (whole stream))
unfolding xz_dec_init
unxz-in_memory_example = unxz-in_memory all_filters enough_memory 0 stream 0 fresh states refl
