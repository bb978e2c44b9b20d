-- ===== src/Boot/Kernel.antt =====
-- What `decompress_kernel` does on a run of the decoder, and on inputs that are no .xz stream.
use galaxys2_kernel_repack.Base.{
  ℕ, ◌<◌, ◌≤◌, ◌≡◌, ◌≢◌, ◌↔◌, refl, ap, ◌∙◌, arith, List, [], ◌∷◌, if◌then◌else◌, take, length,
  true,
}
use galaxys2_kernel_repack.Xz.Types.{
  XzRet, ok, stream_end, unsupported_check, mem_error, memlimit_error, format_error, options_error,
  data_error, buf_error, single,
}
use galaxys2_kernel_repack.Xz.Stream.{Chain, XzDec}
use galaxys2_kernel_repack.Xz.Stream.Header.{header_magic, is_end, xz_dec_reset}
use galaxys2_kernel_repack.Xz.Stream.Header.Laws.{xz_dec_reset_fresh}
use galaxys2_kernel_repack.Xz.Stream.Block.{Run}
use galaxys2_kernel_repack.Xz.Stream.Main.{xz_dec_run}
use galaxys2_kernel_repack.Xz.Stream.Main.Magic.{Fails, xz_dec_run_rejects}
use galaxys2_kernel_repack.Xz.Unxz.{Caller, Message, message_of, xz_dec_init, wrong_magic, corrupt}
use galaxys2_kernel_repack.Xz.Unxz.Single.{whole, report, unxz-in_memory}
use galaxys2_kernel_repack.Boot.{
  uncompressing, done_booting, decompressor, returned_error, Outcome, error, do_decompress,
  decompress_kernel,
}
use mathlib.Core.Option
use mathlib.Core.Option.{Option, none, some}

-- Booting, and halting with a message of the decompressor.
abbrev pub booted : Outcome
booted = record { console = uncompressing ∷ done_booting ∷ []; boots = true }

abbrev pub halted : Message → Outcome
halted x = error (uncompressing ∷ []) (decompressor x)

-- The outcome for a result of the decoder.
abbrev pub answer : XzRet → Outcome
answer ret = elim (message_of ret) [ none ↦ booted | some x ↦ halted x ]

answer_boots : (ret : XzRet) → ((answer ret).boots ≡ true) ↔ (ret ≡ stream_end)
unfolding message_of
answer_boots ok = (λ p. cc, λ p. cc)
answer_boots stream_end = (λ _. refl, λ _. refl)
answer_boots unsupported_check = (λ p. cc, λ p. cc)
answer_boots mem_error = (λ p. cc, λ p. cc)
answer_boots memlimit_error = (λ p. cc, λ p. cc)
answer_boots format_error = (λ p. cc, λ p. cc)
answer_boots options_error = (λ p. cc, λ p. cc)
answer_boots data_error = (λ p. cc, λ p. cc)
answer_boots buf_error = (λ p. cc, λ p. cc)

-- `decompress_kernel` looks at the result of `unxz` only where there was no message.
answer-report :
    (ret : XzRet)
    → (elim (message_of ret) as (λ _. Outcome) [
      | none ↦ if is_end ret then booted else error (uncompressing ∷ []) returned_error
      | some x ↦ halted x
    ])
      ≡ answer ret
unfolding message_of
answer-report ok = refl
answer-report stream_end = refl
answer-report unsupported_check = refl
answer-report mem_error = refl
answer-report memlimit_error = refl
answer-report format_error = refl
answer-report options_error = refl
answer-report data_error = refl
answer-report buf_error = refl

module _ (c : Chain) (e : Caller c) where
  decompress_kernel-report :
      (fuel : ℕ) (xs : List ℕ) (w : e.World) (o : Option (Run c))
      → do_decompress c e fuel xs w ≡ Option.map (report c e w) o
      → decompress_kernel c e fuel xs w ≡ Option.map (λ (r : Run c). answer r.ret) o
  unfolding decompress_kernel
  decompress_kernel-report fuel xs w none reported = rw (decompress_kernel, reported) refl
  decompress_kernel-report fuel xs w (some r) reported =
      rw (decompress_kernel, reported) (ap some (answer-report r.ret))

  -- With the decoder allocated, `decompress_kernel` is one run of the decoder on the whole input, and
  -- comes to an end exactly if that run does: it boots exactly if the result is `XZ_STREAM_END`.
  -- With any other result it prints the message of that result and halts.
  pub decompress_kernel_boots :
      (fuel : ℕ) (input_data : List ℕ) (w : e.World) (s : XzDec) (f : c.Filters)
      → xz_dec_init c e single 0 ≡ some (s, f)
      → (decompress_kernel c e fuel input_data w
          ≡ Option.map (λ (r : Run c). answer r.ret) (xz_dec_run c s f (whole input_data)))
        × ((ret : XzRet) → ((answer ret).boots ≡ true) ↔ (ret ≡ stream_end))
  unfolding do_decompress
  decompress_kernel_boots fuel input_data w s f created = (
    decompress_kernel-report fuel input_data w (xz_dec_run c s f (whole input_data))
        (unxz-in_memory c e fuel input_data w s f created),
    answer_boots,
  )

  answers :
      (fuel : ℕ) (xs : List ℕ) (w : e.World) (d : XzDec) (f : c.Filters) (ret : XzRet)
      → e.new_dec ≡ some d
      → e.new_filters single 0 ≡ some f
      → Fails c ret
          (whole xs)
          (xz_dec_run c (xz_dec_reset (record d { mode = single })) f (whole xs))
      → decompress_kernel c e fuel xs w ≡ some (answer ret)
  unfolding xz_dec_init
  answers fuel xs w d f ret dec filters fails =
      let s = xz_dec_reset (record d { mode = single }) in
      let created : xz_dec_init c e single 0 ≡ some (s, f) = rw (xz_dec_init, dec, filters) refl in
      (decompress_kernel_boots fuel xs w s f created).0
      ∙ ap (Option.map (λ (r : Run c). answer r.ret)) fails.finished
      ∙ ap (λ (x : XzRet). some (answer x)) fails.result

  -- Whatever the filters are, with the decoder and the filters allocated, `decompress_kernel` on an input
  -- that does not begin with the magic bytes says that the input is not in the .xz format and halts, and on
  -- fewer than twelve bytes it says that the data are corrupt and halts.
  pub decompress_kernel_rejects :
      (fuel : ℕ) (input_data : List ℕ) (w : e.World) (d : XzDec) (f : c.Filters)
      → e.new_dec ≡ some d
      → e.new_filters single 0 ≡ some f
      → (12 ≤ length input_data
          → take 6 input_data ≢ header_magic
          → decompress_kernel c e fuel input_data w ≡ some (halted wrong_magic))
        × (length input_data < 12 → decompress_kernel c e fuel input_data w ≡ some (halted corrupt))
  unfolding message_of
  decompress_kernel_rejects fuel input_data w d f dec filters =
      let s = xz_dec_reset (record d { mode = single }) in
      let (place, empty, size, mode) = xz_dec_reset_fresh (record d { mode = single }) in
      let rejects = xz_dec_run_rejects c s f (whole input_data) (rw mode refl) (omega arith) in
      (
        λ room other.
            answers fuel input_data w d f format_error dec filters
              (rejects.0 (omega (arith, room)) other),
        λ short.
            answers fuel input_data w d f data_error dec filters (rejects.1 (omega (arith, short))),
      )
