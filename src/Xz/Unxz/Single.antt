-- ===== src/Xz/Unxz/Single.antt =====
-- `unxz` on an input in memory, without callbacks, as the boot code calls it.
use galaxys2_kernel_repack.Base.{ℕ, ◌-◌, ◌^◌, ◌≡◌, refl, ap, arith, List, false}
use galaxys2_kernel_repack.Xz.Types.{
  XzRet, ok, stream_end, unsupported_check, mem_error, memlimit_error, format_error, options_error,
  data_error, buf_error,
}
use galaxys2_kernel_repack.Xz.Types.{single, output, XzBuf}
use galaxys2_kernel_repack.Xz.Stream.{Chain, XzDec}
use galaxys2_kernel_repack.Xz.Stream.Header.{is_end}
use galaxys2_kernel_repack.Xz.Stream.Block.{Run}
use galaxys2_kernel_repack.Xz.Stream.Main.{xz_dec_run}
use galaxys2_kernel_repack.Xz.Unxz.{
  Caller, Request, Done, message_of, xz_dec_init, unxz, decode, finish,
}
use mathlib.Core.Option
use mathlib.Core.Option.{Option, none, some}

-- The whole input, and an output without a limit of its own.
abbrev pub whole : List ℕ → XzBuf
whole xs = record {
  input = xs;
  in_pos = 0;
  out = record { region = output; offset = 0 };
  out_pos = 0;
  out_size = 2 ^ 32 - 1;
}

module _ (c : Chain) (e : Caller c) where
  abbrev pub in_memory : List ℕ → Request c e
  in_memory xs = record { has_fill = false; has_flush = false; input = some xs }

  -- What `unxz` reports of a run of the decoder.
  abbrev pub report : e.World → Run c → Done c e
  report w r = record {
    success = is_end r.ret;
    message = message_of r.ret;
    in_used = r.buf.in_pos;
    world = w;
  }

  finish-report :
      (w : e.World) (ret : XzRet) (r : Run c) (f : c.Filters)
      → finish c e
          (record { ret = ret; dec = r.dec; filters = f; buf = r.buf; in_used = 0; world = w })
        ≡ report w (record r { ret = ret })
  unfolding finish message_of
  finish-report w ok r f = ground arith
  finish-report w stream_end r f = ground arith
  finish-report w unsupported_check r f = ground arith
  finish-report w mem_error r f = ground arith
  finish-report w memlimit_error r f = ground arith
  finish-report w format_error r f = ground arith
  finish-report w options_error r f = ground arith
  finish-report w data_error r f = ground arith
  finish-report w buf_error r f = ground arith

  unxz-report :
      (fuel : ℕ) (xs : List ℕ) (w : e.World) (s : XzDec) (f : c.Filters) (o : Option (Run c))
      → xz_dec_init c e single 0 ≡ some (s, f)
      → xz_dec_run c s f (whole xs) ≡ o
      → unxz c e fuel (in_memory xs) w ≡ Option.map (report w) o
  unfolding unxz decode
  unxz-report fuel xs w s f none created ran = rw (unxz, created, decode, ran) refl
  unxz-report fuel xs w s f (some r) created ran =
      rw (unxz, created, decode, ran) (ap some (finish-report w r.ret r r.filters))

  -- With both filters and the decoder allocated, `unxz` on an input in memory is one run of the decoder
  -- on all of it, and returns exactly if that run does. It returns 0 exactly if the result is `XZ_STREAM_END`, else it calls `error`
  -- with the message of the result, and it reports the position in the input that the decoder left.
  -- Its own fuel plays no part.
  pub unxz-in_memory :
      (fuel : ℕ) (xs : List ℕ) (w : e.World) (s : XzDec) (f : c.Filters)
      → xz_dec_init c e single 0 ≡ some (s, f)
      → unxz c e fuel (in_memory xs) w ≡ Option.map (report w) (xz_dec_run c s f (whole xs))
  unxz-in_memory fuel xs w s f created =
      unxz-report fuel xs w s f (xz_dec_run c s f (whole xs)) created refl
