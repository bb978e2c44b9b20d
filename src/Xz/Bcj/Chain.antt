-- ===== src/Xz/Bcj/Chain.antt =====
-- The filters of the stream decoder: `xz_dec_bcj_run` in front of the next filter, and the filters of
-- the program, where the next filter is `xz_dec_lzma2_run`.
use galaxys2_kernel_repack.Base.{ℕ, Bool, if◌then◌else◌}
use galaxys2_kernel_repack.Xz.Types.{XzBuf}
use galaxys2_kernel_repack.Xz.Lzma2.{Lzma2, run_loop, xz_dec_lzma2_reset}
use galaxys2_kernel_repack.Xz.Stream
use galaxys2_kernel_repack.Xz.Stream.{Chain}
use galaxys2_kernel_repack.Xz.Bcj.{Bcj, Next, Ran, Stage, xz_dec_bcj_run, xz_dec_bcj_reset}
use mathlib.Core.Option
use mathlib.Core.Option.{Option}

module _ (n : Next) where
  -- What `dec_block` sees of a run of the BCJ filter, and of a run of the next filter alone.
  abbrev pub from_bcj : Stage n → Stream.Ran (Bcj × n.State)
  from_bcj r = record { ret = r.ret; filters = (r.bcj, r.next); buf = r.buf }

  abbrev pub from_next : Bcj → Ran (n.State) → Stream.Ran (Bcj × n.State)
  from_next s r = record { ret = r.ret; filters = (s, r.state); buf = r.buf }

  -- The run of the filters in `dec_block`, with or without the BCJ filter.
  pub run_chain : Bool → Bcj × n.State → XzBuf → Option (Stream.Ran (Bcj × n.State))
  run_chain bcj_active (s, f) b =
      let with_bcj = Option.map from_bcj (xz_dec_bcj_run n s f b) in
      let alone = Option.map (from_next s) (n.run f b) in if bcj_active then with_bcj else alone

  -- The filters below `dec_main`.
  abbrev pub chain : Chain
  chain = record {
    Filters = Bcj × n.State;
    mem = λ f. n.mem f.1;
    run = run_chain;
    lzma2_reset = λ f props. let (ret, g) = n.reset f.1 props in (ret, (f.0, g));
    bcj_reset = λ f id. let (ret, s) = xz_dec_bcj_reset f.0 id in (ret, (s, f.1));
  }

-- The LZMA2 decoder as the next filter: the rounds for its loop, and whether `vmalloc` has memory.
abbrev pub lzma2 : (ℕ → Bool) → ℕ → Next
lzma2 vmalloc fuel = record {
  State = Lzma2;
  mem = λ s. s.lzma.mem;
  with_mem = λ s m. record s { lzma = record (s.lzma) { mem = m } };
  run = λ s b.
      Option.map (λ r. record { ret = r.ret; state = r.dec; buf = r.buf }) (run_loop fuel s b);
  reset = xz_dec_lzma2_reset vmalloc;
}

-- The filters of the program.
abbrev pub filters : (ℕ → Bool) → ℕ → Chain
filters vmalloc fuel = chain (lzma2 vmalloc fuel)
