-- ===== src/Gunzip/Tests.antt =====
-- `gunzip` on concrete files, with a zlib that copies what it is given.
use galaxys2_kernel_repack.Base.{
  ℕ, ◌+◌, ◌^◌, ◌≡◌, ◌≢◌, refl, arith, true, false, List, [], ◌∷◌, length, take,
}
use galaxys2_kernel_repack.Malloc.{Heap, malloc, free}
use galaxys2_kernel_repack.Malloc.Blocks.{Steps}
use galaxys2_kernel_repack.Gunzip.{
  Zlib, Caller, Request, Done, z_ok, z_errno, z_stream_end, no_workspace, unpack, output_buffer,
  input_buffer, free_input, free_output, gunzip,
}
use galaxys2_kernel_repack.Gunzip.Memory.{gunzip-Steps}
use galaxys2_kernel_repack.Gunzip.Ends.{IsZlib, length-take, gunzip-returns}
use galaxys2_kernel_repack.Gunzip.File.{gzip_file, unpack-gzip_file}
use mathlib.Core.Option.{none, some}

abbrev copying : Zlib
copying = record {
  Stream = ℕ;
  stream_size = 100;
  workspace_size = 40000;
  state_size = 7000;
  init2 = (z_ok, 0);
  without_window = λ s. s;
  inflate = λ s xs room. record {
    ret = z_stream_end;
    stream = s;
    used = length xs;
    output = take room xs;
  };
}

copying-IsZlib : IsZlib copying
copying-IsZlib = record {
  within = λ s xs room. omega arith;
  fits = λ s xs room. length-take room xs;
  progress = λ s xs room h. absurd (ended h);
}
  where
    ended : z_stream_end ≢ z_ok
    ended h = cc

-- `fill` has nothing, and `flush` takes all.
abbrev idle : Caller
idle = record { World = ℕ; fill = λ w _. (w, none); flush = λ w xs. (w + length xs, true) }

-- A file with the name "k".
abbrev named : List ℕ
named = gzip_file (0 ∷ 0 ∷ 0 ∷ 0 ∷ 0 ∷ 3 ∷ []) (some (107 ∷ [])) (5 ∷ 6 ∷ 7 ∷ [])

abbrev in_memory : Request
in_memory = record { has_fill = false; has_flush = false; buf = some named; out_buf = 0x8000 }

unpack-gzip_file_example :
    unpack copying idle 1 in_memory 0
    ≡ some (record { rc = z_ok; message = none; pos = some 23; out = 5 ∷ 6 ∷ 7 ∷ []; world = 0 })
unpack-gzip_file_example =
    unpack-gzip_file copying idle 0 in_memory 0 (0 ∷ 0 ∷ 0 ∷ 0 ∷ 0 ∷ 3 ∷ []) (some (107 ∷ []))
      (5 ∷ 6 ∷ 7 ∷ []) refl refl refl ((λ e. omega (arith, e)), tt) (omega arith) refl refl

abbrev pool : Heap
pool = record {
  malloc_ptr = 0;
  malloc_count = 0;
  free_mem_ptr = 0x10000;
  free_mem_end_ptr = 0x20000;
}

gunzip-returns_example : gunzip copying idle (2 ^ 31 + 16) in_memory pool 0 ≢ none
gunzip-returns_example =
    gunzip-returns copying idle copying-IsZlib (2 ^ 31 + 16) in_memory pool 0 named refl refl refl
      (omega arith)

-- With `flush` the workspace is larger than what is left: the request is refused.
abbrev flushing : Request
flushing = record { has_fill = false; has_flush = true; buf = some named; out_buf = 0 }

abbrev given_up : Done copying idle
given_up = record {
  result = record { rc = z_errno; message = some no_workspace; pos = none; out = []; world = 0 };
  heap = record pool { malloc_ptr = 0x10000 };
}

gives_up : gunzip copying idle 5 flushing pool 0 ≡ some given_up
unfolding gunzip malloc free output_buffer input_buffer free_input free_output
gives_up = refl

gunzip-Steps_example : Steps pool [] given_up.heap []
gunzip-Steps_example =
    gunzip-Steps copying idle 5 flushing pool 0 [] given_up
      (record { begins = omega arith; address = omega arith; count = omega arith }) gives_up
