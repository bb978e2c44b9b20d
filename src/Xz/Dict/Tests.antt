-- ===== src/Xz/Dict/Tests.antt =====
-- The dictionary at concrete inputs: ten bytes of its own, with "ab" at its start.
use galaxys2_kernel_repack.Base.{◌+◌, ◌-◌, ◌≡◌, inl, refl, arith, min, true, [], ◌∷◌}
use galaxys2_kernel_repack.Xz.Types.{dynalloc, dictionary, output, Mem, XzBuf}
use galaxys2_kernel_repack.Xz.Dict.{Dictionary, dict_repeat, dict_uncompressed}
use galaxys2_kernel_repack.Xz.Dict.Invariant.{IsDict}
use galaxys2_kernel_repack.Xz.Dict.Window.{window, lz_copy, dict_repeat-lz_copy}
use galaxys2_kernel_repack.Xz.Dict.Copy.{IsCopied, dict_uncompressed-IsCopied}

abbrev ab : Dictionary
ab = record {
  buf = record { region = dictionary; offset = 0 };
  start = 0;
  pos = 2;
  full = 2;
  limit = 8;
  end = 10;
  size = 10;
  size_max = 10;
  allocated = 10;
  mode = dynalloc;
}

abbrev bytes : Mem
bytes _ i = 97 + i

abbrev buffer : XzBuf
buffer = record {
  input = 1 ∷ 2 ∷ 3 ∷ [];
  in_pos = 0;
  out = record { region = output; offset = 0 };
  out_pos = 0;
  out_size = 20;
}

abbrev ab-IsDict : IsDict ab
ab-IsDict = omega arith

dict_repeat-lz_copy_example :
    ((dict_repeat ab bytes 3 1).done ≡ true)
    × ((dict_repeat ab bytes 3 1).dict.pos ≡ 2 + min (8 - 2) 3)
    × ((dict_repeat ab bytes 3 1).len ≡ 3 - min (8 - 2) 3)
    × (window (dict_repeat ab bytes 3 1).dict (dict_repeat ab bytes 3 1).mem 4
        ≡ lz_copy (min (8 - 2) 3) 1 (window ab bytes) 4)
dict_repeat-lz_copy_example =
    dict_repeat-lz_copy ab bytes 3 1 4 ab-IsDict (omega arith) (omega arith) (omega arith)
      (omega arith) (omega arith) (omega arith)

dict_uncompressed-IsCopied_example : IsCopied buffer 2 (dict_uncompressed ab bytes buffer 2)
dict_uncompressed-IsCopied_example =
    dict_uncompressed-IsCopied ab bytes buffer 2 ab-IsDict (inl (refl, omega arith)) (omega arith)
      (omega arith)
