-- ===== src/Xz/Vli/Tests.antt =====
-- `dec_vli` at concrete inputs: 300 is spelled `0xac 0x02`.
use galaxys2_kernel_repack.Base.{ℕ, ◌+◌, ◌<◌, ◌^◌, ◌≡◌, refl, arith, List, [], ◌∷◌, ◌++◌, length}
use galaxys2_kernel_repack.Xz.Types.{stream_end}
use galaxys2_kernel_repack.Xz.Vli.{dec_vli}
use galaxys2_kernel_repack.Xz.Vli.Resume.{call_again, dec_vli-append}
use galaxys2_kernel_repack.Xz.Vli.RoundTrip.{encoding, dec_vli-encoding, dec_vli-accepts}

dec_vli-append_example :
    dec_vli ((172 ∷ []) ++ (2 ∷ [])) 3 0 9 ≡ call_again dec_vli (dec_vli (172 ∷ []) 3 0 9) (2 ∷ [])
dec_vli-append_example = dec_vli-append (172 ∷ []) (2 ∷ []) 3 0 9

dec_vli-encoding_example :
    dec_vli (encoding 8 300 ++ (7 ∷ [])) 3 0 9
    ≡ record { ret = stream_end; in_pos = 3 + length (encoding 8 300); pos = 0; vli = 300 }
dec_vli-encoding_example = dec_vli-encoding 300 3 9 (7 ∷ []) (omega arith)

dec_vli-accepts_example :
    (rest : List ℕ) × (172 ∷ 2 ∷ 7 ∷ [] ≡ encoding 8 (dec_vli (172 ∷ 2 ∷ 7 ∷ []) 3 0 9).vli ++ rest)
    × ((dec_vli (172 ∷ 2 ∷ 7 ∷ []) 3 0 9).vli < 2 ^ 63)
unfolding dec_vli
dec_vli-accepts_example = dec_vli-accepts (172 ∷ 2 ∷ 7 ∷ []) 3 9 (ground arith) refl
