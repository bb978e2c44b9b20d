-- ===== src/Boot.antt =====
-- The C code of resources/arch/arm/boot/compressed: `memcpy`, `error` and `decompress_kernel` of
-- misc.c and `do_decompress` of decompress.c, in the build where the decompressor is `unxz`.
-- Memory is a function of the address.
use galaxys2_kernel_repack.Base.{
  ℕ, zero, suc, ◌+◌, ◌/◌, ◌^◌, bit_and, Bool, true, false, ◌==◌, if◌then◌else◌,
}
use galaxys2_kernel_repack.Base.{List, [], ◌∷◌, ◌++◌}
use galaxys2_kernel_repack.Base.Bytes.{update}
use galaxys2_kernel_repack.Xz.Stream.{Chain}
use galaxys2_kernel_repack.Xz.Unxz.{Message, Caller, Request, Done, unxz}
use mathlib.Core.Option.{Option, none, some}
pub mod Copies
pub mod Kernel
mod Tests

-- `d` and `s` of `memcpy`, and the memory.
pub record Cursor : Type 0 where
  pub mem : ℕ → ℕ
  pub d : ℕ
  pub s : ℕ

-- `*d++ = *s++;`, and some of these statements.
abbrev pub move_byte : Cursor → Cursor
move_byte c = record { mem = update c.mem c.d (c.mem c.s); d = c.d + 1; s = c.s + 1 }

pub move_bytes : ℕ → Cursor → Cursor
move_bytes zero c = c
move_bytes (suc n) c = move_bytes n (move_byte c)

-- The loop of `memcpy`, with the rounds left.
pub eights : ℕ → Cursor → Cursor
eights zero c = c
eights (suc i) c = eights i (move_bytes 8 c)

abbrev pub move_if : ℕ → ℕ → Cursor → Cursor
move_if n k c = if bit_and n k == 0 then c else move_bytes k c

pub memcpy : (ℕ → ℕ) → ℕ → ℕ → ℕ → ℕ → ℕ
memcpy m dest src n =
    (move_if n 1
      (move_if n 2 (move_if n 4 (eights (n / 8) (record { mem = m; d = dest; s = src }))))).mem

-- What is written to the console, in order.
pub data Line : Type 0 where
  uncompressing done_booting returned_error blank system_halted : Line
  decompressor : Message → Line

-- `error`: it halts.
pub record Outcome : Type 0 where
  pub console : List Line
  pub boots : Bool

abbrev pub error : List Line → Line → Outcome
error before x = record { console = before ++ (blank ∷ x ∷ system_halted ∷ []); boots = false }

module _ (c : Chain) (e : Caller c) where
  -- `do_decompress`, without callbacks.
  pub do_decompress : ℕ → List ℕ → e.World → Option (Done c e)
  do_decompress fuel input w =
      unxz c e fuel (record { has_fill = false; has_flush = false; input = some input }) w

  -- The messages of `decompress_kernel`. A message of the decompressor comes from `error`, so that
  -- its result is not looked at.
  pub decompress_kernel : ℕ → List ℕ → e.World → Option Outcome
  decompress_kernel fuel input_data w = elim (do_decompress fuel input_data w) [
    | none ↦ none
    | some r ↦ some (elim r.message [
      | some x ↦ error (uncompressing ∷ []) (decompressor x)
      | none ↦
          if r.success
          then record { console = uncompressing ∷ done_booting ∷ []; boots = true }
          else error (uncompressing ∷ []) returned_error
    ])
  ]
