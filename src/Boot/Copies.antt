-- ===== src/Boot/Copies.antt =====
-- `memcpy` with its unrolled loop is a copy of all bytes.
use galaxys2_kernel_repack.Base.{
  ℕ, zero, suc, ◌+◌, ◌-◌, ◌*◌, ◌/◌, ◌%◌, ◌<◌, ◌≤◌, ◌≡◌, refl, ap, ◌∙◌, arith, bit_and, ◌⊎◌,
}
use galaxys2_kernel_repack.Base.Bits
use galaxys2_kernel_repack.Base.Bytes.{update}
use galaxys2_kernel_repack.Xz.Unxz.Copies.{copied}
use galaxys2_kernel_repack.Boot.{Cursor, move_byte, move_bytes, eights, move_if, memcpy}

same_count : {k n : ℕ} (c : Cursor) → k ≡ n → move_bytes k c ≡ move_bytes n c
same_count c e = ap (λ (n : ℕ). move_bytes n c) e

move_bytes-add : (k n : ℕ) (c : Cursor) → move_bytes n (move_bytes k c) ≡ move_bytes (k + n) c
unfolding move_bytes
move_bytes-add zero n c = same_count {k = n} {n = 0 + n} c (omega arith)
move_bytes-add (suc k) n c = move_bytes-add k n (move_byte c) ∙ more
  where
    more : move_bytes (k + n) (move_byte c) ≡ move_bytes (suc k + n) c
    more = same_count c (add_suc k n)
      where
        add_suc : (k n : ℕ) → suc (k + n) ≡ suc k + n
        add_suc k n = omega arith

no_move : (c : Cursor) → c ≡ move_bytes 0 c
unfolding move_bytes
no_move c = refl

eights-move_bytes : (i : ℕ) (c : Cursor) → eights i c ≡ move_bytes (8 * i) c
unfolding eights
eights-move_bytes zero c = no_move c ∙ same_count {k = 0} {n = 8 * 0} c (omega arith)
eights-move_bytes (suc i) c =
    eights-move_bytes i (move_bytes 8 c)
    ∙ move_bytes-add 8 (8 * i) c
    ∙ same_count {k = 8 + 8 * i} {n = 8 * suc i} c (omega arith)

-- A test of a low bit.
move_if_lem :
    (n k b : ℕ) (c : Cursor)
    → bit_and n k ≡ b * k
    → 0 < k
    → b < 2
    → move_if n k c ≡ move_bytes (b * k) c
unfolding move_bytes
move_if_lem n k zero c e some_bit bit =
    ground (arith, e, same_count {k = 0 * k} {n = 0} c (omega arith))
move_if_lem n k (suc zero) c e some_bit bit =
    ground (arith, e, same_count {k = 1 * k} {n = k} c (omega arith))
move_if_lem n k (suc (suc b)) c e some_bit bit = absurd (omega arith)

-- The plain loop.
move_bytes-copied :
    (n : ℕ) (m : ℕ → ℕ) (d s a : ℕ)
    → (d ≤ s) ⊎ (s + n ≤ d)
    → (move_bytes n (record { mem = m; d = d; s = s })).mem a ≡ copied m d s n a
unfolding move_bytes
move_bytes-copied zero m d s a apart = ground arith
move_bytes-copied (suc n) m d s a apart =
    move_bytes-copied n (update m d (m s)) (d + 1) (s + 1) a (omega arith) ∙ ground (arith, same)
  where
    same : a ≡ d → m (s + (a - d)) ≡ m s
    same e = ap m (omega (arith, e))

-- The unrolled loop and the three tests of the low bits of `n` move `n` bytes. So `memcpy` puts the
-- bytes of the source as they were at the destination and changes no other byte, if the
-- destination does not start inside the source.
pub memcpy-copied :
    (m : ℕ → ℕ) (dest src n a : ℕ)
    → (dest ≤ src) ⊎ (src + n ≤ dest)
    → memcpy m dest src n a ≡ copied m dest src n a
unfolding memcpy
memcpy-copied m dest src n a apart =
    let c : Cursor = record { mem = m; d = dest; s = src } in
    let c8 = eights (n / 8) c in
    let c4 = move_if n 4 c8 in
    let c2 = move_if n 2 c4 in
    let b4 = move_if_lem n 4 (n / 4 % 2) c8 (Bits.bit_and-bit 2 n) (omega arith) (omega arith) in
    let b2 = move_if_lem n 2 (n / 2 % 2) c4 (Bits.bit_and-bit 1 n) (omega arith) (omega arith) in
    let b1 =
      move_if_lem n 1 (n % 2) c2 (Bits.bit_and-bit 0 n ∙ omega arith) (omega arith) (omega arith) in
    let three : ℕ = n / 4 % 2 * 4 + (n / 2 % 2 * 2 + n % 2 * 1) in
    let all : move_if n 1 c2 ≡ move_bytes n c =
      b1
      ∙ ap (move_bytes (n % 2 * 1)) b2
      ∙ move_bytes-add (n / 2 % 2 * 2) (n % 2 * 1) c4
      ∙ ap (move_bytes (n / 2 % 2 * 2 + n % 2 * 1)) b4
      ∙ move_bytes-add (n / 4 % 2 * 4) (n / 2 % 2 * 2 + n % 2 * 1) c8
      ∙ ap (move_bytes three) (eights-move_bytes (n / 8) c)
      ∙ move_bytes-add (8 * (n / 8)) three c
      ∙ same_count {k = 8 * (n / 8) + three} {n = n} c (omega arith) in
    ap (λ (t : Cursor). t.mem a) all ∙ move_bytes-copied n m dest src a apart
