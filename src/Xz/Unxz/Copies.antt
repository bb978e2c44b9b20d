-- ===== src/Xz/Unxz/Copies.antt =====
-- `memmove` copies between areas that may overlap, and `memzero` clears.
use galaxys2_kernel_repack.Base.{
  ℕ, zero, suc, ◌+◌, ◌-◌, ◌≤◌, ◌≡◌, ap, ◌∙◌, arith, ltb, leb, ◌&&◌, if◌then◌else◌,
}
use galaxys2_kernel_repack.Base.Bytes.{update}
use galaxys2_kernel_repack.Xz.Unxz.{memzero, move_up, move_down, memmove}

-- The byte at `a` after `size` bytes from `src` on, as they were, stand at `dest`.
abbrev pub copied : (ℕ → ℕ) → ℕ → ℕ → ℕ → ℕ → ℕ
copied m dest src size a = if leb dest a && ltb a (dest + size) then m (src + (a - dest)) else m a

move_up_lem :
    (left : ℕ) (m : ℕ → ℕ) (d s i a : ℕ)
    → d ≤ s
    → move_up left m d s i a ≡ copied m (d + i) (s + i) left a
unfolding move_up
move_up_lem zero m d s i a before = ground arith
move_up_lem (suc left) m d s i a before =
    move_up_lem left (update m (d + i) (m (s + i))) d s (i + 1) a before ∙ ground (arith, same)
  where
    same : a ≡ d + i → m (s + i + (a - (d + i))) ≡ m (s + i)
    same e = ap m (omega (arith, e))

move_down_lem : (i : ℕ) (m : ℕ → ℕ) (d s a : ℕ) → s ≤ d → move_down i m d s a ≡ copied m d s i a
unfolding move_down
move_down_lem zero m d s a before = ground arith
move_down_lem (suc i) m d s a before =
    move_down_lem i (update m (d + i) (m (s + i))) d s a before ∙ ground (arith, same)
  where
    same : a ≡ d + i → m (s + (a - d)) ≡ m (s + i)
    same e = ap m (omega (arith, e))

-- `memmove` copies as if through a buffer of its own, however the two areas overlap: every byte of
-- the destination is the byte that stood at its place in the source, and no other byte changes.
pub memmove-copied :
    (m : ℕ → ℕ) (dest src size a : ℕ) → memmove m dest src size a ≡ copied m dest src size a
unfolding memmove
memmove-copied m dest src size a = ground (
  arith,
  start,
  λ (p : dest ≤ src). move_up_lem size m dest src 0 a p,
  λ (p : src ≤ dest). move_down_lem size m dest src a p,
  same,
)
  where
    start : copied m (dest + 0) (src + 0) size a ≡ copied m dest src size a
    start = ground arith

    same : dest ≡ src → copied m dest src size a ≡ m a
    same e = ground (arith, e, λ (p : dest ≤ a). ap m (here p))
      where
        here : dest ≤ a → src + (a - dest) ≡ a
        here p = omega (arith, p, e)

-- `memzero` clears its bytes and no others.
pub memzero_lem :
    (left : ℕ) (m : ℕ → ℕ) (b a : ℕ)
    → memzero left m b a ≡ (if leb b a && ltb a (b + left) then 0 else m a)
unfolding memzero
memzero_lem zero m b a = ground arith
memzero_lem (suc left) m b a = memzero_lem left (update m b 0) (b + 1) a ∙ ground arith
