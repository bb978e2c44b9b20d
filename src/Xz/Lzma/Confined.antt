-- ===== src/Xz/Lzma/Confined.antt =====
-- Which bytes the LZMA decoder writes: those of the dictionary from `pos` up to the limit.
use galaxys2_kernel_repack.Base.{
  ℕ, zero, suc, ◌-◌, ◌<◌, ◌≡◌, subst, arith, bit_and, ltb, ◌==◌, ◌&&◌, not, if◌then◌else◌, if_has,
}
use galaxys2_kernel_repack.Base.Bytes.{u8}
use galaxys2_kernel_repack.Xz.Types.{Mem, Ptr}
use galaxys2_kernel_repack.Xz.RangeCoder.{rc_bit, rc_limit_exceeded}
use galaxys2_kernel_repack.Xz.Dict.{Dictionary, dict_has_space}
use galaxys2_kernel_repack.Xz.Lzma.{
  Lzma, Symbol, after, lzma_match, lzma_rep_match, lzma_literal, literal_symbol, repeat_match,
  lzma_symbol, main_loop, lzma_main, is_match, is_rep,
}
use galaxys2_kernel_repack.Xz.Lzma.Keeps.{lzma_match-Keeps, lzma_rep_match-Keeps}
use galaxys2_kernel_repack.Xz.Lzma.Symbols.{lzma_match-IsMatched, lzma_rep_match-IsMatched}
use galaxys2_kernel_repack.Xz.Lzma.Writes.{
  IsOpen, Grows, Grows-refl, repeat_match-Grows, lzma_symbol-Grows, lzma_match-positive,
  lzma_rep_match-positive,
}
use galaxys2_kernel_repack.Xz.Dict.Confined.{
  Spares, Spares-refl, Spares-trans, dict_put-Spares, dict_repeat-Spares,
}

-- What is written for a dictionary.
abbrev pub Confined : Lzma → Lzma → Type 0
Confined s t = Spares s.dict.buf s.dict.pos s.dict.limit s.mem t.mem

repeat_match-Confined :
    (s : Lzma)
    → IsOpen s.dict
    → s.dict.pos < s.dict.limit
    → 0 < s.len
    → Confined s (repeat_match s).lzma
unfolding repeat_match
repeat_match-Confined s h space some_len =
    dict_repeat-Spares s.dict s.mem s.len s.rep0 h.ordered h.limited space some_len

lzma_literal-Confined : (s : Lzma) → s.dict.pos < s.dict.limit → Confined s (lzma_literal s)
unfolding lzma_literal
lzma_literal-Confined s space = dict_put-Spares s.dict s.mem (u8 (literal_symbol s).value) space

-- A match writes what it has decoded, with the dictionary and the memory from before.
match-Confined :
    (s t : Lzma)
    → IsOpen s.dict
    → s.dict.pos < s.dict.limit
    → t.dict ≡ s.dict
    → t.mem ≡ s.mem
    → 0 < t.len
    → Confined s (repeat_match t).lzma
match-Confined s t h space dict mem some_len =
    subst (λ (m : Mem). Spares s.dict.buf s.dict.pos s.dict.limit m (repeat_match t).lzma.mem) mem
      (subst (λ (d : Dictionary). Spares d.buf d.pos d.limit t.mem (repeat_match t).lzma.mem) dict
        (repeat_match-Confined t (rw dict h) (rw dict space) some_len))

lzma_symbol-Confined :
    (s : Lzma) → IsOpen s.dict → s.dict.pos < s.dict.limit → Confined s (lzma_symbol s).lzma
unfolding lzma_symbol
lzma_symbol-Confined s h space =
    let pos_state = bit_and s.dict.pos s.pos_mask in
    let b = rc_bit s.rc s.probs (is_match s.state pos_state) in
    let r = rc_bit b.rc b.probs (is_rep s.state) in
    let from : Lzma = after s r in
    if_has (λ (x : Symbol). Confined s x.lzma) (b.value == 0)
      (λ _. lzma_literal-Confined (after s b) space)
      (λ _.
        if_has (λ (t : Lzma). Confined s (repeat_match t).lzma) (r.value == 1)
          (λ _.
            match-Confined s (lzma_rep_match from pos_state) h space
              (lzma_rep_match-IsMatched from pos_state).0
              (lzma_rep_match-Keeps from pos_state).memory (lzma_rep_match-positive from pos_state))
          (λ _.
            match-Confined s (lzma_match from pos_state) h space
              (lzma_match-IsMatched from pos_state).0 (lzma_match-Keeps from pos_state).memory
              (lzma_match-positive from pos_state)))

-- First one decoder, then another one behind it.
then-Confined : (s t u : Lzma) → Grows s.dict t.dict → Confined s t → Confined t u → Confined s u
then-Confined s t u g h k = Spares-trans g.forward h (
    subst (λ (x : Ptr). Spares x t.dict.pos s.dict.limit t.mem u.mem) g.buf
      (subst (λ (x : ℕ). Spares t.dict.buf t.dict.pos x t.mem u.mem) g.limit k))

main_loop-Confined : (fuel : ℕ) (s : Lzma) → IsOpen s.dict → Confined s (main_loop fuel s).lzma
unfolding main_loop
main_loop-Confined zero s h = Spares-refl s.dict.buf s.dict.pos s.dict.limit s.mem
main_loop-Confined (suc fuel) s h =
    let next = lzma_symbol s in
    let P = λ (x : Symbol). Confined s x.lzma in
    if_has P (dict_has_space s.dict && not (rc_limit_exceeded s.rc))
      (λ go.
        let space : s.dict.pos < s.dict.limit = ground (arith, go) in
        let grows = lzma_symbol-Grows s h space in
        let one = lzma_symbol-Confined s h space in
        if_has P next.done
          (λ _.
            then-Confined s next.lzma (main_loop fuel next.lzma).lzma grows one
              (main_loop-Confined fuel next.lzma grows.again))
          (λ _. one))
      (λ _. Spares-refl s.dict.buf s.dict.pos s.dict.limit s.mem)

-- From a dictionary whose positions are in order, a whole run of `lzma_main`, on any input and in any
-- state of the decoder, writes to the dictionary's buffer only, from `pos` up to the limit: every other
-- byte is what it was, in that buffer, before and behind it in its region, and in other regions.
pub lzma_main-Confined : (s : Lzma) → IsOpen s.dict → Confined s (lzma_main s).lzma
unfolding lzma_main
lzma_main-Confined s h =
    let pending = dict_has_space s.dict && ltb 0 s.len in
    let start : Lzma = if pending then (repeat_match s).lzma else s in
    let grows : Grows s.dict start.dict =
      if_has (λ (t : Lzma). Grows s.dict t.dict) pending
        (λ go. repeat_match-Grows s h (ground (arith, go)) (ground (arith, go)))
        (λ _. Grows-refl s.dict h) in
    let first : Confined s start =
      if_has (λ (t : Lzma). Confined s t) pending
        (λ go. repeat_match-Confined s h (ground (arith, go)) (ground (arith, go)))
        (λ _. Spares-refl s.dict.buf s.dict.pos s.dict.limit s.mem) in
    let fuel = start.dict.limit - start.dict.pos in
    let r = main_loop fuel start in
    let all =
      then-Confined s start r.lzma grows first (main_loop-Confined fuel start grows.again) in
    if_has (λ (x : Symbol). Confined s x.lzma) r.done (λ _. all) (λ _. all)
