-- ===== src/Xz/Lzma/Keeps.antt =====
-- Matches leave the properties and the memory alone, until the copy.
use galaxys2_kernel_repack.Base.{ℕ, ◌+◌, ◌-◌, ◌≡◌, refl, ◌∙◌}
use galaxys2_kernel_repack.Base.{ltb, ◌==◌, if_has}
use galaxys2_kernel_repack.Xz.RangeCoder.{rc_bit, rc_bittree}
use galaxys2_kernel_repack.Xz.RangeCoder.Cost.{}
use galaxys2_kernel_repack.Xz.RangeCoder.Invariant.{}
use galaxys2_kernel_repack.Xz.Dict.Invariant.{}
use galaxys2_kernel_repack.Xz.Lzma.{
  Lzma, after, lzma_len, len_tree, match_len_dec, rep_len_dec, match_distance, short_distance,
  long_distance, lzma_match, long_rep, lzma_rep_match, lzma_state_match, dist_slot_probs,
  lzma_get_dist_state, lzma_state_long_rep, is_rep0, is_rep1, is_rep2, is_rep0_long,
}
use galaxys2_kernel_repack.Xz.Lzma.Literals.{}
use galaxys2_kernel_repack.Xz.Lzma.Symbols.{}

-- The fields that only `lzma_props` writes, and the memory.
pub record Keeps (s t : Lzma) : Type 0 where
  pub positions : t.pos_mask ≡ s.pos_mask
  pub context : t.lc ≡ s.lc
  pub masks : t.literal_pos_mask ≡ s.literal_pos_mask
  pub memory : t.mem ≡ s.mem

pub kept :
    {s t : Lzma}
    → t.pos_mask ≡ s.pos_mask
    → t.lc ≡ s.lc
    → t.literal_pos_mask ≡ s.literal_pos_mask
    → t.mem ≡ s.mem
    → Keeps s t
kept p c l m = record { positions = p; context = c; masks = l; memory = m }

pub Keeps-trans : {s t u : Lzma} → Keeps s t → Keeps t u → Keeps s u
Keeps-trans k l =
    kept (l.positions ∙ k.positions) (l.context ∙ k.context) (l.masks ∙ k.masks)
      (l.memory ∙ k.memory)

lzma_len-Keeps : (s : Lzma) (l p : ℕ) → Keeps s (lzma_len s l p)
unfolding lzma_len len_tree
lzma_len-Keeps s l p =
    let c = rc_bit s.rc s.probs l in
    let c2 = rc_bit c.rc c.probs (l + 1) in
    if_has (Keeps s) (c.value == 0) (λ _. kept refl refl refl refl)
      (λ _.
        if_has (Keeps s) (c2.value == 0) (λ _. kept refl refl refl refl)
          (λ _. kept refl refl refl refl))

match_distance-Keeps : (s : Lzma) (slot : ℕ) → Keeps s (match_distance s slot)
unfolding match_distance short_distance long_distance
match_distance-Keeps s slot =
    if_has (Keeps s) (ltb slot 4) (λ _. kept refl refl refl refl)
      (λ _.
        if_has (Keeps s) (ltb slot 14) (λ _. kept refl refl refl refl)
          (λ _. kept refl refl refl refl))

pub lzma_match-Keeps : (s : Lzma) (p : ℕ) → Keeps s (lzma_match s p)
unfolding lzma_match
lzma_match-Keeps s p =
    let start : Lzma = record s {
      state = lzma_state_match s.state;
      rep3 = s.rep2;
      rep2 = s.rep1;
      rep1 = s.rep0;
    } in
    let long = lzma_len start match_len_dec p in
    let r = rc_bittree long.rc long.probs (dist_slot_probs (lzma_get_dist_state long.len)) 64 in
    let l = lzma_len-Keeps start match_len_dec p in
    let d = match_distance-Keeps (after long r) (r.value - 64) in
    kept (d.positions ∙ l.positions) (d.context ∙ l.context) (d.masks ∙ l.masks)
      (d.memory ∙ l.memory)

long_rep-Keeps : (s : Lzma) (p : ℕ) → Keeps s (long_rep s p)
unfolding long_rep
long_rep-Keeps s p =
    let l = lzma_len-Keeps (record s { state = lzma_state_long_rep s.state }) rep_len_dec p in
    kept l.positions l.context l.masks l.memory

pub lzma_rep_match-Keeps : (s : Lzma) (p : ℕ) → Keeps s (lzma_rep_match s p)
unfolding lzma_rep_match
lzma_rep_match-Keeps s p =
    let b0 = rc_bit s.rc s.probs (is_rep0 s.state) in
    let long = rc_bit b0.rc b0.probs (is_rep0_long s.state p) in
    let b1 = rc_bit b0.rc b0.probs (is_rep1 s.state) in
    let b2 = rc_bit b1.rc b1.probs (is_rep2 s.state) in
    let second : Lzma = record (after s b1) { rep1 = s.rep0; rep0 = s.rep1 } in
    let third : Lzma = record (after s b2) { rep2 = s.rep1; rep1 = s.rep0; rep0 = s.rep2 } in
    let fourth : Lzma = record (after s b2) {
      rep3 = s.rep2;
      rep2 = s.rep1;
      rep1 = s.rep0;
      rep0 = s.rep3;
    } in
    if_has (Keeps s) (b0.value == 0)
      (λ _.
        if_has (Keeps s) (long.value == 0) (λ _. kept refl refl refl refl)
          (λ _. Keeps-trans (kept refl refl refl refl) (long_rep-Keeps (after s long) p)))
      (λ _.
        if_has (Keeps s) (b1.value == 0)
          (λ _. Keeps-trans (kept refl refl refl refl) (long_rep-Keeps second p))
          (λ _.
            if_has (Keeps s) (b2.value == 0)
              (λ _. Keeps-trans (kept refl refl refl refl) (long_rep-Keeps third p))
              (λ _. Keeps-trans (kept refl refl refl refl) (long_rep-Keeps fourth p))))
