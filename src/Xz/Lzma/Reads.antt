-- ===== src/Xz/Lzma/Reads.antt =====
-- What a symbol reads, and the bounds of the probabilities in `struct lzma_dec`.
use galaxys2_kernel_repack.Base.{ℕ, ◌+◌, ◌-◌, ◌*◌, ◌/◌, ◌^◌, ◌<◌, ◌≤◌, arith}
use galaxys2_kernel_repack.Base.{ltb, ◌==◌, bit_and, if_has}
use galaxys2_kernel_repack.Base.Bytes.{u32}
use galaxys2_kernel_repack.Base.Bits
use galaxys2_kernel_repack.Xz.RangeCoder.{Rc, Decoded, rc_bit, rc_bittree, rc_direct}
use galaxys2_kernel_repack.Xz.RangeCoder.Cost.{
  Costs, Costs-refl, Costs-sum, Costs-trade, Costs-adaptive, Costs-direct,
}
use native.Mathlib.Nat.{pow-le-pow_right, mul-le-mul_right}
use galaxys2_kernel_repack.Xz.RangeCoder.Invariant.{IsCoder, probs_total}
use galaxys2_kernel_repack.Xz.RangeCoder.Trees.{
  rc_bit-IsStep, rc_bittree-IsStep, rc_bittree_reverse-IsStep,
}
use galaxys2_kernel_repack.Xz.RangeCoder.DirectBits.{rc_direct-IsRange}
use galaxys2_kernel_repack.Xz.Lzma.{
  Lzma, lzma_len, len_tree, match_len_dec, rep_len_dec, short_distance, long_distance,
  match_distance, lzma_match, long_rep, lzma_rep_match, dist_special, dist_align, dist_slot_probs,
  lzma_get_dist_state, lzma_state_match, lzma_state_long_rep, after, is_rep0, is_rep1, is_rep2,
  is_rep0_long,
}

-- From one decoder to another: a valid one, by `a` adaptive and `d` direct bits.
pub record Reads (a d : ℕ) (rc : Rc) (t : Lzma) : Type 0 where
  pub coder : IsCoder t.rc t.probs
  pub cost : Costs a d rc t.rc

tree-Reads :
    (k : ℕ) (s : Lzma) (d : Decoded) (base start : ℕ)
    → IsCoder d.rc d.probs
    → 0 < k
    → base + 2 ^ k ≤ probs_total
    → Reads k 0 d.rc (len_tree s d base (2 ^ k) start)
unfolding len_tree
tree-Reads k s d base start h some room =
    let (t, _, _) = rc_bittree-IsStep k d.rc d.probs base h some room in
    record { coder = t.coder; cost = t.cost }

-- Reading on after the cost so far.
pub Reads-on :
    {a d a' d' b e : ℕ} {r s : Rc} {t : Lzma}
    → a + a' ≤ b
    → d + d' ≤ e
    → Costs a d r s
    → Reads a' d' s t
    → Reads b e r t
Reads-on h k c x = record { coder = x.coder; cost = Costs-sum h k c x.cost }

-- The trees of a length decoder, with sixteen position states, lie from `l` on.
pub lzma_len-Reads :
    (s : Lzma) (l pos_state : ℕ)
    → IsCoder s.rc s.probs
    → pos_state < 16
    → l + 514 ≤ probs_total
    → Reads 10 0 s.rc (lzma_len s l pos_state)
unfolding lzma_len
lzma_len-Reads s l pos_state h small room =
    let c = rc_bit s.rc s.probs l in
    let c2 = rc_bit c.rc c.probs (l + 1) in
    let (i, _) = rc_bit-IsStep s.rc s.probs l h (omega arith) in
    let (j, _) = rc_bit-IsStep c.rc c.probs (l + 1) i.coder (omega arith) in
    let both : Costs 2 0 s.rc c2.rc = Costs-sum (omega arith) (omega arith) i.cost j.cost in
    if_has (Reads 10 0 s.rc) (c.value == 0)
      (λ _.
        Reads-on (omega arith) (omega arith) i.cost
          (tree-Reads 3 s c (l + 2 + pos_state * 8) 2 i.coder (omega arith) (omega arith)))
      (λ _.
        if_has (Reads 10 0 s.rc) (c2.value == 0)
          (λ _.
            Reads-on (omega arith) (omega arith) both
              (tree-Reads 3 s c2 (l + 130 + pos_state * 8) 10 j.coder (omega arith) (omega arith)))
          (λ _.
            Reads-on (omega arith) (omega arith) both
              (tree-Reads 8 s c2 (l + 258) 18 j.coder (omega arith) (omega arith))))

-- The distances: `short_distance` for slots up to 13, `long_distance` for those up to 63.
short_distance-Reads :
    (s : Lzma) (slot : ℕ)
    → IsCoder s.rc s.probs
    → 4 ≤ slot
    → slot < 14
    → Reads 5 0 s.rc (short_distance s slot (slot / 2 - 1) (2 + bit_and slot 1))
unfolding short_distance
short_distance-Reads s slot h low high =
    let limit = slot / 2 - 1 in
    let base = u32 ((2 + bit_and slot 1) * 2 ^ limit) in
    let few : limit ≤ 5 = omega arith in
    let small : 2 ^ limit ≤ 2 ^ 5 = pow-le-pow_right (omega arith) few in
    let top : bit_and slot 1 ≤ 1 = Bits.bit_and_bound slot 1 in
    let plain : base ≤ 3 * 2 ^ limit = omega (arith, mul-le-mul_right (2 ^ limit) top) in
    let (r, _, _) =
      rc_bittree_reverse-IsStep s.rc s.probs (dist_special + base - slot - 1) base limit h
        (omega arith) (omega arith) in
    record { coder = r.coder; cost = Costs-adaptive 5 few r.cost }

long_distance-Reads :
    (s : Lzma) (slot top : ℕ)
    → IsCoder s.rc s.probs
    → 14 ≤ slot
    → slot < 64
    → Reads 4 26 s.rc (long_distance s (slot / 2 - 1) top)
unfolding long_distance
long_distance-Reads s slot top h low high =
    let limit = slot / 2 - 1 - 4 in
    let d = rc_direct s.rc top limit in
    let (ranged, cost) = rc_direct-IsRange s.rc top limit h.ranged (omega arith) in
    let (r, _, _) =
      rc_bittree_reverse-IsStep d.rc s.probs dist_align (u32 (d.dest * 2 ^ 4)) 4
        (record { ranged = ranged; likely = h.likely }) (omega arith) (omega arith) in
    record { coder = r.coder; cost = Costs-sum (omega arith) (omega arith) cost r.cost }

-- Reading as many adaptive bits, and up to 26 direct ones: five adaptive bits are no more than
-- four with 26 direct ones.
match_distance-Reads :
    (s : Lzma) (slot : ℕ)
    → IsCoder s.rc s.probs
    → slot < 64
    → Reads 4 26 s.rc (match_distance s slot)
unfolding match_distance
match_distance-Reads s slot h high =
    if_has (Reads 4 26 s.rc) (ltb slot 4)
      (λ _. record {
        coder = h;
        cost = Costs-direct 26 (omega arith) (Costs-adaptive 4 (omega arith) (Costs-refl s.rc));
      })
      (λ least.
        if_has (Reads 4 26 s.rc) (ltb slot 14)
          (λ few.
            let r = short_distance-Reads s slot h (ground (arith, least)) (ground (arith, few)) in
            record { coder = r.coder; cost = Costs-trade r.cost })
          (λ many. long_distance-Reads s slot (2 + bit_and slot 1) h (ground (arith, many)) high))

pub lzma_match-Reads :
    (s : Lzma) (pos_state : ℕ)
    → IsCoder s.rc s.probs
    → pos_state < 16
    → Reads 20 26 s.rc (lzma_match s pos_state)
unfolding lzma_match
lzma_match-Reads s pos_state h small =
    let s' : Lzma = record s {
      state = lzma_state_match s.state;
      rep3 = s.rep2;
      rep2 = s.rep1;
      rep1 = s.rep0;
    } in
    let long = lzma_len s' match_len_dec pos_state in
    let l = lzma_len-Reads s' match_len_dec pos_state h small (omega arith) in
    let base = dist_slot_probs (lzma_get_dist_state long.len) in
    let inside : base + 64 ≤ dist_special = ground arith in
    let r = rc_bittree long.rc long.probs base 64 in
    let (t, low, high) =
      rc_bittree-IsStep 6 long.rc long.probs base l.coder (omega arith) (omega arith) in
    let d = match_distance-Reads (after long r) (r.value - 64) t.coder (omega arith) in
    let slotted : Reads 10 26 long.rc (match_distance (after long r) (r.value - 64)) =
      Reads-on (omega arith) (omega arith) t.cost d in
    Reads-on (omega arith) (omega arith) l.cost slotted

long_rep-Reads :
    (s : Lzma) (pos_state : ℕ)
    → IsCoder s.rc s.probs
    → pos_state < 16
    → Reads 10 0 s.rc (long_rep s pos_state)
unfolding long_rep
long_rep-Reads s pos_state h small =
    lzma_len-Reads (record s { state = lzma_state_long_rep s.state }) rep_len_dec pos_state h small
      (omega arith)

pub lzma_rep_match-Reads :
    (s : Lzma) (pos_state : ℕ)
    → IsCoder s.rc s.probs
    → s.state < 12
    → pos_state < 16
    → Reads 13 0 s.rc (lzma_rep_match s pos_state)
unfolding lzma_rep_match
lzma_rep_match-Reads s pos_state h valid small =
    let b0 = rc_bit s.rc s.probs (is_rep0 s.state) in
    let long = rc_bit b0.rc b0.probs (is_rep0_long s.state pos_state) in
    let b1 = rc_bit b0.rc b0.probs (is_rep1 s.state) in
    let b2 = rc_bit b1.rc b1.probs (is_rep2 s.state) in
    let (i0, _) = rc_bit-IsStep s.rc s.probs (is_rep0 s.state) h (omega arith) in
    let (il, _) =
      rc_bit-IsStep b0.rc b0.probs (is_rep0_long s.state pos_state) i0.coder (omega arith) in
    let (i1, _) = rc_bit-IsStep b0.rc b0.probs (is_rep1 s.state) i0.coder (omega arith) in
    let (i2, _) = rc_bit-IsStep b1.rc b1.probs (is_rep2 s.state) i1.coder (omega arith) in
    let to_long : Costs 2 0 s.rc long.rc = Costs-sum (omega arith) (omega arith) i0.cost il.cost in
    let to_one : Costs 2 0 s.rc b1.rc = Costs-sum (omega arith) (omega arith) i0.cost i1.cost in
    let to_two : Costs 3 0 s.rc b2.rc = Costs-sum (omega arith) (omega arith) to_one i2.cost in
    let P = Reads 13 0 s.rc in
    if_has P (b0.value == 0)
      (λ _.
        if_has P (long.value == 0)
          (λ _. record { coder = il.coder; cost = Costs-adaptive 13 (omega arith) to_long })
          (λ _.
            Reads-on (omega arith) (omega arith) to_long
              (long_rep-Reads (after s long) pos_state il.coder small)))
      (λ _.
        if_has P (b1.value == 0)
          (λ _. Reads-on (omega arith) (omega arith) to_one (
            long_rep-Reads (record (after s b1) { rep1 = s.rep0; rep0 = s.rep1 }) pos_state i1.coder
              small))
          (λ _.
            if_has P (b2.value == 0)
              (λ _. Reads-on (omega arith) (omega arith) to_two (
                long_rep-Reads (record (after s b2) { rep2 = s.rep1; rep1 = s.rep0; rep0 = s.rep2 })
                  pos_state i2.coder small))
              (λ _. Reads-on (omega arith) (omega arith) to_two (
                long_rep-Reads
                  (record (after s b2) {
                    rep3 = s.rep2;
                    rep2 = s.rep1;
                    rep1 = s.rep0;
                    rep0 = s.rep3;
                  })
                  pos_state i2.coder small))))
