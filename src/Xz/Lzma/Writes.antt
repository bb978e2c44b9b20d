-- ===== src/Xz/Lzma/Writes.antt =====
-- What the LZMA decoder writes: only into the free part of the dictionary, up to its limit.
use galaxys2_kernel_repack.Base.{
  ℕ, zero, suc, ◌-◌, ◌<◌, ◌≤◌, ◌≡◌, refl, subst, ◌∙◌, arith, true, bit_and, ltb, ◌==◌, ◌&&◌, not,
  if◌then◌else◌, if_has, Bool-cases, inl, inr,
}
use galaxys2_kernel_repack.Base.Bytes.{u8}
use galaxys2_kernel_repack.Xz.Types.{Mem}
use galaxys2_kernel_repack.Xz.RangeCoder.{rc_bit, rc_bittree, rc_limit_exceeded}
use galaxys2_kernel_repack.Xz.Dict.{Dictionary, dict_put, dict_repeat, dict_has_space}
use galaxys2_kernel_repack.Xz.Dict.Invariant.{
  IsDict, IsLimited, dict_put-IsDict, dict_repeat-IsDict, dict_put_keeps, dict_repeat_keeps,
}
use galaxys2_kernel_repack.Xz.Lzma.{
  Lzma, Symbol, after, lzma_len, len_tree, match_len_dec, match_distance, short_distance,
  long_distance, lzma_match, long_rep, lzma_rep_match, lzma_literal, literal_symbol, repeat_match,
  lzma_symbol, main_loop, lzma_main, is_match, is_rep, lzma_state_match, dist_slot_probs,
  lzma_get_dist_state,
}
use galaxys2_kernel_repack.Xz.Lzma.Symbols.{
  lzma_match-IsMatched, lzma_rep_match-IsMatched, lzma_symbol-moves,
}

-- No length is 0.
lzma_len-positive : (s : Lzma) (l p : ℕ) → 0 < (lzma_len s l p).len
unfolding lzma_len len_tree
lzma_len-positive s l p = ground arith

match_distance-len : (s : Lzma) (slot : ℕ) → (match_distance s slot).len ≡ s.len
unfolding match_distance short_distance long_distance
match_distance-len s slot = ground arith

pub lzma_match-positive : (s : Lzma) (p : ℕ) → 0 < (lzma_match s p).len
unfolding lzma_match
lzma_match-positive s p =
    let start : Lzma = record s {
      state = lzma_state_match s.state;
      rep3 = s.rep2;
      rep2 = s.rep1;
      rep1 = s.rep0;
    } in
    let long = lzma_len start match_len_dec p in
    let r = rc_bittree long.rc long.probs (dist_slot_probs (lzma_get_dist_state long.len)) 64 in
    omega (
      arith,
      match_distance-len (after long r) (r.value - 64),
      lzma_len-positive start match_len_dec p,
    )

pub lzma_rep_match-positive : (s : Lzma) (p : ℕ) → 0 < (lzma_rep_match s p).len
unfolding lzma_rep_match long_rep
lzma_rep_match-positive s p = grind (arith, lzma_len-positive)

-- A dictionary in order, with a limit.
pub record IsOpen (d : Dictionary) : Type 0 where
  pub ordered : IsDict d
  pub limited : IsLimited d

-- From one dictionary to a later one: in order again, with the same frame, and the position did not move back.
pub record Grows (d e : Dictionary) : Type 0 where
  pub again : IsOpen e
  pub forward : d.pos ≤ e.pos
  pub start : e.start ≡ d.start
  pub limit : e.limit ≡ d.limit
  pub end : e.end ≡ d.end
  pub buf : e.buf ≡ d.buf

pub Grows-refl : (d : Dictionary) → IsOpen d → Grows d d
Grows-refl d h = record {
  again = h;
  forward = omega arith;
  start = refl;
  limit = refl;
  end = refl;
  buf = refl;
}

pub Grows-trans : {c d e : Dictionary} → Grows c d → Grows d e → Grows c e
Grows-trans g h = record {
  again = h.again;
  forward = omega (arith, g.forward, h.forward);
  start = h.start ∙ g.start;
  limit = h.limit ∙ g.limit;
  end = h.end ∙ g.end;
  buf = h.buf ∙ g.buf;
}

dict_put-Grows :
    (d : Dictionary) (m : Mem) (byte : ℕ)
    → IsOpen d
    → d.pos < d.limit
    → Grows d (dict_put d m byte).0
dict_put-Grows d m byte h space =
    let (ordered, limited) = dict_put-IsDict d m byte h.ordered h.limited space in
    let (start, limit, end, pos, buf) = dict_put_keeps d m byte in
    record {
      again = record { ordered = ordered; limited = limited };
      forward = omega (arith, pos);
      start = start;
      limit = limit;
      end = end;
      buf = buf;
    }

dict_repeat-Grows :
    (d : Dictionary) (m : Mem) (len dist : ℕ)
    → IsOpen d
    → d.pos < d.limit
    → 0 < len
    → Grows d (dict_repeat d m len dist).dict
dict_repeat-Grows d m len dist h space some_len =
    let (ordered, limited) = dict_repeat-IsDict d m len dist h.ordered h.limited space some_len in
    let (start, limit, end, pos, buf) = dict_repeat_keeps d m len dist in
    record {
      again = record { ordered = ordered; limited = limited };
      forward = pos;
      start = start;
      limit = limit;
      end = end;
      buf = buf;
    }

pub repeat_match-Grows :
    (s : Lzma)
    → IsOpen s.dict
    → s.dict.pos < s.dict.limit
    → 0 < s.len
    → Grows s.dict (repeat_match s).lzma.dict
unfolding repeat_match
repeat_match-Grows s h space some_len = dict_repeat-Grows s.dict s.mem s.len s.rep0 h space some_len

lzma_literal-Grows :
    (s : Lzma) → IsOpen s.dict → s.dict.pos < s.dict.limit → Grows s.dict (lzma_literal s).dict
unfolding lzma_literal
lzma_literal-Grows s h space = dict_put-Grows s.dict s.mem (u8 (literal_symbol s).value) h space

-- A match writes what it has decoded, into the dictionary from before.
match-Grows :
    (s t : Lzma)
    → IsOpen s.dict
    → s.dict.pos < s.dict.limit
    → t.dict ≡ s.dict
    → 0 < t.len
    → Grows s.dict (repeat_match t).lzma.dict
match-Grows s t h space same some_len =
    subst (λ (d : Dictionary). Grows d (repeat_match t).lzma.dict) same
      (repeat_match-Grows t (rw same h) (rw same space) some_len)

pub lzma_symbol-Grows :
    (s : Lzma) → IsOpen s.dict → s.dict.pos < s.dict.limit → Grows s.dict (lzma_symbol s).lzma.dict
unfolding lzma_symbol
lzma_symbol-Grows s h space =
    let pos_state = bit_and s.dict.pos s.pos_mask in
    let b = rc_bit s.rc s.probs (is_match s.state pos_state) in
    let r = rc_bit b.rc b.probs (is_rep s.state) in
    let from : Lzma = after s r in
    if_has (λ (x : Symbol). Grows s.dict x.lzma.dict) (b.value == 0)
      (λ _. lzma_literal-Grows (after s b) h space)
      (λ _.
        if_has (λ (t : Lzma). Grows s.dict (repeat_match t).lzma.dict) (r.value == 1)
          (λ _.
            match-Grows s (lzma_rep_match from pos_state) h space
              (lzma_rep_match-IsMatched from pos_state).0 (lzma_rep_match-positive from pos_state))
          (λ _.
            match-Grows s (lzma_match from pos_state) h space
              (lzma_match-IsMatched from pos_state).0 (lzma_match-positive from pos_state)))

main_loop-Grows : (fuel : ℕ) (s : Lzma) → IsOpen s.dict → Grows s.dict (main_loop fuel s).lzma.dict
unfolding main_loop
main_loop-Grows zero s h = Grows-refl s.dict h
main_loop-Grows (suc fuel) s h =
    let next = lzma_symbol s in
    let P = λ (x : Symbol). Grows s.dict x.lzma.dict in
    if_has P (dict_has_space s.dict && not (rc_limit_exceeded s.rc))
      (λ go.
        let one = lzma_symbol-Grows s h (ground (arith, go)) in
        if_has P next.done (λ _. Grows-trans one (main_loop-Grows fuel next.lzma one.again))
          (λ _. one))
      (λ _. Grows-refl s.dict h)

-- From a dictionary whose positions are in order, a whole run of `lzma_main` on any input and in any
-- state of the decoder leaves them in order: `pos` did not move back and is not above the limit, and
-- neither the limit, the end nor the start moved.
pub lzma_main-Grows : (s : Lzma) → IsOpen s.dict → Grows s.dict (lzma_main s).lzma.dict
unfolding lzma_main
lzma_main-Grows s h =
    let pending = dict_has_space s.dict && ltb 0 s.len in
    let start : Lzma = if pending then (repeat_match s).lzma else s in
    let first : Grows s.dict start.dict =
      if_has (λ (t : Lzma). Grows s.dict t.dict) pending
        (λ go. repeat_match-Grows s h (ground (arith, go)) (ground (arith, go)))
        (λ _. Grows-refl s.dict h) in
    let r = main_loop (start.dict.limit - start.dict.pos) start in
    let all =
      Grows-trans first (main_loop-Grows (start.dict.limit - start.dict.pos) start first.again) in
    if_has (λ (x : Symbol). Grows s.dict x.lzma.dict) r.done (λ _. all) (λ _. all)

-- The first round of the loop moves the position, if it is not refused.
main_loop_moves :
    (fuel : ℕ) (s : Lzma)
    → IsOpen s.dict
    → s.state < 12
    → s.dict.pos < s.dict.limit
    → s.rc.in_pos ≤ s.rc.in_limit
    → 0 < fuel
    → (main_loop fuel s).done ≡ true
    → s.dict.pos < (main_loop fuel s).lzma.dict.pos
unfolding main_loop
main_loop_moves zero s h valid space input some_fuel = absurd (omega arith)
main_loop_moves (suc fuel) s h valid space input some_fuel =
    let next = lzma_symbol s in
    let P = λ (x : Symbol). x.done ≡ true → s.dict.pos < x.lzma.dict.pos in
    let (_, _, moves) = lzma_symbol-moves s valid in
    if_has P (dict_has_space s.dict && not (rc_limit_exceeded s.rc))
      (λ _.
        if_has P next.done
          (λ done _.
            let more = main_loop-Grows fuel next.lzma (lzma_symbol-Grows s h space).again in
            omega (arith, moves done, more.forward))
          (λ refused done. absurd (ground (arith, refused, done))))
      (λ stops. absurd (ground (arith, stops, space, input)))

repeat_match_keeps :
    (s : Lzma) → ((repeat_match s).lzma.state ≡ s.state) × ((repeat_match s).lzma.rc ≡ s.rc)
unfolding repeat_match
repeat_match_keeps s = (refl, refl)

-- The decoder makes progress: in one of the twelve states, with the positions of the dictionary in
-- order and space in it, and with the position in the input not behind its limit, a run of
-- `lzma_main` that is not refused adds at least a byte to the dictionary.
pub lzma_main-moves :
    (s : Lzma)
    → IsOpen s.dict
    → s.state < 12
    → s.dict.pos < s.dict.limit
    → s.rc.in_pos ≤ s.rc.in_limit
    → (lzma_main s).done ≡ true
    → s.dict.pos < (lzma_main s).lzma.dict.pos
unfolding lzma_main
lzma_main-moves s h valid space input =
    let pending = dict_has_space s.dict && ltb 0 s.len in
    let start : Lzma = if pending then (repeat_match s).lzma else s in
    let first : Grows s.dict start.dict =
      if_has (λ (t : Lzma). Grows s.dict t.dict) pending
        (λ go. repeat_match-Grows s h (ground (arith, go)) (ground (arith, go)))
        (λ _. Grows-refl s.dict h) in
    let same : (start.state ≡ s.state) × (start.rc ≡ s.rc) =
      if_has (λ (t : Lzma). (t.state ≡ s.state) × (t.rc ≡ s.rc)) pending (λ _. repeat_match_keeps s)
        (λ _. (refl, refl)) in
    let fuel = start.dict.limit - start.dict.pos in
    let r = main_loop fuel start in
    let after_start = main_loop-Grows fuel start first.again in
    let moved : r.done ≡ true → s.dict.pos < r.lzma.dict.pos = λ done.
      elim (Bool-cases (ltb s.dict.pos start.dict.pos)) [
        | inl more ↦ ground (arith, more, after_start.forward)
        | inr none ↦
            let here : start.dict.pos ≡ s.dict.pos = ground (arith, none, first.forward) in
            let l =
              main_loop_moves fuel start first.again (rw (same.0) valid)
                (omega (arith, here, first.limit, space)) (rw (same.1) input)
                (omega (arith, here, first.limit, space)) done in
            omega (arith, here, l)
      ] in
    let P = λ (x : Symbol). x.done ≡ true → s.dict.pos < x.lzma.dict.pos in
    if_has P r.done (λ done _. moved done) (λ refused done. absurd (ground (arith, refused, done)))
