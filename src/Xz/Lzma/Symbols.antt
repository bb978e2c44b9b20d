-- ===== src/Xz/Lzma/Symbols.antt =====
-- Progress: every symbol adds to the dictionary, so the loop of `lzma_main` ends by its own test.
use galaxys2_kernel_repack.Base.{
  ℕ, zero, suc, ◌+◌, ◌-◌, ◌<◌, ◌≤◌, ◌≡◌, refl, ap, ◌∙◌, arith, Bool, true, false, not, ◌&&◌,
}
use galaxys2_kernel_repack.Base.{◌==◌, if◌then◌else◌, ltb, Bool-cases, inl, inr, bit_and}
use galaxys2_kernel_repack.Xz.Dict.{Dictionary, dict_has_space}
use mathlib.Core.Bool.{false≢true}
use galaxys2_kernel_repack.Base.Bytes.{u8}
use galaxys2_kernel_repack.Xz.Dict.Invariant.{dict_put-moves, dict_repeat-moves}
use galaxys2_kernel_repack.Xz.RangeCoder.{
  rc_limit_exceeded, rc_bit, rc_bittree, rc_normalize, Decoded,
}
use galaxys2_kernel_repack.Xz.Lzma.{
  Lzma, len_tree, lzma_len, short_distance, long_distance, match_distance, lzma_match, long_rep,
  lzma_rep_match, lzma_literal, repeat_match, lzma_symbol, main_loop, lzma_main, lzma_state_match,
  lzma_state_long_rep, match_len_dec, rep_len_dec, dist_slot_probs, lzma_get_dist_state, after,
  literal_symbol, lit_states, is_match, is_rep,
}

-- Decoding a length or a distance leaves the dictionary and the state alone.
abbrev Keeps : Lzma → Lzma → Type 0
Keeps s t = (t.dict ≡ s.dict) × (t.state ≡ s.state)

len_tree-Keeps :
    (s : Lzma) (d : Decoded) (base limit start : ℕ) → Keeps s (len_tree s d base limit start)
unfolding len_tree
len_tree-Keeps s d base limit start = (refl, refl)

lzma_len-Keeps : (s : Lzma) (l p : ℕ) → Keeps s (lzma_len s l p)
unfolding lzma_len len_tree
lzma_len-Keeps s l p = (ground arith, ground arith)

match_distance-Keeps : (s : Lzma) (slot : ℕ) → Keeps s (match_distance s slot)
unfolding match_distance short_distance long_distance
match_distance-Keeps s slot = (ground arith, ground arith)

-- A match, of either kind, leaves the dictionary alone and the state a state.
abbrev pub IsMatched : Lzma → Lzma → Type 0
IsMatched s t = (t.dict ≡ s.dict) × (t.state < 12)

pub lzma_match-IsMatched : (s : Lzma) (p : ℕ) → IsMatched s (lzma_match s p)
unfolding lzma_match
lzma_match-IsMatched s p =
    let start : Lzma = record s {
      state = lzma_state_match s.state;
      rep3 = s.rep2;
      rep2 = s.rep1;
      rep1 = s.rep0;
    } in
    let long = lzma_len start match_len_dec p in
    let r = rc_bittree long.rc long.probs (dist_slot_probs (lzma_get_dist_state long.len)) 64 in
    let (d, e) = match_distance-Keeps (after long r) (r.value - 64) in
    let (d', e') = lzma_len-Keeps start match_len_dec p in (d ∙ d', rw (e, e') (ground arith))

long_rep-IsMatched : (s : Lzma) (p : ℕ) → IsMatched s (long_rep s p)
unfolding long_rep
long_rep-IsMatched s p =
    let (d, e) = lzma_len-Keeps (record s { state = lzma_state_long_rep s.state }) rep_len_dec p in
    (d, rw e (ground arith))

pub lzma_rep_match-IsMatched : (s : Lzma) (p : ℕ) → IsMatched s (lzma_rep_match s p)
unfolding lzma_rep_match
lzma_rep_match-IsMatched s p =
    (grind (arith, long_rep-IsMatched), grind (arith, long_rep-IsMatched))

-- A copy that was done has moved the position; its limit is the old one.
repeat_match-moves :
    (s : Lzma)
    → ((repeat_match s).lzma.dict.limit ≡ s.dict.limit)
      × ((repeat_match s).lzma.state ≡ s.state)
      × ((repeat_match s).done ≡ true → s.dict.pos < (repeat_match s).lzma.dict.pos)
unfolding repeat_match
repeat_match-moves s =
    let (limit, moves) = dict_repeat-moves s.dict s.mem s.len s.rep0 in (limit, refl, moves)

lzma_literal-moves :
    (s : Lzma)
    → ((lzma_literal s).dict.limit ≡ s.dict.limit)
      × ((lzma_literal s).dict.pos ≡ s.dict.pos + 1)
      × (s.state < 12 → (lzma_literal s).state < lit_states)
unfolding lzma_literal
lzma_literal-moves s =
    let d = literal_symbol s in
    let (pos, limit) = dict_put-moves s.dict s.mem (u8 d.value) in (limit, pos, λ h. ground arith)

-- From each of the twelve states a decoded symbol, literal or match, if not refused, adds at least a byte to the dictionary, keeps its limit, and
-- keeps the state one of the twelve.
pub lzma_symbol-moves :
    (s : Lzma)
    → s.state < 12
    → let r = lzma_symbol s in
      (r.lzma.dict.limit ≡ s.dict.limit)
      × (r.lzma.state < 12)
      × (r.done ≡ true → s.dict.pos < r.lzma.dict.pos)
unfolding lzma_symbol
lzma_symbol-moves s h =
    let pos_state = bit_and s.dict.pos s.pos_mask in
    let b = rc_bit s.rc s.probs (is_match s.state pos_state) in
    let r = rc_bit b.rc b.probs (is_rep s.state) in
    let t =
      if r.value == 1
      then lzma_rep_match (after s r) pos_state
      else lzma_match (after s r) pos_state in
    let matched : IsMatched s t = ground (
      arith,
      lzma_rep_match-IsMatched (after s r) pos_state,
      lzma_match-IsMatched (after s r) pos_state,
    ) in
    let (limit, state, moves) = repeat_match-moves t in
    let (literal_limit, literal_pos, literal_state) = lzma_literal-moves (after s b) in
    elim (Bool-cases (b.value == 0)) [
      | inl literal ↦ rw literal (literal_limit, omega arith, λ _. omega arith)
      | inr match ↦
          let same_limit : t.dict.limit ≡ s.dict.limit =
            ap (λ (d : Dictionary). d.limit) matched.0 in
          let same_pos : t.dict.pos ≡ s.dict.pos = ap (λ (d : Dictionary). d.pos) matched.0 in
          rw match (
            limit ∙ same_limit,
            omega (arith, state, matched.1),
            λ e. omega (arith, same_pos, moves e),
          )
    ]

-- The loop's test.
abbrev pub goes_on : Lzma → Bool
goes_on s = dict_has_space s.dict && not (rc_limit_exceeded s.rc)

main_loop-ends :
    (fuel : ℕ) (s : Lzma)
    → s.state < 12
    → s.dict.limit ≤ s.dict.pos + fuel
    → let r = main_loop fuel s in (r.lzma.state < 12) × (r.done ≡ true → goes_on r.lzma ≡ false)
unfolding main_loop
main_loop-ends zero s h room = (h, λ e. ground arith)
main_loop-ends (suc fuel) s h room =
    ground (arith, lzma_symbol-moves s h, main_loop-ends fuel (lzma_symbol s).lzma)

-- The decoding loop ends from each of the twelve states and on every input: `lzma_main` either refuses a distance, or has
-- filled the dictionary up to its limit or gone past the input limit before the last
-- normalization. The state stays one of the twelve.
pub lzma_main-ends :
    (s : Lzma)
    → s.state < 12
    → let r = lzma_main s in
      (r.lzma.state < 12)
      × (r.done ≡ true
          → (inner : Lzma) × (goes_on inner ≡ false)
            × (r.lzma ≡ record inner { rc = rc_normalize inner.rc }))
unfolding lzma_main
lzma_main-ends s h =
    let pending = dict_has_space s.dict && ltb 0 s.len in
    let start : Lzma = if pending then (repeat_match s).lzma else s in
    let valid : start.state < 12 = ground (arith, repeat_match-moves s) in
    let r = main_loop (start.dict.limit - start.dict.pos) start in
    let (state, ended) =
      main_loop-ends (start.dict.limit - start.dict.pos) start valid (omega arith) in
    elim (Bool-cases r.done) [
      | inl done ↦ rw done (state, λ _. (r.lzma, ended done, refl))
      | inr refused ↦ rw refused (state, λ e. absurd (false≢true e))
    ]
