-- ===== src/Unlzma/RangeCoder.antt =====
-- The range decoder of unlzma decodes what the one of the LZMA2 decoder decodes.
use galaxys2_kernel_repack.Base.{
  ℕ, zero, suc, ◌+◌, ◌-◌, ◌*◌, ◌/◌, ◌%◌, ◌^◌, ◌<◌, ◌≤◌, ◌≡◌, sym, ap, ap₂, ◌∙◌, arith, bit_or, All,
}
use galaxys2_kernel_repack.Base.{true, false, List, length, get_or, ltb}
use galaxys2_kernel_repack.Base.Bits
use galaxys2_kernel_repack.Base.Bytes.{u32, IsByte}
use native.Mathlib.Nat.{mul_comm, pow-suc, one-le-pow}
use galaxys2_kernel_repack.Xz.RangeCoder.Trees.{exponent_lt}
use galaxys2_kernel_repack.Xz.RangeCoder
use galaxys2_kernel_repack.Xz.RangeCoder.Invariant.{byte_at}
use galaxys2_kernel_repack.Xz.RangeCoder.{Decoded, rc_bit}
use galaxys2_kernel_repack.Unlzma.{
  Reader, Rc, rc_normalize, rc_do_normalize, at_byte, shift_in, rc_is_bit_0_helper, is_below, Got,
  rc_update_bit_0, rc_update_bit_1, rc_get_bit, tree_loop, rc_bit_tree_decode,
}

module _ (e : Reader) where
  -- The two decoders at the same place of the same bytes.
  pub record Same (r : Rc e) (x : RangeCoder.Rc) : Type 0 where
    pub range : r.range ≡ x.range
    pub code : r.code ≡ x.code
    pub input : r.buffer ≡ x.input
    pub place : r.ptr ≡ x.in_pos
    pub all : r.size ≡ length r.buffer
    pub bytes : All IsByte r.buffer

  -- `|` of a byte behind 24 bits is `+`.
  or_byte : (code b : ℕ) → b < 256 → bit_or (u32 (code * 2 ^ 8)) b ≡ u32 (u32 (code * 2 ^ 8) + b)
  or_byte code b small =
      let high = Bits.bit_or-add 8 b (code % 2 ^ 24) small in
      let word : u32 (code * 2 ^ 8) ≡ code % 2 ^ 24 * 2 ^ 8 = omega arith in
      ap (λ (t : ℕ). bit_or t b) word
      ∙ Bits.bit_or_comm (code % 2 ^ 24 * 2 ^ 8) b
      ∙ high
      ∙ omega arith

  at_byte-inside : (r : Rc e) → r.ptr < r.size → at_byte e r ≡ r
  unfolding at_byte
  at_byte-inside r inside = ground (arith, inside)

  rc_normalize-Same :
      (r : Rc e) (x : RangeCoder.Rc)
      → Same r x
      → r.ptr < r.size
      → Same (rc_normalize e r) (RangeCoder.rc_normalize x)
        × ((rc_normalize e r).ptr ≤ r.ptr + 1)
        × ((rc_normalize e r).size ≡ r.size)
  unfolding rc_normalize rc_do_normalize shift_in RangeCoder.rc_normalize
  rc_normalize-Same r x h more =
      let next : get_or r.buffer r.ptr 0 ≡ get_or x.input x.in_pos 0 =
        ap₂ (λ (t : List ℕ) (i : ℕ). get_or t i 0) h.input h.place in
      let shifted : bit_or (u32 (r.code * 2 ^ 8)) (get_or r.buffer r.ptr 0)
          ≡ u32 (u32 (x.code * 2 ^ 8) + get_or x.input x.in_pos 0) =
        or_byte r.code (get_or r.buffer r.ptr 0) (byte_at r.buffer r.ptr h.bytes)
        ∙ omega (arith, next, h.code) in
      rw (at_byte-inside r more) (ground (arith, shifted, h))

  -- An adaptive bit, with the symbol that goes on.
  pub record IsSame (symbol : ℕ) (g : Got e) (d : Decoded) : Type 0 where
    pub same : Same g.rc d.rc
    pub bit : g.bit ≡ d.value
    pub next : g.symbol ≡ symbol * 2 + d.value
    pub probs : g.probs ≡ d.probs

  rc_get_bit-IsSame :
      (r : Rc e) (x : RangeCoder.Rc) (probs : ℕ → ℕ) (i symbol : ℕ)
      → Same r x
      → r.ptr < r.size
      → IsSame symbol (rc_get_bit e r probs i symbol) (rc_bit x probs i)
        × ((rc_get_bit e r probs i symbol).rc.ptr ≤ r.ptr + 1)
        × ((rc_get_bit e r probs i symbol).rc.size ≡ r.size)
  unfolding rc_get_bit rc_is_bit_0_helper is_below rc_update_bit_0 rc_update_bit_1 rc_bit
      RangeCoder.bit_step
  rc_get_bit-IsSame r x probs i symbol h more =
      let (n, short, size) = rc_normalize-Same r x h more in
      let y = RangeCoder.rc_normalize x in
      let q = rc_normalize e r in
      let bound : u32 (probs i * (q.range / 2 ^ 11)) ≡ u32 (y.range / 2 ^ 11 * probs i) =
        ap (λ (t : ℕ). u32 (probs i * (t / 2 ^ 11))) n.range
        ∙ ap u32 (mul_comm (probs i) (y.range / 2 ^ 11)) in
      ground (arith, bound, n, short, size)

  rc_get_bit-bit :
      (r : Rc e) (probs : ℕ → ℕ) (i symbol : ℕ) → (rc_get_bit e r probs i symbol).bit < 2
  unfolding rc_get_bit
  rc_get_bit-bit r probs i symbol = ground arith

  -- A tree: the symbols with the highest bit are equal.
  pub record IsSameTree (g : Got e) (d : Decoded) : Type 0 where
    pub same : Same g.rc d.rc
    pub symbol : g.symbol ≡ d.value
    pub probs : g.probs ≡ d.probs

  tree_loop-IsSameTree :
      (left fuel : ℕ) (r : Rc e) (x : RangeCoder.Rc) (probs : ℕ → ℕ) (base limit symbol lo : ℕ)
      → Same r x
      → r.ptr + suc left ≤ r.size
      → left < fuel
      → limit ≡ 2 ^ suc left * lo
      → lo ≤ symbol
      → symbol < 2 * lo
      → IsSameTree
          (tree_loop e (suc left) r probs base symbol)
          (RangeCoder.bittree_loop fuel x probs base limit symbol)
  unfolding tree_loop RangeCoder.bittree_loop
  tree_loop-IsSameTree left zero r x probs base limit symbol lo h more lf l a b =
      absurd (omega arith)
  tree_loop-IsSameTree zero (suc fuel) r x probs base limit symbol lo h more lf l a b =
      let (s, _, _) = rc_get_bit-IsSame r x probs (base + symbol) symbol h (omega arith) in
      let stop : ltb (symbol * 2 + (rc_bit x probs (base + symbol)).value) limit ≡ false =
        ground (arith, l) in
      rw stop (record { same = s.same; symbol = s.next; probs = s.probs })
  tree_loop-IsSameTree (suc left) (suc fuel) r x probs base limit symbol lo h more lf l a b =
      let (s, short, size) = rc_get_bit-IsSame r x probs (base + symbol) symbol h (omega arith) in
      let g = rc_get_bit e r probs (base + symbol) symbol in
      let d = rc_bit x probs (base + symbol) in
      let bit = rc_get_bit-bit r probs (base + symbol) symbol in
      let split : limit ≡ 2 ^ suc left * (2 * lo) =
        omega (arith, l, ap (λ (t : ℕ). t * lo) (pow-suc 2 (suc left))) in
      let some : lo ≤ 2 ^ left * lo = grind (arith, one-le-pow left 2) in
      let wide : limit ≡ 4 * (2 ^ left * lo) =
        omega (arith, split, ap (λ (t : ℕ). t * lo) (pow-suc 2 left)) in
      let go : ltb (symbol * 2 + d.value) limit ≡ true = ground (arith, s.bit, bit) in
      let rest =
        tree_loop-IsSameTree left fuel g.rc d.rc g.probs base limit (symbol * 2 + d.value) (2 * lo)
          s.same (omega (arith, short, size)) (omega arith) split (omega arith)
          (omega (arith, s.bit, bit)) in
      rw (go, s.next, sym s.probs) rest

  -- At the same place of the same bytes, with as many bytes left as there are levels, a tree of
  -- unlzma and the tree of the LZMA2 decoder with the same probabilities give the same symbol,
  -- the same decoder and the same probabilities. The latter keeps the highest bit of the symbol.
  pub rc_bit_tree_decode-rc_bittree :
      (r : Rc e) (x : RangeCoder.Rc) (probs : ℕ → ℕ) (base num_levels : ℕ)
      → Same r x
      → 0 < num_levels
      → r.ptr + num_levels ≤ r.size
      → let g = rc_bit_tree_decode e r probs base num_levels in
        let d = RangeCoder.rc_bittree x probs base (2 ^ num_levels) in
        Same g.rc d.rc × (g.symbol ≡ d.value - 2 ^ num_levels) × (g.probs ≡ d.probs)
  unfolding rc_bit_tree_decode RangeCoder.rc_bittree
  rc_bit_tree_decode-rc_bittree r x probs base zero h some more = absurd (omega arith)
  rc_bit_tree_decode-rc_bittree r x probs base (suc n) h some more =
      let t =
        tree_loop-IsSameTree n (2 ^ suc n) r x probs base (2 ^ suc n) 1 1 h more (exponent_lt n)
          (omega arith) (omega arith) (omega arith) in
      (t.same, ap (λ (s : ℕ). s - 2 ^ suc n) t.symbol, t.probs)
