-- ===== src/Xz/RangeCoder/Trees.antt =====
-- Bit trees: how many rounds they take, what they give, and which probabilities they touch.
use galaxys2_kernel_repack.Base.{ℕ, zero, suc, ◌+◌, ◌*◌, ◌^◌, ◌<◌, ◌≤◌, ◌≡◌, ap, arith, true}
use galaxys2_kernel_repack.Base.{ltb}
use galaxys2_kernel_repack.Base.Bytes.{u32}
use galaxys2_kernel_repack.Xz.RangeCoder.{
  Rc, Decoded, rc_bit, bittree_loop, rc_bittree, reverse_loop, rc_bittree_reverse,
}
use galaxys2_kernel_repack.Xz.RangeCoder.Invariant.{
  IsCoder, probs_total, rc_bit-IsCoder, rc_bit-Costs,
}
use galaxys2_kernel_repack.Xz.RangeCoder.Cost.{Costs, Costs-refl, Costs-sum}
use native.Mathlib.Nat.{pow-suc, one-le-pow}
use native.Mathlib.Numerals.{towards_suc}

-- A step of `bits` adaptive bits, which keeps the coder and reads at most a byte for each.
pub record IsStep (bits : ℕ) (rc : Rc) (r : Decoded) : Type 0 where
  pub coder : IsCoder r.rc r.probs
  pub reads : r.rc.in_pos ≤ rc.in_pos + bits
  pub cost : Costs bits 0 rc r.rc

pub rc_bit-IsStep :
    (rc : Rc) (probs : ℕ → ℕ) (i : ℕ)
    → IsCoder rc probs
    → i < probs_total
    → IsStep 1 rc (rc_bit rc probs i) × ((rc_bit rc probs i).value ≤ 1)
rc_bit-IsStep rc probs i h hi =
    let (c, v, n, _) = rc_bit-IsCoder rc probs i h hi in
    (record { coder = c; reads = n; cost = rc_bit-Costs rc probs i h hi }, v)

-- `lo` is the power of 2 below the symbol, and `left + 1` rounds are still to come.
bittree_loop-IsStep :
    (left fuel : ℕ) (rc : Rc) (probs : ℕ → ℕ) (base limit symbol lo : ℕ)
    → IsCoder rc probs
    → left < fuel
    → limit ≡ 2 ^ suc left * lo
    → lo ≤ symbol
    → symbol < 2 * lo
    → base + limit ≤ probs_total
    → let r = bittree_loop fuel rc probs base limit symbol in
      IsStep (suc left) rc r × (limit ≤ r.value) × (r.value < 2 * limit)
unfolding bittree_loop
bittree_loop-IsStep left zero rc probs base limit symbol lo h lf e a b room = absurd (omega arith)
bittree_loop-IsStep zero (suc fuel) rc probs base limit symbol lo h lf e a b room =
    let (s, v) = rc_bit-IsStep rc probs (base + symbol) h (omega arith) in ground (arith, s, v)
bittree_loop-IsStep (suc left) (suc fuel) rc probs base limit symbol lo h lf e a b room =
    let bit = rc_bit rc probs (base + symbol) in
    let split : limit ≡ 2 ^ suc left * (2 * lo) =
      omega (arith, e, ap (λ (t : ℕ). t * lo) (pow-suc 2 (suc left))) in
    let some : lo ≤ 2 ^ left * lo = grind (arith, one-le-pow left 2) in
    let wide : limit ≡ 4 * (2 ^ left * lo) =
      omega (arith, split, ap (λ (t : ℕ). t * lo) (pow-suc 2 left)) in
    let (s, v) = rc_bit-IsStep rc probs (base + symbol) h (omega arith) in
    let (t, low, high) =
      bittree_loop-IsStep left fuel bit.rc bit.probs base limit (symbol * 2 + bit.value) (2 * lo)
        s.coder (omega arith) split (omega arith) (omega arith) room in
    let go : ltb (symbol * 2 + bit.value) limit ≡ true = ground arith in
    rw go (
      record {
        coder = t.coder;
        reads = omega (arith, s.reads, t.reads);
        cost = Costs-sum (omega arith) (omega arith) s.cost t.cost;
      },
      low,
      high,
    )

pub exponent_lt : (k : ℕ) → k < 2 ^ suc k
exponent_lt zero = omega arith
exponent_lt (suc k) = omega (arith, exponent_lt k, pow-suc 2 (suc k))

-- A tree of `k` levels, with its `2 ^ k` probabilities inside the array, gives a number from `2 ^ k`
-- up to `2 ^ (k + 1)`, reads at most `k` bytes, and keeps the decoder valid.
pub rc_bittree-IsStep :
    (k : ℕ) (rc : Rc) (probs : ℕ → ℕ) (base : ℕ)
    → IsCoder rc probs
    → 0 < k
    → base + 2 ^ k ≤ probs_total
    → let r = rc_bittree rc probs base (2 ^ k) in
      IsStep k rc r × (2 ^ k ≤ r.value) × (r.value < 2 * 2 ^ k)
unfolding rc_bittree
rc_bittree-IsStep zero rc probs base h some room = absurd (omega arith)
rc_bittree-IsStep (suc k) rc probs base h some room =
    bittree_loop-IsStep k (2 ^ suc k) rc probs base (2 ^ suc k) 1 1 h (exponent_lt k) (omega arith)
      (omega arith) (omega arith) room

-- The same for the loop from the lowest bit on: `lo` is `2 ^ i`.
reverse_loop-IsStep :
    (left : ℕ) (rc : Rc) (probs : ℕ → ℕ) (base i symbol dest : ℕ)
    → IsCoder rc probs
    → symbol < 2 * 2 ^ i
    → base + 2 ^ i * 2 ^ left ≤ probs_total
    → dest + 2 ^ i * 2 ^ left < 2 ^ 32 + 2 ^ i
    → let r = reverse_loop left rc probs base i symbol dest in
      IsStep left rc r × (dest ≤ r.value) × (r.value + 2 ^ i ≤ dest + 2 ^ i * 2 ^ left)
unfolding reverse_loop
reverse_loop-IsStep zero rc probs base i symbol dest h s room fits =
    (record { coder = h; reads = omega arith; cost = Costs-refl rc }, omega arith, omega arith)
reverse_loop-IsStep (suc left) rc probs base i symbol dest h s room fits =
    let bit = rc_bit rc probs (base + symbol) in
    let some : 2 ^ i ≤ 2 ^ i * 2 ^ left = grind (arith, one-le-pow left 2) in
    let wide : 2 ^ i * 2 ^ suc left ≡ 2 * (2 ^ i * 2 ^ left) =
      omega (arith, ap (λ (t : ℕ). 2 ^ i * t) (pow-suc 2 left)) in
    let next : 2 ^ (i + 1) ≡ 2 * 2 ^ i = simp towards_suc (omega arith) in
    let whole : 2 ^ (i + 1) * 2 ^ left ≡ 2 ^ i * 2 ^ suc left =
      omega (arith, wide, ap (λ (t : ℕ). t * 2 ^ left) next) in
    let (c, v) = rc_bit-IsStep rc probs (base + symbol) h (omega arith) in
    let part : bit.value * 2 ^ i ≤ 2 ^ i = grind arith in
    let plain : u32 (dest + bit.value * 2 ^ i) ≡ dest + bit.value * 2 ^ i = omega arith in
    let (t, low, high) =
      reverse_loop-IsStep left bit.rc bit.probs base (i + 1) (symbol * 2 + bit.value)
        (u32 (dest + bit.value * 2 ^ i)) c.coder (omega arith) (omega arith) (omega arith) in
    (
      record {
        coder = t.coder;
        reads = omega (arith, c.reads, t.reads);
        cost = Costs-sum (omega arith) (omega arith) c.cost t.cost;
      },
      omega arith,
      omega arith,
    )

-- Where the destination has room for `2 ^ limit` more in 32 bits, `limit` reverse bits add less than
-- `2 ^ limit` to it; they read at most `limit` bytes and keep the decoder valid.
pub rc_bittree_reverse-IsStep :
    (rc : Rc) (probs : ℕ → ℕ) (base dest limit : ℕ)
    → IsCoder rc probs
    → base + 2 ^ limit ≤ probs_total
    → dest + 2 ^ limit ≤ 2 ^ 32
    → let r = rc_bittree_reverse rc probs base dest limit in
      IsStep limit rc r × (dest ≤ r.value) × (r.value < dest + 2 ^ limit)
unfolding rc_bittree_reverse
rc_bittree_reverse-IsStep rc probs base dest limit h room fits =
    let (s, low, high) =
      reverse_loop-IsStep limit rc probs base 0 1 dest h (omega arith) (omega arith)
        (omega arith) in
    (s, low, omega arith)
