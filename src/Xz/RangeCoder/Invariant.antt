-- ===== src/Xz/RangeCoder/Invariant.antt =====
-- The ranges of the range decoder: nothing wraps, and no probability leaves its bounds.
use galaxys2_kernel_repack.Base.{ℕ, zero, suc, ◌+◌, ◌*◌, ◌/◌, ◌^◌, ◌<◌, ◌≤◌, ◌≡◌, arith}
use galaxys2_kernel_repack.Base.{get_or, List, All, [], ◌∷◌}
use galaxys2_kernel_repack.Base.Bytes.{IsByte, IsU32}
use galaxys2_kernel_repack.Xz.RangeCoder.Cost.{Costs, Costs-trans}
use galaxys2_kernel_repack.Base.{refl, Bool-cases, inl, inr, ltb}
use galaxys2_kernel_repack.Xz.RangeCoder.{Rc, rc_normalize, bit_step, rc_bit}
use native.Mathlib.Nat.{mul-le-mul}

-- `1846 + LITERAL_CODERS_MAX * LITERAL_CODER_SIZE`
abbrev pub probs_total : ℕ
probs_total = 1846 + 16 * 768

-- Between two symbols the range has 18 to 32 bits; the code and the input are words and bytes.
pub record IsRange (rc : Rc) : Type 0 where
  pub low : 2 ^ 17 ≤ rc.range
  pub high : IsU32 rc.range
  pub word : IsU32 rc.code
  pub bytes : All IsByte rc.input

-- A probability never gets closer than 31 / 2048 to 0 or to 1.
abbrev pub IsProb : ℕ → Type 0
IsProb p = (31 ≤ p) × (p ≤ 2017)

pub record IsCoder (rc : Rc) (probs : ℕ → ℕ) : Type 0 where
  pub ranged : IsRange rc
  pub likely : (i : ℕ) → i < probs_total → IsProb (probs i)

pub byte_at : (xs : List ℕ) (i : ℕ) → All IsByte xs → get_or xs i 0 < 256
byte_at [] i h = omega arith
byte_at (x ∷ xs) zero (hx, h) = hx
byte_at (x ∷ xs) (suc i) (hx, h) = byte_at xs i h

pub rc_normalize-IsRange :
    (rc : Rc) → IsRange rc → IsRange (rc_normalize rc) × (2 ^ 24 ≤ (rc_normalize rc).range)
unfolding rc_normalize
rc_normalize-IsRange rc h = ground (arith, byte_at rc.input rc.in_pos h.bytes)

pub rc_normalize_below :
    (rc : Rc) → IsRange rc → rc.code < rc.range → (rc_normalize rc).code < (rc_normalize rc).range
unfolding rc_normalize
rc_normalize_below rc h below = ground (arith, byte_at rc.input rc.in_pos h.bytes)

pub rc_normalize_reads :
    (rc : Rc) → ((rc_normalize rc).in_pos ≤ rc.in_pos + 1) × (rc.in_pos ≤ (rc_normalize rc).in_pos)
unfolding rc_normalize
rc_normalize_reads rc = ground arith

-- The bound splits the range in two parts of at least `31 * 2 ^ 13` each.
bound_split :
    (range p : ℕ)
    → 2 ^ 24 ≤ range
    → IsU32 range
    → IsProb p
    → (253952 ≤ range / 2 ^ 11 * p) × (range / 2 ^ 11 * p + 253952 ≤ range)
bound_split range p lo hi (pl, ph) =
    let q = range / 2 ^ 11 in
    let many : 8192 ≤ q = omega arith in
    let same : q ≤ q = omega arith in
    let below = mul-le-mul many pl in
    let above = mul-le-mul same ph in (omega (arith, below), omega (arith, above))

-- Each part is at least a part in 67.
bound_shares :
    (range p : ℕ)
    → 2 ^ 24 ≤ range
    → IsProb p
    → (range ≤ 67 * (range / 2 ^ 11 * p)) × (range + 67 * (range / 2 ^ 11 * p) ≤ 67 * range)
bound_shares range p lo (pl, ph) =
    let q = range / 2 ^ 11 in
    let same : q ≤ q = omega arith in
    (omega (arith, mul-le-mul same pl), omega (arith, mul-le-mul same ph))

pub bit_step-IsRange :
    (rc : Rc) (probs : ℕ → ℕ) (i : ℕ)
    → IsRange rc
    → 2 ^ 24 ≤ rc.range
    → IsProb (probs i)
    → IsRange (bit_step rc probs i).rc × ((bit_step rc probs i).value ≤ 1)
unfolding bit_step
bit_step-IsRange rc probs i h lo hp = ground (arith, bound_split rc.range (probs i) lo h.high hp)

bit_step-IsProb :
    (rc : Rc) (probs : ℕ → ℕ) (i j : ℕ)
    → IsProb (probs i)
    → IsProb (probs j)
    → IsProb ((bit_step rc probs i).probs j)
unfolding bit_step
bit_step-IsProb rc probs i j hi hj = ground arith

pub bit_step_below :
    (rc : Rc) (probs : ℕ → ℕ) (i : ℕ)
    → IsRange rc
    → 2 ^ 24 ≤ rc.range
    → IsProb (probs i)
    → rc.code < rc.range
    → (bit_step rc probs i).rc.code < (bit_step rc probs i).rc.range
unfolding bit_step
bit_step_below rc probs i h lo hp below =
    ground (arith, bound_split rc.range (probs i) lo h.high hp)

bit_step_reads : (rc : Rc) (probs : ℕ → ℕ) (i : ℕ) → (bit_step rc probs i).rc.in_pos ≡ rc.in_pos
unfolding bit_step
bit_step_reads rc probs i = ground arith

-- Decoding a bit with a probability of the decoder keeps the range within 18 to 32 bits and every
-- probability within 31 to 2017, gives 0 or 1, and reads at most one byte. A code below the range,
-- as in every stream that an encoder wrote, stays below it.
pub rc_bit-IsCoder :
    (rc : Rc) (probs : ℕ → ℕ) (i : ℕ)
    → IsCoder rc probs
    → i < probs_total
    → let b = rc_bit rc probs i in
      IsCoder b.rc b.probs
      × (b.value ≤ 1)
      × (b.rc.in_pos ≤ rc.in_pos + 1)
      × (rc.code < rc.range → b.rc.code < b.rc.range)
unfolding rc_bit
rc_bit-IsCoder rc probs i h hi =
    let n = rc_normalize rc in
    let (nr, lo) = rc_normalize-IsRange rc h.ranged in
    let p = h.likely i hi in
    let (ranged, small) = bit_step-IsRange n probs i nr lo p in
    (
      record { ranged = ranged; likely = λ j hj. bit_step-IsProb n probs i j p (h.likely j hj) },
      small,
      omega (arith, bit_step_reads n probs i, rc_normalize_reads rc),
      λ below. bit_step_below n probs i nr lo p (rc_normalize_below rc h.ranged below),
    )

-- The range after a bit, from a normalized decoder: at least a part in 67.
bit_step_shrinks :
    (rc : Rc) (probs : ℕ → ℕ) (i : ℕ)
    → IsRange rc
    → 2 ^ 24 ≤ rc.range
    → IsProb (probs i)
    → rc.range ≤ 67 * (bit_step rc probs i).rc.range
unfolding bit_step
bit_step_shrinks rc probs i h lo hp =
    ground
      (arith, bound_split rc.range (probs i) lo h.high hp, bound_shares rc.range (probs i) lo hp)

-- Reading a byte makes the range 256 times as large.
pub rc_normalize-Costs : (rc : Rc) → IsRange rc → Costs 0 0 rc (rc_normalize rc)
unfolding rc_normalize
rc_normalize-Costs rc h = elim (Bool-cases (ltb rc.range (2 ^ 24))) [
  | inl small ↦ rw small (record { bytes = 1; moved = refl; limit = refl; paid = ground arith })
  | inr large ↦
      rw large (record { bytes = 0; moved = omega arith; limit = refl; paid = omega arith })
]

bit_step_limit : (rc : Rc) (probs : ℕ → ℕ) (i : ℕ) → (bit_step rc probs i).rc.in_limit ≡ rc.in_limit
unfolding bit_step
bit_step_limit rc probs i = ground arith

pub rc_bit-Costs :
    (rc : Rc) (probs : ℕ → ℕ) (i : ℕ)
    → IsCoder rc probs
    → i < probs_total
    → Costs 1 0 rc (rc_bit rc probs i).rc
unfolding rc_bit
rc_bit-Costs rc probs i h hi =
    let n = rc_normalize rc in
    let (nr, lo) = rc_normalize-IsRange rc h.ranged in
    let stepped : Costs 1 0 n (bit_step n probs i).rc = record {
      bytes = 0;
      moved = omega (arith, bit_step_reads n probs i);
      limit = bit_step_limit n probs i;
      paid = omega (arith, bit_step_shrinks n probs i nr lo (h.likely i hi));
    } in
    Costs-trans (rc_normalize-Costs rc h.ranged) stepped
