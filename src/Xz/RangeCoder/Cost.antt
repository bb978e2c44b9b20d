-- ===== src/Xz/RangeCoder/Cost.antt =====
-- How much input decoding takes. An adaptive bit shrinks the range by a factor of 67 at most, a
-- direct bit by one of 129 / 64, and a byte of input makes it 256 times as large again.
use galaxys2_kernel_repack.Base.{
  ◌⊎◌, inl, inr, ℕ, zero, suc, ◌+◌, ◌-◌, ◌*◌, ◌^◌, ◌<◌, ◌≤◌, ◌≡◌, refl, subst, ap, ◌∙◌, arith,
}
use galaxys2_kernel_repack.Xz.RangeCoder.{Rc}
use native.Mathlib.Nat.{
  pow-zero, pow-suc, mul-le-mul, pow-le-pow_right, pow-le-pow_left, mul-le-mul_right,
}

pub pow_add : (b m n : ℕ) → b ^ (m + n) ≡ b ^ m * b ^ n
pow_add b zero n =
    let none : 0 + n ≡ n = omega arith in
    ap (λ (k : ℕ). b ^ k) none ∙ omega (arith, ap (λ (t : ℕ). t * b ^ n) (pow-zero b))
pow_add b (suc m) n =
    let shift : suc m + n ≡ suc (m + n) = omega arith in
    ap (λ (k : ℕ). b ^ k) shift
    ∙ omega (
      arith,
      pow-suc b (m + n),
      ap (λ (t : ℕ). t * b ^ n) (pow-suc b m),
      ap (λ (t : ℕ). t * b) (pow_add b m n),
    )

-- `a` adaptive bits and `d` direct bits between two states, and the bytes read for them.
pub record Costs (a d : ℕ) (rc rc' : Rc) : Type 0 where
  pub bytes : ℕ
  pub moved : rc'.in_pos ≡ rc.in_pos + bytes
  pub limit : rc'.in_limit ≡ rc.in_limit
  pub paid : rc.range * 256 ^ bytes * 64 ^ d ≤ 67 ^ a * 129 ^ d * rc'.range

pub Costs-refl : (rc : Rc) → Costs 0 0 rc rc
Costs-refl rc = record { bytes = 0; moved = omega arith; limit = refl; paid = omega arith }

product :
    (x e n f y c k u p q w : ℕ)
    → x * e * n ≤ c * k * y
    → y * f * u ≤ p * q * w
    → x * (e * f) * (n * u) ≤ (c * p) * (k * q) * w
product x e n f y c k u p q w first second =
    let one = mul-le-mul_right (f * u) first in
    let two = mul-le-mul_right (c * k) second in omega (arith, one, two)

-- Costs add up.
pub Costs-trans :
    {a d a' d' : ℕ} {r s t : Rc} → Costs a d r s → Costs a' d' s t → Costs (a + a') (d + d') r t
Costs-trans {a} {d} {a'} {d'} {r} {s} {t} x y = record {
  bytes = x.bytes + y.bytes;
  moved = omega (arith, x.moved, y.moved);
  limit = y.limit ∙ x.limit;
  paid =
      rw (pow_add 256 x.bytes y.bytes, pow_add 64 d d', pow_add 67 a a', pow_add 129 d d')
        (product r.range (256 ^ x.bytes) (64 ^ d) (256 ^ y.bytes) s.range (67 ^ a) (129 ^ d)
          (64 ^ d') (67 ^ a') (129 ^ d') t.range x.paid y.paid);
}

-- Bits that were not decoded cost nothing.
pub Costs-adaptive : {a d : ℕ} {r s : Rc} (b : ℕ) → a ≤ b → Costs a d r s → Costs b d r s
Costs-adaptive {a} {d} {r} {s} b h x = record {
  bytes = x.bytes;
  moved = x.moved;
  limit = x.limit;
  paid =
      let more : 67 ^ a ≤ 67 ^ b = pow-le-pow_right (omega arith) h in
      omega (arith, x.paid, mul-le-mul_right (129 ^ d * s.range) more);
}

more_direct : {a d : ℕ} {r s : Rc} (k : ℕ) → Costs a d r s → Costs a (d + k) r s
more_direct {a} {d} {r} {s} k x = record {
  bytes = x.bytes;
  moved = x.moved;
  limit = x.limit;
  paid =
      let less : 64 ^ k ≤ 129 ^ k = pow-le-pow_left (omega arith) k in
      rw (pow_add 64 d k, pow_add 129 d k)
        (omega (
          arith,
          mul-le-mul_right (64 ^ k) x.paid,
          mul-le-mul_right (67 ^ a * 129 ^ d * s.range) less,
        ));
}

pub Costs-direct : {a d : ℕ} {r s : Rc} (e : ℕ) → d ≤ e → Costs a d r s → Costs a e r s
Costs-direct {a} {d} {r} {s} e h x =
    let sum : d + (e - d) ≡ e = omega arith in
    subst (λ (n : ℕ). Costs a n r s) sum (more_direct (e - d) x)

-- Costs add up, within any sums that are large enough.
pub Costs-sum :
    {a d a' d' b e : ℕ} {r s t : Rc}
    → a + a' ≤ b
    → d + d' ≤ e
    → Costs a d r s
    → Costs a' d' s t
    → Costs b e r t
Costs-sum {a} {d} {a'} {d'} {b} {e} h k x y =
    Costs-direct e k (Costs-adaptive b h (Costs-trans x y))

-- Twenty-six direct bits cost more than an adaptive one.
pub Costs-trade : {a : ℕ} {r s : Rc} → Costs (suc a) 0 r s → Costs a 26 r s
Costs-trade {a} {r} {s} x = record {
  bytes = x.bytes;
  moved = x.moved;
  limit = x.limit;
  paid =
      let big : 67 * 64 ^ 26 ≤ 129 ^ 26 = omega arith in
      omega (
        arith,
        mul-le-mul_right (64 ^ 26) x.paid,
        ap (λ (t : ℕ). t * (s.range * 64 ^ 26)) (pow-suc 67 a),
        mul-le-mul_right (67 ^ a * s.range) big,
      );
}

-- From a range of 17 bits to one of at most 32, 22 adaptive and 26 direct bits take 21 bytes at
-- most.
pub Costs-bytes :
    {r s : Rc} → Costs 22 26 r s → 2 ^ 17 ≤ r.range → s.range < 2 ^ 32 → s.in_pos ≤ r.in_pos + 21
Costs-bytes {r} {s} x low high = elim (few_or_many x.bytes) [
  | inl few ↦ omega (arith, x.moved)
  | inr many ↦
      let power : 256 ^ 22 ≤ 256 ^ x.bytes = pow-le-pow_right (omega arith) many in
      let read = mul-le-mul low power in absurd (omega (arith, x.paid, read))
]
  where
    few_or_many : (n : ℕ) → (n ≤ 21) ⊎ (22 ≤ n)
    few_or_many n = omega arith
