-- ===== src/Base/Bits.antt =====
-- `&`, `|` and `^` of C at variables: the equation for the lowest binary digit, and the laws that
-- follow from it by induction on the value or on the width.
use Prim.Native.Nat.{
  ℕ, zero, suc, ◌+◌, ◌*◌, ◌/◌, ◌%◌, ◌^◌, ◌≤◌, ◌<◌, min, max, bit_and, bit_or, bit_xor, digits,
  bitwise, differ, bit_and-bitwise, bit_or-bitwise, bit_xor-bitwise,
}
use mathlib.Core.Logic.{◌⊎◌, inl, inr}
use mathlib.Core.Path.{◌≡◌, refl, sym, ap, ◌∙◌}
use native.Mathlib.Nat.{
  pow-suc, add-mul-mod_self_right, mod-eq_of_lt, div-add-mod', mod-lt, one-le-pow,
  div-div-eq-div-mul,
}
use native.Mathlib.Omega.{arith}

-- The recursion of the library carries a count of digits. Any count that covers the first
-- argument gives the same number, so it can be dropped.
module _ (z : ℕ → ℕ) (f : ℕ → ℕ → ℕ) where
  digits_count : (a n m b : ℕ) → a ≤ n → a ≤ m → digits z f n a b ≡ digits z f m a b
  digits_count a zero zero b p q = refl
  digits_count zero zero (suc m) b p q = refl
  digits_count zero (suc n) zero b p q = refl
  digits_count zero (suc n) (suc m) b p q = refl
  digits_count (suc a) zero m b p q = absurd (omega arith)
  digits_count (suc a) (suc n) zero b p q = absurd (omega arith)
  digits_count (suc a) (suc n) (suc m) b p q =
      ap (λ d. d * 2 + f (suc a % 2) (b % 2))
        (digits_count (suc a / 2) n m (b / 2) (omega arith) (omega arith))

  lowest :
      ((b : ℕ) → z b ≡ z (b / 2) * 2 + f 0 (b % 2))
      → (a b : ℕ) → bitwise z f a b ≡ bitwise z f (a / 2) (b / 2) * 2 + f (a % 2) (b % 2)
  lowest out zero b = out b
  lowest out (suc a) b =
      ap (λ d. d * 2 + f (suc a % 2) (b % 2))
        (digits_count (suc a / 2) a (suc a / 2) (b / 2) (omega arith) (omega arith))

pub bit_and_lowest : (a b : ℕ) → bit_and a b ≡ bit_and (a / 2) (b / 2) * 2 + min (a % 2) (b % 2)
bit_and_lowest a b =
    bit_and-bitwise a b
    ∙ lowest (λ b. 0) min (λ b. omega arith) a b
    ∙ ap (λ d. d * 2 + min (a % 2) (b % 2)) (sym (bit_and-bitwise (a / 2) (b / 2)))

pub bit_or_lowest : (a b : ℕ) → bit_or a b ≡ bit_or (a / 2) (b / 2) * 2 + max (a % 2) (b % 2)
bit_or_lowest a b =
    bit_or-bitwise a b
    ∙ lowest (λ b. b) max (λ b. omega arith) a b
    ∙ ap (λ d. d * 2 + max (a % 2) (b % 2)) (sym (bit_or-bitwise (a / 2) (b / 2)))

differ_digit : (a b : ℕ) → a < 2 → b < 2 → differ a b ≡ (a + b) % 2
differ_digit zero b p q = omega arith
differ_digit (suc zero) zero p q = refl
differ_digit (suc zero) (suc zero) p q = refl
differ_digit (suc zero) (suc (suc b)) p q = absurd (omega arith)
differ_digit (suc (suc a)) b p q = absurd (omega arith)

pub bit_xor_lowest : (a b : ℕ) → bit_xor a b ≡ bit_xor (a / 2) (b / 2) * 2 + (a + b) % 2
bit_xor_lowest a b = omega (
  arith,
  bit_xor-bitwise a b,
  lowest (λ b. b) differ (λ b. omega (arith, differ_digit 0 (b % 2))) a b,
  bit_xor-bitwise (a / 2) (b / 2),
  differ_digit (a % 2) (b % 2),
)

-- Halving and the parity see through `^`.
pub bit_xor-half : (a b : ℕ) → bit_xor a b / 2 ≡ bit_xor (a / 2) (b / 2)
bit_xor-half a b = omega (arith, bit_xor_lowest a b)

pub bit_xor-parity : (a b : ℕ) → bit_xor a b % 2 ≡ (a + b) % 2
bit_xor-parity a b = omega (arith, bit_xor_lowest a b)

-- Induction on a bound of the value, for statements that go from the halves to the whole.
halving : (P : ℕ → Type 0) → P 0 → ((n : ℕ) → P (suc n / 2) → P (suc n)) → (k n : ℕ) → n ≤ k → P n
halving P base up k zero h = base
halving P base up zero (suc n) h = absurd (omega arith)
halving P base up (suc k) (suc n) h = up n (halving P base up k (suc n / 2) (omega arith))

pub zero-bit_xor : (b : ℕ) → bit_xor 0 b ≡ b
zero-bit_xor b = bit_xor-bitwise 0 b

pub bit_xor-zero : (a : ℕ) → bit_xor a 0 ≡ a
bit_xor-zero a =
    halving (λ n. bit_xor n 0 ≡ n) (zero-bit_xor 0)
      (λ n ih. omega (arith, bit_xor_lowest (suc n) 0, ih)) a a (omega arith)

bit_xor_comm_below : (k a b : ℕ) → a + b ≤ k → bit_xor a b ≡ bit_xor b a
bit_xor_comm_below k zero b h = zero-bit_xor b ∙ sym (bit_xor-zero b)
bit_xor_comm_below zero (suc a) b h = absurd (omega arith)
bit_xor_comm_below (suc k) (suc a) b h = omega (
  arith,
  bit_xor_lowest (suc a) b,
  bit_xor_lowest b (suc a),
  bit_xor_comm_below k (suc a / 2) (b / 2) (omega arith),
)

pub bit_xor_comm : (a b : ℕ) → bit_xor a b ≡ bit_xor b a
bit_xor_comm a b = bit_xor_comm_below (a + b) a b (omega arith)

bit_xor_assoc_below : (k a b c : ℕ) → a ≤ k → bit_xor (bit_xor a b) c ≡ bit_xor a (bit_xor b c)
bit_xor_assoc_below k zero b c h =
    ap (λ t. bit_xor t c) (zero-bit_xor b) ∙ sym (zero-bit_xor (bit_xor b c))
bit_xor_assoc_below zero (suc a) b c h = absurd (omega arith)
bit_xor_assoc_below (suc k) (suc a) b c h = omega (
  arith,
  bit_xor_lowest (bit_xor (suc a) b) c,
  bit_xor_lowest (suc a) (bit_xor b c),
  ap (λ t. bit_xor t (c / 2)) (bit_xor-half (suc a) b),
  ap (λ t. bit_xor (suc a / 2) t) (bit_xor-half b c),
  bit_xor-parity (suc a) b,
  bit_xor-parity b c,
  bit_xor_assoc_below k (suc a / 2) (b / 2) (c / 2) (omega arith),
)

pub bit_xor_assoc : (a b c : ℕ) → bit_xor (bit_xor a b) c ≡ bit_xor a (bit_xor b c)
bit_xor_assoc a b c = bit_xor_assoc_below a a b c (omega arith)

pub bit_xor_self : (a : ℕ) → bit_xor a a ≡ 0
bit_xor_self a =
    halving (λ n. bit_xor n n ≡ 0) (zero-bit_xor 0)
      (λ n ih. omega (arith, bit_xor_lowest (suc n) (suc n), ih)) a a (omega arith)

-- Two words of `k` bits have a `^` of `k` bits.
pub bit_xor-lt : (k a b : ℕ) → a < 2 ^ k → b < 2 ^ k → bit_xor a b < 2 ^ k
bit_xor-lt zero zero zero p q = omega (arith, zero-bit_xor 0)
bit_xor-lt zero zero (suc b) p q = absurd (omega arith)
bit_xor-lt zero (suc a) b p q = absurd (omega arith)
bit_xor-lt (suc k) a b p q = omega (
  arith,
  pow-suc 2 k,
  bit_xor_lowest a b,
  bit_xor-lt k (a / 2) (b / 2) (omega (arith, pow-suc 2 k)) (omega (arith, pow-suc 2 k)),
)

pub twice-pow : (q k : ℕ) → q * 2 ^ suc k ≡ 2 * (q * 2 ^ k)
twice-pow q k = omega (arith, ap (λ (t : ℕ). q * t) (pow-suc 2 k))

half_of_twice : (a b : ℕ) → a ≡ 2 * b → a / 2 ≡ b
half_of_twice a b e = omega arith

pub zero-bit_or : (b : ℕ) → bit_or 0 b ≡ b
zero-bit_or b = bit_or-bitwise 0 b

-- `r | (q << k)` is a sum where `r` has `k` bits.
pub bit_or-add : (k r q : ℕ) → r < 2 ^ k → bit_or r (q * 2 ^ k) ≡ r + q * 2 ^ k
bit_or-add zero zero q h = omega (arith, zero-bit_or (q * 2 ^ 0))
bit_or-add zero (suc r) q h = absurd (omega arith)
bit_or-add (suc k) r q h = omega (
  arith,
  pow-suc 2 k,
  twice-pow q k,
  bit_or_lowest r (q * 2 ^ suc k),
  ap (λ t. bit_or (r / 2) t) (half_of_twice (q * 2 ^ suc k) (q * 2 ^ k) (twice-pow q k)),
  bit_or-add k (r / 2) q (omega (arith, pow-suc 2 k)),
)

and_zero : (a : ℕ) → bit_and a 0 ≡ 0
and_zero a =
    halving (λ n. bit_and n 0 ≡ 0) (bit_and-bitwise 0 0)
      (λ n ih. omega (arith, bit_and_lowest (suc n) 0, ih)) a a (omega arith)

-- The remainder, read off a decomposition.
pub mod_of_parts : (m q r a : ℕ) → r < m → a ≡ r + q * m → a % m ≡ r
mod_of_parts m q r a h e = ap (λ t. t % m) e ∙ add-mul-mod_self_right r q m ∙ mod-eq_of_lt h

mod-pow-suc : (k a : ℕ) → a % 2 ^ suc k ≡ a / 2 % 2 ^ k * 2 + a % 2
mod-pow-suc k a =
    mod_of_parts (2 ^ suc k) (a / 2 / 2 ^ k) (a / 2 % 2 ^ k * 2 + a % 2) a
      (omega (arith, pow-suc 2 k, mod-lt (a / 2) (one-le-pow k 2 (omega arith))))
      (omega (arith, twice-pow (a / 2 / 2 ^ k) k, div-add-mod' (a / 2) (2 ^ k)))

-- A mask of `k` low ones is the remainder by `2 ^ k`.
pub bit_and-mask : (k a m : ℕ) → m + 1 ≡ 2 ^ k → bit_and a m ≡ a % 2 ^ k
bit_and-mask zero a m e = omega (arith, ap (bit_and a) (zero_of e), and_zero a)
  where
    zero_of : {n : ℕ} → n + 1 ≡ 2 ^ 0 → n ≡ 0
    zero_of e = omega arith
bit_and-mask (suc k) a m e = omega (
  arith,
  pow-suc 2 k,
  bit_and_lowest a m,
  bit_and-mask k (a / 2) (m / 2) (omega (arith, pow-suc 2 k)),
  mod-pow-suc k a,
)

-- `r ^ (q << k)` is a sum where `r` has `k` bits.
pub bit_xor-add : (k r q : ℕ) → r < 2 ^ k → bit_xor r (q * 2 ^ k) ≡ r + q * 2 ^ k
bit_xor-add zero zero q h = omega (arith, zero-bit_xor (q * 2 ^ 0))
bit_xor-add zero (suc r) q h = absurd (omega arith)
bit_xor-add (suc k) r q h = omega (
  arith,
  pow-suc 2 k,
  twice-pow q k,
  bit_xor_lowest r (q * 2 ^ suc k),
  ap (λ t. bit_xor (r / 2) t) (half_of_twice (q * 2 ^ suc k) (q * 2 ^ k) (twice-pow q k)),
  bit_xor-add k (r / 2) q (omega (arith, pow-suc 2 k)),
)

-- The same operand on both sides of two words cancels.
pub bit_xor_cancel : (a b c : ℕ) → bit_xor a b ≡ bit_xor a c → b ≡ c
bit_xor_cancel a b c e = sym (undo b) ∙ ap (bit_xor a) e ∙ undo c
  where
    undo : (x : ℕ) → bit_xor a (bit_xor a x) ≡ x
    undo x = sym (bit_xor_assoc a a x) ∙ ap (λ t. bit_xor t x) (bit_xor_self a) ∙ zero-bit_xor x

-- A mask of one bit gives that bit in its place.
pub bit_and-bit : (k a : ℕ) → bit_and a (2 ^ k) ≡ a / 2 ^ k % 2 * 2 ^ k
bit_and-bit zero a = omega (arith, bit_and-mask 1 a 1 refl)
bit_and-bit (suc k) a = omega (
  arith,
  pow-suc 2 k,
  bit_and_lowest a (2 ^ suc k),
  ap (bit_and (a / 2)) (half_of_twice (2 ^ suc k) (2 ^ k) (omega (arith, pow-suc 2 k))),
  bit_and-bit k (a / 2),
  ap (λ t. t % 2 * 2 ^ suc k) (div-div-eq-div-mul a 2 (2 ^ k)),
  ap (λ t. a / t % 2 * 2 ^ suc k) (half_pow k),
  twice-pow (a / 2 / 2 ^ k % 2) k,
)
  where
    half_pow : (k : ℕ) → 2 * 2 ^ k ≡ 2 ^ suc k
    half_pow k = omega (arith, pow-suc 2 k)

bounded_by : (fuel a b : ℕ) → b ≤ fuel → bit_and a b ≤ b
bounded_by zero a b h =
    let none : b ≡ 0 = omega arith in omega (arith, ap (bit_and a) none, and_zero a)
bounded_by (suc fuel) a b h = elim (zero_or_more b) [
  | inl none ↦ omega (arith, ap (bit_and a) none, and_zero a)
  | inr some ↦ omega (arith, bit_and_lowest a b, bounded_by fuel (a / 2) (b / 2) (omega arith))
]
  where
    zero_or_more : (b : ℕ) → (b ≡ 0) ⊎ (1 ≤ b)
    zero_or_more b = omega arith

pub bit_and_bound : (a b : ℕ) → bit_and a b ≤ b
bit_and_bound a b = bounded_by b a b (omega arith)

pub zero_and : (b : ℕ) → bit_and 0 b ≡ 0
zero_and b = bit_and-bitwise 0 b

bit_and_comm_below : (k a b : ℕ) → a + b ≤ k → bit_and a b ≡ bit_and b a
bit_and_comm_below k zero b h = zero_and b ∙ sym (and_zero b)
bit_and_comm_below zero (suc a) b h = absurd (omega arith)
bit_and_comm_below (suc k) (suc a) b h = omega (
  arith,
  bit_and_lowest (suc a) b,
  bit_and_lowest b (suc a),
  bit_and_comm_below k (suc a / 2) (b / 2) (omega arith),
)

pub bit_and_comm : (a b : ℕ) → bit_and a b ≡ bit_and b a
bit_and_comm a b = bit_and_comm_below (a + b) a b (omega arith)

bit_or-zero : (a : ℕ) → bit_or a 0 ≡ a
bit_or-zero a =
    halving (λ n. bit_or n 0 ≡ n) (zero-bit_or 0)
      (λ n ih. omega (arith, bit_or_lowest (suc n) 0, ih)) a a (omega arith)

bit_or_comm_below : (k a b : ℕ) → a + b ≤ k → bit_or a b ≡ bit_or b a
bit_or_comm_below k zero b h = zero-bit_or b ∙ sym (bit_or-zero b)
bit_or_comm_below zero (suc a) b h = absurd (omega arith)
bit_or_comm_below (suc k) (suc a) b h = omega (
  arith,
  bit_or_lowest (suc a) b,
  bit_or_lowest b (suc a),
  bit_or_comm_below k (suc a / 2) (b / 2) (omega arith),
)

pub bit_or_comm : (a b : ℕ) → bit_or a b ≡ bit_or b a
bit_or_comm a b = bit_or_comm_below (a + b) a b (omega arith)
