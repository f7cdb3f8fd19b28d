-- ===== src/Base/Bits.antt =====
-- `&` with a mask of low bits, `|` of disjoint fields, and the test `n & (n - 1)`, as arithmetic.
use Prim.Native.Nat.{
  ℕ, zero, suc, ◌+◌, ◌-◌, ◌*◌, ◌/◌, ◌%◌, ◌^◌, ◌≤◌, ◌<◌, min, max, bit_and, bit_or,
}
use Prim.Native.Nat.{digits, bit_and-bitwise, bit_or-bitwise}
use mathlib.Core.Path.{◌≡◌, refl, ap}
use mathlib.Core.Logic.{◌↔◌}
use native.Mathlib.Nat.{pow-suc, one-le-pow}
use native.Mathlib.Decide.{ℕ_discrete}
use native.Mathlib.Omega.{arith}

-- The recursion on digits does not depend on its fuel, once there is enough.
module _ (z : ℕ → ℕ) (f : ℕ → ℕ → ℕ) where
  digits_enough : (n m a b : ℕ) → a ≤ n → a ≤ m → digits z f n a b ≡ digits z f m a b
  digits_enough zero zero a b p q = refl
  digits_enough zero (suc m) zero b p q = refl
  digits_enough zero (suc m) (suc a) b p q = absurd (omega arith)
  digits_enough (suc n) zero zero b p q = refl
  digits_enough (suc n) zero (suc a) b p q = absurd (omega arith)
  digits_enough (suc n) (suc m) zero b p q = refl
  digits_enough (suc n) (suc m) (suc a) b p q =
      omega (arith, digits_enough n m (suc a / 2) (b / 2) (omega arith) (omega arith))

-- The lowest digit of `a & b`.
pub bit_and_digit : (a b : ℕ) → bit_and a b ≡ bit_and (a / 2) (b / 2) * 2 + min (a % 2) (b % 2)
bit_and_digit zero b = omega (arith, bit_and-bitwise 0 b, bit_and-bitwise 0 (b / 2))
bit_and_digit (suc a) b = omega (
  arith,
  bit_and-bitwise (suc a) b,
  bit_and-bitwise (suc a / 2) (b / 2),
  digits_enough (λ y. 0) min a (suc a / 2) (suc a / 2) (b / 2) (omega arith) (omega arith),
)

-- The lowest digit of `a | b`.
pub bit_or_digit : (a b : ℕ) → bit_or a b ≡ bit_or (a / 2) (b / 2) * 2 + max (a % 2) (b % 2)
bit_or_digit zero b = omega (arith, bit_or-bitwise 0 b, bit_or-bitwise 0 (b / 2))
bit_or_digit (suc a) b = omega (
  arith,
  bit_or-bitwise (suc a) b,
  bit_or-bitwise (suc a / 2) (b / 2),
  digits_enough (λ y. y) max a (suc a / 2) (suc a / 2) (b / 2) (omega arith) (omega arith),
)

pub zero-bit_or : (b : ℕ) → bit_or 0 b ≡ b
zero-bit_or b = bit_or-bitwise 0 b

bit_and-zero_within : (n a : ℕ) → a ≤ n → bit_and a 0 ≡ 0
bit_and-zero_within n zero h = refl
bit_and-zero_within zero (suc a) h = absurd (omega arith)
bit_and-zero_within (suc n) (suc a) h =
    omega (arith, bit_and_digit (suc a) 0, bit_and-zero_within n (suc a / 2) (omega arith))

pub bit_and-zero : (a : ℕ) → bit_and a 0 ≡ 0
bit_and-zero a = bit_and-zero_within a a (omega arith)

-- `2 ^ suc k` as the double of `2 ^ k`, on its own and as a factor.
double_pow : (k : ℕ) → 2 ^ suc k ≡ 2 * 2 ^ k
double_pow k = omega (arith, pow-suc 2 k)

pub double_shift : (q k : ℕ) → q * 2 ^ suc k ≡ 2 * (q * 2 ^ k)
double_shift q k = omega (arith, ap (λ (t : ℕ). q * t) (pow-suc 2 k))

-- `lo | (hi << k)` is a sum when `lo` fits `k` bits.
pub bit_or_fields : (k lo hi : ℕ) → lo < 2 ^ k → bit_or lo (hi * 2 ^ k) ≡ lo + hi * 2 ^ k
bit_or_fields zero zero hi fits = omega (arith, zero-bit_or (hi * 1))
bit_or_fields zero (suc lo) hi fits = absurd (omega arith)
bit_or_fields (suc k) lo hi fits = ground (
  arith,
  bit_or_digit lo (hi * 2 ^ suc k),
  double_shift hi k,
  double_pow k,
  bit_or_fields k (lo / 2) hi (omega (arith, double_pow k)),
)

-- A mask of `k` low bits takes the remainder by `2 ^ k`.
bit_and_split : (k q r : ℕ) → r < 2 ^ k → bit_and (q * 2 ^ k + r) (2 ^ k - 1) ≡ r
bit_and_split zero q zero fits = bit_and-zero (q * 1 + 0)
bit_and_split zero q (suc r) fits = absurd (omega arith)
bit_and_split (suc k) q r fits = ground (
  arith,
  bit_and_digit (q * 2 ^ suc k + r) (2 ^ suc k - 1),
  double_shift q k,
  double_pow k,
  one-le-pow k 2,
  bit_and_split k q (r / 2) (omega (arith, double_pow k)),
)

pub bit_and_mask : (k a : ℕ) → bit_and a (2 ^ k - 1) ≡ a % 2 ^ k
bit_and_mask k a = ground (arith, one-le-pow k 2, bit_and_split k (a / 2 ^ k) (a % 2 ^ k))

bit_and_self_within : (n a : ℕ) → a ≤ n → bit_and a a ≡ a
bit_and_self_within n zero h = refl
bit_and_self_within zero (suc a) h = absurd (omega arith)
bit_and_self_within (suc n) (suc a) h =
    omega (arith, bit_and_digit (suc a) (suc a), bit_and_self_within n (suc a / 2) (omega arith))

pub bit_and_self : (a : ℕ) → bit_and a a ≡ a
bit_and_self a = bit_and_self_within a a (omega arith)

abbrev pub IsPowerOfTwo : ℕ → Type 0
IsPowerOfTwo n = (k : ℕ) × (n ≡ 2 ^ k)

IsPowerOfTwo-double : (m : ℕ) → IsPowerOfTwo m → IsPowerOfTwo (2 * m)
IsPowerOfTwo-double m (k, e) = (suc k, omega (arith, e, double_pow k))

-- One digit of the test: an even `n` is tested by its half, an odd one only passes at 1.
single_bit_even : (m : ℕ) → 1 ≤ m → bit_and (2 * m) (2 * m - 1) ≡ 2 * bit_and m (m - 1)
single_bit_even m h = ground (
  arith,
  bit_and_digit (2 * m) (2 * m - 1),
  ap (bit_and (2 * m / 2)) (div_pred m h),
  ap (λ (t : ℕ). bit_and t (m - 1)) (div_double m),
)
  where
    div_pred : (m : ℕ) → 1 ≤ m → (2 * m - 1) / 2 ≡ m - 1
    div_pred m h = omega arith

    div_double : (m : ℕ) → 2 * m / 2 ≡ m
    div_double m = omega arith

single_bit_odd : (m : ℕ) → bit_and (2 * m + 1) (2 * m + 1 - 1) ≡ 2 * m
single_bit_odd m = ground (
  arith,
  bit_and_digit (2 * m + 1) (2 * m + 1 - 1),
  bit_and_self m,
  ap (bit_and ((2 * m + 1) / 2)) (low m),
  ap (λ (t : ℕ). bit_and t m) (high m),
)
  where
    low : (m : ℕ) → (2 * m + 1 - 1) / 2 ≡ m
    low m = omega arith

    high : (m : ℕ) → (2 * m + 1) / 2 ≡ m
    high m = omega arith

single_bit_within : (b n : ℕ) → n ≤ b → 1 ≤ n → bit_and n (n - 1) ≡ 0 → IsPowerOfTwo n
single_bit_within zero n h pos e = absurd (omega arith)
single_bit_within (suc b) n h pos e = elim (ℕ_discrete (n % 2) 0) [
  | yes even ↦
      let m : ℕ = n / 2 in
      let n_eq : n ≡ 2 * m = omega arith in
      let half : bit_and m (m - 1) ≡ 0 =
        omega (arith, single_bit_even m (omega arith), ap (λ (t : ℕ). bit_and t (t - 1)) n_eq) in
      rw n_eq (IsPowerOfTwo-double m (single_bit_within b m (omega arith) (omega arith) half))
  | no odd ↦
      let m : ℕ = n / 2 in
      let n_eq : n ≡ 2 * m + 1 = omega arith in
      (0, omega (arith, single_bit_odd m, ap (λ (t : ℕ). bit_and t (t - 1)) n_eq))
]

-- `n & (n - 1)` is zero just at the powers of two.
pub single_bit_iff : (n : ℕ) → 1 ≤ n → (bit_and n (n - 1) ≡ 0) ↔ IsPowerOfTwo n
single_bit_iff n pos = (single_bit_within n n (omega arith) pos, λ p. back p.0 n p.1)
  where
    back : (k n : ℕ) → n ≡ 2 ^ k → bit_and n (n - 1) ≡ 0
    back zero n e = rw e (bit_and-zero 1)
    back (suc k) n e = omega (
      arith,
      single_bit_even (2 ^ k) (one-le-pow k 2 (omega arith)),
      back k (2 ^ k) refl,
      ap (λ (t : ℕ). bit_and t (t - 1)) e,
      ap (λ (t : ℕ). bit_and t (t - 1)) (double_pow k),
    )
