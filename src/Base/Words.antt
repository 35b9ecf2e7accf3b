-- ===== src/Base/Words.antt =====
-- Machine words as native numbers, and `|` and `&` as arithmetic.
use Prim.Native.Nat.{
  ℕ, zero, suc, ◌+◌, ◌-◌, ◌*◌, ◌/◌, ◌%◌, ◌^◌, ◌≤◌, ◌<◌, max, min, bit_and, bit_or, digits,
  bit_and-bitwise, bit_or-bitwise,
}
use mathlib.Core.Path.{◌≡◌, refl, ap, ◌∙◌}
use native.Mathlib.Omega.{arith}
use native.Mathlib.Nat.{pow-suc, pow-succ', div-div-eq-div-mul}
use native.Mathlib.Numerals.{towards_suc}

abbrev pub size_mod : ℕ
size_mod = 2 ^ 64

-- a + b in size_t (and in uint64_t).
abbrev pub size_add : ℕ → ℕ → ℕ
size_add a b = (a + b) % size_mod

-- a - b in size_t.
abbrev pub size_sub : ℕ → ℕ → ℕ
size_sub a b = (a + size_mod - b) % size_mod

-- The digit recursion that the native operations stand for does not depend on enough fuel.
or_rounds : ℕ → ℕ → ℕ → ℕ
or_rounds n a b = digits (λ c. c) max n a b

abbrev and_rounds : ℕ → ℕ → ℕ → ℕ
and_rounds n a b = digits (λ c. zero) min n a b

or_rounds_fuel : (n m a b : ℕ) → a ≤ n → a ≤ m → or_rounds n a b ≡ or_rounds m a b
unfolding or_rounds
or_rounds_fuel zero zero a b p q = refl
or_rounds_fuel zero (suc m) zero b p q = refl
or_rounds_fuel zero (suc m) (suc a) b p q = absurd (omega arith)
or_rounds_fuel (suc n) zero zero b p q = refl
or_rounds_fuel (suc n) zero (suc a) b p q = absurd (omega arith)
or_rounds_fuel (suc n) (suc m) zero b p q = refl
or_rounds_fuel (suc n) (suc m) (suc a) b p q =
    omega (arith, or_rounds_fuel n m (suc a / 2) (b / 2) (omega arith) (omega arith))

and_rounds_fuel : (n m a b : ℕ) → a ≤ n → a ≤ m → and_rounds n a b ≡ and_rounds m a b
and_rounds_fuel zero zero a b p q = refl
and_rounds_fuel zero (suc m) zero b p q = refl
and_rounds_fuel zero (suc m) (suc a) b p q = absurd (omega arith)
and_rounds_fuel (suc n) zero zero b p q = refl
and_rounds_fuel (suc n) zero (suc a) b p q = absurd (omega arith)
and_rounds_fuel (suc n) (suc m) zero b p q = refl
and_rounds_fuel (suc n) (suc m) (suc a) b p q =
    omega (arith, and_rounds_fuel n m (suc a / 2) (b / 2) (omega arith) (omega arith))

zero-bit_or : (b : ℕ) → bit_or 0 b ≡ b
zero-bit_or b = bit_or-bitwise 0 b

zero-bit_and : (b : ℕ) → bit_and 0 b ≡ 0
zero-bit_and b = bit_and-bitwise 0 b

bit_or_halves : (a b : ℕ) → bit_or a b ≡ bit_or (a / 2) (b / 2) * 2 + max (a % 2) (b % 2)
unfolding or_rounds
bit_or_halves zero b = omega (arith, zero-bit_or b, zero-bit_or (b / 2))
bit_or_halves (suc a) b = omega (
  arith,
  bit_or-bitwise (suc a) b,
  bit_or-bitwise (suc a / 2) (b / 2),
  or_rounds_fuel a (suc a / 2) (suc a / 2) (b / 2) (omega arith) (omega arith),
)

bit_and_halves : (a b : ℕ) → bit_and a b ≡ bit_and (a / 2) (b / 2) * 2 + min (a % 2) (b % 2)
bit_and_halves zero b = omega (arith, zero-bit_and b, zero-bit_and (b / 2))
bit_and_halves (suc a) b = omega (
  arith,
  bit_and-bitwise (suc a) b,
  bit_and-bitwise (suc a / 2) (b / 2),
  and_rounds_fuel a (suc a / 2) (suc a / 2) (b / 2) (omega arith) (omega arith),
)

-- q * 2 ^ (k + 1) is twice q * 2 ^ k.
shift_suc : (q k : ℕ) → q * 2 ^ suc k ≡ q * 2 ^ k * 2
shift_suc q k = omega (arith, ap (λ (t : ℕ). q * t) (pow-suc 2 k))

-- A word or'ed with bits above it: a | (q << k) is a sum.
pub bit_or-shift : (k a q : ℕ) → a < 2 ^ k → bit_or a (q * 2 ^ k) ≡ a + q * 2 ^ k
bit_or-shift zero a q h = ground (arith, zero-bit_or q)
bit_or-shift (suc k) a q h = omega (
  arith,
  pow-suc 2 k,
  shift_suc q k,
  bit_or_halves a (q * 2 ^ suc k),
  bit_or-shift k (a / 2) q (omega (arith, pow-suc 2 k)),
  ap (λ (t : ℕ). bit_or (a / 2) (t / 2)) (shift_suc q k),
  ap (λ (t : ℕ). bit_or (a / 2) t) (half_double (q * 2 ^ k)),
)
  where
    half_double : (x : ℕ) → x * 2 / 2 ≡ x
    half_double x = omega arith

or_rounds-zero : (n a : ℕ) → a ≤ n → or_rounds n a 0 ≡ a
unfolding or_rounds
or_rounds-zero zero zero h = refl
or_rounds-zero zero (suc a) h = absurd (omega arith)
or_rounds-zero (suc n) zero h = refl
or_rounds-zero (suc n) (suc a) h = omega (arith, or_rounds-zero n (suc a / 2) (omega arith))

bit_or-zero : (a : ℕ) → bit_or a 0 ≡ a
unfolding or_rounds
bit_or-zero a = bit_or-bitwise a 0 ∙ or_rounds-zero a a (omega arith)

-- The same with the high bits first.
pub bit_or-below : (k a q : ℕ) → a < 2 ^ k → bit_or (q * 2 ^ k) a ≡ q * 2 ^ k + a
bit_or-below zero a q h =
    ap (λ (t : ℕ). bit_or (q * 2 ^ 0) t) a_zero ∙ bit_or-zero (q * 2 ^ 0) ∙ omega arith
  where
    a_zero : a ≡ 0
    a_zero = omega arith
bit_or-below (suc k) a q h = omega (
  arith,
  pow-suc 2 k,
  shift_suc q k,
  bit_or_halves (q * 2 ^ suc k) a,
  bit_or-below k (a / 2) q (omega (arith, pow-suc 2 k)),
  ap (λ (t : ℕ). bit_or (t / 2) (a / 2)) (shift_suc q k),
  ap (λ (t : ℕ). bit_or t (a / 2)) (half_double (q * 2 ^ k)),
)
  where
    half_double : (x : ℕ) → x * 2 / 2 ≡ x
    half_double x = omega arith

-- One byte further.
pub two-pow-byte : (i : ℕ) → 2 ^ (suc i * 8) ≡ 256 * 2 ^ (i * 8)
two-pow-byte i = ap (λ (t : ℕ). 2 ^ t) next ∙ eight (i * 8)
  where
    next : suc i * 8 ≡ i * 8 + 8
    next = omega arith

    eight : (n : ℕ) → 2 ^ (n + 8) ≡ 256 * 2 ^ n
    eight n = simp (towards_suc, pow-suc) (omega arith)

-- The bits below k cleared.
pub bit_and-shift : (k a m : ℕ) → bit_and a (m * 2 ^ k) ≡ bit_and (a / 2 ^ k) m * 2 ^ k
bit_and-shift zero a m =
    ap (λ (t : ℕ). bit_and a t) times_one ∙ ap (λ (t : ℕ). bit_and t m) div-one ∙ omega arith
  where
    times_one : m * 2 ^ 0 ≡ m
    times_one = omega arith

    div-one : a ≡ a / 2 ^ 0
    div-one = omega arith
bit_and-shift (suc k) a m = omega (
  arith,
  shift_suc m k,
  shift_suc (bit_and (a / 2 ^ suc k) m) k,
  bit_and_halves a (m * 2 ^ suc k),
  bit_and-shift k (a / 2) m,
  ap (λ (t : ℕ). bit_and t m * 2 ^ k) (div-div-eq-div-mul a 2 (2 ^ k)),
  ap (λ (t : ℕ). bit_and (a / t) m * 2 ^ k) (pow-succ' 2 k),
  ap (λ (t : ℕ). bit_and (a / 2) (t / 2)) (shift_suc m k),
  ap (λ (t : ℕ). bit_and (a / 2) t) (half_double (m * 2 ^ k)),
)
  where
    half_double : (x : ℕ) → x * 2 / 2 ≡ x
    half_double x = omega arith

-- All the bits of a number kept.
pub bit_and-ones : (n a : ℕ) → a < 2 ^ n → bit_and a (2 ^ n - 1) ≡ a
bit_and-ones zero a h =
    omega (arith, bit_and_halves a 0, zero-bit_and 0, ap (λ (t : ℕ). bit_and t 0) (a_zero))
  where
    a_zero : a ≡ 0
    a_zero = omega arith
bit_and-ones (suc n) a h = omega (
  arith,
  pow-suc 2 n,
  bit_and_halves a (2 ^ suc n - 1),
  bit_and-ones n (a / 2) (omega (arith, pow-suc 2 n)),
  ap (λ (t : ℕ). bit_and (a / 2) t) half,
)
  where
    half : (2 ^ suc n - 1) / 2 ≡ 2 ^ n - 1
    half = omega (arith, pow-suc 2 n)
