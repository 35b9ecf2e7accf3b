-- ===== src/Base/Doubles.antt =====
-- What the code uses of double: a value is its bit pattern, and the arithmetic is the machine's.
use beatrice.Base.Tests.{ltb}
use beatrice.Base.Texts.{Text, decimal}
use Prim.Native.Nat.{ℕ, ◌+◌, ◌-◌}
use mathlib.Core.Path.{◌≡◌, refl}
use mathlib.Core.Logic.{◌⊎◌}
use mathlib.Core.Bool.{Bool, true, false}
use native.Mathlib.Omega.{arith}

-- The order is that of IEEE 754: strict, and two numbers have each third one above the smaller or
-- below the larger; a NaN is in no order. `fixed_text` is what a stream prints after std::fixed and
-- std::setprecision(6).
pub record Doubles : Type 0 where
  pub add : ℕ → ℕ → ℕ
  pub sub : ℕ → ℕ → ℕ
  pub lt : ℕ → ℕ → Bool
  pub is_nan : ℕ → Bool
  pub of_uint64 : ℕ → ℕ
  pub zero_point : ℕ
  pub largest : ℕ
  pub lowest : ℕ
  pub fixed_text : ℕ → Text
  pub lt-irrefl : (a : ℕ) → lt a a ≡ false
  pub lt-trans : (a b c : ℕ) → lt a b ≡ true → lt b c ≡ true → lt a c ≡ true
  pub lt-split : (a b c : ℕ) → is_nan b ≡ false → lt a c ≡ true → (lt a b ≡ true) ⊎ (lt b c ≡ true)
  pub largest_number : is_nan largest ≡ false
  pub lowest_number : is_nan lowest ≡ false

pub ltb_irrefl : (a : ℕ) → ltb a a ≡ false
ltb_irrefl a = ground arith

pub ltb_trans : (a b c : ℕ) → ltb a b ≡ true → ltb b c ≡ true → ltb a c ≡ true
ltb_trans a b c h k = ground arith

pub ltb-split : (a b c : ℕ) → ltb a c ≡ true → (ltb a b ≡ true) ⊎ (ltb b c ≡ true)
ltb-split a b c h = ground arith

-- The laws can be met: whole numbers in place of doubles.
abbrev pub whole_numbers : Doubles
whole_numbers = record {
  add = λ a b. a + b;
  sub = λ a b. a - b;
  lt = ltb;
  is_nan = λ a. false;
  of_uint64 = λ a. a;
  zero_point = 0;
  largest = 1000;
  lowest = 0;
  fixed_text = decimal;
  lt-irrefl = ltb_irrefl;
  lt-trans = ltb_trans;
  lt-split = λ a b c h k. ltb-split a b c k;
  largest_number = refl;
  lowest_number = refl;
}
