-- ===== src/Common/Float.antt =====
-- Go's `float64`, as far as the program uses it: a type of numbers (no NaN) with the operations
-- that IEEE 754 rounds, and the laws that correct rounding gives them.
use subsyncd.Common.{ℕ, Bool, ◌≡◌, false, true, ◌≤◌}

pub record Floats : Type 1 where
  pub F : Type 0
  -- `float64(n)` of a whole number that is not negative.
  pub of_ℕ : ℕ → F
  -- The constants 0.2 and 0.1.
  pub fifth : F
  pub tenth : F
  pub add : F → F → F
  pub mul : F → F → F
  pub lt : F → F → Bool
  -- The conversion of a value that is not negative to an integer, and `math.Round` of one.
  pub trunc : F → ℕ
  pub round : F → ℕ
  pub le_trans : (a b c : F) → lt b a ≡ false → lt c b ≡ false → lt c a ≡ false
  pub lt_asymm : (a b : F) → lt a b ≡ true → lt b a ≡ false
  pub le_refl : (a : F) → lt a a ≡ false
  pub add_mono : (c a b : F) → lt b a ≡ false → lt (add c b) (add c a) ≡ false
  pub mul_mono :
      (c a b : F) → lt c (of_ℕ 0) ≡ false → lt b a ≡ false → lt (mul c b) (mul c a) ≡ false
  pub add_zero : (a : F) → add a (of_ℕ 0) ≡ a
  pub mul_zero : (a : F) → mul a (of_ℕ 0) ≡ of_ℕ 0
  pub mul_one : (a : F) → mul a (of_ℕ 1) ≡ a
  pub of_ℕ-mono : (m n : ℕ) → m ≤ n → lt (of_ℕ n) (of_ℕ m) ≡ false
  pub fifth_nonneg : lt fifth (of_ℕ 0) ≡ false
  pub trunc_mono : (a b : F) → lt b a ≡ false → trunc a ≤ trunc b
  -- A whole number up to 2^53 is represented exactly.
  pub trunc-of_ℕ : (n : ℕ) → n ≤ 9_007_199_254_740_992 → trunc (of_ℕ n) ≡ n
