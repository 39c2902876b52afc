-- ===== src/Common/Fixed.antt =====
-- Decimal fractions with one digit meet the laws of `Floats`.
use native.Mathlib.Nat.{le_trans}
use subsyncd.Common.{ℕ, ltb, ◌≤◌, ◌*◌, ◌+◌, ◌≡◌, arith, ◌/◌, false, refl, true}
use subsyncd.Common.Float.{Floats}

pub fixed_mul_mono : (c a b : ℕ) → a ≤ b → c * a / 10 ≤ c * b / 10
fixed_mul_mono c a b h = let p : c * a ≤ c * b = grind arith in omega arith

pub le_of_ltb : (a b : ℕ) → ltb b a ≡ false → a ≤ b
le_of_ltb a b h = ground arith

pub ltb_of_le : (a b : ℕ) → a ≤ b → ltb b a ≡ false
ltb_of_le a b h = ground arith

pub ltb_asymm : (a b : ℕ) → ltb a b ≡ true → ltb b a ≡ false
ltb_asymm a b h = ground arith

pub ltb_irrefl : (a : ℕ) → ltb a a ≡ false
ltb_irrefl a = ground arith

-- The digit stands in the units' place.
abbrev pub fixed_point : Floats
fixed_point = record {
  F = ℕ;
  of_ℕ = λ n. n * 10;
  fifth = 2;
  tenth = 1;
  add = λ a b. a + b;
  mul = λ a b. a * b / 10;
  lt = ltb;
  trunc = λ a. a / 10;
  round = λ a. (a + 5) / 10;
  le_trans = λ a b c h k. ltb_of_le a c (le_trans (le_of_ltb a b h) (le_of_ltb b c k));
  lt_asymm = ltb_asymm;
  le_refl = ltb_irrefl;
  add_mono = λ c a b h. ltb_of_le (c + a) (c + b) (omega (arith, le_of_ltb a b h));
  mul_mono = λ c a b h k. ltb_of_le _ _ (fixed_mul_mono c a b (le_of_ltb a b k));
  add_zero = λ a. omega arith;
  mul_zero = λ a. omega arith;
  mul_one = λ a. omega arith;
  of_ℕ-mono = λ m n h. ltb_of_le (m * 10) (n * 10) (omega arith);
  fifth_nonneg = refl;
  trunc_mono = λ a b h. omega (arith, le_of_ltb a b h);
  trunc-of_ℕ = λ n h. omega arith;
}
