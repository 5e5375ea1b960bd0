-- ===== src/Double.antt =====
-- The doubles of the program: prices and the sums made of them.
pub mod Whole
use cpp_matching_engine.Prelude.{◌≡◌, ◌↔◌, Bool, true, false, not, ℕ}
use cpp_matching_engine.Prelude.Int.{ℤ}

-- The operations that the sources use. A decimal literal such as 0.01 is the quotient of two
-- integers, which IEEE division rounds to the same double.
pub record Double (F : Type 0) : Type 0 where
  pub lt : F → F → Bool
  pub le : F → F → Bool
  pub eq : F → F → Bool
  pub add : F → F → F
  pub sub : F → F → F
  pub mul : F → F → F
  pub div : F → F → F
  pub neg : F → F
  pub round : F → F
  pub sqrt : F → F
  pub of_int : ℤ → F

-- What IEEE 754 promises of the comparisons if none of the values is NaN, the two zeroes being
-- counted as one value.
pub record IsOrdered (F : Type 0) ⦃d : Double F⦄ : Type 0 where
  pub lt_irrefl : (a : F) → d.lt a a ≡ false
  pub lt_trans : (a b c : F) → d.lt a b ≡ true → d.lt b c ≡ true → d.lt a c ≡ true
  pub lt_total : (a b : F) → d.lt a b ≡ false → d.lt b a ≡ false → a ≡ b
  pub le_iff : (a b : F) → d.le a b ≡ not (d.lt b a)
  pub eq_iff : (a b : F) → (d.eq a b ≡ true) ↔ (a ≡ b)
