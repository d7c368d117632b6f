-- ===== src/Double.antt =====
-- The floating-point numbers of the program, its type `double`: they are given by the machine, not by
-- the repository, so the operations that the source uses are parameters. `Rounds` names the rules of
-- IEEE 754 that the bounds on indices rely on.

pub mod Fixed
use xcopy_block_io.Common.{ℕ, ◌^◌, ◌≤◌, ◌<◌, ◌≡◌, List, Bool, true, false}

-- `of` converts an unsigned number, `ratio n d` is the literal n / d, `trunc` casts to a whole number,
-- and `fixed k` is the text that `std::fixed` and `setprecision(k)` print, as character codes.
pub record Doubles : Type 1 where
  pub Double : Type 0
  pub of : ℕ → Double
  pub ratio : ℕ → ℕ → Double
  pub add : Double → Double → Double
  pub sub : Double → Double → Double
  pub mul : Double → Double → Double
  pub div : Double → Double → Double
  pub sqrt : Double → Double
  pub le : Double → Double → Bool
  pub lt : Double → Double → Bool
  pub trunc : Double → ℕ
  pub fixed : ℕ → Double → List ℕ

-- Comparison is total but for NaN, which `le` does not compare even with itself. Operations round to
-- nearest, so a quotient or a product does not pass a bound that is a whole number; whole numbers up to
-- 2 ^ 53 are exact. No rule is about a product of infinity and 0, or a quotient of infinities.
pub record Rounds (f : Doubles) : Type 0 where
  pub of_ordered : (n : ℕ) → n ≤ 2 ^ 53 → f.le (f.of n) (f.of n) ≡ true
  pub total :
      (x y : f.Double) → f.le x x ≡ true → f.le y y ≡ true → f.le x y ≡ false → f.le y x ≡ true
  pub div_nonneg :
      (x : f.Double) (n : ℕ)
      → 0 < n
      → n ≤ 2 ^ 53
      → f.le (f.of 0) x ≡ true
      → f.le (f.of 0) (f.div x (f.of n)) ≡ true
  pub div_le_one :
      (x : f.Double) (n : ℕ)
      → 0 < n
      → n ≤ 2 ^ 53
      → f.le x (f.of n) ≡ true
      → f.le (f.div x (f.of n)) (f.of 1) ≡ true
  pub mul_le :
      (x : f.Double) (n : ℕ)
      → n ≤ 2 ^ 53
      → f.le (f.of 0) x ≡ true
      → f.le x (f.of 1) ≡ true
      → f.le (f.mul x (f.of n)) (f.of n) ≡ true
  pub mul_nonneg :
      (x : f.Double) (n : ℕ)
      → n ≤ 2 ^ 53
      → f.le (f.of 0) x ≡ true
      → f.le x (f.of 1) ≡ true
      → f.le (f.of 0) (f.mul x (f.of n)) ≡ true
  pub trunc_le :
      (x : f.Double) (n : ℕ)
      → n ≤ 2 ^ 53
      → f.le (f.of 0) x ≡ true
      → f.le x (f.of n) ≡ true
      → f.trunc x ≤ n
