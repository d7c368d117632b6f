-- ===== src/Reporter/Printed.antt =====
-- How numbers are printed in the report: the decimal text of an unsigned number is a JSON number, and so
-- is that of a double, if it is finite, by what `Prints` says of the machine and its library.
use xcopy_block_io.Common.{
  ℕ, zero, suc, ◌+◌, ◌*◌, ◌/◌, ◌%◌, ◌^◌, ◌≤◌, ◌<◌, ◌≡◌, ◌≢◌, refl, inl, inr, List, [], ◌∷◌, ◌++◌,
  true, arith, ltb, decimal, u64_mod, Bool-cases, ap, sym, subst,
}
use xcopy_block_io.Double.{Doubles}
use xcopy_block_io.Reporter.Json.{IsNumber, IsWhole, nought, positive, whole, are_digits, is_digit}

-- Of finite doubles: whole numbers of 64 bits are finite, and so is a quotient by a positive one,
-- or of a number between 0 and 2 ^ 64 by one that is not below 10 ^ -10; `std::fixed` prints them with
-- the digits asked for. A nanosecond in seconds, rounded twice, is not below 10 ^ -10.
pub record Prints (f : Doubles) : Type 1 where
  pub IsFinite : f.Double → Type 0
  pub of_le : (n m : ℕ) → n ≤ m → m ≤ u64_mod → f.le (f.of n) (f.of m) ≡ true
  pub div_le :
      (x : f.Double) (n m : ℕ)
      → 0 < m
      → m ≤ u64_mod
      → n ≤ u64_mod
      → f.le (f.of 0) x ≡ true
      → f.le x (f.of n) ≡ true
      → f.le (f.div x (f.of m)) (f.of n) ≡ true
  pub finite_of : (n : ℕ) → n < u64_mod → IsFinite (f.of n)
  pub finite_div :
      (x : f.Double) (n : ℕ) → 0 < n → n ≤ u64_mod → IsFinite x → IsFinite (f.div x (f.of n))
  pub finite_rate :
      (x e : f.Double)
      → f.le (f.of 0) x ≡ true
      → f.le x (f.of u64_mod) ≡ true
      → f.le (f.ratio 1 (10 ^ 10)) e ≡ true
      → IsFinite (f.div x e)
  pub div_nonpos :
      (x : f.Double) (n : ℕ)
      → 0 < n
      → n ≤ u64_mod
      → f.le x (f.of 0) ≡ true
      → f.le (f.div x (f.of n)) (f.of 0) ≡ true
  pub nanosecond :
      (t : ℕ)
      → 0 < t
      → t < u64_mod
      → f.le (f.ratio 1 (10 ^ 10)) (f.div (f.div (f.of t) (f.of 1000000)) (f.of 1000)) ≡ true
  pub printed : (k : ℕ) (x : f.Double) → 0 < k → IsFinite x → IsNumber (f.fixed k x)

-- A digit that is not 0, and digits.
Leading : List ℕ → Type 0
Leading t =
    (c : ℕ) × (cs : List ℕ) × (t ≡ c ∷ cs) × (is_digit c ≡ true) × (c ≢ 48) × (are_digits cs ≡ true)

are_digits-append :
    (cs : List ℕ) (d : ℕ)
    → are_digits cs ≡ true
    → is_digit d ≡ true
    → are_digits (cs ++ (d ∷ [])) ≡ true
are_digits-append [] d h e = ground (arith, e)
are_digits-append (c ∷ cs) d h e =
    let (a, b) : (is_digit c ≡ true) × (are_digits cs ≡ true) =
      (ground (arith, h), ground (arith, h)) in
    ground (arith, a, are_digits-append cs d b e)

decimal-Leading : (fuel n : ℕ) → 0 < n → n < 10 ^ fuel → Leading (decimal fuel n)
unfolding decimal Leading
decimal-Leading zero n pos h = absurd (omega arith)
decimal-Leading (suc fuel) n pos h = elim (Bool-cases (ltb n 10)) [
  | inl e ↦
      let small : n < 10 = ground (arith, e) in
      rw (e, decimal) (48 + n, [], refl, ground arith, (λ z. omega (arith, z)), refl)
  | inr e ↦
      let big : 10 ≤ n = ground (arith, e) in
      let ten : 10 ^ suc fuel ≡ 10 * 10 ^ fuel = omega arith in
      let (c, cs, at, digit, lead, digits) =
        decimal-Leading fuel (n / 10) (omega arith) (omega (arith, ten, h)) in
      let d : is_digit (48 + n % 10) ≡ true = ground arith in
      rw (e, decimal)
        (
          c,
          cs ++ ((48 + n % 10) ∷ []),
          ap (λ t. t ++ ((48 + n % 10) ∷ [])) at,
          digit,
          lead,
          are_digits-append cs (48 + n % 10) digits d,
        )
]

pub decimal-IsWhole : (fuel n : ℕ) → n < 10 ^ suc fuel → IsWhole (decimal (suc fuel) n)
unfolding Leading decimal
decimal-IsWhole fuel zero h = nought
decimal-IsWhole fuel (suc n) h =
    let (c, cs, at, digit, pos, digits) = decimal-Leading (suc fuel) (suc n) (omega arith) h in
    subst IsWhole (sym at) (positive digit pos digits)

-- 20 digits are enough for 64 bits.
pub decimal-IsNumber : (n : ℕ) → n < u64_mod → IsNumber (decimal 20 n)
decimal-IsNumber n h = whole (decimal-IsWhole 19 n (omega arith))
