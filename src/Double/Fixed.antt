-- ===== src/Double/Fixed.antt =====
-- Thousandths, rounded down, in place of doubles: what the tests take the machine's arithmetic to be.
use xcopy_block_io.Common.{
  mul_mono, decimal, ℕ, zero, suc, ◌+◌, ◌*◌, ◌/◌, ◌%◌, ◌≤◌, List, [], ◌∷◌, ◌++◌, leb, ltb,
  if◌then◌else◌, arith, ◌-◌,
}
use native.Mathlib.Nat.{div-le_of_le-mul}
use xcopy_block_io.Double.{Doubles, Rounds}

-- The greatest root of `n` up to `r`.
pub root : ℕ → ℕ → ℕ
root n zero = 0
root n (suc r) = let rest = root n r in if leb (suc r * suc r) n then suc r else rest

-- `k` digits of `r` thousandths.
unfoldable pub decimals : ℕ → ℕ → List ℕ
decimals zero r = []
decimals (suc k) r = (48 + (r * 10) / 1000) ∷ decimals k ((r * 10) % 1000)

abbrev pub thousandths : Doubles
thousandths = record {
  Double = ℕ;
  of = λ n. n * 1000;
  ratio = λ n d. (n * 1000) / d;
  add = λ x y. x + y;
  sub = λ x y. x - y;
  mul = λ x y. (x * y) / 1000;
  div = λ x y. (x * 1000) / y;
  sqrt = λ x. root (x * 1000) (x * 1000);
  le = leb;
  lt = ltb;
  trunc = λ x. x / 1000;
  fixed = λ k x. decimal (suc x) (x / 1000) ++ (46 ∷ decimals k (x % 1000));
}

pub thousandths-Rounds : Rounds thousandths
thousandths-Rounds = record {
  of_ordered = λ n small. ground arith;
  total = λ x y a b h. ground (arith, h);
  div_nonneg = λ x n pos small h. ground arith;
  div_le_one = λ x n pos exact h.
      let bound : (x * 1000) / (n * 1000) ≤ 1000 =
        div-le_of_le-mul (n * 1000) (ground (arith, h)) in
      ground (arith, bound);
  mul_le = λ x n exact h k.
      let small : x ≤ 1000 = ground (arith, k) in
      let bound : (x * (n * 1000)) / 1000 ≤ n * 1000 =
        div-le_of_le-mul 1000 (mul_mono x 1000 (n * 1000) small) in
      ground (arith, bound);
  mul_nonneg = λ x n exact h k. ground arith;
  trunc_le = λ x n small low h. ground (arith, h);
}
