-- ===== src/Reporter/Wellformed/Samples.antt =====
-- For the tests: the printing of thousandths, a configuration and the statistics of a run.
use native.Mathlib.Nat.{div-le_of_le-mul}
use xcopy_block_io.Common.{
  ℕ, zero, suc, ◌+◌, ◌*◌, ◌/◌, ◌%◌, ◌^◌, ◌≤◌, ◌<◌, ◌≡◌, refl, [], ◌∷◌, true, arith, mul_mono,
}
use xcopy_block_io.Config.{Config, default_config}
use xcopy_block_io.Double.Fixed.{thousandths, decimals}
use xcopy_block_io.Statistics
use xcopy_block_io.Statistics.{Statistics, get_snapshot}
use xcopy_block_io.Reporter.Json.{IsNumber, fraction, are_digits, is_digit}
use xcopy_block_io.Reporter.Printed.{Prints, decimal-IsWhole}
use xcopy_block_io.Reporter.Wellformed.{IsPrintable}
use xcopy_block_io.Reporter.Wellformed.Finite.{IsBounded}

below_pow : (x : ℕ) → x < 10 ^ suc x
below_pow zero = omega arith
below_pow (suc x) =
    let ten : 10 ^ suc (suc x) ≡ 10 * 10 ^ suc x = omega arith in omega (arith, ten, below_pow x)

decimals-are_digits : (k r : ℕ) → r < 1000 → are_digits (decimals k r) ≡ true
unfolding decimals
decimals-are_digits zero r h = refl
decimals-are_digits (suc k) r h =
    let digit : is_digit (48 + (r * 10) / 1000) ≡ true = ground arith in
    ground (arith, digit, decimals-are_digits k ((r * 10) % 1000) (omega arith))

fixed-IsNumber : (k x : ℕ) → 0 < k → IsNumber (thousandths.fixed k x)
unfolding decimals
fixed-IsNumber zero x h = absurd (omega arith)
fixed-IsNumber (suc k) x h =
    let r = x % 1000 in
    fraction _ _ _ (decimal-IsWhole x (x / 1000) (omega (arith, below_pow x))) (ground arith)
      (decimals-are_digits k ((r * 10) % 1000) (omega arith))

pub thousandths-Prints : Prints thousandths
thousandths-Prints = record {
  IsFinite = λ x. Unit;
  of_le = λ n m h small. ground arith;
  div_le = λ x n m pos few small low h.
      let most : x * 1000 ≤ (n * 1000) * 1000 = ground (arith, h) in
      let more : 1 * ((n * 1000) * 1000) ≤ m * ((n * 1000) * 1000) =
        mul_mono 1 m ((n * 1000) * 1000) (omega arith) in
      let bound : (x * 1000) / (m * 1000) ≤ n * 1000 =
        div-le_of_le-mul (m * 1000) (omega (arith, most, more)) in
      ground (arith, bound);
  finite_of = λ n h. tt;
  finite_div = λ x n pos few h. tt;
  finite_rate = λ x e low high h. tt;
  div_nonpos = λ x n pos few h. ground (arith, h);
  nanosecond = λ t pos few. ground arith;
  printed = λ k x pos h. fixed-IsNumber k x pos;
}

pub all_finite : (x : ℕ) → thousandths-Prints.IsFinite x
unfolding thousandths-Prints
all_finite x = tt

abbrev pub config : Config
config = record default_config {
  traddrs = "192.168.0.1" ∷ "192.168.0.2" ∷ [];
  hostnqn = "nqn.host";
}

pub config-IsPrintable : IsPrintable config
config-IsPrintable = record {
  traddrs = (refl, (refl, tt));
  trsvcid = refl;
  hostnqn = refl;
  runtime_sec = omega arith;
  iodepth = omega arith;
  num_cores = omega arith;
  max_ranges = omega arith;
  dst_nsid = omega arith;
}

abbrev pub stats : Statistics
stats = record Statistics.init {
  operations_completed = 2;
  operations_failed = 1;
  bytes_copied = 8192;
  total_latency_ns = 1150;
  min_latency_ns = 250;
  max_latency_ns = 900;
}

pub stats-IsBounded : IsBounded stats
stats-IsBounded = record {
  operations_completed = omega arith;
  operations_failed = omega arith;
  bytes_copied = omega arith;
  total_latency_ns = omega arith;
  min_latency_ns = omega arith;
  max_latency_ns = omega arith;
}
