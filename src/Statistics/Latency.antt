-- ===== src/Statistics/Latency.antt =====
-- The figures of src/statistics.cpp in floating point: percentiles, deviation, averages, throughput.
pub mod Percentile
use xcopy_block_io.Common.{
  ℕ, zero, suc, ◌+◌, ◌-◌, ◌*◌, List, [], ◌∷◌, Bool, true, false, Option, none, some, leb, ltb, ◌==◌,
  if◌then◌else◌, length, get_elem?,
}
use xcopy_block_io.Double.{Doubles}
use xcopy_block_io.Statistics.{Statistics}
use xcopy_block_io.Statistics.Buffer.{get_samples}

unfoldable pub insert : ℕ → List ℕ → List ℕ
insert x [] = x ∷ []
insert x (y ∷ ys) = let rest = insert x ys in if leb x y then x ∷ y ∷ ys else y ∷ rest

-- What `std::sort` leaves.
unfoldable pub sort : List ℕ → List ℕ
unfolding insert
sort [] = []
sort (x ∷ xs) = insert x (sort xs)

module _ (f : Doubles) where
  -- An element converted; a read out of range, which the language leaves undefined, is `none`.
  unfoldable pub read : List ℕ → ℕ → Option f.Double
  read xs i = elim (get_elem? xs i) [ none ↦ none | some x ↦ some (f.of x) ]

  -- Between the samples around a fractional index.
  unfoldable pub interpolate : f.Double → ℕ → f.Double → f.Double → f.Double
  interpolate index lower low high =
      let fraction = f.sub index (f.of lower) in
      f.add (f.mul low (f.sub (f.of 1) fraction)) (f.mul high fraction)

  unfoldable pub percentile_at : List ℕ → f.Double → Option f.Double
  unfolding read interpolate
  percentile_at sorted index =
      let lower = f.trunc index in
      let upper = lower + 1 in
      if leb (length sorted) upper then read sorted lower else elim (read sorted lower) [
        | none ↦ none
        | some low ↦ elim (read sorted upper) [
          | none ↦ none
          | some high ↦ some (interpolate index lower low high)
        ]
      ]

  unfoldable pub get_percentile : Statistics → f.Double → Option f.Double
  unfolding percentile_at sort
  get_percentile s p =
      let sorted = sort (get_samples s.latency_buffer) in
      let last = length sorted - 1 in
      if length sorted == 0
      then some (f.of 0)
      else (if f.le p (f.of 0)
          then read sorted 0
          else (if f.le (f.of 100) p
              then read sorted last
              else percentile_at sorted (f.mul (f.div p (f.of 100)) (f.of last))))

  unfoldable pub get_p99 : Statistics → Option f.Double
  unfolding get_percentile
  get_p99 s = get_percentile s (f.of 99)

  unfoldable pub get_p99_9 : Statistics → Option f.Double
  unfolding get_percentile
  get_p99_9 s = get_percentile s (f.ratio 999 10)

  unfoldable pub get_p99_99 : Statistics → Option f.Double
  unfolding get_percentile
  get_p99_99 s = get_percentile s (f.ratio 9999 100)

  unfoldable pub get_avg_latency_ns : Statistics → f.Double
  get_avg_latency_ns s =
      if s.operations_completed == 0
      then f.of 0
      else f.div (f.of s.total_latency_ns) (f.of s.operations_completed)

  unfoldable pub get_avg_latency_us : Statistics → f.Double
  unfolding get_avg_latency_ns
  get_avg_latency_us s = f.div (get_avg_latency_ns s) (f.of 1000)

  -- The loop over the samples, with the sum so far.
  unfoldable pub sum_sq_diff : f.Double → List ℕ → f.Double → f.Double
  sum_sq_diff avg [] sum = sum
  sum_sq_diff avg (sample ∷ rest) sum =
      let diff = f.sub (f.of sample) avg in sum_sq_diff avg rest (f.add sum (f.mul diff diff))

  unfoldable pub get_std_dev : Statistics → f.Double
  unfolding sum_sq_diff get_avg_latency_ns
  get_std_dev s =
      let samples = get_samples s.latency_buffer in
      let sum = sum_sq_diff (get_avg_latency_ns s) samples (f.of 0) in
      if s.operations_completed == 0
      then f.of 0
      else (if length samples == 0 then f.of 0 else f.sqrt (f.div sum (f.of (length samples))))

  unfoldable pub get_throughput_iops : f.Double → Statistics → f.Double
  get_throughput_iops elapsed_sec s =
      if f.le elapsed_sec (f.of 0) then f.of 0 else f.div (f.of s.operations_completed) elapsed_sec

  unfoldable pub get_throughput_mbps : f.Double → Statistics → f.Double
  get_throughput_mbps elapsed_sec s =
      let mb = f.div (f.of s.bytes_copied) (f.of (1024 * 1024)) in
      if f.le elapsed_sec (f.of 0) then f.of 0 else f.div mb elapsed_sec
