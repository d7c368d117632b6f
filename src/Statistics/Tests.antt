-- ===== src/Statistics/Tests.antt =====
-- Statistics: the theorems at concrete runs.
use xcopy_block_io.Double.Fixed.{thousandths, thousandths-Rounds}
use xcopy_block_io.Statistics
use xcopy_block_io.Statistics.{Statistics}
use xcopy_block_io.Statistics.Buffer.{get_samples, collect}
use xcopy_block_io.Statistics.Latency.{get_percentile, percentile_at, read, interpolate}
use xcopy_block_io.Statistics.Latency.Percentile.{Percentile, get_percentile_lem}
use xcopy_block_io.Common.{
  some, if◌then◌else◌, ◌==◌, ◌%◌, ◌≤◌, ◌≡◌, refl, ◌⊎◌, List, [], ◌∷◌, All, arith, ℕ_discrete,
}
use xcopy_block_io.Statistics.Buffer.{buffer_size}
use xcopy_block_io.Statistics.Window.{record_samples, record_samples-window}
use xcopy_block_io.Statistics.Extremes.{
  System, Reach, outside, comparing, update, start, IsOneOf, load, exchange, fail, here, later,
  shared_minimum,
}
use xcopy_block_io.Statistics.Summary.{Report, completed, failed, report_all, Sums, report_all-Sums}

-- Two commands of 4096 bytes and a failure with status code 7 between them; the latest first.
abbrev reports : List Report
reports = completed 4096 250 ∷ failed 7 ∷ completed 4096 900 ∷ []

report_all-Sums_example : Sums reports (report_all reports)
report_all-Sums_example = report_all-Sums reports (omega arith)

window_example : (record_samples (30 ∷ 20 ∷ 10 ∷ [])).samples (1 % buffer_size) ≡ 20
window_example = record_samples-window (30 ∷ 20 ∷ 10 ∷ []) 1 20 (omega arith) (omega arith) refl

-- Threads 0 and 1 load the same minimum; thread 1 lowers it to 40, and the exchange of 0 fails.
abbrev raced : System
raced = record {
  min_latency_ns = 40;
  pc =
      update
        (update (update (update (λ i. outside) 0 (comparing 70 100)) 1 (comparing 40 100)) 1
          outside)
        0 (comparing 70 40);
  recorded = 40 ∷ [];
}

raced_reached : Reach (start 100) raced
unfolding ℕ_discrete
raced_reached =
    later
      (later (later (later here (load 0 70 refl)) (load 1 40 refl))
        (exchange 1 40 100 refl (omega arith) refl))
      (fail 0 70 100 refl (omega arith))

shared_minimum_example :
    (raced.min_latency_ns ≤ 100)
    × All (λ x. raced.min_latency_ns ≤ x) (40 ∷ [])
    × ((raced.min_latency_ns ≡ 100) ⊎ IsOneOf raced.min_latency_ns (40 ∷ []))
shared_minimum_example = shared_minimum 100 raced_reached

-- Two samples in the buffer.
abbrev two_samples : Statistics
two_samples = record Statistics.init {
  latency_buffer = record {
    samples = λ i. if i == 0 then 900 else 250;
    write_index = 2;
    sample_count = 2;
  };
}

get_percentile_example : Percentile thousandths (900 ∷ 250 ∷ []) 99000 (some 893500)
unfolding get_samples collect get_percentile percentile_at read interpolate
get_percentile_example = get_percentile_lem thousandths thousandths-Rounds 99000 two_samples refl
