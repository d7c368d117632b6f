-- ===== src/Statistics.antt =====
-- src/statistics.cpp and include/statistics.h: the counters of a run and its latency samples.
-- Atomics are plain fields: a call below is not interrupted. `Extremes` takes the compare-exchange
-- loops of the minimum and the maximum apart. `Latency` has the figures in floating point.
pub mod Buffer
pub mod Window
pub mod Extremes
pub mod Summary
pub mod Latency
mod Tests
use xcopy_block_io.Common.{
  ℕ, zero, suc, ◌+◌, ◌-◌, ◌*◌, ◌/◌, ◌%◌, ◌^◌, List, [], ◌∷◌, Bool, true, false, ltb, ◌==◌,
  if◌then◌else◌, add64, u64_mod,
}
use xcopy_block_io.Errors
use xcopy_block_io.Errors.{ErrorCounter, record_error}
use Buffer.{LatencyBuffer, empty, record_sample, get_samples}

pub record Statistics : Type 0 where
  pub operations_completed : ℕ
  pub operations_failed : ℕ
  pub bytes_copied : ℕ
  pub total_latency_ns : ℕ
  pub min_latency_ns : ℕ
  pub max_latency_ns : ℕ
  pub latency_buffer : LatencyBuffer
  pub latency_samples : List ℕ
  pub error_counter : ErrorCounter

abbrev pub init : Statistics
init = record {
  operations_completed = 0;
  operations_failed = 0;
  bytes_copied = 0;
  total_latency_ns = 0;
  min_latency_ns = u64_mod - 1;
  max_latency_ns = 0;
  latency_buffer = empty;
  latency_samples = [];
  error_counter = Errors.init;
}

-- The loops that lower the minimum and raise the maximum, with nothing in between.
unfoldable pub lower : ℕ → ℕ → ℕ
lower current latency_ns = if ltb latency_ns current then latency_ns else current

unfoldable pub raise : ℕ → ℕ → ℕ
raise current latency_ns = if ltb current latency_ns then latency_ns else current

unfoldable pub record_completion : Statistics → ℕ → ℕ → Statistics
unfolding lower raise
record_completion s bytes latency_ns = record s {
  operations_completed = add64 s.operations_completed 1;
  bytes_copied = add64 s.bytes_copied bytes;
  total_latency_ns = add64 s.total_latency_ns latency_ns;
  min_latency_ns = lower s.min_latency_ns latency_ns;
  max_latency_ns = raise s.max_latency_ns latency_ns;
  latency_buffer = record_sample s.latency_buffer latency_ns;
}

unfoldable pub record_failure : Statistics → ℕ → Statistics
record_failure s status_code = record s {
  operations_failed = add64 s.operations_failed 1;
  error_counter = record_error s.error_counter status_code;
}

pub reset : Statistics → Statistics
reset s = record {
  operations_completed = 0;
  operations_failed = 0;
  bytes_copied = 0;
  total_latency_ns = 0;
  min_latency_ns = u64_mod - 1;
  max_latency_ns = 0;
  latency_buffer = Buffer.reset s.latency_buffer;
  latency_samples = [];
  error_counter = Errors.reset s.error_counter;
}

-- The snapshot given is overwritten, but for its latency buffer and its error counter.
unfoldable pub get_snapshot : Statistics → Statistics → Statistics
get_snapshot s snapshot = record snapshot {
  operations_completed = s.operations_completed;
  operations_failed = s.operations_failed;
  bytes_copied = s.bytes_copied;
  total_latency_ns = s.total_latency_ns;
  min_latency_ns = s.min_latency_ns;
  max_latency_ns = s.max_latency_ns;
  latency_samples = get_samples s.latency_buffer;
}
