-- ===== src/Reporter.antt =====
-- src/json_reporter.cpp: the figures that the two reports take from the statistics.
-- Figures divided in floating point are kept here as the whole numbers that they are made of; `Text` has
-- the texts.
pub mod Reported
pub mod Text
pub mod Json
pub mod Printed
pub mod Wellformed
mod Tests
use xcopy_block_io.Common.{ℕ, List, [], ◌∷◌, ◌++◌, ltb, if◌then◌else◌}
use xcopy_block_io.Errors.{get_count, get_total_errors}
use xcopy_block_io.Statistics
use xcopy_block_io.Statistics.{Statistics, get_snapshot}
use xcopy_block_io.Statistics.Buffer.{get_samples}

-- `samples` is what the percentiles and the deviation are worked out from.
pub record Figures : Type 0 where
  pub operations_completed : ℕ
  pub operations_failed : ℕ
  pub bytes_copied : ℕ
  pub total_latency_ns : ℕ
  pub min_latency_ns : ℕ
  pub max_latency_ns : ℕ
  pub samples : List ℕ
  pub total : ℕ
  pub saturation : ℕ
  pub insufficient_resources : ℕ

-- Both reports read them from a snapshot of their own.
unfoldable pub generate_report : Statistics → Figures
generate_report stats =
    let snapshot = get_snapshot stats Statistics.init in
    record {
      operations_completed = snapshot.operations_completed;
      operations_failed = snapshot.operations_failed;
      bytes_copied = snapshot.bytes_copied;
      total_latency_ns = snapshot.total_latency_ns;
      min_latency_ns = snapshot.min_latency_ns;
      max_latency_ns = snapshot.max_latency_ns;
      samples = get_samples snapshot.latency_buffer;
      total = get_total_errors snapshot.error_counter;
      saturation = get_count snapshot.error_counter 0x0807;
      insufficient_resources = get_count snapshot.error_counter 0x0189;
    }

pub data ErrorLine : Type 0 where
  total_line queue_full_line insufficient_line : ℕ → ErrorLine

-- The lines on errors in the report for humans.
pub error_lines : Figures → List ErrorLine
error_lines f =
    let queue_full = if ltb 0 f.saturation then queue_full_line f.saturation ∷ [] else [] in
    let insufficient =
      if ltb 0 f.insufficient_resources
      then insufficient_line f.insufficient_resources ∷ []
      else [] in
    if ltb 0 f.total then total_line f.total ∷ (queue_full ++ insufficient) else []
