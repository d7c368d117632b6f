-- ===== src/Reporter/Reported.antt =====
-- The reports: what they say of a run, and what they never say.
use xcopy_block_io.Common.{◌%◌, ◌<◌, ◌≡◌, refl, List, [], length, u64_mod}
use xcopy_block_io.Errors.{get_count, get_total_errors}
use xcopy_block_io.Statistics.{get_snapshot}
use xcopy_block_io.Statistics.Buffer.{get_samples}
use xcopy_block_io.Statistics.Summary.{
  Report, report_all, latencies, codes, bytes_of, sum, report_all-Sums,
}
use xcopy_block_io.Reporter.{Figures, generate_report, error_lines}

-- The figures for a run of reports.
pub record Reported (rs : List Report) (f : Figures) : Type 0 where
  pub done : f.operations_completed ≡ length (latencies rs)
  pub lost : f.operations_failed ≡ length (codes rs)
  pub bytes : f.bytes_copied ≡ bytes_of rs % u64_mod
  pub latency : f.total_latency_ns ≡ sum (latencies rs) % u64_mod
  pub no_samples : f.samples ≡ []
  pub no_errors : f.total ≡ 0
  pub no_lines : error_lines f ≡ []

-- After fewer than 2 ^ 64 reports of commands, the final report has the counts of completed and failed
-- commands right, and the bytes and the total latency modulo 2 ^ 64. But whatever the run was, it works
-- the percentiles and the deviation out from no sample, its count of errors is 0, and it prints no
-- line on errors, however many commands failed.
pub generate_report_lem :
    (rs : List Report) → length rs < u64_mod → Reported rs (generate_report (report_all rs))
unfolding generate_report error_lines get_snapshot get_samples get_total_errors get_count
generate_report_lem rs h =
    let s = report_all-Sums rs h in
    record {
      done = s.done;
      lost = s.lost;
      bytes = s.bytes;
      latency = s.latency;
      no_samples = refl;
      no_errors = refl;
      no_lines = refl;
    }
