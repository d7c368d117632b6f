-- ===== src/Reporter/Wellformed/Tests.antt =====
-- The report of a run at a concrete configuration, with thousandths for doubles.
use xcopy_block_io.Common.{refl, inr}
use xcopy_block_io.Double.Fixed.{thousandths, thousandths-Rounds}
use xcopy_block_io.Statistics
use xcopy_block_io.Statistics.{Statistics, get_snapshot}
use xcopy_block_io.Reporter.Text.{report_text}
use xcopy_block_io.Reporter.Wellformed.Finite.{no_percentiles}
use xcopy_block_io.Reporter.Wellformed.Whole.{IsReport, report_json, report_text-IsReport}
use xcopy_block_io.Reporter.Wellformed.Samples.{
  thousandths-Prints, all_finite, config, config-IsPrintable, stats, stats-IsBounded,
}

-- After 2.5 seconds.
report_text-IsReport_example :
    IsReport thousandths
      (report_json thousandths config 2500
        (get_snapshot stats Statistics.init)
        (no_percentiles thousandths))
      (report_text thousandths stats config 2500)
report_text-IsReport_example =
    report_text-IsReport thousandths thousandths-Rounds thousandths-Prints stats config 2500
      config-IsPrintable stats-IsBounded (all_finite 2500) (inr refl)
