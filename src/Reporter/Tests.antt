-- ===== src/Reporter/Tests.antt =====
-- The report of a run with a failure for lack of room.
use xcopy_block_io.Common.{List, [], ◌∷◌, arith}
use xcopy_block_io.Statistics.Summary.{Report, completed, failed, report_all}
use xcopy_block_io.Reporter.{generate_report}
use xcopy_block_io.Reporter.Reported.{Reported, generate_report_lem}

abbrev reports : List Report
reports = completed 4096 250 ∷ failed 7 ∷ completed 4096 900 ∷ []

generate_report_example : Reported reports (generate_report (report_all reports))
generate_report_example = generate_report_lem reports (omega arith)
