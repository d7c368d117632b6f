-- ===== src/Main/Report.antt =====
-- A run from the start of the threads to the report that main prints of it.
use xcopy_block_io.Common.{
  ℕ, ◌^◌, ◌≡◌, ◌⊎◌, inl, inr, true, ltb, Bool-cases, if◌then◌else◌, arith, sub64, sym, subst,
}
use xcopy_block_io.Config.{Config}
use xcopy_block_io.Dma.{Alloc}
use xcopy_block_io.Double.{Doubles, Rounds}
use xcopy_block_io.Lba.{LbaManager}
use xcopy_block_io.Statistics
use xcopy_block_io.Statistics.{Statistics, get_snapshot}
use xcopy_block_io.Generator.{XcopyGenerator}
use xcopy_block_io.Reporter.Text.{report_text, human_report_text}
use xcopy_block_io.Reporter.Printed.{Prints}
use xcopy_block_io.Reporter.Wellformed.{IsPrintable}
use xcopy_block_io.Reporter.Wellformed.Finite.{no_percentiles}
use xcopy_block_io.Reporter.Wellformed.Whole.{IsReport, report_json, report_text-IsReport}
use xcopy_block_io.Poll.Start.{PollThreadManager}
use xcopy_block_io.Poll.System.{System, at_start, Run}
use xcopy_block_io.Poll.System.Reported.{init-IsBounded, Run-IsBounded}
use xcopy_block_io.Main.{elapsed_sec, final_report}

module _ (f : Doubles) (r : Rounds f) (z : Prints f) where
  elapsed_sec-IsFinite : (start end : ℕ) → z.IsFinite (elapsed_sec f start end)
  unfolding elapsed_sec
  elapsed_sec-IsFinite start end = z.finite_div _ 1000 (omega arith) (omega arith) (
      z.finite_div _ 1000000 (omega arith) (omega arith)
        (z.finite_of (sub64 end start) (omega arith)))

  elapsed_sec-cases :
      (start end : ℕ)
      → (f.le (elapsed_sec f start end) (f.of 0) ≡ true)
        ⊎ (f.le (f.ratio 1 (10 ^ 10)) (elapsed_sec f start end) ≡ true)
  unfolding elapsed_sec
  elapsed_sec-cases start end =
      let t = sub64 end start in
      elim (Bool-cases (ltb 0 t)) [
        | inl h ↦ inr (z.nanosecond t (ground (arith, h)) (omega arith))
        | inr h ↦
            let e : t ≡ 0 = ground (arith, h) in
            let low : f.le (f.of t) (f.of 0) ≡ true =
              subst (λ n. f.le (f.of n) (f.of 0) ≡ true) (sym e) (r.of_ordered 0 (omega arith)) in
            inl (
              z.div_nonpos _ 1000 (omega arith) (omega arith)
                (z.div_nonpos _ 1000000 (omega arith) (omega arith) low))
      ]

  module _ (alloc : Alloc) (g : XcopyGenerator) where
    -- On a machine with the arithmetic and the printing of `Rounds` and `Prints`, for a configuration with
    -- --json whose strings need no escape: after any turns of the threads from the workers `m` with new
    -- statistics, in any order, and whatever the clock reads before and after, main prints a report
    -- that is JSON, the object of its configuration, the elapsed time and the statistics at the end.
    pub final_report-IsReport :
        (config : Config) (m : PollThreadManager) (mgr : LbaManager) (s : System)
        (n start_time_ns end_time_ns : ℕ)
        → config.json_output ≡ true
        → IsPrintable config
        → Run alloc g (at_start m mgr Statistics.init) s n
        → IsReport f
            (report_json f config
              (elapsed_sec f start_time_ns end_time_ns)
              (get_snapshot s.stats Statistics.init)
              (no_percentiles f))
            (final_report f config s.stats start_time_ns end_time_ns)
    unfolding final_report
    final_report-IsReport config m mgr s n start end json p run =
        let e = elapsed_sec f start end in
        let b = Run-IsBounded alloc g (at_start m mgr Statistics.init) s n run init-IsBounded in
        let report =
          report_text-IsReport f r z s.stats config e p b (elapsed_sec-IsFinite start end)
            (elapsed_sec-cases start end) in
        subst
          (λ b.
            IsReport f
              (report_json f config e (get_snapshot s.stats Statistics.init) (no_percentiles f))
              (if b then report_text f s.stats config e else human_report_text f s.stats e))
          (sym json) report
