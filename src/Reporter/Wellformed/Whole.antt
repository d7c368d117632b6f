-- ===== src/Reporter/Wellformed/Whole.antt =====
-- JsonReporter::generate_report writes JSON: the figures, and the whole text.
use xcopy_block_io.Common.{
  ℕ, ◌^◌, ◌≡◌, refl, ◌⊎◌, List, [], ◌∷◌, true, Option, some, arith, codes, write,
}
use xcopy_block_io.Config.{Config}
use xcopy_block_io.Double.{Doubles, Rounds}
use xcopy_block_io.Errors.{get_count, get_total_errors}
use xcopy_block_io.Statistics
use xcopy_block_io.Statistics.{Statistics, get_snapshot}
use xcopy_block_io.Statistics.Buffer.{get_samples, collect}
use xcopy_block_io.Statistics.Latency.{
  get_percentile, get_p99, get_p99_9, get_p99_99, get_std_dev, get_avg_latency_us,
  get_throughput_iops, get_throughput_mbps,
}
use xcopy_block_io.Reporter.Json.{
  Json, object, Members, last, member, Spaces, no_space, space, IsNumber, a_number, an_object,
  Pairs, IsText,
}
use xcopy_block_io.Reporter.Text.{
  number, us, Percentiles, percentiles, runtime, throughput, latency, statistics, configuration,
  errors, report_text,
}
use xcopy_block_io.Reporter.Printed.{Prints, decimal-IsNumber}
use xcopy_block_io.Reporter.Wellformed.Finite.{
  IsBounded, IsMeasured, IsTimed, no_percentiles, timed, measured,
}
use xcopy_block_io.Reporter.Wellformed.{
  skip, skipped, entry, last_entry, num, IsPrintable, configuration_json, configuration-Pairs,
  errors_json, errors-Pairs,
}

module _ (f : Doubles) where
  fixed : ℕ → f.Double → Json
  fixed k x = Json.number (f.fixed k x)

  runtime_json : f.Double → Json
  runtime_json elapsed_sec = object (last (codes "elapsed_sec") (fixed 3 elapsed_sec))

  throughput_json : f.Double → Statistics → Json
  throughput_json elapsed_sec s = object (
      member (codes "iops") (fixed 2 (get_throughput_iops f elapsed_sec s))
        (last (codes "mbps") (fixed 2 (get_throughput_mbps f elapsed_sec s))))

  latency_json : Statistics → Percentiles f → Json
  latency_json s p = object (
      member (codes "avg_us") (fixed 2 (get_avg_latency_us f s)) (
        member (codes "min_us") (fixed 2 (us f (f.of s.min_latency_ns))) (
          member (codes "max_us") (fixed 2 (us f (f.of s.max_latency_ns))) (
            member (codes "std_dev_us") (fixed 2 (us f (get_std_dev f s))) (
              member (codes "p99_us") (fixed 2 (us f p.p99)) (
                member (codes "p99_9_us") (fixed 2 (us f p.p99_9))
                  (last (codes "p99_99_us") (fixed 2 (us f p.p99_99)))))))))

  statistics_json : f.Double → Statistics → Percentiles f → Json
  statistics_json elapsed_sec s p = object (
      member (codes "operations_completed") (num s.operations_completed) (
        member (codes "operations_failed") (num s.operations_failed) (
          member (codes "bytes_copied") (num s.bytes_copied) (
            member (codes "throughput") (throughput_json elapsed_sec s) (
              member (codes "latency") (latency_json s p)
                (last (codes "errors") (errors_json s)))))))

  runtime-Pairs :
      (e : f.Double) (ms : Members) (r u : List ℕ)
      → IsNumber (f.fixed 3 e)
      → Pairs ms (skip r) u
      → Pairs (member (codes "runtime") (runtime_json e) ms) (skip (runtime f e r)) u
  unfolding runtime runtime_json fixed skip
  runtime-Pairs e ms r u a rest =
      entry refl (an_object (skipped _) (last_entry refl (a_number a) (skipped _))) rest

  throughput-Pairs :
      (e : f.Double) (s : Statistics) (ms : Members) (r u : List ℕ)
      → IsNumber (f.fixed 2 (get_throughput_iops f e s))
      → IsNumber (f.fixed 2 (get_throughput_mbps f e s))
      → Pairs ms (skip r) u
      → Pairs (member (codes "throughput") (throughput_json e s) ms) (skip (throughput f e s r)) u
  unfolding throughput throughput_json fixed skip
  throughput-Pairs e s ms r u a b rest =
      entry refl
        (an_object (skipped _) (entry refl (a_number a) (last_entry refl (a_number b) (skipped _))))
        rest

  module _ (z : Prints f) where
    us-IsNumber : (x : f.Double) → z.IsFinite x → IsNumber (f.fixed 2 (us f x))
    us-IsNumber x h =
        z.printed 2 (us f x) (omega arith) (z.finite_div x 1000 (omega arith) (omega arith) h)

    latency-Pairs :
        (s : Statistics) (p : Percentiles f) (ms : Members) (r u : List ℕ)
        → IsMeasured f z s p
        → Pairs ms (skip r) u
        → Pairs (member (codes "latency") (latency_json s p) ms) (skip (latency f s p r)) u
    unfolding latency latency_json fixed skip
    latency-Pairs s p ms r u h rest =
        entry refl
          (an_object (skipped _) (
            entry refl (a_number (z.printed 2 _ (omega arith) h.avg)) (
              entry refl (a_number (us-IsNumber _ h.least)) (
                entry refl (a_number (us-IsNumber _ h.most)) (
                  entry refl (a_number (us-IsNumber _ h.std_dev)) (
                    entry refl (a_number (us-IsNumber _ h.p99)) (
                      entry refl (a_number (us-IsNumber _ h.p99_9))
                        (last_entry refl (a_number (us-IsNumber _ h.p99_99)) (skipped _)))))))))
          rest

    statistics-Pairs :
        (e : f.Double) (s : Statistics) (p : Percentiles f) (r u : List ℕ)
        → IsBounded s
        → IsMeasured f z s p
        → IsTimed f z e s
        → IsNumber (number (get_total_errors s.error_counter))
        → IsNumber (number (get_count s.error_counter 0x0807))
        → IsNumber (number (get_count s.error_counter 0x0189))
        → Spaces r (125 ∷ u)
        → Pairs (last (codes "statistics") (statistics_json e s p)) (skip (statistics f e s p r)) u
    unfolding statistics statistics_json num skip
    statistics-Pairs e s p r u b m t x y w end =
        let after = write (codes "  }\n" ∷ []) r in
        let errs = errors-Pairs s after (10 ∷ r) x y w (skipped _) in
        let lats = latency-Pairs s p _ (errors s after) (10 ∷ r) m errs in
        let rates =
          throughput-Pairs e s _ (latency f s p (errors s after)) (10 ∷ r)
            (z.printed 2 _ (omega arith) t.iops) (z.printed 2 _ (omega arith) t.mbps) lats in
        last_entry refl
          (an_object (skipped _) (
            entry refl (a_number (decimal-IsNumber _ b.operations_completed)) (
              entry refl (a_number (decimal-IsNumber _ b.operations_failed))
                (entry refl (a_number (decimal-IsNumber _ b.bytes_copied)) rates))))
          (space refl end)

  -- The report as a value.
  pub report_json : Config → f.Double → Statistics → Percentiles f → Json
  report_json c e s p = object (
      member (codes "configuration") (configuration_json c) (
        member (codes "runtime") (runtime_json e)
          (last (codes "statistics") (statistics_json e s p))))

  -- What is written is the JSON text of this value.
  pub record IsReport (j : Json) (written : Option (List ℕ)) : Type 0 where
    pub content : List ℕ
    pub is_written : written ≡ some content
    pub is_json : IsText j content

  whole-IsText :
      (z : Prints f) (c : Config) (e : f.Double) (s : Statistics)
      → IsPrintable c
      → z.IsFinite e
      → IsBounded (get_snapshot s Statistics.init)
      → IsTimed f z e (get_snapshot s Statistics.init)
      → IsText (report_json c e (get_snapshot s Statistics.init) (no_percentiles f)) (
          write (codes "{\n" ∷ []) (
            configuration c (
              runtime f e (
                statistics f e
                  (get_snapshot s Statistics.init)
                  (no_percentiles f)
                  (write (codes "}\n" ∷ []) [])))))
  unfolding IsText report_json get_snapshot get_total_errors get_count
  whole-IsText z c e s p h b t =
      let snapshot = get_snapshot s Statistics.init in
      let nought = decimal-IsNumber 0 (omega arith) in
      let duration = z.printed 3 e (omega arith) h in
      let stats =
        statistics-Pairs z e snapshot (no_percentiles f) _ _ b (measured f z s b) t nought nought
          nought no_space in
      let run = runtime-Pairs e _ _ _ duration stats in
      let whole = an_object (space refl (skipped _)) (configuration-Pairs c _ _ _ p run) in
      (_, whole, space refl no_space)

  -- On a machine with the arithmetic and the printing of `Rounds` and `Prints`, for a configuration whose
  -- strings need no escape, counters of 64 bits and a finite elapsed time that is not positive or at
  -- least 10 ^ -10, generate_report writes a text, which is JSON: the object with the sections
  -- configuration, runtime and statistics, their members in the order of the code, each with the value
  -- of that name, taken from a snapshot, and with percentiles of 0.
  pub report_text-IsReport :
      (r : Rounds f) (z : Prints f) (s : Statistics) (c : Config) (e : f.Double)
      → IsPrintable c
      → IsBounded s
      → z.IsFinite e
      → (f.le e (f.of 0) ≡ true) ⊎ (f.le (f.ratio 1 (10 ^ 10)) e ≡ true)
      → IsReport
          (report_json c e (get_snapshot s Statistics.init) (no_percentiles f))
          (report_text f s c e)
  unfolding report_text percentiles get_p99 get_p99_9 get_p99_99 get_percentile get_samples collect
      get_snapshot
  report_text-IsReport r z s c e p b h time =
      let b' : IsBounded (get_snapshot s Statistics.init) = record {
        operations_completed = b.operations_completed;
        operations_failed = b.operations_failed;
        bytes_copied = b.bytes_copied;
        total_latency_ns = b.total_latency_ns;
        min_latency_ns = b.min_latency_ns;
        max_latency_ns = b.max_latency_ns;
      } in
      let t = timed f r z e (get_snapshot s Statistics.init) b' time in
      record { content = _; is_written = refl; is_json = whole-IsText z c e s p h b' t }
