-- ===== src/Reporter/Text.antt =====
-- src/json_reporter.cpp: the texts of the two reports, as they are written to the stream. A report whose
-- percentiles read a sample out of range, which the language leaves undefined, is `none`.
use Prim.Native.String.{String}
use xcopy_block_io.Common.{
  ℕ, ◌+◌, ◌-◌, ◌*◌, List, [], ◌∷◌, Option, none, some, ltb, if◌then◌else◌, length, codes, decimal,
  write,
}
use xcopy_block_io.Config.{Config}
use xcopy_block_io.Double.{Doubles}
use xcopy_block_io.Errors.{get_count, get_total_errors}
use xcopy_block_io.Statistics
use xcopy_block_io.Statistics.{Statistics, get_snapshot}
use xcopy_block_io.Statistics.Latency.{
  get_p99, get_p99_9, get_p99_99, get_std_dev, get_avg_latency_us, get_throughput_iops,
  get_throughput_mbps,
}

-- An unsigned number of at most 64 bits.
abbrev pub number : ℕ → List ℕ
number n = decimal 20 n

-- The loop over the addresses, from index `i` of `size` on.
unfoldable pub traddrs_from : ℕ → ℕ → List String → List ℕ → List ℕ
traddrs_from size i [] rest = rest
traddrs_from size i (t ∷ ts) rest =
    let after = traddrs_from size (i + 1) ts rest in
    write (codes "\"" ∷ codes t ∷ codes "\"" ∷ [])
      (if ltb i (size - 1) then write (codes ", " ∷ []) after else after)

unfoldable pub configuration : Config → List ℕ → List ℕ
unfolding traddrs_from
configuration c rest = write (codes "  \"configuration\": {\n" ∷ codes "    \"traddrs\": [" ∷ []) (
    traddrs_from (length c.traddrs) 0 c.traddrs (
      write
        (codes "],\n"
          ∷ codes "    \"trsvcid\": \""
          ∷ codes c.trsvcid
          ∷ codes "\",\n"
          ∷ codes "    \"hostnqn\": \""
          ∷ codes c.hostnqn
          ∷ codes "\",\n"
          ∷ codes "    \"runtime_sec\": "
          ∷ number c.runtime_sec
          ∷ codes ",\n"
          ∷ codes "    \"iodepth\": "
          ∷ number c.iodepth
          ∷ codes ",\n"
          ∷ codes "    \"num_cores\": "
          ∷ number c.num_cores
          ∷ codes ",\n"
          ∷ codes "    \"max_ranges\": "
          ∷ number c.max_ranges
          ∷ codes ",\n"
          ∷ codes "    \"dst_nsid\": "
          ∷ number c.dst_nsid
          ∷ codes "\n"
          ∷ codes "  },\n"
          ∷ [])
        rest))

unfoldable pub errors : Statistics → List ℕ → List ℕ
errors s rest =
    write
      (codes "    \"errors\": {\n"
        ∷ codes "      \"total\": "
        ∷ number (get_total_errors s.error_counter)
        ∷ codes ",\n"
        ∷ codes "      \"saturation\": "
        ∷ number (get_count s.error_counter 0x0807)
        ∷ codes ",\n"
        ∷ codes "      \"insufficient_resources\": "
        ∷ number (get_count s.error_counter 0x0189)
        ∷ codes "\n"
        ∷ codes "    }\n"
        ∷ [])
      rest

module _ (f : Doubles) where
  abbrev pub us : f.Double → f.Double
  us ns = f.div ns (f.of 1000)

  unfoldable pub runtime : f.Double → List ℕ → List ℕ
  runtime elapsed_sec rest =
      write
        (codes "  \"runtime\": {\n"
          ∷ codes "    \"elapsed_sec\": "
          ∷ f.fixed 3 elapsed_sec
          ∷ codes "\n"
          ∷ codes "  },\n"
          ∷ [])
        rest

  unfoldable pub throughput : f.Double → Statistics → List ℕ → List ℕ
  throughput elapsed_sec s rest =
      write
        (codes "    \"throughput\": {\n"
          ∷ codes "      \"iops\": "
          ∷ f.fixed 2 (get_throughput_iops f elapsed_sec s)
          ∷ codes ",\n"
          ∷ codes "      \"mbps\": "
          ∷ f.fixed 2 (get_throughput_mbps f elapsed_sec s)
          ∷ codes "\n"
          ∷ codes "    },\n"
          ∷ [])
        rest

  -- The percentiles that both reports print.
  pub record Percentiles : Type 0 where
    pub p99 : f.Double
    pub p99_9 : f.Double
    pub p99_99 : f.Double

  unfoldable pub percentiles : Statistics → Option Percentiles
  percentiles s = elim (get_p99 f s) [
    | none ↦ none
    | some a ↦ elim (get_p99_9 f s) [
      | none ↦ none
      | some b ↦ elim (get_p99_99 f s) [
        | none ↦ none
        | some c ↦ some (record { p99 = a; p99_9 = b; p99_99 = c })
      ]
    ]
  ]

  unfoldable pub latency : Statistics → Percentiles → List ℕ → List ℕ
  latency s p rest =
      write
        (codes "    \"latency\": {\n"
          ∷ codes "      \"avg_us\": "
          ∷ f.fixed 2 (get_avg_latency_us f s)
          ∷ codes ",\n"
          ∷ codes "      \"min_us\": "
          ∷ f.fixed 2 (us (f.of s.min_latency_ns))
          ∷ codes ",\n"
          ∷ codes "      \"max_us\": "
          ∷ f.fixed 2 (us (f.of s.max_latency_ns))
          ∷ codes ",\n"
          ∷ codes "      \"std_dev_us\": "
          ∷ f.fixed 2 (us (get_std_dev f s))
          ∷ codes ",\n"
          ∷ codes "      \"p99_us\": "
          ∷ f.fixed 2 (us p.p99)
          ∷ codes ",\n"
          ∷ codes "      \"p99_9_us\": "
          ∷ f.fixed 2 (us p.p99_9)
          ∷ codes ",\n"
          ∷ codes "      \"p99_99_us\": "
          ∷ f.fixed 2 (us p.p99_99)
          ∷ codes "\n"
          ∷ codes "    },\n"
          ∷ [])
        rest

  unfoldable pub statistics : f.Double → Statistics → Percentiles → List ℕ → List ℕ
  unfolding throughput latency errors
  statistics elapsed_sec s p rest =
      write
        (codes "  \"statistics\": {\n"
          ∷ codes "    \"operations_completed\": "
          ∷ number s.operations_completed
          ∷ codes ",\n"
          ∷ codes "    \"operations_failed\": "
          ∷ number s.operations_failed
          ∷ codes ",\n"
          ∷ codes "    \"bytes_copied\": "
          ∷ number s.bytes_copied
          ∷ codes ",\n"
          ∷ [])
        (throughput elapsed_sec s (latency s p (errors s (write (codes "  }\n" ∷ []) rest))))

  -- JsonReporter::generate_report.
  unfoldable pub report_text : Statistics → Config → f.Double → Option (List ℕ)
  unfolding percentiles configuration runtime statistics
  report_text stats config elapsed_sec =
      let snapshot = get_snapshot stats Statistics.init in
      elim (percentiles snapshot) [
        | none ↦ none
        | some p ↦ some (
            write (codes "{\n" ∷ []) (
              configuration config (
                runtime elapsed_sec
                  (statistics elapsed_sec snapshot p (write (codes "}\n" ∷ []) [])))))
      ]

  unfoldable pub human_errors : Statistics → List ℕ → List ℕ
  human_errors s rest =
      let total = get_total_errors s.error_counter in
      let queue_full = get_count s.error_counter 0x0807 in
      let insufficient = get_count s.error_counter 0x0189 in
      let last =
        if ltb 0 insufficient
        then write
            (codes "  Insufficient Resources (0x189): " ∷ number insufficient ∷ codes "\n" ∷ [])
            rest
        else rest in
      let lines =
        if ltb 0 queue_full
        then write (codes "  Queue Full (0x807): " ∷ number queue_full ∷ codes "\n" ∷ []) last
        else last in
      if ltb 0 total
      then write (codes "\nErrors:\n" ∷ codes "  Total: " ∷ number total ∷ codes "\n" ∷ []) lines
      else rest

  -- JsonReporter::generate_human_report, which does not read the configuration.
  unfoldable pub human_report_text : Statistics → f.Double → Option (List ℕ)
  unfolding percentiles human_errors
  human_report_text stats elapsed_sec =
      let s = get_snapshot stats Statistics.init in
      elim (percentiles s) [
        | none ↦ none
        | some p ↦ some (
            write
              (codes "\n=== X-LOAD Workload Complete ===\n"
                ∷ codes "Duration: "
                ∷ f.fixed 2 elapsed_sec
                ∷ codes " seconds\n"
                ∷ codes "Operations completed: "
                ∷ number s.operations_completed
                ∷ codes "\n"
                ∷ codes "Operations failed: "
                ∷ number s.operations_failed
                ∷ codes "\n"
                ∷ codes "Bytes copied: "
                ∷ number s.bytes_copied
                ∷ codes " ("
                ∷ f.fixed 2 (f.div (f.of s.bytes_copied) (f.of (1024 * 1024)))
                ∷ codes " MB)\n"
                ∷ codes "\nThroughput:\n"
                ∷ codes "  IOPs: "
                ∷ f.fixed 2 (get_throughput_iops f elapsed_sec s)
                ∷ codes "\n"
                ∷ codes "  MB/s: "
                ∷ f.fixed 2 (get_throughput_mbps f elapsed_sec s)
                ∷ codes "\n"
                ∷ codes "\nLatency (microseconds):\n"
                ∷ codes "  Average: "
                ∷ f.fixed 2 (get_avg_latency_us f s)
                ∷ codes "\n"
                ∷ codes "  Min: "
                ∷ f.fixed 2 (us (f.of s.min_latency_ns))
                ∷ codes "\n"
                ∷ codes "  Max: "
                ∷ f.fixed 2 (us (f.of s.max_latency_ns))
                ∷ codes "\n"
                ∷ codes "  Std Dev: "
                ∷ f.fixed 2 (us (get_std_dev f s))
                ∷ codes "\n"
                ∷ codes "  P99: "
                ∷ f.fixed 2 (us p.p99)
                ∷ codes "\n"
                ∷ codes "  P99.9: "
                ∷ f.fixed 2 (us p.p99_9)
                ∷ codes "\n"
                ∷ codes "  P99.99: "
                ∷ f.fixed 2 (us p.p99_99)
                ∷ codes "\n"
                ∷ [])
              (human_errors s (write (codes "==================================\n" ∷ []) [])))
      ]
