-- ===== src/Reporter/Wellformed/Finite.antt =====
-- The doubles that the reports print are finite.
use xcopy_block_io.Common.{
  ◌*◌, ◌^◌, ◌<◌, ◌≡◌, refl, ◌⊎◌, inl, inr, true, some, arith, u64_mod, Bool-cases, if◌then◌else◌,
  ◌==◌,
}
use xcopy_block_io.Double.{Doubles, Rounds}
use xcopy_block_io.Statistics
use xcopy_block_io.Statistics.{Statistics, get_snapshot}
use xcopy_block_io.Statistics.Buffer.{get_samples, collect}
use xcopy_block_io.Statistics.Latency.{
  get_percentile, get_p99, get_p99_9, get_p99_99, get_std_dev, get_avg_latency_ns,
  get_avg_latency_us, get_throughput_iops, get_throughput_mbps,
}
use xcopy_block_io.Reporter.Text.{Percentiles, percentiles}
use xcopy_block_io.Reporter.Printed.{Prints}

-- The counters that the report prints have 64 bits.
pub record IsBounded (s : Statistics) : Type 0 where
  pub operations_completed : s.operations_completed < u64_mod
  pub operations_failed : s.operations_failed < u64_mod
  pub bytes_copied : s.bytes_copied < u64_mod
  pub total_latency_ns : s.total_latency_ns < u64_mod
  pub min_latency_ns : s.min_latency_ns < u64_mod
  pub max_latency_ns : s.max_latency_ns < u64_mod

module _ (f : Doubles) where
  -- The doubles of the latencies are finite.
  pub record IsMeasured (z : Prints f) (s : Statistics) (p : Percentiles f) : Type 0 where
    pub avg : z.IsFinite (get_avg_latency_us f s)
    pub least : z.IsFinite (f.of s.min_latency_ns)
    pub most : z.IsFinite (f.of s.max_latency_ns)
    pub std_dev : z.IsFinite (get_std_dev f s)
    pub p99 : z.IsFinite p.p99
    pub p99_9 : z.IsFinite p.p99_9
    pub p99_99 : z.IsFinite p.p99_99

  module _ (z : Prints f) where
    -- The rest of the figures that are printed as doubles.
    pub record IsTimed (e : f.Double) (s : Statistics) : Type 0 where
      pub iops : z.IsFinite (get_throughput_iops f e s)
      pub mbps : z.IsFinite (get_throughput_mbps f e s)

  -- A latency buffer without samples: what a snapshot has.
  abbrev pub no_percentiles : Percentiles f
  no_percentiles = record { p99 = f.of 0; p99_9 = f.of 0; p99_99 = f.of 0 }

  pub snapshot-percentiles :
      (s : Statistics) → percentiles f (get_snapshot s Statistics.init) ≡ some no_percentiles
  unfolding percentiles get_p99 get_p99_9 get_p99_99 get_percentile get_samples collect get_snapshot
  snapshot-percentiles s = refl

  module _ (r : Rounds f) (z : Prints f) (e : f.Double) where
    rate-IsFinite :
        (x : f.Double)
        → f.le (f.of 0) x ≡ true
        → f.le x (f.of u64_mod) ≡ true
        → (f.le e (f.of 0) ≡ true) ⊎ (f.le (f.ratio 1 (10 ^ 10)) e ≡ true)
        → z.IsFinite (if f.le e (f.of 0) then f.of 0 else f.div x e)
    rate-IsFinite x low high time = elim (Bool-cases (f.le e (f.of 0))) [
      | inl h ↦ rw h (z.finite_of 0 (omega arith))
      | inr h ↦ rw h (elim time [
        | inl k ↦ absurd (ground (arith, h, k))
        | inr k ↦ z.finite_rate x e low high k
      ])
    ]

    pub timed :
        (s : Statistics)
        → IsBounded s
        → (f.le e (f.of 0) ≡ true) ⊎ (f.le (f.ratio 1 (10 ^ 10)) e ≡ true)
        → IsTimed z e s
    unfolding get_throughput_iops get_throughput_mbps
    timed s b time =
        let ops = b.operations_completed in
        let bytes = b.bytes_copied in
        let n = s.bytes_copied in
        let low = z.of_le 0 n (omega arith) (omega arith) in
        record {
          iops =
              rate-IsFinite (f.of s.operations_completed)
                (z.of_le 0 s.operations_completed (omega arith) (omega arith))
                (z.of_le s.operations_completed u64_mod (omega arith) (omega arith)) time;
          mbps =
              rate-IsFinite (f.div (f.of n) (f.of (1024 * 1024)))
                (r.div_nonneg (f.of n) (1024 * 1024) (omega arith) (omega arith) low)
                (z.div_le (f.of n) u64_mod (1024 * 1024) (omega arith) (omega arith) (omega arith)
                  low (z.of_le n u64_mod (omega arith) (omega arith)))
                time;
        }

  module _ (z : Prints f) where
    std_dev-IsFinite :
        (s : Statistics) → z.IsFinite (get_std_dev f (get_snapshot s Statistics.init))
    unfolding get_std_dev get_snapshot get_samples collect
    std_dev-IsFinite s = elim (Bool-cases (s.operations_completed == 0)) [
      | inl e ↦ rw (e, get_std_dev) (z.finite_of 0 (omega arith))
      | inr e ↦ rw (e, get_std_dev) (z.finite_of 0 (omega arith))
    ]

    avg-IsFinite : (s : Statistics) → IsBounded s → z.IsFinite (get_avg_latency_us f s)
    unfolding get_avg_latency_us get_avg_latency_ns
    avg-IsFinite s b =
        z.finite_div (get_avg_latency_ns f s) 1000 (omega arith) (omega arith)
          (elim (Bool-cases (s.operations_completed == 0)) [
            | inl e ↦ rw (e, get_avg_latency_ns) (z.finite_of 0 (omega arith))
            | inr e ↦
                rw (e, get_avg_latency_ns)
                  (z.finite_div (f.of s.total_latency_ns) s.operations_completed (ground (arith, e))
                    (omega (arith, b.operations_completed))
                    (z.finite_of s.total_latency_ns b.total_latency_ns))
          ])

    pub measured :
        (s : Statistics)
        → IsBounded (get_snapshot s Statistics.init)
        → IsMeasured z (get_snapshot s Statistics.init) no_percentiles
    measured s b =
        let nought = z.finite_of 0 (omega arith) in
        record {
          avg = avg-IsFinite (get_snapshot s Statistics.init) b;
          least = z.finite_of (get_snapshot s Statistics.init).min_latency_ns b.min_latency_ns;
          most = z.finite_of (get_snapshot s Statistics.init).max_latency_ns b.max_latency_ns;
          std_dev = std_dev-IsFinite s;
          p99 = nought;
          p99_9 = nought;
          p99_99 = nought;
        }
