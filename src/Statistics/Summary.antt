-- ===== src/Statistics/Summary.antt =====
-- Statistics: what the counters say after a run of completions and failures.
use xcopy_block_io.Common.{
  ℕ, ◌+◌, ◌-◌, ◌%◌, ◌≤◌, ◌<◌, ◌≡◌, refl, ◌⊎◌, inl, List, [], ◌∷◌, arith, All, u64_mod, length, ap,
}
use xcopy_block_io.Errors.{record_error, get_count, get_total_errors}
use xcopy_block_io.Errors.Counting.{record_all}
use xcopy_block_io.Statistics.{
  Statistics, init, lower, raise, record_completion, record_failure, get_snapshot,
}
use xcopy_block_io.Statistics.Buffer.{get_samples, record_sample}
use xcopy_block_io.Statistics.Extremes.{IsOneOf, All-le_mono}
use xcopy_block_io.Statistics.Window.{record_samples}

-- What a worker reports of one command: its bytes and latency, or its status code.
pub data Report : Type 0 where
  completed : ℕ → ℕ → Report
  failed : ℕ → Report

-- The statistics after reports made one by one, the latest first.
pub report_all : List Report → Statistics
report_all [] = init
report_all (completed bytes latency_ns ∷ rs) = record_completion (report_all rs) bytes latency_ns
report_all (failed status_code ∷ rs) = record_failure (report_all rs) status_code

abbrev pub latencies : List Report → List ℕ
latencies [] = []
latencies (completed bytes latency_ns ∷ rs) = latency_ns ∷ latencies rs
latencies (failed status_code ∷ rs) = latencies rs

abbrev pub bytes_of : List Report → ℕ
bytes_of [] = 0
bytes_of (completed bytes latency_ns ∷ rs) = bytes + bytes_of rs
bytes_of (failed status_code ∷ rs) = bytes_of rs

abbrev pub codes : List Report → List ℕ
codes [] = []
codes (completed bytes latency_ns ∷ rs) = codes rs
codes (failed status_code ∷ rs) = status_code ∷ codes rs

abbrev pub sum : List ℕ → ℕ
sum [] = 0
sum (x ∷ xs) = x + sum xs

pub record Sums (rs : List Report) (s : Statistics) : Type 0 where
  pub done : s.operations_completed ≡ length (latencies rs)
  pub lost : s.operations_failed ≡ length (codes rs)
  pub bytes : s.bytes_copied ≡ bytes_of rs % u64_mod
  pub latency : s.total_latency_ns ≡ sum (latencies rs) % u64_mod
  pub samples : s.latency_buffer ≡ record_samples (latencies rs)
  pub errors : s.error_counter ≡ record_all (codes rs)

lengths-le :
    (rs : List Report) → (length (latencies rs) ≤ length rs) × (length (codes rs) ≤ length rs)
lengths-le [] = omega arith
lengths-le (completed b l ∷ rs) = omega (arith, lengths-le rs)
lengths-le (failed c ∷ rs) = omega (arith, lengths-le rs)

-- After fewer than 2 ^ 64 reports, in any order: the counts of completed and failed commands are
-- exact, the bytes and the total latency are the true sums modulo 2 ^ 64, the latency buffer is the
-- ring of the latencies and the error counter that of the codes.
pub report_all-Sums : (rs : List Report) → length rs < u64_mod → Sums rs (report_all rs)
unfolding report_all record_completion record_failure record_samples record_all
report_all-Sums [] w = record {
  done = refl;
  lost = refl;
  bytes = refl;
  latency = refl;
  samples = refl;
  errors = refl;
}
report_all-Sums (completed b l ∷ rs) w =
    let t = report_all-Sums rs (omega arith) in
    record {
      done = omega (arith, t.done, lengths-le rs);
      lost = t.lost;
      bytes = omega (arith, t.bytes);
      latency = omega (arith, t.latency);
      samples = ap (λ q. record_sample q l) t.samples;
      errors = t.errors;
    }
report_all-Sums (failed c ∷ rs) w =
    let t = report_all-Sums rs (omega arith) in
    record {
      done = t.done;
      lost = omega (arith, t.lost, lengths-le rs);
      bytes = t.bytes;
      latency = t.latency;
      samples = t.samples;
      errors = ap (λ q. record_error q c) t.errors;
    }

-- The least and the greatest latency, or the first values where nothing has completed.
pub record Extremal (xs : List ℕ) (s : Statistics) : Type 0 where
  pub least : All (λ x. s.min_latency_ns ≤ x) xs
  pub greatest : All (λ x. x ≤ s.max_latency_ns) xs
  pub least_taken : (s.min_latency_ns ≡ u64_mod - 1) ⊎ IsOneOf s.min_latency_ns xs
  pub greatest_taken : (s.max_latency_ns ≡ 0) ⊎ IsOneOf s.max_latency_ns xs

lower_lem : (m x : ℕ) → (lower m x ≤ x) × (lower m x ≤ m) × ((lower m x ≡ m) ⊎ (lower m x ≡ x))
unfolding lower
lower_lem m x = ground arith

raise_lem : (m x : ℕ) → (x ≤ raise m x) × (m ≤ raise m x) × ((raise m x ≡ m) ⊎ (raise m x ≡ x))
unfolding raise
raise_lem m x = ground arith

All-ge_mono : (a b : ℕ) (xs : List ℕ) → a ≤ b → All (λ x. x ≤ a) xs → All (λ x. x ≤ b) xs
All-ge_mono a b [] h p = tt
All-ge_mono a b (x ∷ xs) h p = (omega arith, All-ge_mono a b xs h p.1)

completed-Extremal :
    (s : Statistics) (bytes latency_ns : ℕ) (xs : List ℕ)
    → Extremal xs s
    → Extremal (latency_ns ∷ xs) (record_completion s bytes latency_ns)
unfolding record_completion
completed-Extremal s b l xs t =
    let lo = lower_lem s.min_latency_ns l in
    let hi = raise_lem s.max_latency_ns l in
    record {
      least = (lo.0, All-le_mono s.min_latency_ns (lower s.min_latency_ns l) xs (lo.1) t.least);
      greatest =
          (hi.0, All-ge_mono s.max_latency_ns (raise s.max_latency_ns l) xs (hi.1) t.greatest);
      least_taken = ground (arith, lo, t.least_taken);
      greatest_taken = ground (arith, hi, t.greatest_taken);
    }

-- No latency reported is below the minimum or above the maximum; each of the two is one of the
-- latencies, or is still the value that it started from (2 ^ 64 - 1, and 0).
pub report_all-Extremal : (rs : List Report) → Extremal (latencies rs) (report_all rs)
unfolding report_all record_failure
report_all-Extremal [] = record {
  least = tt;
  greatest = tt;
  least_taken = inl refl;
  greatest_taken = inl refl;
}
report_all-Extremal (completed b l ∷ rs) =
    completed-Extremal (report_all rs) b l (latencies rs) (report_all-Extremal rs)
report_all-Extremal (failed c ∷ rs) =
    let t = report_all-Extremal rs in
    record {
      least = t.least;
      greatest = t.greatest;
      least_taken = t.least_taken;
      greatest_taken = t.greatest_taken;
    }

-- A snapshot taken into new statistics, as both reports do, has the counts and the copy of the
-- samples, but an empty latency buffer and no error: the figures that the reports compute from these,
-- the percentiles, the deviation and the error counts, do not depend on the run.
pub get_snapshot_lacks :
    (s : Statistics)
    → let snapshot = get_snapshot s init in
      (snapshot.operations_completed ≡ s.operations_completed)
      × (snapshot.operations_failed ≡ s.operations_failed)
      × (snapshot.latency_samples ≡ get_samples s.latency_buffer)
      × (get_samples snapshot.latency_buffer ≡ [])
      × (get_total_errors snapshot.error_counter ≡ 0)
      × ((code : ℕ) → get_count snapshot.error_counter code ≡ 0)
unfolding get_snapshot get_samples get_total_errors get_count
get_snapshot_lacks s = (refl, refl, refl, refl, refl, λ code. refl)
