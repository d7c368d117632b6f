-- ===== src/Statistics/Buffer.antt =====
-- LockFreeLatencyBuffer of include/statistics.h: the last 65536 latency samples, in a ring.
use xcopy_block_io.Common.{ℕ, zero, suc, ◌+◌, ◌%◌, List, [], ◌∷◌, ltb, ◌==◌, if◌then◌else◌, add64}

abbrev pub buffer_size : ℕ
buffer_size = 65536

pub record LatencyBuffer : Type 0 where
  pub samples : ℕ → ℕ
  pub write_index : ℕ
  pub sample_count : ℕ

abbrev pub empty : LatencyBuffer
empty = record { samples = λ i. 0; write_index = 0; sample_count = 0 }

unfoldable pub record_sample : LatencyBuffer → ℕ → LatencyBuffer
record_sample b latency_ns =
    let idx = b.write_index % buffer_size in
    record {
      samples = λ i. if i == idx then latency_ns else b.samples i;
      write_index = add64 b.write_index 1;
      sample_count = add64 b.sample_count 1;
    }

-- The loop of `get_samples` with the rounds left, from index `i` on.
unfoldable pub collect : (ℕ → ℕ) → ℕ → ℕ → List ℕ
collect samples zero i = []
collect samples (suc n) i =
    let rest = collect samples n (i + 1) in if ltb 0 (samples i) then samples i ∷ rest else rest

unfoldable pub get_samples : LatencyBuffer → List ℕ
unfolding collect
get_samples b =
    collect b.samples (if ltb b.sample_count buffer_size then b.sample_count else buffer_size) 0

pub reset : LatencyBuffer → LatencyBuffer
reset b = record { samples = λ i. 0; write_index = 0; sample_count = 0 }
