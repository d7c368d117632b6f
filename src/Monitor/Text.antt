-- ===== src/Monitor/Text.antt =====
-- LiveMonitor: the texts of the status line, and of the last one.
use xcopy_block_io.Common.{
  ℕ, ◌*◌, ◌^◌, List, [], ◌∷◌, ◌++◌, none, some, ltb, leb, if◌then◌else◌, codes, decimal, write,
}
use xcopy_block_io.Double.{Doubles}
use xcopy_block_io.Monitor.{Line, format_time}

module _ (f : Doubles) where
  unfoldable pub format_bytes : f.Double → List ℕ
  format_bytes bytes_per_sec =
      let at_least = λ (n : ℕ). f.le (f.of n) bytes_per_sec in
      let scaled = λ (n : ℕ). f.fixed 1 (f.div bytes_per_sec (f.of n)) in
      if at_least (10 ^ 12)
      then scaled (1024 * 1024 * 1024 * 1024) ++ codes "TiB"
      else (if at_least (10 ^ 9)
          then scaled (1024 * 1024 * 1024) ++ codes "GiB"
          else (if at_least (10 ^ 6)
              then scaled (1024 * 1024) ++ codes "MiB"
              else (if at_least (10 ^ 3)
                  then scaled 1024 ++ codes "KiB"
                  else f.fixed 1 bytes_per_sec ++ codes "B")))

  unfoldable pub format_iops : f.Double → List ℕ
  format_iops iops =
      if f.le (f.of (10 ^ 6)) iops
      then f.fixed 2 (f.div iops (f.of (10 ^ 6))) ++ codes "M"
      else (if f.le (f.of (10 ^ 3)) iops
          then f.fixed 2 (f.div iops (f.of (10 ^ 3))) ++ codes "k"
          else f.fixed 0 iops)

  unfoldable pub format_latency : f.Double → List ℕ
  format_latency latency_us =
      if f.le (f.of 1000) latency_us
      then f.fixed 2 (f.div latency_us (f.of 1000)) ++ codes "ms"
      else (if f.le (f.of 1) latency_us
          then f.fixed 2 latency_us ++ codes "us"
          else f.fixed 2 (f.mul latency_us (f.of 1000)) ++ codes "ns")

  unfoldable pub format_count : ℕ → List ℕ
  format_count count =
      let scaled = λ (n : ℕ). f.fixed 2 (f.div (f.of count) (f.of n)) in
      if leb 1000000000 count
      then scaled (10 ^ 9) ++ codes "B"
      else (if leb 1000000 count
          then scaled (10 ^ 6) ++ codes "M"
          else (if leb 1000 count then scaled (10 ^ 3) ++ codes "k" else decimal 20 count))

  unfoldable pub seconds : ℕ → f.Double
  seconds ns = f.div (f.of ns) (f.of (10 ^ 9))

  -- The rates of operations and of bytes.
  unfoldable pub rates : Line → f.Double × f.Double
  unfolding seconds
  rates line = elim line.inst [
    | none ↦ (f.of 0, f.of 0)
    | some (ops, bytes) ↦
        (f.div (f.of ops) (seconds line.delta_ns), f.div (f.of bytes) (seconds line.delta_ns))
  ]

  -- Up to the operations: `avg_latency_us` is what Statistics::get_avg_latency_us returns.
  unfoldable pub figures : f.Double → Line → List ℕ → List ℕ
  unfolding rates format_bytes format_iops format_latency format_count
  figures avg_latency_us line rest =
      let (iops, bw) = rates line in
      write
        (codes "["
          ∷ format_time (f.trunc (seconds line.elapsed_ns))
          ∷ codes "] "
          ∷ codes "BW="
          ∷ format_bytes bw
          ∷ codes "/s"
          ∷ codes " | IOPS="
          ∷ format_iops iops
          ∷ codes " | lat="
          ∷ format_latency avg_latency_us
          ∷ codes " | ops="
          ∷ format_count line.ops
          ∷ [])
        rest

  -- What `update` writes.
  unfoldable pub status_text : f.Double → Line → List ℕ
  unfolding figures
  status_text avg_latency_us line =
      let failed =
        if ltb 0 line.failed
        then write (codes " (\u{1b}[31merr=" ∷ decimal 20 line.failed ∷ codes "\u{1b}[0m)" ∷ []) []
        else [] in
      if line.in_place
      then codes "\r\u{1b}[K" ++ figures avg_latency_us line failed
      else figures avg_latency_us line failed ++ codes "\n"

  -- What `finish` writes.
  unfoldable pub done_text : f.Double → Line → List ℕ
  unfolding figures
  done_text avg_latency_us line =
      let end = codes " - DONE" in
      let failed =
        if ltb 0 line.failed
        then write (codes " (err=" ∷ decimal 20 line.failed ∷ codes ")" ∷ []) end
        else end in
      (if line.in_place then codes "\r\u{1b}[K" else [])
      ++ figures avg_latency_us line failed
      ++ codes "\n"
