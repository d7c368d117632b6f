-- ===== src/Monitor/Tests.antt =====
-- The status lines of a short run, and the text of a time.
use xcopy_block_io.Common.{ℕ, ◌*◌, ◌≡◌, List, [], ◌∷◌, arith}
use xcopy_block_io.Statistics
use xcopy_block_io.Statistics.{Statistics}
use xcopy_block_io.Monitor.{new_monitor, start, updates, format_time}
use xcopy_block_io.Monitor.Lines.{Rising, AddsUp, updates_lem}
use xcopy_block_io.Monitor.Elapsed.{read_time, read_time-format_time}

abbrev counters : ℕ → Statistics
counters n = record Statistics.init { operations_completed = n; bytes_copied = 4096 * n }

-- The second call comes too early for a line.
abbrev calls : List (ℕ × Statistics)
calls = (2000000000, counters 10) ∷ (2500000000, counters 15) ∷ (3000000000, counters 30) ∷ []

updates_lem_example :
    AddsUp
      (updates calls (start 1000000000 (new_monitor 1000))).0
      0
      0
      0
      (updates calls (start 1000000000 (new_monitor 1000))).1
unfolding Rising
updates_lem_example = updates_lem 1000000000 (new_monitor 1000) calls (
  omega arith,
  omega arith,
  omega arith,
  omega arith,
  omega arith,
  omega arith,
  (
    omega arith,
    omega arith,
    omega arith,
    omega arith,
    omega arith,
    omega arith,
    (omega arith, omega arith, omega arith, omega arith, omega arith, omega arith, tt),
  ),
)

read_time-format_time_example : read_time 0 0 (format_time 3725) ≡ 3725
read_time-format_time_example = read_time-format_time 3725 (omega arith)
