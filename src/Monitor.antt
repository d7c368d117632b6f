-- ===== src/Monitor.antt =====
-- src/live_monitor.cpp and include/live_monitor.h: the status line of a run.
-- A line keeps the whole numbers that it is made of: the rates of the line are the deltas of operations
-- and of bytes over the time; `Text` divides them in floating point and prints them. `now` is what the
-- timer reads in the call.
pub mod Lines
pub mod Elapsed
pub mod Text
mod Tests
use xcopy_block_io.Common.{
  ℕ, zero, suc, ◌+◌, ◌*◌, ◌/◌, ◌%◌, List, [], ◌∷◌, ◌++◌, Bool, true, false, Option, none, some, ltb,
  ◌==◌, if◌then◌else◌, length, sub64, decimal,
}
use xcopy_block_io.Statistics.{Statistics}

pub record LiveMonitor : Type 0 where
  pub interval_ms : ℕ
  pub start_time_ns : ℕ
  pub last_update_ns : ℕ
  pub prev_ops : ℕ
  pub prev_bytes : ℕ
  pub prev_time_ns : ℕ
  pub use_ansi : Bool
  pub first_line : Bool

-- The figures of a line. `inst` holds the deltas of operations and of bytes, where the line shows rates.
pub record Line : Type 0 where
  pub elapsed_ns : ℕ
  pub delta_ns : ℕ
  pub inst : Option (ℕ × ℕ)
  pub ops : ℕ
  pub failed : ℕ
  pub in_place : Bool

abbrev pub new_monitor : ℕ → LiveMonitor
new_monitor interval_ms = record {
  interval_ms = interval_ms;
  start_time_ns = 0;
  last_update_ns = 0;
  prev_ops = 0;
  prev_bytes = 0;
  prev_time_ns = 0;
  use_ansi = true;
  first_line = true;
}

pub is_enabled : LiveMonitor → Bool
is_enabled m = ltb 0 m.interval_ms

abbrev pub set_use_ansi : Bool → LiveMonitor → LiveMonitor
set_use_ansi use_ansi m = record m { use_ansi = use_ansi }

pub start : ℕ → LiveMonitor → LiveMonitor
start now m = record m {
  start_time_ns = now;
  last_update_ns = now;
  prev_time_ns = now;
  prev_ops = 0;
  prev_bytes = 0;
  first_line = true;
}

-- The line of a call of `update` that prints, and the monitor after it.
abbrev pub line_at : ℕ → Statistics → LiveMonitor → Line
line_at now stats m =
    let delta_ns = sub64 now m.prev_time_ns in
    record {
      elapsed_ns = sub64 now m.start_time_ns;
      delta_ns = delta_ns;
      inst =
          if ltb 0 delta_ns
          then some
              (sub64 stats.operations_completed m.prev_ops, sub64 stats.bytes_copied m.prev_bytes)
          else none;
      ops = stats.operations_completed;
      failed = stats.operations_failed;
      in_place = m.use_ansi;
    }

abbrev pub advanced : ℕ → Statistics → LiveMonitor → LiveMonitor
advanced now stats m = record m {
  last_update_ns = now;
  prev_ops = stats.operations_completed;
  prev_bytes = stats.bytes_copied;
  prev_time_ns = now;
  first_line = false;
}

pub update : ℕ → Statistics → LiveMonitor → LiveMonitor × Option Line
update now stats m =
    if m.interval_ms == 0
    then (m, none)
    else (if ltb (sub64 now m.last_update_ns) (m.interval_ms * 1000000)
        then (m, none)
        else (advanced now stats m, some (line_at now stats m)))

-- The last line. Its rates are those of the whole run, and stand for 0 where no time has passed.
pub finish : ℕ → Statistics → LiveMonitor → Option Line
finish now stats m =
    let elapsed_ns = sub64 now m.start_time_ns in
    if m.interval_ms == 0
    then none
    else some (record {
      elapsed_ns = elapsed_ns;
      delta_ns = elapsed_ns;
      inst =
          if ltb 0 elapsed_ns then some (stats.operations_completed, stats.bytes_copied) else none;
      ops = stats.operations_completed;
      failed = stats.operations_failed;
      in_place = m.use_ansi;
    })

-- The calls of `update` of a run, each with its time and the counters that it loads, and their lines.
unfoldable pub updates : List (ℕ × Statistics) → LiveMonitor → LiveMonitor × List Line
unfolding update
updates [] m = (m, [])
updates ((now, stats) ∷ calls) m =
    let (m', printed) = update now stats m in
    let (last, lines) = updates calls m' in
    elim printed [ none ↦ (last, lines) | some line ↦ (last, line ∷ lines) ]

-- A number as std::setw(2) and std::setfill('0') print it.
pub two_wide : ℕ → List ℕ
unfolding decimal
two_wide n = let text = decimal 10 n in if ltb (length text) 2 then 48 ∷ text else text

-- `n` is the int that the source casts the seconds to: 10 digits are enough for it. 58 is a colon.
pub format_time : ℕ → List ℕ
unfolding two_wide
format_time n =
    let hours = n / 3600 in
    let mins = (n % 3600) / 60 in
    let secs = n % 60 in
    if ltb 0 hours
    then two_wide hours ++ (58 ∷ (two_wide mins ++ (58 ∷ two_wide secs)))
    else two_wide mins ++ (58 ∷ two_wide secs)
