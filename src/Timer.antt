-- ===== src/Timer.antt =====
-- src/high_res_timer.cpp and include/high_res_timer.h: the clock, the cycle counter, and the frequency
-- of the processor, which is worked out once. What the C library and the machine answer are parameters.
pub mod Frequency
mod Tests
use Prim.Native.String.{String}
use text.Mathlib.Text.{starts_with}
use xcopy_block_io.Common.{
  ℕ, ◌+◌, ◌-◌, ◌*◌, ◌/◌, ◌^◌, List, [], ◌∷◌, Bool, true, false, Option, none, some, ltb, ◌&&◌,
  if◌then◌else◌, add64, mul64,
}
use xcopy_block_io.Double.{Doubles}

-- What `clock_gettime` answers for the two clocks: seconds and nanoseconds, or `none` if it fails.
pub record Clocks : Type 0 where
  pub monotonic_raw : Option (ℕ × ℕ)
  pub monotonic : Option (ℕ × ℕ)

unfoldable pub stamp : ℕ × ℕ → ℕ
stamp (sec, nsec) = add64 (mul64 sec 1000000000) nsec

unfoldable pub now_ns : Clocks → ℕ
unfolding stamp
now_ns c = elim c.monotonic_raw [
  | some ts ↦ stamp ts
  | none ↦ elim c.monotonic [ some ts ↦ stamp ts | none ↦ 0 ]
]

unfoldable pub now_us : Clocks → ℕ
unfolding now_ns
now_us c = now_ns c / 1000

-- The processors that the preprocessor tells apart.
pub data Arch : Type 0 where
  x86 aarch64 other : Arch

-- The registers that `rdtsc` fills, and the counter of the other processor.
pub record Counter : Type 0 where
  pub lo : ℕ
  pub hi : ℕ
  pub val : ℕ

unfoldable pub cycles : Arch → Counter → Clocks → ℕ
unfolding now_ns
cycles x86 r c = r.hi * 2 ^ 32 + r.lo
cycles aarch64 r c = r.val
cycles other r c = now_ns c

-- Before and after the sleep of 100 ms.
pub record Measured : Type 0 where
  pub start_cycles : ℕ
  pub start_ns : ℕ
  pub end_cycles : ℕ
  pub end_ns : ℕ

module _ (f : Doubles) where
  abbrev pub ns_to_us : ℕ → f.Double
  ns_to_us ns = f.div (f.of ns) (f.of 1000)

  abbrev pub ns_to_ms : ℕ → f.Double
  ns_to_ms ns = f.div (f.of ns) (f.of 1000000)

  -- The static fields.
  pub record Fields : Type 0 where
    pub cpu_freq_ghz : f.Double
    pub cpu_freq_initialized : Bool

  abbrev pub unset : Fields
  unset = record { cpu_freq_ghz = f.of 0; cpu_freq_initialized = false }

  -- What a call finds: the lines of /proc/cpuinfo if it can be opened, what `sscanf` reads in a line,
  -- and the measurement.
  pub record Machine : Type 0 where
    pub cpuinfo : Option (List String)
    pub sscanf : String → Option f.Double
    pub measured : Measured

  unfoldable pub read_mhz : (String → Option f.Double) → List String → Option f.Double
  read_mhz sscanf [] = none
  read_mhz sscanf (line ∷ lines) =
      let rest = read_mhz sscanf lines in
      if starts_with line "cpu MHz"
      then elim (sscanf line) [ none ↦ rest | some mhz ↦ some mhz ]
      else rest

  unfoldable pub measure : Arch → Measured → Option f.Double
  measure x86 t =
      if ltb t.start_ns t.end_ns && ltb t.start_cycles t.end_cycles
      then some (f.div (f.of (t.end_cycles - t.start_cycles)) (f.of (t.end_ns - t.start_ns)))
      else none
  measure aarch64 t = none
  measure other t = none

  unfoldable pub fill : f.Double → Fields
  fill ghz = record { cpu_freq_ghz = ghz; cpu_freq_initialized = true }

  -- From the measurement on.
  unfoldable pub fall_back : Arch → Measured → Fields
  unfolding measure fill
  fall_back arch t = elim (measure arch t) [ some ghz ↦ fill ghz | none ↦ fill (f.of 2) ]

  unfoldable pub read_cpuinfo : Machine → Option f.Double
  unfolding read_mhz
  read_cpuinfo m = elim m.cpuinfo [ none ↦ none | some lines ↦ read_mhz m.sscanf lines ]

  unfoldable pub fill_with : Option f.Double → Fields → Fields
  unfolding fill
  fill_with none late = late
  fill_with (some mhz) late = fill (f.div mhz (f.of 1000))

  unfoldable pub init_cpu_freq : Arch → Machine → Fields → Fields
  unfolding read_cpuinfo fall_back fill_with
  init_cpu_freq arch m s =
      let filled = fill_with (read_cpuinfo m) (fall_back arch m.measured) in
      if s.cpu_freq_initialized then s else filled

  unfoldable pub get_cpu_freq_ghz : Arch → Machine → Fields → f.Double × Fields
  unfolding init_cpu_freq
  get_cpu_freq_ghz arch m s =
      let filled = init_cpu_freq arch m s in
      let after = if s.cpu_freq_initialized then s else filled in (after.cpu_freq_ghz, after)
