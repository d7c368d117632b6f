-- ===== src/Timer/Tests.antt =====
-- The frequency of a processor whose second line of /proc/cpuinfo has it.
use text.Mathlib.Text.{starts_with}
use xcopy_block_io.Common.{◌≡◌, [], ◌∷◌, none, some, if◌then◌else◌}
use xcopy_block_io.Double.Fixed.{thousandths}
use xcopy_block_io.Timer.{Machine, Measured, x86, unset}
use xcopy_block_io.Timer.Frequency.{calls, all_same, Source, calls_same}

abbrev measured : Measured
measured = record { start_cycles = 1000; start_ns = 50; end_cycles = 301000; end_ns = 100050 }

abbrev listed : Machine thousandths
listed = record {
  cpuinfo = some ("model name : a processor" ∷ "cpu MHz : 2400.000" ∷ []);
  sscanf = λ line. if starts_with line "cpu MHz : 2400" then some 2400000 else none;
  measured = measured;
}

-- Nothing to read, and a measurement of 3 GHz.
abbrev bare : Machine thousandths
bare = record { cpuinfo = none; sscanf = λ line. none; measured = measured }

calls_same_example :
    (ghz : thousandths.Double) × Source thousandths x86 listed ghz
    × (calls thousandths x86 (listed ∷ bare ∷ []) (unset thousandths)
        ≡ all_same thousandths ghz (listed ∷ bare ∷ []))
calls_same_example = calls_same thousandths x86 listed (bare ∷ [])
