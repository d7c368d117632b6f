-- ===== src/Lba/Tests.antt =====
-- LbaManager: the theorems at concrete managers, and runs of the operations.
use native.Mathlib.Decide.{ℕ_discrete}
use xcopy_block_io.Common.{ℕ, ◌+◌, ◌<◌, ◌≡◌, refl, List, [], ◌∷◌, arith}
use xcopy_block_io.Lba.{LbaManager, reserve, get_and_advance_dst_lba, clamp_end}
use xcopy_block_io.Lba.Bounds.{
  IsValid, Call, get_and_advance, advance, reset, set_range, calls, calls-IsValid,
}
use xcopy_block_io.Lba.Laps.{reserve_all, reserve_all-tiles}
use xcopy_block_io.Lba.Torn.{torn_result, torn_bounds_escape}
use xcopy_block_io.Lba.Concurrent.{
  System, Pc, Reach, start, update, outside, looping, loaded, reserved, replay, AreAtomic, begin,
  load, exchange, fail, here, later, linearizable,
}

-- Blocks 10 to 99 of a namespace of 100, the counter at 90.
abbrev near_end : LbaManager
near_end = record { namespace_size = 100; dst_start = 10; dst_end = 100; dst_current = 90 }

near_end-IsValid : IsValid near_end
near_end-IsValid = omega arith

wraps_to_start : (get_and_advance_dst_lba near_end 16).0 ≡ 10
unfolding get_and_advance_dst_lba
wraps_to_start = refl

abbrev history : List Call
history = get_and_advance 16 ∷ advance 8 ∷ set_range 50 0 ∷ get_and_advance 64 ∷ reset ∷ []

calls-IsValid_example :
    IsValid (calls near_end history) × ((calls near_end history).namespace_size ≡ 100)
calls-IsValid_example = calls-IsValid near_end history near_end-IsValid (omega arith)

reserve_all-tiles_example : reserve_all near_end (4 ∷ 2 ∷ 4 ∷ []) ≡ 90 ∷ 94 ∷ 96 ∷ []
reserve_all-tiles_example =
    reserve_all-tiles near_end (4 ∷ 2 ∷ 4 ∷ []) near_end-IsValid (omega arith) (omega arith)
      (omega arith)

-- Blocks 0 to 49, the counter at 45; the new range is 60 to 99.
abbrev lower_half : LbaManager
lower_half = record { namespace_size = 100; dst_start = 0; dst_end = 50; dst_current = 45 }

torn_bounds_escape_example :
    (torn_result lower_half 60 100 0 1 1 16 < 60)
    × (50 < torn_result lower_half 60 100 0 1 1 16 + 16)
unfolding clamp_end
torn_bounds_escape_example =
    torn_bounds_escape lower_half 60 100 16 (omega arith) (omega arith) (omega arith) (omega arith)
      (omega arith)

-- Threads 0 and 1 load the same counter; the compare-exchange of thread 1 wins, that of 0 fails.
abbrev raced : System
raced = record {
  mgr = record near_end { dst_current = 92 };
  pc = update (update two_loaded 1 outside) 0 (looping 4);
  log = reserved 2 90 ∷ [];
}
  where
    two_loaded : ℕ → Pc
    two_loaded =
        update (update (update (update (λ i. outside) 0 (looping 4)) 1 (looping 2)) 0 (loaded 4 90))
          1 (loaded 2 90)

raced_reached : Reach (start near_end) raced
unfolding reserve ℕ_discrete
raced_reached =
    later
      (later
        (later
          (later (later (later here (begin 0 4 refl (omega arith))) (begin 1 2 refl (omega arith)))
            (load 0 4 refl))
          (load 1 2 refl))
        (exchange 1 2 90 refl refl))
      (fail 0 4 90 refl)

linearizable_example :
    (record near_end { dst_current = 92 } ≡ replay near_end (reserved 2 90 ∷ []))
    × AreAtomic near_end (reserved 2 90 ∷ [])
linearizable_example = linearizable near_end raced_reached
