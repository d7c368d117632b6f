-- ===== src/Lba.antt =====
-- src/lba_manager.cpp and include/lba_manager.h: which blocks an operation reads and writes.
-- Atomics are plain fields here: a call below is one that no other thread interrupts. `Concurrent`
-- takes the loop of `get_and_advance_dst_lba` apart into its loads and compare-exchanges.
pub mod Bounds
pub mod Laps
pub mod Concurrent
pub mod Torn
mod Tests
use xcopy_block_io.Common.{
  ℕ, ◌+◌, ◌*◌, ◌/◌, ◌%◌, ltb, leb, ◌==◌, if◌then◌else◌, ◌||◌, add64, sub64, mul64,
}

pub record LbaManager : Type 0 where
  pub namespace_size : ℕ
  pub dst_start : ℕ
  pub dst_end : ℕ
  pub dst_current : ℕ

-- The constructor: an end of 0 or beyond the namespace means the end of the namespace.
pub init : ℕ → ℕ → ℕ → LbaManager
init namespace_size start_lba end_lba =
    let end = if end_lba == 0 then namespace_size else end_lba in
    record {
      namespace_size = namespace_size;
      dst_start = start_lba;
      dst_end = if ltb namespace_size end then namespace_size else end;
      dst_current = start_lba;
    }

-- What one round of the loop of `get_and_advance_dst_lba` works out from the value it has loaded.
pub record Reservation : Type 0 where
  pub result : ℕ
  pub next : ℕ

unfoldable pub reserve : ℕ → ℕ → ℕ → ℕ → Reservation
reserve start end total_blocks current =
    let exceeds = ltb end (add64 current total_blocks) in
    let after =
      if exceeds
      then if ltb (sub64 end start) total_blocks then start else add64 start total_blocks
      else add64 current total_blocks in
    record {
      result = if exceeds then start else current;
      next = if leb end after then start else after;
    }

unfoldable pub get_and_advance_dst_lba : LbaManager → ℕ → ℕ × LbaManager
unfolding reserve
get_and_advance_dst_lba m total_blocks =
    if total_blocks == 0
    then (m.dst_current, m)
    else let r = reserve m.dst_start m.dst_end total_blocks m.dst_current in
      (r.result, record m { dst_current = r.next })

-- The deprecated pair: the argument of the first is not used.
pub get_next_dst_lba : LbaManager → ℕ → ℕ
get_next_dst_lba m range_size = m.dst_current

pub advance_dst_lba : LbaManager → ℕ → LbaManager
advance_dst_lba m total_blocks =
    let next = add64 m.dst_current total_blocks in
    if total_blocks == 0
    then m
    else record m { dst_current = if leb m.dst_end next then m.dst_start else next }

-- The last argument is what the thread's generator, `tl_rng()`, returns.
unfoldable pub get_random_src_lba : LbaManager → ℕ → ℕ → ℕ
get_random_src_lba m range_size random =
    let nine_tenths = mul64 m.namespace_size 90 / 100 in
    let safe_namespace_size =
      if ltb nine_tenths range_size then m.namespace_size else nine_tenths in
    let max_lba = sub64 safe_namespace_size range_size in
    if leb m.namespace_size range_size then 0 else random % add64 max_lba 1

pub reset_dst_lba : LbaManager → LbaManager
reset_dst_lba m = record m { dst_current = m.dst_start }

-- `new_end` of `set_dst_range`.
pub clamp_end : LbaManager → ℕ → ℕ
clamp_end m end = if end == 0 || ltb m.namespace_size end then m.namespace_size else end

pub set_dst_range : LbaManager → ℕ → ℕ → LbaManager
unfolding clamp_end
set_dst_range m start end = record m {
  dst_end = clamp_end m end;
  dst_start = start;
  dst_current = start;
}

pub get_dst_range_size : LbaManager → ℕ
get_dst_range_size m =
    if ltb m.dst_start m.dst_end
    then sub64 m.dst_end m.dst_start
    else sub64 m.namespace_size m.dst_start
