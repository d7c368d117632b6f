-- ===== src/Lba/Torn.antt =====
-- LbaManager: `set_dst_range` while another thread is inside `get_and_advance_dst_lba`.
use xcopy_block_io.Common.{ℕ, zero, suc, ◌+◌, ◌≤◌, ◌<◌, arith, u64_mod}
use xcopy_block_io.Lba.{LbaManager, reserve, clamp_end}
use xcopy_block_io.Lba.Bounds.{IsValid}

-- The manager after the first `k` of the three stores of `set_dst_range`, in their order.
pub stores : LbaManager → ℕ → ℕ → ℕ → LbaManager
stores m start end zero = m
stores m start end (suc zero) = record m { dst_end = clamp_end m end }
stores m start end (suc (suc zero)) = record m { dst_end = clamp_end m end; dst_start = start }
stores m start end (suc (suc (suc k))) = record m {
  dst_end = clamp_end m end;
  dst_start = start;
  dst_current = start;
}

-- What a thread hands out that loads the start after `i` of the stores, the end after `j` and the
-- counter after `k`, and whose compare-exchange then succeeds.
pub torn_result : LbaManager → ℕ → ℕ → ℕ → ℕ → ℕ → ℕ → ℕ
unfolding reserve stores
torn_result m start end i j k total_blocks =
    (reserve (stores m start end i).dst_start (stores m start end j).dst_end total_blocks
      (stores m start end k).dst_current).result

-- Whenever the new range lies beyond the old one and the counter is near the old end, a thread that
-- loads the start and then, after the first store, the end and the counter is given blocks that begin
-- before the new range and run beyond the old one.
pub torn_bounds_escape :
    (m : LbaManager) (start end total_blocks : ℕ)
    → IsValid m
    → m.dst_end ≤ start
    → m.dst_end < m.dst_current + total_blocks
    → m.dst_current + total_blocks ≤ clamp_end m end
    → clamp_end m end < u64_mod
    → (torn_result m start end 0 1 1 total_blocks < start)
      × (m.dst_end < torn_result m start end 0 1 1 total_blocks + total_blocks)
unfolding torn_result
torn_bounds_escape m start end total_blocks v beyond past fits w = ground arith
