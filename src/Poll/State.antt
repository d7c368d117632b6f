-- ===== src/Poll/State.antt =====
-- PollThreadContext of include/poll_thread_manager.h, with what its pointers lead to.
use xcopy_block_io.Common.{ℕ, Bool, false, Option, none}
use xcopy_block_io.Dma.{Heap}
use xcopy_block_io.Lba.{LbaManager}
use xcopy_block_io.Pool
use xcopy_block_io.Pool.{OperationPool}
use xcopy_block_io.Statistics.{Statistics}

pub record PollThreadContext : Type 0 where
  pub thread_id : ℕ
  pub qpair : Option ℕ
  pub ctrlr_index : ℕ
  pub outstanding_io : ℕ
  pub target_iodepth : ℕ
  pub range_size : ℕ
  pub running : Bool
  pub should_stop : Bool
  pub op_pool : OperationPool
  pub deferred_count : ℕ

-- The constructor, with an empty pool for the null pointer.
abbrev pub new_context : PollThreadContext
new_context = record {
  thread_id = 0;
  qpair = none;
  ctrlr_index = 0;
  outstanding_io = 0;
  target_iodepth = 0;
  range_size = 0;
  running = false;
  should_stop = false;
  op_pool = Pool.empty;
  deferred_count = 0;
}

-- The context, and the objects that the threads share.
pub record World : Type 0 where
  pub ctx : PollThreadContext
  pub mgr : LbaManager
  pub stats : Statistics
  pub heap : Heap
