-- ===== src/Poll/Samples.antt =====
-- Concrete inputs for the tests: a generator, what the environment answers, a pool and a worker.
use xcopy_block_io.Common.{
  ℕ, zero, suc, ◌-◌, ◌*◌, ◌≡◌, refl, List, [], ◌∷◌, true, none, some, arith, get_elem?, false, ltb,
  if◌then◌else◌, ◌+◌,
}
use xcopy_block_io.Dma.{Alloc, zeroed}
use xcopy_block_io.Pool.{PooledOperation, OperationPool, fresh}
use xcopy_block_io.Pool.Acquire.{IsValid}
use xcopy_block_io.Generator.{XcopyGenerator}
use xcopy_block_io.Statistics
use xcopy_block_io.Poll.Flight.{Balanced}
use xcopy_block_io.Poll.State.{new_context, World}
use xcopy_block_io.Poll.Submit.{Answers}
use xcopy_block_io.Poll.Start.{good, PollThreadManager, Site}

abbrev pub one_namespace : XcopyGenerator
one_namespace = record {
  max_ranges = 2;
  fixed_ranges = 0;
  src_nsids = 1 ∷ [];
  dst_nsid = 1;
  namespaces = none ∷ some (record { id = 1; num_sectors = 1000 }) ∷ [];
  enable_cross_namespace = false;
  target_supports_cross_namespace = true;
}

abbrev pub answers : Answers
answers = record {
  draws = λ k. record { num_ranges = 2; src_index = 0; src_lba = λ i. 700 - 200 * i };
  now_ns = 5000;
  ns_found = true;
  accepted = true;
}

abbrev pub slot : ℕ → ℕ → PooledOperation
slot i a = record fresh { max_ranges = 2; ranges = some a; pool_index = i }

abbrev pub slots : List PooledOperation
slots = slot 0 64 ∷ slot 1 128 ∷ []

pub slots-indexed : (i : ℕ) (op : PooledOperation) → get_elem? slots i ≡ some op → op.pool_index ≡ i
slots-indexed zero op e = ground arith
slots-indexed (suc zero) op e = ground arith
slots-indexed (suc (suc i)) op e = cc

abbrev pub pool : OperationPool
pool = record { pool_size = 2; max_ranges = 2; operations = some slots; next_index = 0 }

pub pool-IsValid : IsValid pool slots
pool-IsValid = record {
  present = refl;
  sized = refl;
  next_in = omega arith;
  indexed = slots-indexed;
}

-- A worker whose range size is given.
abbrev pub worker : ℕ → World
worker range_size = record {
  ctx = record new_context {
    qpair = some 1;
    target_iodepth = 1;
    range_size = range_size;
    running = true;
    op_pool = pool;
  };
  mgr = record { namespace_size = 1000; dst_start = 0; dst_end = 1000; dst_current = 16 };
  stats = Statistics.init;
  heap = record { live = 64 ∷ 128 ∷ []; content = λ a. zeroed 2; requests = 2 };
}

abbrev pub no_more : Alloc
no_more n = none

-- The first operation is in flight.
abbrev pub in_flight : PooledOperation
in_flight = record (slot 0 64) {
  dst_nsid = 1;
  dst_lba = 16;
  num_ranges = 2;
  total_blocks = 16;
  start_time_ns = 3000;
  in_use = true;
  user_data = some 0;
}

abbrev pub busy_slots : List PooledOperation
busy_slots = in_flight ∷ slot 1 128 ∷ []

pub busy-indexed :
    (i : ℕ) (op : PooledOperation) → get_elem? busy_slots i ≡ some op → op.pool_index ≡ i
busy-indexed zero op e = ground arith
busy-indexed (suc zero) op e = ground arith
busy-indexed (suc (suc i)) op e = cc

abbrev pub busy : World
busy = record (worker 8) {
  ctx = record ((worker 8).ctx) {
    outstanding_io = 1;
    op_pool = record pool { operations = some busy_slots; next_index = 1 };
  };
}

pub busy-Balanced : Balanced 1 busy
busy-Balanced = record {
  depth = refl;
  pool = record {
    ops = busy_slots;
    valid = record { present = refl; sized = refl; next_in = omega arith; indexed = busy-indexed };
    count = refl;
  };
  within = omega arith;
  sized = refl;
  small = omega arith;
}

-- Memory for eight buffers, which is one worker's pool.
abbrev pub eight : Alloc
eight n = if ltb n 8 then some (1000 + n) else none

abbrev pub site : Site
site = record {
  num_controllers = 1;
  max_queue_depth = 128;
  create = λ i c. some i;
  polls = λ i k. good;
}

abbrev pub two_workers : PollThreadManager
two_workers = record {
  num_cores = 2;
  iodepth = 8;
  range_size = 8;
  max_ranges = 2;
  threads = [];
  running = false;
  deleted = [];
  heap = record { live = []; content = λ a. []; requests = 0 };
}
