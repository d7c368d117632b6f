-- ===== src/Poll/Submit.antt =====
-- PollThreadManager::submit_next_io_pooled and handle_backpressure_pooled.
use xcopy_block_io.Poll.State.{PollThreadContext, World}
use xcopy_block_io.Common.{
  ℕ, zero, suc, ◌+◌, Bool, true, false, Option, none, some, ltb, leb, if◌then◌else◌, get_elem?, set,
  add32, sub32,
}
use xcopy_block_io.Dma.{Heap, Alloc}
use xcopy_block_io.Lba.{LbaManager}
use xcopy_block_io.Pool.{PooledOperation, OperationPool, acquire, release}
use xcopy_block_io.Generator.{XcopyGenerator, Draws, Outcome, generate}
use xcopy_block_io.Generator.Operation
use xcopy_block_io.Generator.Operation.{XcopyOperation, free_ranges}

-- What the environment answers during one submission: the numbers drawn in each attempt to generate,
-- the time, whether the destination namespace is there, and whether the command is accepted.
pub record Answers : Type 0 where
  pub draws : ℕ → Draws
  pub now_ns : ℕ
  pub ns_found : Bool
  pub accepted : Bool

-- The arguments of a call of `spdk_nvme_ns_cmd_copy`, the callback's argument included.
pub record Command : Type 0 where
  pub ranges : Option ℕ
  pub num_ranges : ℕ
  pub dst_nsid : ℕ
  pub dst_lba : ℕ
  pub slot : ℕ

-- `submitted` stands for a return of 1, and `command` for the call made, if one was.
pub record Submission : Type 0 where
  pub submitted : Bool
  pub command : Option Command
  pub world : World

unfoldable pub handle_backpressure : PollThreadContext → PollThreadContext
handle_backpressure ctx =
    if ltb ctx.deferred_count 100
    then record ctx { deferred_count = add32 ctx.deferred_count 1 }
    else ctx

-- The loop around `generate`, with the attempts left, from attempt `i` on.
unfoldable pub retry :
    Alloc → XcopyGenerator → (ℕ → Draws) → ℕ → ℕ → ℕ → XcopyOperation → LbaManager → Heap → Outcome
retry alloc g draws range_size zero i op m h = record {
  success = false;
  op = op;
  mgr = m;
  heap = h;
}
retry alloc g draws range_size (suc n) i op m h =
    let o = generate alloc g (draws i) op m range_size h in
    elim o.success [ true ↦ o | false ↦ retry alloc g draws range_size n (i + 1) o.op o.mgr o.heap ]

abbrev pub max_retries : ℕ
max_retries = 10

unfoldable pub with_pool : World → OperationPool → World
with_pool w p = record w { ctx = record (w.ctx) { op_pool = p } }

-- The fields of the command, written to the operation taken.
unfoldable pub fill_slot : ℕ → ℕ → XcopyOperation → PooledOperation → PooledOperation
fill_slot now_ns thread_id temp op = record op {
  dst_nsid = temp.dst_nsid;
  dst_lba = temp.dst_lba;
  num_ranges = temp.num_ranges;
  total_blocks = temp.total_blocks;
  start_time_ns = now_ns;
  user_data = some thread_id;
}

unfoldable pub write_slot : ℕ → (PooledOperation → PooledOperation) → OperationPool → OperationPool
write_slot idx f p = elim p.operations [
  | none ↦ p
  | some ops ↦ elim (get_elem? ops idx) [
    | none ↦ p
    | some op ↦ record p { operations = some (set ops idx (f op)) }
  ]
]

unfoldable pub slot_at : ℕ → OperationPool → Option PooledOperation
slot_at idx p = elim p.operations [ none ↦ none | some ops ↦ get_elem? ops idx ]

-- The way out when no attempt succeeds: the operation goes back to the pool, and on return the
-- temporary operation, which still points to the pooled buffer, is destroyed.
unfoldable pub give_up : ℕ → XcopyOperation → World → Submission
give_up idx temp w =
    let w' = with_pool w (release (some idx) w.ctx.op_pool) in
    let (temp', h) = free_ranges temp w'.heap in
    record { submitted = false; command = none; world = record w' { heap = h } }

-- From the generated command on.
unfoldable pub issue : Answers → ℕ → XcopyOperation → World → Submission
unfolding write_slot with_pool fill_slot handle_backpressure
issue ans idx temp w =
    let pool = write_slot idx (fill_slot ans.now_ns w.ctx.thread_id temp) w.ctx.op_pool in
    let filled = with_pool w pool in
    let back = with_pool w (release (some idx) pool) in
    let command : Option Command = elim (slot_at idx pool) [
      | none ↦ none
      | some op ↦ some (record {
        ranges = op.ranges;
        num_ranges = op.num_ranges;
        dst_nsid = op.dst_nsid;
        dst_lba = op.dst_lba;
        slot = idx;
      })
    ] in
    if ans.ns_found
    then (if ans.accepted
        then record {
          submitted = true;
          command = command;
          world = record filled {
            ctx = record (filled.ctx) { outstanding_io = add32 w.ctx.outstanding_io 1 };
          };
        }
        else record {
          submitted = false;
          command = command;
          world = record back { ctx = handle_backpressure back.ctx };
        })
    else record { submitted = false; command = none; world = back }

-- With the operation at `idx` taken, whose buffer is `ranges`.
unfoldable pub generate_into : Alloc → XcopyGenerator → Answers → ℕ → Option ℕ → World → Submission
unfolding retry give_up issue
generate_into alloc g ans idx ranges w =
    let temp = record (Operation.empty) { ranges = ranges } in
    let o = retry alloc g ans.draws w.ctx.range_size max_retries 0 temp w.mgr w.heap in
    let w' = record w { mgr = o.mgr; heap = o.heap } in
    if o.success then issue ans idx o.op w' else give_up idx o.op w'

-- `if (deferred > 0) deferred_count--`
unfoldable pub take_deferred : PollThreadContext → PollThreadContext
take_deferred ctx =
    if ltb 0 ctx.deferred_count
    then record ctx { deferred_count = sub32 ctx.deferred_count 1 }
    else ctx

abbrev pub idle : World → Submission
idle w = record { submitted = false; command = none; world = w }

-- From the deferred operations on.
unfoldable pub acquire_and_generate : Alloc → XcopyGenerator → Answers → World → Submission
unfolding generate_into take_deferred slot_at
acquire_and_generate alloc g ans w =
    let ctx = take_deferred w.ctx in
    let (slot, pool, h) = acquire ctx.op_pool w.heap in
    let w' = record w { ctx = record ctx { op_pool = pool }; heap = h } in
    elim slot [
      | none ↦ idle w'
      | some idx ↦ elim (slot_at idx pool) [
        | none ↦ idle w'
        | some op ↦ generate_into alloc g ans idx op.ranges w'
      ]
    ]

unfoldable pub submit_next_io : Alloc → XcopyGenerator → Answers → World → Submission
unfolding acquire_and_generate
submit_next_io alloc g ans w = if w.ctx.should_stop then idle w else elim w.ctx.qpair [
  | none ↦ idle w
  | some q ↦
      if leb w.ctx.target_iodepth w.ctx.outstanding_io
      then idle w
      else acquire_and_generate alloc g ans w
]
