-- ===== src/Poll/Tests.antt =====
-- One worker: the theorems at a concrete world of depth 1, with a pool of two operations.
use xcopy_block_io.Common.{◌≡◌, ◌≢◌, refl, [], ◌∷◌, true, false, none, some, arith}
use xcopy_block_io.Pool.{PooledOperation, OperationPool, fresh, acquire, scan}
use xcopy_block_io.Poll.Samples.{
  in_flight, busy, busy-Balanced, one_namespace, answers, slot, slots, pool, pool-IsValid, worker,
  no_more, eight, site, two_workers,
}
use xcopy_block_io.Poll.State.{World}
use xcopy_block_io.Poll.Submit.{submit_next_io, slot_at}
use xcopy_block_io.Poll.Complete.{Completion, xcopy_complete_cb}
use xcopy_block_io.Pool
use xcopy_block_io.Poll.Start.{
  per_thread_depth, create_on, attach, connect, good, launch, start_from, start, stop,
}
use xcopy_block_io.Poll.Lifecycle.{failed_start-stop}
use xcopy_block_io.Common.{All}
use xcopy_block_io.Poll.Retry.{Dangling, submit_next_io-Dangling}
use xcopy_block_io.Spdk
use xcopy_block_io.Spdk.{SpdkContext}
use xcopy_block_io.Spdk.Samples.{target}
use xcopy_block_io.Poll.Reconnect.{Reconnected, reconnect_qpair, reconnect_qpair-Reconnected}
use xcopy_block_io.Poll.Flight.{
  Balanced, Steps, InFlight, submit, complete, stay, next, Steps-Balanced, acquire_below_depth,
}

worker-Balanced : Balanced 1 (worker 8)
worker-Balanced = record {
  depth = refl;
  pool = record { ops = slots; valid = pool-IsValid; count = refl };
  within = omega arith;
  sized = refl;
  small = omega arith;
}

busy-InFlight : InFlight busy 0
unfolding InFlight slot_at
busy-InFlight = (in_flight, refl, refl)

-- The queue is full: a failure for lack of room.
abbrev full : Completion
full = record { sc = 7; is_error = true }

abbrev completed : World
completed = (xcopy_complete_cb no_more one_namespace answers 9000 full (some 0) busy).world

abbrev resubmitted : World
resubmitted = (submit_next_io no_more one_namespace answers completed).world

-- A completion, which submits the next command, and another submission.
completed_and_submitted : Steps no_more one_namespace busy resubmitted
completed_and_submitted =
    next busy completed resubmitted (complete answers 9000 full 0 busy busy-InFlight)
      (next completed resubmitted resubmitted (submit answers completed) (stay resubmitted))

Steps-Balanced_example : Balanced 1 resubmitted
Steps-Balanced_example =
    Steps-Balanced no_more one_namespace 1 busy resubmitted completed_and_submitted busy-Balanced

acquire_below_depth_example : (acquire pool (worker 8).heap).0 ≢ none
acquire_below_depth_example =
    acquire_below_depth no_more one_namespace answers 1 (worker 8) worker-Balanced (omega arith)
      (omega arith)

submit_next_io-Dangling_example :
    Dangling (worker 65537) 0 64 (submit_next_io no_more one_namespace answers (worker 65537))
unfolding acquire scan
submit_next_io-Dangling_example =
    submit_next_io-Dangling no_more one_namespace answers (worker 65537) 1 0 64 slots (slot 0 64)
      refl refl (omega arith) pool-IsValid refl refl refl (omega arith)

-- The second worker gets no pool; the first has been launched.
failed_start_example :
    (stop (start eight site two_workers).1 ≡ (start eight site two_workers).1)
    × All (λ ctx. ctx.should_stop ≡ false) (stop (start eight site two_workers).1).threads
unfolding start per_thread_depth start_from launch attach create_on connect Pool.init Pool.init_from
    Pool.new_operations Pool.set_up Pool.cleanup Pool.free_buffers Pool.free_buffer
failed_start_example = failed_start-stop eight site two_workers refl refl

abbrev connected_target : SpdkContext
connected_target = record Spdk.new_context { ctrlrs = 7 ∷ []; initialized = true }

reconnect_qpair_example :
    Reconnected target connected_target
      (λ k. good)
      8
      0
      (reconnect_qpair target connected_target (λ k. good) 8 0)
reconnect_qpair_example = reconnect_qpair-Reconnected target connected_target (λ k. good) 8 0
