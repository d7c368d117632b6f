-- ===== src/Poll/System/Samples.antt =====
-- For the tests: one worker sends a command, which completes, and is then told to stop.
use xcopy_block_io.Common.{refl, [], ◌∷◌, map, false, some}
use xcopy_block_io.Pool
use xcopy_block_io.Lba.{LbaManager, get_random_src_lba, reserve, get_and_advance_dst_lba}
use xcopy_block_io.Generator.{generate, get_ns_size, effective_src_nsid}
use xcopy_block_io.Generator.Operation.{allocate_ranges}
use xcopy_block_io.Statistics
use xcopy_block_io.Poll.Samples.{one_namespace, answers, eight, site, two_workers}
use xcopy_block_io.Poll.State.{PollThreadContext, new_context}
use xcopy_block_io.Poll.Submit.{submit_next_io}
use xcopy_block_io.Poll.Complete.{Completion, xcopy_complete_cb}
use xcopy_block_io.Poll.Balance.{sent}
use xcopy_block_io.Poll.Flight.{InFlight}
use xcopy_block_io.Poll.Start.{
  PollThreadManager, start, start_from, launch, attach, create_on, connect, per_thread_depth,
  ask_stop,
}
use xcopy_block_io.Poll.System.{
  System, seen, put, at_start, submits, completes, stops, Run, here, next,
}

abbrev pub one_worker : PollThreadManager
one_worker = record two_workers { num_cores = 1; iodepth = 4 }

abbrev pub mgr : LbaManager
mgr = record { namespace_size = 1000; dst_start = 0; dst_end = 1000; dst_current = 16 }

abbrev pub ready : System
ready = at_start (start eight site one_worker).1 mgr Statistics.init

-- The first worker's context.
abbrev pub first : System → PollThreadContext
first s = elim s.workers [ [] ↦ new_context | c ∷ cs ↦ c ]

abbrev pub sending : System
sending = put ready 0 (submit_next_io eight one_namespace answers (seen ready (first ready))).world

abbrev pub done : Completion
done = record { sc = 0; is_error = false }

abbrev pub completed : System
completed =
    put sending 0
      (xcopy_complete_cb eight one_namespace answers 9000 done (some 0)
        (seen sending (first sending))).world

abbrev pub asked_to_stop : System
asked_to_stop = record completed { workers = map ask_stop completed.workers }

pub sending-InFlight : InFlight (seen sending (first sending)) 0
unfolding start start_from launch attach create_on connect per_thread_depth Pool.init Pool.init_from
    Pool.new_operations Pool.set_up Pool.cleanup Pool.free_buffers Pool.free_buffer submit_next_io
    sent Pool.acquire Pool.scan generate allocate_ranges get_ns_size get_random_src_lba reserve
    get_and_advance_dst_lba effective_src_nsid InFlight
sending-InFlight = (_, refl, refl)

pub ran : Run eight one_namespace ready asked_to_stop 2
unfolding start start_from launch attach create_on connect per_thread_depth Pool.init Pool.init_from
    Pool.new_operations Pool.set_up Pool.cleanup Pool.free_buffers Pool.free_buffer submit_next_io
    sent Pool.acquire Pool.scan generate allocate_ranges get_ns_size get_random_src_lba reserve
    get_and_advance_dst_lba effective_src_nsid xcopy_complete_cb Pool.release
ran =
    next completed asked_to_stop 2 0
      (next sending completed 1 1
        (next ready sending 0 1 here (submits 0 (first ready) answers refl refl refl))
        (completes 0 0 (first sending) answers 9000 done refl sending-InFlight refl refl))
      (stops refl refl)
