-- ===== src/Poll/System/Tests.antt =====
-- A whole run at a concrete system.
use xcopy_block_io.Common.{ℕ, true, zero, suc, ◌+◌, ◌<◌, arith, none, refl, List, [], ◌∷◌, some}
use xcopy_block_io.Pool
use xcopy_block_io.Lba.{get_random_src_lba, reserve, get_and_advance_dst_lba}
use xcopy_block_io.Generator.{generate, get_ns_size, effective_src_nsid}
use xcopy_block_io.Generator.Operation.{allocate_ranges}
use xcopy_block_io.Poll.Samples.{one_namespace, answers, eight, site}
use xcopy_block_io.Poll.Submit.{submit_next_io}
use xcopy_block_io.Poll.Balance.{sent}
use xcopy_block_io.Poll.Start.{
  start, start_from, launch, attach, create_on, connect, per_thread_depth,
}
use xcopy_block_io.Poll.System.{seen, put}
use xcopy_block_io.Reporter.{generate_report}
use xcopy_block_io.Poll.Complete.{submit_batch}
use xcopy_block_io.Poll.State.{World}
use xcopy_block_io.Poll.Worker.{Callback, Round, round, busy_round, hear, run, deliver, told}
use xcopy_block_io.Poll.Exit.{begin, thread_func, max_drain_cycles}
use xcopy_block_io.Poll.Exit.Drain.{Flying, Prompt}
use xcopy_block_io.Poll.System.Accounted.{Accounted, Run-Accounted}
use xcopy_block_io.Poll.System.Loop.{IsTimely, AreTimely, Threaded, thread-Run}
use xcopy_block_io.Poll.System.Samples.{one_worker, mgr, asked_to_stop, ran, ready, first, done}

Run-Accounted_example : Accounted 4 1 2 asked_to_stop (generate_report asked_to_stop.stats)
unfolding per_thread_depth
Run-Accounted_example =
    Run-Accounted eight one_namespace site one_worker mgr asked_to_stop 2 refl ran (omega arith)

-- The only worker's loop makes one round, which fills its queue; the stop reaches it in that round, and
-- the drain is called back for the first command.
abbrev quiet : Round
quiet = record {
  answers = λ k. answers;
  stopped = true;
  callbacks = [];
  num_completions = some 0;
  new_qpair = none;
}

abbrev polls : ℕ → List Callback
polls zero = record { answers = answers; end_time_ns = 9000; completion = done; slot = some 0 } ∷ []
polls (suc k) = []

abbrev stopping : World
stopping = told (run eight one_namespace (quiet ∷ []) (begin (seen ready (first ready)))).world

polls-Flying : Flying eight one_namespace (polls 0) stopping
unfolding start start_from launch attach create_on connect per_thread_depth Pool.init Pool.init_from
    Pool.new_operations Pool.set_up Pool.cleanup Pool.free_buffers Pool.free_buffer submit_next_io
    sent Pool.acquire Pool.scan generate allocate_ranges get_ns_size get_random_src_lba reserve
    get_and_advance_dst_lba effective_src_nsid run round submit_batch busy_round hear Flying
polls-Flying = (0, 0, _, refl, refl, refl, refl, tt)

no_polls-Prompt : (n k : ℕ) (w : World) → 0 < k → Prompt eight one_namespace polls n k w
unfolding Prompt Flying
no_polls-Prompt zero k w pos = tt
no_polls-Prompt (suc n) zero w pos = absurd (omega arith)
no_polls-Prompt (suc n) (suc k) w pos =
    (tt, no_polls-Prompt n (suc k + 1) (deliver eight one_namespace [] w) (omega arith))

polls-Prompt : (n : ℕ) → Prompt eight one_namespace polls n 0 stopping
unfolding Prompt
polls-Prompt zero = tt
polls-Prompt (suc n) = (
  polls-Flying,
  no_polls-Prompt n 1 (deliver eight one_namespace (polls 0) stopping) (omega arith),
)

thread-Run_example :
    Threaded eight one_namespace
      (put ready 0 (begin (seen ready (first ready))).world)
      0
      32
      (thread_func eight one_namespace (quiet ∷ []) polls (seen ready (first ready))).0
unfolding start start_from launch attach create_on connect per_thread_depth Pool.init Pool.init_from
    Pool.new_operations Pool.set_up Pool.cleanup Pool.free_buffers Pool.free_buffer IsTimely
    AreTimely Flying
thread-Run_example =
    thread-Run eight one_namespace ready 0 (first ready) (quiet ∷ []) polls 0 refl refl
      ((λ q e. tt), tt) (polls-Prompt max_drain_cycles)
