-- ===== src/Main/Tests.antt =====
-- The program at a concrete command line, and its loop at a concrete clock.
use Prim.Native.String.{String}
use xcopy_block_io.Common.{ℕ, ◌+◌, ◌*◌, List, [], ◌∷◌, true, arith}
use xcopy_block_io.Dma.{Heap, zeroed}
use xcopy_block_io.Config.{CmdOption, traddr_opt, json_opt}
use xcopy_block_io.Statistics
use xcopy_block_io.Monitor.{new_monitor}
use xcopy_block_io.Spdk
use xcopy_block_io.Spdk.{SpdkContext}
use xcopy_block_io.Poll.Samples.{worker, no_more, one_namespace}
use xcopy_block_io.Poll.Start.{PollThreadManager}
use xcopy_block_io.Poll.Worker.{Callback}
use xcopy_block_io.Poll.Exit.Wait.{ended}
use xcopy_block_io.Main.End.{Ended, shut_down_lem}
use xcopy_block_io.Main.{Round, run_loop, shut_down, destroy}
use xcopy_block_io.Common.{refl}
use xcopy_block_io.Config.{Config}
use xcopy_block_io.Double.Fixed.{thousandths, thousandths-Rounds}
use xcopy_block_io.Statistics.{get_snapshot}
use xcopy_block_io.Reporter.Wellformed.{IsPrintable}
use xcopy_block_io.Reporter.Wellformed.Samples.{thousandths-Prints, config, config-IsPrintable}
use xcopy_block_io.Reporter.Wellformed.Finite.{no_percentiles}
use xcopy_block_io.Reporter.Wellformed.Whole.{IsReport, report_json}
use xcopy_block_io.Poll.Samples.{eight, site}
use xcopy_block_io.Poll.Start.{start}
use xcopy_block_io.Poll.System.Samples.{one_worker, mgr, asked_to_stop, ran}
use xcopy_block_io.Main.{elapsed_sec, final_report}
use xcopy_block_io.Main.Report.{final_report-IsReport}
use xcopy_block_io.Main.Loop
use xcopy_block_io.Main.Loop.{Sleeping, max_rounds, run_loop_lem}
use xcopy_block_io.Main.Prepare.{Start}

abbrev rounds : ℕ → Round
rounds k = record {
  running = true;
  now_ns = k * 50000000;
  update_ns = k * 50000000;
  stats = Statistics.init;
}

rounds-Sleeping : Sleeping 0 rounds (max_rounds 1)
rounds-Sleeping = record {
  first = omega arith;
  slept = λ k h. omega arith;
  word = λ k h. omega arith;
}

run_loop_lem_example :
    Loop.Ended 1 0 rounds 0
      (new_monitor 100)
      (run_loop 1 0 rounds (max_rounds 1 + 1) 0 (new_monitor 100))
run_loop_lem_example = run_loop_lem 1 0 rounds (new_monitor 100) (omega arith) rounds-Sleeping

abbrev ns_id : ℕ → ℕ
ns_id ns = 1

abbrev number : String → ℕ
number s = 32

abbrev memory : Heap
memory = record { live = []; content = λ a. zeroed 1; requests = 0 }

abbrev options : List CmdOption
options = traddr_opt "10.0.0.1" ∷ json_opt ∷ []

-- One worker, whose thread saw no round, and two controllers.
abbrev no_calls : ℕ → ℕ → List Callback
no_calls i k = []

abbrev manager : PollThreadManager
manager = record {
  num_cores = 1;
  iodepth = 1;
  range_size = 8;
  max_ranges = 2;
  threads = (worker 8).ctx ∷ [];
  running = true;
  deleted = [];
  heap = (worker 8).heap;
}

abbrev context : SpdkContext
context = record Spdk.new_context { ctrlrs = 7 ∷ 8 ∷ []; initialized = true }

shut_down_lem_example :
    let (m, c) =
      shut_down
        (ended no_more one_namespace (λ i. []) no_calls 0 (worker 8 ∷ []))
        manager
        context in
    Ended
      (ended no_more one_namespace (λ i. []) no_calls 0 (worker 8 ∷ []))
      manager
      m
      (destroy m c).0
      context
      c
      (destroy m c).1
shut_down_lem_example =
    shut_down_lem no_more one_namespace (λ i. []) no_calls (worker 8 ∷ []) manager context

abbrev with_json : Config
with_json = record config { json_output = true }

with_json-IsPrintable : IsPrintable with_json
with_json-IsPrintable = record {
  traddrs = config-IsPrintable.traddrs;
  trsvcid = refl;
  hostnqn = refl;
  runtime_sec = omega arith;
  iodepth = omega arith;
  num_cores = omega arith;
  max_ranges = omega arith;
  dst_nsid = omega arith;
}

-- The run takes 2.5 seconds.
final_report-IsReport_example :
    IsReport thousandths
      (report_json thousandths with_json
        (elapsed_sec thousandths 500 2500000500)
        (get_snapshot asked_to_stop.stats Statistics.init)
        (no_percentiles thousandths))
      (final_report thousandths with_json asked_to_stop.stats 500 2500000500)
final_report-IsReport_example =
    final_report-IsReport thousandths thousandths-Rounds thousandths-Prints eight one_namespace
      with_json (start eight site one_worker).1 mgr asked_to_stop 2 500 2500000500 refl
      with_json-IsPrintable ran
