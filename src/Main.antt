-- ===== src/Main.antt =====
-- src/main.cpp: the program, from the command line to the last line of the run.
-- The clock, the signals and the workers, which run beside the loop, are answered by arguments; the
-- printed messages are left out.
pub mod Loop
pub mod Prepare
pub mod End
pub mod Report
mod Tests
use Prim.Native.String.{String}
use xcopy_block_io.Double.{Doubles}
use xcopy_block_io.Timer.{ns_to_ms}
use xcopy_block_io.Reporter.Text.{report_text, human_report_text}
use xcopy_block_io.Common.{
  ℕ, zero, suc, ◌+◌, List, [], ◌∷◌, map, not, Bool, true, false, Option, none, some, ltb, leb, ◌==◌,
  ◌&&◌, ◌||◌, if◌then◌else◌, sub64, mul64,
}
use xcopy_block_io.Dma.{Heap}
use xcopy_block_io.Config.{
  Config, CmdOption, Status, parsed, rejected, helped, default_config, parse_args,
}
use xcopy_block_io.Spdk
use xcopy_block_io.Spdk.{
  Library, SpdkContext, NamespaceInfo, get_ns_info, supports_cross_namespace_copy,
}
use xcopy_block_io.Lba
use xcopy_block_io.Lba.{LbaManager}
use xcopy_block_io.Generator.{Namespace, XcopyGenerator}
use xcopy_block_io.Poll.State.{PollThreadContext}
use xcopy_block_io.Poll.Start.{PollThreadManager, stop}
use xcopy_block_io.Poll.Exit.{wait}
use xcopy_block_io.Statistics.{Statistics}
use xcopy_block_io.Monitor.{LiveMonitor, Line, update}

-- `XcopyGenerator`'s constructor. The random numbers are drawn later.
pub new_generator : ℕ → List ℕ → ℕ → List (Option Namespace) → Bool → Bool → ℕ → XcopyGenerator
new_generator max_ranges src_nsids dst_nsid namespaces enable supports fixed_ranges = record {
  max_ranges = max_ranges;
  fixed_ranges = fixed_ranges;
  src_nsids = src_nsids;
  dst_nsid = dst_nsid;
  namespaces = namespaces;
  enable_cross_namespace = enable;
  target_supports_cross_namespace = supports;
}

-- `PollThreadManager`'s constructor.
pub new_manager : Config → Heap → PollThreadManager
new_manager config h = record {
  num_cores = config.num_cores;
  iodepth = config.iodepth;
  range_size = config.range_size;
  max_ranges = config.max_ranges;
  threads = [];
  running = false;
  deleted = [];
  heap = h;
}

-- The program before the threads start: a return of 1, with the context as its destructor leaves it, or
-- the objects made. `ns_id` is what `spdk_nvme_ns_get_id` answers.
pub data Prepared : Type 0 where
  refused : SpdkContext → Prepared
  ready : Config → SpdkContext → LbaManager → XcopyGenerator → PollThreadManager → Prepared

abbrev pub answered : Library → (ℕ → ℕ) → NamespaceInfo → Option Namespace
answered lib ns_id info =
    some (record { id = ns_id info.ns; num_sectors = lib.num_sectors info.ns })

-- From the namespace of the destination on.
pub construct : Library → (ℕ → ℕ) → Heap → Config → SpdkContext → NamespaceInfo → Prepared
unfolding new_generator new_manager
construct lib ns_id h config c info =
    let namespaces = map (answered lib ns_id) c.namespaces in
    let dst_lba_end = if config.dst_lba_end == 0 then info.size_blocks else config.dst_lba_end in
    let supports = supports_cross_namespace_copy c in
    ready config c (Lba.init info.size_blocks config.dst_lba_start dst_lba_end)
      (new_generator config.max_ranges config.src_nsids config.dst_nsid namespaces
        config.enable_cross_namespace supports config.fixed_ranges)
      (new_manager config h)

-- With the configuration accepted. `none` stands for a search for namespaces that does not end.
pub connect_target : Library → (ℕ → ℕ) → Heap → Config → SpdkContext → Option Prepared
unfolding construct
connect_target lib ns_id h config c =
    elim (Spdk.init lib config.traddrs config.trsvcid config.hostnqn config.subnqn c) [
      | none ↦ none
      | some (false, c') ↦ some (refused (Spdk.cleanup c'))
      | some (true, c') ↦ elim (get_ns_info c' config.dst_nsid) [
        | none ↦ some (refused (Spdk.cleanup (Spdk.cleanup c')))
        | some info ↦ some (construct lib ns_id h config c' info)
      ]
    ]

pub prepare : (String → ℕ) → Library → (ℕ → ℕ) → Heap → List CmdOption → Option Prepared
unfolding connect_target
prepare number lib ns_id h options =
    let (status, config) = parse_args number options default_config in
    elim status [
      | parsed ↦
          connect_target lib ns_id h config (Spdk.set_verbose config.verbose Spdk.new_context)
      | rejected ↦ some (refused Spdk.new_context)
      | helped ↦ some (refused Spdk.new_context)
    ]

-- What a round of the loop reads: `g_running`, the clock for the time of the run and for the monitor,
-- and the counters.
pub record Round : Type 0 where
  pub running : Bool
  pub now_ns : ℕ
  pub update_ns : ℕ
  pub stats : Statistics

-- The two ways out of the loop, at the head of a round.
abbrev pub is_over : ℕ → ℕ → Round → Bool
is_over runtime_sec start_time_ns r =
    let elapsed_ns = sub64 r.now_ns start_time_ns in
    not r.running || (ltb 0 runtime_sec && leb (mul64 runtime_sec 1000000000) elapsed_ns)

-- The loop of `main` from round `k` on, with fuel; `none` means that it ran out.
pub run_loop : ℕ → ℕ → (ℕ → Round) → ℕ → ℕ → LiveMonitor → Option (LiveMonitor × List Line)
run_loop runtime_sec start_time_ns rounds zero k m = none
run_loop runtime_sec start_time_ns rounds (suc fuel) k m =
    let r = rounds k in
    let (m', printed) = update r.update_ns r.stats m in
    let rest = run_loop runtime_sec start_time_ns rounds fuel (k + 1) m' in
    if is_over runtime_sec start_time_ns r then some (m, []) else elim rest [
      | none ↦ none
      | some (last, lines) ↦ elim printed [
        | none ↦ some (last, lines)
        | some line ↦ some (last, line ∷ lines)
      ]
    ]

-- The report of a run, with the clock before and after it.
module _ (f : Doubles) where
  unfoldable pub elapsed_sec : ℕ → ℕ → f.Double
  elapsed_sec start_time_ns end_time_ns =
      f.div (ns_to_ms f (sub64 end_time_ns start_time_ns)) (f.of 1000)

  unfoldable pub final_report : Config → Statistics → ℕ → ℕ → Option (List ℕ)
  unfolding elapsed_sec
  final_report config stats start_time_ns end_time_ns =
      let elapsed = elapsed_sec start_time_ns end_time_ns in
      if config.json_output
      then report_text f stats config elapsed
      else human_report_text f stats elapsed

-- The end of `main`, with what the threads of the workers leave when they have ended.
pub shut_down :
    List PollThreadContext → PollThreadManager → SpdkContext → PollThreadManager × SpdkContext
shut_down left m c = (wait (record (stop m) { threads = left }), Spdk.cleanup c)

-- The destructors, after the return.
pub destroy : PollThreadManager → SpdkContext → PollThreadManager × SpdkContext
destroy m c = (wait (stop m), Spdk.cleanup c)
