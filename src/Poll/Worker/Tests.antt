-- ===== src/Poll/Worker/Tests.antt =====
-- The loop of a worker: the theorems at a worker that loses its queue pair.
use xcopy_block_io.Common.{ℕ, inr, [], ◌∷◌, true, false, Option, none, some, arith}
use xcopy_block_io.Dma.{zeroed}
use xcopy_block_io.Statistics
use xcopy_block_io.Poll.Samples.{one_namespace, answers, no_more}
use xcopy_block_io.Poll.State.{new_context, World}
use xcopy_block_io.Poll.Worker.{Worker, Round, Bounded, run, run-Bounded}

abbrev world : Option ℕ → World
world qpair = record {
  ctx = record new_context { qpair = qpair; running = true };
  mgr = record { namespace_size = 1000; dst_start = 0; dst_end = 1000; dst_current = 16 };
  stats = Statistics.init;
  heap = record { live = []; content = λ a. zeroed 2; requests = 0 };
}

-- A round in which SPDK reports an error, and reconnecting would work.
abbrev broken : Round
broken = record {
  answers = λ i. answers;
  stopped = false;
  callbacks = [];
  num_completions = none;
  new_qpair = some 2;
}

-- Connected, after nine errors.
abbrev shaky : Worker
shaky = record {
  world = world (some 1);
  consecutive_errors = 9;
  reconnect_attempts = 0;
  idle_cycles = 1000;
  deleted = [];
}

run-Bounded_example : Bounded (run no_more one_namespace (broken ∷ broken ∷ []) shaky)
run-Bounded_example =
    run-Bounded no_more one_namespace (broken ∷ broken ∷ []) shaky
      (record { errors = inr (omega arith); attempts = omega arith; idle = omega arith })

abbrev given_up : Worker
given_up = record shaky { world = world none; reconnect_attempts = 10 }
