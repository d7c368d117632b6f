-- ===== src/Poll/Exit/Tests.antt =====
-- The end of a worker with one command in flight.
use xcopy_block_io.Common.{
  ℕ, zero, suc, ◌+◌, ◌≡◌, refl, ◌⊎◌, List, [], ◌∷◌, true, false, some, arith,
}
use xcopy_block_io.Poll.Samples.{one_namespace, answers, no_more, busy, busy-Balanced, in_flight}
use xcopy_block_io.Poll.State.{World}
use xcopy_block_io.Poll.Submit.{slot_at}
use xcopy_block_io.Poll.Flight.{Balanced}
use xcopy_block_io.Poll.Worker.{Callback, deliver}
use xcopy_block_io.Poll.Exit.{drain}
use xcopy_block_io.Poll.Exit.Drain.{Prompt, Flying, delivered, drain_lem}

-- The worker has been asked to stop.
abbrev stopping : World
stopping = record busy { ctx = record (busy.ctx) { should_stop = true } }

stopping-Balanced : Balanced 1 stopping
stopping-Balanced = record {
  depth = refl;
  pool = busy-Balanced.pool;
  within = omega arith;
  sized = refl;
  small = omega arith;
}

-- The command completes in the second poll.
abbrev completion : Callback
completion = record {
  answers = answers;
  end_time_ns = 9000;
  completion = record { sc = 0; is_error = false };
  slot = some 0;
}

abbrev polls : ℕ → List Callback
polls zero = []
polls (suc zero) = completion ∷ []
polls (suc (suc k)) = []

stopping-Prompt : Prompt no_more one_namespace polls 2 0 stopping
unfolding Prompt Flying slot_at deliver
stopping-Prompt = (tt, ((0, 0, in_flight, refl, refl, refl, refl, tt), tt))

drain_lem_example :
    let v = drain no_more one_namespace polls 2 0 stopping in
    Balanced 1 v
    × ((v.ctx.outstanding_io ≡ 0)
        ⊎ (v.ctx.outstanding_io + delivered no_more one_namespace polls 2 0
            ≡ stopping.ctx.outstanding_io))
drain_lem_example =
    drain_lem no_more one_namespace 1 polls 2 0 stopping stopping-Prompt refl stopping-Balanced
