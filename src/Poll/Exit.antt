-- ===== src/Poll/Exit.antt =====
-- PollThreadManager::thread_func and wait: the end of a worker, and what the manager gives back.
pub mod Drain
pub mod Wait
mod Tests
use xcopy_block_io.Common.{
  ℕ, zero, suc, ◌+◌, ◌-◌, ◌≤◌, ◌<◌, ◌≡◌, refl, ◌⊎◌, inl, inr, List, [], ◌∷◌, ◌++◌, map, Bool, true,
  false, Option, none, some, arith, length, All, ltb, if◌then◌else◌, Bool-cases, Option-cases,
  sub32, sym, ap, subst, ◌∙◌,
}
use xcopy_block_io.Dma.{Alloc, Heap}
use xcopy_block_io.Pool
use xcopy_block_io.Pool.{PooledOperation, cleanup}
use xcopy_block_io.Errors.{is_saturation_error}
use xcopy_block_io.Generator.{XcopyGenerator}
use xcopy_block_io.Poll.State.{PollThreadContext, World}
use xcopy_block_io.Poll.Submit.{Answers, submit_next_io, slot_at, idle, Submission}
use xcopy_block_io.Poll.Complete.{
  Completion, finish, note_failure, note_success, add_deferred, is_failure, xcopy_complete_cb,
}
use xcopy_block_io.Poll.Flight.{Balanced, InFlight, complete-Balanced}
use xcopy_block_io.Poll.Start.{PollThreadManager, qpairs}
use xcopy_block_io.Poll.Worker.{Worker, Round, Callback, deliver, told, run}

abbrev pub max_drain_cycles : ℕ
max_drain_cycles = 10000

-- The loop that drains the commands outstanding, with the cycles left, from cycle `k` on. A poll makes
-- SPDK call back for the completions that it has.
unfoldable pub drain : Alloc → XcopyGenerator → (ℕ → List Callback) → ℕ → ℕ → World → World
drain alloc g polls zero k w = w
drain alloc g polls (suc n) k w =
    let rest = drain alloc g polls n (k + 1) (deliver alloc g (polls k) w) in
    if ltb 0 w.ctx.outstanding_io then rest else w

unfoldable pub leave : World → World
leave w = record w { ctx = record (w.ctx) { qpair = none; running = false } }

-- The variables at the head of the loop.
abbrev pub begin : World → Worker
begin w = record {
  world = record w { ctx = record (w.ctx) { running = true } };
  consecutive_errors = 0;
  reconnect_attempts = 0;
  idle_cycles = 0;
  deleted = [];
}

-- From the end of the loop on.
unfoldable pub after_loop : Alloc → XcopyGenerator → (ℕ → List Callback) → World → World
unfolding drain
after_loop alloc g polls w = elim w.ctx.qpair [
  | none ↦ w
  | some q ↦ drain alloc g polls max_drain_cycles 0 w
]

-- The thread of a worker. If the store of `stop` has not reached it in one of the rounds, it does
-- after them; the loop ends at the next test of `should_stop`, and the polls of the drain follow.
unfoldable pub thread_func :
    Alloc → XcopyGenerator → List Round → (ℕ → List Callback) → World → World × List ℕ
unfolding after_loop leave
thread_func alloc g rounds polls w =
    let k = run alloc g rounds (begin w) in
    let stopping = told k.world in
    elim w.ctx.qpair [
      | none ↦ (w, [])
      | some q ↦ (leave (after_loop alloc g polls stopping), k.deleted)
    ]

-- The loop of `wait` over the workers, whose threads have ended: what is left of each, and the memory.
unfoldable pub give_back : List PollThreadContext → Heap → List PollThreadContext × Heap
give_back [] h = ([], h)
give_back (ctx ∷ ctxs) h =
    let (pool, h') = cleanup ctx.op_pool h in
    let (rest, h'') = give_back ctxs h' in
    (record ctx { qpair = none; op_pool = Pool.empty } ∷ rest, h'')

unfoldable pub wait : PollThreadManager → PollThreadManager
unfolding give_back
wait m =
    let (threads, h) = give_back m.threads m.heap in
    record m { threads = threads; heap = h; deleted = qpairs m.threads ++ m.deleted }
