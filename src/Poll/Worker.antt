-- ===== src/Poll/Worker.antt =====
-- PollThreadManager::thread_func: the loop of a worker, with its queue pair lost and found again. The
-- admin polls, the sleeps and the affinity, which change none of this state, are left out.
mod Tests
use xcopy_block_io.Common.{
  ℕ, zero, suc, ◌+◌, ◌≤◌, ◌<◌, ◌≡◌, ◌≢◌, refl, List, [], ◌∷◌, Bool, true, false, Option, none, some,
  arith, ltb, leb, ◌==◌, ◌&&◌, if◌then◌else◌, Bool-cases, Option-cases, ◌⊎◌, inl, inr, subst, sym,
}
use xcopy_block_io.Dma.{Alloc}
use xcopy_block_io.Generator.{XcopyGenerator}
use xcopy_block_io.Poll.State.{World}
use xcopy_block_io.Poll.Start.{ask_stop}
use xcopy_block_io.Poll.Submit.{Answers}
use xcopy_block_io.Poll.Complete.{Completion, xcopy_complete_cb, submit_batch}

-- The variables of `thread_func`, the world, and the queue pairs deleted.
pub record Worker : Type 0 where
  pub world : World
  pub consecutive_errors : ℕ
  pub reconnect_attempts : ℕ
  pub idle_cycles : ℕ
  pub deleted : List ℕ

abbrev pub max_consecutive_errors : ℕ
max_consecutive_errors = 10

abbrev pub max_reconnect_attempts : ℕ
max_reconnect_attempts = 10

-- A callback that SPDK makes from `spdk_nvme_qpair_process_completions`.
pub record Callback : Type 0 where
  pub answers : Answers
  pub end_time_ns : ℕ
  pub completion : Completion
  pub slot : Option ℕ

-- What happens outside in a round: the answers to the submissions, whether the store of `stop` reaches
-- the thread after them, the callbacks, the count of completions that SPDK returns (`none` if
-- negative), and the queue pair that reconnecting gives.
pub record Round : Type 0 where
  pub answers : ℕ → Answers
  pub stopped : Bool
  pub callbacks : List Callback
  pub num_completions : Option ℕ
  pub new_qpair : Option ℕ

unfoldable pub deliver : Alloc → XcopyGenerator → List Callback → World → World
deliver alloc g [] w = w
deliver alloc g (c ∷ cs) w =
    deliver alloc g cs
      (xcopy_complete_cb alloc g c.answers c.end_time_ns c.completion c.slot w).world

unfoldable pub set_qpair : Option ℕ → World → World
set_qpair q w = record w { ctx = record (w.ctx) { qpair = q } }

-- After the store of `stop` to `should_stop`.
abbrev pub told : World → World
told w = record w { ctx = ask_stop w.ctx }

unfoldable pub hear : Bool → World → World
hear stopped w = if stopped then told w else w

-- A negative count of completions, on queue pair `q`.
unfoldable pub count_error : ℕ → Worker → Worker
unfolding set_qpair
count_error q k =
    let errors = k.consecutive_errors + 1 in
    if leb max_consecutive_errors errors
    then record k {
      world = set_qpair none k.world;
      consecutive_errors = errors;
      reconnect_attempts = 0;
      deleted = q ∷ k.deleted;
    }
    else record k { consecutive_errors = errors }

-- Any other count.
unfoldable pub count_idle : ℕ → ℕ → Worker → Worker
count_idle num_completions submitted k =
    let idle = k.idle_cycles + 1 in
    record k {
      consecutive_errors = 0;
      idle_cycles =
          if num_completions == 0 && submitted == 0 then (if ltb 1000 idle then 0 else idle) else 0;
    }

unfoldable pub reconnect : Option ℕ → Worker → Worker
unfolding set_qpair
reconnect new_qpair k =
    if ltb k.reconnect_attempts max_reconnect_attempts
    then (elim new_qpair [
      | none ↦ record k { reconnect_attempts = k.reconnect_attempts + 1 }
      | some q ↦ record k {
        world = set_qpair (some q) k.world;
        consecutive_errors = 0;
        reconnect_attempts = 0;
      }
    ])
    else k

-- With the queue pair `q`.
unfoldable pub busy_round : Alloc → XcopyGenerator → Round → ℕ → Worker → Worker
unfolding count_error count_idle deliver hear
busy_round alloc g r q k =
    let (submitted, w) = submit_batch alloc g r.answers 32 0 k.world in
    let k' = record k { world = deliver alloc g r.callbacks (hear r.stopped w) } in
    elim r.num_completions [ none ↦ count_error q k' | some n ↦ count_idle n submitted k' ]

-- The body of the loop.
unfoldable pub round : Alloc → XcopyGenerator → Round → Worker → Worker
unfolding busy_round reconnect
round alloc g r k = elim k.world.ctx.qpair [
  | none ↦ reconnect r.new_qpair k
  | some q ↦ busy_round alloc g r q k
]

-- The loop, over the rounds considered, or until `should_stop` is seen.
unfoldable pub run : Alloc → XcopyGenerator → List Round → Worker → Worker
unfolding round
run alloc g [] k = k
run alloc g (r ∷ rs) k = if k.world.ctx.should_stop then k else run alloc g rs (round alloc g r k)

-- A connected worker has seen fewer than ten errors in a row; attempts and idle cycles are bounded.
pub record Bounded (k : Worker) : Type 0 where
  pub errors : (k.world.ctx.qpair ≡ none) ⊎ (k.consecutive_errors < max_consecutive_errors)
  pub attempts : k.reconnect_attempts ≤ max_reconnect_attempts
  pub idle : k.idle_cycles ≤ 1000

reconnect-Bounded :
    (q : Option ℕ) (k : Worker) → k.world.ctx.qpair ≡ none → Bounded k → Bounded (reconnect q k)
unfolding reconnect set_qpair
reconnect-Bounded q k e b = record {
  errors = ground (arith, e);
  attempts = ground (arith, b.attempts);
  idle = ground (arith, b.idle);
}

count_idle-Bounded : (n submitted : ℕ) (k : Worker) → Bounded k → Bounded (count_idle n submitted k)
unfolding count_idle
count_idle-Bounded n submitted k b = record {
  errors = inr (omega arith);
  attempts = b.attempts;
  idle = ground (arith, b.idle);
}

count_error-Bounded : (q : ℕ) (k : Worker) → Bounded k → Bounded (count_error q k)
unfolding count_error set_qpair
count_error-Bounded q k b = record {
  errors = ground arith;
  attempts = ground (arith, b.attempts);
  idle = ground (arith, b.idle);
}

module _ (alloc : Alloc) (g : XcopyGenerator) where
  busy_round-Bounded :
      (r : Round) (q : ℕ) (k : Worker)
      → k.consecutive_errors < max_consecutive_errors
      → Bounded k
      → Bounded (busy_round alloc g r q k)
  unfolding busy_round
  busy_round-Bounded r q k few b =
      let sent = submit_batch alloc g r.answers 32 0 k.world in
      let k' = record k { world = deliver alloc g r.callbacks (hear r.stopped sent.1) } in
      let b' : Bounded k' = record { errors = inr few; attempts = b.attempts; idle = b.idle } in
      elim (Option-cases r.num_completions) [
        | inl e ↦ rw e (count_error-Bounded q k' b')
        | inr (n, e) ↦ rw e (count_idle-Bounded n (sent.0) k' b')
      ]

  round-Bounded : (r : Round) (k : Worker) → Bounded k → Bounded (round alloc g r k)
  unfolding round
  round-Bounded r k b = elim (Option-cases k.world.ctx.qpair) [
    | inl e ↦ subst Bounded (sym (lost e)) (reconnect-Bounded r.new_qpair k e b)
    | inr (q, e) ↦
        subst Bounded (sym (held q e)) (busy_round-Bounded r q k (ground (arith, e, b.errors)) b)
  ]
    where
      lost : k.world.ctx.qpair ≡ none → round alloc g r k ≡ reconnect r.new_qpair k
      lost e = ground (arith, e)

      held : (q : ℕ) → k.world.ctx.qpair ≡ some q → round alloc g r k ≡ busy_round alloc g r q k
      held q e = ground (arith, e)

  -- Over any rounds, a bounded worker stays bounded: while it holds a queue pair, it counts fewer than
  -- ten errors in a row; it counts at most ten attempts to reconnect and at most 1000 idle cycles.
  pub run-Bounded : (rs : List Round) (k : Worker) → Bounded k → Bounded (run alloc g rs k)
  unfolding run
  run-Bounded [] k b = b
  run-Bounded (r ∷ rs) k b = elim (Bool-cases k.world.ctx.should_stop) [
    | inl e ↦ subst Bounded (sym (stopped e)) b
    | inr e ↦
        subst Bounded (sym (goes_on e)) (run-Bounded rs (round alloc g r k) (round-Bounded r k b))
  ]
    where
      stopped : k.world.ctx.should_stop ≡ true → run alloc g (r ∷ rs) k ≡ k
      stopped e = ground (arith, e)

      goes_on :
          k.world.ctx.should_stop ≡ false
          → run alloc g (r ∷ rs) k ≡ run alloc g rs (round alloc g r k)
      goes_on e = ground (arith, e)

  -- A worker without a queue pair that has made its ten attempts never gets one again: no round
  -- changes anything, whatever reconnecting would give.
  pub run_exhausted :
      (rs : List Round) (k : Worker)
      → k.world.ctx.qpair ≡ none
      → k.reconnect_attempts ≡ max_reconnect_attempts
      → run alloc g rs k ≡ k
  unfolding run round reconnect
  run_exhausted [] k e full = refl
  run_exhausted (r ∷ rs) k e full =
      let rest = run_exhausted rs k e full in
      let still : round alloc g r k ≡ k = ground (arith, e, full) in ground (arith, rest, still)
