-- ===== src/Poll/Exit/Wait.antt =====
-- PollThreadManager::wait after the threads have ended: what is given back.
use xcopy_block_io.Common.{
  ℕ, suc, ◌+◌, ◌≡◌, refl, inl, inr, List, [], ◌∷◌, ◌++◌, none, length, All, Option-cases, ap, ◌∙◌,
}
use xcopy_block_io.Dma.{Alloc, Heap}
use xcopy_block_io.Pool
use xcopy_block_io.Pool.{PooledOperation, cleanup}
use xcopy_block_io.Generator.{XcopyGenerator}
use xcopy_block_io.Poll.State.{PollThreadContext, World}
use xcopy_block_io.Poll.Start.{PollThreadManager, qpairs}
use xcopy_block_io.Poll.Worker.{Round, Callback}
use xcopy_block_io.Poll.Exit.{leave, thread_func, give_back, wait}

-- A worker of which nothing is left: the null pointers of its queue pair and its pool.
unfoldable pub Released : PollThreadContext → Type 0
Released ctx = (ctx.qpair ≡ none) × (ctx.op_pool ≡ Pool.empty)

thread_func-qpair :
    (alloc : Alloc) (g : XcopyGenerator) (rounds : List Round) (polls : ℕ → List Callback)
    (w : World)
    → (thread_func alloc g rounds polls w).0.ctx.qpair ≡ none
unfolding thread_func leave
thread_func-qpair alloc g rounds polls w = elim (Option-cases w.ctx.qpair) [
  | inl e ↦ rw (e, thread_func) e
  | inr (q, e) ↦ rw (e, thread_func) refl
]

give_back-Released : (ctxs : List PollThreadContext) (h : Heap) → All Released (give_back ctxs h).0
unfolding give_back Released
give_back-Released [] h = tt
give_back-Released (ctx ∷ ctxs) h =
    ((refl, refl), give_back-Released ctxs (cleanup ctx.op_pool h).1)

give_back-length :
    (ctxs : List PollThreadContext) (h : Heap) → length (give_back ctxs h).0 ≡ length ctxs
unfolding give_back
give_back-length [] h = refl
give_back-length (ctx ∷ ctxs) h = ap suc (give_back-length ctxs (cleanup ctx.op_pool h).1)

module _ (alloc : Alloc) (g : XcopyGenerator) (rounds : ℕ → List Round)
    (polls : ℕ → ℕ → List Callback) where
  -- The contexts of workers after their threads, the `i`-th and those after it.
  pub ended : ℕ → List World → List PollThreadContext
  ended i [] = []
  ended i (w ∷ ws) = (thread_func alloc g (rounds i) (polls i) w).0.ctx ∷ ended (i + 1) ws

  ended-qpairs : (i : ℕ) (ws : List World) → qpairs (ended i ws) ≡ []
  unfolding ended qpairs
  ended-qpairs i [] = refl
  ended-qpairs i (w ∷ ws) =
      rw (thread_func-qpair alloc g (rounds i) (polls i) w, qpairs) (ended-qpairs (i + 1) ws)

  -- After the threads have ended, `wait` leaves every worker with neither queue pair nor pool. It
  -- deletes no queue pair: the thread of each worker, whatever it met, has set its pointer to null.
  pub wait_lem :
      (ws : List World) (m : PollThreadManager)
      → m.threads ≡ ended 0 ws
      → All Released (wait m).threads
        × (length (wait m).threads ≡ length m.threads)
        × ((wait m).deleted ≡ m.deleted)
  unfolding wait
  wait_lem ws m e = (
    give_back-Released m.threads m.heap,
    give_back-length m.threads m.heap,
    ap (λ qs. qs ++ m.deleted) (ap qpairs e ∙ ended-qpairs 0 ws),
  )
