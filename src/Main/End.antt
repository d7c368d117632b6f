-- ===== src/Main/End.antt =====
-- The end of `main`: what is stopped, freed and detached, and that it is done once.
use xcopy_block_io.Common.{
  ℕ, ◌+◌, ◌-◌, none, some, Option-cases, inl, inr, if◌then◌else◌, ◌≡◌, refl, List, [], ◌∷◌, ◌++◌,
  false, All, arith, append_nil, ap, ◌∙◌,
}
use xcopy_block_io.Dma.{Heap, Alloc, count}
use xcopy_block_io.Pool.{OperationPool, cleanup}
use xcopy_block_io.Pool.Setup.{held, count-free_buffers}
use xcopy_block_io.Generator.{XcopyGenerator}
use xcopy_block_io.Spdk
use xcopy_block_io.Spdk.{SpdkContext}
use xcopy_block_io.Poll.State.{PollThreadContext, World}
use xcopy_block_io.Poll.Start.{PollThreadManager, stop, qpairs}
use xcopy_block_io.Poll.Worker.{Round, Callback}
use xcopy_block_io.Poll.Exit.{wait, give_back}
use xcopy_block_io.Poll.Exit.Wait.{Released, ended, wait_lem}
use xcopy_block_io.Main.{shut_down, destroy}

give_back-again :
    (ctxs : List PollThreadContext) (h : Heap) → All Released ctxs → (give_back ctxs h).1 ≡ h
unfolding give_back Released cleanup
give_back-again [] h all = refl
give_back-again (ctx ∷ ctxs) h ((q, p), all) =
    ap (λ o. (give_back ctxs (cleanup o h).1).1) p ∙ give_back-again ctxs h all

stop-running : (m : PollThreadManager) → (stop m).running ≡ false
unfolding stop
stop-running m = ground arith

stop-deleted : (m : PollThreadManager) → (stop m).deleted ≡ m.deleted
unfolding stop
stop-deleted m = ground arith

stop_idle : (m : PollThreadManager) → m.running ≡ false → stop m ≡ m
unfolding stop
stop_idle m e = ground (arith, e)

qpairs-Released : (ctxs : List PollThreadContext) → All Released ctxs → qpairs ctxs ≡ []
unfolding qpairs Released
qpairs-Released [] all = refl
qpairs-Released (ctx ∷ ctxs) ((q, p), all) = rw (q, qpairs) (qpairs-Released ctxs all)

wait-Released :
    (m : PollThreadManager)
    → All Released m.threads
    → ((wait m).deleted ≡ m.deleted) × ((wait m).heap ≡ m.heap)
unfolding wait
wait-Released m all = (
  ap (λ qs. qs ++ m.deleted) (qpairs-Released m.threads all),
  give_back-again m.threads m.heap all,
)

-- How many operations in the pools of the workers hold the buffer at address `a`.
abbrev pub pools_hold : ℕ → List PollThreadContext → ℕ
pools_hold a [] = 0
pools_hold a (ctx ∷ ctxs) =
    (elim ctx.op_pool.operations [ none ↦ 0 | some ops ↦ held a ops ]) + pools_hold a ctxs

count-cleanup :
    (a : ℕ) (p : OperationPool) (h : Heap)
    → count a (cleanup p h).1.live
      ≡ count a h.live - (elim p.operations [ none ↦ 0 | some ops ↦ held a ops ])
unfolding cleanup
count-cleanup a p h = elim (Option-cases p.operations) [
  | inl e ↦ ground (arith, e)
  | inr (ops, e) ↦ ground (arith, e, count-free_buffers a ops h)
]

count-give_back :
    (a : ℕ) (ctxs : List PollThreadContext) (h : Heap)
    → count a (give_back ctxs h).1.live ≡ count a h.live - pools_hold a ctxs
unfolding give_back
count-give_back a [] h = omega arith
count-give_back a (ctx ∷ ctxs) h =
    count-give_back a ctxs (cleanup ctx.op_pool h).1 ∙ omega (arith, count-cleanup a ctx.op_pool h)

stop-heap : (m : PollThreadManager) → (stop m).heap ≡ m.heap
unfolding stop
stop-heap m = ground arith

-- What the end of `main` leaves of the workers `left` by their threads, and what the destructors do
-- then.
pub record Ended (left : List PollThreadContext) (m m' m'' : PollThreadManager)
    (c c' c'' : SpdkContext) : Type 0 where
  pub released : All Released m'.threads
  pub given_back : (a : ℕ) → count a m'.heap.live ≡ count a m.heap.live - pools_hold a left
  pub stopped : m'.running ≡ false
  pub no_ctrlr : c'.ctrlrs ≡ []
  pub detached : c'.detached ≡ c.detached ++ c.ctrlrs
  pub deleted : m''.deleted ≡ m.deleted
  pub freed : m''.heap ≡ m'.heap
  pub not_again : c''.detached ≡ c'.detached
  pub finished : c''.finished ≡ (if c.use_spdk_threads then c.finished + 2 else c.finished)

-- With a manager whose threads have left their workers behind, the end of `main` gives back every buffer
-- that their pools hold, leaves no worker a queue pair or a pool, and detaches each controller once; the
-- destructors free no memory and detach no controller. Neither it nor they delete a queue pair, since
-- the threads have set the workers' pointers to null; and where the context's flag for SPDK threads is
-- set, both finish the thread library, so that it is finished twice.
pub shut_down_lem :
    (alloc : Alloc) (g : XcopyGenerator) (rounds : ℕ → List Round) (polls : ℕ → ℕ → List Callback)
    (ws : List World) (m : PollThreadManager) (c : SpdkContext)
    → let left = ended alloc g rounds polls 0 ws in
      let (m', c') = shut_down left m c in
      let (m'', c'') = destroy m' c' in Ended left m m' m'' c c' c''
unfolding shut_down destroy Spdk.cleanup wait
shut_down_lem alloc g rounds polls ws m c =
    let left = record (stop m) { threads = ended alloc g rounds polls 0 ws } in
    let (released, count_same, deleted) = wait_lem alloc g rounds polls ws left refl in
    let still = stop_idle (wait left) (stop-running m) in
    let (deleted', heap) = wait-Released (wait left) released in
    record {
      released = released;
      given_back = λ a.
          count-give_back a left.threads left.heap
          ∙ ap (λ (h : Heap). count a h.live - pools_hold a left.threads) (stop-heap m);
      stopped = stop-running m;
      no_ctrlr = refl;
      detached = refl;
      deleted = ap (λ k. (wait k).deleted) still ∙ deleted' ∙ deleted ∙ stop-deleted m;
      freed = ap (λ k. (wait k).heap) still ∙ heap;
      not_again = append_nil (c.detached ++ c.ctrlrs);
      finished = ground arith;
    }
