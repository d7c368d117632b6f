-- ===== src/Poll/Lifecycle.antt =====
-- PollThreadManager::start and stop: the workers launched, and what is left of them after a failure.
use xcopy_block_io.Common.{
  ℕ, zero, suc, ◌+◌, ◌≤◌, ◌<◌, ◌≡◌, refl, inl, inr, ◌⊎◌, List, [], ◌∷◌, ◌++◌, Bool, true, false,
  arith, length, length-append, All, sym, subst, ◌∙◌, Bool-cases, ◌==◌,
}
use xcopy_block_io.Dma.{Heap, Alloc}
use xcopy_block_io.Pool.Hold.{Settled}
use xcopy_block_io.Poll.State.{World, PollThreadContext}
use xcopy_block_io.Poll.Flight.{Balanced}
use xcopy_block_io.Poll.Start.{
  per_thread_depth, PollThreadManager, Site, Launch, launched, no_pool, no_qpair, no_connection,
  launch, conclude, qpairs, start_from, start, stop,
}
use xcopy_block_io.Poll.Launch.{depth_bounds, Fresh, launch-Fresh}

-- A list of workers that grows keeps what holds of each.
All-append {ℓ κ} :
    {A : Type ℓ} (P : A → Type κ) (xs : List A) (x : A) → All P xs → P x → All P (xs ++ (x ∷ []))
All-append P [] x all px = (px, tt)
All-append P (y ∷ xs) x (py, all) px = (py, All-append P xs x all px)

-- How `start` leaves the manager: with a return of 0 it runs and has workers; with -1 it does not. `was`
-- are the queue pairs deleted before; to them come none, or, if a worker's queue pair does not connect,
-- that one and those of the workers launched.
pub record Started (site : Site) (depth range_size limit : ℕ) (was : List ℕ)
    (r : Bool × PollThreadManager) : Type 0 where
  pub workers : All (Fresh site.num_controllers depth range_size) (r.1.threads)
  pub running : r.1.running ≡ r.0
  pub some_worker : r.0 ≡ true → 1 ≤ length r.1.threads
  pub limited : length r.1.threads ≤ limit
  pub deleted :
      (r.1.deleted ≡ was) ⊎ (q : ℕ) × (r.0 ≡ false) × (r.1.deleted ≡ q ∷ qpairs r.1.threads ++ was)

module _ (alloc : Alloc) (site : Site) (depth : ℕ) where
  conclude-Started :
      (range_size limit : ℕ) (m : PollThreadManager)
      → m.running ≡ false
      → length m.threads ≤ limit
      → All (Fresh site.num_controllers depth range_size) m.threads
      → Started site depth range_size limit m.deleted (conclude m)
  unfolding conclude
  conclude-Started range_size limit m idle room all = go m.threads refl
    where
      go :
          (ts : List PollThreadContext)
          → m.threads ≡ ts
          → Started site depth range_size limit m.deleted
              (elim ts [ [] ↦ (false, m) | t ∷ us ↦ (true, record m { running = true }) ])
      go [] e = record {
        workers = all;
        running = idle;
        some_worker = λ z. absurd cc;
        limited = room;
        deleted = inl refl;
      }
      go (t ∷ us) e = record {
        workers = all;
        running = refl;
        some_worker = λ z. ground (arith, e);
        limited = room;
        deleted = inl refl;
      }

  -- The branches of the loop, from a manager that holds the invariant and does not run.
  pub start_from-Started :
      (n i range_size limit : ℕ) (m : PollThreadManager)
      → depth ≤ 1024
      → 0 < site.num_controllers
      → m.range_size ≡ range_size
      → m.running ≡ false
      → length m.threads + n ≤ limit
      → All (Fresh site.num_controllers depth range_size) m.threads
      → Started site depth range_size limit m.deleted (start_from alloc site depth n i m)
  unfolding start_from
  start_from-Started zero i range_size limit m small some_c same idle room all =
      conclude-Started range_size limit m idle (omega (arith, room)) all
  start_from-Started (suc n) i range_size limit m small some_c same idle room all =
      let later =
        λ (ctx : PollThreadContext) (h : Heap)
            (f : Fresh site.num_controllers depth range_size ctx).
          start_from-Started n (i + 1) range_size limit
            (record m { threads = m.threads ++ (ctx ∷ []); heap = h }) small some_c same idle
            (omega (arith, room, length-append m.threads (ctx ∷ [])))
            (All-append (Fresh site.num_controllers depth range_size) m.threads ctx all f) in
      go later (launch alloc site m depth i m.heap) refl
    where
      extended : PollThreadContext → Heap → PollThreadManager
      extended ctx h = record m { threads = m.threads ++ (ctx ∷ []); heap = h }

      Later : Type 0
      Later =
          (ctx : PollThreadContext) (h : Heap)
          → Fresh site.num_controllers depth range_size ctx
          → Started site depth range_size limit m.deleted
              (start_from alloc site depth n (i + 1) (extended ctx h))

      go :
          Later
          → (l : Launch) → launch alloc site m depth i m.heap ≡ l
          → Started site depth range_size limit m.deleted (elim l [
            | launched ctx h ↦ start_from alloc site depth n (i + 1) (extended ctx h)
            | no_pool h ↦ (false, record m { heap = h })
            | no_qpair h ↦ conclude (record m { heap = h })
            | no_connection q h ↦
                (false, record m { deleted = q ∷ qpairs m.threads ++ m.deleted; heap = h })
          ])
      go later (launched ctx h) e =
          let f = launch-Fresh alloc site m depth i m.heap ctx h small some_c e in
          later ctx h (subst (λ k. Fresh site.num_controllers depth k ctx) same f)
      go later (no_pool h) e = record {
        workers = all;
        running = idle;
        some_worker = λ z. absurd cc;
        limited = omega (arith, room);
        deleted = inl refl;
      }
      go later (no_qpair h) e =
          conclude-Started range_size limit (record m { heap = h }) idle (omega (arith, room)) all
      go later (no_connection q h) e = record {
        workers = all;
        running = idle;
        some_worker = λ z. absurd cc;
        limited = omega (arith, room);
        deleted = inr (q, refl, refl);
      }

stop-idle : (m : PollThreadManager) → m.running ≡ false → stop m ≡ m
unfolding stop
stop-idle m e = ground (arith, e)

All-going :
    (num depth range_size : ℕ) (ts : List PollThreadContext)
    → All (Fresh num depth range_size) ts
    → All (λ ctx. ctx.should_stop ≡ false) ts
All-going num depth range_size [] all = tt
All-going num depth range_size (t ∷ ts) (f, all) = (f.going, All-going num depth range_size ts all)

module _ (alloc : Alloc) (site : Site) (m : PollThreadManager) where
  start-none :
      m.running ≡ false
      → (site.num_controllers == 0) ≡ true
      → start alloc site m ≡ (false, record m { threads = [] })
  unfolding start
  start-none idle z = ground (arith, idle, z)

  start-loop :
      m.running ≡ false
      → (site.num_controllers == 0) ≡ false
      → start alloc site m
        ≡ start_from alloc site
            (per_thread_depth m.iodepth m.num_cores site.max_queue_depth)
            m.num_cores
            0
            (record m { threads = [] })
  unfolding start
  start-loop idle z = ground (arith, idle, z)

  pub start_lem :
      m.running ≡ false
      → Started site
          (per_thread_depth m.iodepth m.num_cores site.max_queue_depth)
          m.range_size
          m.num_cores
          m.deleted
          (start alloc site m)
  start_lem idle =
      let depth = per_thread_depth m.iodepth m.num_cores site.max_queue_depth in
      let (low, capable, four) = depth_bounds m.iodepth m.num_cores site.max_queue_depth in
      let cleared = record m { threads = [] } in
      elim (Bool-cases (site.num_controllers == 0)) [
        | inl z ↦
            subst (Started site depth m.range_size m.num_cores m.deleted) (sym (start-none idle z))
              (record {
                workers = tt;
                running = idle;
                some_worker = λ e. absurd cc;
                limited = omega arith;
                deleted = inl refl;
              })
        | inr z ↦
            subst (Started site depth m.range_size m.num_cores m.deleted) (sym (start-loop idle z))
              (start_from-Started alloc site depth m.num_cores 0 m.range_size m.num_cores cleared
                low (ground (arith, z)) refl idle (omega arith) tt)
      ]

  -- After a `start` that returns -1 on a manager that did not run, `stop` changes nothing: none of the
  -- workers launched before the failure is told to stop.
  pub failed_start-stop :
      m.running ≡ false
      → (start alloc site m).0 ≡ false
      → (stop (start alloc site m).1 ≡ (start alloc site m).1)
        × All (λ ctx. ctx.should_stop ≡ false) (stop (start alloc site m).1).threads
  failed_start-stop idle lost =
      let s = start_lem idle in
      let same : stop (start alloc site m).1 ≡ (start alloc site m).1 =
        stop-idle (start alloc site m).1 (s.running ∙ lost) in
      (
        same,
        subst (λ k. All (λ ctx. ctx.should_stop ≡ false) k.threads) (sym same)
            (All-going site.num_controllers
              (per_thread_depth m.iodepth m.num_cores site.max_queue_depth) m.range_size
              (start alloc site m).1.threads s.workers),
      )

-- A worker's world is balanced from the start.
pub Fresh-Balanced :
    (num depth range_size : ℕ) (w : World)
    → depth ≤ 1024
    → Fresh num depth range_size w.ctx
    → Balanced depth w
Fresh-Balanced num depth range_size w small f = record {
  depth = f.target;
  pool = subst (Settled w.ctx.op_pool) (sym f.outstanding) f.pool;
  within = omega (arith, f.outstanding);
  sized = omega (arith, f.size, f.target);
  small = omega (arith, f.target, small);
}
