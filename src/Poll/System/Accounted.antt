-- ===== src/Poll/System/Accounted.antt =====
-- A whole run: from `start`, through any turns of the workers, to the final report.
use xcopy_block_io.Common.{
  mul_mono, ℕ, ◌+◌, ◌*◌, ◌≤◌, ◌<◌, ◌≡◌, refl, List, [], ◌∷◌, false, arith, length, All, u64_mod,
}
use xcopy_block_io.Dma.{Alloc}
use xcopy_block_io.Lba.{LbaManager}
use xcopy_block_io.Statistics
use xcopy_block_io.Generator.{XcopyGenerator}
use xcopy_block_io.Reporter.{Figures, generate_report}
use xcopy_block_io.Poll.State.{PollThreadContext}
use xcopy_block_io.Poll.Flight.{Balanced}
use xcopy_block_io.Poll.Launch.{depth_bounds, Fresh}
use xcopy_block_io.Poll.Lifecycle.{start_lem, Fresh-Balanced}
use xcopy_block_io.Poll.Start.{PollThreadManager, Site, start, per_thread_depth}
use xcopy_block_io.Poll.System.{System, seen, at_start, Run}
use xcopy_block_io.Poll.System.Account.{total_outstanding}
use xcopy_block_io.Poll.System.Counted.{total_within, Run-Counted}

-- The final report `f` of a system whose workers, at most `cores` of depth `d`, had `n` commands
-- accepted.
pub record Accounted (d cores n : ℕ) (s : System) (f : Figures) : Type 0 where
  pub reported : f.operations_completed + f.operations_failed + total_outstanding s.workers ≡ n
  pub within : total_outstanding s.workers ≤ cores * d
  pub workers : All (λ ctx. Balanced d (seen s ctx)) s.workers

Fresh-total :
    (num d range_size : ℕ) (s : System) (ctxs : List PollThreadContext)
    → d ≤ 1024
    → All (Fresh num d range_size) ctxs
    → (total_outstanding ctxs ≡ 0) × All (λ ctx. Balanced d (seen s ctx)) ctxs
Fresh-total num d range_size s [] small all = (refl, tt)
Fresh-total num d range_size s (c ∷ cs) small (f, all) =
    let (none_left, balanced) = Fresh-total num d range_size s cs small all in
    (
      omega (arith, f.outstanding, none_left),
      (Fresh-Balanced num d range_size (seen s c) small f, balanced),
    )

module _ (alloc : Alloc) (g : XcopyGenerator) (site : Site) (m : PollThreadManager) where
  -- After `start` on a manager that did not run, whatever the threads then do, in whatever order, as
  -- long as fewer than 2 ^ 64 commands are accepted: the completions and the failures of the final
  -- report and the commands still outstanding add up to the commands that SPDK accepted, so none is
  -- lost and none is counted twice. Each worker has as many operations in use as commands
  -- outstanding, and in all no more are outstanding than cores times the depth worked out.
  pub Run-Accounted :
      (mgr : LbaManager) (s : System) (n : ℕ)
      → m.running ≡ false
      → Run alloc g (at_start (start alloc site m).1 mgr Statistics.init) s n
      → n < u64_mod
      → Accounted
          (per_thread_depth m.iodepth m.num_cores site.max_queue_depth)
          m.num_cores
          n
          s
          (generate_report s.stats)
  unfolding generate_report Statistics.get_snapshot
  Run-Accounted mgr s n off run low =
      let d = per_thread_depth m.iodepth m.num_cores site.max_queue_depth in
      let (small, capable, four) = depth_bounds m.iodepth m.num_cores site.max_queue_depth in
      let began = start_lem alloc site m off in
      let s0 = at_start (start alloc site m).1 mgr Statistics.init in
      let (nothing, balanced) =
        Fresh-total site.num_controllers d m.range_size s0 s0.workers small began.workers in
      let c =
        Run-Counted alloc g d m.num_cores s0 s 0 n run (omega arith)
          (record { workers = balanced; accounted = omega arith; few = began.limited }) in
      let share = mul_mono (length s.workers) m.num_cores d c.few in
      record {
        reported = omega (arith, c.accounted);
        within = omega (arith, share, total_within d s s.workers c.workers);
        workers = c.workers;
      }
