-- ===== src/Poll/System/Reported.antt =====
-- A whole run, and the report that main prints of it.
use xcopy_block_io.Common.{
  ℕ, ◌<◌, inl, inr, some, arith, u64_mod, sub64, mul64, Bool-cases, Option-cases, sym, ap, subst,
  ◌∙◌,
}
use xcopy_block_io.Dma.{Alloc}
use xcopy_block_io.Statistics
use xcopy_block_io.Statistics.{
  Statistics, record_completion, record_failure, lower, raise, get_snapshot,
}
use xcopy_block_io.Pool.{PooledOperation}
use xcopy_block_io.Generator.{XcopyGenerator}
use xcopy_block_io.Reporter.Wellformed.Finite.{IsBounded}
use xcopy_block_io.Poll.State.{World}
use xcopy_block_io.Poll.Submit.{Answers}
use xcopy_block_io.Poll.Complete.{
  Completion, finish, note_failure, note_success, is_failure, xcopy_complete_cb,
}
use xcopy_block_io.Poll.Flight.{InFlight}
use xcopy_block_io.Poll.Exit.Drain.{callback-finish, callback-alone}
use xcopy_block_io.Poll.Worker.{set_qpair}
use xcopy_block_io.Poll.System.{
  System, seen, Turn, submits, completes, connects, asked, stops, Run, here, next,
}
use xcopy_block_io.Poll.System.Account.{submit_next_io-stats}

pub init-IsBounded : IsBounded Statistics.init
init-IsBounded = record {
  operations_completed = omega arith;
  operations_failed = omega arith;
  bytes_copied = omega arith;
  total_latency_ns = omega arith;
  min_latency_ns = omega arith;
  max_latency_ns = omega arith;
}

record_completion-IsBounded :
    (s : Statistics) (bytes latency_ns : ℕ)
    → latency_ns < u64_mod
    → IsBounded s
    → IsBounded (record_completion s bytes latency_ns)
unfolding record_completion lower raise
record_completion-IsBounded s bytes latency_ns h b = record {
  operations_completed = omega arith;
  operations_failed = b.operations_failed;
  bytes_copied = omega arith;
  total_latency_ns = omega arith;
  min_latency_ns = ground (arith, h, b.min_latency_ns);
  max_latency_ns = ground (arith, h, b.max_latency_ns);
}

record_failure-IsBounded : (s : Statistics) (sc : ℕ) → IsBounded s → IsBounded (record_failure s sc)
unfolding record_failure
record_failure-IsBounded s sc b = record {
  operations_completed = b.operations_completed;
  operations_failed = omega arith;
  bytes_copied = b.bytes_copied;
  total_latency_ns = b.total_latency_ns;
  min_latency_ns = b.min_latency_ns;
  max_latency_ns = b.max_latency_ns;
}

finish-IsBounded :
    (now : ℕ) (cpl : Completion) (i : ℕ) (op : PooledOperation) (w : World)
    → IsBounded w.stats
    → IsBounded (finish now cpl i op w).stats
unfolding finish note_failure note_success
finish-IsBounded now cpl i op w b = elim (Bool-cases (is_failure cpl)) [
  | inl e ↦ rw (e, finish) (record_failure-IsBounded w.stats cpl.sc b)
  | inr e ↦
      rw (e, finish)
        (record_completion-IsBounded w.stats (mul64 op.total_blocks 512)
          (sub64 now op.start_time_ns) (omega arith) b)
]

module _ (alloc : Alloc) (g : XcopyGenerator) where
  complete-IsBounded :
      (ans : Answers) (now : ℕ) (cpl : Completion) (i : ℕ) (w : World)
      → InFlight w i
      → IsBounded w.stats
      → IsBounded (xcopy_complete_cb alloc g ans now cpl (some i) w).world.stats
  unfolding InFlight
  complete-IsBounded ans now cpl i w (op, at, busy) b = elim (Option-cases op.user_data) [
    | inl e ↦
        subst (λ s. IsBounded s.world.stats) (sym (callback-alone alloc g ans now cpl i op w at e))
          b
    | inr (id, e) ↦
        let f = finish now cpl i op w in
        subst (λ s. IsBounded s.world.stats)
          (sym (callback-finish alloc g ans now cpl i id op w at e))
          (subst IsBounded (sym (submit_next_io-stats alloc g ans f))
            (finish-IsBounded now cpl i op w b))
  ]

  Turn-IsBounded :
      (u v : System) (k : ℕ) → Turn alloc g u v k → IsBounded u.stats → IsBounded v.stats
  unfolding set_qpair
  Turn-IsBounded u v k (submits i ctx ans at to sum) b =
      subst IsBounded (sym (ap (λ s. s.stats) to ∙ submit_next_io-stats alloc g ans (seen u ctx))) b
  Turn-IsBounded u v k (completes i slot ctx ans now cpl at fly to sum) b =
      subst IsBounded (sym (ap (λ s. s.stats) to))
        (complete-IsBounded ans now cpl slot (seen u ctx) fly b)
  Turn-IsBounded u v k (connects i ctx qpair at to sum) b =
      subst IsBounded (sym (ap (λ s. s.stats) to)) b
  Turn-IsBounded u v k (asked i ctx at to sum) b = subst IsBounded (sym (ap (λ s. s.stats) to)) b
  Turn-IsBounded u v k (stops to sum) b = subst IsBounded (sym (ap (λ s. s.stats) to)) b

  pub Run-IsBounded :
      (u v : System) (n : ℕ) → Run alloc g u v n → IsBounded u.stats → IsBounded v.stats
  Run-IsBounded u v n here b = b
  Run-IsBounded u v n (next mid _ a k run turn) b =
      Turn-IsBounded mid v k turn (Run-IsBounded u mid a run b)
