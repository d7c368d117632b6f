-- ===== src/Poll/System.antt =====
-- The workers of a run together: their contexts, and the objects that they share. A turn is one call that
-- a thread makes, or that `stop` or a reconnection makes of a context; turns of the threads come in any
-- order, one at a time.
pub mod Account
pub mod Counted
pub mod Accounted
pub mod Reported
pub mod Loop
pub mod Samples
mod Tests
use xcopy_block_io.Common.{
  ℕ, ◌+◌, ◌≡◌, List, [], ◌∷◌, map, Bool, true, Option, none, some, get_elem?, set,
}
use xcopy_block_io.Dma.{Heap, Alloc}
use xcopy_block_io.Lba.{LbaManager}
use xcopy_block_io.Statistics.{Statistics}
use xcopy_block_io.Generator.{XcopyGenerator}
use xcopy_block_io.Poll.State.{PollThreadContext, World}
use xcopy_block_io.Poll.Submit.{Answers, Submission, submit_next_io}
use xcopy_block_io.Poll.Balance.{sent}
use xcopy_block_io.Poll.Complete.{Completion, xcopy_complete_cb}
use xcopy_block_io.Poll.Flight.{InFlight}
use xcopy_block_io.Poll.Start.{PollThreadManager, ask_stop}
use xcopy_block_io.Poll.Worker.{set_qpair, told}

pub record System : Type 0 where
  pub workers : List PollThreadContext
  pub mgr : LbaManager
  pub stats : Statistics
  pub heap : Heap

-- What the thread of a worker sees.
abbrev pub seen : System → PollThreadContext → World
seen s ctx = record { ctx = ctx; mgr = s.mgr; stats = s.stats; heap = s.heap }

-- The system after the thread of worker `i` has made `w` of what it saw.
abbrev pub put : System → ℕ → World → System
put s i w = record { workers = set s.workers i w.ctx; mgr = w.mgr; stats = w.stats; heap = w.heap }

-- The system that `start` leaves, with new statistics.
abbrev pub at_start : PollThreadManager → LbaManager → Statistics → System
at_start m mgr stats = record { workers = m.threads; mgr = mgr; stats = stats; heap = m.heap }

-- A turn of worker `i`, and how many commands it has SPDK accept.
pub data Turn (alloc : Alloc) (g : XcopyGenerator) (u v : System) (k : ℕ) : Type 0 where
  submits :
      (i : ℕ) (ctx : PollThreadContext) (ans : Answers)
      → get_elem? u.workers i ≡ some ctx
      → v ≡ put u i (submit_next_io alloc g ans (seen u ctx)).world
      → k ≡ sent (submit_next_io alloc g ans (seen u ctx)).submitted
      → Turn alloc g u v k
  completes :
      (i slot : ℕ) (ctx : PollThreadContext) (ans : Answers) (now : ℕ) (cpl : Completion)
      → get_elem? u.workers i ≡ some ctx
      → InFlight (seen u ctx) slot
      → v ≡ put u i (xcopy_complete_cb alloc g ans now cpl (some slot) (seen u ctx)).world
      → k ≡ sent (xcopy_complete_cb alloc g ans now cpl (some slot) (seen u ctx)).submitted
      → Turn alloc g u v k
  connects :
      (i : ℕ) (ctx : PollThreadContext) (qpair : Option ℕ)
      → get_elem? u.workers i ≡ some ctx
      → v ≡ put u i (set_qpair qpair (seen u ctx))
      → k ≡ 0
      → Turn alloc g u v k
  asked :
      (i : ℕ) (ctx : PollThreadContext)
      → get_elem? u.workers i ≡ some ctx
      → v ≡ put u i (told (seen u ctx))
      → k ≡ 0
      → Turn alloc g u v k
  stops : v ≡ record u { workers = map ask_stop u.workers } → k ≡ 0 → Turn alloc g u v k

-- Any number of turns, and how many commands they have SPDK accept in all.
pub data Run (alloc : Alloc) (g : XcopyGenerator) (u : System) : System → ℕ → Type 0 where
  here : Run alloc g u u 0
  next : (v w : System) (n k : ℕ) → Run alloc g u v n → Turn alloc g v w k → Run alloc g u w (n + k)
