-- ===== src/Poll/Complete.antt =====
-- PollThreadManager::xcopy_complete_cb_pooled, and the loops that fill the queue.
use xcopy_block_io.Common.{
  ℕ, zero, suc, ◌+◌, Bool, true, false, Option, none, some, ltb, ◌==◌, if◌then◌else◌, add32, sub32,
  sub64, mul64,
}
use xcopy_block_io.Dma.{Alloc}
use xcopy_block_io.Lba.{reset_dst_lba}
use xcopy_block_io.Pool.{PooledOperation, release}
use xcopy_block_io.Errors.{is_saturation_error}
use xcopy_block_io.Statistics.{record_completion, record_failure}
use xcopy_block_io.Generator.{XcopyGenerator}
use xcopy_block_io.Poll.State.{PollThreadContext, World}
use xcopy_block_io.Poll.Submit.{Answers, Submission, slot_at, idle, submit_next_io}

-- A completion: the status code, and what `spdk_nvme_cpl_is_error` answers for it.
pub record Completion : Type 0 where
  pub sc : ℕ
  pub is_error : Bool

pub is_failure : Completion → Bool
is_failure cpl = if cpl.is_error then true else (if cpl.sc == 0 then false else true)

unfoldable pub add_deferred : PollThreadContext → PollThreadContext
add_deferred ctx = record ctx { deferred_count = add32 ctx.deferred_count 1 }

-- The branch for a failure.
unfoldable pub note_failure : ℕ → World → World
unfolding add_deferred
note_failure sc w = record w {
  stats = record_failure w.stats sc;
  mgr = if sc == 0x8 then reset_dst_lba w.mgr else w.mgr;
  ctx = if is_saturation_error sc then add_deferred w.ctx else w.ctx;
}

unfoldable pub note_success : ℕ → PooledOperation → World → World
note_success end_time_ns op w = record w {
  stats =
      record_completion w.stats (mul64 op.total_blocks 512) (sub64 end_time_ns op.start_time_ns);
}

-- Up to the next submission.
unfoldable pub finish : ℕ → Completion → ℕ → PooledOperation → World → World
unfolding note_failure note_success is_failure
finish end_time_ns cpl slot op w =
    let noted = if is_failure cpl then note_failure cpl.sc w else note_success end_time_ns op w in
    record noted {
      ctx = record (noted.ctx) {
        outstanding_io = sub32 noted.ctx.outstanding_io 1;
        op_pool = release (some slot) noted.ctx.op_pool;
      };
    }

-- The callback, for the operation at an index of the thread's pool; a null argument is `none`.
unfoldable pub xcopy_complete_cb :
    Alloc → XcopyGenerator → Answers → ℕ → Completion → Option ℕ → World → Submission
unfolding finish
xcopy_complete_cb alloc g ans end_time_ns cpl none w = idle w
xcopy_complete_cb alloc g ans end_time_ns cpl (some slot) w = elim (slot_at slot w.ctx.op_pool) [
  | none ↦ idle w
  | some op ↦ elim op.user_data [
    | none ↦ idle w
    | some ctx ↦ submit_next_io alloc g ans (finish end_time_ns cpl slot op w)
  ]
]

-- `while (outstanding < target_iodepth && submitted < limit)`, with `n` rounds left: how many
-- commands have gone out.
unfoldable pub submit_batch : Alloc → XcopyGenerator → (ℕ → Answers) → ℕ → ℕ → World → ℕ × World
submit_batch alloc g ans zero submitted w = (submitted, w)
submit_batch alloc g ans (suc n) submitted w =
    let s = submit_next_io alloc g (ans submitted) w in
    let rest = submit_batch alloc g ans n (submitted + 1) s.world in
    if ltb w.ctx.outstanding_io w.ctx.target_iodepth
    then (if s.submitted then rest else (submitted, s.world))
    else (submitted, w)
