-- ===== src/Poll/Flight.antt =====
-- A worker's commands in flight: the pool, `outstanding_io` and the depth over submissions and
-- completions.
use xcopy_block_io.Common.{
  ℕ, ◌+◌, ◌-◌, ◌*◌, ◌^◌, ◌≤◌, ◌<◌, ◌≡◌, ◌≢◌, ◌∙◌, inl, inr, true, none, some, arith, get_elem?,
  if◌then◌else◌, ap, sym, subst, Option-cases, u32_mod,
}
use xcopy_block_io.Dma.{Alloc}
use xcopy_block_io.Pool.{PooledOperation, OperationPool, acquire, release}
use xcopy_block_io.Pool.Acquire.{release_lem, acquire_exhausted}
use xcopy_block_io.Pool.Hold.{Settled, Taken, release-Settled, release-pool_size}
use xcopy_block_io.Generator.{XcopyGenerator}
use xcopy_block_io.Poll.State.{World}
use xcopy_block_io.Poll.Submit.{Answers, submit_next_io, slot_at, idle}
use xcopy_block_io.Poll.Balance.{sent, submit_next_io-Balance, submit_next_io-cases}
use xcopy_block_io.Poll.Complete.{
  Completion, finish, note_failure, note_success, is_failure, add_deferred, xcopy_complete_cb,
}

-- A worker of depth `d`: as many operations in use as commands outstanding, no more than the depth,
-- and a pool of twice the depth.
pub record Balanced (d : ℕ) (w : World) : Type 0 where
  pub depth : w.ctx.target_iodepth ≡ d
  pub pool : Settled w.ctx.op_pool w.ctx.outstanding_io
  pub within : w.ctx.outstanding_io ≤ w.ctx.target_iodepth
  pub sized : w.ctx.op_pool.pool_size ≡ w.ctx.target_iodepth * 2
  pub small : w.ctx.target_iodepth < 2 ^ 31

-- The operation at index `i` is in use.
unfoldable pub InFlight : World → ℕ → Type 0
InFlight w i = (op : PooledOperation) × (slot_at i w.ctx.op_pool ≡ some op) × (op.in_use ≡ true)

module _ (alloc : Alloc) (g : XcopyGenerator) (ans : Answers) (d : ℕ) (w : World) where
  pub submit_next_io-Balanced : Balanced d w → Balanced d (submit_next_io alloc g ans w).world
  unfolding sent
  submit_next_io-Balanced b =
      let s = submit_next_io alloc g ans w in
      let within = b.within in
      let small = b.small in
      let low : w.ctx.outstanding_io < u32_mod = omega arith in
      let c = submit_next_io-Balance alloc g ans w w.ctx.outstanding_io low b.pool in
      elim (submit_next_io-cases alloc g ans w 0) [
        | inl e ↦ subst (λ s. Balanced d s.world) (sym e) b
        | inr (e, d) ↦
            let count : w.ctx.outstanding_io + sent s.submitted ≡ s.world.ctx.outstanding_io =
              ground (arith, c.outstanding) in
            record {
              pool = subst (Settled s.world.ctx.op_pool) count c.pool;
              depth = c.target ∙ b.depth;
              within = ground (arith, c.outstanding, c.target);
              sized = omega (arith, c.size, c.target, b.sized);
              small = omega (arith, c.target);
            }
      ]

  -- In a balanced world below its depth, if the pool's counter does not wrap during the call, `acquire`
  -- has an operation to give.
  pub acquire_below_depth :
      Balanced d w
      → w.ctx.outstanding_io < w.ctx.target_iodepth
      → w.ctx.op_pool.next_index + w.ctx.op_pool.pool_size ≤ u32_mod
      → (acquire w.ctx.op_pool w.heap).0 ≢ none
  acquire_below_depth b d no_wrap e =
      let s = b.pool in
      let full = (acquire_exhausted w.ctx.op_pool s.ops w.heap s.valid no_wrap).0 e in
      absurd (omega (arith, full, s.count, b.sized))

-- An operation in use is one of those counted.
in_use-Taken :
    (p : OperationPool) (n i : ℕ) (op : PooledOperation)
    → Settled p n
    → slot_at i p ≡ some op
    → op.in_use ≡ true
    → (1 ≤ n) × Taken p i (n - 1)
unfolding slot_at
in_use-Taken p n i op s at busy =
    let at' : get_elem? s.ops i ≡ some op = ground (arith, at, s.valid.present) in
    let (valid, count) = release_lem p s.ops i op s.valid at' in
    let some_use : 1 ≤ n = ground (arith, count, s.count, busy) in
    (
      some_use,
      record {
        ops = s.ops;
        op = op;
        valid = s.valid;
        at = at';
        busy = busy;
        count = omega (arith, s.count);
      },
    )

-- The branches of `finish` before the count and the pool.
pub note_lem :
    (end_time_ns : ℕ) (cpl : Completion) (op : PooledOperation) (w : World)
    → let noted =
        (if is_failure cpl then note_failure cpl.sc w else note_success end_time_ns op w) in
      (noted.ctx.op_pool ≡ w.ctx.op_pool)
      × (noted.ctx.outstanding_io ≡ w.ctx.outstanding_io)
      × (noted.ctx.target_iodepth ≡ w.ctx.target_iodepth)
unfolding note_failure note_success add_deferred
note_lem end_time_ns cpl op w = (ground arith, ground arith, ground arith)

pub finish-Balanced :
    (d end_time_ns : ℕ) (cpl : Completion) (i : ℕ) (op : PooledOperation) (w : World)
    → slot_at i w.ctx.op_pool ≡ some op
    → op.in_use ≡ true
    → Balanced d w
    → Balanced d (finish end_time_ns cpl i op w)
unfolding finish
finish-Balanced d end_time_ns cpl i op w at busy b =
    let (pool, out, target) = note_lem end_time_ns cpl op w in
    let (positive, t) = in_use-Taken w.ctx.op_pool w.ctx.outstanding_io i op b.pool at busy in
    let within = b.within in
    let small = b.small in
    let less = release-Settled w.ctx.op_pool i (w.ctx.outstanding_io - 1) t in
    let f = finish end_time_ns cpl i op w in
    let pool' : f.ctx.op_pool ≡ release (some i) w.ctx.op_pool = ap (release (some i)) pool in
    let count : w.ctx.outstanding_io - 1 ≡ f.ctx.outstanding_io = omega (arith, out) in
    record {
      pool =
          subst (λ p. Settled p f.ctx.outstanding_io) (sym pool')
            (subst (Settled (release (some i) w.ctx.op_pool)) count less);
      depth = target ∙ b.depth;
      within = omega (arith, count, target);
      sized = omega (
        arith,
        ap (λ p. p.pool_size) pool',
        release-pool_size (some i) w.ctx.op_pool,
        b.sized,
        target,
      );
      small = omega (arith, target);
    }

-- What a worker does between two calls of the completion callback, and that callback.
pub data Step (alloc : Alloc) (g : XcopyGenerator) : World → World → Type 0 where
  submit : (ans : Answers) (w : World) → Step alloc g w (submit_next_io alloc g ans w).world
  complete :
      (ans : Answers) (now : ℕ) (cpl : Completion) (i : ℕ) (w : World)
      → InFlight w i
      → Step alloc g w (xcopy_complete_cb alloc g ans now cpl (some i) w).world

pub data Steps (alloc : Alloc) (g : XcopyGenerator) : World → World → Type 0 where
  stay : (w : World) → Steps alloc g w w
  next : (u v w : World) → Step alloc g u v → Steps alloc g v w → Steps alloc g u w

module _ (alloc : Alloc) (g : XcopyGenerator) where
  pub complete-Balanced :
      (d : ℕ) (ans : Answers) (now : ℕ) (cpl : Completion) (i : ℕ) (w : World)
      → InFlight w i
      → Balanced d w
      → Balanced d (xcopy_complete_cb alloc g ans now cpl (some i) w).world
  unfolding xcopy_complete_cb InFlight
  complete-Balanced d ans now cpl i w (op, at, busy) b = elim (Option-cases op.user_data) [
    | inl e ↦ subst (λ s. Balanced d s.world) (sym (alone op at e)) b
    | inr (id, e) ↦
        subst (λ s. Balanced d s.world) (sym (goes_on op id at e))
          (submit_next_io-Balanced alloc g ans d (finish now cpl i op w)
            (finish-Balanced d now cpl i op w at busy b))
  ]
    where
      alone :
          (op : PooledOperation)
          → slot_at i w.ctx.op_pool ≡ some op
          → op.user_data ≡ none
          → xcopy_complete_cb alloc g ans now cpl (some i) w ≡ idle w
      alone op at e = ground (arith, at, e)

      goes_on :
          (op : PooledOperation) (id : ℕ)
          → slot_at i w.ctx.op_pool ≡ some op
          → op.user_data ≡ some id
          → xcopy_complete_cb alloc g ans now cpl (some i) w
            ≡ submit_next_io alloc g ans (finish now cpl i op w)
      goes_on op id at e = ground (arith, at, e)

  -- From a balanced world, whatever is submitted and whichever commands in flight complete, in
  -- whatever order and with whatever status, the world stays balanced at the same depth: as many
  -- operations of the pool are in use as commands are outstanding, and never more than the depth.
  pub Steps-Balanced : (d : ℕ) (u w : World) → Steps alloc g u w → Balanced d u → Balanced d w
  Steps-Balanced d u w (stay _) b = b
  Steps-Balanced d u w (next _ v _ (submit ans _) rest) b =
      Steps-Balanced d v w rest (submit_next_io-Balanced alloc g ans d u b)
  Steps-Balanced d u w (next _ v _ (complete ans now cpl i _ flying) rest) b =
      Steps-Balanced d v w rest (complete-Balanced d ans now cpl i u flying b)
