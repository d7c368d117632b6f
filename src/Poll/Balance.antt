-- ===== src/Poll/Balance.antt =====
-- submit_next_io_pooled: the pool, the count of outstanding commands and the depth before and after.
use xcopy_block_io.Common.{
  ℕ, ◌+◌, ◌%◌, ◌<◌, ◌≡◌, refl, ◌⊎◌, inl, inr, List, Bool, Option, none, some, arith, get_elem?, set,
  if◌then◌else◌, ap, sym, ◌∙◌, subst, Bool-cases, Option-cases, u32_mod,
}
use xcopy_block_io.Dma.{Alloc}
use xcopy_block_io.Pool.{PooledOperation, OperationPool, acquire, release}
use xcopy_block_io.Pool.Hold.{
  Settled, Taken, acquire-Settled, acquire-Taken, release-Settled, set-Taken, release-pool_size,
  acquire-pool_size,
}
use xcopy_block_io.Generator.{XcopyGenerator}
use xcopy_block_io.Generator.Operation
use xcopy_block_io.Generator.Operation.{XcopyOperation}
use xcopy_block_io.Poll.State.{PollThreadContext, World}
use xcopy_block_io.Poll.Submit.{
  Answers, Submission, submit_next_io, acquire_and_generate, generate_into, give_up, issue, retry,
  max_retries, idle, write_slot, fill_slot, slot_at, with_pool, handle_backpressure, take_deferred,
}

-- One more if a command went out.
unfoldable pub sent : Bool → ℕ
sent b = if b then 1 else 0

-- A submission `s` from `w`, whose pool had `n` operations in use.
pub record Balance (w : World) (n : ℕ) (s : Submission) : Type 0 where
  pub pool : Settled s.world.ctx.op_pool (n + sent s.submitted)
  pub outstanding : s.world.ctx.outstanding_io ≡ (w.ctx.outstanding_io + sent s.submitted) % u32_mod
  pub target : s.world.ctx.target_iodepth ≡ w.ctx.target_iodepth
  pub size : s.world.ctx.op_pool.pool_size ≡ w.ctx.op_pool.pool_size

pub write_slot-of :
    (f : PooledOperation → PooledOperation) (i : ℕ) (p : OperationPool) (ops : List PooledOperation)
    (op : PooledOperation)
    → p.operations ≡ some ops
    → get_elem? ops i ≡ some op
    → write_slot i f p ≡ record p { operations = some (set ops i (f op)) }
unfolding write_slot
write_slot-of f i p ops op e at = ground (arith, e, at)

write_slot-Taken :
    (p : OperationPool) (i n now id : ℕ) (temp : XcopyOperation)
    → Taken p i n
    → Taken (write_slot i (fill_slot now id temp) p) i n
unfolding fill_slot
write_slot-Taken p i n now id temp t =
    subst (λ q. Taken q i n)
      (sym (write_slot-of (fill_slot now id temp) i p t.ops t.op t.valid.present t.at))
      (set-Taken p i n t (fill_slot now id temp t.op) refl t.busy)

write_slot-pool_size :
    (f : PooledOperation → PooledOperation) (i : ℕ) (p : OperationPool)
    → (write_slot i f p).pool_size ≡ p.pool_size
unfolding write_slot
write_slot-pool_size f i p = ground arith

handle_backpressure_lem :
    (c : PollThreadContext)
    → ((handle_backpressure c).op_pool ≡ c.op_pool)
      × ((handle_backpressure c).outstanding_io ≡ c.outstanding_io)
      × ((handle_backpressure c).target_iodepth ≡ c.target_iodepth)
unfolding handle_backpressure
handle_backpressure_lem c = (ground arith, ground arith, ground arith)

-- From a world whose operation `i` is taken.
issue-Balance :
    (ans : Answers) (i n : ℕ) (temp : XcopyOperation) (w : World)
    → w.ctx.outstanding_io < u32_mod
    → Taken w.ctx.op_pool i n
    → Balance w n (issue ans i temp w)
unfolding issue sent with_pool
issue-Balance ans i n temp w low t =
    let p = write_slot i (fill_slot ans.now_ns w.ctx.thread_id temp) w.ctx.op_pool in
    let t' = write_slot-Taken w.ctx.op_pool i n ans.now_ns w.ctx.thread_id temp t in
    let same = write_slot-pool_size (fill_slot ans.now_ns w.ctx.thread_id temp) i w.ctx.op_pool in
    let back : Settled (release (some i) p) (n + 0) =
      subst (λ k. Settled (release (some i) p) k) (omega arith) (release-Settled p i n t') in
    let size = release-pool_size (some i) p ∙ same in
    elim (Bool-cases ans.ns_found) [
      | inr s ↦ rw s (record { pool = back; outstanding = omega arith; target = refl; size = size })
      | inl s ↦ elim (Bool-cases ans.accepted) [
        | inl a ↦
            rw (s, a)
              (record {
                pool = record { ops = t'.ops; valid = t'.valid; count = t'.count };
                outstanding = refl;
                target = refl;
                size = same;
              })
        | inr a ↦
            let c = record (w.ctx) { op_pool = release (some i) p } in
            let (pool, outstanding, target) = handle_backpressure_lem c in
            rw (s, a)
              (record {
                pool = subst (λ q. Settled q (n + 0)) (sym pool) back;
                outstanding = omega (arith, outstanding);
                target = target;
                size = ap (λ q. q.pool_size) pool ∙ size;
              })
      ]
    ]

give_up-Balance :
    (i n : ℕ) (temp : XcopyOperation) (w : World)
    → w.ctx.outstanding_io < u32_mod
    → Taken w.ctx.op_pool i n
    → Balance w n (give_up i temp w)
unfolding give_up sent with_pool
give_up-Balance i n temp w low t = record {
  pool =
      subst (λ k. Settled (release (some i) w.ctx.op_pool) k) (omega arith)
        (release-Settled w.ctx.op_pool i n t);
  outstanding = omega arith;
  target = refl;
  size = release-pool_size (some i) w.ctx.op_pool;
}

take_deferred_lem :
    (c : PollThreadContext)
    → ((take_deferred c).op_pool ≡ c.op_pool)
      × ((take_deferred c).outstanding_io ≡ c.outstanding_io)
      × ((take_deferred c).target_iodepth ≡ c.target_iodepth)
unfolding take_deferred
take_deferred_lem c = (ground arith, ground arith, ground arith)

-- The balance reads the context alone, and of it three fields.
rebase :
    (w w' : World) (n : ℕ) (s : Submission)
    → w'.ctx.outstanding_io ≡ w.ctx.outstanding_io
    → w'.ctx.target_iodepth ≡ w.ctx.target_iodepth
    → w'.ctx.op_pool.pool_size ≡ w.ctx.op_pool.pool_size
    → Balance w' n s
    → Balance w n s
rebase w w' n s out target size b = record {
  pool = b.pool;
  outstanding = b.outstanding ∙ ap (λ k. (k + sent s.submitted) % u32_mod) out;
  target = b.target ∙ target;
  size = b.size ∙ size;
}

generate_into-Balance :
    (alloc : Alloc) (g : XcopyGenerator) (ans : Answers) (i n : ℕ) (ranges : Option ℕ) (w : World)
    → w.ctx.outstanding_io < u32_mod
    → Taken w.ctx.op_pool i n
    → Balance w n (generate_into alloc g ans i ranges w)
unfolding generate_into
generate_into-Balance alloc g ans i n ranges w low t =
    let temp = record (Operation.empty) { ranges = ranges } in
    let o = retry alloc g ans.draws w.ctx.range_size max_retries 0 temp w.mgr w.heap in
    let w' = record w { mgr = o.mgr; heap = o.heap } in
    elim (Bool-cases o.success) [
      | inl s ↦
          rw s (
            rebase w w' n (issue ans i o.op w') refl refl refl
              (issue-Balance ans i n o.op w' low t))
      | inr s ↦
          rw s
            (rebase w w' n (give_up i o.op w') refl refl refl (give_up-Balance i n o.op w' low t))
    ]

idle-Balance :
    (w : World) (n : ℕ)
    → w.ctx.outstanding_io < u32_mod
    → Settled w.ctx.op_pool n
    → Balance w n (idle w)
unfolding sent
idle-Balance w n low s = record {
  pool = subst (λ k. Settled w.ctx.op_pool k) (omega arith) s;
  outstanding = omega arith;
  target = refl;
  size = refl;
}

module _ (alloc : Alloc) (g : XcopyGenerator) (ans : Answers) (w : World) (n : ℕ) where
  -- The world once the guards are passed and `acquire` has been called.
  unfoldable pub after_acquire : World
  after_acquire = record w {
    ctx = record (take_deferred w.ctx) {
      op_pool = (acquire (take_deferred w.ctx).op_pool w.heap).1;
    };
    heap = (acquire (take_deferred w.ctx).op_pool w.heap).2;
  }

  -- With operation `i` acquired.
  pub acquire_and_generate-of :
      (i : ℕ) (ops : List PooledOperation) (op : PooledOperation)
      → (acquire (take_deferred w.ctx).op_pool w.heap).0 ≡ some i
      → (acquire (take_deferred w.ctx).op_pool w.heap).1.operations ≡ some ops
      → get_elem? ops i ≡ some op
      → acquire_and_generate alloc g ans w ≡ generate_into alloc g ans i op.ranges after_acquire
  unfolding acquire_and_generate after_acquire slot_at
  acquire_and_generate-of i ops op a e at = ground (arith, a, e, at)

  pub acquire_and_generate-exhausted :
      (acquire (take_deferred w.ctx).op_pool w.heap).0 ≡ none
      → acquire_and_generate alloc g ans w ≡ idle after_acquire
  unfolding acquire_and_generate after_acquire slot_at
  acquire_and_generate-exhausted a = ground (arith, a)

  -- The guards let the rest run, or nothing happens.
  pub submit_next_io-cases :
      (submit_next_io alloc g ans w ≡ idle w)
      ⊎ (submit_next_io alloc g ans w ≡ acquire_and_generate alloc g ans w)
        × (w.ctx.outstanding_io < w.ctx.target_iodepth)
  unfolding submit_next_io
  submit_next_io-cases = ground arith

  acquire_and_generate-Balance :
      w.ctx.outstanding_io < u32_mod
      → Settled w.ctx.op_pool n
      → Balance w n (acquire_and_generate alloc g ans w)
  unfolding acquire_and_generate after_acquire slot_at
  acquire_and_generate-Balance low s =
      let (pool, out, target) = take_deferred_lem w.ctx in
      let p = (take_deferred w.ctx).op_pool in
      let s' : Settled p n = subst (λ q. Settled q n) (sym pool) s in
      let size : (acquire p w.heap).1.pool_size ≡ w.ctx.op_pool.pool_size =
        acquire-pool_size p w.heap ∙ ap (λ q. q.pool_size) pool in
      let low' : (take_deferred w.ctx).outstanding_io < u32_mod = omega (arith, low, out) in
      elim (Option-cases (acquire p w.heap).0) [
        | inl a ↦ subst (Balance w n) (sym (acquire_and_generate-exhausted a)) (
            rebase w after_acquire n (idle after_acquire) out target size
              (idle-Balance after_acquire n low' (acquire-Settled p n w.heap s' a)))
        | inr (i, a) ↦
            let t = acquire-Taken p n i w.heap s' a in
            subst (Balance w n) (sym (acquire_and_generate-of i t.ops t.op a t.valid.present t.at))
              (rebase w after_acquire n (generate_into alloc g ans i t.op.ranges after_acquire) out
                target size
                (generate_into-Balance alloc g ans i n t.op.ranges after_acquire low' t))
      ]

  pub submit_next_io-Balance :
      w.ctx.outstanding_io < u32_mod
      → Settled w.ctx.op_pool n
      → Balance w n (submit_next_io alloc g ans w)
  submit_next_io-Balance low s = elim submit_next_io-cases [
    | inl e ↦ subst (Balance w n) (sym e) (idle-Balance w n low s)
    | inr (e, d) ↦ subst (Balance w n) (sym e) (acquire_and_generate-Balance low s)
  ]
