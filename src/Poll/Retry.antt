-- ===== src/Poll/Retry.antt =====
-- submit_next_io_pooled: the loop around `generate`, and what becomes of the buffer when it gives up.
use xcopy_block_io.Common.{
  ℕ, zero, suc, ◌+◌, ◌<◌, ◌≡◌, refl, inl, inr, List, false, Option, some, arith, length, ap, sym,
  ◌∙◌, Bool-cases, get_elem?, subst,
}
use xcopy_block_io.Dma.{Heap, Alloc, remove}
use xcopy_block_io.Lba.{LbaManager}
use xcopy_block_io.Pool.{PooledOperation, acquire, release}
use xcopy_block_io.Pool.Acquire.{IsValid}
use xcopy_block_io.Pool.Hold.{Buffered, acquire-Buffered, release-Buffered, acquire-live}
use xcopy_block_io.Generator.{XcopyGenerator, Draws, Outcome, generate}
use xcopy_block_io.Generator.Operation
use xcopy_block_io.Generator.Operation.{XcopyOperation, free_ranges}
use xcopy_block_io.Generator.Effects.{generate-Untouched, generate_refuses}
use xcopy_block_io.Poll.State.{PollThreadContext, World}
use xcopy_block_io.Poll.Submit.{
  Answers, Submission, retry, max_retries, submit_next_io, acquire_and_generate, generate_into,
  give_up, slot_at, take_deferred, with_pool,
}
use xcopy_block_io.Poll.Balance.{after_acquire, acquire_and_generate-of}

-- What every attempt leaves alone: the buffer in use, the memory handed out, the buffer's size.
pub record Kept (a : ℕ) (h : Heap) (o : Outcome) : Type 0 where
  pub buffer : o.op.ranges ≡ some a
  pub live : o.heap.live ≡ h.live
  pub room : length (o.heap.content a) ≡ length (h.content a)

module _ (alloc : Alloc) (g : XcopyGenerator) (draws : ℕ → Draws) (range_size : ℕ) where
  pub retry-Kept :
      (n i a : ℕ) (op : XcopyOperation) (m : LbaManager) (h : Heap)
      → op.ranges ≡ some a
      → Kept a h (retry alloc g draws range_size n i op m h)
  unfolding retry
  retry-Kept zero i a op m h e = record { buffer = e; live = refl; room = refl }
  retry-Kept (suc n) i a op m h e =
      let o = generate alloc g (draws i) op m range_size h in
      let u = generate-Untouched alloc g (draws i) op a m range_size h e in
      let rest = retry-Kept n (i + 1) a o.op o.mgr o.heap u.buffer in
      elim (Bool-cases o.success) [
        | inl s ↦ rw (s, retry) (record { buffer = u.buffer; live = u.live; room = u.room })
        | inr s ↦
            rw (s, retry)
              (record {
                buffer = rest.buffer;
                live = rest.live ∙ u.live;
                room = rest.room ∙ u.room;
              })
      ]

  -- A range size beyond 65536 blocks makes every attempt fail.
  retry_refuses :
      (n i a : ℕ) (op : XcopyOperation) (m : LbaManager) (h : Heap)
      → op.ranges ≡ some a
      → 65536 < range_size
      → (retry alloc g draws range_size n i op m h).success ≡ false
  unfolding retry
  retry_refuses zero i a op m h e big = refl
  retry_refuses (suc n) i a op m h e big =
      let o = generate alloc g (draws i) op m range_size h in
      let u = generate-Untouched alloc g (draws i) op a m range_size h e in
      let bad = (generate_refuses alloc g (draws i) op a m range_size h e (inr (inl big))).0 in
      rw (bad, retry) (retry_refuses n (i + 1) a o.op o.mgr o.heap u.buffer big)

-- A command without a buffer of its own for the pooled one.
abbrev pub temporary : Option ℕ → XcopyOperation
temporary ranges = record (Operation.empty) { ranges = ranges }

give_up-frees :
    (i a : ℕ) (temp : XcopyOperation) (w : World)
    → temp.ranges ≡ some a
    → (give_up i temp w).world.heap.live ≡ remove a w.heap.live
unfolding give_up free_ranges with_pool
give_up-frees i a temp w e = ground (arith, e)

give_up-pool :
    (i : ℕ) (temp : XcopyOperation) (w : World)
    → (give_up i temp w).world.ctx.op_pool ≡ release (some i) w.ctx.op_pool
unfolding give_up with_pool
give_up-pool i temp w = refl

give_up-submitted :
    (i : ℕ) (temp : XcopyOperation) (w : World) → (give_up i temp w).submitted ≡ false
unfolding give_up
give_up-submitted i temp w = refl

pub take_deferred-pool : (c : PollThreadContext) → (take_deferred c).op_pool ≡ c.op_pool
unfolding take_deferred
take_deferred-pool c = ground arith

pub take_deferred-range_size : (c : PollThreadContext) → (take_deferred c).range_size ≡ c.range_size
unfolding take_deferred
take_deferred-range_size c = ground arith

-- Operation `i` is free, but its buffer `a` has been given back to SPDK, and nothing was sent.
pub record Dangling (w : World) (i a : ℕ) (s : Submission) : Type 0 where
  pub not_sent : s.submitted ≡ false
  pub op : PooledOperation
  pub at : slot_at i s.world.ctx.op_pool ≡ some op
  pub free : op.in_use ≡ false
  pub points : op.ranges ≡ some a
  pub freed : s.world.heap.live ≡ remove a w.heap.live

module _ (alloc : Alloc) (g : XcopyGenerator) (ans : Answers) where
  generate_into-Dangling :
      (w : World) (i a : ℕ)
      → Buffered w.ctx.op_pool i (some a)
      → (retry alloc g ans.draws w.ctx.range_size max_retries 0
          (temporary (some a))
          w.mgr
          w.heap).success
        ≡ false
      → Dangling w i a (generate_into alloc g ans i (some a) w)
  unfolding generate_into slot_at
  generate_into-Dangling w i a b bad =
      let o =
        retry alloc g ans.draws w.ctx.range_size max_retries 0 (temporary (some a)) w.mgr w.heap in
      let k =
        retry-Kept alloc g ans.draws w.ctx.range_size max_retries 0 a (temporary (some a)) w.mgr
          w.heap refl in
      let w' = record w { mgr = o.mgr; heap = o.heap } in
      let (op, ops, present, at, free, same) = release-Buffered w.ctx.op_pool i (some a) b in
      let pool = give_up-pool i o.op w' in
      rw bad (record {
        not_sent = give_up-submitted i o.op w';
        op = op;
        at = ground (arith, ap (λ p. p.operations) pool, present, at);
        free = free;
        points = same;
        freed = give_up-frees i a o.op w' k.buffer ∙ ap (remove a) k.live;
      })

  submit_next_io-of :
      (w : World) (q : ℕ)
      → w.ctx.should_stop ≡ false
      → w.ctx.qpair ≡ some q
      → w.ctx.outstanding_io < w.ctx.target_iodepth
      → submit_next_io alloc g ans w ≡ acquire_and_generate alloc g ans w
  unfolding submit_next_io
  submit_next_io-of w q go connected below = ground (arith, go, connected, below)

  -- With a range size beyond 65536 blocks, a worker that goes on, is connected and is below its depth,
  -- and whose valid pool gives operation `i` with buffer `a`, sends nothing and gives that buffer back
  -- to SPDK; the operation is free for the next submission and still points to the buffer.
  pub submit_next_io-Dangling :
      (w : World) (q i a : ℕ) (ops : List PooledOperation) (op : PooledOperation)
      → w.ctx.should_stop ≡ false
      → w.ctx.qpair ≡ some q
      → w.ctx.outstanding_io < w.ctx.target_iodepth
      → IsValid w.ctx.op_pool ops
      → get_elem? ops i ≡ some op
      → op.ranges ≡ some a
      → (acquire w.ctx.op_pool w.heap).0 ≡ some i
      → 65536 < w.ctx.range_size
      → Dangling w i a (submit_next_io alloc g ans w)
  unfolding after_acquire
  submit_next_io-Dangling w q i a ops op go connected below v at e took big =
      let c = take_deferred w.ctx in
      let same = take_deferred-pool w.ctx in
      let u : World = after_acquire alloc g ans w 0 in
      let took' : (acquire c.op_pool w.heap).0 ≡ some i =
        subst (λ p. (acquire p w.heap).0 ≡ some i) (sym same) took in
      let v' : IsValid c.op_pool ops = subst (λ p. IsValid p ops) (sym same) v in
      let b = acquire-Buffered c.op_pool ops w.heap i op v' at took' in
      let b' : Buffered u.ctx.op_pool i (some a) = subst (Buffered u.ctx.op_pool i) e b in
      let large : 65536 < u.ctx.range_size = omega (arith, take_deferred-range_size w.ctx, big) in
      let bad =
        retry_refuses alloc g ans.draws u.ctx.range_size max_retries 0 a (temporary (some a)) u.mgr
          u.heap refl large in
      let d = generate_into-Dangling u i a b' bad in
      let runs =
        submit_next_io-of w q go connected below
        ∙ acquire_and_generate-of alloc g ans w 0 i b.ops b.op took' b.valid.present b.at
        ∙ ap (λ r. generate_into alloc g ans i r u) (b.same ∙ e) in
      subst (Dangling w i a) (sym runs) (record {
        not_sent = d.not_sent;
        op = d.op;
        at = d.at;
        free = d.free;
        points = d.points;
        freed = d.freed ∙ ap (remove a) (acquire-live c.op_pool w.heap);
      })
