-- ===== src/Poll/Sent.antt =====
-- submit_next_io_pooled and XcopyGenerator together: the commands that reach SPDK.
mod Tests
use xcopy_block_io.Common.{
  ℕ, zero, suc, ◌+◌, ◌*◌, ◌≤◌, ◌<◌, ◌≡◌, refl, inl, inr, List, Bool, true, false, Option, none,
  some, arith, length, ap, sym, subst, ◌∙◌, Bool-cases, Option-cases, get_elem?, get_elem?-set_self,
  lt_of_get_elem?, set, length-set, add32,
}
use xcopy_block_io.Dma.{Heap, Alloc, zeroed}
use xcopy_block_io.Lba.{LbaManager}
use xcopy_block_io.Pool.{PooledOperation, acquire, release}
use xcopy_block_io.Pool.Acquire.{IsValid, acquire_takes, release_lem, set-indexed}
use xcopy_block_io.Pool.Hold.{Cleared, acquire-Cleared, acquire-live}
use xcopy_block_io.Generator.{XcopyGenerator, Draws, Outcome, generate}
use xcopy_block_io.Generator.Operation.{XcopyOperation}
use xcopy_block_io.Generator.Effects.{generate-Untouched}
use xcopy_block_io.Generator.Success.{IsPrepared, IsCommand, generate-IsCommand}
use xcopy_block_io.Generator.Attempts.{ArePrepared, generate-ArePrepared}
use xcopy_block_io.Poll.State.{PollThreadContext, World}
use xcopy_block_io.Poll.Submit.{
  Answers, Command, Submission, retry, max_retries, submit_next_io, acquire_and_generate,
  generate_into, give_up, issue, idle, slot_at, take_deferred, write_slot, fill_slot, with_pool,
  handle_backpressure,
}
use xcopy_block_io.Poll.Retry.{temporary, retry-Kept, take_deferred-pool, take_deferred-range_size}
use xcopy_block_io.Poll.Balance.{
  after_acquire, acquire_and_generate-of, acquire_and_generate-exhausted, submit_next_io-cases,
  write_slot-of,
}

module _ (alloc : Alloc) (g : XcopyGenerator) (draws : ℕ → Draws) (range_size : ℕ) where
  -- Attempts that `generate` has refused, from an operation, a manager and a memory on: how many, and
  -- what they have left.
  pub data Refused (op : XcopyOperation) (m : LbaManager) (h : Heap)
      : ℕ → XcopyOperation → LbaManager → Heap → Type 0 where
    at_first : Refused op m h 0 op m h
    once_more :
        (i : ℕ) (op' : XcopyOperation) (m' : LbaManager) (h' : Heap) (o : Outcome)
        → Refused op m h i op' m' h'
        → o ≡ generate alloc g (draws i) op' m' range_size h'
        → o.success ≡ false
        → Refused op m h (i + 1) o.op o.mgr o.heap

  -- The outcome `o` of the first attempt that `generate` accepts, one of the ten, which made a
  -- well-formed command in buffer `a`.
  pub record Made (a : ℕ) (op : XcopyOperation) (m : LbaManager) (h : Heap) (o : Outcome)
      : Type 0 where
    pub attempt : ℕ
    pub few : attempt < max_retries
    pub op' : XcopyOperation
    pub mgr : LbaManager
    pub heap : Heap
    pub refused : Refused op m h attempt op' mgr heap
    pub outcome : o ≡ generate alloc g (draws attempt) op' mgr range_size heap
    pub command : IsCommand g (draws attempt) mgr range_size a o

  retry-Made :
      (a : ℕ) (op0 : XcopyOperation) (m0 : LbaManager) (h0 : Heap) (n i : ℕ) (op : XcopyOperation)
      (m : LbaManager) (h : Heap)
      → n + i ≤ max_retries
      → Refused op0 m0 h0 i op m h
      → op.ranges ≡ some a
      → ArePrepared g draws m (h.content a)
      → (retry alloc g draws range_size n i op m h).success ≡ true
      → Made a op0 m0 h0 (retry alloc g draws range_size n i op m h)
  unfolding retry
  retry-Made a op0 m0 h0 zero i op m h few r e all s = absurd (cc)
  retry-Made a op0 m0 h0 (suc n) i op m h few r e all s =
      let o = generate alloc g (draws i) op m range_size h in
      let u = generate-Untouched alloc g (draws i) op a m range_size h e in
      elim (Bool-cases o.success) [
        | inl t ↦
            rw (t, retry)
              (record {
                attempt = i;
                few = omega (arith, few);
                op' = op;
                mgr = m;
                heap = h;
                refused = r;
                outcome = refl;
                command = generate-IsCommand alloc g (draws i) op a m range_size h e (all i) t;
              })
        | inr t ↦
            rw (t, retry)
              (retry-Made a op0 m0 h0 n (i + 1) o.op o.mgr o.heap (omega (arith, few))
                (once_more i op m h o r refl t) u.buffer
                (generate-ArePrepared alloc g draws i op a m range_size h e all)
                (ground (arith, t, s)))
      ]

-- The call made for operation `i`, once `op` stands there.
abbrev call_of : ℕ → PooledOperation → Command
call_of i op = record {
  ranges = op.ranges;
  num_ranges = op.num_ranges;
  dst_nsid = op.dst_nsid;
  dst_lba = op.dst_lba;
  slot = i;
}

-- Operation `i` is taken, with buffer `a`.
record Held (w : World) (i a : ℕ) : Type 0 where
  ops : List PooledOperation
  op : PooledOperation
  valid : IsValid w.ctx.op_pool ops
  at : get_elem? ops i ≡ some op
  buffer : op.ranges ≡ some a
  busy : op.in_use ≡ true

-- With `op` written to slot `i`, SPDK is called for it; it stays in use if the command is accepted.
record Called (i : ℕ) (op : PooledOperation) (w : World) (s : Submission) : Type 0 where
  called : s.command ≡ some (call_of i op)
  left : slot_at i s.world.ctx.op_pool ≡ some (record op { in_use = s.submitted })
  heap : s.world.heap ≡ w.heap

handle_backpressure-pool :
    (ctx : PollThreadContext) → (handle_backpressure ctx).op_pool ≡ ctx.op_pool
unfolding handle_backpressure
handle_backpressure-pool ctx = ground arith

issue-Called :
    (ans : Answers) (i a : ℕ) (temp : XcopyOperation) (w : World) (called : Command)
    → (c : Held w i a) → (issue ans i temp w).command ≡ some called
    → Called i (fill_slot ans.now_ns w.ctx.thread_id temp c.op) w (issue ans i temp w)
unfolding issue slot_at fill_slot with_pool
issue-Called ans i a temp w called c s =
    let op = fill_slot ans.now_ns w.ctx.thread_id temp c.op in
    let ops = set c.ops i op in
    let pool = write_slot i (fill_slot ans.now_ns w.ctx.thread_id temp) w.ctx.op_pool in
    let written =
      write_slot-of (fill_slot ans.now_ns w.ctx.thread_id temp) i w.ctx.op_pool c.ops c.op
        c.valid.present c.at in
    let at = get_elem?-set_self c.ops i op (lt_of_get_elem? c.ops i c.op c.at) in
    let there : slot_at i pool ≡ some op = ap (slot_at i) written ∙ at in
    let valid : IsValid (record (w.ctx.op_pool) { operations = some ops }) ops = record {
      present = refl;
      sized = length-set c.ops i op ∙ c.valid.sized;
      next_in = c.valid.next_in;
      indexed = set-indexed c.ops i op c.valid.indexed (c.valid.indexed i c.op c.at);
    } in
    let valid' : IsValid pool ops = subst (λ p. IsValid p ops) (sym written) valid in
    let (freed, count) = release_lem pool ops i op valid' at in
    let back : slot_at i (release (some i) pool) ≡ some (record op { in_use = false }) =
      ap (λ (o : Option (List PooledOperation)). (elim o [ none ↦ none | some k ↦ get_elem? k i ]))
        freed.present
      ∙ get_elem?-set_self ops i (record op { in_use = false }) (lt_of_get_elem? ops i op at) in
    elim (Bool-cases ans.ns_found) [
      | inr f ↦ absurd (ground (arith, f, s))
      | inl f ↦ elim (Bool-cases ans.accepted) [
        | inl t ↦
            rw (f, t, there, issue)
              (record {
                called = refl;
                left = there ∙ ap (λ b. some (record op { in_use = b })) c.busy;
                heap = refl;
              })
        | inr t ↦
            rw (f, t, there, issue)
              (record {
                called = refl;
                left =
                    ap (slot_at i)
                      (handle_backpressure-pool (with_pool w (release (some i) pool)).ctx)
                    ∙ back;
                heap = refl;
              })
      ]
    ]

-- What was handed to SPDK for operation `slot` with buffer `a`, from manager `m` and memory `h` on: the
-- call names the ranges, the count and the destination that `generate` has settled, the buffer
-- holds its ranges and no memory has been given back; the operation records the command, keeps
-- the buffer, and is in use just when the command was accepted.
pub record Handed (alloc : Alloc) (g : XcopyGenerator) (draws : ℕ → Draws) (range_size : ℕ)
    (m : LbaManager) (h : Heap) (slot a : ℕ) (s : Submission) : Type 0 where
  pub outcome : Outcome
  pub made : Made alloc g draws range_size a (temporary (some a)) m h outcome
  pub command : Command
  pub called : s.command ≡ some command
  pub ranges : command.ranges ≡ some a
  pub num_ranges : command.num_ranges ≡ outcome.op.num_ranges
  pub dst_nsid : command.dst_nsid ≡ outcome.op.dst_nsid
  pub dst_lba : command.dst_lba ≡ outcome.op.dst_lba
  pub argument : command.slot ≡ slot
  pub content : s.world.heap.content a ≡ outcome.heap.content a
  pub live : s.world.heap.live ≡ h.live
  pub op : PooledOperation
  pub at : slot_at slot s.world.ctx.op_pool ≡ some op
  pub busy : op.in_use ≡ s.submitted
  pub buffer : op.ranges ≡ some a
  pub total_blocks : op.total_blocks ≡ outcome.op.total_blocks

-- The same of a submission from world `w`: the operation was free there, with this buffer.
pub record Sent (alloc : Alloc) (g : XcopyGenerator) (draws : ℕ → Draws) (w : World)
    (s : Submission) : Type 0 where
  pub slot : ℕ
  pub buffer : ℕ
  pub was : PooledOperation
  pub was_at : slot_at slot w.ctx.op_pool ≡ some was
  pub was_free : was.in_use ≡ false
  pub was_buffer : was.ranges ≡ some buffer
  pub handed :
      Handed alloc g draws w.ctx.range_size w.mgr (acquire w.ctx.op_pool w.heap).2 slot buffer s
  pub live : s.world.heap.live ≡ w.heap.live

-- Every operation of a pool has a buffer, and room for `max_ranges` ranges in it.
abbrev pub Stocked : ℕ → List PooledOperation → Type 0
Stocked max_ranges ops =
    (i : ℕ) (op : PooledOperation)
    → get_elem? ops i ≡ some op
    → (op.max_ranges ≡ max_ranges) × (a : ℕ) × (op.ranges ≡ some a)

module _ (alloc : Alloc) (g : XcopyGenerator) (ans : Answers) (max_ranges : ℕ) where
  generate_into-Handed :
      (i a : ℕ) (w : World) (c : Command)
      → Cleared w.ctx.op_pool w.heap i a max_ranges
      → ArePrepared g ans.draws w.mgr (zeroed max_ranges)
      → (generate_into alloc g ans i (some a) w).command ≡ some c
      → Handed alloc g ans.draws w.ctx.range_size w.mgr w.heap i a
          (generate_into alloc g ans i (some a) w)
  unfolding generate_into give_up fill_slot
  generate_into-Handed i a w called c all s =
      let o =
        retry alloc g ans.draws w.ctx.range_size max_retries 0 (temporary (some a)) w.mgr w.heap in
      let all' = subst (ArePrepared g ans.draws w.mgr) (sym c.content) all in
      let w' = record w { mgr = o.mgr; heap = o.heap } in
      elim (Bool-cases o.success) [
        | inr bad ↦ absurd (ground (arith, bad, s))
        | inl t ↦
            let made =
              retry-Made alloc g ans.draws w.ctx.range_size a (temporary (some a)) w.mgr w.heap
                max_retries 0 (temporary (some a)) w.mgr w.heap (omega arith) at_first refl all'
                t in
            let kept =
              retry-Kept alloc g ans.draws w.ctx.range_size max_retries 0 a (temporary (some a))
                w.mgr w.heap refl in
            let held : Held w' i a = record {
              ops = c.ops;
              op = c.op;
              valid = c.valid;
              at = c.at;
              buffer = c.buffer;
              busy = c.busy;
            } in
            let e : generate_into alloc g ans i (some a) w ≡ issue ans i o.op w' =
              rw (t, generate_into) refl in
            let k =
              issue-Called ans i a o.op w' called held
                (ap (λ (k : Submission). k.command) (sym e) ∙ s) in
            let op = fill_slot ans.now_ns w.ctx.thread_id o.op c.op in
            subst (Handed alloc g ans.draws w.ctx.range_size w.mgr w.heap i a) (sym e) (record {
              outcome = o;
              made = made;
              command = call_of i op;
              called = k.called;
              ranges = c.buffer;
              num_ranges = refl;
              dst_nsid = refl;
              dst_lba = refl;
              argument = refl;
              content = ap (λ (h : Heap). h.content a) k.heap;
              live = ap (λ (h : Heap). h.live) k.heap ∙ kept.live;
              op = record op { in_use = (issue ans i o.op w').submitted };
              at = k.left;
              busy = refl;
              buffer = c.buffer;
              total_blocks = refl;
            })
      ]

  acquire_and_generate-Sent :
      (w : World) (ops : List PooledOperation) (c : Command)
      → IsValid w.ctx.op_pool ops
      → Stocked max_ranges ops
      → 0 < max_ranges
      → ArePrepared g ans.draws w.mgr (zeroed max_ranges)
      → (acquire_and_generate alloc g ans w).command ≡ some c
      → Sent alloc g ans.draws w (acquire_and_generate alloc g ans w)
  unfolding after_acquire slot_at
  acquire_and_generate-Sent w ops called v stock some_ranges all s =
      let p = (take_deferred w.ctx).op_pool in
      let same : p ≡ w.ctx.op_pool = take_deferred-pool w.ctx in
      let u = after_acquire alloc g ans w 0 in
      let v' : IsValid p ops = subst (λ q. IsValid q ops) (sym same) v in
      elim (Option-cases (acquire p w.heap).0) [
        | inl none_left ↦ absurd (
            cc (
              ap (λ (k : Submission). k.command)
                  (acquire_and_generate-exhausted alloc g ans w 0 none_left),
              s,
            ))
        | inr (i, took) ↦
            let t = acquire_takes p ops w.heap i v' took in
            let (room, a, e) = stock i t.op t.was in
            let c = acquire-Cleared p ops w.heap i a t.op v' t.was e (omega (arith, room)) took in
            let c' = subst (Cleared u.ctx.op_pool u.heap i a) room c in
            let runs : acquire_and_generate alloc g ans w ≡ generate_into alloc g ans i (some a) u =
              acquire_and_generate-of alloc g ans w 0 i c.ops c.op took c.valid.present c.at
              ∙ ap (λ r. generate_into alloc g ans i r u) c.buffer in
            let into =
              generate_into-Handed i a u called c' all
                (ap (λ (k : Submission). k.command) (sym runs) ∙ s) in
            let handed : Handed alloc g ans.draws w.ctx.range_size w.mgr
                (acquire w.ctx.op_pool w.heap).2 i a (acquire_and_generate alloc g ans w) =
              subst
                (λ n.
                  Handed alloc g ans.draws n w.mgr (acquire w.ctx.op_pool w.heap).2 i a
                    (acquire_and_generate alloc g ans w))
                (take_deferred-range_size w.ctx)
                (subst
                  (λ q.
                    Handed alloc g ans.draws u.ctx.range_size w.mgr (acquire q w.heap).2 i a
                      (acquire_and_generate alloc g ans w))
                  same
                  (subst (Handed alloc g ans.draws u.ctx.range_size w.mgr u.heap i a) (sym runs)
                    into)) in
            record {
              slot = i;
              buffer = a;
              was = t.op;
              was_at = ground (arith, v.present, t.was);
              was_free = t.free;
              was_buffer = e;
              handed = handed;
              live = handed.live ∙ acquire-live w.ctx.op_pool w.heap;
            }
      ]

  -- Whenever a submission calls SPDK, whether the command is accepted or not, from a valid pool whose
  -- operations all have buffers of the size asked for, with prepared attempts: an operation that was
  -- free is handed over with its own buffer. The first attempt that was not refused, one of at most
  -- ten, made a well-formed command there; the call names the buffer, the count, the namespace and
  -- the destination, the buffer holds the ranges still, and no memory has been given back. The
  -- operation records its blocks and its buffer, and is in use just when the command was accepted.
  pub submit_next_io-Sent :
      (w : World) (ops : List PooledOperation) (c : Command)
      → IsValid w.ctx.op_pool ops
      → Stocked max_ranges ops
      → 0 < max_ranges
      → ArePrepared g ans.draws w.mgr (zeroed max_ranges)
      → (submit_next_io alloc g ans w).command ≡ some c
      → Sent alloc g ans.draws w (submit_next_io alloc g ans w)
  submit_next_io-Sent w ops c v stock some_ranges all s =
      elim (submit_next_io-cases alloc g ans w 0) [
        | inl e ↦ absurd (cc (ap (λ (k : Submission). k.command) e, s))
        | inr (e, below) ↦ subst (Sent alloc g ans.draws w) (sym e) (
            acquire_and_generate-Sent w ops c v stock some_ranges all
              (ap (λ (k : Submission). k.command) (sym e) ∙ s))
      ]
