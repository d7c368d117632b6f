-- ===== src/Poll/Exit/Drain.antt =====
-- The end of PollThreadManager::thread_func: the commands outstanding are drained.
use xcopy_block_io.Common.{
  ℕ, zero, suc, ◌+◌, ◌≡◌, refl, ◌⊎◌, inl, inr, List, [], ◌∷◌, true, Option, none, some, arith,
  length, ltb, Bool-cases, sub32, sym, ap, subst, ◌∙◌,
}
use xcopy_block_io.Dma.{Alloc}
use xcopy_block_io.Pool.{PooledOperation}
use xcopy_block_io.Errors.{is_saturation_error}
use xcopy_block_io.Generator.{XcopyGenerator}
use xcopy_block_io.Poll.State.{World}
use xcopy_block_io.Poll.Submit.{Answers, submit_next_io, slot_at, idle}
use xcopy_block_io.Poll.Complete.{
  Completion, finish, note_failure, note_success, add_deferred, is_failure, xcopy_complete_cb,
}
use xcopy_block_io.Poll.Flight.{Balanced, InFlight, complete-Balanced}
use xcopy_block_io.Poll.Worker.{Callback, deliver}
use xcopy_block_io.Poll.Exit.{drain}

module _ (alloc : Alloc) (g : XcopyGenerator) where
  -- Callbacks for commands in flight, each of which is still so when its turn comes.
  unfoldable pub Flying : List Callback → World → Type 0
  Flying [] w = Unit
  Flying (c ∷ cs) w =
      (i id : ℕ) × (op : PooledOperation) × (c.slot ≡ some i)
      × (slot_at i w.ctx.op_pool ≡ some op)
      × (op.in_use ≡ true)
      × (op.user_data ≡ some id)
      × Flying cs (xcopy_complete_cb alloc g c.answers c.end_time_ns c.completion c.slot w).world

  -- The same of the callbacks of `n` polls from poll `k` on.
  unfoldable pub Prompt : (ℕ → List Callback) → ℕ → ℕ → World → Type 0
  Prompt polls zero k w = Unit
  Prompt polls (suc n) k w =
      Flying (polls k) w × Prompt polls n (k + 1) (deliver alloc g (polls k) w)

  pub finish_lem :
      (now : ℕ) (cpl : Completion) (i : ℕ) (op : PooledOperation) (w : World)
      → ((finish now cpl i op w).ctx.should_stop ≡ w.ctx.should_stop)
        × ((finish now cpl i op w).ctx.outstanding_io ≡ sub32 w.ctx.outstanding_io 1)
  unfolding finish note_failure note_success add_deferred
  finish_lem now cpl i op w = elim (Bool-cases (is_failure cpl)) [
    | inr e ↦ rw (e, finish) (refl, refl)
    | inl e ↦ elim (Bool-cases (is_saturation_error cpl.sc)) [
      | inl f ↦ rw (e, f, finish) (refl, refl)
      | inr f ↦ rw (e, f, finish) (refl, refl)
    ]
  ]

  submit_stopped :
      (ans : Answers) (w : World) → w.ctx.should_stop ≡ true → submit_next_io alloc g ans w ≡ idle w
  unfolding submit_next_io
  submit_stopped ans w e = rw (e, submit_next_io) refl

  pub callback-finish :
      (ans : Answers) (now : ℕ) (cpl : Completion) (i id : ℕ) (op : PooledOperation) (w : World)
      → slot_at i w.ctx.op_pool ≡ some op
      → op.user_data ≡ some id
      → xcopy_complete_cb alloc g ans now cpl (some i) w
        ≡ submit_next_io alloc g ans (finish now cpl i op w)
  unfolding xcopy_complete_cb
  callback-finish ans now cpl i id op w at user = ground (arith, at, user)

  pub callback-alone :
      (ans : Answers) (now : ℕ) (cpl : Completion) (i : ℕ) (op : PooledOperation) (w : World)
      → slot_at i w.ctx.op_pool ≡ some op
      → op.user_data ≡ none
      → xcopy_complete_cb alloc g ans now cpl (some i) w ≡ idle w
  unfolding xcopy_complete_cb
  callback-alone ans now cpl i op w at user = ground (arith, at, user)

  -- For a worker that stops, the callback is `finish`, and submits nothing.
  pub callback-idle :
      (ans : Answers) (now : ℕ) (cpl : Completion) (i id : ℕ) (op : PooledOperation) (w : World)
      → slot_at i w.ctx.op_pool ≡ some op
      → op.user_data ≡ some id
      → w.ctx.should_stop ≡ true
      → xcopy_complete_cb alloc g ans now cpl (some i) w ≡ idle (finish now cpl i op w)
  callback-idle ans now cpl i id op w at user stop =
      let (same, out) = finish_lem now cpl i op w in
      callback-finish ans now cpl i id op w at user
      ∙ submit_stopped ans (finish now cpl i op w) (same ∙ stop)

  callback_stopped :
      (ans : Answers) (now : ℕ) (cpl : Completion) (i id : ℕ) (op : PooledOperation) (w : World)
      → slot_at i w.ctx.op_pool ≡ some op
      → op.user_data ≡ some id
      → w.ctx.should_stop ≡ true
      → (xcopy_complete_cb alloc g ans now cpl (some i) w).world ≡ finish now cpl i op w
  callback_stopped ans now cpl i id op w at user stop =
      ap (λ s. s.world) (callback-idle ans now cpl i id op w at user stop)

  -- A callback to a worker that stops takes one command out of the count, and submits none.
  complete_stopped :
      (d : ℕ) (c : Callback) (i id : ℕ) (op : PooledOperation) (w : World)
      → c.slot ≡ some i
      → slot_at i w.ctx.op_pool ≡ some op
      → op.in_use ≡ true
      → op.user_data ≡ some id
      → w.ctx.should_stop ≡ true
      → Balanced d w
      → let v = (xcopy_complete_cb alloc g c.answers c.end_time_ns c.completion c.slot w).world in
        Balanced d v
        × (v.ctx.should_stop ≡ true)
        × (v.ctx.outstanding_io + 1 ≡ w.ctx.outstanding_io)
  unfolding InFlight
  complete_stopped d c i id op w s at busy user stop b =
      let after = λ (slot : Option ℕ).
        (xcopy_complete_cb alloc g c.answers c.end_time_ns c.completion slot w).world in
      let balanced =
        complete-Balanced alloc g d c.answers c.end_time_ns c.completion i w (op, at, busy) b in
      let balanced' : Balanced d (after c.slot) =
        subst (λ slot. Balanced d (after slot)) (sym s) balanced in
      let done : after c.slot ≡ finish c.end_time_ns c.completion i op w =
        ap after s ∙ callback_stopped c.answers c.end_time_ns c.completion i id op w at user stop in
      let (same, out) = finish_lem c.end_time_ns c.completion i op w in
      let still = ap (λ v. v.ctx.should_stop) done ∙ same ∙ stop in
      let less = ap (λ v. v.ctx.outstanding_io) done ∙ out in
      (
        balanced',
        still,
        omega (arith, less, balanced'.within, balanced'.depth, balanced'.small, b.within, b.small),
      )

  deliver_stopped :
      (d : ℕ) (cs : List Callback) (w : World)
      → Flying cs w
      → w.ctx.should_stop ≡ true
      → Balanced d w
      → let v = deliver alloc g cs w in
        Balanced d v
        × (v.ctx.should_stop ≡ true)
        × (v.ctx.outstanding_io + length cs ≡ w.ctx.outstanding_io)
  unfolding deliver Flying
  deliver_stopped d [] w f stop b = (b, stop, omega arith)
  deliver_stopped d (c ∷ cs) w (i, id, op, s, at, busy, user, f) stop b =
      let (b', stop', less) = complete_stopped d c i id op w s at busy user stop b in
      let v = (xcopy_complete_cb alloc g c.answers c.end_time_ns c.completion c.slot w).world in
      let (b'', stop'', rest) = deliver_stopped d cs v f stop' b' in
      (b'', stop'', omega (arith, less, rest))

  -- How many completions `n` polls deliver from poll `k` on.
  pub delivered : (ℕ → List Callback) → ℕ → ℕ → ℕ
  delivered polls zero k = 0
  delivered polls (suc n) k = length (polls k) + delivered polls n (k + 1)

  -- A worker that stops with its count balanced, drained by polls that deliver commands in flight:
  -- at the end either no command is outstanding, or the cycles are used up and what the polls did
  -- not deliver is outstanding still. In both cases as many operations of the pool are in use.
  pub drain_lem :
      (d : ℕ) (polls : ℕ → List Callback) (n k : ℕ) (w : World)
      → Prompt polls n k w
      → w.ctx.should_stop ≡ true
      → Balanced d w
      → let v = drain alloc g polls n k w in
        Balanced d v
        × ((v.ctx.outstanding_io ≡ 0)
            ⊎ (v.ctx.outstanding_io + delivered polls n k ≡ w.ctx.outstanding_io))
  unfolding drain Prompt delivered
  drain_lem d polls zero k w p stop b = (b, inr (omega arith))
  drain_lem d polls (suc n) k w (f, p) stop b =
      let v = deliver alloc g (polls k) w in
      let (b', stop', less) = deliver_stopped d (polls k) w f stop b in
      let (b'', rest) = drain_lem d polls n (k + 1) v p stop' b' in
      elim (Bool-cases (ltb 0 w.ctx.outstanding_io)) [
        | inr e ↦ rw (e, drain) (b, inl (ground (arith, e)))
        | inl e ↦
            rw (e, drain) (b'', elim rest [ inl z ↦ inl z | inr r ↦ inr (omega (arith, r, less)) ])
      ]
