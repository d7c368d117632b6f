-- ===== src/Poll/System/Loop.antt =====
-- The loop of a worker's thread, and its drain, as turns of the system.
use xcopy_block_io.Common.{
  set-set, length-set, ℕ, zero, suc, ◌+◌, ◌≤◌, ◌<◌, ◌≡◌, arith, Bool, true, false, ◌∙◌, refl, inl,
  inr, List, [], ◌∷◌, Option, none, some, length, leb, if◌then◌else◌, get_elem?, get_elem?-set_self,
  lt_of_get_elem?, ltb, Bool-cases, Option-cases, sym, ap, subst,
}
use xcopy_block_io.Dma.{Alloc}
use xcopy_block_io.Generator.{XcopyGenerator}
use xcopy_block_io.Poll.State.{PollThreadContext, World}
use xcopy_block_io.Poll.Submit.{Answers, submit_next_io}
use xcopy_block_io.Poll.Complete.{xcopy_complete_cb, submit_batch}
use xcopy_block_io.Poll.Flight.{InFlight}
use xcopy_block_io.Poll.Balance.{sent}
use xcopy_block_io.Poll.Exit.{drain, after_loop, begin, leave, thread_func, max_drain_cycles}
use xcopy_block_io.Poll.Exit.Drain.{Flying, Prompt, callback-idle, finish_lem}
use xcopy_block_io.Poll.Worker.{
  Worker, Round, Callback, deliver, told, hear, set_qpair, reconnect, count_error, count_idle,
  busy_round, round, run, max_reconnect_attempts, max_consecutive_errors,
}
use xcopy_block_io.Poll.System.{
  System, seen, put, submits, completes, connects, asked, Run, here, next,
}

put-put : (u : System) (i : ℕ) (w v : World) → put u i v ≡ put (put u i w) i v
put-put u i w v =
    ap (λ ws. record (put u i v) { workers = ws }) (sym (set-set u.workers i w.ctx v.ctx))

module _ (alloc : Alloc) (g : XcopyGenerator) where
  -- What a round with a queue pair delivers is in flight.
  unfoldable pub IsTimely : Round → Worker → Type 0
  IsTimely r k =
      (q : ℕ)
      → k.world.ctx.qpair ≡ some q
      → Flying alloc g r.callbacks (hear r.stopped (submit_batch alloc g r.answers 32 0 k.world).1)

  -- Each round of a loop from `k` on.
  unfoldable pub AreTimely : List Round → Worker → Type 0
  AreTimely [] k = Unit
  AreTimely (r ∷ rs) k = IsTimely r k × AreTimely rs (round alloc g r k)

-- How many commands the rounds of a loop can have SPDK accept: 32 in the batch, and one for a callback.
abbrev pub most_sent : List Round → ℕ
most_sent [] = 0
most_sent (r ∷ rs) = 32 + length r.callbacks + most_sent rs

sent-le : (b : Bool) → sent b ≤ 1
unfolding sent
sent-le b = ground arith

module _ (alloc : Alloc) (g : XcopyGenerator) (u : System) (i : ℕ) where
  -- Turns lead from `u` to where worker `i` sees `w`, and have SPDK accept at most `b` commands.
  unfoldable pub Reaches : ℕ → World → Type 0
  Reaches b w = (n : ℕ) × Run alloc g u (put u i w) n × (n ≤ b)

  Reaches-le : (b c : ℕ) (w : World) → b ≤ c → Reaches b w → Reaches c w
  unfolding Reaches
  Reaches-le b c w h (n, run, few) = (n, run, omega (arith, h, few))

  module _ (h : i < length u.workers) where
    at_self : (w : World) → get_elem? (put u i w).workers i ≡ some w.ctx
    at_self w = get_elem?-set_self u.workers i w.ctx h

    submit-Reaches :
        (ans : Answers) (b : ℕ) (w : World)
        → Reaches b w
        → let s = submit_next_io alloc g ans w in Reaches (b + sent s.submitted) s.world
    unfolding Reaches
    submit-Reaches ans b w (n, run, few) = (
      _,
      next (put u i w) _ n _ run (
          submits i w.ctx ans (at_self w) (put-put u i w (submit_next_io alloc g ans w).world)
            refl),
      omega (arith, few),
    )

    set_qpair-Reaches : (q : Option ℕ) (b : ℕ) (w : World) → Reaches b w → Reaches b (set_qpair q w)
    unfolding Reaches
    set_qpair-Reaches q b w (n, run, few) = (
      _,
      next (put u i w) _ n 0 run
          (connects i w.ctx q (at_self w) (put-put u i w (set_qpair q w)) refl),
      omega (arith, few),
    )

    told-Reaches : (b : ℕ) (w : World) → Reaches b w → Reaches b (told w)
    unfolding Reaches
    told-Reaches b w (n, run, few) = (
      _,
      next (put u i w) _ n 0 run (asked i w.ctx (at_self w) (put-put u i w (told w)) refl),
      omega (arith, few),
    )

    hear-Reaches : (t : Bool) (b : ℕ) (w : World) → Reaches b w → Reaches b (hear t w)
    unfolding hear
    hear-Reaches true b w r = told-Reaches b w r
    hear-Reaches false b w r = r

    callback-Reaches :
        (c : Callback) (slot b : ℕ) (w : World)
        → InFlight w slot
        → Reaches b w
        → let s = xcopy_complete_cb alloc g c.answers c.end_time_ns c.completion (some slot) w in
          Reaches (b + sent s.submitted) s.world
    unfolding Reaches
    callback-Reaches c slot b w fly (n, run, few) =
        let s = xcopy_complete_cb alloc g c.answers c.end_time_ns c.completion (some slot) w in
        (
          _,
          next (put u i w) _ n _ run (
              completes i slot w.ctx c.answers c.end_time_ns c.completion (at_self w) fly
                (put-put u i w s.world) refl),
          omega (arith, few),
        )

    deliver-Reaches :
        (cs : List Callback) (b : ℕ) (w : World)
        → Flying alloc g cs w
        → Reaches b w
        → Reaches (b + length cs) (deliver alloc g cs w)
    unfolding deliver Flying InFlight
    deliver-Reaches [] b w f r = Reaches-le b (b + 0) w (omega arith) r
    deliver-Reaches (c ∷ cs) b w (slot, id, op, s, at, busy, user, f) r =
        let after =
          λ (o : Option ℕ). xcopy_complete_cb alloc g c.answers c.end_time_ns c.completion o w in
        let once = callback-Reaches c slot b w (op, at, busy) r in
        let once' : Reaches (b + 1) (after (some slot)).world =
          Reaches-le _ (b + 1) (after (some slot)).world
            (omega (arith, sent-le (after (some slot)).submitted)) once in
        let rest =
          deliver-Reaches cs (b + 1) (after c.slot).world f
            (subst (λ o. Reaches (b + 1) (after o).world) (sym s) once') in
        Reaches-le _ _ (deliver alloc g cs (after c.slot).world) (omega arith) rest

    -- The callbacks to a worker that stops have no command accepted.
    deliver_stopped-Reaches :
        (cs : List Callback) (b : ℕ) (w : World)
        → Flying alloc g cs w
        → w.ctx.should_stop ≡ true
        → Reaches b w
        → Reaches b (deliver alloc g cs w) × ((deliver alloc g cs w).ctx.should_stop ≡ true)
    unfolding deliver Flying InFlight sent
    deliver_stopped-Reaches [] b w f stop r = (r, stop)
    deliver_stopped-Reaches (c ∷ cs) b w (slot, id, op, s, at, busy, user, f) stop r =
        let after =
          λ (o : Option ℕ). xcopy_complete_cb alloc g c.answers c.end_time_ns c.completion o w in
        let quiet =
          callback-idle alloc g c.answers c.end_time_ns c.completion slot id op w at user stop in
        let none_sent : sent (after (some slot)).submitted ≡ 0 =
          ap (λ k. sent k.submitted) quiet ∙ sent_false in
        let same : (after c.slot).world.ctx.should_stop ≡ true =
          ap (λ o. (after o).world.ctx.should_stop) s
          ∙ ap (λ k. k.world.ctx.should_stop) quiet
          ∙ (finish_lem alloc g c.end_time_ns c.completion slot op w).0
          ∙ stop in
        let once =
          Reaches-le _ b (after (some slot)).world (omega (arith, none_sent))
            (callback-Reaches c slot b w (op, at, busy) r) in
        deliver_stopped-Reaches cs b (after c.slot).world f same
          (subst (λ o. Reaches b (after o).world) (sym s) once)
      where
        sent_false : sent false ≡ 0
        sent_false = refl

    submit_batch-Reaches :
        (ans : ℕ → Answers) (n submitted b : ℕ) (w : World)
        → Reaches b w
        → Reaches (b + n) (submit_batch alloc g ans n submitted w).1
    unfolding submit_batch
    submit_batch-Reaches ans zero submitted b w r = Reaches-le b (b + 0) w (omega arith) r
    submit_batch-Reaches ans (suc n) submitted b w r =
        let s = submit_next_io alloc g (ans submitted) w in
        let r' =
          Reaches-le _ (b + 1) s.world (omega (arith, sent-le s.submitted))
            (submit-Reaches (ans submitted) b w r) in
        let rest = submit_batch-Reaches ans n (submitted + 1) (b + 1) s.world r' in
        elim (Bool-cases (ltb w.ctx.outstanding_io w.ctx.target_iodepth)) [
          | inr e ↦ rw (e, submit_batch) (Reaches-le b (b + suc n) w (omega arith) r)
          | inl e ↦ elim (Bool-cases s.submitted) [
            | inl t ↦
                rw (e, t, submit_batch)
                  (Reaches-le _ (b + suc n) (submit_batch alloc g ans n (submitted + 1) s.world).1
                    (omega arith) rest)
            | inr t ↦ rw (e, t, submit_batch) (Reaches-le _ (b + suc n) s.world (omega arith) r')
          ]
        ]

    reconnect-Reaches :
        (q : Option ℕ) (b : ℕ) (k : Worker) → Reaches b k.world → Reaches b (reconnect q k).world
    unfolding reconnect
    reconnect-Reaches none b k r =
        elim (Bool-cases (ltb k.reconnect_attempts max_reconnect_attempts)) [
          | inl e ↦ rw (e, reconnect) r
          | inr e ↦ rw (e, reconnect) r
        ]
    reconnect-Reaches (some q) b k r =
        elim (Bool-cases (ltb k.reconnect_attempts max_reconnect_attempts)) [
          | inl e ↦ rw (e, reconnect) (set_qpair-Reaches (some q) b k.world r)
          | inr e ↦ rw (e, reconnect) r
        ]

    count_error-Reaches :
        (q b : ℕ) (k : Worker) → Reaches b k.world → Reaches b (count_error q k).world
    unfolding count_error
    count_error-Reaches q b k r =
        elim (Bool-cases (leb max_consecutive_errors (k.consecutive_errors + 1))) [
          | inl e ↦ rw (e, count_error) (set_qpair-Reaches none b k.world r)
          | inr e ↦ rw (e, count_error) r
        ]

    round-Reaches :
        (r : Round) (b : ℕ) (k : Worker)
        → IsTimely alloc g r k
        → Reaches b k.world
        → Reaches (b + (32 + length r.callbacks)) (round alloc g r k).world
    unfolding round busy_round IsTimely count_idle
    round-Reaches r b k timely reach = elim (Option-cases k.world.ctx.qpair) [
      | inl e ↦
          let lost : Reaches most (reconnect r.new_qpair k).world =
            Reaches-le b most (reconnect r.new_qpair k).world (omega arith)
              (reconnect-Reaches r.new_qpair b k reach) in
          subst (λ q. Reaches most (choose q).world) (sym e) lost
      | inr (q, e) ↦
          let (submitted, w) = submit_batch alloc g r.answers 32 0 k.world in
          let w' = deliver alloc g r.callbacks (hear r.stopped w) in
          let k' = record k { world = w' } in
          let out = submit_batch-Reaches r.answers 32 0 b k.world reach in
          let done : Reaches most w' = Reaches-le _ most w' (omega arith) (
            deliver-Reaches r.callbacks (b + 32) (hear r.stopped w) (timely q e)
              (hear-Reaches r.stopped (b + 32) w out)) in
          subst (λ o. Reaches most (choose o).world) (sym e)
            (elim (Option-cases r.num_completions) [
              | inl n ↦ rw n (count_error-Reaches q most k' done)
              | inr (m, n) ↦ rw n done
            ])
    ]
      where
        most : ℕ
        most = b + (32 + length r.callbacks)

        choose : Option ℕ → Worker
        choose o = elim o [ none ↦ reconnect r.new_qpair k | some q ↦ busy_round alloc g r q k ]

    pub run-Reaches :
        (rs : List Round) (b : ℕ) (k : Worker)
        → AreTimely alloc g rs k
        → Reaches b k.world
        → Reaches (b + most_sent rs) (run alloc g rs k).world
    unfolding run AreTimely
    run-Reaches [] b k t reach = Reaches-le b (b + 0) k.world (omega arith) reach
    run-Reaches (r ∷ rs) b k (t, ts) reach =
        let made = b + (32 + length r.callbacks) in
        let all = b + most_sent (r ∷ rs) in
        let later = run alloc g rs (round alloc g r k) in
        let rest =
          Reaches-le _ all later.world (omega arith)
            (run-Reaches rs made (round alloc g r k) ts (round-Reaches r b k t reach)) in
        elim (Bool-cases k.world.ctx.should_stop) [
          | inl e ↦
              subst (λ c. Reaches all (if c then k else later).world) (sym e)
                (Reaches-le b all k.world (omega arith) reach)
          | inr e ↦ subst (λ c. Reaches all (if c then k else later).world) (sym e) rest
        ]

    drain-Reaches :
        (polls : ℕ → List Callback) (n k b : ℕ) (w : World)
        → Prompt alloc g polls n k w
        → w.ctx.should_stop ≡ true
        → Reaches b w
        → Reaches b (drain alloc g polls n k w)
          × ((drain alloc g polls n k w).ctx.should_stop ≡ true)
    unfolding drain Prompt
    drain-Reaches polls zero k b w p stop r = (r, stop)
    drain-Reaches polls (suc n) k b w (f, p) stop r =
        let v = deliver alloc g (polls k) w in
        let (r', stop') = deliver_stopped-Reaches (polls k) b w f stop r in
        let rest = drain-Reaches polls n (k + 1) b v p stop' r' in
        elim (Bool-cases (ltb 0 w.ctx.outstanding_io)) [
          | inl e ↦ rw (e, drain) rest
          | inr e ↦ rw (e, drain) (r, stop)
        ]

    after_loop-Reaches :
        (polls : ℕ → List Callback) (b : ℕ) (w : World)
        → Prompt alloc g polls max_drain_cycles 0 w
        → w.ctx.should_stop ≡ true
        → Reaches b w
        → Reaches b (after_loop alloc g polls w)
          × ((after_loop alloc g polls w).ctx.should_stop ≡ true)
    unfolding after_loop
    after_loop-Reaches polls b w p stop r = elim (Option-cases w.ctx.qpair) [
      | inl e ↦ rw (e, after_loop) (r, stop)
      | inr (q, e) ↦ rw (e, after_loop) (drain-Reaches polls max_drain_cycles 0 b w p stop r)
    ]

thread_func-connected :
    (alloc : Alloc) (g : XcopyGenerator) (rounds : List Round) (polls : ℕ → List Callback)
    (w : World) (q : ℕ)
    → w.ctx.qpair ≡ some q
    → (thread_func alloc g rounds polls w).0
      ≡ leave (after_loop alloc g polls (told (run alloc g rounds (begin w)).world))
unfolding thread_func
thread_func-connected alloc g rounds polls w q e = ap (λ o. (choose o).0) e
  where
    choose : Option ℕ → World × List ℕ
    choose o = elim o [
      | none ↦ (w, [])
      | some p ↦ (
        leave (after_loop alloc g polls (told (run alloc g rounds (begin w)).world)),
        (run alloc g rounds (begin w)).deleted,
      )
    ]

-- What a thread leaves behind at its end: worker `i` of `u` has become `last` in a sequence of turns, with
-- `should_stop` set, and at most `most` commands were accepted on the way.
pub record Threaded (alloc : Alloc) (g : XcopyGenerator) (u : System) (i most : ℕ) (left : World)
    : Type 0 where
  pub last : World
  pub accepted : ℕ
  pub ran : Run alloc g u (put u i last) accepted
  pub left_behind : left ≡ leave last
  pub told_to : last.ctx.should_stop ≡ true
  pub limited : accepted ≤ most

module _ (alloc : Alloc) (g : XcopyGenerator) (s : System) (i : ℕ) where
  -- thread_func of worker `i`, from what it sees of the system with a queue pair and its loop begun, over
  -- any rounds, in one of which or after which the stop reaches it, and any polls of the drain, if
  -- the callbacks are for commands in flight: it is a sequence of turns of the system, at whose end
  -- `should_stop` is set, and then it clears the queue pair and the mark that it runs. It has SPDK
  -- accept at most 32 commands for each round and one for each callback in a round, and none in the
  -- drain.
  pub thread-Run :
      (ctx : PollThreadContext) (rounds : List Round) (polls : ℕ → List Callback) (q : ℕ)
      → get_elem? s.workers i ≡ some ctx
      → ctx.qpair ≡ some q
      → AreTimely alloc g rounds (begin (seen s ctx))
      → Prompt alloc g polls max_drain_cycles 0
          (told (run alloc g rounds (begin (seen s ctx))).world)
      → Threaded alloc g
          (put s i (begin (seen s ctx)).world)
          i
          (most_sent rounds)
          (thread_func alloc g rounds polls (seen s ctx)).0
  unfolding Reaches
  thread-Run ctx rounds polls q at connected timely prompt =
      let k = begin (seen s ctx) in
      let u = put s i k.world in
      let h : i < length u.workers =
        omega (arith, lt_of_get_elem? s.workers i ctx at, length-set s.workers i (k.world.ctx)) in
      let first : Reaches alloc g u i 0 k.world =
        (0, subst (λ v. Run alloc g u v 0) (put-put s i k.world k.world) here, omega arith) in
      let looped = run-Reaches alloc g u i h rounds 0 k timely first in
      let stopping = told (run alloc g rounds k).world in
      let asked_to =
        told-Reaches alloc g u i h (0 + most_sent rounds) (run alloc g rounds k).world looped in
      let ((n, ran, few), stop) =
        after_loop-Reaches alloc g u i h polls (0 + most_sent rounds) stopping prompt refl
          asked_to in
      record {
        last = after_loop alloc g polls stopping;
        accepted = n;
        ran = ran;
        left_behind = thread_func-connected alloc g rounds polls (seen s ctx) q connected;
        told_to = stop;
        limited = omega (arith, few);
      }
