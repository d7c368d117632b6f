-- ===== src/Poll/Poller.antt =====
-- PollThreadManager::poller_func, the poller for an SPDK thread. Nothing in the program registers it; the
-- loop of `thread_func` does its work.
use xcopy_block_io.Common.{
  ℕ, zero, suc, ◌+◌, inl, inr, List, [], ◌∷◌, Bool, true, false, Option, none, some, ltb, ◌&&◌, not,
  if◌then◌else◌, Bool-cases, sym, subst,
}
use xcopy_block_io.Dma.{Alloc}
use xcopy_block_io.Generator.{XcopyGenerator}
use xcopy_block_io.Poll.State.{World}
use xcopy_block_io.Poll.Submit.{Answers, submit_next_io}
use xcopy_block_io.Poll.Worker.{Callback, deliver, set_qpair}
use xcopy_block_io.Poll.Complete.{xcopy_complete_cb}
use xcopy_block_io.Poll.Exit.Drain.{Flying}
use xcopy_block_io.Poll.Flight.{Balanced, InFlight, submit_next_io-Balanced, complete-Balanced}

-- The loop that submits, with `n` rounds left; each round asks for its answers.
unfoldable pub submit_all : Alloc → XcopyGenerator → (ℕ → Answers) → ℕ → ℕ → World → World
submit_all alloc g ans zero submitted w = w
submit_all alloc g ans (suc n) submitted w =
    let s = submit_next_io alloc g (ans submitted) w in
    let rest = submit_all alloc g ans n (submitted + 1) s.world in
    if ltb w.ctx.outstanding_io w.ctx.target_iodepth && not w.ctx.should_stop
    then (if s.submitted then rest else s.world)
    else w

-- Rounds of the loop: the depth, which an int holds, but at most 256.
abbrev pub max_submissions_per_poll : World → ℕ
max_submissions_per_poll w = if ltb 256 w.ctx.target_iodepth then 256 else w.ctx.target_iodepth

-- With a queue pair.
unfoldable pub poll : Alloc → XcopyGenerator → (ℕ → Answers) → List Callback → World → World
unfolding submit_all
poll alloc g ans callbacks w =
    let w' = deliver alloc g callbacks w in
    submit_all alloc g ans (max_submissions_per_poll w') 0 w'

-- Whether the poller goes on, and the world: `new_qpair` is what reconnecting gives. The queue pair is
-- read again after the completions, which do not write it.
unfoldable pub poller_func :
    Alloc → XcopyGenerator → (ℕ → Answers) → List Callback → Option ℕ → World → ℕ × World
unfolding poll
poller_func alloc g ans callbacks new_qpair w =
    let polled = poll alloc g ans callbacks w in
    let again = poll alloc g ans callbacks (set_qpair new_qpair w) in
    if not w.ctx.running then (0, w) else elim w.ctx.qpair [
      | some q ↦ (1, polled)
      | none ↦ elim new_qpair [ none ↦ (1, w) | some q ↦ (1, again) ]
    ]

-- What holds of the worlds that the poller may leave holds of the one that it leaves.
on_each_branch :
    (P : ℕ × World → Type 0) (running : Bool) (qpair new_qpair : Option ℕ) (w polled again : World)
    → P (0, w)
    → P (1, w)
    → P (1, polled)
    → P (1, again)
    → P (
        if not running then (0, w) else elim qpair [
          | some q ↦ (1, polled)
          | none ↦ elim new_qpair [ none ↦ (1, w) | some q ↦ (1, again) ]
        ])
on_each_branch P false qpair new_qpair w polled again a b c d = a
on_each_branch P true (some q) new_qpair w polled again a b c d = c
on_each_branch P true none none w polled again a b c d = b
on_each_branch P true none (some q) w polled again a b c d = d

module _ (alloc : Alloc) (g : XcopyGenerator) (ans : ℕ → Answers) (d : ℕ) where
  submit_all-Balanced :
      (n submitted : ℕ) (w : World)
      → Balanced d w
      → Balanced d (submit_all alloc g ans n submitted w)
  unfolding submit_all
  submit_all-Balanced zero submitted w b = b
  submit_all-Balanced (suc n) submitted w b =
      let s = submit_next_io alloc g (ans submitted) w in
      let b' = submit_next_io-Balanced alloc g (ans submitted) d w b in
      let rest = submit_all-Balanced n (submitted + 1) s.world b' in
      elim (Bool-cases (ltb w.ctx.outstanding_io w.ctx.target_iodepth && not w.ctx.should_stop)) [
        | inr e ↦
            subst
              (λ x. Balanced d (
                if x
                then (if s.submitted
                    then submit_all alloc g ans n (submitted + 1) s.world
                    else s.world)
                else w))
              (sym e) b
        | inl e ↦ elim (Bool-cases s.submitted) [
          | inl t ↦ rw (e, t, submit_all) rest
          | inr t ↦ rw (e, t, submit_all) b'
        ]
      ]

  deliver-Balanced :
      (cs : List Callback) (w : World)
      → Flying alloc g cs w
      → Balanced d w
      → Balanced d (deliver alloc g cs w)
  unfolding deliver Flying InFlight
  deliver-Balanced [] w f b = b
  deliver-Balanced (c ∷ cs) w (i, id, op, s, at, busy, user, f) b =
      let after = λ (slot : Option ℕ).
        (xcopy_complete_cb alloc g c.answers c.end_time_ns c.completion slot w).world in
      let balanced =
        complete-Balanced alloc g d c.answers c.end_time_ns c.completion i w (op, at, busy) b in
      deliver-Balanced cs (after c.slot) f
        (subst (λ slot. Balanced d (after slot)) (sym s) balanced)

  poll-Balanced :
      (cs : List Callback) (w : World)
      → Flying alloc g cs w
      → Balanced d w
      → Balanced d (poll alloc g ans cs w)
  unfolding poll
  poll-Balanced cs w f b =
      let w' = deliver alloc g cs w in
      submit_all-Balanced (max_submissions_per_poll w') 0 w' (deliver-Balanced cs w f b)

  -- The poller keeps a worker balanced, for callbacks of commands in flight on the queue pair that it
  -- has or gets.
  pub poller_func-Balanced :
      (cs : List Callback) (new_qpair : Option ℕ) (w : World)
      → Flying alloc g cs w
      → Flying alloc g cs (set_qpair new_qpair w)
      → Balanced d w
      → Balanced d (poller_func alloc g ans cs new_qpair w).1
  unfolding poller_func set_qpair
  poller_func-Balanced cs new_qpair w f f' b =
      let b' : Balanced d (set_qpair new_qpair w) = record {
        depth = b.depth;
        pool = b.pool;
        within = b.within;
        sized = b.sized;
        small = b.small;
      } in
      on_each_branch (λ r. Balanced d r.1) w.ctx.running w.ctx.qpair new_qpair w
        (poll alloc g ans cs w) (poll alloc g ans cs (set_qpair new_qpair w)) b b
        (poll-Balanced cs w f b) (poll-Balanced cs (set_qpair new_qpair w) f' b')
