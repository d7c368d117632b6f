-- ===== src/Poll/System/Account.antt =====
-- The workers of a run together: every command that SPDK accepts is accounted for.
use xcopy_block_io.Common.{
  ℕ, zero, suc, ◌+◌, ◌<◌, ◌≡◌, refl, inl, inr, List, [], ◌∷◌, Option, some, some-injective, arith,
  get_elem?, set, Bool-cases, Option-cases, u64_mod, ap, ◌∙◌,
}
use xcopy_block_io.Dma.{Alloc}
use xcopy_block_io.Statistics.{Statistics, record_completion, record_failure}
use xcopy_block_io.Pool.{PooledOperation, acquire}
use xcopy_block_io.Generator.{XcopyGenerator}
use xcopy_block_io.Generator.Operation
use xcopy_block_io.Generator.Operation.{XcopyOperation}
use xcopy_block_io.Poll.State.{PollThreadContext, World}
use xcopy_block_io.Poll.Submit.{
  take_deferred, retry, max_retries, Answers, submit_next_io, acquire_and_generate, generate_into,
  issue, give_up, slot_at, with_pool,
}
use xcopy_block_io.Poll.Balance.{submit_next_io-cases}
use xcopy_block_io.Poll.Complete.{Completion, finish, note_failure, note_success, is_failure}

-- The commands recorded, as completed or failed.
abbrev pub recorded : Statistics → ℕ
recorded s = s.operations_completed + s.operations_failed

abbrev pub total_outstanding : List PollThreadContext → ℕ
total_outstanding [] = 0
total_outstanding (ctx ∷ ctxs) = ctx.outstanding_io + total_outstanding ctxs

pub total-set :
    (ctxs : List PollThreadContext) (i : ℕ) (old new : PollThreadContext)
    → get_elem? ctxs i ≡ some old
    → total_outstanding (set ctxs i new) + old.outstanding_io
      ≡ total_outstanding ctxs + new.outstanding_io
total-set [] i old new e = absurd (cc e)
total-set (c ∷ cs) zero old new e =
    let same : c.outstanding_io ≡ old.outstanding_io =
      ap (λ x. x.outstanding_io) (some-injective _ _ e) in
    omega (arith, same)
total-set (c ∷ cs) (suc i) old new e = omega (arith, total-set cs i old new e)

-- A submission records nothing.
issue-stats :
    (ans : Answers) (i : ℕ) (temp : XcopyOperation) (w : World)
    → (issue ans i temp w).world.stats ≡ w.stats
unfolding issue with_pool
issue-stats ans i temp w = elim (Bool-cases ans.ns_found) [
  | inr e ↦ rw (e, issue) refl
  | inl e ↦ elim (Bool-cases ans.accepted) [
    | inl a ↦ rw (e, a, issue) refl
    | inr a ↦ rw (e, a, issue) refl
  ]
]

module _ (alloc : Alloc) (g : XcopyGenerator) (ans : Answers) where
  generate_into-stats :
      (i : ℕ) (ranges : Option ℕ) (w : World)
      → (generate_into alloc g ans i ranges w).world.stats ≡ w.stats
  unfolding generate_into give_up with_pool
  generate_into-stats i ranges w =
      let temp = record (Operation.empty) { ranges = ranges } in
      let o = retry alloc g ans.draws w.ctx.range_size max_retries 0 temp w.mgr w.heap in
      let w' = record w { mgr = o.mgr; heap = o.heap } in
      elim (Bool-cases o.success) [
        | inl s ↦ rw (s, generate_into) (issue-stats ans i o.op w')
        | inr s ↦ rw (s, generate_into) refl
      ]

  acquire_and_generate-stats :
      (w : World) → (acquire_and_generate alloc g ans w).world.stats ≡ w.stats
  unfolding acquire_and_generate
  acquire_and_generate-stats w =
      let ctx = take_deferred w.ctx in
      let (slot, pool, h) = acquire ctx.op_pool w.heap in
      let w' = record w { ctx = record ctx { op_pool = pool }; heap = h } in
      elim (Option-cases slot) [
        | inl e ↦ rw (e, acquire_and_generate) refl
        | inr (i, e) ↦ elim (Option-cases (slot_at i pool)) [
          | inl f ↦ rw (e, f, acquire_and_generate) refl
          | inr (op, f) ↦ rw (e, f, acquire_and_generate) (generate_into-stats i op.ranges w')
        ]
      ]

  pub submit_next_io-stats : (w : World) → (submit_next_io alloc g ans w).world.stats ≡ w.stats
  submit_next_io-stats w = elim (submit_next_io-cases alloc g ans w 0) [
    | inl e ↦ ap (λ s. s.world.stats) e
    | inr (e, d) ↦ ap (λ s. s.world.stats) e ∙ acquire_and_generate-stats w
  ]

-- A completion records one command.
pub finish-recorded :
    (now : ℕ) (cpl : Completion) (i : ℕ) (op : PooledOperation) (w : World)
    → recorded w.stats + 1 < u64_mod
    → recorded (finish now cpl i op w).stats ≡ recorded w.stats + 1
unfolding finish note_failure note_success record_completion record_failure
finish-recorded now cpl i op w low = elim (Bool-cases (is_failure cpl)) [
  | inl e ↦ rw (e, finish) (omega arith)
  | inr e ↦ rw (e, finish) (omega arith)
]
