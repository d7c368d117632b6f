-- ===== src/Poll/Launch.antt =====
-- PollThreadManager::start and stop: the depth of a worker, its queue pair, and the workers launched.
use xcopy_block_io.Common.{
  ℕ, zero, suc, ◌+◌, ◌*◌, ◌%◌, ◌≤◌, ◌<◌, ◌≡◌, ◌≢◌, refl, ◌⊎◌, inl, inr, true, false, Option, none,
  some, arith, ap, sym, subst, ◌∙◌, Bool-cases, Option-cases, mul32, if◌then◌else◌,
}
use native.Mathlib.Nat.{mul-le-mul_left, mod-add-mod, mod-lt}
use xcopy_block_io.Dma.{Heap, Alloc}
use xcopy_block_io.Pool
use xcopy_block_io.Pool.{OperationPool}
use xcopy_block_io.Pool.Hold.{Settled}
use xcopy_block_io.Pool.Setup.{Ready, init_lem}
use xcopy_block_io.Poll.State.{PollThreadContext}
use xcopy_block_io.Poll.Start.{
  per_thread_depth, create_on, connect, Connection, connected, max_polls, PollThreadManager, Site,
  launched, no_pool, no_connection, attach, failed, timed_out, Polled, launch, prepared,
}

-- A worker's depth is at most 1024 and what the controller can do, and at least 4 where that allows it.
pub depth_bounds :
    (iodepth cores max_queue_depth : ℕ)
    → let d = per_thread_depth iodepth cores max_queue_depth in
      (d ≤ 1024) × (d ≤ max_queue_depth) × ((4 ≤ max_queue_depth) → 4 ≤ d)
unfolding per_thread_depth
depth_bounds iodepth cores max_queue_depth = (ground arith, ground arith, λ h. ground arith)

-- With less than 4 of `iodepth` for each core, the workers together go beyond `iodepth`.
pub total_depth_exceeds :
    (iodepth cores max_queue_depth : ℕ)
    → 0 < cores
    → iodepth < 4 * cores
    → 4 ≤ max_queue_depth
    → iodepth < cores * per_thread_depth iodepth cores max_queue_depth
total_depth_exceeds iodepth cores max_queue_depth some_core few capable =
    let d = per_thread_depth iodepth cores max_queue_depth in
    let (low, capable_of, four) = depth_bounds iodepth cores max_queue_depth in
    let all : cores * 4 ≤ cores * d = mul-le-mul_left cores (four capable) in omega (arith, all)

-- The queue pair chosen: of the controllers in cyclic order from `s` on, the first that has one.
pub record Chosen (create : ℕ → Option ℕ) (num n s : ℕ) (r : Option (ℕ × ℕ)) : Type 0 where
  pub steps : ℕ
  pub within : steps < n
  pub qpair : ℕ
  pub found : r ≡ some (qpair, (s + steps) % num)
  pub made : create ((s + steps) % num) ≡ some qpair
  pub none_before : (j : ℕ) → j < steps → create ((s + j) % num) ≡ none

module _ (create : ℕ → Option ℕ) (num : ℕ) where
  refused_from :
      (s k : ℕ)
      → create (s % num) ≡ none
      → ((j : ℕ) → j < k → create ((s + 1 + j) % num) ≡ none)
      → (j : ℕ) → j < suc k
      → create ((s + j) % num) ≡ none
  refused_from s k e all zero h = subst (λ i. create (i % num) ≡ none) (omega arith) e
  refused_from s k e all (suc j) h =
      subst (λ i. create (i % num) ≡ none) (omega arith) (all j (omega arith))

  -- The loop finds the first controller in cyclic order that gives a queue pair, or none does.
  pub create_on_lem :
      (n s : ℕ)
      → Chosen create num n s (create_on create num n (s % num))
        ⊎ (create_on create num n (s % num) ≡ none)
          × ((j : ℕ) → j < n → create ((s + j) % num) ≡ none)
  unfolding create_on
  create_on_lem zero s = inr (refl, λ j h. absurd (omega arith))
  create_on_lem (suc n) s = elim (Option-cases (create (s % num))) [
    | inr (q, e) ↦
        rw (e, create_on)
          (inl (record {
            steps = 0;
            within = omega arith;
            qpair = q;
            found = ap (λ i. some (q, i % num)) (omega arith);
            made = subst (λ i. create (i % num) ≡ some q) (omega arith) e;
            none_before = λ j h. absurd (omega arith);
          }))
    | inl e ↦
        let wrap : (s % num + 1) % num ≡ (s + 1) % num = mod-add-mod s num 1 in
        rw (e, create_on, wrap)
          (elim (create_on_lem n (s + 1)) [
            | inr (r, all) ↦ inr (r, refused_from s n e all)
            | inl c ↦ inl (record {
              steps = suc c.steps;
              within = omega (arith, c.within);
              qpair = c.qpair;
              found = c.found ∙ ap (λ i. some (c.qpair, i % num)) (omega arith);
              made = subst (λ i. create (i % num) ≡ some c.qpair) (omega arith) c.made;
              none_before = refused_from s c.steps e c.none_before;
            })
          ])
  ]

-- A worker as `start` launches it, with the pool of its depth ready and no command outstanding.
pub record Fresh (num_controllers depth range_size : ℕ) (ctx : PollThreadContext) : Type 0 where
  pub size : ctx.op_pool.pool_size ≡ depth * 2
  pub pool : Settled ctx.op_pool 0
  pub target : ctx.target_iodepth ≡ depth
  pub range : ctx.range_size ≡ range_size
  pub outstanding : ctx.outstanding_io ≡ 0
  pub going : ctx.should_stop ≡ false
  pub qpair : ctx.qpair ≢ none
  pub ctrlr : ctx.ctrlr_index < num_controllers

attach-launched :
    (polls : ℕ → Polled) (ctx ctx' : PollThreadContext) (made : Option (ℕ × ℕ)) (h h' : Heap)
    → attach polls ctx made h ≡ launched ctx' h'
    → (q : ℕ) × (c : ℕ) × (made ≡ some (q, c))
      × (ctx' ≡ record ctx { qpair = some q; ctrlr_index = c })
unfolding attach
attach-launched polls ctx ctx' none h h' e = absurd cc
attach-launched polls ctx ctx' (some (q, c)) h h' e = (q, c, refl, go (connect polls max_polls 0) e)
  where
    go :
        (k : Connection)
        → (elim k [
          | connected ↦ launched (record ctx { qpair = some q; ctrlr_index = c }) h
          | failed ↦ no_connection q h
          | timed_out ↦ no_connection q h
        ])
          ≡ launched ctx' h'
        → ctx' ≡ record ctx { qpair = some q; ctrlr_index = c }
    go connected e = cc
    go failed e = absurd cc
    go timed_out e = absurd cc

module _ (alloc : Alloc) (site : Site) (m : PollThreadManager) (depth i : ℕ) (h : Heap) where
  made : Option (ℕ × ℕ)
  made =
      create_on (site.create i) site.num_controllers site.num_controllers (i % site.num_controllers)

  -- The context of a worker whose queue pair is `q`, of controller `c`.
  worker_of : ℕ → ℕ → PollThreadContext
  worker_of q c =
      record (prepared i depth m.range_size
        (Pool.init alloc Pool.empty (mul32 depth 2) m.max_ranges h).1) {
          qpair = some q;
          ctrlr_index = c;
        }

  -- What a launch has met, if it is one.
  launch-parts :
      (ctx : PollThreadContext) (h' : Heap)
      → launch alloc site m depth i h ≡ launched ctx h'
      → ((Pool.init alloc Pool.empty (mul32 depth 2) m.max_ranges h).0 ≡ true)
        × (q : ℕ) × (c : ℕ) × (made ≡ some (q, c))
        × (ctx ≡ worker_of q c)
  unfolding launch made worker_of
  launch-parts ctx h' e =
      let (good, pool, after) = Pool.init alloc Pool.empty (mul32 depth 2) m.max_ranges h in
      let attached = attach (site.polls i) (prepared i depth m.range_size pool) made after in
      elim (Bool-cases good) [
        | inr r ↦ absurd (ground (arith, r, e))
        | inl r ↦
            let e' : attached ≡ launched ctx h' =
              subst (λ b. (if b then attached else no_pool after) ≡ launched ctx h') r e in
            let (q, c, n, same) =
              attach-launched (site.polls i) (prepared i depth m.range_size pool) ctx made after h'
                e' in
            (r, q, c, n, same)
      ]

  made-lt : (q c : ℕ) → 0 < site.num_controllers → made ≡ some (q, c) → c < site.num_controllers
  unfolding made
  made-lt q c some_controller n =
      elim (create_on_lem (site.create i) site.num_controllers site.num_controllers i) [
        | inl k ↦
            let bound : (i + k.steps) % site.num_controllers < site.num_controllers =
              mod-lt _ some_controller in
            ground (arith, n, k.found, bound)
        | inr (r, all) ↦ absurd (ground (arith, n, r))
      ]

  init-Ready :
      depth ≤ 1024
      → (Pool.init alloc Pool.empty (mul32 depth 2) m.max_ranges h).0 ≡ true
      → (h' : Heap) × Ready
          (Pool.init alloc Pool.empty (mul32 depth 2) m.max_ranges h).1
          (depth * 2)
          m.max_ranges
          h
          h'
  init-Ready small ready =
      let no_wrap : mul32 depth 2 ≡ depth * 2 = omega arith in
      elim (init_lem alloc Pool.empty (mul32 depth 2) m.max_ranges h refl (omega arith)) [
        | inl (e, r) ↦ (
          _,
          subst
              (λ k.
                Ready (Pool.init alloc Pool.empty (mul32 depth 2) m.max_ranges h).1 k m.max_ranges h
                  (Pool.init alloc Pool.empty (mul32 depth 2) m.max_ranges h).2)
              no_wrap r,
        )
        | inr (e, r) ↦ absurd (ground (arith, ready, e))
      ]

  pub launch-Fresh :
      (ctx : PollThreadContext) (h' : Heap)
      → depth ≤ 1024
      → 0 < site.num_controllers
      → launch alloc site m depth i h ≡ launched ctx h'
      → Fresh site.num_controllers depth m.range_size ctx
  unfolding worker_of
  launch-Fresh ctx h' small some_controller e =
      let (ready, q, c, n, same) = launch-parts ctx h' e in
      let (after, r) = init-Ready small ready in
      subst (Fresh site.num_controllers depth m.range_size) (sym same) (record {
        size = r.size;
        pool = record { ops = r.ops; valid = r.valid; count = r.all_free };
        target = refl;
        range = refl;
        outstanding = refl;
        going = refl;
        qpair = λ z. cc;
        ctrlr = made-lt q c some_controller n;
      })
