-- ===== src/Pool/Setup.antt =====
-- OperationPool: `init`, with its way out when a buffer cannot be had, and `cleanup`.
use xcopy_block_io.Common.{
  ℕ, zero, suc, ◌+◌, ◌-◌, ◌<◌, ◌≡◌, refl, List, [], ◌∷◌, Bool, true, false, none, some, arith,
  length, get_elem?, All, ap, sym, ◌∙◌, if◌then◌else◌, ◌==◌, u32_mod, Bool-cases, Option-cases, inl,
  inr, ◌⊎◌,
}
use xcopy_block_io.Dma.{Heap, Alloc, count, count-remove, clear}
use xcopy_block_io.Pool.{
  PooledOperation, OperationPool, new_operations, init_from, init, free_buffer, free_buffers,
  set_up,
}
use xcopy_block_io.Pool.Acquire.{busy_count, IsValid}

-- How many of the operations hold the buffer at address `a`.
abbrev pub held_by : ℕ → PooledOperation → ℕ
held_by a op = elim op.ranges [ none ↦ 0 | some b ↦ if a == b then 1 else 0 ]

abbrev pub held : ℕ → List PooledOperation → ℕ
held a [] = 0
held a (op ∷ ops) = held_by a op + held a ops

-- An operation that `init` has reached, at index `i`.
abbrev pub IsSetUp : ℕ → ℕ → List PooledOperation → Type 0
IsSetUp max_ranges i [] = Unit
IsSetUp max_ranges i (op ∷ ops) =
    (op.pool_index ≡ i)
    × (op.max_ranges ≡ max_ranges)
    × (op.in_use ≡ false)
    × ((b : ℕ) × (op.ranges ≡ some b))
    × IsSetUp max_ranges (i + 1) ops

held-none : (a : ℕ) (ops : List PooledOperation) → All (λ op. op.ranges ≡ none) ops → held a ops ≡ 0
held-none a [] n = refl
held-none a (op ∷ ops) n = ground (arith, held-none a ops n.1)

module _ (alloc : Alloc) (max_ranges : ℕ) where
  -- The memory after the next request is answered with address `b`.
  abbrev served : ℕ → Heap → Heap
  served b h = clear b max_ranges (record h { live = b ∷ h.live; requests = h.requests + 1 })

  init_from-refused :
      (i : ℕ) (op : PooledOperation) (ops : List PooledOperation) (h : Heap)
      → alloc h.requests ≡ none
      → init_from alloc max_ranges i (op ∷ ops) h
        ≡ (false, set_up max_ranges i none op ∷ ops, record h { requests = h.requests + 1 })
  unfolding init_from
  init_from-refused i op ops h e = ground arith

  init_from-served :
      (i : ℕ) (op : PooledOperation) (ops : List PooledOperation) (h : Heap) (b : ℕ)
      → alloc h.requests ≡ some b
      → let (good, ops', h') = init_from alloc max_ranges (i + 1) ops (served b h) in
        init_from alloc max_ranges i (op ∷ ops) h
        ≡ (good, set_up max_ranges i (some b) op ∷ ops', h')
  unfolding init_from
  init_from-served i op ops h b e = ground arith

  -- Every buffer obtained is held by an operation, whether the loop completes or not.
  init_from-held :
      (a i : ℕ) (ops : List PooledOperation) (h : Heap)
      → All (λ op. op.ranges ≡ none) ops
      → let (good, ops', h') = init_from alloc max_ranges i ops h in
        (count a h'.live ≡ count a h.live + held a ops') × (length ops' ≡ length ops)
  unfolding init_from
  init_from-held a i [] h n = omega arith
  init_from-held a i (op ∷ ops) h n = elim (Option-cases (alloc h.requests)) [
    | inl e ↦ rw (init_from-refused i op ops h e) (omega (arith, held-none a ops n.1))
    | inr (b, e) ↦
        rw (init_from-served i op ops h b e)
          (omega (arith, init_from-held a (i + 1) ops (served b h) n.1))
  ]

  init_from-IsSetUp :
      (i : ℕ) (ops : List PooledOperation) (h : Heap)
      → (init_from alloc max_ranges i ops h).0 ≡ true
      → IsSetUp max_ranges i (init_from alloc max_ranges i ops h).1
  unfolding init_from
  init_from-IsSetUp i [] h e = tt
  init_from-IsSetUp i (op ∷ ops) h e = elim (Option-cases (alloc h.requests)) [
    | inl r ↦ absurd (cc (init_from-refused i op ops h r))
    | inr (b, r) ↦
        let step = init_from-served i op ops h b r in
        rw step (
          refl,
          refl,
          refl,
          (b, refl),
          init_from-IsSetUp (i + 1) ops (served b h) (ap (λ t. t.0) (sym step) ∙ e),
        )
  ]

count-free_buffer :
    (a : ℕ) (op : PooledOperation) (h : Heap)
    → count a (free_buffer op h).live ≡ count a h.live - held_by a op
unfolding free_buffer
count-free_buffer a op h = elim (Option-cases op.ranges) [
  | inl e ↦ ground arith
  | inr (b, e) ↦ ground (arith, count-remove a b h.live)
]

pub count-free_buffers :
    (a : ℕ) (ops : List PooledOperation) (h : Heap)
    → count a (free_buffers ops h).live ≡ count a h.live - held a ops
unfolding free_buffers
count-free_buffers a [] h = omega arith
count-free_buffers a (op ∷ ops) h =
    count-free_buffers a ops (free_buffer op h) ∙ omega (arith, count-free_buffer a op h)

new_operations-fresh :
    (n : ℕ) → All (λ op. op.ranges ≡ none) (new_operations n) × (length (new_operations n) ≡ n)
unfolding new_operations
new_operations-fresh zero = (tt, refl)
new_operations-fresh (suc n) = let rest = new_operations-fresh n in ((refl, rest.0), ap suc rest.1)

IsSetUp-busy_count :
    (max_ranges i : ℕ) (ops : List PooledOperation) → IsSetUp max_ranges i ops → busy_count ops ≡ 0
IsSetUp-busy_count max_ranges i [] s = refl
IsSetUp-busy_count max_ranges i (op ∷ ops) (p, m, u, b, s) =
    ground (arith, IsSetUp-busy_count max_ranges (i + 1) ops s)

IsSetUp-indexed :
    (max_ranges i : ℕ) (ops : List PooledOperation)
    → IsSetUp max_ranges i ops
    → (j : ℕ) (op : PooledOperation) → get_elem? ops j ≡ some op
    → op.pool_index ≡ i + j
IsSetUp-indexed max_ranges i [] s j op e = cc
IsSetUp-indexed max_ranges i (x ∷ ops) (p, m, u, b, s) zero op e = ground arith
IsSetUp-indexed max_ranges i (x ∷ ops) (p, m, u, b, s) (suc j) op e =
    omega (arith, IsSetUp-indexed max_ranges (i + 1) ops s j op e)

-- The pool and the memory after a first `init` that succeeds: the pool is valid and of the size asked
-- for, its operations are free and hold buffers for `max_ranges` ranges, and the memory has just
-- those buffers more than before.
pub record Ready (p : OperationPool) (pool_size max_ranges : ℕ) (before after : Heap) : Type 0 where
  pub ops : List PooledOperation
  pub valid : IsValid p ops
  pub size : p.pool_size ≡ pool_size
  pub set_up_all : IsSetUp max_ranges 0 ops
  pub all_free : busy_count ops ≡ 0
  pub buffers : (a : ℕ) → count a after.live ≡ count a before.live + held a ops

-- After one that fails: no pool, and all that was obtained is given back.
pub record GivenUp (p : OperationPool) (before after : Heap) : Type 0 where
  pub gone : p.operations ≡ none
  pub no_size : p.pool_size ≡ 0
  pub no_leak : (a : ℕ) → count a after.live ≡ count a before.live

module _ (alloc : Alloc) (p : OperationPool) (pool_size max_ranges : ℕ) (h : Heap)
    (null : p.operations ≡ none) where
  abbrev loop : Bool × List PooledOperation × Heap
  loop = init_from alloc max_ranges 0 (new_operations pool_size) h

  abbrev filled : OperationPool
  filled = record p { pool_size = pool_size; max_ranges = max_ranges; operations = some (loop.1) }

  init-good : loop.0 ≡ true → init alloc p pool_size max_ranges h ≡ (true, filled, loop.2)
  unfolding init
  init-good e = ground arith

  init-bad :
      loop.0 ≡ false
      → init alloc p pool_size max_ranges h ≡ (
        false,
        record p { pool_size = 0; max_ranges = max_ranges; operations = none },
        free_buffers (loop.1) (loop.2),
      )
  unfolding init
  init-bad e = ground arith

  init-Ready : loop.0 ≡ true → p.next_index < u32_mod → Ready filled pool_size max_ranges h (loop.2)
  init-Ready e w =
      let done = init_from-IsSetUp alloc max_ranges 0 (new_operations pool_size) h e in
      let (plain, size) = new_operations-fresh pool_size in
      let kept =
        λ (a : ℕ). init_from-held alloc max_ranges a 0 (new_operations pool_size) h plain in
      record {
        ops = loop.1;
        valid = record {
          present = refl;
          sized = (kept 0).1 ∙ size;
          next_in = w;
          indexed = λ j op g. omega (arith, IsSetUp-indexed max_ranges 0 (loop.1) done j op g);
        };
        size = refl;
        set_up_all = done;
        all_free = IsSetUp-busy_count max_ranges 0 (loop.1) done;
        buffers = λ a. (kept a).0;
      }

  init-no_leak : (a : ℕ) → count a (free_buffers (loop.1) (loop.2)).live ≡ count a h.live
  init-no_leak a = omega (
    arith,
    count-free_buffers a (loop.1) (loop.2),
    init_from-held alloc max_ranges a 0 (new_operations pool_size) h
        ((new_operations-fresh pool_size).0),
  )

  -- A first `init` either succeeds, with a valid pool whose operations are all free and hold the
  -- buffers obtained, or fails, with no pool and every buffer obtained given back.
  pub init_lem :
      p.next_index < u32_mod
      → let (good, p', h') = init alloc p pool_size max_ranges h in
        ((good ≡ true) × Ready p' pool_size max_ranges h h') ⊎ ((good ≡ false) × GivenUp p' h h')
  init_lem w = elim (Bool-cases (loop.0)) [
    | inl e ↦ rw (init-good e) (inl (refl, init-Ready e w))
    | inr e ↦
        rw (init-bad e) (inr (refl, record { gone = refl; no_size = refl; no_leak = init-no_leak }))
  ]
