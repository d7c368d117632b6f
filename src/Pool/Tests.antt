-- ===== src/Pool/Tests.antt =====
-- OperationPool: the theorems at concrete pools.
use xcopy_block_io.Common.{
  ℕ, zero, suc, ◌-◌, ◌^◌, ◌<◌, ◌≡◌, refl, ◌⊎◌, ◌↔◌, List, [], ◌∷◌, Bool, true, false, none, some,
  arith, get_elem?, u32_mod,
}
use xcopy_block_io.Dma.{Heap, Alloc}
use xcopy_block_io.Pool.{scan, PooledOperation, OperationPool, fresh, empty, init, acquire}
use xcopy_block_io.Pool.Slots.{IsBusy}
use xcopy_block_io.Pool.Acquire.{
  IsValid, Acquired, busy_count, acquire_takes, acquire_exhausted, acquire_wrap_misses,
}
use xcopy_block_io.Pool.Setup.{Ready, GivenUp, init_lem}

abbrev no_memory : Heap
no_memory = record { live = []; content = λ a. []; requests = 0 }

-- An operation at index `i` with the buffer at address `a`.
abbrev slot : ℕ → ℕ → Bool → PooledOperation
slot i a busy = record fresh { max_ranges = 2; ranges = some a; in_use = busy; pool_index = i }

-- Three operations, the last of them free; the counter at its last value.
abbrev slots : List PooledOperation
slots = slot 0 100 true ∷ slot 1 200 true ∷ slot 2 300 false ∷ []

abbrev pool_at : ℕ → OperationPool
pool_at next = record { pool_size = 3; max_ranges = 2; operations = some slots; next_index = next }

slots-indexed : (i : ℕ) (op : PooledOperation) → get_elem? slots i ≡ some op → op.pool_index ≡ i
slots-indexed zero op e = ground arith
slots-indexed (suc zero) op e = ground arith
slots-indexed (suc (suc zero)) op e = ground arith
slots-indexed (suc (suc (suc i))) op e = cc

pool-IsValid : (next : ℕ) → next < u32_mod → IsValid (pool_at next) slots
pool-IsValid next w = record { present = refl; sized = refl; next_in = w; indexed = slots-indexed }

acquire_takes_example : Acquired (pool_at 4) (acquire (pool_at 4) no_memory).1 slots 2
unfolding acquire scan
acquire_takes_example =
    acquire_takes (pool_at 4) slots no_memory 2 (pool-IsValid 4 (omega arith)) refl

acquire_exhausted_example : ((acquire (pool_at 4) no_memory).0 ≡ none) ↔ (busy_count slots ≡ 3)
acquire_exhausted_example =
    acquire_exhausted (pool_at 4) slots no_memory (pool-IsValid 4 (omega arith)) (omega arith)

first_two-IsBusy : (i : ℕ) → i < 2 → IsBusy slots i
first_two-IsBusy zero h = (slot 0 100 true, refl, refl)
first_two-IsBusy (suc zero) h = (slot 1 200 true, refl, refl)
first_two-IsBusy (suc (suc i)) h = absurd (omega arith)

acquire_wrap_misses_example : (acquire (pool_at (2 ^ 32 - 1)) no_memory).0 ≡ none
acquire_wrap_misses_example =
    acquire_wrap_misses (pool_at (2 ^ 32 - 1)) slots no_memory
      (pool-IsValid (2 ^ 32 - 1) (omega arith)) refl (omega arith) (omega arith)
      (slot 2 300 false, refl, refl) first_two-IsBusy

-- The third request fails.
abbrev two_only : Alloc
two_only zero = some 100
two_only (suc zero) = some 200
two_only (suc (suc n)) = none

init_example :
    let (good, p, h) = init two_only empty 3 2 no_memory in
    ((good ≡ true) × Ready p 3 2 no_memory h) ⊎ ((good ≡ false) × GivenUp p no_memory h)
init_example = init_lem two_only empty 3 2 no_memory refl (omega arith)

init_fails : (init two_only empty 3 2 no_memory).2.live ≡ []
unfolding init
init_fails = refl
