-- ===== src/Pool.antt =====
-- include/operation_pool.h: a fixed set of operations, each with a DMA buffer, taken and given back.
-- Each worker thread has a pool of its own, so a call is not interrupted by another. A pointer to an
-- operation is its index in the array.
pub mod Slots
pub mod Acquire
pub mod Setup
pub mod Hold
mod Tests
use xcopy_block_io.Common.{
  ℕ, zero, suc, ◌+◌, ◌%◌, List, [], ◌∷◌, Bool, true, false, Option, none, some, ltb, if◌then◌else◌,
  get_elem?, set, add32,
}
use xcopy_block_io.Dma.{Heap, Alloc, dma_malloc, dma_free, clear}

pub record PooledOperation : Type 0 where
  pub dst_nsid : ℕ
  pub dst_lba : ℕ
  pub num_ranges : ℕ
  pub max_ranges : ℕ
  pub ranges : Option ℕ  -- the address of the DMA buffer
  pub total_blocks : ℕ
  pub start_time_ns : ℕ
  pub user_data : Option ℕ  -- the id of the thread whose context it points to
  pub in_use : Bool
  pub pool_index : ℕ

-- The constructor.
abbrev pub fresh : PooledOperation
fresh = record {
  dst_nsid = 0;
  dst_lba = 0;
  num_ranges = 0;
  max_ranges = 0;
  ranges = none;
  total_blocks = 0;
  start_time_ns = 0;
  user_data = none;
  in_use = false;
  pool_index = 0;
}

pub reset_fields : PooledOperation → PooledOperation
reset_fields op = record op {
  dst_nsid = 0;
  dst_lba = 0;
  num_ranges = 0;
  total_blocks = 0;
  start_time_ns = 0;
  user_data = none;
}

-- The memset at the end of `reset`.
pub reset_buffer : PooledOperation → Heap → Heap
reset_buffer op h = elim op.ranges [
  | none ↦ h
  | some a ↦ if ltb 0 op.max_ranges then clear a op.max_ranges h else h
]

pub record OperationPool : Type 0 where
  pub pool_size : ℕ
  pub max_ranges : ℕ
  pub operations : Option (List PooledOperation)  -- `none` is the null pointer
  pub next_index : ℕ

abbrev pub empty : OperationPool
empty = record { pool_size = 0; max_ranges = 0; operations = none; next_index = 0 }

unfoldable pub free_buffer : PooledOperation → Heap → Heap
free_buffer op h = elim op.ranges [ none ↦ h | some a ↦ dma_free a h ]

unfoldable pub free_buffers : List PooledOperation → Heap → Heap
unfolding free_buffer
free_buffers [] h = h
free_buffers (op ∷ ops) h = free_buffers ops (free_buffer op h)

unfoldable pub cleanup : OperationPool → Heap → OperationPool × Heap
unfolding free_buffers
cleanup p h = elim p.operations [
  | none ↦ (record p { pool_size = 0 }, h)
  | some ops ↦ (record p { operations = none; pool_size = 0 }, free_buffers ops h)
]

unfoldable pub new_operations : ℕ → List PooledOperation
new_operations zero = []
new_operations (suc n) = fresh ∷ new_operations n

-- One round of the loop of `init`.
unfoldable pub set_up : ℕ → ℕ → Option ℕ → PooledOperation → PooledOperation
set_up max_ranges i answer op = record op {
  pool_index = i;
  max_ranges = max_ranges;
  in_use = false;
  ranges = answer;
}

-- The loop of `init`, from index `i` on over the operations not yet reached; false if a request for
-- a buffer has failed. The operations after the failing one stay as the constructor left them.
unfoldable pub init_from :
    Alloc → ℕ → ℕ → List PooledOperation → Heap → Bool × List PooledOperation × Heap
unfolding set_up
init_from alloc max_ranges i [] h = (true, [], h)
init_from alloc max_ranges i (op ∷ ops) h =
    let (answer, h') = dma_malloc alloc h in
    elim answer [
      | none ↦ (false, set_up max_ranges i none op ∷ ops, h')
      | some a ↦
          let (good, ops', h'') = init_from alloc max_ranges (i + 1) ops (clear a max_ranges h') in
          (good, set_up max_ranges i (some a) op ∷ ops', h'')
    ]

-- The Boolean is true for a return of 0.
unfoldable pub init : Alloc → OperationPool → ℕ → ℕ → Heap → Bool × OperationPool × Heap
unfolding new_operations init_from cleanup
init alloc p pool_size max_ranges h = elim p.operations [
  | some ops ↦ (true, p, h)
  | none ↦
      let (good, ops, h') = init_from alloc max_ranges 0 (new_operations pool_size) h in
      let p' = record p { pool_size = pool_size; max_ranges = max_ranges; operations = some ops } in
      if good then (true, p', h') else (let (p'', h'') = cleanup p' h' in (false, p'', h''))
]

-- The loop of `acquire` with the attempts left: the slot taken, the operations, and `next_index_`.
unfoldable pub scan : ℕ → ℕ → List PooledOperation → ℕ → Option ℕ × List PooledOperation × ℕ
unfolding reset_fields
scan pool_size zero ops next_index = (none, ops, next_index)
scan pool_size (suc attempts) ops next_index =
    let idx = next_index % pool_size in
    let rest = scan pool_size attempts ops (add32 next_index 1) in
    elim (get_elem? ops idx) [
      | none ↦ (none, ops, add32 next_index 1)
      | some op ↦ if op.in_use then rest else (
        some idx,
        set ops idx (reset_fields (record op { in_use = true })),
        add32 next_index 1,
      )
    ]

-- The memset of the operation just taken.
clear_taken : Option ℕ → List PooledOperation → Heap → Heap
unfolding reset_buffer
clear_taken none ops h = h
clear_taken (some idx) ops h = elim (get_elem? ops idx) [ none ↦ h | some op ↦ reset_buffer op h ]

-- The slot taken, or `none` if every attempt finds its slot in use.
unfoldable pub acquire : OperationPool → Heap → Option ℕ × OperationPool × Heap
unfolding clear_taken
acquire p h = elim p.operations [
  | none ↦ (none, p, h)
  | some ops ↦
      let (slot, ops', next) = scan p.pool_size p.pool_size ops p.next_index in
      (slot, record p { operations = some ops'; next_index = next }, clear_taken slot ops h)
]

release_slot : ℕ → ℕ → List PooledOperation → List PooledOperation
release_slot pool_size slot ops = elim (get_elem? ops slot) [
  | none ↦ ops
  | some op ↦
      if ltb op.pool_index pool_size then set ops slot (record op { in_use = false }) else ops
]

-- `release` of the operation at an index; a pointer that is null is `none`.
unfoldable pub release : Option ℕ → OperationPool → OperationPool
unfolding release_slot
release none p = p
release (some slot) p = elim p.operations [
  | none ↦ p
  | some ops ↦ record p { operations = some (release_slot p.pool_size slot ops) }
]

pub get_pool_size : OperationPool → ℕ
get_pool_size p = p.pool_size
