-- ===== src/Generator/Operation.antt =====
-- XcopyOperation of src/xcopy_generator.cpp: an operation that owns its buffer of ranges.
use xcopy_block_io.Common.{ℕ, Option, none, some}
use xcopy_block_io.Dma.{Heap, Alloc, dma_malloc, dma_free, clear}

pub record XcopyOperation : Type 0 where
  pub dst_nsid : ℕ
  pub dst_lba : ℕ
  pub num_ranges : ℕ
  pub ranges : Option ℕ  -- the address of the DMA buffer
  pub total_blocks : ℕ
  pub start_time_ns : ℕ
  pub user_data : Option ℕ

abbrev pub empty : XcopyOperation
empty = record {
  dst_nsid = 0;
  dst_lba = 0;
  num_ranges = 0;
  ranges = none;
  total_blocks = 0;
  start_time_ns = 0;
  user_data = none;
}

-- The address of the operation's buffer, old or new; `none` stands for a return of -1.
unfoldable pub allocate_ranges :
    Alloc → ℕ → XcopyOperation → Heap → Option ℕ × XcopyOperation × Heap
allocate_ranges alloc max_ranges op h = elim op.ranges [
  | some a ↦ (some a, op, h)
  | none ↦
      let (answer, h') = dma_malloc alloc h in
      elim answer [
        | none ↦ (none, record op { ranges = none }, h')
        | some a ↦ (some a, record op { ranges = some a }, clear a max_ranges h')
      ]
]

unfoldable pub free_ranges : XcopyOperation → Heap → XcopyOperation × Heap
free_ranges op h = elim op.ranges [
  | none ↦ (op, h)
  | some a ↦ (record op { ranges = none }, dma_free a h)
]
