-- ===== src/Generator/Success.antt =====
-- XcopyGenerator: what a command that `generate` accepts looks like.
use xcopy_block_io.Common.{
  ℕ, ◌+◌, ◌*◌, ◌≤◌, ◌<◌, ◌≡◌, ◌⊎◌, List, true, false, none, some, arith, length, get_elem?, u64_mod,
  ap, ◌∙◌, sym, add64,
}
use xcopy_block_io.Lba.{LbaManager, get_and_advance_dst_lba}
use xcopy_block_io.Lba.Bounds.{IsValid, get_and_advance_bounds}
use xcopy_block_io.Dma.{Alloc, Range, Heap, update}
use xcopy_block_io.Generator.{
  XcopyGenerator, Draws, Outcome, get_random_num_ranges, effective_src_nsid, get_ns_size, is_cross,
  nlb_value, fill_ranges, any_overlap, overlaps, place, generate_at, generate,
}
use xcopy_block_io.Generator.Operation.{XcopyOperation, allocate_ranges}
use xcopy_block_io.Generator.Fill.{
  descriptor, fill-at, fill-total, src_lba_bounds, any_overlap_none,
}

-- What `place` has checked when it reports success, and what it has set.
place_success :
    (g : XcopyGenerator) (src_nsid : ℕ) (op : XcopyOperation) (ranges : List Range) (m : LbaManager)
    (h : Heap)
    → (place g src_nsid op ranges m h).success ≡ true
    → let o = place g src_nsid op ranges m h in
      let size = get_ns_size g.namespaces op.dst_nsid in
      let dst_end = add64 o.op.dst_lba op.total_blocks in
      (o.op.total_blocks ≡ op.total_blocks)
      × (o.op.num_ranges ≡ op.num_ranges)
      × (o.op.dst_nsid ≡ op.dst_nsid)
      × (o.op.dst_lba ≡ (get_and_advance_dst_lba m op.total_blocks).0)
      × (o.heap ≡ h)
      × (0 < size → (op.total_blocks ≤ size) × (dst_end ≤ size))
      × ((is_cross g ≡ false) ⊎ (src_nsid ≡ op.dst_nsid)
          → any_overlap op.num_ranges 0 ranges o.op.dst_lba dst_end ≡ false)
unfolding place
place_success g src_nsid op ranges m h e = ground arith

-- What a call of `generate` rests on: the draws are in the range asked for, the buffer has room for
-- `max_ranges` descriptors, the LBA manager is valid, and 64-bit sums of block numbers do not wrap.
pub record IsPrepared (g : XcopyGenerator) (d : Draws) (m : LbaManager) (ranges : List Range)
    : Type 0 where
  pub fixed : g.fixed_ranges ≤ g.max_ranges
  pub drawn : d.num_ranges ≤ g.max_ranges
  pub room : g.max_ranges ≤ length ranges
  pub valid : IsValid m
  pub no_wrap : m.namespace_size + g.max_ranges * 65536 < u64_mod
  pub src_word : get_ns_size g.namespaces (effective_src_nsid g d) < u64_mod

-- A well-formed command: each range of `range_size` blocks lies in the source namespace and, where source
-- and destination are in one namespace, clear of the blocks written; the total is exact, and the
-- blocks written lie in the destination namespace, if the generator knows that one with a size above 0.
pub record IsCommand (g : XcopyGenerator) (d : Draws) (m : LbaManager) (range_size a : ℕ)
    (o : Outcome) : Type 0 where
  pub count : o.op.num_ranges ≡ get_random_num_ranges g d
  pub to : o.op.dst_nsid ≡ g.dst_nsid
  pub total : o.op.total_blocks ≡ get_random_num_ranges g d * range_size
  pub reserved : o.op.dst_lba ≡ (get_and_advance_dst_lba m o.op.total_blocks).0
  pub each :
      (i : ℕ)
      → i < get_random_num_ranges g d
      → (r : Range) × (get_elem? (o.heap.content a) i ≡ some r)
        × (r.nlb + 1 ≡ range_size)
        × (r.slba + range_size ≤ get_ns_size g.namespaces (effective_src_nsid g d))
        × ((is_cross g ≡ false) ⊎ (effective_src_nsid g d ≡ g.dst_nsid)
            → (r.slba + range_size ≤ o.op.dst_lba) ⊎ (o.op.dst_lba + o.op.total_blocks ≤ r.slba))
  pub written :
      0 < get_ns_size g.namespaces g.dst_nsid
      → o.op.dst_lba + o.op.total_blocks ≤ get_ns_size g.namespaces g.dst_nsid

pub num_ranges-le :
    (g : XcopyGenerator) (d : Draws)
    → g.fixed_ranges ≤ g.max_ranges
    → d.num_ranges ≤ g.max_ranges
    → get_random_num_ranges g d ≤ g.max_ranges
unfolding get_random_num_ranges
num_ranges-le g d f h = ground arith

pub product-le : (n r m : ℕ) → n ≤ m → r ≤ 65536 → n * r ≤ m * 65536
product-le n r m h k = grind arith

-- The sum of a reservation's LBA and its length does not wrap.
reserved-word :
    (m : LbaManager) (total : ℕ)
    → IsValid m
    → m.namespace_size + total < u64_mod
    → (get_and_advance_dst_lba m total).0 + total < u64_mod
reserved-word m total v w = ground (arith, get_and_advance_bounds m total v w)

module _ (g : XcopyGenerator) (d : Draws) (op : XcopyOperation) (a : ℕ) (m : LbaManager)
    (range_size : ℕ) (h : Heap) where
  abbrev pub n : ℕ
  n = get_random_num_ranges g d

  abbrev pub src_size : ℕ
  src_size = get_ns_size g.namespaces (effective_src_nsid g d)

  abbrev pub filled : List Range × ℕ
  filled = fill_ranges m range_size src_size d.src_lba n 0 (h.content a) 0

  abbrev pub begun : XcopyOperation
  begun = record op {
    num_ranges = n;
    dst_nsid = g.dst_nsid;
    total_blocks = filled.1;
    start_time_ns = 0;
    user_data = none;
  }

  abbrev pub placed : Outcome
  placed =
      place g (effective_src_nsid g d) begun (filled.0) m
        (record h { content = update h.content a (filled.0) })

  -- `generate_at` succeeds only past its checks of the sizes, and then as `place` does.
  generate_at-placed :
      (generate_at g d op a m range_size h).success ≡ true
      → (range_size < src_size)
        × (0 < range_size)
        × (range_size ≤ 65536)
        × (generate_at g d op a m range_size h ≡ placed)
  unfolding generate_at
  generate_at-placed e = ground arith

  -- A range that the check passed lies on one side of the blocks written.
  apart :
      (r : Range) (dst_lba total : ℕ)
      → overlaps r dst_lba (dst_lba + total) ≡ false
      → r.nlb + 1 ≡ range_size
      → r.slba + range_size < u64_mod
      → (r.slba + range_size ≤ dst_lba) ⊎ (dst_lba + total ≤ r.slba)
  apart r dst_lba total e l w = ground arith

  module _ (p : IsPrepared g d m (h.content a)) (lt : range_size < src_size) (pos : 0 < range_size)
      (small : range_size ≤ 65536) (e : placed.success ≡ true) where
    exact_nlb : nlb_value range_size + 1 ≡ range_size
    exact_nlb = ground arith

    product : n * range_size ≤ g.max_ranges * 65536
    product = product-le n range_size g.max_ranges (num_ranges-le g d p.fixed p.drawn) small

    exact_total : filled.1 ≡ n * range_size
    exact_total =
        let same : n * (nlb_value range_size + 1) ≡ n * range_size = ap (λ t. n * t) exact_nlb in
        fill-total m range_size src_size d.src_lba n 0 (h.content a) 0
          (omega (arith, product, p.no_wrap, same))
        ∙ omega (arith, same)

    abbrev lba : ℕ
    lba = placed.op.dst_lba

    exact_end : add64 lba (filled.1) ≡ lba + filled.1
    exact_end =
        let (same, count, to, at, heap, sizes, checked) =
          place_success g (effective_src_nsid g d) begun (filled.0) m
            (record h { content = update h.content a (filled.0) }) e in
        let word =
          reserved-word m (filled.1) p.valid (omega (arith, product, p.no_wrap, exact_total)) in
        omega (arith, at, word)

    each_range :
        (i : ℕ)
        → i < n
        → (r : Range) × (get_elem? (placed.heap.content a) i ≡ some r)
          × (r.nlb + 1 ≡ range_size)
          × (r.slba + range_size ≤ src_size)
          × ((is_cross g ≡ false) ⊎ (effective_src_nsid g d ≡ g.dst_nsid)
              → (r.slba + range_size ≤ lba) ⊎ (lba + placed.op.total_blocks ≤ r.slba))
    each_range i lo =
        let (same, count, to, at, heap, sizes, checked) =
          place_success g (effective_src_nsid g d) begun (filled.0) m
            (record h { content = update h.content a (filled.0) }) e in
        let r : Range = descriptor m range_size src_size d.src_lba i in
        let written : get_elem? (filled.0) i ≡ some r =
          fill-at m range_size src_size d.src_lba n 0 (h.content a) 0 i (omega arith) (omega arith)
            (omega (arith, num_ranges-le g d p.fixed p.drawn, p.room)) in
        let inside : r.slba + range_size ≤ src_size =
          src_lba_bounds m range_size src_size (d.src_lba i) p.valid.word lt p.src_word in
        (
          r,
          ap (λ (k : Heap). get_elem? (k.content a) i) heap ∙ ground (arith, written),
          exact_nlb,
          inside,
          λ here. rw (same) (
              apart r lba (filled.1)
                (any_overlap_none n 0 (filled.0) lba (lba + filled.1)
                  (rw (← exact_end) (checked here)) i r (omega arith) (omega arith) written)
                exact_nlb (omega (arith, inside, p.src_word))),
        )

    placed-IsCommand : IsCommand g d m range_size a placed
    placed-IsCommand =
        let (same, count, to, at, heap, sizes, checked) =
          place_success g (effective_src_nsid g d) begun (filled.0) m
            (record h { content = update h.content a (filled.0) }) e in
        record {
          count = count;
          to = to;
          total = same ∙ exact_total;
          reserved = rw same at;
          each = each_range;
          written = λ q. rw (same, ← exact_end) ((sizes q).1);
        }

pub generate_with_buffer :
    (alloc : Alloc) (g : XcopyGenerator) (d : Draws) (op : XcopyOperation) (a : ℕ) (m : LbaManager)
    (range_size : ℕ) (h : Heap)
    → op.ranges ≡ some a
    → generate alloc g d op m range_size h ≡ generate_at g d op a m range_size h
unfolding generate allocate_ranges
generate_with_buffer alloc g d op a m range_size h e = ground arith

-- Whenever `generate` succeeds with a prepared buffer, the operation and the descriptors in that buffer
-- are a well-formed command: every range in its source namespace, of the size asked for and clear of
-- the destination where they share a namespace, and the total exact. The blocks written lie in the
-- destination namespace if the generator knows one of that number with a size above 0; they are not
-- checked otherwise.
pub generate-IsCommand :
    (alloc : Alloc) (g : XcopyGenerator) (d : Draws) (op : XcopyOperation) (a : ℕ) (m : LbaManager)
    (range_size : ℕ) (h : Heap)
    → op.ranges ≡ some a
    → IsPrepared g d m (h.content a)
    → (generate alloc g d op m range_size h).success ≡ true
    → IsCommand g d m range_size a (generate alloc g d op m range_size h)
generate-IsCommand alloc g d op a m range_size h e p s =
    let same = generate_with_buffer alloc g d op a m range_size h e in
    let (lt, pos, small, is_placed) =
      generate_at-placed g d op a m range_size h (ap (λ (o : Outcome). o.success) (sym same) ∙ s) in
    rw (same, is_placed)
      (placed-IsCommand g d op a m range_size h p lt pos small
        (ap (λ (o : Outcome). o.success) (sym is_placed ∙ sym same) ∙ s))
