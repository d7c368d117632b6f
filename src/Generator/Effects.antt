-- ===== src/Generator/Effects.antt =====
-- XcopyGenerator: what `generate` leaves alone, whether it succeeds or fails.
use xcopy_block_io.Common.{
  ℕ, ◌+◌, ◌≤◌, ◌<◌, ◌≡◌, ◌≢◌, refl, ◌⊎◌, List, false, some, arith, length, ap, ◌∙◌, inl, inr, zero,
  suc, set, length-set,
}
use xcopy_block_io.Lba.{LbaManager, get_and_advance_dst_lba}
use xcopy_block_io.Dma.{Range, Heap, Alloc, update}
use xcopy_block_io.Generator.{
  XcopyGenerator, Draws, Outcome, effective_src_nsid, get_ns_size, fill_ranges, place, generate_at,
  generate,
}
use xcopy_block_io.Generator.Operation.{XcopyOperation}
use xcopy_block_io.Generator.Success.{generate_with_buffer, filled, begun, placed}
use xcopy_block_io.Generator.Fill.{descriptor}

pub length-fill :
    (m : LbaManager) (range_size ns_size : ℕ) (randoms : ℕ → ℕ) (n i : ℕ) (ranges : List Range)
    (total : ℕ)
    → length ((fill_ranges m range_size ns_size randoms n i ranges total).0) ≡ length ranges
unfolding fill_ranges
length-fill m range_size ns_size randoms zero i ranges total = refl
length-fill m range_size ns_size randoms (suc n) i ranges total =
    length-fill m range_size ns_size randoms n (i + 1)
      (set ranges i (descriptor m range_size ns_size randoms i)) _
    ∙ length-set ranges i (descriptor m range_size ns_size randoms i)

pub place_effects :
    (g : XcopyGenerator) (src_nsid : ℕ) (op : XcopyOperation) (ranges : List Range) (m : LbaManager)
    (h : Heap)
    → let o = place g src_nsid op ranges m h in
      (o.heap ≡ h)
      × (o.op.ranges ≡ op.ranges)
      × ((o.mgr ≡ m) ⊎ (o.mgr ≡ (get_and_advance_dst_lba m op.total_blocks).1))
unfolding place
place_effects g src_nsid op ranges m h = ground arith

-- What holds after `generate` on an operation with a buffer at address `a`.
pub record Untouched (a : ℕ) (m : LbaManager) (h : Heap) (o : Outcome) : Type 0 where
  pub buffer : o.op.ranges ≡ some a
  pub live : o.heap.live ≡ h.live
  pub requests : o.heap.requests ≡ h.requests
  pub room : length (o.heap.content a) ≡ length (h.content a)
  pub others : (b : ℕ) → a ≢ b → o.heap.content b ≡ h.content b
  pub moved : (o.mgr ≡ m) ⊎ ((total : ℕ) × (o.mgr ≡ (get_and_advance_dst_lba m total).1))

module _ (g : XcopyGenerator) (d : Draws) (op : XcopyOperation) (a : ℕ) (m : LbaManager)
    (range_size : ℕ) (h : Heap) where
  generate_at_cases :
      let o = generate_at g d op a m range_size h in
      ((o.mgr ≡ m) × (o.heap ≡ h) × (o.op.ranges ≡ op.ranges))
      ⊎ (o ≡ placed g d op a m range_size h)
  unfolding generate_at
  generate_at_cases = ground arith

  generate_at-Untouched : op.ranges ≡ some a → Untouched a m h (generate_at g d op a m range_size h)
  generate_at-Untouched e = elim generate_at_cases [
    | inl (mgr, heap, ranges) ↦ record {
      buffer = ranges ∙ e;
      live = ap (λ (k : Heap). k.live) heap;
      requests = ap (λ (k : Heap). k.requests) heap;
      room = ap (λ (k : Heap). length (k.content a)) heap;
      others = λ b ne. ap (λ (k : Heap). k.content b) heap;
      moved = inl mgr;
    }
    | inr same ↦
        let full : List Range = (filled g d op a m range_size h).0 in
        let (heap, ranges, moved) =
          place_effects g (effective_src_nsid g d) (begun g d op a m range_size h) full m
            (record h { content = update h.content a full }) in
        let size : length full ≡ length (h.content a) =
          length-fill m range_size _ d.src_lba _ 0 (h.content a) 0 in
        rw same (record {
          buffer = ranges ∙ e;
          live = ap (λ (k : Heap). k.live) heap;
          requests = ap (λ (k : Heap). k.requests) heap;
          room = ap (λ (k : Heap). length (k.content a)) heap ∙ ground (arith, size);
          others = λ b ne. ap (λ (k : Heap). k.content b) heap ∙ ground arith;
          moved = elim moved [ inl q ↦ inl q | inr q ↦ inr (_, q) ];
        })
  ]

-- Whether it succeeds or fails, `generate` on an operation with a buffer keeps that buffer and its
-- size, asks SPDK for no memory and gives none back, writes to no other buffer, and either leaves the
-- LBA manager alone or makes one reservation.
pub generate-Untouched :
    (alloc : Alloc) (g : XcopyGenerator) (d : Draws) (op : XcopyOperation) (a : ℕ) (m : LbaManager)
    (range_size : ℕ) (h : Heap)
    → op.ranges ≡ some a
    → Untouched a m h (generate alloc g d op m range_size h)
generate-Untouched alloc g d op a m range_size h e =
    rw (generate_with_buffer alloc g d op a m range_size h e)
      (generate_at-Untouched g d op a m range_size h e)

-- An operation whose size no command can have is refused before anything is reserved: a range size of
-- 0, beyond 65536 blocks, or not below the source namespace's size.
pub generate_refuses :
    (alloc : Alloc) (g : XcopyGenerator) (d : Draws) (op : XcopyOperation) (a : ℕ) (m : LbaManager)
    (range_size : ℕ) (h : Heap)
    → op.ranges ≡ some a
    → (range_size ≡ 0)
      ⊎ (65536 < range_size)
      ⊎ (get_ns_size g.namespaces (effective_src_nsid g d) ≤ range_size)
    → let o = generate alloc g d op m range_size h in
      (o.success ≡ false) × (o.mgr ≡ m) × (o.heap ≡ h)
unfolding generate_at
generate_refuses alloc g d op a m range_size h e bad =
    rw (generate_with_buffer alloc g d op a m range_size h e) (ground arith)
