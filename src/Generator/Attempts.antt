-- ===== src/Generator/Attempts.antt =====
-- XcopyGenerator: `generate` called again and again, as long as it fails.
use xcopy_block_io.Common.{
  ℕ, ◌+◌, ◌*◌, ◌≤◌, ◌<◌, ◌≡◌, ◌⊎◌, inl, inr, List, some, arith, u64_mod, ap, ◌∙◌, sym, subst,
}
use xcopy_block_io.Lba.{LbaManager, get_and_advance_dst_lba}
use xcopy_block_io.Lba.Bounds.{IsValid, get_and_advance-IsValid}
use xcopy_block_io.Dma.{Alloc, Range, Heap, update}
use xcopy_block_io.Generator.{
  XcopyGenerator, Draws, Outcome, get_random_num_ranges, effective_src_nsid, nlb_value, generate_at,
  generate,
}
use xcopy_block_io.Generator.Operation.{XcopyOperation}
use xcopy_block_io.Generator.Fill.{fill-total}
use xcopy_block_io.Generator.Success.{
  IsPrepared, num_ranges-le, product-le, src_size, filled, begun, placed, generate_with_buffer,
}
use xcopy_block_io.Generator.Effects.{place_effects, generate-Untouched}

namespace_size-advance :
    (m : LbaManager) (total : ℕ)
    → (get_and_advance_dst_lba m total).1.namespace_size ≡ m.namespace_size
unfolding get_and_advance_dst_lba
namespace_size-advance m total = ground arith

module _ (g : XcopyGenerator) (d : Draws) (op : XcopyOperation) (a : ℕ) (m : LbaManager)
    (range_size : ℕ) (h : Heap) where
  generate_at-passed :
      let o = generate_at g d op a m range_size h in
      (o.mgr ≡ m) ⊎ ((0 < range_size) × (range_size ≤ 65536) × (o ≡ placed g d op a m range_size h))
  unfolding generate_at
  generate_at-passed = ground arith

  total-le :
      IsPrepared g d m (h.content a)
      → 0 < range_size
      → range_size ≤ 65536
      → m.namespace_size + (filled g d op a m range_size h).1 < u64_mod
  total-le p pos small =
      let count = get_random_num_ranges g d in
      let exact : nlb_value range_size + 1 ≡ range_size = ground arith in
      let same : count * (nlb_value range_size + 1) ≡ count * range_size =
        ap (λ t. count * t) exact in
      let most =
        product-le count range_size g.max_ranges (num_ranges-le g d p.fixed p.drawn) small in
      let total =
        fill-total m range_size (src_size g d op a m range_size h) d.src_lba count 0 (h.content a) 0
          (omega (arith, most, p.no_wrap, same)) in
      omega (arith, total, same, most, p.no_wrap)

  -- The LBA manager that a prepared call leaves is valid still, for the same namespace.
  generate_at-IsValid :
      IsPrepared g d m (h.content a)
      → let o = generate_at g d op a m range_size h in
        IsValid o.mgr × (o.mgr.namespace_size ≡ m.namespace_size)
  generate_at-IsValid p = elim generate_at-passed [
    | inl e ↦ (subst IsValid (sym e) p.valid, ap (λ k. k.namespace_size) e)
    | inr (pos, small, e) ↦
        let all = filled g d op a m range_size h in
        let total = total-le p pos small in
        let (heap, ranges, moved) =
          place_effects g (effective_src_nsid g d) (begun g d op a m range_size h) (all.0) m
            (record h { content = update h.content a (all.0) }) in
        let mgr = ap (λ (o : Outcome). o.mgr) e in
        elim moved [
          | inl q ↦ (subst IsValid (sym (mgr ∙ q)) p.valid, ap (λ k. k.namespace_size) (mgr ∙ q))
          | inr q ↦ (
            subst IsValid (sym (mgr ∙ q)) (get_and_advance-IsValid m (all.1) p.valid total),
            ap (λ k. k.namespace_size) (mgr ∙ q) ∙ namespace_size-advance m (all.1),
          )
        ]
  ]

-- A call with any draws of `draws` is prepared.
abbrev pub ArePrepared : XcopyGenerator → (ℕ → Draws) → LbaManager → List Range → Type 0
ArePrepared g draws m ranges = (k : ℕ) → IsPrepared g (draws k) m ranges

-- After a prepared call, another one is prepared, on the manager and the buffer that it leaves.
pub generate-ArePrepared :
    (alloc : Alloc) (g : XcopyGenerator) (draws : ℕ → Draws) (i : ℕ) (op : XcopyOperation) (a : ℕ)
    (m : LbaManager) (range_size : ℕ) (h : Heap)
    → op.ranges ≡ some a
    → ArePrepared g draws m (h.content a)
    → let o = generate alloc g (draws i) op m range_size h in
      ArePrepared g draws o.mgr (o.heap.content a)
generate-ArePrepared alloc g draws i op a m range_size h e all k =
    let p = all k in
    let u = generate-Untouched alloc g (draws i) op a m range_size h e in
    let same = generate_with_buffer alloc g (draws i) op a m range_size h e in
    let (valid, size) = generate_at-IsValid g (draws i) op a m range_size h (all i) in
    let mgr = ap (λ (o : Outcome). o.mgr) same in
    record {
      fixed = p.fixed;
      drawn = p.drawn;
      room = omega (arith, p.room, u.room);
      valid = subst IsValid (sym mgr) valid;
      no_wrap = omega (arith, p.no_wrap, size, ap (λ k. k.namespace_size) mgr);
      src_word = p.src_word;
    }
