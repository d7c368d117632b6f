-- ===== src/Generator/Fill.antt =====
-- XcopyGenerator: the two loops of `generate`, over the source ranges.
use xcopy_block_io.Common.{
  ℕ, zero, suc, ◌+◌, ◌*◌, ◌≤◌, ◌<◌, ◌≡◌, refl, List, false, some, arith, length, get_elem?, set,
  length-set, get_elem?-set_self, get_elem?-set_ne, u64_mod, ap, ◌∙◌, sym, add64, ℕ_discrete,
}
use xcopy_block_io.Lba.{LbaManager}
use xcopy_block_io.Lba.Bounds.{get_random_src_lba_bounds, get_random_src_lba_small}
use xcopy_block_io.Dma.{Range}
use xcopy_block_io.Generator.{src_lba, fill_ranges, nlb_value, any_overlap, overlaps}

-- A source range lies within its namespace, also where the LBA manager's namespace is larger.
pub src_lba_bounds :
    (m : LbaManager) (range_size ns_size random : ℕ)
    → m.namespace_size < u64_mod
    → range_size < ns_size
    → ns_size < u64_mod
    → src_lba m range_size ns_size random + range_size ≤ ns_size
unfolding src_lba
src_lba_bounds m range_size ns_size random w h n = ground (
  arith,
  get_random_src_lba_bounds m range_size random w,
  get_random_src_lba_small m range_size random,
)

module _ (m : LbaManager) (range_size ns_size : ℕ) (randoms : ℕ → ℕ) where
  -- The descriptor that the loop writes at index `i`.
  abbrev pub descriptor : ℕ → Range
  descriptor i = record {
    slba = src_lba m range_size ns_size (randoms i);
    nlb = nlb_value range_size;
    eilbrt = 0;
    elbatm = 0;
    elbat = 0;
  }

  abbrev fill : ℕ → ℕ → List Range → ℕ → List Range × ℕ
  fill = fill_ranges m range_size ns_size randoms

  fill-before :
      (n i : ℕ) (ranges : List Range) (total j : ℕ)
      → j < i
      → get_elem? ((fill n i ranges total).0) j ≡ get_elem? ranges j
  unfolding fill_ranges
  fill-before zero i ranges total j h = refl
  fill-before (suc n) i ranges total j h =
      fill-before n (i + 1) (set ranges i (descriptor i)) _ j (omega arith)
      ∙ get_elem?-set_ne ranges i j (descriptor i) (λ e. omega arith)

  -- Each index of the loop that lies in the buffer gets its descriptor.
  pub fill-at :
      (n i : ℕ) (ranges : List Range) (total j : ℕ)
      → i ≤ j
      → j < i + n
      → i + n ≤ length ranges
      → get_elem? ((fill n i ranges total).0) j ≡ some (descriptor j)
  unfolding fill_ranges
  fill-at zero i ranges total j lo hi room = absurd (omega arith)
  fill-at (suc n) i ranges total j lo hi room = elim (ℕ_discrete i j) [
    | yes e ↦
        fill-before n (i + 1) (set ranges i (descriptor i)) _ j (omega arith)
        ∙ ap (get_elem? (set ranges i (descriptor i))) (sym e)
        ∙ get_elem?-set_self ranges i (descriptor i) (omega arith)
        ∙ ap (λ k. some (descriptor k)) e
    | no ne ↦
        fill-at n (i + 1) (set ranges i (descriptor i)) _ j (omega arith) (omega arith)
          (omega (arith, length-set ranges i (descriptor i)))
  ]

  pub fill-total :
      (n i : ℕ) (ranges : List Range) (total : ℕ)
      → total + n * (nlb_value range_size + 1) < u64_mod
      → (fill n i ranges total).1 ≡ total + n * (nlb_value range_size + 1)
  unfolding fill_ranges
  fill-total zero i ranges total w = omega arith
  fill-total (suc n) i ranges total w =
      let step : add64 total (nlb_value range_size + 1) ≡ total + (nlb_value range_size + 1) =
        grind arith in
      fill-total n (i + 1) (set ranges i (descriptor i)) _ (grind arith) ∙ grind arith

-- A check that finds no overlap has found none at any index.
pub any_overlap_none :
    (n i : ℕ) (ranges : List Range) (dst_lba dst_end : ℕ)
    → any_overlap n i ranges dst_lba dst_end ≡ false
    → (j : ℕ) (r : Range) → i ≤ j
    → j < i + n
    → get_elem? ranges j ≡ some r
    → overlaps r dst_lba dst_end ≡ false
unfolding any_overlap
any_overlap_none zero i ranges dst_lba dst_end e j r lo hi g = absurd (omega arith)
any_overlap_none (suc n) i ranges dst_lba dst_end e j r lo hi g = elim (ℕ_discrete i j) [
  | yes q ↦ let at : get_elem? ranges i ≡ some r = ap (get_elem? ranges) q ∙ g in ground arith
  | no ne ↦
      any_overlap_none n (i + 1) ranges dst_lba dst_end (ground arith) j r (omega arith)
        (omega arith) g
]
