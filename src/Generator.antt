-- ===== src/Generator.antt =====
-- src/xcopy_generator.cpp and include/xcopy_generator.h: one XCOPY command with its source ranges.
-- The random numbers that a call draws are an argument. What SPDK answers for a namespace pointer is
-- the record `Namespace`; a null pointer is `none`.
pub mod Operation
pub mod Fill
pub mod Success
pub mod Effects
pub mod Attempts
pub mod Copy
mod Tests
use xcopy_block_io.Common.{
  ℕ, zero, suc, ◌+◌, ◌%◌, List, [], ◌∷◌, Bool, true, false, Option, none, some, not, ◌&&◌, ◌||◌,
  ltb, leb, ◌==◌, if◌then◌else◌, length, get_elem?, set, add64, sub64, u16_mod,
}
use xcopy_block_io.Lba.{LbaManager, get_and_advance_dst_lba, get_random_src_lba}
use xcopy_block_io.Dma.{Range, Heap, Alloc, update}
use Operation.{XcopyOperation, allocate_ranges}

pub record Namespace : Type 0 where
  pub id : ℕ
  pub num_sectors : ℕ

pub record XcopyGenerator : Type 0 where
  pub max_ranges : ℕ
  pub fixed_ranges : ℕ
  pub src_nsids : List ℕ
  pub dst_nsid : ℕ
  pub namespaces : List (Option Namespace)
  pub enable_cross_namespace : Bool
  pub target_supports_cross_namespace : Bool

-- What the generators yield during one call: `range_dist_(rng_)`, the index drawn for the source
-- namespace, and `tl_rng()` for each range in turn.
pub record Draws : Type 0 where
  pub num_ranges : ℕ
  pub src_index : ℕ
  pub src_lba : ℕ → ℕ

pub get_random_num_ranges : XcopyGenerator → Draws → ℕ
get_random_num_ranges g d = if ltb 0 g.fixed_ranges then g.fixed_ranges else d.num_ranges

-- The index is in range (`IsDrawn` below); 0 stands for a read out of range.
pub get_random_src_nsid : XcopyGenerator → Draws → ℕ
get_random_src_nsid g d = elim g.src_nsids [
  | [] ↦ g.dst_nsid
  | nsid ∷ nsids ↦ elim (get_elem? (nsid ∷ nsids) d.src_index) [ none ↦ 0 | some n ↦ n ]
]

unfoldable pub get_ns_size : List (Option Namespace) → ℕ → ℕ
get_ns_size [] nsid = 0
get_ns_size (none ∷ rest) nsid = get_ns_size rest nsid
get_ns_size (some ns ∷ rest) nsid = if ns.id == nsid then ns.num_sectors else get_ns_size rest nsid

abbrev pub is_cross : XcopyGenerator → Bool
is_cross g = g.enable_cross_namespace && g.target_supports_cross_namespace

unfoldable pub effective_src_nsid : XcopyGenerator → Draws → ℕ
unfolding get_random_src_nsid
effective_src_nsid g d = if is_cross g then get_random_src_nsid g d else g.dst_nsid

-- `nlb_value`, an uint16_t.
abbrev pub nlb_value : ℕ → ℕ
nlb_value range_size = (if ltb 0x10000 range_size then 0xFFFF else sub64 range_size 1) % u16_mod

-- The source LBA of one range.
pub src_lba : LbaManager → ℕ → ℕ → ℕ → ℕ
src_lba m range_size ns_size random =
    let lba = get_random_src_lba m range_size random in
    if ltb ns_size (add64 lba range_size) then sub64 ns_size range_size else lba

-- The loop that fills the ranges, with the rounds left, from index `i` on; the total grows.
pub fill_ranges : LbaManager → ℕ → ℕ → (ℕ → ℕ) → ℕ → ℕ → List Range → ℕ → List Range × ℕ
unfolding src_lba
fill_ranges m range_size ns_size randoms zero i ranges total = (ranges, total)
fill_ranges m range_size ns_size randoms (suc n) i ranges total =
    fill_ranges m range_size ns_size randoms n (i + 1)
      (set ranges i (record {
        slba = src_lba m range_size ns_size (randoms i);
        nlb = nlb_value range_size;
        eilbrt = 0;
        elbatm = 0;
        elbat = 0;
      }))
      (add64 total (nlb_value range_size + 1))

-- One range against the blocks written.
abbrev pub overlaps : Range → ℕ → ℕ → Bool
overlaps r dst_lba dst_end = ltb r.slba dst_end && ltb dst_lba (add64 r.slba (r.nlb + 1))

-- The loop of the overlap check, with the rounds left, from index `i` on.
pub any_overlap : ℕ → ℕ → List Range → ℕ → ℕ → Bool
any_overlap zero i ranges dst_lba dst_end = false
any_overlap (suc n) i ranges dst_lba dst_end =
    let rest = any_overlap n (i + 1) ranges dst_lba dst_end in
    elim (get_elem? ranges i) [
      | none ↦ rest
      | some r ↦ if overlaps r dst_lba dst_end then true else rest
    ]

-- `success` stands for a return of 0.
pub record Outcome : Type 0 where
  pub success : Bool
  pub op : XcopyOperation
  pub mgr : LbaManager
  pub heap : Heap

-- From the destination on: the ranges are filled.
pub place : XcopyGenerator → ℕ → XcopyOperation → List Range → LbaManager → Heap → Outcome
unfolding any_overlap
place g src_nsid op ranges m h =
    let dst_ns_size = get_ns_size g.namespaces op.dst_nsid in
    let too_large = ltb 0 dst_ns_size && ltb dst_ns_size op.total_blocks in
    let (lba, m') = get_and_advance_dst_lba m op.total_blocks in
    let op' = record op { dst_lba = lba } in
    let dst_end = add64 lba op.total_blocks in
    let beyond = ltb 0 dst_ns_size && ltb dst_ns_size dst_end in
    let clash =
      (not (is_cross g) || src_nsid == op.dst_nsid)
      && any_overlap op.num_ranges 0 ranges lba dst_end in
    if too_large
    then record { success = false; op = op; mgr = m; heap = h }
    else record { success = not beyond && not clash; op = op'; mgr = m'; heap = h }

-- `generate` once the operation has a buffer, at address `a`.
pub generate_at : XcopyGenerator → Draws → XcopyOperation → ℕ → LbaManager → ℕ → Heap → Outcome
unfolding effective_src_nsid get_random_num_ranges fill_ranges place
generate_at g d op a m range_size h =
    let op' = record op {
      num_ranges = get_random_num_ranges g d;
      dst_nsid = g.dst_nsid;
      total_blocks = 0;
      start_time_ns = 0;
      user_data = none;
    } in
    let src_nsid = effective_src_nsid g d in
    let ns_size = get_ns_size g.namespaces src_nsid in
    let (ranges, total) =
      fill_ranges m range_size ns_size d.src_lba (get_random_num_ranges g d) 0 (h.content a) 0 in
    let failed : Outcome = record { success = false; op = op'; mgr = m; heap = h } in
    if ns_size == 0 || leb ns_size range_size
    then failed
    else if range_size == 0 || ltb 0x10000 range_size
    then failed
    else place g src_nsid (record op' { total_blocks = total }) ranges m
        (record h { content = update h.content a ranges })

unfoldable pub generate :
    Alloc → XcopyGenerator → Draws → XcopyOperation → LbaManager → ℕ → Heap → Outcome
unfolding generate_at
generate alloc g d op m range_size h =
    let (got, op', h') = allocate_ranges alloc g.max_ranges op h in
    elim got [
      | none ↦ record { success = false; op = op'; mgr = m; heap = h' }
      | some a ↦ generate_at g d op' a m range_size h'
    ]
