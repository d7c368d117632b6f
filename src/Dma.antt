-- ===== src/Dma.antt =====
-- The DMA memory of SPDK as the program sees it: what `spdk_dma_malloc` has handed out, what has been
-- given back by `spdk_dma_free`, and what the program has written. The allocator itself is not in
-- the repository: its answers are the parameter `alloc`, the result of each successive request.
use xcopy_block_io.Common.{
  ℕ, zero, suc, ◌+◌, ◌-◌, ◌≡◌, List, [], ◌∷◌, Option, none, some, ◌==◌, if◌then◌else◌, arith,
}

-- struct spdk_nvme_scc_source_range, the fields that the program fills.
pub record Range : Type 0 where
  pub slba : ℕ
  pub nlb : ℕ
  pub eilbrt : ℕ
  pub elbatm : ℕ
  pub elbat : ℕ

abbrev pub zero_range : Range
zero_range = record { slba = 0; nlb = 0; eilbrt = 0; elbatm = 0; elbat = 0 }

abbrev pub zeroed : ℕ → List Range
zeroed zero = []
zeroed (suc n) = zero_range ∷ zeroed n

pub record Heap : Type 0 where
  pub live : List ℕ  -- addresses handed out and not given back
  pub content : ℕ → List Range
  pub requests : ℕ

abbrev pub Alloc : Type 0
Alloc = ℕ → Option ℕ

abbrev pub update {ℓ} : {A : Type ℓ} → (ℕ → A) → ℕ → A → ℕ → A
update f i a j = if i == j then a else f j

-- Takes one occurrence away.
abbrev pub remove : ℕ → List ℕ → List ℕ
remove a [] = []
remove a (b ∷ bs) = if a == b then bs else b ∷ remove a bs

abbrev pub count : ℕ → List ℕ → ℕ
count a [] = 0
count a (b ∷ bs) = (if a == b then 1 else 0) + count a bs

abbrev pub dma_malloc : Alloc → Heap → Option ℕ × Heap
dma_malloc alloc h = elim (alloc h.requests) [
  | none ↦ (none, record h { requests = h.requests + 1 })
  | some a ↦ (some a, record h { live = a ∷ h.live; requests = h.requests + 1 })
]

abbrev pub dma_free : ℕ → Heap → Heap
dma_free a h = record h { live = remove a h.live }

-- memset(ranges, 0, n * sizeof *ranges)
abbrev pub clear : ℕ → ℕ → Heap → Heap
clear a n h = record h { content = update h.content a (zeroed n) }

pub count-remove :
    (a b : ℕ) (xs : List ℕ)
    → count a (remove b xs) ≡ (if a == b then count a xs - 1 else count a xs)
count-remove a b [] = ground arith
count-remove a b (x ∷ xs) = ground (arith, count-remove a b xs)
