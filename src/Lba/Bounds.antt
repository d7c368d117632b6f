-- ===== src/Lba/Bounds.antt =====
-- LbaManager: the destination counter stays inside its range, and so do the blocks handed out.
use xcopy_block_io.Common.{
  ℕ, ◌+◌, ◌-◌, ◌≤◌, ◌<◌, ◌≡◌, refl, ◌⊎◌, inl, inr, dec_lt, List, [], ◌∷◌, arith, u64_mod,
}
use xcopy_block_io.Lba.{
  LbaManager, init, get_and_advance_dst_lba, advance_dst_lba, get_random_src_lba, reset_dst_lba,
  set_dst_range, clamp_end, get_dst_range_size,
}

-- A non-empty range inside the namespace, with the counter in it.
pub record IsValid (m : LbaManager) : Type 0 where
  pub word : m.namespace_size < u64_mod
  pub end_in : m.dst_end ≤ m.namespace_size
  pub current_from : m.dst_start ≤ m.dst_current
  pub current_below : m.dst_current < m.dst_end

-- The constructor yields a valid manager whenever the first block lies before the end that it settles
-- on, whatever end it is given (0, beyond the namespace, or inside it).
pub init-IsValid :
    (namespace_size start_lba end_lba : ℕ)
    → namespace_size < u64_mod
    → start_lba < (init namespace_size start_lba end_lba).dst_end
    → IsValid (init namespace_size start_lba end_lba)
unfolding init
init-IsValid namespace_size start_lba end_lba w h = ground arith

-- The constructor keeps the size of the namespace, and either settles on a window that is empty or
-- yields a valid manager.
pub init-cases :
    (namespace_size start_lba end_lba : ℕ)
    → namespace_size < u64_mod
    → let m = init namespace_size start_lba end_lba in
      (m.namespace_size ≡ namespace_size) × ((m.dst_end ≤ start_lba) ⊎ IsValid m)
unfolding init
init-cases namespace_size start_lba end_lba w = (
  refl,
  elim (dec_lt start_lba (init namespace_size start_lba end_lba).dst_end) [
    | yes h ↦ inr (init-IsValid namespace_size start_lba end_lba w h)
    | no h ↦ inl (omega (arith, h))
  ],
)

pub get_and_advance-IsValid :
    (m : LbaManager) (total_blocks : ℕ)
    → IsValid m
    → m.namespace_size + total_blocks < u64_mod
    → IsValid (get_and_advance_dst_lba m total_blocks).1
unfolding get_and_advance_dst_lba
get_and_advance-IsValid m total_blocks v h = ground arith

advance-IsValid :
    (m : LbaManager) (total_blocks : ℕ)
    → IsValid m
    → m.namespace_size + total_blocks < u64_mod
    → IsValid (advance_dst_lba m total_blocks)
unfolding advance_dst_lba
advance-IsValid m total_blocks v h = ground arith

pub reset-IsValid : (m : LbaManager) → IsValid m → IsValid (reset_dst_lba m)
unfolding reset_dst_lba
reset-IsValid m v = ground arith

set_dst_range-IsValid :
    (m : LbaManager) (start end : ℕ)
    → IsValid m
    → start < clamp_end m end
    → IsValid (set_dst_range m start end)
unfolding set_dst_range
set_dst_range-IsValid m start end v h = ground arith

-- The calls that write the manager.
pub data Call : Type 0 where
  get_and_advance advance : ℕ → Call
  reset : Call
  set_range : ℕ → ℕ → Call

unfoldable pub call : LbaManager → Call → LbaManager
call m (get_and_advance total_blocks) = (get_and_advance_dst_lba m total_blocks).1
call m (advance total_blocks) = advance_dst_lba m total_blocks
call m reset = reset_dst_lba m
call m (set_range start end) = set_dst_range m start end

unfoldable pub calls : LbaManager → List Call → LbaManager
calls m [] = m
calls m (c ∷ cs) = calls (call m c) cs

-- What a caller must see to: no 64-bit sum wraps, and a new range is not empty.
abbrev pub IsAllowed : ℕ → Call → Type 0
IsAllowed namespace_size (get_and_advance total_blocks) = namespace_size + total_blocks < u64_mod
IsAllowed namespace_size (advance total_blocks) = namespace_size + total_blocks < u64_mod
IsAllowed namespace_size reset = Unit
IsAllowed namespace_size (set_range start end) =
    ((end ≡ 0) ⊎ (start < end)) × (start < namespace_size)

abbrev pub AreAllowed : ℕ → List Call → Type 0
AreAllowed namespace_size [] = Unit
AreAllowed namespace_size (c ∷ cs) = IsAllowed namespace_size c × AreAllowed namespace_size cs

namespace_size-call : (m : LbaManager) (c : Call) → (call m c).namespace_size ≡ m.namespace_size
unfolding call get_and_advance_dst_lba advance_dst_lba reset_dst_lba set_dst_range
namespace_size-call m (get_and_advance total_blocks) = ground arith
namespace_size-call m c = ground arith

clamp_end-lt :
    (m : LbaManager) (start end : ℕ)
    → (end ≡ 0) ⊎ (start < end)
    → start < m.namespace_size
    → start < clamp_end m end
unfolding clamp_end
clamp_end-lt m start end h k = ground arith

call-IsValid :
    (m : LbaManager) (c : Call) → IsValid m → IsAllowed m.namespace_size c → IsValid (call m c)
unfolding call
call-IsValid m (get_and_advance total_blocks) v h = get_and_advance-IsValid m total_blocks v h
call-IsValid m (advance total_blocks) v h = advance-IsValid m total_blocks v h
call-IsValid m reset v h = reset-IsValid m v
call-IsValid m (set_range start end) v h =
    set_dst_range-IsValid m start end v (clamp_end-lt m start end h.0 h.1)

-- Any sequence of calls keeps the manager valid and its namespace size as it was, if no
-- block count makes a 64-bit sum wrap and each new range starts in the namespace and before its end
-- (an end of 0 stands for the namespace's).
pub calls-IsValid :
    (m : LbaManager) (cs : List Call)
    → IsValid m
    → AreAllowed m.namespace_size cs
    → IsValid (calls m cs) × ((calls m cs).namespace_size ≡ m.namespace_size)
unfolding calls
calls-IsValid m [] v h = (v, ground arith)
calls-IsValid m (c ∷ cs) v h =
    ground (arith, call-IsValid m c v, namespace_size-call m c, calls-IsValid (call m c) cs)

-- The blocks that `get_and_advance_dst_lba` hands out lie inside the destination range, if they fit in
-- it at all; if they do not, it hands out the start of the range and moves the counter there.
pub get_and_advance_bounds :
    (m : LbaManager) (total_blocks : ℕ)
    → IsValid m
    → m.namespace_size + total_blocks < u64_mod
    → let (result, m') = get_and_advance_dst_lba m total_blocks in
      (m.dst_start ≤ result)
      × (total_blocks ≤ m.dst_end - m.dst_start → result + total_blocks ≤ m.dst_end)
      × (m.dst_end - m.dst_start < total_blocks
          → (result ≡ m.dst_start) × (m'.dst_current ≡ m.dst_start))
unfolding get_and_advance_dst_lba
get_and_advance_bounds m total_blocks v h = ground arith

-- Where the source range is shorter than the namespace, the random source LBA leaves room for it in
-- the namespace, whatever number the generator returns, and although `namespace_size * 90` may wrap.
pub get_random_src_lba_bounds :
    (m : LbaManager) (range_size random : ℕ)
    → m.namespace_size < u64_mod
    → range_size < m.namespace_size
    → get_random_src_lba m range_size random + range_size ≤ m.namespace_size
unfolding get_random_src_lba
get_random_src_lba_bounds m range_size random w h = ground arith

pub get_random_src_lba_small :
    (m : LbaManager) (range_size random : ℕ)
    → m.namespace_size ≤ range_size
    → get_random_src_lba m range_size random ≡ 0
unfolding get_random_src_lba
get_random_src_lba_small m range_size random h = ground arith

-- On a valid manager `get_dst_range_size` is the exact number of blocks between start and end, which
-- is positive and no more than the namespace has.
pub get_dst_range_size_lem :
    (m : LbaManager)
    → IsValid m
    → (m.dst_start + get_dst_range_size m ≡ m.dst_end)
      × (0 < get_dst_range_size m)
      × (get_dst_range_size m ≤ m.namespace_size)
unfolding get_dst_range_size
get_dst_range_size_lem m v = ground arith
