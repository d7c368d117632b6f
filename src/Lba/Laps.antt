-- ===== src/Lba/Laps.antt =====
-- LbaManager: how the reservations of successive operations lie to one another.
use xcopy_block_io.Common.{
  ℕ, ◌+◌, ◌-◌, ◌≤◌, ◌<◌, ◌≡◌, refl, ◌⊎◌, List, [], ◌∷◌, arith, All, u64_mod,
}
use xcopy_block_io.Lba.{LbaManager, get_and_advance_dst_lba}
use xcopy_block_io.Lba.Bounds.{IsValid, get_and_advance-IsValid}

-- The results of one operation after another.
pub reserve_all : LbaManager → List ℕ → List ℕ
reserve_all m [] = []
reserve_all m (t ∷ ts) =
    let (result, m') = get_and_advance_dst_lba m t in result ∷ reserve_all m' ts

abbrev pub sum : List ℕ → ℕ
sum [] = 0
sum (t ∷ ts) = t + sum ts

-- Intervals of the given lengths, laid end to end from `at` on.
abbrev pub tiles : ℕ → List ℕ → List ℕ
tiles at [] = []
tiles at (t ∷ ts) = at ∷ tiles (at + t) ts

-- What one reservation that fits before the end does.
reserve_inside :
    (m : LbaManager) (t : ℕ)
    → IsValid m
    → 0 < t
    → m.dst_current + t ≤ m.dst_end
    → let (result, m') = get_and_advance_dst_lba m t in
      (result ≡ m.dst_current)
      × (m.dst_current + t < m.dst_end → m'.dst_current ≡ m.dst_current + t)
      × (m'.dst_end ≡ m.dst_end)
      × (m'.namespace_size ≡ m.namespace_size)
unfolding get_and_advance_dst_lba
reserve_inside m t v p h = ground arith

-- Operations that together fit between the counter and the end of the range get adjacent intervals,
-- in order, from the counter on: no block of the lap is handed out twice and none is skipped.
pub reserve_all-tiles :
    (m : LbaManager) (ts : List ℕ)
    → IsValid m
    → All (λ t. 0 < t) ts
    → m.dst_current + sum ts ≤ m.dst_end
    → m.namespace_size + sum ts < u64_mod
    → reserve_all m ts ≡ tiles m.dst_current ts
unfolding reserve_all
reserve_all-tiles m [] v p h w = refl
reserve_all-tiles m (t ∷ []) v p h w = ground (arith, reserve_inside m t v p.0)
reserve_all-tiles m (t ∷ u ∷ us) v p h w = ground (
  arith,
  reserve_inside m t v p.0,
  get_and_advance-IsValid m t v,
  reserve_all-tiles (get_and_advance_dst_lba m t).1 (u ∷ us),
)

-- Of two successive operations that fit in the range, the second begins where the first ends or at
-- the start of the range.
pub reserve_adjacent :
    (m : LbaManager) (t u : ℕ)
    → IsValid m
    → 0 < t
    → 0 < u
    → t ≤ m.dst_end - m.dst_start
    → m.namespace_size + t + u < u64_mod
    → let (first, m') = get_and_advance_dst_lba m t in
      let (second, m'') = get_and_advance_dst_lba m' u in
      (second ≡ first + t) ⊎ (second ≡ m.dst_start)
unfolding get_and_advance_dst_lba
reserve_adjacent m t u v p q fits w = ground arith
