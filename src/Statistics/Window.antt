-- ===== src/Statistics/Window.antt =====
-- LockFreeLatencyBuffer: which samples it holds after a run.
use mathlib.Core.Path.{ap₂}
use xcopy_block_io.Common.{
  ℕ, zero, suc, ◌+◌, ◌-◌, ◌%◌, ◌≤◌, ◌<◌, ◌≡◌, refl, List, [], ◌∷◌, ◌++◌, ltb, if◌then◌else◌,
  u64_mod, arith, length, get_elem?, some, ◌∙◌, ap, lt_of_get_elem?,
}
use xcopy_block_io.Statistics.Buffer.{
  LatencyBuffer, buffer_size, empty, record_sample, collect, get_samples,
}

-- The buffer after samples recorded one by one, the latest first.
unfoldable pub record_samples : List ℕ → LatencyBuffer
record_samples [] = empty
record_samples (x ∷ xs) = record_sample (record_samples xs) x

record_samples-counts :
    (xs : List ℕ)
    → length xs < u64_mod
    → ((record_samples xs).write_index ≡ length xs) × ((record_samples xs).sample_count ≡ length xs)
unfolding record_samples record_sample
record_samples-counts [] w = (refl, refl)
record_samples-counts (x ∷ xs) w = omega (arith, record_samples-counts xs (omega arith))

-- Each of the last 65536 samples stands in the ring, at its number modulo the size of the ring:
-- the `k`-th latest one, of those counted from 0.
pub record_samples-window :
    (xs : List ℕ) (k x : ℕ)
    → length xs < u64_mod
    → k < buffer_size
    → get_elem? xs k ≡ some x
    → (record_samples xs).samples ((length xs - 1 - k) % buffer_size) ≡ x
unfolding record_samples record_sample
record_samples-window [] k x w h e = cc
record_samples-window (y ∷ xs) zero x w h e = ground (arith, record_samples-counts xs (omega arith))
record_samples-window (y ∷ xs) (suc k) x w h e = ground (
  arith,
  record_samples-counts xs (omega arith),
  record_samples-window xs k x (omega arith) (omega arith) e,
  lt_of_get_elem? xs k x e,
)

-- The samples above zero, oldest first, of a list that has the latest first.
abbrev pub in_order : List ℕ → List ℕ
in_order [] = []
in_order (x ∷ xs) = in_order xs ++ (if ltb 0 x then x ∷ [] else [])

collect-extend :
    (f : ℕ → ℕ) (n i : ℕ)
    → collect f (suc n) i ≡ collect f n i ++ (if ltb 0 (f (i + n)) then f (i + n) ∷ [] else [])
unfolding collect
collect-extend f zero i = let e : i + 0 ≡ i = omega arith in rw e (ground arith)
collect-extend f (suc n) i =
    let e : i + suc n ≡ i + 1 + n = omega arith in rw e (ground (arith, collect-extend f n (i + 1)))

collect-same :
    (f g : ℕ → ℕ) (n i : ℕ)
    → ((j : ℕ) → i ≤ j → j < i + n → f j ≡ g j)
    → collect f n i ≡ collect g n i
unfolding collect
collect-same f g zero i h = refl
collect-same f g (suc n) i h =
    let rest = collect-same f g n (i + 1) (λ j lo hi. h j (omega arith) (omega arith)) in
    let here = h i (omega arith) (omega arith) in ground arith

new_sample :
    (x : ℕ) (xs : List ℕ)
    → length xs < buffer_size
    → ((record_samples (x ∷ xs)).samples (0 + length xs) ≡ x)
      × ((j : ℕ)
          → 0 ≤ j
          → j < 0 + length xs
          → (record_samples (x ∷ xs)).samples j ≡ (record_samples xs).samples j)
unfolding record_samples record_sample
new_sample x xs h =
    let counts = record_samples-counts xs (omega arith) in
    (ground (arith, counts), λ j lo hi. ground (arith, counts))

collect_all :
    (xs : List ℕ)
    → length xs ≤ buffer_size
    → collect (record_samples xs).samples (length xs) 0 ≡ in_order xs
unfolding collect
collect_all [] h = refl
collect_all (x ∷ xs) h =
    let (new, old) = new_sample x xs (omega arith) in
    collect-extend (record_samples (x ∷ xs)).samples (length xs) 0
    ∙ ap₂ (λ (a : List ℕ) (b : ℕ). a ++ (if ltb 0 b then b ∷ [] else []))
        (collect-same (record_samples (x ∷ xs)).samples (record_samples xs).samples (length xs) 0
            old
          ∙ collect_all xs (omega arith))
        new

-- A run of at most 65536 samples is read back whole and in order, less the samples that are 0.
pub get_samples-in_order :
    (xs : List ℕ) → length xs ≤ buffer_size → get_samples (record_samples xs) ≡ in_order xs
unfolding get_samples
get_samples-in_order xs h =
    let counts = record_samples-counts xs (omega arith) in
    ap (λ n. collect (record_samples xs).samples n 0) {y = length xs} (ground (arith, counts))
    ∙ collect_all xs h
