-- ===== src/Statistics/Extremes.antt =====
-- Statistics::record_completion under several threads: the loop that lowers `min_latency_ns`.
-- (The loop for the maximum is its mirror image.)
use mathlib.Core.Logic.{ite}
use xcopy_block_io.Common.{
  ℕ, ◌≤◌, ◌<◌, ◌≡◌, refl, ◌⊎◌, inl, inr, List, [], ◌∷◌, arith, All, ℕ_discrete,
}

-- Outside the loop, or in it with the latency to record and the minimum last loaded.
pub data Pc : Type 0 where
  outside : Pc
  comparing : ℕ → ℕ → Pc

pub record System : Type 0 where
  pub min_latency_ns : ℕ
  pub pc : ℕ → Pc
  pub recorded : List ℕ  -- the latencies whose loop has ended

abbrev pub update : (ℕ → Pc) → ℕ → Pc → ℕ → Pc
update f i p j = ite (ℕ_discrete i j) p (f j)

-- A compare-exchange that fails loads the minimum anew; a weak one may fail without cause.
pub data Step (s : System) : System → Type 0 where
  load :
      (i latency_ns : ℕ)
      → s.pc i ≡ outside
      → Step s (record s { pc = update s.pc i (comparing latency_ns s.min_latency_ns) })
  leave :
      (i latency_ns current : ℕ)
      → s.pc i ≡ comparing latency_ns current
      → current ≤ latency_ns
      → Step s (record s { pc = update s.pc i outside; recorded = latency_ns ∷ s.recorded })
  exchange :
      (i latency_ns current : ℕ)
      → s.pc i ≡ comparing latency_ns current
      → latency_ns < current
      → s.min_latency_ns ≡ current
      → Step s (record {
        min_latency_ns = latency_ns;
        pc = update s.pc i outside;
        recorded = latency_ns ∷ s.recorded;
      })
  fail :
      (i latency_ns current : ℕ)
      → s.pc i ≡ comparing latency_ns current
      → latency_ns < current
      → Step s (record s { pc = update s.pc i (comparing latency_ns s.min_latency_ns) })

pub data Reach (s : System) : System → Type 0 where
  here : Reach s s
  later : {t u : System} → Reach s t → Step t u → Reach s u

abbrev pub start : ℕ → System
start first = record { min_latency_ns = first; pc = λ i. outside; recorded = [] }

abbrev pub IsOneOf : ℕ → List ℕ → Type 0
IsOneOf x [] = ⊥
IsOneOf x (y ∷ ys) = (x ≡ y) ⊎ IsOneOf x ys

-- What a thread has loaded is no less than the minimum.
abbrev IsStale : ℕ → Pc → Type 0
IsStale least outside = Unit
IsStale least (comparing latency_ns current) = least ≤ current

record Inv (first : ℕ) (s : System) : Type 0 where
  falls : s.min_latency_ns ≤ first
  below : All (λ x. s.min_latency_ns ≤ x) s.recorded
  taken : (s.min_latency_ns ≡ first) ⊎ IsOneOf s.min_latency_ns s.recorded
  stale : (i : ℕ) → IsStale s.min_latency_ns (s.pc i)

pub All-le_mono : (a b : ℕ) (xs : List ℕ) → b ≤ a → All (λ x. a ≤ x) xs → All (λ x. b ≤ x) xs
All-le_mono a b [] h p = tt
All-le_mono a b (x ∷ xs) h p = (omega arith, All-le_mono a b xs h p.1)

IsStale-mono : (a b : ℕ) (p : Pc) → b ≤ a → IsStale a p → IsStale b p
IsStale-mono a b outside h q = tt
IsStale-mono a b (comparing x y) h q = omega arith

loaded_at :
    {first : ℕ} {s : System} (i : ℕ) {p : Pc}
    → Inv first s
    → s.pc i ≡ p
    → IsStale s.min_latency_ns p
loaded_at i inv e = ground (arith, inv.stale i)

Step-Inv : {first : ℕ} {s t : System} → Step s t → Inv first s → Inv first t
Step-Inv {s} (load i x e) inv = record {
  falls = inv.falls;
  below = inv.below;
  taken = inv.taken;
  stale = λ j. ground (arith, inv.stale j);
}
Step-Inv {s} (leave i x c e le) inv = record {
  falls = inv.falls;
  below = let l = loaded_at i inv e in (omega arith, inv.below);
  taken = ground (arith, inv.taken);
  stale = λ j. ground (arith, inv.stale j);
}
Step-Inv {first} {s} (exchange i x c e lt same) inv = record {
  falls = omega (arith, inv.falls);
  below = (omega arith, All-le_mono s.min_latency_ns x s.recorded (omega arith) inv.below);
  taken = inr (inl refl);
  stale = λ j. ground (arith, IsStale-mono s.min_latency_ns x (s.pc j) (omega arith) (inv.stale j));
}
Step-Inv {s} (fail i x c e lt) inv = record {
  falls = inv.falls;
  below = inv.below;
  taken = inv.taken;
  stale = λ j. ground (arith, inv.stale j);
}

Reach-Inv : {first : ℕ} {s : System} → Reach (start first) s → Inv first s
Reach-Inv here = record { falls = omega arith; below = tt; taken = inl refl; stale = λ i. tt }
Reach-Inv (later r st) = Step-Inv st (Reach-Inv r)

-- However the loops of any number of threads are interleaved, failed exchanges included, the shared
-- minimum is the least of its first value and the latencies recorded: it is no larger than any of
-- them, and is one of them.
pub shared_minimum :
    (first : ℕ) {s : System}
    → Reach (start first) s
    → (s.min_latency_ns ≤ first)
      × All (λ x. s.min_latency_ns ≤ x) s.recorded
      × ((s.min_latency_ns ≡ first) ⊎ IsOneOf s.min_latency_ns s.recorded)
shared_minimum first r = let inv = Reach-Inv r in (inv.falls, inv.below, inv.taken)
