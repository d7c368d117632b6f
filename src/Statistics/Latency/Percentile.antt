-- ===== src/Statistics/Latency/Percentile.antt =====
-- Statistics::get_percentile: which samples it reads.
use xcopy_block_io.Common.{
  ℕ, zero, suc, ◌+◌, ◌-◌, ◌^◌, ◌≤◌, ◌<◌, ◌≡◌, refl, ◌⊎◌, inl, inr, List, [], ◌∷◌, true, false,
  Option, some, arith, leb, ltb, if◌then◌else◌, ◌==◌, length, get_elem?, get_elem?_of_lt, All,
  Bool-cases,
}
use mathlib.Core.List.{Perm}
use mathlib.Core.List.Perm as Perms
use xcopy_block_io.Double.{Doubles, Rounds}
use xcopy_block_io.Statistics.{Statistics}
use xcopy_block_io.Statistics.Buffer.{buffer_size, get_samples, collect}
use xcopy_block_io.Statistics.Latency.{
  insert, sort, read, interpolate, percentile_at, get_percentile,
}

unfoldable pub IsSorted : List ℕ → Type 0
IsSorted [] = Unit
IsSorted (x ∷ xs) = All (λ y. x ≤ y) xs × IsSorted xs

All-le : (x y : ℕ) (ys : List ℕ) → x ≤ y → All (λ z. y ≤ z) ys → All (λ z. x ≤ z) ys
All-le x y [] h all = tt
All-le x y (z ∷ zs) h (p, all) = (omega arith, All-le x y zs h all)

insert-All : (x y : ℕ) (ys : List ℕ) → x ≤ y → All (λ z. x ≤ z) ys → All (λ z. x ≤ z) (insert y ys)
unfolding insert
insert-All x y [] h all = (h, tt)
insert-All x y (z ∷ zs) h (p, all) = elim (Bool-cases (leb y z)) [
  | inl e ↦ rw (e, insert) (h, (p, all))
  | inr e ↦ rw (e, insert) (p, insert-All x y zs h all)
]

insert-IsSorted : (x : ℕ) (ys : List ℕ) → IsSorted ys → IsSorted (insert x ys)
unfolding insert IsSorted
insert-IsSorted x [] s = (tt, tt)
insert-IsSorted x (y ∷ ys) (below, s) = elim (Bool-cases (leb x y)) [
  | inl e ↦
      let h : x ≤ y = ground (arith, e) in rw (e, insert) ((h, All-le x y ys h below), (below, s))
  | inr e ↦
      let h : y ≤ x = ground (arith, e) in
      rw (e, insert) (insert-All y x ys h below, insert-IsSorted x ys s)
]

insert-Perm : (x : ℕ) (ys : List ℕ) → Perm (insert x ys) (x ∷ ys)
unfolding insert
insert-Perm x [] = Perms.rfl
insert-Perm x (y ∷ ys) = elim (Bool-cases (leb x y)) [
  | inl e ↦ rw (e, insert) Perms.rfl
  | inr e ↦ rw (e, insert) (Perms.trans (Perms.cons y (insert-Perm x ys)) (Perms.swap x y ys))
]

pub sort-IsSorted : (xs : List ℕ) → IsSorted (sort xs)
unfolding sort IsSorted
sort-IsSorted [] = tt
sort-IsSorted (x ∷ xs) = insert-IsSorted x (sort xs) (sort-IsSorted xs)

pub sort-Perm : (xs : List ℕ) → Perm (sort xs) xs
unfolding sort
sort-Perm [] = Perms.rfl
sort-Perm (x ∷ xs) = Perms.trans (insert-Perm x (sort xs)) (Perms.cons x (sort-Perm xs))

length-insert : (x : ℕ) (ys : List ℕ) → length (insert x ys) ≡ length ys + 1
unfolding insert
length-insert x [] = refl
length-insert x (y ∷ ys) = elim (Bool-cases (leb x y)) [
  | inl e ↦ rw (e, insert) (omega arith)
  | inr e ↦ rw (e, insert) (omega (arith, length-insert x ys))
]

length-sort : (xs : List ℕ) → length (sort xs) ≡ length xs
unfolding sort
length-sort [] = refl
length-sort (x ∷ xs) = omega (arith, length-insert x (sort xs), length-sort xs)

length-collect : (samples : ℕ → ℕ) (n i : ℕ) → length (collect samples n i) ≤ n
unfolding collect
length-collect samples zero i = omega arith
length-collect samples (suc n) i = ground (arith, length-collect samples n (i + 1))

length-get_samples : (s : Statistics) → length (get_samples s.latency_buffer) ≤ buffer_size
unfolding get_samples
length-get_samples s =
    let b = s.latency_buffer in
    let rounds = if ltb b.sample_count buffer_size then b.sample_count else buffer_size in
    let few : rounds ≤ buffer_size = ground arith in
    omega (arith, length-collect b.samples rounds 0, few)

module _ (f : Doubles) where
  -- What a percentile is made of: nothing, for no samples; the least sample for a percentage of 0 or less;
  -- else the greatest, for 100 or more or if the index worked out is the last; else two samples that are
  -- next to each other in order, at that index.
  pub data Percentile (xs : List ℕ) (p : f.Double) : Option f.Double → Type 0 where
    of_none : xs ≡ [] → Percentile xs p (some (f.of 0))
    of_least :
        (ys : List ℕ) (x : ℕ)
        → Perm ys xs
        → IsSorted ys
        → get_elem? ys 0 ≡ some x
        → f.le p (f.of 0) ≡ true
        → Percentile xs p (some (f.of x))
    of_greatest :
        (ys : List ℕ) (i x : ℕ)
        → Perm ys xs
        → IsSorted ys
        → i + 1 ≡ length ys
        → get_elem? ys i ≡ some x
        → f.le p (f.of 0) ≡ false
        → (f.le (f.of 100) p ≡ true)
          ⊎ (i ≡ f.trunc (f.mul (f.div p (f.of 100)) (f.of (length ys - 1))))
        → Percentile xs p (some (f.of x))
    of_two :
        (ys : List ℕ) (i low high : ℕ)
        → Perm ys xs
        → IsSorted ys
        → get_elem? ys i ≡ some low
        → get_elem? ys (i + 1) ≡ some high
        → f.le p (f.of 0) ≡ false
        → f.le (f.of 100) p ≡ false
        → i ≡ f.trunc (f.mul (f.div p (f.of 100)) (f.of (length ys - 1)))
        → Percentile xs p (
            some (
              interpolate f
                (f.mul (f.div p (f.of 100)) (f.of (length ys - 1)))
                i
                (f.of low)
                (f.of high)))

  read_at : (xs : List ℕ) (i x : ℕ) → get_elem? xs i ≡ some x → read f xs i ≡ some (f.of x)
  unfolding read
  read_at xs i x e = rw (e, read) refl

  module _ (r : Rounds f) (p : f.Double) where
    -- The index lies in the sorted samples.
    index-le :
        (n : ℕ)
        → n ≤ 2 ^ 53
        → f.le p p ≡ true
        → f.le p (f.of 0) ≡ false
        → f.le (f.of 100) p ≡ false
        → f.trunc (f.mul (f.div p (f.of 100)) (f.of n)) ≤ n
    index-le n small number above below =
        let low = r.total p (f.of 0) number (r.of_ordered 0 (omega arith)) above in
        let high = r.total (f.of 100) p (r.of_ordered 100 (omega arith)) number below in
        let share = f.div p (f.of 100) in
        let share_low = r.div_nonneg p 100 (omega arith) (omega arith) low in
        let share_high = r.div_le_one p 100 (omega arith) (omega arith) high in
        r.trunc_le (f.mul share (f.of n)) n small (r.mul_nonneg share n small share_low share_high)
          (r.mul_le share n small share_low share_high)

    percentile_at-Percentile :
        (xs ys : List ℕ)
        → Perm ys xs
        → IsSorted ys
        → 0 < length ys
        → f.le p (f.of 0) ≡ false
        → f.le (f.of 100) p ≡ false
        → let index = f.mul (f.div p (f.of 100)) (f.of (length ys - 1)) in
          f.trunc index ≤ length ys - 1 → Percentile xs p (percentile_at f ys index)
    unfolding percentile_at
    percentile_at-Percentile xs ys perm sorted some_sample above below inside =
        let index = f.mul (f.div p (f.of 100)) (f.of (length ys - 1)) in
        let i = f.trunc index in
        let (low, at) = get_elem?_of_lt ys i (omega arith) in
        elim (Bool-cases (leb (length ys) (i + 1))) [
          | inl e ↦
              rw (e, percentile_at, read_at ys i low at)
                (of_greatest ys i low perm sorted (ground (arith, e, inside)) at above (inr refl))
          | inr e ↦
              let (high, at') = get_elem?_of_lt ys (i + 1) (ground (arith, e)) in
              rw (e, percentile_at, read_at ys i low at, read_at ys (i + 1) high at')
                (of_two ys i low high perm sorted at at' above below refl)
        ]

    nil_of_length : (xs : List ℕ) → length xs ≡ 0 → xs ≡ []
    nil_of_length [] e = refl
    nil_of_length (x ∷ xs) e = absurd (omega (arith, e))

    -- For a percentage that is a number, under the rules of IEEE 754, get_percentile reads no sample out
    -- of range: it is 0 for no samples; else the least sample for a percentage of 0 or less; else the
    -- greatest for 100 or more; and otherwise the greatest, if the index worked out is the last, or what
    -- lies between the two samples at that index and the next, in ascending order.
    pub get_percentile_lem :
        (s : Statistics)
        → f.le p p ≡ true
        → Percentile (get_samples s.latency_buffer) p (get_percentile f s p)
    unfolding get_percentile
    get_percentile_lem s number =
        let xs = get_samples s.latency_buffer in
        let ys = sort xs in
        let perm = sort-Perm xs in
        let sorted = sort-IsSorted xs in
        let size = length-sort xs in
        let few = length-get_samples s in
        elim (Bool-cases (length ys == 0)) [
          | inl e ↦ rw (e, get_percentile) (of_none (nil_of_length xs (ground (arith, e, size))))
          | inr e ↦
              let some_sample : 0 < length ys = ground (arith, e) in
              elim (Bool-cases (f.le p (f.of 0))) [
                | inl a ↦
                    let (x, at) = get_elem?_of_lt ys 0 some_sample in
                    rw (e, a, get_percentile, read_at ys 0 x at) (of_least ys x perm sorted at a)
                | inr a ↦ elim (Bool-cases (f.le (f.of 100) p)) [
                  | inl b ↦
                      let (x, at) = get_elem?_of_lt ys (length ys - 1) (omega arith) in
                      rw (e, a, b, get_percentile, read_at ys (length ys - 1) x at)
                        (of_greatest ys (length ys - 1) x perm sorted (omega arith) at a (inl b))
                  | inr b ↦
                      rw (e, a, b, get_percentile)
                        (percentile_at-Percentile xs ys perm sorted some_sample a b
                          (index-le (length ys - 1) (omega arith) number a b))
                ]
              ]
        ]
