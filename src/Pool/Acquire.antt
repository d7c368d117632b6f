-- ===== src/Pool/Acquire.antt =====
-- OperationPool: `acquire` and `release` on a pool that `init` has set up.
use xcopy_block_io.Common.{
  ℕ, zero, suc, ◌+◌, ◌-◌, ◌%◌, ◌≤◌, ◌<◌, ◌≡◌, ◌≢◌, refl, ◌↔◌, List, [], ◌∷◌, true, false, none,
  some, arith, length, get_elem?, set, length-set, get_elem?-set_self, get_elem?-set_ne,
  lt_of_get_elem?, u32_mod, ℕ_discrete, ap, sym, subst, ◌∙◌, if◌then◌else◌, add32,
}
use native.Mathlib.Nat.{mod-lt, mod_self, suc-mod, mod-eq_of_lt}
use xcopy_block_io.Dma.{Heap}
use xcopy_block_io.Pool.{PooledOperation, OperationPool, reset_fields, scan, acquire, release}
use xcopy_block_io.Pool.Slots.{
  IsFree, IsBusy, tried, scan_takes, scan-none-IsBusy, scan_all_busy, tried_every,
}

abbrev pub weight : PooledOperation → ℕ
weight op = if op.in_use then 1 else 0

-- How many operations are in use.
abbrev pub busy_count : List PooledOperation → ℕ
busy_count [] = 0
busy_count (op ∷ ops) = weight op + busy_count ops

pub busy_count-set :
    (ops : List PooledOperation) (i : ℕ) (op op' : PooledOperation)
    → get_elem? ops i ≡ some op
    → busy_count (set ops i op') + weight op ≡ busy_count ops + weight op'
busy_count-set [] i op op' e = cc
busy_count-set (x ∷ ops) zero op op' e = ground arith
busy_count-set (x ∷ ops) (suc i) op op' e = omega (arith, busy_count-set ops i op op' e)

busy_count-le : (ops : List PooledOperation) → busy_count ops ≤ length ops
busy_count-le [] = omega arith
busy_count-le (x ∷ ops) = ground (arith, busy_count-le ops)

-- All operations are in use just when the count says so.
busy_count_full :
    (ops : List PooledOperation)
    → busy_count ops ≡ length ops
    → (i : ℕ) → i < length ops
    → IsBusy ops i
busy_count_full [] e i h = elim h [ ]
busy_count_full (x ∷ ops) e zero h = (x, refl, ground (arith, busy_count-le ops))
busy_count_full (x ∷ ops) e (suc i) h =
    busy_count_full ops (ground (arith, busy_count-le ops)) i (omega arith)

all_busy_count :
    (ops : List PooledOperation)
    → ((i : ℕ) → i < length ops → IsBusy ops i)
    → busy_count ops ≡ length ops
all_busy_count [] all = refl
all_busy_count (x ∷ ops) all =
    let (op, e, b) = all 0 (omega arith) in
    let rest : busy_count ops ≡ length ops =
      all_busy_count ops (λ i h. all (suc i) (omega arith)) in
    ground arith

-- A pool set up, with its operations: as many as `pool_size`, each with its own index.
pub record IsValid (p : OperationPool) (ops : List PooledOperation) : Type 0 where
  pub present : p.operations ≡ some ops
  pub sized : length ops ≡ p.pool_size
  pub next_in : p.next_index < u32_mod
  pub indexed : (i : ℕ) (op : PooledOperation) → get_elem? ops i ≡ some op → op.pool_index ≡ i

pub set-indexed :
    (ops : List PooledOperation) (i : ℕ) (op' : PooledOperation)
    → ((j : ℕ) (op : PooledOperation) → get_elem? ops j ≡ some op → op.pool_index ≡ j)
    → op'.pool_index ≡ i
    → (j : ℕ) (op : PooledOperation) → get_elem? (set ops i op') j ≡ some op
    → op.pool_index ≡ j
set-indexed ops i op' all e j op h = elim (ℕ_discrete i j) [
  | yes q ↦
      let i_in : i < length ops =
        let j_in : j < length (set ops i op') = lt_of_get_elem? (set ops i op') j op h in
        omega (arith, length-set ops i op') in
      let same : some op' ≡ some op =
        sym (get_elem?-set_self ops i op' i_in) ∙ ap (get_elem? (set ops i op')) q ∙ h in
      ground arith
  | no q ↦ all j op (sym (get_elem?-set_ne ops i j op' q) ∙ h)
]

-- `acquire` on a pool set up, by the scan.
pub acquire-scan :
    (p : OperationPool) (ops : List PooledOperation) (h : Heap)
    → p.operations ≡ some ops
    → ((acquire p h).0 ≡ (scan p.pool_size p.pool_size ops p.next_index).0)
      × ((acquire p h).1 ≡ record p {
        operations = some ((scan p.pool_size p.pool_size ops p.next_index).1);
        next_index = (scan p.pool_size p.pool_size ops p.next_index).2;
      })
unfolding acquire
acquire-scan p ops h e = ground arith

pub scan-next-lt :
    (pool_size n : ℕ) (ops : List PooledOperation) (next : ℕ)
    → next < u32_mod
    → (scan pool_size n ops next).2 < u32_mod
unfolding scan
scan-next-lt pool_size zero ops next w = w
scan-next-lt pool_size (suc n) ops next w =
    ground (arith, scan-next-lt pool_size n ops (add32 next 1))

-- What `acquire` has done when it returns slot `i`.
pub record Acquired (p p' : OperationPool) (ops : List PooledOperation) (i : ℕ) : Type 0 where
  pub op : PooledOperation
  pub was : get_elem? ops i ≡ some op
  pub free : op.in_use ≡ false
  pub valid : IsValid p' (set ops i (reset_fields (record op { in_use = true })))
  pub size : p'.pool_size ≡ p.pool_size
  pub counted :
      busy_count (set ops i (reset_fields (record op { in_use = true }))) ≡ busy_count ops + 1

-- An operation that `acquire` returns was free, and it alone has changed: it is in use, with its
-- fields reset. The pool stays valid, and one more operation is in use.
pub acquire_takes :
    (p : OperationPool) (ops : List PooledOperation) (h : Heap) (i : ℕ)
    → IsValid p ops
    → (acquire p h).0 ≡ some i
    → Acquired p (acquire p h).1 ops i
unfolding reset_fields
acquire_takes p ops h i v e =
    let (same, state) = acquire-scan p ops h v.present in
    let (op, was, free, now) =
      scan_takes p.pool_size p.pool_size ops p.next_index i (sym same ∙ e) in
    let bound = scan-next-lt p.pool_size p.pool_size ops p.next_index v.next_in in
    let op' : PooledOperation = reset_fields (record op { in_use = true }) in
    record {
      op = op;
      was = was;
      free = free;
      valid = rw state (record {
        present = ap some now;
        sized = length-set ops i op' ∙ v.sized;
        next_in = bound;
        indexed = set-indexed ops i op' v.indexed (v.indexed i op was);
      });
      size = ap (λ q. q.pool_size) state;
      counted = ground (arith, busy_count-set ops i op op' was);
    }

-- If `next_index_` does not wrap during the call, `acquire` fails just when all operations are in use.
pub acquire_exhausted :
    (p : OperationPool) (ops : List PooledOperation) (h : Heap)
    → IsValid p ops
    → p.next_index + p.pool_size ≤ u32_mod
    → ((acquire p h).0 ≡ none) ↔ (busy_count ops ≡ p.pool_size)
acquire_exhausted p ops h v w = (forth, back)
  where
    same : (acquire p h).0 ≡ (scan p.pool_size p.pool_size ops p.next_index).0
    same = (acquire-scan p ops h v.present).0

    forth : (acquire p h).0 ≡ none → busy_count ops ≡ p.pool_size
    forth e = all_busy_count ops each ∙ v.sized
      where
        each : (i : ℕ) → i < length ops → IsBusy ops i
        each i l =
            let (k, below, hits) =
              tried_every p.pool_size p.next_index i (omega (arith, v.sized)) w in
            subst (IsBusy ops) hits (
              scan-none-IsBusy p.pool_size p.pool_size ops p.next_index k v.sized (omega arith)
                v.next_in (sym same ∙ e) below)

    back : busy_count ops ≡ p.pool_size → (acquire p h).0 ≡ none
    back e =
        same
        ∙ scan_all_busy p.pool_size p.pool_size ops p.next_index v.next_in λ k l.
          busy_count_full ops (e ∙ sym v.sized) (tried p.pool_size p.next_index k) (
            subst (λ n. tried p.pool_size p.next_index k < n) (sym v.sized)
              (mod-lt _ (omega arith)))

last_not_first : (s : ℕ) → 0 < s → u32_mod % s ≢ 0 → (u32_mod - 1) % s < s - 1
last_not_first s h odd = elim (ℕ_discrete ((u32_mod - 1) % s) (s - 1)) [
  | yes q ↦ absurd (
      odd (
        suc-mod (u32_mod - 1) s
        ∙ ap (λ t. suc t % s) q
        ∙ ap (λ t. t % s) {x = suc (s - 1)} {y = s} (omega arith)
        ∙ mod_self s))
  | no q ↦ let small : (u32_mod - 1) % s < s = mod-lt _ h in omega arith
]

-- The counter's wrap: a pool whose size does not divide 2 ^ 32 refuses an `acquire` that begins at the
-- last value of `next_index_` while its last operation is free, if all others are in use.
pub acquire_wrap_misses :
    (p : OperationPool) (ops : List PooledOperation) (h : Heap)
    → IsValid p ops
    → p.next_index ≡ u32_mod - 1
    → p.pool_size ≤ u32_mod
    → u32_mod % p.pool_size ≢ 0
    → IsFree ops (p.pool_size - 1)
    → ((i : ℕ) → i < p.pool_size - 1 → IsBusy ops i)
    → (acquire p h).0 ≡ none
acquire_wrap_misses p ops h v last small odd free others =
    (acquire-scan p ops h v.present).0
    ∙ scan_all_busy p.pool_size p.pool_size ops p.next_index v.next_in
        λ k l. others (tried p.pool_size p.next_index k) (missed k l)
  where
    missed : (k : ℕ) → k < p.pool_size → tried p.pool_size p.next_index k < p.pool_size - 1
    missed zero l =
        subst (λ t. t % p.pool_size < p.pool_size - 1) {x = u32_mod - 1}
          {y = (p.next_index + 0) % u32_mod} (omega arith) (last_not_first p.pool_size l odd)
    missed (suc k) l =
        let exact : tried p.pool_size p.next_index (suc k) ≡ k =
          ap (λ t. t % p.pool_size) {x = (p.next_index + suc k) % u32_mod} {y = k} (omega arith)
          ∙ mod-eq_of_lt (omega arith) in
        omega arith

pub release-of :
    (p : OperationPool) (ops : List PooledOperation) (i : ℕ) (op : PooledOperation)
    → IsValid p ops
    → get_elem? ops i ≡ some op
    → release (some i) p ≡ record p { operations = some (set ops i (record op { in_use = false })) }
unfolding release
release-of p ops i op v e =
    ground (arith, v.present, v.sized, v.indexed i op e, lt_of_get_elem? ops i op e)

-- Giving an operation back leaves the pool valid, frees that operation and changes no other; the
-- count of those in use falls by one if it was in use, and stays if it was free already.
pub release_lem :
    (p : OperationPool) (ops : List PooledOperation) (i : ℕ) (op : PooledOperation)
    → IsValid p ops
    → get_elem? ops i ≡ some op
    → IsValid (release (some i) p) (set ops i (record op { in_use = false }))
      × (busy_count (set ops i (record op { in_use = false })) + weight op ≡ busy_count ops)
release_lem p ops i op v e = (
  rw (release-of p ops i op v e) (record {
    present = refl;
    sized = length-set ops i (record op { in_use = false }) ∙ v.sized;
    next_in = v.next_in;
    indexed = set-indexed ops i (record op { in_use = false }) v.indexed (v.indexed i op e);
  }),
  ground (arith, busy_count-set ops i op (record op { in_use = false }) e),
)
