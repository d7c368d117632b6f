-- ===== src/Pool/Hold.antt =====
-- OperationPool: the state between calls and with one operation taken, as its users see it.
use xcopy_block_io.Common.{
  ℕ, ◌+◌, ◌≡◌, ◌<◌, refl, List, true, false, Option, none, some, arith, get_elem?, set, length-set,
  get_elem?-set_self, lt_of_get_elem?, ap, sym, ◌∙◌,
}
use xcopy_block_io.Dma.{Heap, zeroed}
use xcopy_block_io.Pool.{
  PooledOperation, OperationPool, reset_fields, reset_buffer, clear_taken, acquire, release,
}
use xcopy_block_io.Pool.Slots.{scan-none_unchanged}
use xcopy_block_io.Pool.Acquire.{
  IsValid, busy_count, busy_count-set, acquire_takes, acquire-scan, scan-next-lt, set-indexed,
  release_lem,
}

-- A valid pool with `n` operations in use.
pub record Settled (p : OperationPool) (n : ℕ) : Type 0 where
  pub ops : List PooledOperation
  pub valid : IsValid p ops
  pub count : busy_count ops ≡ n

-- The same, and the operation at index `i` is in use besides.
pub record Taken (p : OperationPool) (i n : ℕ) : Type 0 where
  pub ops : List PooledOperation
  pub op : PooledOperation
  pub valid : IsValid p ops
  pub at : get_elem? ops i ≡ some op
  pub busy : op.in_use ≡ true
  pub count : busy_count ops ≡ n + 1

pub acquire-Settled :
    (p : OperationPool) (n : ℕ) (h : Heap)
    → Settled p n
    → (acquire p h).0 ≡ none
    → Settled (acquire p h).1 n
acquire-Settled p n h s e =
    let (same, state) = acquire-scan p s.ops h s.valid.present in
    let kept = scan-none_unchanged p.pool_size p.pool_size s.ops p.next_index (sym same ∙ e) in
    let bound = scan-next-lt p.pool_size p.pool_size s.ops p.next_index s.valid.next_in in
    record {
      ops = s.ops;
      valid = rw state (record {
        present = ap some kept;
        sized = s.valid.sized;
        next_in = bound;
        indexed = s.valid.indexed;
      });
      count = s.count;
    }

pub acquire-Taken :
    (p : OperationPool) (n i : ℕ) (h : Heap)
    → Settled p n
    → (acquire p h).0 ≡ some i
    → Taken (acquire p h).1 i n
unfolding reset_fields
acquire-Taken p n i h s e =
    let t = acquire_takes p s.ops h i s.valid e in
    let op : PooledOperation = reset_fields (record (t.op) { in_use = true }) in
    record {
      ops = set s.ops i op;
      op = op;
      valid = t.valid;
      at = get_elem?-set_self s.ops i op (lt_of_get_elem? s.ops i t.op t.was);
      busy = refl;
      count = omega (arith, t.counted, s.count);
    }

pub release-Settled : (p : OperationPool) (i n : ℕ) → Taken p i n → Settled (release (some i) p) n
release-Settled p i n t =
    let (valid, count) = release_lem p t.ops i t.op t.valid t.at in
    record {
      ops = set t.ops i (record (t.op) { in_use = false });
      valid = valid;
      count = ground (arith, count, t.count, t.busy);
    }

-- A change of the operation taken that keeps its index and its mark.
pub set-Taken :
    (p : OperationPool) (i n : ℕ) (t : Taken p i n) (op : PooledOperation)
    → op.pool_index ≡ t.op.pool_index
    → op.in_use ≡ true
    → Taken (record p { operations = some (set t.ops i op) }) i n
set-Taken p i n t op same busy = record {
  ops = set t.ops i op;
  op = op;
  valid = record {
    present = refl;
    sized = length-set t.ops i op ∙ t.valid.sized;
    next_in = t.valid.next_in;
    indexed = set-indexed t.ops i op t.valid.indexed (same ∙ t.valid.indexed i t.op t.at);
  };
  at = get_elem?-set_self t.ops i op (lt_of_get_elem? t.ops i t.op t.at);
  busy = busy;
  count = ground (arith, busy_count-set t.ops i t.op op t.at, t.count, t.busy);
}

pub release-pool_size : (s : Option ℕ) (p : OperationPool) → (release s p).pool_size ≡ p.pool_size
unfolding release
release-pool_size s p = ground arith

pub acquire-pool_size : (p : OperationPool) (h : Heap) → (acquire p h).1.pool_size ≡ p.pool_size
unfolding acquire
acquire-pool_size p h = ground arith

pub acquire-live : (p : OperationPool) (h : Heap) → (acquire p h).2.live ≡ h.live
unfolding acquire clear_taken reset_buffer
acquire-live p h = ground arith

-- An operation acquired keeps the buffer it had.
pub record Buffered (p : OperationPool) (i : ℕ) (ranges : Option ℕ) : Type 0 where
  pub ops : List PooledOperation
  pub op : PooledOperation
  pub valid : IsValid p ops
  pub at : get_elem? ops i ≡ some op
  pub same : op.ranges ≡ ranges

pub acquire-Buffered :
    (p : OperationPool) (ops : List PooledOperation) (h : Heap) (i : ℕ) (op : PooledOperation)
    → IsValid p ops
    → get_elem? ops i ≡ some op
    → (acquire p h).0 ≡ some i
    → Buffered (acquire p h).1 i op.ranges
unfolding reset_fields
acquire-Buffered p ops h i op v at e =
    let t = acquire_takes p ops h i v e in
    let op' : PooledOperation = reset_fields (record (t.op) { in_use = true }) in
    record {
      ops = set ops i op';
      op = op';
      valid = t.valid;
      at = get_elem?-set_self ops i op' (lt_of_get_elem? ops i t.op t.was);
      same = ground (arith, t.was, at);
    }

-- Given back, it is free, and has its buffer still.
pub release-Buffered :
    (p : OperationPool) (i : ℕ) (ranges : Option ℕ)
    → (b : Buffered p i ranges)
    → (op : PooledOperation) × (ops : List PooledOperation) × ((release (some i) p).operations
        ≡ some ops)
      × (get_elem? ops i ≡ some op)
      × (op.in_use ≡ false)
      × (op.ranges ≡ ranges)
release-Buffered p i ranges b =
    let free = record (b.op) { in_use = false } in
    (
      free,
      set b.ops i free,
      (release_lem p b.ops i b.op b.valid b.at).0.present,
      get_elem?-set_self b.ops i free (lt_of_get_elem? b.ops i b.op b.at),
      refl,
      b.same,
    )

clear_taken-content :
    (ops : List PooledOperation) (h : Heap) (i a : ℕ) (op : PooledOperation)
    → get_elem? ops i ≡ some op
    → op.ranges ≡ some a
    → 0 < op.max_ranges
    → (clear_taken (some i) ops h).content a ≡ zeroed op.max_ranges
unfolding clear_taken reset_buffer
clear_taken-content ops h i a op at e some_ranges = ground (arith, at, e)

acquire-heap :
    (p : OperationPool) (ops : List PooledOperation) (h : Heap)
    → p.operations ≡ some ops
    → (acquire p h).2 ≡ clear_taken (acquire p h).0 ops h
unfolding acquire
acquire-heap p ops h was = rw (was, acquire) refl

-- An operation acquired, with a cleared buffer of its own.
pub record Cleared (p : OperationPool) (h : Heap) (i a max_ranges : ℕ) : Type 0 where
  pub ops : List PooledOperation
  pub op : PooledOperation
  pub valid : IsValid p ops
  pub at : get_elem? ops i ≡ some op
  pub buffer : op.ranges ≡ some a
  pub busy : op.in_use ≡ true
  pub content : h.content a ≡ zeroed max_ranges

pub acquire-Cleared :
    (p : OperationPool) (ops : List PooledOperation) (h : Heap) (i a : ℕ) (op : PooledOperation)
    → IsValid p ops
    → get_elem? ops i ≡ some op
    → op.ranges ≡ some a
    → 0 < op.max_ranges
    → (acquire p h).0 ≡ some i
    → Cleared (acquire p h).1 (acquire p h).2 i a op.max_ranges
unfolding reset_fields
acquire-Cleared p ops h i a op v at e some_ranges took =
    let t = acquire_takes p ops h i v took in
    let op' : PooledOperation = reset_fields (record (t.op) { in_use = true }) in
    let now = get_elem?-set_self ops i op' (lt_of_get_elem? ops i t.op t.was) in
    let same : op'.ranges ≡ some a = ground (arith, t.was, at, e) in
    record {
      ops = set ops i op';
      op = op';
      valid = t.valid;
      at = now;
      buffer = same;
      busy = refl;
      content =
          ap (λ (k : Heap). k.content a)
            (acquire-heap p ops h v.present ∙ ap (λ s. clear_taken s ops h) took)
          ∙ clear_taken-content ops h i a op at e some_ranges;
    }
