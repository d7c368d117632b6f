-- ===== src/Pool/Slots.antt =====
-- OperationPool: which slot `acquire` takes, and when it finds one.
use xcopy_block_io.Common.{
  ℕ, zero, suc, ◌+◌, ◌-◌, ◌%◌, ◌≤◌, ◌<◌, ◌≡◌, refl, ◌⊎◌, inl, inr, List, true, false, none, some,
  arith, length, get_elem?, set, u32_mod, add32, Bool-cases, Option-cases, dec_lt, subst,
  some-injective, get_elem?_of_lt, sym, ap, ◌∙◌,
}
use native.Mathlib.Nat.{add-mod-mod, mod-add-mod, add-mod_right, mod-eq_of_lt, mod-lt}
use xcopy_block_io.Pool.{PooledOperation, reset_fields, scan}

-- The index that the k-th attempt after `next` tries.
abbrev pub tried : ℕ → ℕ → ℕ → ℕ
tried pool_size next k = (next + k) % u32_mod % pool_size

abbrev pub IsFree : List PooledOperation → ℕ → Type 0
IsFree ops i = (op : PooledOperation) × (get_elem? ops i ≡ some op) × (op.in_use ≡ false)

abbrev pub IsBusy : List PooledOperation → ℕ → Type 0
IsBusy ops i = (op : PooledOperation) × (get_elem? ops i ≡ some op) × (op.in_use ≡ true)

scan_out :
    (pool_size n : ℕ) (ops : List PooledOperation) (next : ℕ)
    → get_elem? ops (next % pool_size) ≡ none
    → scan pool_size (suc n) ops next ≡ (none, ops, add32 next 1)
unfolding scan
scan_out pool_size n ops next e = ground arith

scan_busy :
    (pool_size n : ℕ) (ops : List PooledOperation) (next : ℕ) (op : PooledOperation)
    → get_elem? ops (next % pool_size) ≡ some op
    → op.in_use ≡ true
    → scan pool_size (suc n) ops next ≡ scan pool_size n ops (add32 next 1)
unfolding scan
scan_busy pool_size n ops next op e b = ground arith

scan_free :
    (pool_size n : ℕ) (ops : List PooledOperation) (next : ℕ) (op : PooledOperation)
    → get_elem? ops (next % pool_size) ≡ some op
    → op.in_use ≡ false
    → scan pool_size (suc n) ops next ≡ (
      some (next % pool_size),
      set ops (next % pool_size) (reset_fields (record op { in_use = true })),
      add32 next 1,
    )
unfolding scan
scan_free pool_size n ops next op e b = ground arith

-- What a scan that returns slot `i` has done: it has marked that slot, which was free.
abbrev pub Took : List PooledOperation → List PooledOperation → ℕ → Type 0
Took ops ops' i =
    (op : PooledOperation) × (get_elem? ops i ≡ some op)
    × (op.in_use ≡ false)
    × (ops' ≡ set ops i (reset_fields (record op { in_use = true })))

-- One attempt ends the loop or leads to the next.
scan_cases :
    (pool_size n : ℕ) (ops : List PooledOperation) (next : ℕ)
    → ((get_elem? ops (next % pool_size) ≡ none)
        × (scan pool_size (suc n) ops next ≡ (none, ops, add32 next 1)))
      ⊎ ((op : PooledOperation) × (get_elem? ops (next % pool_size) ≡ some op)
          × (op.in_use ≡ true)
          × (scan pool_size (suc n) ops next ≡ scan pool_size n ops (add32 next 1)))
      ⊎ ((ops' : List PooledOperation) × Took ops ops' (next % pool_size)
          × (scan pool_size (suc n) ops next ≡ (some (next % pool_size), ops', add32 next 1)))
scan_cases pool_size n ops next = elim (Option-cases (get_elem? ops (next % pool_size))) [
  | inl e ↦ inl (e, scan_out pool_size n ops next e)
  | inr (op, e) ↦ elim (Bool-cases op.in_use) [
    | inl b ↦ inr (inl (op, e, b, scan_busy pool_size n ops next op e b))
    | inr b ↦ inr (inr (_, (op, e, b, refl), scan_free pool_size n ops next op e b))
  ]
]

pub scan_takes :
    (pool_size n : ℕ) (ops : List PooledOperation) (next i : ℕ)
    → (scan pool_size n ops next).0 ≡ some i
    → Took ops (scan pool_size n ops next).1 i
unfolding scan
scan_takes pool_size zero ops next i e = cc
scan_takes pool_size (suc n) ops next i e = elim (scan_cases pool_size n ops next) [
  | inl (m, r) ↦ absurd (cc r)
  | inr (inl (op, s, b, r)) ↦
      rw r (scan_takes pool_size n ops (add32 next 1) i (ap (λ t. t.0) (sym r) ∙ e))
  | inr (inr (ops', t, r)) ↦
      rw r (subst (Took ops ops') (some-injective _ _ (sym (ap (λ t. t.0) r) ∙ e)) t)
]

pub scan-none_unchanged :
    (pool_size n : ℕ) (ops : List PooledOperation) (next : ℕ)
    → (scan pool_size n ops next).0 ≡ none
    → (scan pool_size n ops next).1 ≡ ops
unfolding scan
scan-none_unchanged pool_size zero ops next e = refl
scan-none_unchanged pool_size (suc n) ops next e = elim (scan_cases pool_size n ops next) [
  | inl (m, r) ↦ rw r
  | inr (inl (op, s, b, r)) ↦
      rw r (scan-none_unchanged pool_size n ops (add32 next 1) (ap (λ t. t.0) (sym r) ∙ e))
  | inr (inr (ops', t, r)) ↦ absurd (cc r)
]

-- A scan that returns nothing has found every slot that it tried in use.
pub scan-none-IsBusy :
    (pool_size n : ℕ) (ops : List PooledOperation) (next k : ℕ)
    → length ops ≡ pool_size
    → 0 < pool_size
    → next < u32_mod
    → (scan pool_size n ops next).0 ≡ none
    → k < n
    → IsBusy ops (tried pool_size next k)
scan-none-IsBusy pool_size zero ops next k l p w e h = elim h [ ]
scan-none-IsBusy pool_size (suc n) ops next k l p w e h = elim (scan_cases pool_size n ops next) [
  | inl (m, r) ↦
      let (op, s) = get_elem?_of_lt ops (next % pool_size) (omega arith) in absurd (cc (m, s))
  | inr (inl (op, s, b, r)) ↦ elim (dec_lt 0 k) [
    | yes q ↦ subst (IsBusy ops) (ap (λ t. t % pool_size) (omega arith)) (
        scan-none-IsBusy pool_size n ops (add32 next 1) (k - 1) l p (omega arith)
          (ap (λ t. t.0) (sym r) ∙ e) (omega arith))
    | no q ↦ subst (IsBusy ops) (ap (λ t. t % pool_size) (omega arith)) (op, s, b)
  ]
  | inr (inr (ops', t, r)) ↦ absurd (cc r)
]

tried_later :
    (pool_size next k : ℕ)
    → next < u32_mod
    → tried pool_size next (suc k) ≡ tried pool_size (add32 next 1) k
tried_later pool_size next k w = ap (λ t. t % pool_size) (omega arith)

-- The converse: if every slot that it tries is in use, a scan returns nothing.
pub scan_all_busy :
    (pool_size n : ℕ) (ops : List PooledOperation) (next : ℕ)
    → next < u32_mod
    → ((k : ℕ) → k < n → IsBusy ops (tried pool_size next k))
    → (scan pool_size n ops next).0 ≡ none
unfolding scan
scan_all_busy pool_size zero ops next w all = refl
scan_all_busy pool_size (suc n) ops next w all =
    let (op, s, b) = all 0 (omega arith) in
    let at : tried pool_size next 0 ≡ next % pool_size = ap (λ t. t % pool_size) (omega arith) in
    rw (scan_busy pool_size n ops next op (ap (get_elem? ops) (sym at) ∙ s) b) (
      scan_all_busy pool_size n ops (add32 next 1) (omega arith)
        λ k h. subst (IsBusy ops) (tried_later pool_size next k w) (all (suc k) (omega arith)))

-- The attempt that tries slot `i`, if the counter does not wrap before it.
attempt : ℕ → ℕ → ℕ → ℕ
attempt pool_size next i = (i + pool_size - next % pool_size) % pool_size

attempt-hits :
    (pool_size next i : ℕ) → i < pool_size → (next + attempt pool_size next i) % pool_size ≡ i
unfolding attempt
attempt-hits s next i h =
    add-mod-mod next (i + s - next % s) s
    ∙ sym (mod-add-mod next s (i + s - next % s))
    ∙ ap (λ t. t % s) (omega arith)
    ∙ add-mod_right i s
    ∙ mod-eq_of_lt h

-- Every slot is tried if the counter does not wrap on the way.
pub tried_every :
    (pool_size next i : ℕ)
    → i < pool_size
    → next + pool_size ≤ u32_mod
    → (k : ℕ) × (k < pool_size) × (tried pool_size next k ≡ i)
unfolding attempt
tried_every pool_size next i h w =
    let small : attempt pool_size next i < pool_size = mod-lt _ (omega arith) in
    (
      attempt pool_size next i,
      small,
      ap (λ t. t % pool_size) (omega arith) ∙ attempt-hits pool_size next i h,
    )
