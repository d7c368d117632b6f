-- ===== src/Generator/Copy.antt =====
-- XcopyOperation's copy constructor and assignment: the buffer of ranges is copied, not shared.
use xcopy_block_io.Common.{
  ℕ, zero, suc, ◌+◌, ◌≡◌, ◌≢◌, refl, ◌⊎◌, inl, inr, List, [], ◌∷◌, Bool, true, false, none, some,
  arith, ltb, ◌==◌, if◌then◌else◌, Bool-cases, Option-cases, ℕ_discrete, ==_of_ne, sym, ap, subst,
  ◌∙◌,
}
use xcopy_block_io.Dma.{Heap, Alloc, update, clear}
use xcopy_block_io.Generator.Operation.{XcopyOperation, allocate_ranges, free_ranges}

-- What memcpy reads: `n` ranges of a buffer.
abbrev pub take {ℓ} : {A : Type ℓ} → ℕ → List A → List A
take zero xs = []
take (suc n) [] = []
take (suc n) (x ∷ xs) = x ∷ take n xs

abbrev memcpy : ℕ → ℕ → ℕ → Heap → Heap
memcpy b a n h = record h { content = update h.content b (take n (h.content a)) }

-- The end of both: `op` gets a buffer of its own with the ranges of `other`, if those have one.
pub copy_ranges : Alloc → XcopyOperation → XcopyOperation → Heap → XcopyOperation × Heap
copy_ranges alloc other op h = elim other.ranges [
  | none ↦ (op, h)
  | some a ↦
      let (got, op', h') = allocate_ranges alloc other.num_ranges op h in
      if ltb 0 other.num_ranges
      then (elim got [ none ↦ (op', h') | some b ↦ (op', memcpy b a other.num_ranges h') ])
      else (op, h)
]

pub copy : Alloc → XcopyOperation → Heap → XcopyOperation × Heap
unfolding copy_ranges
copy alloc other h = copy_ranges alloc other (record other { ranges = none }) h

-- `same` answers whether both are one object.
pub assign : Bool → Alloc → XcopyOperation → XcopyOperation → Heap → XcopyOperation × Heap
unfolding copy_ranges
assign same alloc op other h =
    let (freed, h') = free_ranges op h in
    if same then (op, h) else copy_ranges alloc other (record other { ranges = freed.ranges }) h'

-- The copy has no buffer, since there is nothing to copy or no memory; or one of its own, with the ranges.
pub Copied : Alloc → XcopyOperation → Heap → XcopyOperation × Heap → Type 0
Copied alloc other h r =
    ((r.0 ≡ record other { ranges = none })
      × (r.1.live ≡ h.live)
      × (r.1.content ≡ h.content)
      × ((other.ranges ≡ none) ⊎ (other.num_ranges ≡ 0) ⊎ (alloc h.requests ≡ none)))
    ⊎ ((a b : ℕ) × (other.ranges ≡ some a)
        × (alloc h.requests ≡ some b)
        × (r.0 ≡ record other { ranges = some b })
        × (r.1.live ≡ b ∷ h.live)
        × (r.1.content b ≡ take other.num_ranges (h.content a))
        × ((x : ℕ) → (x ≡ b) ⊎ (r.1.content x ≡ h.content x)))

-- With a buffer to copy, and memory for another.
copied : ℕ → ℕ → ℕ → Heap → Heap
copied a b n h =
    memcpy b a n (clear b n (record h { live = b ∷ h.live; requests = h.requests + 1 }))

copy_ranges-copied :
    (alloc : Alloc) (other : XcopyOperation) (h : Heap) (a b : ℕ)
    → other.ranges ≡ some a
    → ltb 0 other.num_ranges ≡ true
    → alloc h.requests ≡ some b
    → copy_ranges alloc other (record other { ranges = none }) h
      ≡ (record other { ranges = some b }, copied a b other.num_ranges h)
unfolding copy_ranges allocate_ranges copied
copy_ranges-copied alloc other h a b e f g =
    let op = record other { ranges = none } in
    let got : allocate_ranges alloc other.num_ranges op h ≡ (
      some b,
      record other { ranges = some b },
      clear b other.num_ranges (record h { live = b ∷ h.live; requests = h.requests + 1 }),
    ) =
      ground (arith, g) in
    rw (e, f, ap (λ r. r.0) got, ap (λ r. r.1) got, ap (λ r. r.2) got, copy_ranges) refl

copied-content : (a b n : ℕ) (h : Heap) → b ≢ a → (copied a b n h).content b ≡ take n (h.content a)
unfolding copied
copied-content a b n h ne =
    let self : (b == b) ≡ true = ground arith in
    let other : (b == a) ≡ false = ==_of_ne b a ne in rw (self, other) refl

copied-other : (a b n x : ℕ) (h : Heap) → (x ≡ b) ⊎ ((copied a b n h).content x ≡ h.content x)
unfolding copied
copied-other a b n x h = elim (ℕ_discrete x b) [ yes e ↦ inl e | no d ↦ inr (ground (arith, d)) ]

copy_ranges-Copied :
    (alloc : Alloc) (other : XcopyOperation) (h : Heap)
    → ((a b : ℕ) → other.ranges ≡ some a → alloc h.requests ≡ some b → b ≢ a)
    → Copied alloc other h (copy_ranges alloc other (record other { ranges = none }) h)
unfolding copy_ranges Copied allocate_ranges copied
copy_ranges-Copied alloc other h fresh = elim (Option-cases other.ranges) [
  | inl e ↦ inl (ground (arith, e), ground (arith, e), ground (arith, e), inl e)
  | inr (a, e) ↦ elim (Bool-cases (ltb 0 other.num_ranges)) [
    | inr f ↦ inl (
      ground (arith, e, f),
      ground (arith, e, f),
      ground (arith, e, f),
      inr (inl (ground (arith, f))),
    )
    | inl f ↦ elim (Option-cases (alloc h.requests)) [
      | inl g ↦
          inl
            (ground (arith, e, f, g), ground (arith, e, f, g), ground (arith, e, f, g), inr (inr g))
      | inr (b, g) ↦
          let run = copy_ranges-copied alloc other h a b e f g in
          let made : Copied alloc other h
              (record other { ranges = some b }, copied a b other.num_ranges h) =
            inr (
              a,
              b,
              e,
              g,
              refl,
              refl,
              copied-content a b other.num_ranges h (fresh a b e g),
              λ x. copied-other a b other.num_ranges x h,
            ) in
          subst (Copied alloc other h) (sym run) made
    ]
  ]
]

free_ranges-none : (op : XcopyOperation) (h : Heap) → op.ranges ≡ none → (free_ranges op h).1 ≡ h
unfolding free_ranges
free_ranges-none op h e = rw (e, free_ranges) refl

free_ranges-ranges : (op : XcopyOperation) (h : Heap) → (free_ranges op h).0.ranges ≡ none
unfolding free_ranges
free_ranges-ranges op h = elim (Option-cases op.ranges) [
  | inl e ↦ rw (e, free_ranges) e
  | inr (a, e) ↦ rw (e, free_ranges) refl
]

free_ranges-new :
    (op : XcopyOperation) (b : ℕ) (live : List ℕ) (h : Heap)
    → op.ranges ≡ some b
    → h.live ≡ b ∷ live
    → (free_ranges op h).1.live ≡ live
unfolding free_ranges
free_ranges-new op b live h e f =
    let self : (b == b) ≡ true = ground arith in rw (e, f, self, free_ranges) refl

-- If SPDK gives no buffer twice, a copy has no buffer, since there is nothing to copy or no memory left,
-- and changes none; or it has a new one that holds the ranges of the original, and every other buffer
-- is as it was. Destroying the copy gives back what was allocated for it, and no more.
pub copy_lem :
    (alloc : Alloc) (other : XcopyOperation) (h : Heap)
    → ((a b : ℕ) → other.ranges ≡ some a → alloc h.requests ≡ some b → b ≢ a)
    → let (op, h') = copy alloc other h in
      Copied alloc other h (op, h') × ((free_ranges op h').1.live ≡ h.live)
unfolding copy Copied
copy_lem alloc other h fresh =
    let c = copy_ranges-Copied alloc other h fresh in
    (
      c,
      elim c [
        | inl (same, live, content, why) ↦
            let (op, h') = copy_ranges alloc other (record other { ranges = none }) h in
            ap (λ k. k.live) (free_ranges-none op h' (ap (λ o. o.ranges) same)) ∙ live
        | inr (a, b, e, g, made, live, held, rest) ↦
            let (op, h') = copy_ranges alloc other (record other { ranges = none }) h in
            free_ranges-new op b h.live h' (ap (λ o. o.ranges) made) live
      ],
    )

-- An assignment gives the buffer of the target back first, and then copies; to itself it does nothing.
pub assign_lem :
    (alloc : Alloc) (op other : XcopyOperation) (h : Heap)
    → (assign true alloc op other h ≡ (op, h))
      × (assign false alloc op other h ≡ copy alloc other (free_ranges op h).1)
unfolding assign copy free_ranges
assign_lem alloc op other h = (
  refl,
  subst
      (λ r.
        copy_ranges alloc other (record other { ranges = r }) (free_ranges op h).1
        ≡ copy alloc other (free_ranges op h).1)
      (sym (free_ranges-ranges op h)) refl,
)
