-- ===== src/Spdk/Discover.antt =====
-- SpdkContext::discover_namespaces: the loop over the active namespaces ends, and finds them all.
use xcopy_block_io.Common.{
  ℕ, zero, suc, ◌+◌, ◌-◌, ◌<◌, ◌≡◌, ◌≢◌, refl, ◌⊎◌, inl, inr, List, [], ◌∷◌, none, some, arith,
  ◌==◌, if◌then◌else◌, Bool-cases, Option-cases, All, u32_mod, ℕ_discrete, sym, ap, subst, ◌∙◌,
}
use xcopy_block_io.Spdk.{
  Library, SpdkContext, NamespaceInfo, info_of, collect, discover_namespaces, find_info,
  get_ns_info, get_ns,
}

-- What SPDK documents of the walk over the active namespaces of a controller: the next one has a larger
-- number, 0 ends the walk, and the numbers have 32 bits.
pub record Ascending (lib : Library) (ctrlr : ℕ) : Type 0 where
  pub first_word : lib.first_active_ns ctrlr < u32_mod
  pub up :
      (nsid : ℕ)
      → nsid ≢ 0
      → (lib.next_active_ns ctrlr nsid ≡ 0) ⊎ (nsid < lib.next_active_ns ctrlr nsid)
  pub word : (nsid : ℕ) → lib.next_active_ns ctrlr nsid < u32_mod

module _ (lib : Library) (ctrlr : ℕ) where
  -- The `k`-th number of the walk, 0 after its end.
  abbrev pub visited : ℕ → ℕ → ℕ
  visited nsid zero = nsid
  visited nsid (suc k) = if nsid == 0 then 0 else visited (lib.next_active_ns ctrlr nsid) k

  ended : (nsid k : ℕ) → nsid ≡ 0 → visited nsid k ≡ 0
  ended nsid zero e = e
  ended nsid (suc k) e = ground (arith, e)

  later :
      (nsid k n : ℕ)
      → nsid ≢ 0
      → nsid ≢ n
      → visited nsid k ≡ n
      → visited (lib.next_active_ns ctrlr nsid) (k - 1) ≡ n
  later nsid zero n nz d v = absurd (d v)
  later nsid (suc k) n nz d v =
      let same : suc k - 1 ≡ k = omega arith in
      subst (λ j. visited (lib.next_active_ns ctrlr nsid) j ≡ n) (sym same) (ground (arith, nz, v))

  -- The list with namespace `nsid` in front, if there is one.
  found : ℕ → List NamespaceInfo → List NamespaceInfo
  found nsid infos = elim (lib.ns_of ctrlr nsid) [
    | none ↦ infos
    | some ns ↦ info_of lib nsid ns ∷ infos
  ]

  -- What one round gives, once the number is not 0 and the rest is known.
  collect-suc :
      (fuel nsid : ℕ) (infos : List NamespaceInfo)
      → nsid ≢ 0
      → collect lib ctrlr fuel (lib.next_active_ns ctrlr nsid) ≡ some infos
      → collect lib ctrlr (suc fuel) nsid ≡ some (found nsid infos)
  unfolding collect found
  collect-suc fuel nsid infos ne e = ground (arith, ne, e)

  -- Fuel beyond what is left of the 32-bit numbers is enough.
  pub collect_total :
      Ascending lib ctrlr
      → (fuel nsid : ℕ) → (nsid ≡ 0) × (0 < fuel) ⊎ (u32_mod < nsid + fuel) × (nsid < u32_mod)
      → (infos : List NamespaceInfo) × (collect lib ctrlr fuel nsid ≡ some infos)
  unfolding collect
  collect_total up zero nsid enough = absurd (omega arith)
  collect_total up (suc fuel) nsid enough = elim (Bool-cases (nsid == 0)) [
    | inl e ↦ ([], rw (e, collect) refl)
    | inr e ↦
        let ne : nsid ≢ 0 = ground (arith, e) in
        let left : (lib.next_active_ns ctrlr nsid ≡ 0) × (0 < fuel)
            ⊎ (u32_mod < lib.next_active_ns ctrlr nsid + fuel)
              × (lib.next_active_ns ctrlr nsid < u32_mod) =
          ground (arith, ne, up.up nsid ne, up.word nsid, enough) in
        let (infos, rest) = collect_total up fuel (lib.next_active_ns ctrlr nsid) left in
        (found nsid infos, collect-suc fuel nsid infos ne rest)
  ]

  -- The other way: what a run that ended has done.
  collect-cases :
      (fuel nsid : ℕ) (infos : List NamespaceInfo)
      → collect lib ctrlr (suc fuel) nsid ≡ some infos
      → (nsid ≡ 0) × (infos ≡ [])
        ⊎ (nsid ≢ 0)
          × (rest : List NamespaceInfo) × (collect lib ctrlr fuel (lib.next_active_ns ctrlr nsid)
              ≡ some rest)
          × (infos ≡ found nsid rest)
  unfolding collect found
  collect-cases fuel nsid infos e = elim (Bool-cases (nsid == 0)) [
    | inl z ↦ inl (ground (arith, z), ground (arith, z, e))
    | inr z ↦ elim (Option-cases (collect lib ctrlr fuel (lib.next_active_ns ctrlr nsid))) [
      | inl none_left ↦ absurd (ground (arith, z, none_left, e))
      | inr (rest, r) ↦ inr (ground (arith, z), rest, r, ground (arith, z, r, e))
    ]
  ]

  find_info-found_self :
      (nsid ns : ℕ) (infos : List NamespaceInfo)
      → lib.ns_of ctrlr nsid ≡ some ns
      → find_info (found nsid infos) nsid ≡ some (info_of lib nsid ns)
  unfolding find_info found
  find_info-found_self nsid ns infos e = ground (arith, e)

  find_info-found_ne :
      (nsid n : ℕ) (infos : List NamespaceInfo)
      → nsid ≢ n
      → find_info (found nsid infos) n ≡ find_info infos n
  unfolding find_info found
  find_info-found_ne nsid n infos ne = ground (arith, ne)

  collect_complete :
      (fuel nsid k n ns : ℕ) (infos : List NamespaceInfo)
      → collect lib ctrlr fuel nsid ≡ some infos
      → visited nsid k ≡ n
      → n ≢ 0
      → lib.ns_of ctrlr n ≡ some ns
      → find_info infos n ≡ some (info_of lib n ns)
  unfolding collect
  collect_complete zero nsid k n ns infos e v ne ns_e = absurd (cc e)
  collect_complete (suc fuel) nsid k n ns infos e v ne ns_e =
      elim (collect-cases fuel nsid infos e) [
        | inl (z, empty) ↦ absurd (ne (sym v ∙ ended nsid k z))
        | inr (nz, rest, r, same) ↦ elim (ℕ_discrete nsid n) [
          | yes q ↦
              subst (λ i. find_info i n ≡ some (info_of lib n ns)) (sym same)
                (subst (λ m. find_info (found m rest) n ≡ some (info_of lib n ns)) (sym q)
                  (find_info-found_self n ns rest ns_e))
          | no d ↦
              subst (λ i. find_info i n ≡ some (info_of lib n ns)) (sym same)
                (find_info-found_ne nsid n rest d
                  ∙ collect_complete fuel (lib.next_active_ns ctrlr nsid) (k - 1) n ns rest r
                      (later nsid k n nz d v) ne ns_e)
        ]
      ]

  find_info-found_cases :
      (nsid n : ℕ) (infos : List NamespaceInfo) (info : NamespaceInfo)
      → find_info (found nsid infos) n ≡ some info
      → (lib.ns_of ctrlr n ≡ some info.ns) × (info ≡ info_of lib n info.ns)
        ⊎ (find_info infos n ≡ some info)
  unfolding find_info found
  find_info-found_cases nsid n infos info e = elim (Option-cases (lib.ns_of ctrlr nsid)) [
    | inl z ↦ inr (ground (arith, z, e))
    | inr (ns, z) ↦ elim (ℕ_discrete nsid n) [
      | yes q ↦ inl (ground (arith, z, q, e), ground (arith, z, q, e))
      | no d ↦ inr (ground (arith, z, d, e))
    ]
  ]

  collect_sound :
      (fuel nsid n : ℕ) (infos : List NamespaceInfo) (info : NamespaceInfo)
      → collect lib ctrlr fuel nsid ≡ some infos
      → find_info infos n ≡ some info
      → (lib.ns_of ctrlr n ≡ some info.ns) × (info ≡ info_of lib n info.ns)
  unfolding collect find_info
  collect_sound zero nsid n infos info e f = absurd (cc e)
  collect_sound (suc fuel) nsid n infos info e f = elim (collect-cases fuel nsid infos e) [
    | inl (z, empty) ↦ absurd (cc (ap (λ i. find_info i n) empty, f))
    | inr (nz, rest, r, same) ↦
        elim (find_info-found_cases nsid n rest info (ap (λ i. find_info i n) (sym same) ∙ f)) [
          | inl here ↦ here
          | inr there ↦ collect_sound fuel (lib.next_active_ns ctrlr nsid) n rest info r there
        ]
  ]

-- What is kept of a namespace is what SPDK says of it.
abbrev pub Named : Library → ℕ → NamespaceInfo → Type 0
Named lib ctrlr info =
    (lib.ns_of ctrlr info.nsid ≡ some info.ns) × (info.size_blocks ≡ lib.num_sectors info.ns)

found-Named :
    (lib : Library) (ctrlr nsid : ℕ) (infos : List NamespaceInfo)
    → All (Named lib ctrlr) infos
    → All (Named lib ctrlr) (found lib ctrlr nsid infos)
unfolding found
found-Named lib ctrlr nsid infos all = elim (Option-cases (lib.ns_of ctrlr nsid)) [
  | inl e ↦ rw (e, found) all
  | inr (ns, e) ↦ rw (e, found) ((e, refl), all)
]

collect-Named :
    (lib : Library) (ctrlr fuel nsid : ℕ) (infos : List NamespaceInfo)
    → collect lib ctrlr fuel nsid ≡ some infos
    → All (Named lib ctrlr) infos
unfolding collect
collect-Named lib ctrlr zero nsid infos e = absurd (cc e)
collect-Named lib ctrlr (suc fuel) nsid infos e = elim (collect-cases lib ctrlr fuel nsid infos e) [
  | inl (z, empty) ↦ subst (All (Named lib ctrlr)) (sym empty) tt
  | inr (nz, rest, r, same) ↦
      let all = collect-Named lib ctrlr fuel (lib.next_active_ns ctrlr nsid) rest r in
      subst (All (Named lib ctrlr)) (sym same) (found-Named lib ctrlr nsid rest all)
]

discover_namespaces-of :
    (lib : Library) (ctrlr : ℕ) (rest : List ℕ) (c : SpdkContext) (infos : List NamespaceInfo)
    → c.ctrlrs ≡ ctrlr ∷ rest
    → collect lib ctrlr u32_mod (lib.first_active_ns ctrlr) ≡ some infos
    → discover_namespaces lib c ≡ some (record c { namespaces = infos })
unfolding discover_namespaces
discover_namespaces-of lib ctrlr rest c infos e run = ground (arith, e, run)

get_ns-of :
    (lib : Library) (ctrlr : ℕ) (rest : List ℕ) (c : SpdkContext) (n : ℕ)
    → c.ctrlrs ≡ ctrlr ∷ rest
    → get_ns lib c n ≡ lib.ns_of ctrlr n
unfolding get_ns
get_ns-of lib ctrlr rest c n e = ground (arith, e)

-- The namespaces that the walk visits and SPDK knows, and no others, with what SPDK says of them.
pub record Discovered (lib : Library) (ctrlr : ℕ) (c : SpdkContext) : Type 0 where
  pub named : All (Named lib ctrlr) c.namespaces
  pub complete :
      (k n ns : ℕ)
      → visited lib ctrlr (lib.first_active_ns ctrlr) k ≡ n
      → n ≢ 0
      → lib.ns_of ctrlr n ≡ some ns
      → get_ns_info c n ≡ some (info_of lib n ns)
  pub sound :
      (n : ℕ) (info : NamespaceInfo)
      → get_ns_info c n ≡ some info
      → (get_ns lib c n ≡ some info.ns) × (info ≡ info_of lib n info.ns)

-- With a controller whose walk ascends, the loop over its namespaces ends, changes nothing else, and
-- `get_ns_info` then answers for each namespace that the walk visits with what SPDK says of it, and
-- for a number that it knows with the namespace that `get_ns` gives.
pub discover_namespaces_total :
    (lib : Library) (ctrlr : ℕ) (rest : List ℕ) (c : SpdkContext)
    → c.ctrlrs ≡ ctrlr ∷ rest
    → Ascending lib ctrlr
    → (infos : List NamespaceInfo) × (discover_namespaces lib c
        ≡ some (record c { namespaces = infos }))
      × Discovered lib ctrlr (record c { namespaces = infos })
unfolding get_ns_info
discover_namespaces_total lib ctrlr rest c e up =
    let (infos, run) =
      collect_total lib ctrlr up u32_mod (lib.first_active_ns ctrlr)
        (ground (arith, up.first_word)) in
    (
      infos,
      discover_namespaces-of lib ctrlr rest c infos e run,
      record {
        named = collect-Named lib ctrlr u32_mod (lib.first_active_ns ctrlr) infos run;
        complete = λ k n ns v ne ns_e.
            collect_complete lib ctrlr u32_mod (lib.first_active_ns ctrlr) k n ns infos run v ne
              ns_e;
        sound = λ n info f.
            let (known, same) =
              collect_sound lib ctrlr u32_mod (lib.first_active_ns ctrlr) n infos info run f in
            (get_ns-of lib ctrlr rest (record c { namespaces = infos }) n e ∙ known, same);
      },
    )
