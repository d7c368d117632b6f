-- ===== src/Spdk/Connect.antt =====
-- SpdkContext::init, its loop over the addresses: the controllers connected, with their addresses.
use Prim.Native.String.{String, len}
use xcopy_block_io.Common.{
  ℕ, ◌+◌, ◌≤◌, ◌<◌, ◌≡◌, ◌⊎◌, refl, inl, inr, List, [], ◌∷◌, ◌++◌, true, false, Option, none, some,
  arith, length, append_nil, append_assoc, Bool-cases, Option-cases, leb, sym, ap, ◌∙◌,
}
use xcopy_block_io.Spdk.{
  Library, SpdkContext, TransportId, trid_for, keep, attach_all, connect_to, connect_all,
}

attach_all_lem :
    (c : SpdkContext) (xs : List ℕ)
    → ((attach_all c xs).ctrlrs ≡ c.ctrlrs)
      × ((attach_all c xs).trids ≡ c.trids)
      × ((attach_all c xs).initialized ≡ c.initialized)
      × ((attach_all c xs).detached ≡ c.detached)
unfolding attach_all
attach_all_lem c [] = (refl, refl, refl, refl)
attach_all_lem c (x ∷ xs) = attach_all_lem (record c { current_ctrlr = some x }) xs

-- The last controller of a list, or `o`.
unfoldable pub last_or : Option ℕ → List ℕ → Option ℕ
last_or o [] = o
last_or o (x ∷ xs) = last_or (some x) xs

attach_all-last_or :
    (c : SpdkContext) (xs : List ℕ) → (attach_all c xs).current_ctrlr ≡ last_or c.current_ctrlr xs
unfolding attach_all last_or
attach_all-last_or c [] = refl
attach_all-last_or c (x ∷ xs) = attach_all-last_or (record c { current_ctrlr = some x }) xs

abbrev pub Fits : Library → TransportId → Type 0
Fits lib t = (len t.traddr < lib.traddr_size) × (len t.trsvcid < lib.trsvcid_size)

-- What a round leaves alone.
pub record Aside (c c' : SpdkContext) : Type 0 where
  pub initialized : c'.initialized ≡ c.initialized
  pub detached : c'.detached ≡ c.detached

module _ (lib : Library) (trsvcid subnqn : String) where
  -- Address `i` gives no controller: it does not fit, or its probe fails or attaches none.
  unfoldable pub Passed : ℕ → String → Type 0
  Passed i traddr =
      let trid = trid_for lib trsvcid subnqn traddr in
      (lib.traddr_size ≤ len traddr)
      ⊎ (lib.trsvcid_size ≤ len trsvcid)
      ⊎ ((lib.probe i trid).0 ≡ false)
      ⊎ (last_or none (lib.probe i trid).1 ≡ none)

  -- Address `i` gives a controller: it fits, and its probe succeeds and attaches that one last.
  pub record Joined (i : ℕ) (traddr : String) (ctrlr : ℕ) : Type 0 where
    pub fit : Fits lib (trid_for lib trsvcid subnqn traddr)
    pub succeeded : (lib.probe i (trid_for lib trsvcid subnqn traddr)).0 ≡ true
    pub attached : last_or none (lib.probe i (trid_for lib trsvcid subnqn traddr)).1 ≡ some ctrlr

  -- The controllers that the addresses from number `i` on give, in order, and beside each what was
  -- probed for it.
  pub data Found : ℕ → List String → List ℕ → List TransportId → Type 0 where
    finished : (i : ℕ) → Found i [] [] []
    passes :
        (i : ℕ) (a : String) (as' : List String) (cs : List ℕ) (ts : List TransportId)
        → Passed i a
        → Found (i + 1) as' cs ts
        → Found i (a ∷ as') cs ts
    joins :
        (i : ℕ) (a : String) (as' : List String) (x : ℕ) (cs : List ℕ) (ts : List TransportId)
        → Joined i a x
        → Found (i + 1) as' cs ts
        → Found i (a ∷ as') (x ∷ cs) (trid_for lib trsvcid subnqn a ∷ ts)

  pub Found-count :
      (i : ℕ) (as' : List String) (cs : List ℕ) (ts : List TransportId)
      → Found i as' cs ts
      → (length ts ≡ length cs) × (length cs ≤ length as')
  Found-count i as' cs ts (finished j) = (refl, omega arith)
  Found-count i as' cs ts (passes j b bs ds us p f) =
      let (same, few) = Found-count (j + 1) bs ds us f in (same, omega (arith, few))
  Found-count i as' cs ts (joins j b bs y ds us k f) =
      let (same, few) = Found-count (j + 1) bs ds us f in (omega (arith, same), omega (arith, few))

  -- A round adds the controller of its address, or leaves both lists alone.
  data Round (i : ℕ) (a : String) (c c' : SpdkContext) : Type 0 where
    skipped : Passed i a → c'.ctrlrs ≡ c.ctrlrs → c'.trids ≡ c.trids → Round i a c c'
    added :
        (ctrlr : ℕ)
        → Joined i a ctrlr
        → c'.ctrlrs ≡ c.ctrlrs ++ (ctrlr ∷ [])
        → c'.trids ≡ c.trids ++ (trid_for lib trsvcid subnqn a ∷ [])
        → Round i a c c'

  keep-Round :
      (i : ℕ) (traddr : String) (c p : SpdkContext)
      → let trid = trid_for lib trsvcid subnqn traddr in
        Fits lib trid
        → (lib.probe i trid).0 ≡ true
        → p.current_ctrlr ≡ last_or none (lib.probe i trid).1
        → p.ctrlrs ≡ c.ctrlrs
        → p.trids ≡ c.trids
        → Round i traddr c (keep trid p) × Aside p (keep trid p)
  unfolding keep Passed
  keep-Round i traddr c p fit good last cs ts = elim (Option-cases p.current_ctrlr) [
    | inl e ↦ (
      skipped (inr (inr (inr (sym last ∙ e)))) (ground (arith, e, cs)) (ground (arith, e, ts)),
      record { initialized = ground (arith, e); detached = ground (arith, e) },
    )
    | inr (x, e) ↦ (
      added x (record { fit = fit; succeeded = good; attached = sym last ∙ e })
          (ground (arith, e, cs)) (ground (arith, e, ts)),
      record { initialized = ground (arith, e); detached = ground (arith, e) },
    )
  ]

  connect_to-Round :
      (i : ℕ) (traddr : String) (c : SpdkContext)
      → Round i traddr c (connect_to lib trsvcid subnqn i traddr c)
        × Aside c (connect_to lib trsvcid subnqn i traddr c)
  unfolding connect_to Passed
  connect_to-Round i traddr c =
      let trid = trid_for lib trsvcid subnqn traddr in
      let fresh = record c { current_ctrlr = none } in
      let p = attach_all fresh (lib.probe i trid).1 in
      let (cs, ts, initialized, detached) = attach_all_lem fresh (lib.probe i trid).1 in
      let same : Aside c p = record { initialized = initialized; detached = detached } in
      let idle : Aside c c = record { initialized = refl; detached = refl } in
      elim (Bool-cases (leb lib.traddr_size (len traddr))) [
        | inl e ↦ rw (e, connect_to) (skipped (inl (ground (arith, e))) refl refl, idle)
        | inr e ↦ elim (Bool-cases (leb lib.trsvcid_size (len trsvcid))) [
          | inl f ↦ rw (e, f, connect_to) (skipped (inr (inl (ground (arith, f)))) refl refl, idle)
          | inr f ↦ elim (Bool-cases (lib.probe i trid).0) [
            | inr g ↦ rw (e, f, g, connect_to) (skipped (inr (inr (inl g))) cs ts, same)
            | inl g ↦
                let last = attach_all-last_or fresh (lib.probe i trid).1 in
                let (round, aside) =
                  keep-Round i traddr c p (ground (arith, e), ground (arith, f)) g last cs ts in
                rw (e, f, g, connect_to)
                  (
                    round,
                    record {
                      initialized = aside.initialized ∙ initialized;
                      detached = aside.detached ∙ detached;
                    },
                  )
          ]
        ]
      ]

  -- The loop adds, behind the lists, what the addresses give.
  pub record Connected (i : ℕ) (traddrs : List String) (c c' : SpdkContext) : Type 0 where
    pub new_ctrlrs : List ℕ
    pub new_trids : List TransportId
    pub found : Found i traddrs new_ctrlrs new_trids
    pub ctrlrs : c'.ctrlrs ≡ c.ctrlrs ++ new_ctrlrs
    pub trids : c'.trids ≡ c.trids ++ new_trids
    pub aside : Aside c c'

  round-Connected :
      (i : ℕ) (a : String) (as' : List String) (c d c' : SpdkContext)
      → Round i a c d
      → Aside c d
      → Connected (i + 1) as' d c'
      → Connected i (a ∷ as') c c'
  round-Connected i a as' c d c' (skipped p cs ts) aside k = record {
    new_ctrlrs = k.new_ctrlrs;
    new_trids = k.new_trids;
    found = passes i a as' k.new_ctrlrs k.new_trids p k.found;
    ctrlrs = k.ctrlrs ∙ ap (λ l. l ++ k.new_ctrlrs) cs;
    trids = k.trids ∙ ap (λ l. l ++ k.new_trids) ts;
    aside = record {
      initialized = k.aside.initialized ∙ aside.initialized;
      detached = k.aside.detached ∙ aside.detached;
    };
  }
  round-Connected i a as' c d c' (added x j cs ts) aside k =
      let t = trid_for lib trsvcid subnqn a in
      record {
        new_ctrlrs = x ∷ k.new_ctrlrs;
        new_trids = t ∷ k.new_trids;
        found = joins i a as' x k.new_ctrlrs k.new_trids j k.found;
        ctrlrs =
            k.ctrlrs ∙ ap (λ l. l ++ k.new_ctrlrs) cs ∙ append_assoc c.ctrlrs (x ∷ []) k.new_ctrlrs;
        trids = k.trids ∙ ap (λ l. l ++ k.new_trids) ts ∙ append_assoc c.trids (t ∷ []) k.new_trids;
        aside = record {
          initialized = k.aside.initialized ∙ aside.initialized;
          detached = k.aside.detached ∙ aside.detached;
        };
      }

  pub connect_all-Connected :
      (i : ℕ) (traddrs : List String) (c : SpdkContext)
      → Connected i traddrs c (connect_all lib trsvcid subnqn i traddrs c)
  unfolding connect_all
  connect_all-Connected i [] c = record {
    new_ctrlrs = [];
    new_trids = [];
    found = finished i;
    ctrlrs = sym (append_nil c.ctrlrs);
    trids = sym (append_nil c.trids);
    aside = record { initialized = refl; detached = refl };
  }
  connect_all-Connected i (t ∷ ts) c =
      let d = connect_to lib trsvcid subnqn i t c in
      let (round, aside) = connect_to-Round i t c in
      round-Connected i t ts c d (connect_all lib trsvcid subnqn (i + 1) ts d) round aside
        (connect_all-Connected (i + 1) ts d)
