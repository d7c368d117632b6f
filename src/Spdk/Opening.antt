-- ===== src/Spdk/Opening.antt =====
-- SpdkContext::init: what it leaves, on every way out.
use Prim.Native.String.{String}
use xcopy_block_io.Common.{
  ℕ, ◌≤◌, ◌≡◌, refl, ◌⊎◌, inl, inr, List, [], ◌∷◌, ◌++◌, Bool, true, false, Option, some, arith,
  length, Bool-cases, sym, ap, subst, ◌∙◌,
}
use xcopy_block_io.Spdk.{
  Library, SpdkContext, connect_all, settle, init, choose_threads, discover_namespaces, get_ns,
  get_ns_info,
}
use xcopy_block_io.Spdk.Discover.{Ascending, Discovered, discover_namespaces_total}
use xcopy_block_io.Spdk.Connect.{Found, Found-count, connect_all-Connected}

-- After an `init` that returns 0, of a context with no connections and these addresses.
pub record Opened (lib : Library) (traddrs : List String) (trsvcid subnqn : String)
    (b c : SpdkContext) : Type 0 where
  pub initialized : c.initialized ≡ true
  pub first : ℕ
  pub others : List ℕ
  pub ctrlrs : c.ctrlrs ≡ first ∷ others
  pub found : Found lib trsvcid subnqn 0 traddrs c.ctrlrs c.trids
  pub count : length c.ctrlrs ≤ length traddrs
  pub discovered : Discovered lib first c
  pub detached : c.detached ≡ b.detached

-- After one that returns -1.
pub record Closed (c c' : SpdkContext) : Type 0 where
  pub initialized : c'.initialized ≡ false
  pub no_ctrlr : c'.ctrlrs ≡ []
  pub detached : c'.detached ≡ c.detached

unfoldable pub Outcome :
    Library → List String → String → String → SpdkContext → Option (Bool × SpdkContext) → Type 0
Outcome lib traddrs trsvcid subnqn c r =
    (c' : SpdkContext) × ((r ≡ some (true, c')) × Opened lib traddrs trsvcid subnqn c c'
      ⊎ (r ≡ some (false, c')) × Closed c c')

module _ (lib : Library) (walks : (ctrlr : ℕ) → Ascending lib ctrlr) where
  settle-none : (c : SpdkContext) → c.ctrlrs ≡ [] → settle lib c ≡ some (false, c)
  unfolding settle
  settle-none c e = ground (arith, e)

  settle-some :
      (ctrlr : ℕ) (rest : List ℕ) (c found : SpdkContext)
      → c.ctrlrs ≡ ctrlr ∷ rest
      → discover_namespaces lib c ≡ some found
      → settle lib c ≡ some (true, record found { initialized = true })
  unfolding settle
  settle-some ctrlr rest c found e d = rw (e, d, settle) refl

  Discovered-initialized :
      (ctrlr : ℕ) (d : SpdkContext)
      → Discovered lib ctrlr d
      → Discovered lib ctrlr (record d { initialized = true })
  unfolding get_ns_info get_ns
  Discovered-initialized ctrlr d found = record {
    named = found.named;
    complete = found.complete;
    sound = found.sound;
  }

  settle-Outcome :
      (traddrs : List String) (trsvcid subnqn : String) (b c : SpdkContext) (cs : List ℕ)
      → c.ctrlrs ≡ cs
      → Found lib trsvcid subnqn 0 traddrs c.ctrlrs c.trids
      → c.initialized ≡ false
      → c.detached ≡ b.detached
      → Outcome lib traddrs trsvcid subnqn b (settle lib c)
  unfolding Outcome
  settle-Outcome traddrs trsvcid subnqn b c [] e f idle same =
      (c, inr (settle-none c e, record { initialized = idle; no_ctrlr = e; detached = same }))
  settle-Outcome traddrs trsvcid subnqn b c (x ∷ xs) e f idle same =
      let (infos, run, found) = discover_namespaces_total lib x xs c e (walks x) in
      let (pairs, count) = Found-count lib trsvcid subnqn 0 traddrs c.ctrlrs c.trids f in
      let d = record c { namespaces = infos } in
      let o = record d { initialized = true } in
      let opened : Opened lib traddrs trsvcid subnqn b o = record {
        initialized = refl;
        first = x;
        others = xs;
        ctrlrs = e;
        found = f;
        count = count;
        discovered = Discovered-initialized x d found;
        detached = same;
      } in
      (o, inl (settle-some x xs c d e run, opened))

  init-no_address :
      (trsvcid hostnqn subnqn : String) (c : SpdkContext)
      → c.initialized ≡ false
      → init lib [] trsvcid hostnqn subnqn c ≡ some (false, c)
  unfolding init
  init-no_address trsvcid hostnqn subnqn c idle = ground (arith, idle)

  -- What `init` returns with an address, given what it sets up before the connections.
  init-address :
      (a : String) (rest : List String) (trsvcid hostnqn subnqn : String) (c : SpdkContext)
      → c.initialized ≡ false
      → let named = record c { hostnqn = hostnqn } in
        let ready = record named { use_spdk_threads = choose_threads lib c.use_spdk_threads } in
        let r = init lib (a ∷ rest) trsvcid hostnqn subnqn c in
        (r ≡ some (false, named))
        ⊎ (r ≡ some (false, ready))
        ⊎ (r ≡ settle lib (connect_all lib trsvcid subnqn 0 (a ∷ rest) ready))
  unfolding init
  init-address a rest trsvcid hostnqn subnqn c idle = elim (Bool-cases lib.env_ready) [
    | inr e ↦ inl (rw (idle, e) refl)
    | inl e ↦ elim (Bool-cases lib.tcp_named) [
      | inr f ↦ inr (inl (rw (idle, e, f) refl))
      | inl f ↦ elim (Bool-cases lib.tcp_available) [
        | inr g ↦ inr (inl (rw (idle, e, f, g) refl))
        | inl g ↦ inr (inr (rw (idle, e, f, g) refl))
      ]
    ]
  ]

  -- On a context with no connections, if the walks over namespaces ascend, `init` returns. With 0 the
  -- context is initialised and knows its first controller's namespaces. Its controllers, one at least,
  -- are, in the order of the addresses, those that a successful probe of an address that fits attached
  -- last, each beside what was probed for it; the addresses passed over do not fit, or the probe failed
  -- or attached none. With -1 it is not initialised and lists no controller.
  pub init-Outcome :
      (traddrs : List String) (trsvcid hostnqn subnqn : String) (c : SpdkContext)
      → c.initialized ≡ false
      → c.ctrlrs ≡ []
      → c.trids ≡ []
      → Outcome lib traddrs trsvcid subnqn c (init lib traddrs trsvcid hostnqn subnqn c)
  unfolding Outcome
  init-Outcome [] trsvcid hostnqn subnqn c idle no_ctrlr no_trid = (
    c,
    inr (
      init-no_address trsvcid hostnqn subnqn c idle,
      record { initialized = idle; no_ctrlr = no_ctrlr; detached = refl },
    ),
  )
  init-Outcome (a ∷ rest) trsvcid hostnqn subnqn c idle no_ctrlr no_trid =
      let named = record c { hostnqn = hostnqn } in
      let ready = record named { use_spdk_threads = choose_threads lib c.use_spdk_threads } in
      let k = connect_all-Connected lib trsvcid subnqn 0 (a ∷ rest) ready in
      let connected = connect_all lib trsvcid subnqn 0 (a ∷ rest) ready in
      let ctrlrs = k.ctrlrs ∙ ap (λ l. l ++ k.new_ctrlrs) no_ctrlr in
      let trids = k.trids ∙ ap (λ l. l ++ k.new_trids) no_trid in
      let found : Found lib trsvcid subnqn 0 (a ∷ rest) connected.ctrlrs connected.trids =
        subst (λ ts. Found lib trsvcid subnqn 0 (a ∷ rest) connected.ctrlrs ts) (sym trids)
          (subst (λ cs. Found lib trsvcid subnqn 0 (a ∷ rest) cs k.new_trids) (sym ctrlrs)
            k.found) in
      let settled =
        settle-Outcome (a ∷ rest) trsvcid subnqn c connected connected.ctrlrs refl found
          (k.aside.initialized ∙ idle) k.aside.detached in
      elim (init-address a rest trsvcid hostnqn subnqn c idle) [
        | inl r ↦
            (named, inr (r, record { initialized = idle; no_ctrlr = no_ctrlr; detached = refl }))
        | inr (inl r) ↦
            (ready, inr (r, record { initialized = idle; no_ctrlr = no_ctrlr; detached = refl }))
        | inr (inr r) ↦ subst (Outcome lib (a ∷ rest) trsvcid subnqn c) (sym r) settled
      ]
