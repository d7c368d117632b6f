-- ===== src/Poll/Reconnect.antt =====
-- PollThreadManager::reconnect_qpair: a new queue pair for a worker that has lost its own.
use xcopy_block_io.Common.{
  ℕ, zero, suc, ◌+◌, ◌*◌, ◌≤◌, ◌<◌, ◌≡◌, refl, ◌⊎◌, inl, inr, List, [], ◌∷◌, Option, none, some,
  arith, Option-cases, sym, ap, ◌∙◌,
}
use xcopy_block_io.Spdk.{Library, SpdkContext, get_ctrlr, create_qpair, delete_qpair}
use xcopy_block_io.Spdk.Closing.{delete_qpair-get_ctrlr}
use xcopy_block_io.Poll.Start.{
  Polled, good, gone, bad, Connection, connected, failed, timed_out, connect,
}

abbrev pub max_reconnect_polls : ℕ
max_reconnect_polls = 10000

freed : Option ℕ → List ℕ
freed none = []
freed (some q) = q ∷ []

-- The queue pair returned, and those deleted. `polls` is what SPDK answers for the new queue pair. The
-- hundred polls after the connection are left out: their answers are not looked at.
pub reconnect_qpair : Library → SpdkContext → (ℕ → Polled) → ℕ → ℕ → Option ℕ × List ℕ
unfolding freed
reconnect_qpair lib c polls qpair_depth ctrlr_index = elim (get_ctrlr c ctrlr_index) [
  | none ↦ (none, [])
  | some ctrlr ↦ elim (create_qpair lib c qpair_depth ctrlr_index) [
    | none ↦ (none, [])
    | some q ↦ elim (connect polls max_reconnect_polls 0) [
      | connected ↦ (some q, [])
      | failed ↦ (none, freed (delete_qpair c (some q)))
      | timed_out ↦ (none, freed (delete_qpair c (some q)))
    ]
  ]
]

Polled-cases : (p : Polled) → (p ≡ good) ⊎ (p ≡ gone) ⊎ (p ≡ bad)
Polled-cases good = inl refl
Polled-cases gone = inr (inl refl)
Polled-cases bad = inr (inr refl)

Connection-cases : (c : Connection) → (c ≡ connected) ⊎ (c ≡ failed) ⊎ (c ≡ timed_out)
Connection-cases connected = inl refl
Connection-cases failed = inr (inl refl)
Connection-cases timed_out = inr (inr refl)

Found : (ℕ → Polled) → ℕ → Type 0
Found polls limit = (j : ℕ) × (j + 1 < limit) × (polls j ≡ good) × (polls (j + 1) ≡ good)

-- A connection that two polls in a row have found good, within the polls that `n` rounds make.
connect-Found :
    (polls : ℕ → Polled) (n k : ℕ) → connect polls n k ≡ connected → Found polls (k + 2 * n)
unfolding connect Found
connect-Found polls zero k e = cc
connect-Found polls (suc n) k e = elim (Polled-cases (polls k)) [
  | inr (inl f) ↦ absurd (gone_failed f)
  | inr (inr f) ↦ sooner (k + 1 + 2 * n) (connect-Found polls n (k + 1) (after_bad f)) (omega arith)
  | inl f ↦ elim (Polled-cases (polls (k + 1))) [
    | inl h ↦ (k, omega arith, f, h)
    | inr (inl h) ↦
        sooner (k + 2 + 2 * n) (connect-Found polls n (k + 2) (after_second f (inl h)))
          (omega arith)
    | inr (inr h) ↦
        sooner (k + 2 + 2 * n) (connect-Found polls n (k + 2) (after_second f (inr h)))
          (omega arith)
  ]
]
  where
    sooner : (l : ℕ) → Found polls l → l ≤ k + 2 * suc n → Found polls (k + 2 * suc n)
    sooner l (j, h, a, b) le = (j, omega (arith, h, le), a, b)

    gone_failed : polls k ≡ gone → ⊥
    gone_failed f =
        let g : connect polls (suc n) k ≡ failed = rw (f, connect) refl in
        let differ : failed ≡ connected = sym g ∙ e in cc

    after_bad : polls k ≡ bad → connect polls n (k + 1) ≡ connected
    after_bad f =
        let g : connect polls (suc n) k ≡ connect polls n (k + 1) = rw (f, connect) refl in
        sym g ∙ e

    after_second :
        polls k ≡ good
        → (polls (k + 1) ≡ gone) ⊎ (polls (k + 1) ≡ bad)
        → connect polls n (k + 2) ≡ connected
    after_second f (inl h) =
        let g : connect polls (suc n) k ≡ connect polls n (k + 2) = rw (f, h, connect) refl in
        sym g ∙ e
    after_second f (inr h) =
        let g : connect polls (suc n) k ≡ connect polls n (k + 2) = rw (f, h, connect) refl in
        sym g ∙ e

-- What a reconnection gives: the queue pair that SPDK made, found connected, and none deleted; or none,
-- and the one that SPDK made, if it did, deleted.
pub Reconnected : Library → SpdkContext → (ℕ → Polled) → ℕ → ℕ → Option ℕ × List ℕ → Type 0
Reconnected lib c polls depth index r =
    ((q : ℕ) × (create_qpair lib c depth index ≡ some q)
      × (r ≡ (some q, []))
      × Found polls (2 * max_reconnect_polls))
    ⊎ ((q : ℕ) × (create_qpair lib c depth index ≡ some q) × (r ≡ (none, q ∷ [])))
    ⊎ (((get_ctrlr c index ≡ none) ⊎ (create_qpair lib c depth index ≡ none)) × (r ≡ (none, [])))

-- Whatever SPDK answers, reconnecting gives the queue pair that SPDK made at the index, after two polls
-- in a row have found it connected, and deletes none; or it gives none and deletes the one that SPDK
-- made; or SPDK made none, or there is no controller, and it deletes none.
pub reconnect_qpair-Reconnected :
    (lib : Library) (c : SpdkContext) (polls : ℕ → Polled) (depth index : ℕ)
    → Reconnected lib c polls depth index (reconnect_qpair lib c polls depth index)
unfolding Reconnected freed reconnect_qpair
reconnect_qpair-Reconnected lib c polls depth index = elim (Option-cases (get_ctrlr c index)) [
  | inl e ↦ inr (inr (inl e, rw (e, reconnect_qpair) refl))
  | inr (ctrlr, e) ↦ elim (Option-cases (create_qpair lib c depth index)) [
    | inl f ↦ inr (inr (inr f, rw (e, f, reconnect_qpair) refl))
    | inr (q, f) ↦
        let gives_back = ap freed (delete_qpair-get_ctrlr c index ctrlr q e) in
        elim (Connection-cases (connect polls max_reconnect_polls 0)) [
          | inl g ↦ inl (
            q,
            f,
            rw (e, f, g, reconnect_qpair) refl,
            connect-Found polls max_reconnect_polls 0 g,
          )
          | inr (inl g) ↦
              inr (inl (q, f, rw (e, f, g, reconnect_qpair) (ap (λ l. (none, l)) gives_back)))
          | inr (inr g) ↦
              inr (inl (q, f, rw (e, f, g, reconnect_qpair) (ap (λ l. (none, l)) gives_back)))
        ]
  ]
]
