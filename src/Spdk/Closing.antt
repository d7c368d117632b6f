-- ===== src/Spdk/Closing.antt =====
-- SpdkContext::cleanup and delete_qpair: what is given back.
use xcopy_block_io.Common.{
  ℕ, ◌≡◌, refl, inl, inr, List, [], ◌∷◌, ◌++◌, Option, none, some, arith, append_nil, Option-cases,
}
use xcopy_block_io.Spdk.{
  Library, SpdkContext, cleanup, get_ns, get_ns_info, get_ctrlr, create_qpair, delete_qpair,
}

-- Where there is a controller, `delete_qpair` frees what it is given.
pub delete_qpair-get_ctrlr :
    (c : SpdkContext) (index ctrlr q : ℕ)
    → get_ctrlr c index ≡ some ctrlr
    → delete_qpair c (some q) ≡ some q
unfolding get_ctrlr delete_qpair
delete_qpair-get_ctrlr c index ctrlr q e = go c.ctrlrs refl
  where
    go :
        (cs : List ℕ)
        → c.ctrlrs ≡ cs
        → elim c.ctrlrs as (λ l. Option ℕ) [ [] ↦ none | x ∷ xs ↦ some q ] ≡ some q
    go [] f = ground (arith, e, f)
    go (x ∷ xs) f = rw f refl

-- After `cleanup` the context refuses every question about controllers and namespaces and gives no
-- queue pair, the controllers it had have been detached once each, in order, and a second `cleanup`
-- detaches none.
pub cleanup_lem :
    (lib : Library) (c : SpdkContext)
    → ((cleanup c).detached ≡ c.detached ++ c.ctrlrs)
      × ((cleanup (cleanup c)).detached ≡ c.detached ++ c.ctrlrs)
      × ((n : ℕ) → get_ctrlr (cleanup c) n ≡ none)
      × ((n : ℕ) → get_ns lib (cleanup c) n ≡ none)
      × ((n : ℕ) → get_ns_info (cleanup c) n ≡ none)
      × ((depth n : ℕ) → create_qpair lib (cleanup c) depth n ≡ none)
      × ((q : Option ℕ) → delete_qpair (cleanup c) q ≡ none)
unfolding cleanup get_ctrlr get_ns get_ns_info create_qpair delete_qpair
cleanup_lem lib c = (
  refl,
  append_nil (c.detached ++ c.ctrlrs),
  (λ n. ground arith),
  (λ n. refl),
  (λ n. refl),
  (λ depth n. refl),
  (λ q. elim (Option-cases q) [ inl e ↦ rw e refl | inr (x, e) ↦ rw e refl ]),
)
