-- ===== src/Config/Parse.antt =====
-- Config::validate and ConfigManager::parse_args: which configurations get through.
use Prim.Native.String.{String}
use xcopy_block_io.Common.{
  ℕ, ◌≤◌, ◌<◌, ◌≡◌, ◌≢◌, ◌↔◌, refl, inl, inr, List, [], ◌∷◌, ◌++◌, true, false, arith, Bool-cases,
  Option-cases,
}
use xcopy_block_io.Config.{
  parsed, stops, Config, CmdOption, is_empty, validate, set_field, default_sources, conclude,
  parse_args,
}

-- What the messages of `validate` ask for.
pub record IsValid (c : Config) : Type 0 where
  pub some_traddr : c.traddrs ≢ []
  pub iodepth : 0 < c.iodepth
  pub num_cores : 0 < c.num_cores
  pub max_ranges : (1 ≤ c.max_ranges) × (c.max_ranges ≤ 16)
  pub fixed_ranges : c.fixed_ranges ≤ c.max_ranges
  pub dst_nsid : 0 < c.dst_nsid
  pub range_size : 0 < c.range_size

is_empty-false {ℓ} : {A : Type ℓ} (xs : List A) → (is_empty xs ≡ false) ↔ (xs ≢ [])
unfolding is_empty
is_empty-false [] = (λ e. absurd cc, λ n. absurd (n refl))
is_empty-false (x ∷ xs) = (λ e z. cc, λ n. refl)

-- `validate` accepts exactly the valid configurations.
pub validate-IsValid : (c : Config) → (validate c ≡ true) ↔ IsValid c
unfolding validate
validate-IsValid c = (
  λ e. record {
    some_traddr = (is_empty-false c.traddrs).0 (ground (arith, e));
    iodepth = ground (arith, e);
    num_cores = ground (arith, e);
    max_ranges = (ground (arith, e), ground (arith, e));
    fixed_ranges = ground (arith, e);
    dst_nsid = ground (arith, e);
    range_size = ground (arith, e);
  },
  λ v.
      let given = (is_empty-false c.traddrs).1 v.some_traddr in
      ground (
        arith, given, v.iodepth, v.num_cores, v.max_ranges, v.fixed_ranges, v.dst_nsid,
        v.range_size,
      ),
)

append_ne {ℓ} : {A : Type ℓ} (xs : List A) (x : A) → xs ++ (x ∷ []) ≢ []
append_ne [] x e = cc
append_ne (y ∷ xs) x e = cc

default_sources_given : (c : Config) → (default_sources c).src_nsids ≢ []
unfolding default_sources
default_sources_given c z = elim (Bool-cases (is_empty c.src_nsids)) [
  | inl e ↦ append_ne c.src_nsids c.dst_nsid (ground (arith, e, z))
  | inr e ↦ (is_empty-false c.src_nsids).0 e (ground (arith, e, z))
]

-- With a source namespace given by default, an accepted configuration is complete.
pub conclude-IsValid :
    (c : Config)
    → (conclude c).0 ≡ parsed
    → IsValid (conclude c).1 × ((conclude c).1.src_nsids ≢ [])
unfolding conclude
conclude-IsValid c e = elim (Bool-cases (validate (default_sources c))) [
  | inl v ↦ rw v ((validate-IsValid (default_sources c)).0 v, default_sources_given c)
  | inr v ↦ absurd (ground (arith, e, v))
]

module _ (number : String → ℕ) where
  -- A configuration that `parse_args` accepts is valid, and has a source namespace.
  pub parse_args-IsValid :
      (os : List CmdOption) (c : Config)
      → (parse_args number os c).0 ≡ parsed
      → IsValid (parse_args number os c).1 × ((parse_args number os c).1.src_nsids ≢ [])
  unfolding parse_args
  parse_args-IsValid [] c e = conclude-IsValid c e
  parse_args-IsValid (o ∷ os) c e = elim (Option-cases (stops o)) [
    | inl s ↦
        rw (s, parse_args) (parse_args-IsValid os (set_field number o c) (ground (arith, s, e)))
    | inr (b, s) ↦ absurd (ground (arith, s, e))
  ]
