-- ===== src/Main/Prepare.antt =====
-- The start of `main`: what has been checked and set up when the threads start.
use Prim.Native.String.{String}
use xcopy_block_io.Common.{
  ℕ, ◌≤◌, ◌<◌, ◌≡◌, ◌≢◌, ◌⊎◌, [], Bool, none, true, false, Option, some, u64_mod,
}
use xcopy_block_io.Config.{Config, Status, parsed}
use xcopy_block_io.Config.Parse
use xcopy_block_io.Spdk
use xcopy_block_io.Spdk.{Library, SpdkContext, NamespaceInfo, get_ns_info, get_ns}
use xcopy_block_io.Spdk.Discover.{Ascending}
use xcopy_block_io.Lba
use xcopy_block_io.Lba.{LbaManager}
use xcopy_block_io.Lba.Bounds
use xcopy_block_io.Generator.{XcopyGenerator, get_ns_size}
use xcopy_block_io.Poll.Start.{PollThreadManager}
use xcopy_block_io.Main.{Prepared, refused, ready}

-- What SPDK documents of namespaces, besides the walk: their pointers know their numbers, and their
-- sizes have 64 bits.
pub record Consistent (lib : Library) (ns_id : ℕ → ℕ) : Type 0 where
  pub walks : (ctrlr : ℕ) → Ascending lib ctrlr
  pub known : (ctrlr nsid ns : ℕ) → lib.ns_of ctrlr nsid ≡ some ns → ns_id ns ≡ nsid
  pub word : (ns : ℕ) → lib.num_sectors ns < u64_mod

-- The objects at the start of the threads, made from a valid configuration with a source namespace: the
-- destination is a namespace of the target, the generator finds it with the size of the LBA manager's
-- namespace, and the LBA manager is valid unless the first block of the window lies at its end or later.
pub record Agrees (lib : Library) (config : Config) (c : SpdkContext) (m : LbaManager)
    (g : XcopyGenerator) (p : PollThreadManager) : Type 0 where
  pub valid : Parse.IsValid config
  pub opened : c.initialized ≡ true
  pub info : NamespaceInfo
  pub destination : get_ns lib c g.dst_nsid ≡ some info.ns
  pub size : get_ns_size g.namespaces g.dst_nsid ≡ m.namespace_size
  pub window : (m.dst_end ≤ config.dst_lba_start) ⊎ Bounds.IsValid m
  pub ranges : (1 ≤ g.max_ranges) × (g.max_ranges ≤ 16) × (g.fixed_ranges ≤ g.max_ranges)
  pub sources : g.src_nsids ≢ []
  pub workers :
      (0 < p.num_cores) × (0 < p.iodepth) × (0 < p.range_size) × (p.max_ranges ≡ g.max_ranges)

-- What `init` of the context makes of the configuration, in `main`.
abbrev pub opened : Library → Config → Option (Bool × SpdkContext)
opened lib config =
    Spdk.init lib config.traddrs config.trsvcid config.hostnqn config.subnqn
      (Spdk.set_verbose config.verbose Spdk.new_context)

-- A return of 1 before the threads start: the options did not get through or `init` failed, and nothing
-- is detached, or the destination is not found, and the controllers that `init` listed are detached.
-- The context lists none then.
pub record Refused (lib : Library) (status : Status) (config : Config) (c : SpdkContext)
    : Type 0 where
  pub initialized : c.initialized ≡ false
  pub no_ctrlr : c.ctrlrs ≡ []
  pub detached :
      (status ≢ parsed) × (c.detached ≡ [])
      ⊎ ((c' : SpdkContext) × (opened lib config ≡ some (false, c'))
          × (c'.ctrlrs ≡ [])
          × (c.detached ≡ []))
      ⊎ (c' : SpdkContext) × (opened lib config ≡ some (true, c'))
        × (get_ns_info c' config.dst_nsid ≡ none)
        × (c.detached ≡ c'.ctrlrs)

pub Start : Library → Status × Config → Option Prepared → Type 0
Start lib (status, config) r =
    ((c : SpdkContext) × (r ≡ some (refused c)) × Refused lib status config c)
    ⊎ ((c : SpdkContext) × (m : LbaManager) × (g : XcopyGenerator) × (p : PollThreadManager) × (r
          ≡ some (ready config c m g p))
        × (status ≡ parsed)
        × Agrees lib config c m g p)
