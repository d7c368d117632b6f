-- ===== src/Spdk.antt =====
-- src/spdk_context.cpp and include/spdk_context.h: the connections to the target and its namespaces.
-- What SPDK, DPDK and the operating system answer is the parameter `Library`. Controllers, queue pairs
-- and namespaces are the pointers that SPDK gives, as numbers; a null pointer is `none`.
pub mod Discover
pub mod Connect
pub mod Opening
pub mod Closing
pub mod Samples
mod Tests
use Prim.Native.String.{String, len}
use xcopy_block_io.Common.{
  ℕ, zero, suc, ◌+◌, List, [], ◌∷◌, ◌++◌, Bool, true, false, Option, none, some, not, ◌&&◌, ltb,
  leb, ◌==◌, if◌then◌else◌, length, get_elem?, u32_mod,
}

pub record NamespaceInfo : Type 0 where
  pub nsid : ℕ
  pub ns : ℕ
  pub size_blocks : ℕ
  pub block_size : ℕ
  pub sector_size : ℕ

-- struct spdk_nvme_transport_id, the texts that the program writes.
pub record TransportId : Type 0 where
  pub traddr : String
  pub trsvcid : String
  pub subnqn : String

-- The object, and the two static flags of the file. `detached` lists the controllers given back, and
-- `finished` counts the calls of `spdk_thread_lib_fini`.
pub record SpdkContext : Type 0 where
  pub ctrlrs : List ℕ
  pub trids : List TransportId
  pub namespaces : List NamespaceInfo
  pub initialized : Bool
  pub hostnqn : String
  pub current_ctrlr : Option ℕ
  pub use_spdk_threads : Bool
  pub verbose : Bool
  pub detached : List ℕ
  pub finished : ℕ

-- The static functions that read and write the two flags.
abbrev pub is_spdk_threads_enabled : SpdkContext → Bool
is_spdk_threads_enabled c = c.use_spdk_threads

abbrev pub set_spdk_threads_enabled : Bool → SpdkContext → SpdkContext
set_spdk_threads_enabled enabled c = record c { use_spdk_threads = enabled }

abbrev pub is_verbose : SpdkContext → Bool
is_verbose c = c.verbose

abbrev pub set_verbose : Bool → SpdkContext → SpdkContext
set_verbose verbose c = record c { verbose = verbose }

-- Answers of DPDK in `check_dpdk_mempool`.
pub record Mempool : Type 0 where
  pub created : Bool
  pub ops_set : Bool
  pub populated : Bool

-- `traddr_size` and the like are the sizes of the character arrays; a probe answers whether it returned
-- 0, and with the controllers for which it called `attach_cb`, in order.
pub record Library : Type 0 where
  pub traddr_size : ℕ
  pub trsvcid_size : ℕ
  pub subnqn_size : ℕ
  pub env_ready : Bool
  pub mempool : Mempool
  pub thread_lib_1024 : Bool
  pub thread_lib_256 : Bool
  pub thread_lib : Bool
  pub tcp_named : Bool
  pub tcp_available : Bool
  pub probe : ℕ → TransportId → Bool × List ℕ
  pub first_active_ns : ℕ → ℕ
  pub next_active_ns : ℕ → ℕ → ℕ
  pub ns_of : ℕ → ℕ → Option ℕ
  pub num_sectors : ℕ → ℕ
  pub sector_size : ℕ → ℕ
  pub alloc_io_qpair : ℕ → ℕ → Option ℕ

abbrev pub new_context : SpdkContext
new_context = record {
  ctrlrs = [];
  trids = [];
  namespaces = [];
  initialized = false;
  hostnqn = "";
  current_ctrlr = none;
  use_spdk_threads = true;
  verbose = false;
  detached = [];
  finished = 0;
}

-- The pool made for the check is freed again on every path.
pub check_dpdk_mempool : Mempool → Bool
check_dpdk_mempool m = if not m.created then false else if not m.ops_set then false else m.populated

-- The flag after the thread library has been set up, or not.
pub choose_threads : Library → Bool → Bool
unfolding check_dpdk_mempool
choose_threads lib use_spdk_threads =
    let works = check_dpdk_mempool lib.mempool in
    if use_spdk_threads && works
    then if lib.thread_lib_1024 then true else if lib.thread_lib_256 then true else lib.thread_lib
    else if use_spdk_threads && not works
    then false
    else use_spdk_threads

pub attach_cb : SpdkContext → ℕ → SpdkContext
attach_cb c ctrlr = record c { current_ctrlr = some ctrlr }

pub attach_all : SpdkContext → List ℕ → SpdkContext
unfolding attach_cb
attach_all c [] = c
attach_all c (x ∷ xs) = attach_all (attach_cb c x) xs

abbrev pub trid_for : Library → String → String → String → TransportId
trid_for lib trsvcid subnqn traddr = record {
  traddr = traddr;
  trsvcid = trsvcid;
  subnqn = if not (len subnqn == 0) && ltb (len subnqn) lib.subnqn_size then subnqn else "";
}

-- After a probe that succeeded: the controller, if one was attached, joins the others.
pub keep : TransportId → SpdkContext → SpdkContext
keep trid c = elim c.current_ctrlr [
  | none ↦ c
  | some ctrlr ↦ record c { ctrlrs = c.ctrlrs ++ (ctrlr ∷ []); trids = c.trids ++ (trid ∷ []) }
]

-- One round of the loop over the addresses, for address `i`.
pub connect_to : Library → String → String → ℕ → String → SpdkContext → SpdkContext
unfolding attach_all keep
connect_to lib trsvcid subnqn i traddr c =
    let trid = trid_for lib trsvcid subnqn traddr in
    let (succeeded, attached) = lib.probe i trid in
    let probed = attach_all (record c { current_ctrlr = none }) attached in
    if leb lib.traddr_size (len traddr)
    then c
    else if leb lib.trsvcid_size (len trsvcid)
    then c
    else if not succeeded
    then probed
    else keep trid probed

pub connect_all : Library → String → String → ℕ → List String → SpdkContext → SpdkContext
unfolding connect_to
connect_all lib trsvcid subnqn i [] c = c
connect_all lib trsvcid subnqn i (a ∷ as') c =
    connect_all lib trsvcid subnqn (i + 1) as' (connect_to lib trsvcid subnqn i a c)

abbrev pub info_of : Library → ℕ → ℕ → NamespaceInfo
info_of lib nsid ns = record {
  nsid = nsid;
  ns = ns;
  size_blocks = lib.num_sectors ns;
  block_size = lib.sector_size ns;
  sector_size = lib.sector_size ns;
}

-- The loop of `discover_namespaces` from `nsid` on, with fuel; `none` means that it ran out.
pub collect : Library → ℕ → ℕ → ℕ → Option (List NamespaceInfo)
collect lib ctrlr zero nsid = none
collect lib ctrlr (suc fuel) nsid =
    let rest = collect lib ctrlr fuel (lib.next_active_ns ctrlr nsid) in
    if nsid == 0 then some [] else elim rest [
      | none ↦ none
      | some infos ↦ elim (lib.ns_of ctrlr nsid) [
        | none ↦ some infos
        | some ns ↦ some (info_of lib nsid ns ∷ infos)
      ]
    ]

-- A namespace number has 32 bits, so that the loop has at most 2 ^ 32 rounds.
pub discover_namespaces : Library → SpdkContext → Option SpdkContext
discover_namespaces lib c = elim c.ctrlrs [
  | [] ↦ some (record c { namespaces = [] })
  | ctrlr ∷ rest ↦ elim (collect lib ctrlr u32_mod (lib.first_active_ns ctrlr)) [
    | none ↦ none
    | some infos ↦ some (record c { namespaces = infos })
  ]
]

-- The end of `init`, with the addresses probed; true for a return of 0.
pub settle : Library → SpdkContext → Option (Bool × SpdkContext)
unfolding discover_namespaces
settle lib c = elim c.ctrlrs [
  | [] ↦ some (false, c)
  | ctrlr ∷ rest ↦ elim (discover_namespaces lib c) [
    | none ↦ none
    | some found ↦ some (true, record found { initialized = true })
  ]
]

-- `none` stands for a loop over the namespaces that does not end.
pub init :
    Library → List String → String → String → String → SpdkContext → Option (Bool × SpdkContext)
unfolding choose_threads connect_all settle
init lib traddrs trsvcid hostnqn subnqn c =
    let named = record c { hostnqn = hostnqn } in
    let ready = record named { use_spdk_threads = choose_threads lib c.use_spdk_threads } in
    if c.initialized then some (true, c) else (elim traddrs [
      | [] ↦ some (false, c)
      | a ∷ rest ↦
          if not lib.env_ready
          then some (false, named)
          else (if not lib.tcp_named
              then some (false, ready)
              else (if not lib.tcp_available
                  then some (false, ready)
                  else settle lib (connect_all lib trsvcid subnqn 0 (a ∷ rest) ready)))
    ])

pub get_ctrlr_count : SpdkContext → ℕ
get_ctrlr_count c = length c.ctrlrs

pub get_ctrlr : SpdkContext → ℕ → Option ℕ
get_ctrlr c index = if ltb index (length c.ctrlrs) then get_elem? c.ctrlrs index else none

pub get_ns : Library → SpdkContext → ℕ → Option ℕ
get_ns lib c nsid = elim c.ctrlrs [ [] ↦ none | ctrlr ∷ rest ↦ lib.ns_of ctrlr nsid ]

unfoldable pub find_info : List NamespaceInfo → ℕ → Option NamespaceInfo
find_info [] nsid = none
find_info (info ∷ infos) nsid = if info.nsid == nsid then some info else find_info infos nsid

unfoldable pub get_ns_info : SpdkContext → ℕ → Option NamespaceInfo
unfolding find_info
get_ns_info c nsid = find_info c.namespaces nsid

pub supports_cross_namespace_copy : SpdkContext → Bool
supports_cross_namespace_copy c = elim c.ctrlrs [ [] ↦ false | ctrlr ∷ rest ↦ true ]

-- The queue pair that SPDK gives on the controller at an index, with the depth asked for.
pub create_qpair : Library → SpdkContext → ℕ → ℕ → Option ℕ
create_qpair lib c queue_depth ctrlr_index = elim (get_elem? c.ctrlrs ctrlr_index) [
  | none ↦ none
  | some ctrlr ↦ lib.alloc_io_qpair ctrlr queue_depth
]

-- The queue pair freed, if one is.
pub delete_qpair : SpdkContext → Option ℕ → Option ℕ
delete_qpair c none = none
delete_qpair c (some qpair) = elim c.ctrlrs [ [] ↦ none | ctrlr ∷ rest ↦ some qpair ]

unfoldable pub cleanup : SpdkContext → SpdkContext
cleanup c = record c {
  ctrlrs = [];
  trids = [];
  namespaces = [];
  initialized = false;
  detached = c.detached ++ c.ctrlrs;
  finished = if c.use_spdk_threads then c.finished + 1 else c.finished;
}
