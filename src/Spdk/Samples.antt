-- ===== src/Spdk/Samples.antt =====
-- What the tests take the libraries to answer.
use xcopy_block_io.Common.{
  ℕ, ◌+◌, [], ◌∷◌, true, false, none, some, arith, ◌==◌, ltb, if◌then◌else◌,
}
use xcopy_block_io.Spdk.{Library}
use xcopy_block_io.Spdk.Discover.{Ascending}

-- A target with two controllers, 7 and 8; the probe of the second address finds none. Each controller
-- has namespaces 1 and 3, of which SPDK can name the first.
abbrev pub target : Library
target = record {
  traddr_size = 257;
  trsvcid_size = 33;
  subnqn_size = 224;
  env_ready = true;
  mempool = record { created = true; ops_set = true; populated = true };
  thread_lib_1024 = false;
  thread_lib_256 = true;
  thread_lib = true;
  tcp_named = true;
  tcp_available = true;
  probe =
      λ i trid. if i == 0 then (true, 7 ∷ []) else if i == 1 then (true, []) else (true, 8 ∷ []);
  first_active_ns = λ ctrlr. 1;
  next_active_ns = λ ctrlr nsid. if ltb nsid 3 then 3 else 0;
  ns_of = λ ctrlr nsid. if nsid == 1 then some 100 else none;
  num_sectors = λ ns. 4096;
  sector_size = λ ns. 512;
  alloc_io_qpair = λ ctrlr depth. some (ctrlr + depth);
}

pub target-Ascending : (ctrlr : ℕ) → Ascending target ctrlr
target-Ascending ctrlr = record {
  first_word = ground arith;
  up = λ nsid nz. ground (arith, nz);
  word = λ nsid. ground arith;
}
