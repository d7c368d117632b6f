-- ===== src/Config/Options.antt =====
-- ConfigManager::parse_args: which option sets which field of the configuration, field by field.
use Prim.Native.String.{String}
use xcopy_block_io.Common.{
  ℕ, ◌%◌, List, [], ◌∷◌, ◌++◌, Bool, true, Option, none, some, u32_mod, u64_mod,
}
use xcopy_block_io.Config.{
  traddr_opt, trsvcid_opt, hostnqn_opt, subnqn_opt, runtime_opt, iodepth_opt, num_cores_opt,
  max_ranges_opt, fixed_ranges_opt, dst_nsid_opt, src_nsid_opt, dst_lba_start_opt, dst_lba_end_opt,
  range_size_opt, enable_cross_ns_opt, json_opt, verbose_opt, status_interval_opt, Config,
  CmdOption,
}

-- What the last of the options that give a value gives, or `d`.
abbrev pub last_given {ℓ} : {A : Type ℓ} → (CmdOption → Option A) → A → List CmdOption → A
last_given gives d [] = d
last_given gives d (o ∷ os) = last_given gives (elim (gives o) [ none ↦ d | some a ↦ a ]) os

-- All that the options give, in order, after `l`.
abbrev pub all_given {ℓ} : {A : Type ℓ} → (CmdOption → Option A) → List A → List CmdOption → List A
all_given gives l [] = l
all_given gives l (o ∷ os) =
    all_given gives (elim (gives o) [ none ↦ l | some a ↦ l ++ (a ∷ []) ]) os

-- The options with a text, those without, and what each gives.
abbrev traddr_given : CmdOption → Option String
traddr_given (traddr_opt s) = some s
traddr_given o = none

abbrev trsvcid_given : CmdOption → Option String
trsvcid_given (trsvcid_opt s) = some s
trsvcid_given o = none

abbrev hostnqn_given : CmdOption → Option String
hostnqn_given (hostnqn_opt s) = some s
hostnqn_given o = none

abbrev subnqn_given : CmdOption → Option String
subnqn_given (subnqn_opt s) = some s
subnqn_given o = none

abbrev enable_cross_ns_given : CmdOption → Option Bool
enable_cross_ns_given enable_cross_ns_opt = some true
enable_cross_ns_given o = none

abbrev json_given : CmdOption → Option Bool
json_given json_opt = some true
json_given o = none

abbrev verbose_given : CmdOption → Option Bool
verbose_given verbose_opt = some true
verbose_given o = none

module _ (number : String → ℕ) where
  abbrev runtime_given : CmdOption → Option ℕ
  runtime_given (runtime_opt s) = some (number s % u64_mod)
  runtime_given o = none

  abbrev iodepth_given : CmdOption → Option ℕ
  iodepth_given (iodepth_opt s) = some (number s % u32_mod)
  iodepth_given o = none

  abbrev num_cores_given : CmdOption → Option ℕ
  num_cores_given (num_cores_opt s) = some (number s % u32_mod)
  num_cores_given o = none

  abbrev max_ranges_given : CmdOption → Option ℕ
  max_ranges_given (max_ranges_opt s) = some (number s % u32_mod)
  max_ranges_given o = none

  abbrev fixed_ranges_given : CmdOption → Option ℕ
  fixed_ranges_given (fixed_ranges_opt s) = some (number s % u32_mod)
  fixed_ranges_given o = none

  abbrev dst_nsid_given : CmdOption → Option ℕ
  dst_nsid_given (dst_nsid_opt s) = some (number s % u32_mod)
  dst_nsid_given o = none

  abbrev src_nsid_given : CmdOption → Option ℕ
  src_nsid_given (src_nsid_opt s) = some (number s % u32_mod)
  src_nsid_given o = none

  abbrev dst_lba_start_given : CmdOption → Option ℕ
  dst_lba_start_given (dst_lba_start_opt s) = some (number s % u64_mod)
  dst_lba_start_given o = none

  abbrev dst_lba_end_given : CmdOption → Option ℕ
  dst_lba_end_given (dst_lba_end_opt s) = some (number s % u64_mod)
  dst_lba_end_given o = none

  abbrev range_size_given : CmdOption → Option ℕ
  range_size_given (range_size_opt s) = some (number s % u64_mod)
  range_size_given o = none

  abbrev status_interval_given : CmdOption → Option ℕ
  status_interval_given (status_interval_opt s) = some (number s % u32_mod)
  status_interval_given o = none

  -- The configuration that the options ask for.
  abbrev pub asked_for : List CmdOption → Config → Config
  asked_for os c = record {
    traddrs = all_given traddr_given c.traddrs os;
    trsvcid = last_given trsvcid_given c.trsvcid os;
    hostnqn = last_given hostnqn_given c.hostnqn os;
    subnqn = last_given subnqn_given c.subnqn os;
    runtime_sec = last_given runtime_given c.runtime_sec os;
    iodepth = last_given iodepth_given c.iodepth os;
    num_cores = last_given num_cores_given c.num_cores os;
    max_ranges = last_given max_ranges_given c.max_ranges os;
    fixed_ranges = last_given fixed_ranges_given c.fixed_ranges os;
    dst_nsid = last_given dst_nsid_given c.dst_nsid os;
    src_nsids = all_given src_nsid_given c.src_nsids os;
    dst_lba_start = last_given dst_lba_start_given c.dst_lba_start os;
    dst_lba_end = last_given dst_lba_end_given c.dst_lba_end os;
    range_size = last_given range_size_given c.range_size os;
    enable_cross_namespace = last_given enable_cross_ns_given c.enable_cross_namespace os;
    json_output = last_given json_given c.json_output os;
    verbose = last_given verbose_given c.verbose os;
    status_interval_ms = last_given status_interval_given c.status_interval_ms os;
  }
