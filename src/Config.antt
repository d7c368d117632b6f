-- ===== src/Config.antt =====
-- src/config_manager.cpp: the configuration, its validation, and the options of the command line.
-- `getopt_long` of the C library turns the arguments into the sequence of options; `strtoul` and
-- `strtoull` read the numbers and are the parameter `number`. `Print` has what is printed of a configuration.
pub mod Options
pub mod Parse
pub mod Print
mod Tests
use Prim.Native.String.{String}
use xcopy_block_io.Common.{
  ℕ, zero, suc, ◌+◌, ◌%◌, List, [], ◌∷◌, ◌++◌, Option, none, some, Bool, true, false, ltb, ◌==◌,
  if◌then◌else◌, u32_mod, u64_mod,
}

pub record Config : Type 0 where
  pub traddrs : List String
  pub trsvcid : String
  pub hostnqn : String
  pub subnqn : String
  pub runtime_sec : ℕ
  pub iodepth : ℕ
  pub num_cores : ℕ
  pub max_ranges : ℕ
  pub fixed_ranges : ℕ
  pub dst_nsid : ℕ
  pub src_nsids : List ℕ
  pub dst_lba_start : ℕ
  pub dst_lba_end : ℕ
  pub range_size : ℕ
  pub enable_cross_namespace : Bool
  pub json_output : Bool
  pub verbose : Bool
  pub status_interval_ms : ℕ

abbrev pub default_config : Config
default_config = record {
  traddrs = [];
  trsvcid = "4420";
  hostnqn = "";
  subnqn = "";
  runtime_sec = 10;
  iodepth = 64;
  num_cores = 1;
  max_ranges = 1;
  fixed_ranges = 0;
  dst_nsid = 1;
  src_nsids = [];
  dst_lba_start = 0;
  dst_lba_end = 0;
  range_size = 2048;
  enable_cross_namespace = false;
  json_output = false;
  verbose = false;
  status_interval_ms = 1000;
}

pub is_empty {ℓ} : {A : Type ℓ} → List A → Bool
is_empty [] = true
is_empty (x ∷ xs) = false

pub validate : Config → Bool
unfolding is_empty
validate c =
    if is_empty c.traddrs
    then false
    else (if c.iodepth == 0
        then false
        else (if c.num_cores == 0
            then false
            else (if c.max_ranges == 0
                then false
                else (if ltb 16 c.max_ranges
                    then false
                    else (if ltb 16 c.fixed_ranges
                        then false
                        else (if exceeds c
                            then false
                            else (if c.dst_nsid == 0
                                then false
                                else (if c.range_size == 0 then false else true))))))))
  where
    exceeds : Config → Bool
    exceeds c = if ltb 0 c.fixed_ranges then ltb c.max_ranges c.fixed_ranges else false

-- What `getopt_long` answers at each call until it answers -1: the option, with its argument.
-- `help_opt` is 'h'; `unknown_opt` is all that the switch leaves to its default.
pub data CmdOption : Type 0 where
  traddr_opt trsvcid_opt hostnqn_opt subnqn_opt : String → CmdOption
  runtime_opt iodepth_opt num_cores_opt max_ranges_opt fixed_ranges_opt : String → CmdOption
  dst_nsid_opt src_nsid_opt dst_lba_start_opt dst_lba_end_opt range_size_opt : String → CmdOption
  status_interval_opt : String → CmdOption
  enable_cross_ns_opt json_opt verbose_opt help_opt unknown_opt : CmdOption

-- The values 0, -1 and 1 of `parse_args`.
pub data Status : Type 0 where
  parsed rejected helped : Status

-- The switch, for the options that set a field.
pub set_field : (String → ℕ) → CmdOption → Config → Config
set_field number (traddr_opt s) c = record c { traddrs = c.traddrs ++ (s ∷ []) }
set_field number (trsvcid_opt s) c = record c { trsvcid = s }
set_field number (hostnqn_opt s) c = record c { hostnqn = s }
set_field number (subnqn_opt s) c = record c { subnqn = s }
set_field number (runtime_opt s) c = record c { runtime_sec = number s % u64_mod }
set_field number (iodepth_opt s) c = record c { iodepth = number s % u32_mod }
set_field number (num_cores_opt s) c = record c { num_cores = number s % u32_mod }
set_field number (max_ranges_opt s) c = record c { max_ranges = number s % u32_mod }
set_field number (fixed_ranges_opt s) c = record c { fixed_ranges = number s % u32_mod }
set_field number (dst_nsid_opt s) c = record c { dst_nsid = number s % u32_mod }
set_field number (src_nsid_opt s) c = record c {
  src_nsids = c.src_nsids ++ (number s % u32_mod ∷ []);
}
set_field number (dst_lba_start_opt s) c = record c { dst_lba_start = number s % u64_mod }
set_field number (dst_lba_end_opt s) c = record c { dst_lba_end = number s % u64_mod }
set_field number (range_size_opt s) c = record c { range_size = number s % u64_mod }
set_field number (status_interval_opt s) c = record c { status_interval_ms = number s % u32_mod }
set_field number enable_cross_ns_opt c = record c { enable_cross_namespace = true }
set_field number json_opt c = record c { json_output = true }
set_field number verbose_opt c = record c { verbose = true }
set_field number help_opt c = c
set_field number unknown_opt c = c

-- The source namespaces are the destination's if none is given.
pub default_sources : Config → Config
unfolding is_empty
default_sources c =
    if is_empty c.src_nsids then record c { src_nsids = c.src_nsids ++ (c.dst_nsid ∷ []) } else c

-- After the loop.
pub conclude : Config → Status × Config
unfolding default_sources validate
conclude c = let c' = default_sources c in if validate c' then (parsed, c') else (rejected, c')

-- The options at which the switch returns: true for 'h', false for those it does not know.
pub stops : CmdOption → Option Bool
stops help_opt = some true
stops unknown_opt = some false
stops o = none

-- The value returned and the configuration, which the options before the return have changed.
pub parse_args : (String → ℕ) → List CmdOption → Config → Status × Config
unfolding conclude set_field stops
parse_args number [] c = conclude c
parse_args number (o ∷ os) c = elim (stops o) [
  | some asked ↦ (if asked then helped else rejected, c)
  | none ↦ parse_args number os (set_field number o c)
]
