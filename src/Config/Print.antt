-- ===== src/Config/Print.antt =====
-- src/config_manager.cpp: what Config::print and ConfigManager::print_usage write.
use Prim.Native.String.{String}
use xcopy_block_io.Common.{
  ℕ, ◌+◌, List, [], ◌∷◌, Bool, ltb, ◌==◌, if◌then◌else◌, length, codes, decimal, write,
}
use xcopy_block_io.Config.{Config, is_empty}

number : ℕ → List ℕ
number n = decimal 20 n

-- The loops over the addresses and over the namespaces, from index `i` on: the texts with commas between.
joined : ℕ → List (List ℕ) → List ℕ → List ℕ
joined i [] rest = rest
joined i (t ∷ ts) rest =
    let after = joined (i + 1) ts rest in
    if ltb 0 i then write (codes ", " ∷ t ∷ []) after else write (t ∷ []) after

texts : List String → List (List ℕ)
texts [] = []
texts (s ∷ ss) = codes s ∷ texts ss

numbers : List ℕ → List (List ℕ)
unfolding number
numbers [] = []
numbers (n ∷ ns) = number n ∷ numbers ns

-- A line that is written only if its text is not empty.
optional : List ℕ → String → List ℕ → List ℕ
optional label s rest =
    if is_empty (codes s) then rest else write (label ∷ codes s ∷ codes "\n" ∷ []) rest

-- The lines from the namespaces on.
print_targets : Config → List ℕ
unfolding joined numbers number
print_targets c =
    let yes_no = λ (b : Bool). if b then codes "yes" else codes "no" in
    let ranges =
      write
        (codes "  Range Size: "
          ∷ number c.range_size
          ∷ codes " blocks\n"
          ∷ codes "  JSON Output: "
          ∷ yes_no c.json_output
          ∷ codes "\n"
          ∷ codes "  Verbose: "
          ∷ yes_no c.verbose
          ∷ codes "\n"
          ∷ codes "  Status Interval: "
          ∷ number c.status_interval_ms
          ∷ codes "ms"
          ∷ (if c.status_interval_ms == 0 then codes " (disabled)" else [])
          ∷ codes "\n"
          ∷ [])
        [] in
    let cross =
      write
        (codes "  Cross-Namespace Copy: "
          ∷ (if c.enable_cross_namespace then codes "enabled" else codes "disabled")
          ∷ codes "\n"
          ∷ codes "  Destination LBA: "
          ∷ number c.dst_lba_start
          ∷ (if ltb 0 c.dst_lba_end then write (codes " - " ∷ number c.dst_lba_end ∷ []) [] else [])
          ∷ codes "\n"
          ∷ [])
        ranges in
    if is_empty c.src_nsids
    then cross
    else write (codes "  Source NSIDs: " ∷ [])
        (joined 0 (numbers c.src_nsids) (write (codes "\n" ∷ []) cross))

-- The lines from the run time on.
print_workload : Config → List ℕ
unfolding print_targets number
print_workload c =
    let fixed =
      if ltb 0 c.fixed_ranges
      then write (
          codes "  Fixed Ranges: "
          ∷ number c.fixed_ranges
          ∷ codes " (operations use fixed size)\n"
          ∷ [])
      else write (codes "  Fixed Ranges: random (1 to " ∷ number c.max_ranges ∷ codes ")\n" ∷ []) in
    write
      (codes "  Runtime: "
        ∷ number c.runtime_sec
        ∷ codes " seconds\n"
        ∷ codes "  I/O Depth: "
        ∷ number c.iodepth
        ∷ codes "\n"
        ∷ codes "  CPU Cores: "
        ∷ number c.num_cores
        ∷ codes "\n"
        ∷ codes "  Max Ranges: "
        ∷ number c.max_ranges
        ∷ codes "\n"
        ∷ [])
      (fixed (
        write
          (codes "  Range Size: "
            ∷ number c.range_size
            ∷ codes " blocks\n"
            ∷ codes "  Destination NSID: "
            ∷ number c.dst_nsid
            ∷ codes "\n"
            ∷ [])
          (print_targets c)))

-- Config::print.
pub print : Config → List ℕ
unfolding joined texts optional number print_workload
print c =
    let paths = length c.traddrs in
    write (codes "Configuration:\n" ∷ codes "  Target Address(es): " ∷ []) (
      joined 0 (texts c.traddrs) (
        write
          (codes " ("
            ∷ number paths
            ∷ codes " path"
            ∷ (if ltb 1 paths then codes "s" else [])
            ∷ codes ")\n"
            ∷ codes "  Service ID: "
            ∷ codes c.trsvcid
            ∷ codes "\n"
            ∷ [])
          (optional (codes "  Host NQN: ") c.hostnqn
            (optional (codes "  Subsystem NQN: ") c.subnqn (print_workload c)))))

pub print_usage : String → List ℕ
print_usage prog_name =
    write
      (codes "Usage: "
        ∷ codes prog_name
        ∷ codes " [OPTIONS]\n"
        ∷ codes "\n"
        ∷ codes "Required Options:\n"
        ∷ codes "  --traddr ADDR         Target IP address (can specify multiple for multi-path)\n"
        ∷ codes "  --trsvcid PORT        Service ID/port (default: 4420)\n"
        ∷ codes "  --hostnqn NQN         Host NQN (required)\n"
        ∷ codes "\n"
        ∷ codes "Workload Options:\n"
        ∷ codes "  --runtime SEC         Runtime duration in seconds (default: 10, 0 = infinite)\n"
        ∷ codes "  --iodepth DEPTH       Maximum global I/O depth (default: 64)\n"
        ∷ codes "  --num-cores CORES     Number of dedicated CPU cores (default: 1)\n"
        ∷ codes "  --max-ranges NUM      Maximum source ranges per command (1-16, default: 1)\n"
        ∷ codes
            "  --fixed-ranges NUM    Fixed number of ranges per command (0=random, 1-16=fixed, default: 0)\n"
        ∷ codes "  --dst-nsid NSID       Destination namespace ID (default: 1)\n"
        ∷ codes "  --src-nsid NSID       Source namespace ID (can be specified multiple times)\n"
        ∷ codes "  --dst-lba-start LBA   Starting LBA for destination (default: 0)\n"
        ∷ codes
            "  --dst-lba-end LBA     Ending LBA for destination (default: 0 = use namespace size)\n"
        ∷ codes
            "  --range-size SIZE     Size of each range in blocks (default: 2048 = 1MB at 512B/block)\n"
        ∷ codes
            "  --enable-cross-ns     Enable cross-namespace copy (format 2, requires TP4130 support)\n"
        ∷ codes "\n"
        ∷ codes "Output Options:\n"
        ∷ codes "  --json                Output statistics in JSON format\n"
        ∷ codes
            "  --status-interval MS  Live status update interval in ms (default: 1000, 0 = disable)\n"
        ∷ codes "  -v, --verbose         Verbose output\n"
        ∷ codes "  -h, --help            Show this help message\n"
        ∷ codes "\n"
        ∷ codes "Examples:\n"
        ∷ codes "  "
        ∷ codes prog_name
        ∷ codes
            " --traddr 192.168.1.100 --hostnqn nqn.2014-08.org.nvmexpress:uuid:1234 --runtime 60 --iodepth 256 --num-cores 4\n"
        ∷ codes "\n"
        ∷ codes "Multi-path example (connect via multiple IPs for more QPairs):\n"
        ∷ codes "  "
        ∷ codes prog_name
        ∷ codes
            " --traddr 192.168.1.100 --traddr 192.168.1.101 --traddr 192.168.1.102 --hostnqn nqn... --num-cores 6\n"
        ∷ [])
      []
