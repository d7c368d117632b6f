-- ===== src/Config/Tests.antt =====
-- The command line: the theorems at concrete options.
use Prim.Native.String.{String}
use xcopy_block_io.Common.{ℕ, ◌≡◌, ◌↔◌, List, [], ◌∷◌, true}
use xcopy_block_io.Config.{default_config, CmdOption, traddr_opt, iodepth_opt, json_opt, validate}
use xcopy_block_io.Config.Parse.{IsValid, validate-IsValid}

-- A reader of numbers that knows one text.
abbrev number : String → ℕ
number s = 32

abbrev options : List CmdOption
options = traddr_opt "192.168.1.100" ∷ iodepth_opt "32" ∷ json_opt ∷ []

validate_example : (validate default_config ≡ true) ↔ IsValid default_config
validate_example = validate-IsValid default_config
