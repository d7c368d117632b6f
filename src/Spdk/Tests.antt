-- ===== src/Spdk/Tests.antt =====
-- The SPDK context on concrete answers of the libraries, and applications of its theorems.
use Prim.Native.String.{String}
use xcopy_block_io.Common.{◌≡◌, refl, List, [], ◌∷◌, some}
use xcopy_block_io.Spdk.{SpdkContext, NamespaceInfo, new_context, init, discover_namespaces}
use xcopy_block_io.Spdk.Discover.{Discovered, discover_namespaces_total}
use xcopy_block_io.Spdk.Samples.{target, target-Ascending}
use xcopy_block_io.Spdk.Opening.{Outcome, init-Outcome}

abbrev with_one : SpdkContext
with_one = record new_context { ctrlrs = 7 ∷ [] }

discover_namespaces_total_example :
    (infos : List NamespaceInfo) × (discover_namespaces target with_one
      ≡ some (record with_one { namespaces = infos }))
    × Discovered target 7 (record with_one { namespaces = infos })
discover_namespaces_total_example =
    discover_namespaces_total target 7 [] with_one refl (target-Ascending 7)

abbrev addresses : List String
addresses = "10.0.0.1" ∷ "10.0.0.2" ∷ "10.0.0.3" ∷ []

init-Outcome_example :
    Outcome target addresses "4420" "target" new_context
      (init target addresses "4420" "host" "target" new_context)
init-Outcome_example =
    init-Outcome target target-Ascending addresses "4420" "host" "target" new_context refl refl refl
