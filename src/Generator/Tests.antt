-- ===== src/Generator/Tests.antt =====
-- XcopyGenerator: the theorems at a concrete generator.
use xcopy_block_io.Common.{◌-◌, ◌*◌, ◌≡◌, refl, [], ◌∷◌, true, false, none, some, arith}
use xcopy_block_io.Lba.{LbaManager, get_random_src_lba, get_and_advance_dst_lba}
use xcopy_block_io.Dma.{Heap, Alloc, zeroed}
use xcopy_block_io.Generator.{XcopyGenerator, Draws, get_ns_size, effective_src_nsid, generate}
use xcopy_block_io.Generator.Operation.{XcopyOperation, allocate_ranges, free_ranges, empty}
use xcopy_block_io.Generator.Copy.{copy, Copied, copy_lem}
use xcopy_block_io.Generator.Success.{IsPrepared, IsCommand, generate-IsCommand}
use xcopy_block_io.Generator.Effects.{Untouched, generate-Untouched}

abbrev one_namespace : XcopyGenerator
one_namespace = record {
  max_ranges = 2;
  fixed_ranges = 0;
  src_nsids = 1 ∷ [];
  dst_nsid = 1;
  namespaces = none ∷ some (record { id = 1; num_sectors = 1000 }) ∷ [];
  enable_cross_namespace = false;
  target_supports_cross_namespace = true;
}

-- Two ranges, from blocks 700 and 500.
abbrev draws : Draws
draws = record { num_ranges = 2; src_index = 0; src_lba = λ i. 700 - 200 * i }

abbrev manager : LbaManager
manager = record { namespace_size = 1000; dst_start = 0; dst_end = 1000; dst_current = 16 }

abbrev memory : Heap
memory = record { live = 64 ∷ []; content = λ a. zeroed 2; requests = 1 }

abbrev buffered : XcopyOperation
buffered = record empty { ranges = some 64 }

abbrev no_more : Alloc
no_more n = none

prepared : IsPrepared one_namespace draws manager (zeroed 2)
unfolding get_ns_size effective_src_nsid
prepared = record {
  fixed = omega arith;
  drawn = omega arith;
  room = omega arith;
  valid = omega arith;
  no_wrap = omega arith;
  src_word = omega arith;
}

generate-IsCommand_example :
    IsCommand one_namespace draws manager 8 64
      (generate no_more one_namespace draws buffered manager 8 memory)
unfolding generate get_ns_size allocate_ranges get_random_src_lba get_and_advance_dst_lba
generate-IsCommand_example =
    generate-IsCommand no_more one_namespace draws buffered 64 manager 8 memory refl prepared refl

generate-Untouched_example :
    Untouched 64 manager memory (generate no_more one_namespace draws buffered manager 8 memory)
generate-Untouched_example =
    generate-Untouched no_more one_namespace draws buffered 64 manager 8 memory refl

abbrev two_ranges : XcopyOperation
two_ranges = record buffered { num_ranges = 2 }

-- A second buffer for the copy.
abbrev one_more : Alloc
one_more n = some 128

copy_lem_example :
    Copied one_more two_ranges memory (copy one_more two_ranges memory)
    × ((free_ranges (copy one_more two_ranges memory).0 (copy one_more two_ranges memory).1).1.live
        ≡ 64 ∷ [])
copy_lem_example = copy_lem one_more two_ranges memory (λ a b e g. ground (arith, e, g))
