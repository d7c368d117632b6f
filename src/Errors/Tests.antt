-- ===== src/Errors/Tests.antt =====
-- ErrorCounter: the theorems at concrete codes, and runs of the classification.
use xcopy_block_io.Common.{ℕ, ◌≡◌, refl, List, [], ◌∷◌, true, false, arith, ◌==◌}
use xcopy_block_io.Errors.{
  is_saturation_error, is_fatal_error, get_error_string, get_count, get_total_errors,
}
use xcopy_block_io.Errors.Counting.{record_all, count_if, is_only_fatal, is_other, record_all_lem}

-- Queue full, as the completion carries it, twice; an invalid field; a code of no kind.
abbrev failures : List ℕ
failures = 0x07 ∷ 0x02 ∷ 0x07 ∷ 0x80 ∷ []

kinds :
    (is_saturation_error 0x0807 ≡ true)
    × (is_fatal_error 0x0807 ≡ true)
    × (is_fatal_error 0x0189 ≡ false)
    × (get_error_string 0x89 ≡ "Insufficient Resources")
unfolding is_saturation_error is_fatal_error get_error_string
kinds = (refl, refl, refl, refl)

record_all_example :
    let c = record_all failures in
    (get_total_errors c ≡ 4)
    × ((key : ℕ) → get_count c key ≡ count_if (λ code. code == key) failures)
    × (c.saturation_errors ≡ count_if is_saturation_error failures)
    × (c.fatal_errors ≡ count_if is_only_fatal failures)
    × (c.other_errors ≡ count_if is_other failures)
record_all_example = record_all_lem failures (omega arith)
