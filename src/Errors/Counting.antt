-- ===== src/Errors/Counting.antt =====
-- ErrorCounter: what the counters say of the codes recorded.
use xcopy_block_io.Common.{
  ℕ, ◌+◌, ◌≤◌, ◌<◌, ◌≡◌, refl, List, [], ◌∷◌, Bool, arith, ◌==◌, if◌then◌else◌, length, u64_mod,
  add64, not, ◌&&◌, All, ◌||◌, ◌∙◌,
}
use xcopy_block_io.Errors.{
  ErrorCounter, init, bump, find, record_error, get_count, get_total_errors, is_saturation_error,
  is_fatal_error,
}

-- The counter after codes recorded one by one, the latest first.
unfoldable pub record_all : List ℕ → ErrorCounter
record_all [] = init
record_all (code ∷ codes) = record_error (record_all codes) code

-- How many codes pass a test.
abbrev pub count_if : (ℕ → Bool) → List ℕ → ℕ
count_if test [] = 0
count_if test (code ∷ codes) = (if test code then 1 else 0) + count_if test codes

pub count_if-le : (test : ℕ → Bool) (codes : List ℕ) → count_if test codes ≤ length codes
count_if-le test [] = omega arith
count_if-le test (code ∷ codes) = ground (arith, count_if-le test codes)

-- Fatal, and not counted as saturation before.
abbrev pub is_only_fatal : ℕ → Bool
is_only_fatal code = not (is_saturation_error code) && is_fatal_error code

abbrev pub is_other : ℕ → Bool
is_other code = not (is_saturation_error code) && not (is_fatal_error code)

find-bump :
    (code key : ℕ) (counts : List (ℕ × ℕ))
    → find key (bump code counts)
      ≡ (if code == key then add64 (find key counts) 1 else find key counts)
unfolding find bump
find-bump code key [] = ground arith
find-bump code key ((k, n) ∷ counts) = ground (arith, find-bump code key counts)

record Tracks (c : ErrorCounter) (codes : List ℕ) : Type 0 where
  saturation : c.saturation_errors ≡ count_if is_saturation_error codes
  fatal : c.fatal_errors ≡ count_if is_only_fatal codes
  other : c.other_errors ≡ count_if is_other codes
  each : (key : ℕ) → get_count c key ≡ count_if (λ code. code == key) codes

error_counts-record_error :
    (c : ErrorCounter) (code : ℕ) → (record_error c code).error_counts ≡ bump code c.error_counts
unfolding record_error
error_counts-record_error c code = ground arith

record_error-Tracks :
    (c : ErrorCounter) (code : ℕ) (codes : List ℕ)
    → length codes + 1 < u64_mod
    → Tracks c codes
    → Tracks (record_error c code) (code ∷ codes)
unfolding get_count record_error
record_error-Tracks c code codes w t = record {
  saturation = ground (arith, count_if-le is_saturation_error codes, t.saturation);
  fatal = ground (arith, count_if-le is_only_fatal codes, t.fatal);
  other = ground (arith, count_if-le is_other codes, t.other);
  each = λ key.
      rw (error_counts-record_error c code, find-bump code key c.error_counts)
        (ground (arith, count_if-le (λ x. x == key) codes, t.each key));
}

record_all-Tracks : (codes : List ℕ) → length codes < u64_mod → Tracks (record_all codes) codes
unfolding record_all get_count
record_all-Tracks [] w = record {
  saturation = refl;
  fatal = refl;
  other = refl;
  each = λ key. refl;
}
record_all-Tracks (code ∷ codes) w =
    record_error-Tracks (record_all codes) code codes (omega arith)
      (record_all-Tracks codes (omega arith))

three_kinds :
    (codes : List ℕ)
    → count_if is_saturation_error codes + count_if is_only_fatal codes + count_if is_other codes
      ≡ length codes
three_kinds [] = refl
three_kinds (code ∷ codes) = ground (arith, three_kinds codes)

-- After fewer than 2 ^ 64 failures, in any order: the total is their number, the count of each status
-- code is how often it was recorded, and each failure went to exactly one of the three kinds,
-- saturation first, then fatal, then other.
pub record_all_lem :
    (codes : List ℕ)
    → length codes < u64_mod
    → let c = record_all codes in
      (get_total_errors c ≡ length codes)
      × ((key : ℕ) → get_count c key ≡ count_if (λ code. code == key) codes)
      × (c.saturation_errors ≡ count_if is_saturation_error codes)
      × (c.fatal_errors ≡ count_if is_only_fatal codes)
      × (c.other_errors ≡ count_if is_other codes)
unfolding get_total_errors
record_all_lem codes w =
    let t = record_all-Tracks codes w in
    (
      omega (arith, t.saturation, t.fatal, t.other, three_kinds codes),
      t.each,
      t.saturation,
      t.fatal,
      t.other,
    )

count_if_none :
    (key : ℕ) (codes : List ℕ)
    → 256 ≤ key
    → All (λ code. code < 256) codes
    → count_if (λ code. code == key) codes ≡ 0
count_if_none key [] h small = refl
count_if_none key (code ∷ codes) h small = ground (arith, count_if_none key codes h small.1)

-- Where only the 8-bit code field of a completion is recorded, the counter never has an entry for the
-- 16-bit statuses 0x0807 (queue full) and 0x0189 (insufficient resources) that the reports ask for,
-- although the codes 0x07 and 0x89 are counted as saturation.
pub reported_statuses_zero :
    (codes : List ℕ)
    → length codes < u64_mod
    → All (λ code. code < 256) codes
    → let c = record_all codes in
      (get_count c 0x0807 ≡ 0)
      × (get_count c 0x0189 ≡ 0)
      × (c.saturation_errors ≡ count_if (λ code. (code == 0x07) || (code == 0x89)) codes)
unfolding is_saturation_error
reported_statuses_zero codes w small =
    let t = record_all-Tracks codes w in
    (
      t.each 0x0807 ∙ count_if_none 0x0807 codes (omega arith) small,
      t.each 0x0189 ∙ count_if_none 0x0189 codes (omega arith) small,
      t.saturation ∙ by_code codes small,
    )
  where
    by_code :
        (xs : List ℕ)
        → All (λ code. code < 256) xs
        → count_if is_saturation_error xs ≡ count_if (λ code. (code == 0x07) || (code == 0x89)) xs
    by_code [] s = refl
    by_code (x ∷ xs) s = ground (arith, by_code xs s.1)
