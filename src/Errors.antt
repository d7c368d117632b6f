-- ===== src/Errors.antt =====
-- src/error_handler.cpp: NVMe status codes and the counters of failed operations.
-- The mutex around the map is not modelled: a call is not interrupted. `unordered_map` is an
-- association list with one entry for each key.
pub mod Counting
mod Tests
use Prim.Native.String.{String}
use xcopy_block_io.Common.{
  ℕ, ◌+◌, ◌/◌, ◌%◌, List, [], ◌∷◌, Bool, true, false, leb, ◌==◌, if◌then◌else◌, add64,
}

-- `status_code & 0xFF`
abbrev pub code_of : ℕ → ℕ
code_of status_code = status_code % 256

-- `(status_code >> 9) & 0x7`
abbrev pub type_of : ℕ → ℕ
type_of status_code = status_code / 512 % 8

pub is_saturation_error : ℕ → Bool
is_saturation_error status_code =
    if code_of status_code == 0x07
    then true
    else if code_of status_code == 0x89
    then true
    else false

pub is_fatal_error : ℕ → Bool
is_fatal_error status_code =
    if leb 2 (type_of status_code)
    then true
    else if code_of status_code == 0x01
    then true
    else if code_of status_code == 0x02
    then true
    else false

pub get_error_string : ℕ → String
get_error_string status_code =
    let sc = code_of status_code in
    if sc == 0x00
    then "Success"
    else if sc == 0x01
    then "Invalid Command Opcode"
    else if sc == 0x02
    then "Invalid Field in Command"
    else if sc == 0x07
    then "Queue Full"
    else if sc == 0x89
    then "Insufficient Resources"
    else "Unknown Error"

pub record ErrorCounter : Type 0 where
  pub saturation_errors : ℕ
  pub fatal_errors : ℕ
  pub other_errors : ℕ
  pub error_counts : List (ℕ × ℕ)

abbrev pub init : ErrorCounter
init = record { saturation_errors = 0; fatal_errors = 0; other_errors = 0; error_counts = [] }

-- `error_counts_[status_code]++`: a missing key starts at 0.
pub bump : ℕ → List (ℕ × ℕ) → List (ℕ × ℕ)
bump code [] = (code, 1) ∷ []
bump code ((key, n) ∷ rest) =
    if key == code then (key, add64 n 1) ∷ rest else (key, n) ∷ bump code rest

unfoldable pub find : ℕ → List (ℕ × ℕ) → ℕ
find code [] = 0
find code ((key, n) ∷ rest) = if key == code then n else find code rest

pub record_error : ErrorCounter → ℕ → ErrorCounter
unfolding is_saturation_error is_fatal_error
record_error c status_code =
    let counts = bump status_code c.error_counts in
    if is_saturation_error status_code
    then record c { saturation_errors = add64 c.saturation_errors 1; error_counts = counts }
    else if is_fatal_error status_code
    then record c { fatal_errors = add64 c.fatal_errors 1; error_counts = counts }
    else record c { other_errors = add64 c.other_errors 1; error_counts = counts }

unfoldable pub get_count : ErrorCounter → ℕ → ℕ
unfolding find
get_count c status_code = find status_code c.error_counts

unfoldable pub get_total_errors : ErrorCounter → ℕ
get_total_errors c = add64 (add64 c.saturation_errors c.fatal_errors) c.other_errors

pub reset : ErrorCounter → ErrorCounter
reset c = record { saturation_errors = 0; fatal_errors = 0; other_errors = 0; error_counts = [] }

-- `errors[code] = n`.
put_error : ℕ → ℕ → List (ℕ × ℕ) → List (ℕ × ℕ)
put_error code n [] = (code, n) ∷ []
put_error code n ((key, k) ∷ rest) =
    if key == code then (key, n) ∷ rest else (key, k) ∷ put_error code n rest

-- The loop of `get_all_errors` over the counts left.
copy_errors : List (ℕ × ℕ) → List (ℕ × ℕ) → List (ℕ × ℕ)
unfolding put_error
copy_errors [] errors = errors
copy_errors ((code, n) ∷ rest) errors = copy_errors rest (put_error code n errors)

-- The map given is cleared first.
pub get_all_errors : ErrorCounter → List (ℕ × ℕ) → List (ℕ × ℕ)
unfolding copy_errors
get_all_errors c errors = copy_errors c.error_counts []
