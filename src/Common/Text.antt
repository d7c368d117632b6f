-- ===== src/Common/Text.antt =====
-- Text as character codes: what is written to a stream.
use Prim.Native.Nat.{ℕ, zero, suc, ◌+◌, ◌/◌, ◌%◌}
use Prim.Native.Char.{code}
use Prim.Native.String.{String}
use mathlib.Core.List.{List, [], ◌∷◌, ◌++◌}
use xcopy_block_io.Common.Compare.{ltb, if◌then◌else◌}

abbrev pub codes : String → List ℕ
codes String.[] = []
codes (String.◌∷◌ c s) = code c ∷ codes s

-- The decimal text of a number of at most `fuel` digits.
unfoldable pub decimal : ℕ → ℕ → List ℕ
decimal zero n = []
decimal (suc fuel) n =
    let front = decimal fuel (n / 10) in
    if ltb n 10 then (48 + n) ∷ [] else front ++ ((48 + n % 10) ∷ [])

-- One piece after the other, and then `rest`.
abbrev pub write : List (List ℕ) → List ℕ → List ℕ
write [] rest = rest
write (piece ∷ pieces) rest = piece ++ write pieces rest
