-- ===== src/Reporter/Wellformed.antt =====
-- JsonReporter::generate_report writes JSON: its parts.
pub mod Finite
pub mod Whole
pub mod Samples
mod Tests
use Prim.Native.String.{String}
use xcopy_block_io.Common.{
  ℕ, zero, suc, ◌+◌, ◌-◌, ◌*◌, ◌^◌, ◌≤◌, ◌<◌, ◌≡◌, refl, ◌⊎◌, inl, inr, List, [], ◌∷◌, ◌++◌, Bool,
  true, false, Option, none, some, arith, ltb, length, All, codes, decimal, write, u64_mod,
  Bool-cases, if◌then◌else◌, sym, ap, subst, ◌∙◌,
}
use xcopy_block_io.Config.{Config}
use xcopy_block_io.Double.{Doubles, Rounds}
use xcopy_block_io.Errors.{get_count, get_total_errors}
use xcopy_block_io.Statistics
use xcopy_block_io.Statistics.{Statistics, get_snapshot}
use xcopy_block_io.Reporter.Json.{
  Json, text, array, object, Elements, nothing, element, Members, last, member, Spaces, no_space,
  space, is_space, Chars, close, char, is_plain, are_plain, IsNumber, Value, a_string, a_number,
  an_empty_array, an_array, an_object, Several, one_left, more, Pairs, final, pair, IsText,
}
use xcopy_block_io.Reporter.Json
use xcopy_block_io.Reporter.Text.{traddrs_from, configuration, errors, number, us}
use xcopy_block_io.Reporter.Printed.{Prints, decimal-IsNumber}

pub skip : List ℕ → List ℕ
skip [] = []
skip (c ∷ s) = if is_space c then skip s else c ∷ s

pub skipped : (s : List ℕ) → Spaces s (skip s)
unfolding skip
skipped [] = no_space
skipped (c ∷ s) = elim (Bool-cases (is_space c)) [
  | inl e ↦ rw (e, skip) (space e (skipped s))
  | inr e ↦ rw (e, skip) no_space
]

plain-Chars : (cs r : List ℕ) → are_plain cs ≡ true → Chars cs (cs ++ (34 ∷ r)) r
plain-Chars [] r e = close
plain-Chars (c ∷ cs) r e = char (ground (arith, e)) (plain-Chars cs r (ground (arith, e)))

-- A member with its comma, and the last one.
pub entry :
    {k s r u : List ℕ} {j : Json} {ms : Members}
    → are_plain k ≡ true
    → Value j s (44 ∷ r)
    → Pairs ms (skip r) u
    → Pairs (member k j ms) (34 ∷ (k ++ (34 ∷ 58 ∷ 32 ∷ s))) u
entry plain v rest =
    pair (plain-Chars _ _ plain) no_space (space refl no_space) v no_space (skipped _) rest

pub last_entry :
    {k s r u : List ℕ} {j : Json}
    → are_plain k ≡ true
    → Value j s r
    → Spaces r (125 ∷ u)
    → Pairs (last k j) (34 ∷ (k ++ (34 ∷ 58 ∷ 32 ∷ s))) u
last_entry plain v end = final (plain-Chars _ _ plain) no_space (space refl no_space) v end

-- A string written between quotes.
quoted : (cs r : List ℕ) → are_plain cs ≡ true → Value (text cs) (34 ∷ (cs ++ (34 ∷ r))) r
quoted cs r e = a_string (plain-Chars cs r e)

-- The addresses as an array.
pub strings : List String → Elements
strings [] = nothing
strings (t ∷ ts) = element (text (codes t)) (strings ts)

traddrs-Several :
    (size i : ℕ) (t : String) (ts : List String) (r : List ℕ)
    → i + length (t ∷ ts) ≡ size
    → All (λ a. are_plain (codes a) ≡ true) (t ∷ ts)
    → Several (strings (t ∷ ts)) (traddrs_from size i (t ∷ ts) (93 ∷ r)) r
unfolding traddrs_from strings
traddrs-Several size i t [] r sum (p, ps) =
    let at_end : ltb i (size - 1) ≡ false = ground (arith, sum) in
    rw at_end (one_left (quoted (codes t) (93 ∷ r) p) no_space)
traddrs-Several size i t (u ∷ us) r sum (p, ps) =
    let inside : ltb i (size - 1) ≡ true = ground (arith, sum) in
    let after = traddrs_from size (i + 1) (u ∷ us) (93 ∷ r) in
    rw inside (
      more (quoted (codes t) (44 ∷ 32 ∷ after) p) no_space (space refl no_space)
        (traddrs-Several size (i + 1) u us r (omega (arith, sum)) ps))

traddrs-Value :
    (ts : List String) (r : List ℕ)
    → All (λ a. are_plain (codes a) ≡ true) ts
    → Value (array (strings ts)) (91 ∷ traddrs_from (length ts) 0 ts (93 ∷ r)) r
unfolding traddrs_from strings
traddrs-Value [] r p = an_empty_array no_space
traddrs-Value (t ∷ ts) r p =
    an_array no_space (traddrs-Several (length (t ∷ ts)) 0 t ts r (omega arith) p)

-- The strings of a configuration need no escape, and its numbers have 64 bits.
pub record IsPrintable (c : Config) : Type 0 where
  pub traddrs : All (λ t. are_plain (codes t) ≡ true) c.traddrs
  pub trsvcid : are_plain (codes c.trsvcid) ≡ true
  pub hostnqn : are_plain (codes c.hostnqn) ≡ true
  pub runtime_sec : c.runtime_sec < u64_mod
  pub iodepth : c.iodepth < u64_mod
  pub num_cores : c.num_cores < u64_mod
  pub max_ranges : c.max_ranges < u64_mod
  pub dst_nsid : c.dst_nsid < u64_mod

pub num : ℕ → Json
num n = Json.number (number n)

pub configuration_json : Config → Json
configuration_json c = object (
    member (codes "traddrs") (array (strings c.traddrs)) (
      member (codes "trsvcid") (text (codes c.trsvcid)) (
        member (codes "hostnqn") (text (codes c.hostnqn)) (
          member (codes "runtime_sec") (num c.runtime_sec) (
            member (codes "iodepth") (num c.iodepth) (
              member (codes "num_cores") (num c.num_cores) (
                member (codes "max_ranges") (num c.max_ranges)
                  (last (codes "dst_nsid") (num c.dst_nsid)))))))))

pub configuration-Pairs :
    (c : Config) (ms : Members) (r u : List ℕ)
    → IsPrintable c
    → Pairs ms (skip r) u
    → Pairs (member (codes "configuration") (configuration_json c) ms) (skip (configuration c r)) u
unfolding configuration configuration_json num skip
configuration-Pairs c ms r u p rest =
    entry refl
      (an_object (skipped _) (
        entry refl (traddrs-Value c.traddrs _ p.traddrs) (
          entry refl (quoted _ _ p.trsvcid) (
            entry refl (quoted _ _ p.hostnqn) (
              entry refl (a_number (decimal-IsNumber _ p.runtime_sec)) (
                entry refl (a_number (decimal-IsNumber _ p.iodepth)) (
                  entry refl (a_number (decimal-IsNumber _ p.num_cores)) (
                    entry refl (a_number (decimal-IsNumber _ p.max_ranges)) (
                      last_entry refl (a_number (decimal-IsNumber _ p.dst_nsid))
                        (skipped _))))))))))
      rest

pub errors_json : Statistics → Json
errors_json s = object (
    member (codes "total") (num (get_total_errors s.error_counter)) (
      member (codes "saturation") (num (get_count s.error_counter 0x0807))
        (last (codes "insufficient_resources") (num (get_count s.error_counter 0x0189)))))

pub errors-Pairs :
    (s : Statistics) (r u : List ℕ)
    → IsNumber (number (get_total_errors s.error_counter))
    → IsNumber (number (get_count s.error_counter 0x0807))
    → IsNumber (number (get_count s.error_counter 0x0189))
    → Spaces r (125 ∷ u)
    → Pairs (last (codes "errors") (errors_json s)) (skip (errors s r)) u
unfolding errors errors_json num skip
errors-Pairs s r u a b c end =
    last_entry refl
      (an_object (skipped _) (
        entry refl (a_number a)
          (entry refl (a_number b) (last_entry refl (a_number c) (skipped _)))))
      (space refl end)
