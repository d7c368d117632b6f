-- ===== src/Reporter/Json.antt =====
-- JSON (RFC 8259), as far as the report uses it: objects, arrays, strings without escapes, and numbers
-- without an exponent. A judgement takes a text and what is left of it after the part that it reads.
use xcopy_block_io.Common.{
  ℕ, ◌≡◌, ◌≢◌, List, [], ◌∷◌, ◌++◌, Bool, true, leb, ◌==◌, ◌&&◌, not, if◌then◌else◌,
}

-- A value. Strings and numbers are kept as written.
mutual
  pub data Json : Type 0 where
    text : List ℕ → Json
    number : List ℕ → Json
    array : Elements → Json
    object : Members → Json

  pub data Elements : Type 0 where
    nothing : Elements
    element : Json → Elements → Elements

  pub data Members : Type 0 where
    last : List ℕ → Json → Members
    member : List ℕ → Json → Members → Members

abbrev pub is_space : ℕ → Bool
is_space c = if c == 32 then true else (c == 10)

pub data Spaces : List ℕ → List ℕ → Type 0 where
  no_space : {s : List ℕ} → Spaces s s
  space : {c : ℕ} {s r : List ℕ} → is_space c ≡ true → Spaces s r → Spaces (c ∷ s) r

-- A character of a string that needs no escape.
abbrev pub is_plain : ℕ → Bool
is_plain c = leb 32 c && not (c == 34) && not (c == 92)

abbrev pub are_plain : List ℕ → Bool
are_plain [] = true
are_plain (c ∷ cs) = is_plain c && are_plain cs

-- The rest of a string, up to its closing quote.
pub data Chars : List ℕ → List ℕ → List ℕ → Type 0 where
  close : {r : List ℕ} → Chars [] (34 ∷ r) r
  char : {c : ℕ} {cs s r : List ℕ} → is_plain c ≡ true → Chars cs s r → Chars (c ∷ cs) (c ∷ s) r

abbrev pub is_digit : ℕ → Bool
is_digit c = leb 48 c && leb c 57

abbrev pub are_digits : List ℕ → Bool
are_digits [] = true
are_digits (c ∷ cs) = is_digit c && are_digits cs

-- The whole part: no leading zero.
pub data IsWhole : List ℕ → Type 0 where
  nought : IsWhole (48 ∷ [])
  positive :
      {c : ℕ} {cs : List ℕ} → is_digit c ≡ true → c ≢ 48 → are_digits cs ≡ true → IsWhole (c ∷ cs)

pub data IsNumber : List ℕ → Type 0 where
  whole : {n : List ℕ} → IsWhole n → IsNumber n
  fraction :
      (n cs : List ℕ) (c : ℕ)
      → IsWhole n
      → is_digit c ≡ true
      → are_digits cs ≡ true
      → IsNumber (n ++ (46 ∷ c ∷ cs))
  negative : {n : List ℕ} → IsNumber n → IsNumber (45 ∷ n)

mutual
  pub data Value : Json → List ℕ → List ℕ → Type 0 where
    a_string : {cs s r : List ℕ} → Chars cs s r → Value (text cs) (34 ∷ s) r
    a_number : {n r : List ℕ} → IsNumber n → Value (number n) (n ++ r) r
    an_empty_array : {s r : List ℕ} → Spaces s (93 ∷ r) → Value (array nothing) (91 ∷ s) r
    an_array :
        {es : Elements} {s t r : List ℕ} → Spaces s t → Several es t r → Value (array es) (91 ∷ s) r
    an_object :
        {ms : Members} {s t r : List ℕ} → Spaces s t → Pairs ms t r → Value (object ms) (123 ∷ s) r

  -- The elements of an array and its closing bracket.
  pub data Several : Elements → List ℕ → List ℕ → Type 0 where
    one_left :
        {j : Json} {s t r : List ℕ}
        → Value j s t
        → Spaces t (93 ∷ r)
        → Several (element j nothing) s r
    more :
        {j : Json} {es : Elements} {s t u v r : List ℕ}
        → Value j s t
        → Spaces t (44 ∷ u)
        → Spaces u v
        → Several es v r
        → Several (element j es) s r

  -- The members of an object and its closing brace.
  pub data Pairs : Members → List ℕ → List ℕ → Type 0 where
    final :
        {k s t u v w r : List ℕ} {j : Json}
        → Chars k s t
        → Spaces t (58 ∷ u)
        → Spaces u v
        → Value j v w
        → Spaces w (125 ∷ r)
        → Pairs (last k j) (34 ∷ s) r
    pair :
        {k s t u v w x y r : List ℕ} {j : Json} {ms : Members}
        → Chars k s t
        → Spaces t (58 ∷ u)
        → Spaces u v
        → Value j v w
        → Spaces w (44 ∷ x)
        → Spaces x y
        → Pairs ms y r
        → Pairs (member k j ms) (34 ∷ s) r

-- A text that is one value and white space after it.
unfoldable pub IsText : Json → List ℕ → Type 0
IsText j s = (r : List ℕ) × Value j s r × Spaces r []
