-- ===== src/Monitor/Elapsed.antt =====
-- LiveMonitor::format_time: the text can be read back.
use xcopy_block_io.Common.{
  ℕ, zero, suc, ◌+◌, ◌*◌, ◌/◌, ◌%◌, ◌^◌, ◌-◌, ◌<◌, ◌≡◌, refl, inl, inr, List, [], ◌∷◌, ◌++◌, false,
  arith, decimal, ltb, ◌==◌, if◌then◌else◌, Bool-cases, length, append_nil, append_assoc, sym, ap,
  subst, ◌∙◌,
}
use xcopy_block_io.Monitor.{two_wide, format_time}

-- A reader of numbers in base 60, written in decimal with colons between them: `total` are the ones
-- before the last colon, `current` the digits since.
pub read_time : ℕ → ℕ → List ℕ → ℕ
read_time total current [] = total * 60 + current
read_time total current (c ∷ text) =
    let at_colon = read_time (total * 60 + current) 0 text in
    let at_digit = read_time total (current * 10 + (c - 48)) text in
    if c == 58 then at_colon else at_digit

read_time-digit :
    (total current d : ℕ) (text : List ℕ)
    → d < 10
    → read_time total current ((48 + d) ∷ text) ≡ read_time total (current * 10 + d) text
unfolding read_time
read_time-digit total current d text h =
    let e : current * 10 + (48 + d - 48) ≡ current * 10 + d = omega arith in
    let f : (48 + d == 58) ≡ false = ground (arith, h) in rw (f, e) refl

div_ten : (n m : ℕ) → n < 10 * m → n / 10 < m
div_ten n m h = omega arith

ten_pow : (k : ℕ) → 10 ^ suc k ≡ 10 * 10 ^ k
ten_pow k = omega arith

read_time-decimal :
    (fuel total n : ℕ) (rest : List ℕ)
    → n < 10 ^ fuel
    → read_time total 0 (decimal fuel n ++ rest) ≡ read_time total n rest
unfolding decimal
read_time-decimal zero total n rest h = ap (λ k. read_time total k rest) (omega arith)
read_time-decimal (suc fuel) total n rest h = elim (Bool-cases (ltb n 10)) [
  | inl e ↦
      rw (e, decimal)
        (read_time-digit total 0 n rest (ground (arith, e))
          ∙ ap (λ k. read_time total k rest) (omega arith))
  | inr e ↦
      let q =
        read_time-decimal fuel total (n / 10) ((48 + n % 10) ∷ rest)
          (div_ten n (10 ^ fuel) (subst (λ m. n < m) (ten_pow fuel) h)) in
      let d = read_time-digit total (n / 10) (n % 10) rest (omega arith) in
      let back : n / 10 * 10 + n % 10 ≡ n = omega arith in
      rw (e, decimal)
        (ap (λ l. read_time total 0 l)
            (append_assoc (decimal fuel (n / 10)) ((48 + n % 10) ∷ []) rest)
          ∙ q
          ∙ d
          ∙ ap (λ k. read_time total k rest) back)
]

read_time-two_wide :
    (total n : ℕ) (rest : List ℕ)
    → n < 10 ^ 10
    → read_time total 0 (two_wide n ++ rest) ≡ read_time total n rest
unfolding two_wide
read_time-two_wide total n rest h = elim (Bool-cases (ltb (length (decimal 10 n)) 2)) [
  | inl e ↦
      let pad = read_time-digit total 0 0 (decimal 10 n ++ rest) (omega arith) in
      rw (e, two_wide)
        (pad
          ∙ ap (λ k. read_time total k (decimal 10 n ++ rest)) (omega arith)
          ∙ read_time-decimal 10 total n rest h)
  | inr e ↦ rw (e, two_wide) (read_time-decimal 10 total n rest h)
]

read_time-colon :
    (total current : ℕ) (text : List ℕ)
    → read_time total current (58 ∷ text) ≡ read_time (total * 60 + current) 0 text
unfolding read_time
read_time-colon total current text = refl

read_time-last : (total n : ℕ) → n < 10 ^ 10 → read_time total 0 (two_wide n) ≡ total * 60 + n
unfolding read_time
read_time-last total n h =
    ap (read_time total 0) (sym (append_nil (two_wide n))) ∙ read_time-two_wide total n [] h

-- A field of two digits or more, its colon and what comes after.
read_time-field :
    (total n : ℕ) (text : List ℕ)
    → n < 10 ^ 10
    → read_time total 0 (two_wide n ++ (58 ∷ text)) ≡ read_time (total * 60 + n) 0 text
read_time-field total n text h =
    read_time-two_wide total n (58 ∷ text) h ∙ read_time-colon total n text

-- The text of any number of seconds that an int holds, with hours or without, reads back as that number.
pub read_time-format_time : (n : ℕ) → n < 2 ^ 31 → read_time 0 0 (format_time n) ≡ n
unfolding format_time
read_time-format_time n h =
    let hours = n / 3600 in
    let mins = (n % 3600) / 60 in
    let secs = n % 60 in
    let small : (n < 10 ^ 10) = omega arith in
    elim (Bool-cases (ltb 0 hours)) [
      | inl e ↦
          let a = read_time-field 0 hours (two_wide mins ++ (58 ∷ two_wide secs)) (omega arith) in
          let b = read_time-field (0 * 60 + hours) mins (two_wide secs) (omega arith) in
          let c = read_time-last ((0 * 60 + hours) * 60 + mins) secs (omega arith) in
          rw (e, format_time) (a ∙ b ∙ c ∙ omega arith)
      | inr e ↦
          let b = read_time-field 0 mins (two_wide secs) (omega arith) in
          let c = read_time-last (0 * 60 + mins) secs (omega arith) in
          rw (e, format_time) (b ∙ c ∙ ground (arith, e))
    ]
