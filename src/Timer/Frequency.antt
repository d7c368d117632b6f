-- ===== src/Timer/Frequency.antt =====
-- HighResTimer::get_cpu_freq_ghz: worked out by the first call, and kept.
use Prim.Native.String.{String}
use text.Mathlib.Text.{starts_with}
use xcopy_block_io.Common.{
  Bool, ◌-◌, ◌<◌, ◌≤◌, ◌≡◌, refl, ◌⊎◌, false, All, ◌++◌, inl, inr, List, [], ◌∷◌, true, Option,
  none, some, arith, ltb, Bool-cases, Option-cases, if◌then◌else◌, sym, ap, subst, ◌∙◌,
}
use xcopy_block_io.Double.{Doubles}
use xcopy_block_io.Timer.{
  unset, Arch, x86, aarch64, other, Fields, Machine, Measured, read_mhz, read_cpuinfo, fill_with,
  measure, fill, fall_back, init_cpu_freq, get_cpu_freq_ghz,
}

module _ (f : Doubles) where
  -- The calls of a run, each with what it finds: what they return.
  pub calls : Arch → List (Machine f) → Fields f → List f.Double
  calls arch [] s = []
  calls arch (m ∷ ms) s = let (ghz, s') = get_cpu_freq_ghz f arch m s in ghz ∷ calls arch ms s'

  pub all_same : f.Double → List (Machine f) → List f.Double
  all_same ghz [] = []
  all_same ghz (m ∷ ms) = ghz ∷ all_same ghz ms

  -- A line that gives no frequency.
  unfoldable pub Unread : (String → Option f.Double) → String → Type 0
  Unread sscanf line = (starts_with line "cpu MHz" ≡ false) ⊎ (sscanf line ≡ none)

  -- /proc/cpuinfo cannot be opened, or none of its lines gives a frequency.
  unfoldable pub Unlisted : Machine f → Type 0
  Unlisted m =
      (m.cpuinfo ≡ none)
      ⊎ (lines : List String) × (m.cpuinfo ≡ some lines) × All (Unread m.sscanf) lines

  -- The processor is not the one that is timed, or one of the two clocks has not gone forward.
  unfoldable pub Untimed : Arch → Measured → Type 0
  Untimed arch t =
      (arch ≡ aarch64) ⊎ (arch ≡ other) ⊎ (t.end_ns ≤ t.start_ns) ⊎ (t.end_cycles ≤ t.start_cycles)

  -- Where the frequency of a first call comes from: no two of the three can be.
  pub data Source (arch : Arch) (m : Machine f) : f.Double → Type 0 where
    listed :
        (before after : List String) (line : String) (mhz : f.Double)
        → m.cpuinfo ≡ some (before ++ (line ∷ after))
        → All (Unread m.sscanf) before
        → starts_with line "cpu MHz" ≡ true
        → m.sscanf line ≡ some mhz
        → Source arch m (f.div mhz (f.of 1000))
    timed :
        Unlisted m
        → arch ≡ x86
        → m.measured.start_ns < m.measured.end_ns
        → m.measured.start_cycles < m.measured.end_cycles
        → Source arch m (
            f.div
              (f.of (m.measured.end_cycles - m.measured.start_cycles))
              (f.of (m.measured.end_ns - m.measured.start_ns)))
    assumed : Unlisted m → Untimed arch m.measured → Source arch m (f.of 2)

  if_true {ℓ} : {A : Type ℓ} (b : Bool) (x y : A) → b ≡ true → (if b then x else y) ≡ x
  if_true b x y e = rw e refl

  get_kept :
      (arch : Arch) (m : Machine f) (s : Fields f)
      → s.cpu_freq_initialized ≡ true
      → get_cpu_freq_ghz f arch m s ≡ (s.cpu_freq_ghz, s)
  unfolding get_cpu_freq_ghz
  get_kept arch m s e =
      ap (λ a. (a.cpu_freq_ghz, a)) (if_true s.cpu_freq_initialized s (init_cpu_freq f arch m s) e)

  calls_kept :
      (arch : Arch) (ms : List (Machine f)) (s : Fields f)
      → s.cpu_freq_initialized ≡ true
      → calls arch ms s ≡ all_same s.cpu_freq_ghz ms
  unfolding calls all_same
  calls_kept arch [] s e = refl
  calls_kept arch (m ∷ ms) s e =
      ap (λ r. r.0 ∷ calls arch ms r.1) (get_kept arch m s e)
      ∙ ap (λ l. s.cpu_freq_ghz ∷ l) (calls_kept arch ms s e)

  -- The first line that gives a frequency gives `mhz`.
  FirstLine : (String → Option f.Double) → List String → f.Double → Type 0
  FirstLine sscanf lines mhz =
      (before after : List String) × (line : String) × (lines ≡ before ++ (line ∷ after))
      × All (Unread sscanf) before
      × (starts_with line "cpu MHz" ≡ true)
      × (sscanf line ≡ some mhz)

  FirstLine-cons :
      (sscanf : String → Option f.Double) (line : String) (lines : List String) (mhz : f.Double)
      → Unread sscanf line
      → FirstLine sscanf lines mhz
      → FirstLine sscanf (line ∷ lines) mhz
  unfolding FirstLine
  FirstLine-cons sscanf line lines mhz u (before, after, l, e, all, starts, reads) =
      (line ∷ before, after, l, ap (λ ls. line ∷ ls) e, (u, all), starts, reads)

  read_mhz_found :
      (sscanf : String → Option f.Double) (lines : List String) (mhz : f.Double)
      → read_mhz f sscanf lines ≡ some mhz
      → FirstLine sscanf lines mhz
  unfolding read_mhz FirstLine Unread
  read_mhz_found sscanf [] mhz e = absurd (cc e)
  read_mhz_found sscanf (line ∷ lines) mhz e = elim (Bool-cases (starts_with line "cpu MHz")) [
    | inr s ↦
        FirstLine-cons sscanf line lines mhz (inl s)
          (read_mhz_found sscanf lines mhz (ground (arith, s, e)))
    | inl s ↦ elim (Option-cases (sscanf line)) [
      | inl n ↦
          FirstLine-cons sscanf line lines mhz (inr n)
            (read_mhz_found sscanf lines mhz (ground (arith, s, n, e)))
      | inr (x, n) ↦ ([], lines, line, refl, tt, s, n ∙ ground (arith, s, n, e))
    ]
  ]

  read_mhz-Unread :
      (sscanf : String → Option f.Double) (lines : List String)
      → read_mhz f sscanf lines ≡ none
      → All (Unread sscanf) lines
  unfolding read_mhz Unread
  read_mhz-Unread sscanf [] e = tt
  read_mhz-Unread sscanf (line ∷ lines) e = elim (Bool-cases (starts_with line "cpu MHz")) [
    | inr s ↦ (inl s, read_mhz-Unread sscanf lines (ground (arith, s, e)))
    | inl s ↦ elim (Option-cases (sscanf line)) [
      | inl n ↦ (inr n, read_mhz-Unread sscanf lines (ground (arith, s, n, e)))
      | inr (x, n) ↦ absurd (ground (arith, s, n, e))
    ]
  ]

  -- What a first call sets.
  First : Arch → Machine f → Fields f → Type 0
  First arch m s = Source arch m s.cpu_freq_ghz × (s.cpu_freq_initialized ≡ true)

  fall_back-First :
      (arch : Arch) (m : Machine f) → Unlisted m → First arch m (fall_back f arch m.measured)
  unfolding First fall_back measure fill Untimed
  fall_back-First aarch64 m u = (assumed u (inl refl), refl)
  fall_back-First other m u = (assumed u (inr (inl refl)), refl)
  fall_back-First x86 m u =
      let t = m.measured in
      elim (Bool-cases (ltb t.start_ns t.end_ns)) [
        | inr e ↦ rw (e, fall_back, measure) (assumed u (inr (inr (inl (ground (arith, e))))), refl)
        | inl e ↦ elim (Bool-cases (ltb t.start_cycles t.end_cycles)) [
          | inr k ↦
              rw (e, k, fall_back, measure) (assumed u (inr (inr (inr (ground (arith, k))))), refl)
          | inl k ↦
              rw (e, k, fall_back, measure)
                (timed u refl (ground (arith, e)) (ground (arith, k)), refl)
        ]
      ]

  read_cpuinfo_found :
      (arch : Arch) (m : Machine f) (mhz : f.Double)
      → read_cpuinfo f m ≡ some mhz
      → Source arch m (f.div mhz (f.of 1000))
  unfolding read_cpuinfo FirstLine
  read_cpuinfo_found arch m mhz e = elim (Option-cases m.cpuinfo) [
    | inl n ↦ absurd (ground (arith, n, e))
    | inr (lines, n) ↦
        let (before, after, line, split, all, starts, reads) =
          read_mhz_found m.sscanf lines mhz (ground (arith, n, e)) in
        listed before after line mhz (n ∙ ap some split) all starts reads
  ]

  read_cpuinfo-Unlisted : (m : Machine f) → read_cpuinfo f m ≡ none → Unlisted m
  unfolding read_cpuinfo Unlisted
  read_cpuinfo-Unlisted m e = elim (Option-cases m.cpuinfo) [
    | inl n ↦ inl n
    | inr (lines, n) ↦ inr (lines, n, read_mhz-Unread m.sscanf lines (ground (arith, n, e)))
  ]

  init-First : (arch : Arch) (m : Machine f) → First arch m (init_cpu_freq f arch m (unset f))
  unfolding init_cpu_freq First fill_with fill
  init-First arch m =
      let late = fall_back f arch m.measured in
      elim (Option-cases (read_cpuinfo f m)) [
        | inl e ↦
            subst (λ o. First arch m (fill_with f o late)) (sym e)
              (fall_back-First arch m (read_cpuinfo-Unlisted m e))
        | inr (mhz, e) ↦
            subst (λ o. First arch m (fill_with f o late)) (sym e)
              (read_cpuinfo_found arch m mhz e, refl)
      ]

  -- In a run that starts with the fields unset, all calls of get_cpu_freq_ghz return the same
  -- frequency, whatever the later ones would find. It is that of the first line of /proc/cpuinfo which
  -- gives one; if none does, on x86, that of the measurement, if both clocks have gone forward in it;
  -- and 2 GHz only if neither is so.
  pub calls_same :
      (arch : Arch) (m : Machine f) (ms : List (Machine f))
      → (ghz : f.Double) × Source arch m ghz
        × (calls arch (m ∷ ms) (unset f) ≡ all_same ghz (m ∷ ms))
  unfolding calls all_same get_cpu_freq_ghz First
  calls_same arch m ms =
      let s = init_cpu_freq f arch m (unset f) in
      let (source, done) = init-First arch m in
      (s.cpu_freq_ghz, source, ap (λ l. s.cpu_freq_ghz ∷ l) (calls_kept arch ms s done))
