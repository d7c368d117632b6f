-- ===== src/Main/Loop.antt =====
-- The loop of `main`: it ends when the time of the run is over.
use xcopy_block_io.Common.{
  ℕ, zero, suc, ◌+◌, ◌*◌, ◌/◌, ◌≤◌, ◌<◌, ◌≡◌, refl, inl, inr, List, [], ◌∷◌, true, false, Option,
  some, arith, Bool-cases, Option-cases, mul64, u64_mod, sym, subst,
}
use xcopy_block_io.Statistics.{Statistics}
use xcopy_block_io.Monitor.{updates, LiveMonitor, Line, update}
use xcopy_block_io.Main.{Round, is_over, run_loop}

-- The rounds up to round `n`: each sleeps 50 ms at least, and the clock has 64 bits.
pub record Sleeping (start_time_ns : ℕ) (rounds : ℕ → Round) (n : ℕ) : Type 0 where
  pub first : start_time_ns ≤ (rounds 0).now_ns
  pub slept : (k : ℕ) → k < n → (rounds k).now_ns + 50000000 ≤ (rounds (k + 1)).now_ns
  pub word : (k : ℕ) → k ≤ n → (rounds k).now_ns < u64_mod

later :
    (start_time_ns : ℕ) (rounds : ℕ → Round) (n k : ℕ)
    → Sleeping start_time_ns rounds n
    → k ≤ n
    → start_time_ns + k * 50000000 ≤ (rounds k).now_ns
later start_time_ns rounds n zero s h = omega (arith, s.first)
later start_time_ns rounds n (suc k) s h =
    let next : suc k ≡ k + 1 = omega arith in
    subst (λ j. start_time_ns + j * 50000000 ≤ (rounds j).now_ns) (sym next)
      (omega (arith, later start_time_ns rounds n k s (omega arith), s.slept k (omega arith)))

-- The rounds that a run of `runtime_sec` seconds can take.
abbrev pub max_rounds : ℕ → ℕ
max_rounds runtime_sec = mul64 runtime_sec 1000000000 / 50000000 + 1

timed_out :
    (runtime_sec start_time_ns : ℕ) (rounds : ℕ → Round) (n k : ℕ)
    → Sleeping start_time_ns rounds n
    → 0 < runtime_sec
    → mul64 runtime_sec 1000000000 ≤ n * 50000000
    → k ≡ n
    → is_over runtime_sec start_time_ns (rounds k) ≡ true
timed_out runtime_sec start_time_ns rounds n k s some_time enough at =
    let late = later start_time_ns rounds n k s (omega (arith, at)) in
    let w = s.word k (omega (arith, at)) in ground (arith, late, w, some_time, enough, at)

module _ (runtime_sec start_time_ns : ℕ) (rounds : ℕ → Round) where
  -- The calls of the monitor in `n` rounds from round `k` on.
  pub calls : ℕ → ℕ → List (ℕ × Statistics)
  calls k zero = []
  calls k (suc n) = ((rounds k).update_ns, (rounds k).stats) ∷ calls (k + 1) n

  -- How the loop ends from round `k` on: at the first round that is over, with the lines of the calls
  -- of the monitor in the rounds before.
  pub record Ended (k : ℕ) (m : LiveMonitor) (o : Option (LiveMonitor × List Line)) : Type 0 where
    pub count : ℕ
    pub over : is_over runtime_sec start_time_ns (rounds (k + count)) ≡ true
    pub before : (i : ℕ) → i < count → is_over runtime_sec start_time_ns (rounds (k + i)) ≡ false
    pub result : o ≡ some (updates (calls k count) m)

  run_loop-over :
      (fuel k : ℕ) (m : LiveMonitor)
      → is_over runtime_sec start_time_ns (rounds k) ≡ true
      → Ended k m (run_loop runtime_sec start_time_ns rounds (suc fuel) k m)
  unfolding run_loop calls updates
  run_loop-over fuel k m e =
      let here : k ≡ k + 0 = omega arith in
      record {
        count = 0;
        over = subst (λ j. is_over runtime_sec start_time_ns (rounds j) ≡ true) here e;
        before = λ i h. absurd (omega (arith, h));
        result = rw (e, run_loop) refl;
      }

  -- The result of a round from that of the rounds after it.
  run_loop-result :
      (fuel k n : ℕ) (m : LiveMonitor)
      → is_over runtime_sec start_time_ns (rounds k) ≡ false
      → let m' = (update (rounds k).update_ns (rounds k).stats m).0 in
        run_loop runtime_sec start_time_ns rounds fuel (k + 1) m'
          ≡ some (updates (calls (k + 1) n) m')
        → run_loop runtime_sec start_time_ns rounds (suc fuel) k m
          ≡ some (updates (calls k (suc n)) m)
  unfolding run_loop calls updates
  run_loop-result fuel k n m f e =
      elim (Option-cases (update (rounds k).update_ns (rounds k).stats m).1) [
        | inl g ↦ rw (f, e, g, run_loop, updates, calls) refl
        | inr (l, g) ↦ rw (f, e, g, run_loop, updates, calls) refl
      ]

  run_loop-next :
      (fuel k : ℕ) (m : LiveMonitor)
      → is_over runtime_sec start_time_ns (rounds k) ≡ false
      → (let m' = (update (rounds k).update_ns (rounds k).stats m).0 in
          Ended (k + 1) m' (run_loop runtime_sec start_time_ns rounds fuel (k + 1) m'))
      → Ended k m (run_loop runtime_sec start_time_ns rounds (suc fuel) k m)
  run_loop-next fuel k m f r = record {
    count = suc r.count;
    over =
        subst (λ j. is_over runtime_sec start_time_ns (rounds j) ≡ true) (shift k r.count) r.over;
    before = before;
    result = run_loop-result fuel k r.count m f r.result;
  }
    where
      shift : (k n : ℕ) → k + 1 + n ≡ k + suc n
      shift k n = omega arith

      before :
          (i : ℕ) → i < suc r.count → is_over runtime_sec start_time_ns (rounds (k + i)) ≡ false
      before zero h =
          let here : k ≡ k + 0 = omega arith in
          subst (λ j. is_over runtime_sec start_time_ns (rounds j) ≡ false) here f
      before (suc i) h =
          subst (λ j. is_over runtime_sec start_time_ns (rounds j) ≡ false) (shift k i)
            (r.before i (omega arith))

  run_loop-total :
      (n fuel k : ℕ) (m : LiveMonitor)
      → Sleeping start_time_ns rounds n
      → 0 < runtime_sec
      → mul64 runtime_sec 1000000000 ≤ n * 50000000
      → k + fuel ≡ n
      → Ended k m (run_loop runtime_sec start_time_ns rounds (suc fuel) k m)
  run_loop-total n zero k m s some_time enough at =
      run_loop-over zero k m
        (timed_out runtime_sec start_time_ns rounds n k s some_time enough (omega (arith, at)))
  run_loop-total n (suc fuel) k m s some_time enough at =
      elim (Bool-cases (is_over runtime_sec start_time_ns (rounds k))) [
        | inl e ↦ run_loop-over (suc fuel) k m e
        | inr e ↦
            let m' = (update (rounds k).update_ns (rounds k).stats m).0 in
            run_loop-next (suc fuel) k m e
              (run_loop-total n fuel (k + 1) m' s some_time enough (omega (arith, at)))
      ]

  -- If each round sleeps 50 ms and the clock stays in 64 bits, a run with a time limit ends: the loop
  -- returns within the rounds that fit into that time, and one more. It ends at the first round that
  -- finds the time over or the program stopped, with the lines of the monitor's calls in those before.
  pub run_loop_lem :
      (m : LiveMonitor)
      → 0 < runtime_sec
      → Sleeping start_time_ns rounds (max_rounds runtime_sec)
      → Ended 0 m (run_loop runtime_sec start_time_ns rounds (max_rounds runtime_sec + 1) 0 m)
  run_loop_lem m some_time s =
      let n = max_rounds runtime_sec in
      let one : suc n ≡ n + 1 = omega arith in
      let r = run_loop-total n n 0 m s some_time (omega arith) (omega arith) in
      subst (λ f. Ended 0 m (run_loop runtime_sec start_time_ns rounds f 0 m)) one r
