-- ===== src/Monitor/Lines.antt =====
-- LiveMonitor::update over a run: the figures of the lines add up.
use xcopy_block_io.Common.{
  ℕ, ◌+◌, ◌*◌, ◌-◌, ◌≤◌, ◌<◌, ◌≡◌, refl, ◌⊎◌, inl, inr, List, [], ◌∷◌, none, some, arith, ltb,
  lt→ltb, ◌==◌, Bool-cases, Option-cases, sub64, u64_mod, sym, ap, subst, ◌∙◌,
}
use xcopy_block_io.Statistics.{Statistics}
use xcopy_block_io.Monitor.{LiveMonitor, Line, start, update, updates, line_at, advanced}

-- Calls of `update` at times and with counters that do not go down, all of them in 64 bits.
unfoldable pub Rising : ℕ → ℕ → ℕ → List (ℕ × Statistics) → Type 0
Rising t o b [] = Unit
Rising t o b ((now, s) ∷ calls) =
    (t ≤ now)
    × (now < u64_mod)
    × (o ≤ s.operations_completed)
    × (s.operations_completed < u64_mod)
    × (b ≤ s.bytes_copied)
    × (s.bytes_copied < u64_mod)
    × Rising now s.operations_completed s.bytes_copied calls

-- Lines from `t` nanoseconds, `o` operations and `b` bytes on: each stands an interval after the line
-- before it and shows the sums of the deltas so far, and the monitor keeps the sums of all.
pub AddsUp : LiveMonitor → ℕ → ℕ → ℕ → List Line → Type 0
AddsUp m t o b [] = (m.prev_time_ns ≡ m.start_time_ns + t) × (m.prev_ops ≡ o) × (m.prev_bytes ≡ b)
AddsUp m t o b (l ∷ lines) =
    (ops bytes : ℕ) × (l.inst ≡ some (ops, bytes))
    × (m.interval_ms * 1000000 ≤ l.delta_ns)
    × (l.elapsed_ns ≡ t + l.delta_ns)
    × (l.ops ≡ o + ops)
    × AddsUp m (t + l.delta_ns) (o + ops) (b + bytes) lines

-- A monitor at work: its last line stood at `prev_time_ns`, after the start.
pub record Working (m : LiveMonitor) : Type 0 where
  pub together : m.last_update_ns ≡ m.prev_time_ns
  pub started : m.start_time_ns ≤ m.prev_time_ns

sub64_lem : (a b : ℕ) → b ≤ a → a < u64_mod → sub64 a b ≡ a - b
sub64_lem a b h k = omega arith

-- A call prints nothing and changes nothing, or comes an interval after the last line.
update-cases :
    (now : ℕ) (s : Statistics) (m : LiveMonitor)
    → m.last_update_ns ≤ now
    → now < u64_mod
    → (update now s m ≡ (m, none))
      ⊎ (update now s m ≡ (advanced now s m, some (line_at now s m)))
        × (0 < m.interval_ms)
        × (m.interval_ms * 1000000 ≤ now - m.last_update_ns)
unfolding update
update-cases now s m h k = elim (Bool-cases (m.interval_ms == 0)) [
  | inl e ↦ inl (rw (e, update) refl)
  | inr e ↦ elim (Bool-cases (ltb (sub64 now m.last_update_ns) (m.interval_ms * 1000000))) [
    | inl f ↦ inl (rw (e, f, update) refl)
    | inr f ↦ inr (
      rw (e, f, update) refl,
      ground (arith, e),
      ground (arith, f, sub64_lem now m.last_update_ns h k),
    )
  ]
]

updates-silent :
    (now : ℕ) (s : Statistics) (calls : List (ℕ × Statistics)) (m : LiveMonitor)
    → update now s m ≡ (m, none)
    → updates ((now, s) ∷ calls) m ≡ updates calls m
unfolding updates
updates-silent now s calls m e =
    let e0 = ap (λ r. r.0) e in let e1 = ap (λ r. r.1) e in rw (e1, e0, updates) refl

updates-printed :
    (now : ℕ) (s : Statistics) (calls : List (ℕ × Statistics)) (m m' : LiveMonitor) (l : Line)
    → update now s m ≡ (m', some l)
    → updates ((now, s) ∷ calls) m ≡ ((updates calls m').0, l ∷ (updates calls m').1)
unfolding updates
updates-printed now s calls m m' l e =
    let e0 = ap (λ r. r.0) e in let e1 = ap (λ r. r.1) e in rw (e1, e0, updates) refl

line_at-inst :
    (now : ℕ) (s : Statistics) (m : LiveMonitor)
    → m.prev_time_ns < now
    → now < u64_mod
    → m.prev_ops ≤ s.operations_completed
    → s.operations_completed < u64_mod
    → m.prev_bytes ≤ s.bytes_copied
    → s.bytes_copied < u64_mod
    → (line_at now s m).inst
      ≡ some (s.operations_completed - m.prev_ops, s.bytes_copied - m.prev_bytes)
line_at-inst now s m h k ol ou bl bu =
    let e = sub64_lem s.operations_completed m.prev_ops ol ou in
    let f = sub64_lem s.bytes_copied m.prev_bytes bl bu in
    let g =
      lt→ltb 0 (sub64 now m.prev_time_ns)
        (omega (arith, sub64_lem now m.prev_time_ns (omega arith) k)) in
    rw (g, e, f) refl

-- A line in front of others, with the sums up to it given.
line-AddsUp :
    (m : LiveMonitor) (l : Line) (lines : List Line) (t o b t' o' b' : ℕ)
    → l.inst ≡ some (o' - o, b' - b)
    → o ≤ o'
    → b ≤ b'
    → m.interval_ms * 1000000 ≤ l.delta_ns
    → l.elapsed_ns ≡ t'
    → t' ≡ t + l.delta_ns
    → l.ops ≡ o'
    → AddsUp m t' o' b' lines
    → AddsUp m t o b (l ∷ lines)
unfolding AddsUp
line-AddsUp m l lines t o b t' o' b' inst ho hb due elapsed te ops sums =
    let oe : o' ≡ o + (o' - o) = omega arith in
    let be : b' ≡ b + (b' - b) = omega arith in
    let at_t = subst (λ x. AddsUp m x o' b' lines) te sums in
    let at_o = subst (λ x. AddsUp m (t + l.delta_ns) x b' lines) oe at_t in
    let at_b = subst (λ x. AddsUp m (t + l.delta_ns) (o + (o' - o)) x lines) be at_o in
    (o' - o, b' - b, inst, due, elapsed ∙ te, ops ∙ oe, at_b)

update-interval :
    (now : ℕ) (s : Statistics) (m : LiveMonitor) → (update now s m).0.interval_ms ≡ m.interval_ms
unfolding update
update-interval now s m = ground arith

updates-interval :
    (calls : List (ℕ × Statistics)) (m : LiveMonitor)
    → (updates calls m).0.interval_ms ≡ m.interval_ms
unfolding updates
updates-interval [] m = refl
updates-interval ((now, s) ∷ calls) m = elim (Option-cases (update now s m).1) [
  | inl e ↦ rw (e, updates) (updates-interval calls (update now s m).0 ∙ update-interval now s m)
  | inr (l, e) ↦
      rw (e, updates) (updates-interval calls (update now s m).0 ∙ update-interval now s m)
]

updates-AddsUp :
    (calls : List (ℕ × Statistics)) (m : LiveMonitor) (t o b : ℕ)
    → Working m
    → m.prev_time_ns ≤ t
    → m.prev_ops ≤ o
    → m.prev_bytes ≤ b
    → Rising t o b calls
    → AddsUp
        (updates calls m).0
        (m.prev_time_ns - m.start_time_ns)
        m.prev_ops
        m.prev_bytes
        (updates calls m).1
unfolding AddsUp updates Rising
updates-AddsUp [] m t o b w ht ho hb up = (omega (arith, w.started), refl, refl)
updates-AddsUp ((now, s) ∷ calls) m t o b w ht ho hb (tn, nu, oo, ou, bb, bu, up) =
    let last : m.last_update_ns ≤ now = omega (arith, w.together) in
    elim (update-cases now s m last nu) [
      | inl e ↦
          let rest =
            updates-AddsUp calls m now s.operations_completed s.bytes_copied w (omega arith)
              (omega arith) (omega arith) up in
          subst (λ r. AddsUp r.0 (m.prev_time_ns - m.start_time_ns) m.prev_ops m.prev_bytes r.1)
            (sym (updates-silent now s calls m e)) rest
      | inr (e, on, due) ↦
          let m' = advanced now s m in
          let l = line_at now s m in
          let working : Working m' = record {
            together = refl;
            started = omega (arith, w.started);
          } in
          let rest =
            updates-AddsUp calls m' now s.operations_completed s.bytes_copied working (omega arith)
              (omega arith) (omega arith) up in
          let inst =
            line_at-inst now s m (omega (arith, w.together)) nu (omega arith) ou (omega arith) bu in
          let delta = sub64_lem now m.prev_time_ns (omega arith) nu in
          let elapsed = sub64_lem now m.start_time_ns (omega (arith, w.started)) nu in
          let due' : (updates calls m').0.interval_ms * 1000000 ≤ l.delta_ns =
            omega (arith, delta, w.together, updates-interval calls m') in
          let sums =
            line-AddsUp (updates calls m').0 l (updates calls m').1
              (m.prev_time_ns - m.start_time_ns) m.prev_ops m.prev_bytes (now - m.start_time_ns)
              s.operations_completed s.bytes_copied inst (omega arith) (omega arith) due' elapsed
              (omega (arith, delta, w.started)) refl rest in
          subst (λ r. AddsUp r.0 (m.prev_time_ns - m.start_time_ns) m.prev_ops m.prev_bytes r.1)
            (sym (updates-printed now s calls m m' l e)) sums
    ]

-- From `start` on, with a clock and counters that do not go down and stay in 64 bits, each line of
-- `update` comes at least the interval after the line before it, or after the start, always has
-- rates, and shows as elapsed time and as operations the sums of the deltas of the lines so far. The
-- monitor keeps the sums of all the lines.
pub updates_lem :
    (now : ℕ) (m : LiveMonitor) (calls : List (ℕ × Statistics))
    → Rising now 0 0 calls
    → AddsUp (updates calls (start now m)).0 0 0 0 (updates calls (start now m)).1
unfolding start
updates_lem now m calls up =
    let began = start now m in
    let zeroed : began.prev_time_ns - began.start_time_ns ≡ 0 = omega arith in
    let sums =
      updates-AddsUp calls began now 0 0 (record { together = refl; started = omega arith })
        (omega arith) (omega arith) (omega arith) up in
    subst (λ t. AddsUp (updates calls began).0 t 0 0 (updates calls began).1) zeroed sums
