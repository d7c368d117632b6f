-- ===== src/Poll/System/Counted.antt =====
-- The workers of a run together: what a turn, and any number of turns, leave unchanged.
use xcopy_block_io.Common.{
  All_of, All-set, All-map, All-imp, length-map, ℕ, ◌+◌, ◌≤◌, ◌<◌, ◌≡◌, refl, inl, inr, List, [],
  ◌∷◌, map, true, some, arith, length, length-set, ◌*◌, get_elem?, All, Option-cases, u64_mod, sym,
  ap, subst,
}
use xcopy_block_io.Dma.{Alloc}
use xcopy_block_io.Pool.{PooledOperation}
use xcopy_block_io.Generator.{XcopyGenerator}
use xcopy_block_io.Poll.State.{PollThreadContext, World}
use xcopy_block_io.Poll.Submit.{Answers, submit_next_io, slot_at}
use xcopy_block_io.Poll.Balance.{sent}
use xcopy_block_io.Poll.Batch.{submit_next_io-counted}
use xcopy_block_io.Poll.Complete.{Completion, finish, xcopy_complete_cb}
use xcopy_block_io.Poll.Flight.{Balanced, InFlight, submit_next_io-Balanced, finish-Balanced}
use xcopy_block_io.Poll.Exit.Drain.{finish_lem, callback-finish, callback-alone}
use xcopy_block_io.Poll.Worker.{told, set_qpair}
use xcopy_block_io.Poll.Start.{ask_stop}
use xcopy_block_io.Poll.System.{
  System, seen, put, Turn, submits, completes, connects, asked, stops, Run, here, next,
}
use xcopy_block_io.Poll.System.Account.{
  recorded, total_outstanding, total-set, submit_next_io-stats, finish-recorded,
}

-- Every worker is balanced at depth `d`, and of `n` commands accepted each is recorded or outstanding.
pub record Counted (d limit : ℕ) (s : System) (n : ℕ) : Type 0 where
  pub workers : All (λ ctx. Balanced d (seen s ctx)) s.workers
  pub accounted : recorded s.stats + total_outstanding s.workers ≡ n
  pub few : length s.workers ≤ limit

-- The balance of a worker is a matter of its context alone.
Balanced-same : (d : ℕ) (v w : World) → v.ctx ≡ w.ctx → Balanced d w → Balanced d v
Balanced-same d v w e b =
    subst (λ c. Balanced d (record v { ctx = c })) (sym e)
      (record {
        depth = b.depth;
        pool = b.pool;
        within = b.within;
        sized = b.sized;
        small = b.small;
      })

-- One worker's call, of which SPDK accepts `k` commands.
record Effect (d : ℕ) (w v : World) (k : ℕ) : Type 0 where
  balanced : Balanced d v
  counted : recorded v.stats + v.ctx.outstanding_io ≡ recorded w.stats + w.ctx.outstanding_io + k

put-Counted :
    (d limit i n k : ℕ) (u : System) (ctx : PollThreadContext) (v : World)
    → get_elem? u.workers i ≡ some ctx
    → Effect d (seen u ctx) v k
    → Counted d limit u n
    → Counted d limit (put u i v) (n + k)
put-Counted d limit i n k u ctx v at eff c =
    let moved =
      All-imp (λ x. Balanced d (seen u x)) (λ x. Balanced d (seen (put u i v) x)) u.workers
        (λ x b. Balanced-same d (seen (put u i v) x) (seen u x) refl b) c.workers in
    record {
      workers =
          All-set (λ x. Balanced d (seen (put u i v) x)) u.workers i v.ctx
            (Balanced-same d (seen (put u i v) v.ctx) v refl eff.balanced) moved;
      accounted = omega (arith, total-set u.workers i ctx v.ctx at, eff.counted, c.accounted);
      few = omega (arith, length-set u.workers i v.ctx, c.few);
    }

module _ (alloc : Alloc) (g : XcopyGenerator) (d : ℕ) where
  submit-Effect :
      (ans : Answers) (w : World)
      → Balanced d w
      → let s = submit_next_io alloc g ans w in Effect d w s.world (sent s.submitted)
  submit-Effect ans w b =
      let (counted, target) = submit_next_io-counted alloc g (λ k. ans) d ans w b in
      let same = ap recorded (submit_next_io-stats alloc g ans w) in
      record {
        balanced = submit_next_io-Balanced alloc g ans d w b;
        counted = omega (arith, counted, same);
      }

  finish-Effect :
      (now : ℕ) (cpl : Completion) (i : ℕ) (op : PooledOperation) (w : World)
      → slot_at i w.ctx.op_pool ≡ some op
      → op.in_use ≡ true
      → recorded w.stats + w.ctx.outstanding_io < u64_mod
      → Balanced d w
      → Effect d w (finish now cpl i op w) 0
  finish-Effect now cpl i op w at busy low b =
      let b' = finish-Balanced d now cpl i op w at busy b in
      let (same, less) = finish_lem alloc g now cpl i op w in
      let one : (finish now cpl i op w).ctx.outstanding_io + 1 ≡ w.ctx.outstanding_io =
        omega (arith, less, b'.within, b'.depth, b'.small, b.within, b.small, b.depth) in
      let more = finish-recorded now cpl i op w (omega arith) in
      record { balanced = b'; counted = omega arith }

  complete-Effect :
      (ans : Answers) (now : ℕ) (cpl : Completion) (i : ℕ) (w : World)
      → InFlight w i
      → recorded w.stats + w.ctx.outstanding_io < u64_mod
      → Balanced d w
      → let s = xcopy_complete_cb alloc g ans now cpl (some i) w in
        Effect d w s.world (sent s.submitted)
  unfolding InFlight sent
  complete-Effect ans now cpl i w (op, at, busy) low b = elim (Option-cases op.user_data) [
    | inl e ↦
        subst (λ s. Effect d w s.world (sent s.submitted))
          (sym (callback-alone alloc g ans now cpl i op w at e))
          (record { balanced = b; counted = omega arith })
    | inr (id, e) ↦
        let f = finish-Effect now cpl i op w at busy low b in
        let s = submit-Effect ans (finish now cpl i op w) f.balanced in
        subst (λ s. Effect d w s.world (sent s.submitted))
          (sym (callback-finish alloc g ans now cpl i id op w at e))
          (record { balanced = s.balanced; counted = omega (arith, s.counted, f.counted) })
  ]

total-map :
    (ctxs : List PollThreadContext) → total_outstanding (map ask_stop ctxs) ≡ total_outstanding ctxs
total-map [] = refl
total-map (c ∷ cs) = omega (arith, total-map cs)

total-le :
    (ctxs : List PollThreadContext) (i : ℕ) (ctx : PollThreadContext)
    → get_elem? ctxs i ≡ some ctx
    → ctx.outstanding_io ≤ total_outstanding ctxs
total-le ctxs i ctx at = omega (arith, total-set ctxs i ctx (record ctx { outstanding_io = 0 }) at)

-- In a balanced system never more commands are outstanding than the depth allows all workers.
pub total_within :
    (d : ℕ) (s : System) (ctxs : List PollThreadContext)
    → All (λ ctx. Balanced d (seen s ctx)) ctxs
    → total_outstanding ctxs ≤ length ctxs * d
total_within d s [] all = omega arith
total_within d s (c ∷ cs) (b, all) = omega (arith, b.within, b.depth, total_within d s cs all)

module _ (alloc : Alloc) (g : XcopyGenerator) (d limit : ℕ) where
  moved :
      {v' : System} {k k' : ℕ} (v : System) (n : ℕ)
      → v ≡ v'
      → k ≡ k'
      → Counted d limit v' (n + k')
      → Counted d limit v (n + k)
  moved {v'} {k} {k'} v n to sum c =
      subst (λ j. Counted d limit v (n + j)) (sym sum)
        (subst (λ x. Counted d limit x (n + k')) (sym to) c)

  Turn-Counted :
      (u v : System) (n k : ℕ)
      → Turn alloc g u v k
      → n < u64_mod
      → Counted d limit u n
      → Counted d limit v (n + k)
  unfolding set_qpair
  Turn-Counted u v n k (submits i ctx ans at to sum) low c =
      let b = All_of (λ x. Balanced d (seen u x)) u.workers i ctx at c.workers in
      let r = put-Counted d limit i n _ u ctx _ at (submit-Effect alloc g d ans (seen u ctx) b) c in
      moved v n to sum r
  Turn-Counted u v n k (completes i slot ctx ans now cpl at fly to sum) low c =
      let b = All_of (λ x. Balanced d (seen u x)) u.workers i ctx at c.workers in
      let few : recorded u.stats + ctx.outstanding_io < u64_mod =
        omega (arith, total-le u.workers i ctx at, c.accounted) in
      let eff = complete-Effect alloc g d ans now cpl slot (seen u ctx) fly few b in
      moved v n to sum (put-Counted d limit i n _ u ctx _ at eff c)
  Turn-Counted u v n k (connects i ctx qpair at to sum) low c =
      let b = All_of (λ x. Balanced d (seen u x)) u.workers i ctx at c.workers in
      let b' : Balanced d (set_qpair qpair (seen u ctx)) = record {
        depth = b.depth;
        pool = b.pool;
        within = b.within;
        sized = b.sized;
        small = b.small;
      } in
      let eff : Effect d (seen u ctx) (set_qpair qpair (seen u ctx)) 0 = record {
        balanced = b';
        counted = omega arith;
      } in
      moved v n to sum (put-Counted d limit i n 0 u ctx _ at eff c)
  Turn-Counted u v n k (asked i ctx at to sum) low c =
      let b = All_of (λ x. Balanced d (seen u x)) u.workers i ctx at c.workers in
      let b' : Balanced d (told (seen u ctx)) = record {
        depth = b.depth;
        pool = b.pool;
        within = b.within;
        sized = b.sized;
        small = b.small;
      } in
      let eff : Effect d (seen u ctx) (told (seen u ctx)) 0 = record {
        balanced = b';
        counted = omega arith;
      } in
      moved v n to sum (put-Counted d limit i n 0 u ctx _ at eff c)
  Turn-Counted u v n k (stops to sum) low c =
      let after = record u { workers = map ask_stop u.workers } in
      let all =
        All-map (λ x. Balanced d (seen u x)) (λ x. Balanced d (seen after x)) ask_stop u.workers
          (λ x b. record {
            depth = b.depth;
            pool = b.pool;
            within = b.within;
            sized = b.sized;
            small = b.small;
          })
          c.workers in
      let r : Counted d limit after (n + 0) = record {
        workers = all;
        accounted = omega (arith, total-map u.workers, c.accounted);
        few = omega (arith, length-map ask_stop u.workers, c.few);
      } in
      moved v n to sum r

  pub Run-Counted :
      (u v : System) (m n : ℕ)
      → Run alloc g u v n
      → m + n < u64_mod
      → Counted d limit u m
      → Counted d limit v (m + n)
  Run-Counted u v m n here low c = subst (Counted d limit u) (omega arith) c
  Run-Counted u v m n (next mid _ a k run turn) low c =
      let before = Run-Counted u mid m a run (omega arith) c in
      subst (Counted d limit v) (omega arith)
        (Turn-Counted mid v (m + a) k turn (omega arith) before)
