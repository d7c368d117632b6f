-- ===== src/Poll/Batch.antt =====
-- The loop of thread_func that submits in batches.
use xcopy_block_io.Common.{
  ℕ, zero, suc, ◌+◌, ◌≤◌, ◌<◌, ◌≡◌, refl, inl, inr, arith, ltb, Bool-cases, u32_mod, ◌∙◌,
}
use xcopy_block_io.Dma.{Alloc}
use xcopy_block_io.Generator.{XcopyGenerator}
use xcopy_block_io.Poll.State.{World}
use xcopy_block_io.Poll.Submit.{Answers, submit_next_io}
use xcopy_block_io.Poll.Balance.{sent, submit_next_io-Balance}
use xcopy_block_io.Poll.Complete.{submit_batch}
use xcopy_block_io.Poll.Flight.{Balanced, submit_next_io-Balanced}

-- From `submitted` and `w`, with `n` rounds left: the new count of commands sent, and the world.
pub record Batch (d : ℕ) (w : World) (n submitted : ℕ) (r : ℕ × World) : Type 0 where
  pub balanced : Balanced d (r.1)
  pub target : r.1.ctx.target_iodepth ≡ w.ctx.target_iodepth
  pub counted : r.1.ctx.outstanding_io + submitted ≡ w.ctx.outstanding_io + r.0
  pub from : submitted ≤ r.0
  pub limited : r.0 ≤ submitted + n

module _ (alloc : Alloc) (g : XcopyGenerator) (ans : ℕ → Answers) where
  -- A submission from a balanced world: what it adds to the commands outstanding.
  pub submit_next_io-counted :
      (d : ℕ) (a : Answers) (w : World)
      → Balanced d w
      → let s = submit_next_io alloc g a w in
        (s.world.ctx.outstanding_io ≡ w.ctx.outstanding_io + sent s.submitted)
        × (s.world.ctx.target_iodepth ≡ w.ctx.target_iodepth)
  unfolding sent
  submit_next_io-counted d a w b =
      let within = b.within in
      let small = b.small in
      let low : w.ctx.outstanding_io < u32_mod = omega arith in
      let c = submit_next_io-Balance alloc g a w w.ctx.outstanding_io low b.pool in
      (ground (arith, c.outstanding), c.target)

  -- From a balanced world, a batch of at most `n` submissions ends in a balanced world of the same
  -- depth; the count that it has added, at most `n`, is by how much `outstanding_io` has grown.
  pub submit_batch-Batch :
      (d n submitted : ℕ) (w : World)
      → Balanced d w
      → Batch d w n submitted (submit_batch alloc g ans n submitted w)
  unfolding submit_batch sent
  submit_batch-Batch d zero submitted w b = record {
    balanced = b;
    target = refl;
    counted = refl;
    from = omega arith;
    limited = omega arith;
  }
  submit_batch-Batch d (suc n) submitted w b =
      let s = submit_next_io alloc g (ans submitted) w in
      let b' = submit_next_io-Balanced alloc g (ans submitted) d w b in
      let (counted, target) = submit_next_io-counted d (ans submitted) w b in
      let rest = submit_batch-Batch d n (submitted + 1) s.world b' in
      elim (Bool-cases (ltb w.ctx.outstanding_io w.ctx.target_iodepth)) [
        | inr e ↦
            rw (e, submit_batch)
              (record {
                balanced = b;
                target = refl;
                counted = refl;
                from = omega arith;
                limited = omega arith;
              })
        | inl e ↦ elim (Bool-cases s.submitted) [
          | inl t ↦
              rw (e, t, submit_batch)
                (record {
                  balanced = rest.balanced;
                  target = rest.target ∙ target;
                  counted = ground (arith, rest.counted, counted, t);
                  from = omega (arith, rest.from);
                  limited = omega (arith, rest.limited);
                })
          | inr t ↦
              rw (e, t, submit_batch)
                (record {
                  balanced = b';
                  target = target;
                  counted = ground (arith, counted, t);
                  from = omega arith;
                  limited = omega arith;
                })
        ]
      ]
