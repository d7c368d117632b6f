-- ===== src/Lba/Concurrent.antt =====
-- LbaManager under several threads: the loop of `get_and_advance_dst_lba` as separate atomic steps.
-- The bounds do not change here (`Torn` has `set_dst_range`); `reset_dst_lba` may come at any time.
use mathlib.Core.Logic.{ite}
use native.Mathlib.Decide.{ℕ_discrete}
use xcopy_block_io.Common.{ℕ, ◌<◌, ◌≡◌, refl, ap, List, [], ◌∷◌, arith}
use xcopy_block_io.Lba.{LbaManager, Reservation, reserve, get_and_advance_dst_lba, reset_dst_lba}

-- Where a thread stands: outside, before the load of the counter, or before the compare-exchange
-- with the value that it has loaded.
pub data Pc : Type 0 where
  outside : Pc
  looping : ℕ → Pc
  loaded : ℕ → ℕ → Pc

-- What has taken effect: a reservation with the block count and the LBA returned, or a reset.
pub data Event : Type 0 where
  reserved : ℕ → ℕ → Event
  was_reset : Event

pub record System : Type 0 where
  pub mgr : LbaManager
  pub pc : ℕ → Pc
  pub log : List Event  -- the latest first

abbrev pub update : (ℕ → Pc) → ℕ → Pc → ℕ → Pc
update f i p j = ite (ℕ_discrete i j) p (f j)

abbrev pub round : LbaManager → ℕ → ℕ → Reservation
round m total_blocks current = reserve m.dst_start m.dst_end total_blocks current

-- One atomic step. A weak compare-exchange may fail although the counter is as it was loaded.
pub data Step (s : System) : System → Type 0 where
  begin :
      (i total_blocks : ℕ)
      → s.pc i ≡ outside
      → 0 < total_blocks
      → Step s (record s { pc = update s.pc i (looping total_blocks) })
  load :
      (i total_blocks : ℕ)
      → s.pc i ≡ looping total_blocks
      → Step s (record s { pc = update s.pc i (loaded total_blocks s.mgr.dst_current) })
  exchange :
      (i total_blocks current : ℕ)
      → s.pc i ≡ loaded total_blocks current
      → s.mgr.dst_current ≡ current
      → Step s (record {
        mgr = record (s.mgr) { dst_current = (round s.mgr total_blocks current).next };
        pc = update s.pc i outside;
        log = reserved total_blocks (round s.mgr total_blocks current).result ∷ s.log;
      })
  fail :
      (i total_blocks current : ℕ)
      → s.pc i ≡ loaded total_blocks current
      → Step s (record s { pc = update s.pc i (looping total_blocks) })
  reset : Step s (record s { mgr = reset_dst_lba s.mgr; log = was_reset ∷ s.log })

pub data Reach (s : System) : System → Type 0 where
  here : Reach s s
  later : {t u : System} → Reach s t → Step t u → Reach s u

-- The manager after the events of a log, each as one uninterrupted call.
pub replay : LbaManager → List Event → LbaManager
replay m [] = m
replay m (reserved total_blocks result ∷ es) =
    (get_and_advance_dst_lba (replay m es) total_blocks).1
replay m (was_reset ∷ es) = reset_dst_lba (replay m es)

-- Each reservation of the log is of some blocks, and returned what the uninterrupted call returns.
abbrev pub AreAtomic : LbaManager → List Event → Type 0
AreAtomic m [] = Unit
AreAtomic m (reserved total_blocks result ∷ es) =
    (0 < total_blocks)
    × (result ≡ (get_and_advance_dst_lba (replay m es) total_blocks).0)
    × AreAtomic m es
AreAtomic m (was_reset ∷ es) = AreAtomic m es

-- What a thread has in its locals asks for some blocks.
abbrev IsBusy : Pc → Type 0
IsBusy outside = Unit
IsBusy (looping total_blocks) = 0 < total_blocks
IsBusy (loaded total_blocks current) = 0 < total_blocks

record Inv (m : LbaManager) (s : System) : Type 0 where
  explained : s.mgr ≡ replay m s.log
  atomic : AreAtomic m s.log
  busy : (i : ℕ) → IsBusy (s.pc i)

-- A round whose compare-exchange succeeds is the uninterrupted call.
round-is-call :
    (m : LbaManager) (total_blocks : ℕ)
    → 0 < total_blocks
    → get_and_advance_dst_lba m total_blocks ≡ (
      (round m total_blocks m.dst_current).result,
      record m { dst_current = (round m total_blocks m.dst_current).next },
    )
unfolding get_and_advance_dst_lba
round-is-call m total_blocks h = ground arith

IsBusy-at : {m : LbaManager} {s : System} (i : ℕ) {p : Pc} → Inv m s → s.pc i ≡ p → IsBusy p
IsBusy-at i inv e = ground (arith, inv.busy i)

Step-Inv : {m : LbaManager} {s t : System} → Step s t → Inv m s → Inv m t
unfolding replay
Step-Inv {s} (begin i n e p) inv = record {
  explained = inv.explained;
  atomic = inv.atomic;
  busy = λ j. ground (arith, inv.busy j);
}
Step-Inv {s} (load i n e) inv = record {
  explained = inv.explained;
  atomic = inv.atomic;
  busy = λ j. ground (arith, inv.busy j, inv.busy i);
}
Step-Inv {m} {s} (exchange i n c e same) inv = record {
  explained = ground (arith, round-is-call (replay m s.log) n (IsBusy-at i inv e), inv.explained);
  atomic = ground (
    arith,
    round-is-call (replay m s.log) n (IsBusy-at i inv e),
    inv.explained,
    inv.atomic,
    IsBusy-at i inv e,
  );
  busy = λ j. ground (arith, inv.busy j);
}
Step-Inv {s} (fail i n c e) inv = record {
  explained = inv.explained;
  atomic = inv.atomic;
  busy = λ j. ground (arith, inv.busy j, inv.busy i);
}
Step-Inv reset inv = record {
  explained = ap reset_dst_lba inv.explained;
  atomic = inv.atomic;
  busy = inv.busy;
}

abbrev pub start : LbaManager → System
start m = record { mgr = m; pc = λ i. outside; log = [] }

Reach-Inv : {m : LbaManager} {s : System} → Reach (start m) s → Inv m s
unfolding replay
Reach-Inv here = record { explained = refl; atomic = tt; busy = λ i. tt }
Reach-Inv (later r st) = Step-Inv st (Reach-Inv r)

-- However the loads, compare-exchanges (failed ones too) and resets of any number of threads are
-- interleaved, the manager is what the logged calls leave behind when made one by one in the order of
-- their compare-exchanges, and each returned the LBA that it returns then.
pub linearizable :
    (m : LbaManager) {s : System} → Reach (start m) s → (s.mgr ≡ replay m s.log) × AreAtomic m s.log
linearizable m r = let inv = Reach-Inv r in (inv.explained, inv.atomic)
