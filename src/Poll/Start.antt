-- ===== src/Poll/Start.antt =====
-- PollThreadManager: start and stop, and how a worker gets its queue pair.
use xcopy_block_io.Common.{
  ℕ, zero, suc, ◌+◌, ◌/◌, ◌%◌, List, [], ◌∷◌, ◌++◌, map, Bool, true, false, Option, none, some, ltb,
  ◌==◌, if◌then◌else◌, mul32,
}
use xcopy_block_io.Dma.{Heap, Alloc}
use xcopy_block_io.Pool
use xcopy_block_io.Pool.{OperationPool}
use xcopy_block_io.Poll.State.{PollThreadContext, new_context}

unfoldable pub per_thread_depth : ℕ → ℕ → ℕ → ℕ
per_thread_depth iodepth effective_cores max_queue_depth =
    let share = iodepth / effective_cores in
    let at_least = if ltb share 4 then 4 else share in
    let capable = if ltb max_queue_depth at_least then max_queue_depth else at_least in
    if ltb 1024 capable then 1024 else capable

-- The loop over the controllers, with the attempts left, from `ctrlr_idx` on: the queue pair and its
-- controller. `create` is what SPDK answers for this worker at each controller.
unfoldable pub create_on : (ℕ → Option ℕ) → ℕ → ℕ → ℕ → Option (ℕ × ℕ)
create_on create num_controllers zero ctrlr_idx = none
create_on create num_controllers (suc attempts) ctrlr_idx = elim (create ctrlr_idx) [
  | some qpair ↦ some (qpair, ctrlr_idx)
  | none ↦ create_on create num_controllers attempts ((ctrlr_idx + 1) % num_controllers)
]

-- An answer of `spdk_nvme_qpair_process_completions`: not negative, -ENXIO or -ENODEV, or another error.
pub data Polled : Type 0 where
  good gone bad : Polled

pub data Connection : Type 0 where
  connected failed timed_out : Connection

-- The loop that waits for the connection, with the polls left, from call `k` of SPDK on.
unfoldable pub connect : (ℕ → Polled) → ℕ → ℕ → Connection
connect polls zero k = timed_out
connect polls (suc n) k = elim (polls k) [
  | good ↦ elim (polls (k + 1)) [
    | good ↦ connected
    | gone ↦ connect polls n (k + 2)
    | bad ↦ connect polls n (k + 2)
  ]
  | gone ↦ failed
  | bad ↦ connect polls n (k + 1)
]

abbrev pub max_polls : ℕ
max_polls = 5000

-- The manager, with the queue pairs handed to `delete_qpair` and the memory.
pub record PollThreadManager : Type 0 where
  pub num_cores : ℕ
  pub iodepth : ℕ
  pub range_size : ℕ
  pub max_ranges : ℕ  -- of its generator
  pub threads : List PollThreadContext
  pub running : Bool
  pub deleted : List ℕ
  pub heap : Heap

-- What SPDK answers: the controllers, the queue depth of the first, and for each worker the queue
-- pairs and the polls.
pub record Site : Type 0 where
  pub num_controllers : ℕ
  pub max_queue_depth : ℕ
  pub create : ℕ → ℕ → Option ℕ
  pub polls : ℕ → ℕ → Polled

-- One round of the loop of `start`: a worker launched, or why not.
pub data Launch : Type 0 where
  launched : PollThreadContext → Heap → Launch
  no_pool : Heap → Launch
  no_qpair : Heap → Launch
  no_connection : ℕ → Heap → Launch

abbrev pub prepared : ℕ → ℕ → ℕ → OperationPool → PollThreadContext
prepared i depth range_size pool = record new_context {
  thread_id = i;
  target_iodepth = depth;
  range_size = range_size;
  op_pool = pool;
}

-- From the queue pair on.
unfoldable pub attach : (ℕ → Polled) → PollThreadContext → Option (ℕ × ℕ) → Heap → Launch
unfolding connect
attach polls ctx none h = no_qpair h
attach polls ctx (some (qpair, ctrlr_idx)) h = elim (connect polls max_polls 0) [
  | connected ↦ launched (record ctx { qpair = some qpair; ctrlr_index = ctrlr_idx }) h
  | failed ↦ no_connection qpair h
  | timed_out ↦ no_connection qpair h
]

unfoldable pub launch : Alloc → Site → PollThreadManager → ℕ → ℕ → Heap → Launch
unfolding create_on attach
launch alloc site m depth i h =
    let (ready, pool, h') = Pool.init alloc Pool.empty (mul32 depth 2) m.max_ranges h in
    let num = site.num_controllers in
    let made = create_on (site.create i) num num (i % num) in
    if ready then attach (site.polls i) (prepared i depth m.range_size pool) made h' else no_pool h'

unfoldable pub qpairs : List PollThreadContext → List ℕ
qpairs [] = []
qpairs (t ∷ ts) = elim t.qpair [ none ↦ qpairs ts | some q ↦ q ∷ qpairs ts ]

-- The end of `start`: true for a return of 0.
unfoldable pub conclude : PollThreadManager → Bool × PollThreadManager
conclude m = elim m.threads [ [] ↦ (false, m) | t ∷ ts ↦ (true, record m { running = true }) ]

-- The loop over the workers, with those left, from worker `i` on.
unfoldable pub start_from : Alloc → Site → ℕ → ℕ → ℕ → PollThreadManager → Bool × PollThreadManager
unfolding launch qpairs conclude
start_from alloc site depth zero i m = conclude m
start_from alloc site depth (suc n) i m = elim (launch alloc site m depth i m.heap) [
  | launched ctx h ↦
      start_from alloc site depth n (i + 1)
        (record m { threads = m.threads ++ (ctx ∷ []); heap = h })
  | no_pool h ↦ (false, record m { heap = h })
  | no_qpair h ↦ conclude (record m { heap = h })
  | no_connection q h ↦ (false, record m { deleted = q ∷ qpairs m.threads ++ m.deleted; heap = h })
]

unfoldable pub start : Alloc → Site → PollThreadManager → Bool × PollThreadManager
unfolding start_from per_thread_depth
start alloc site m =
    let depth = per_thread_depth m.iodepth m.num_cores site.max_queue_depth in
    let cleared = record m { threads = [] } in
    if m.running
    then (true, m)
    else (if site.num_controllers == 0
        then (false, cleared)
        else start_from alloc site depth m.num_cores 0 cleared)

abbrev pub ask_stop : PollThreadContext → PollThreadContext
ask_stop ctx = record ctx { should_stop = true }

unfoldable pub stop : PollThreadManager → PollThreadManager
stop m = if m.running then record m { running = false; threads = map ask_stop m.threads } else m
