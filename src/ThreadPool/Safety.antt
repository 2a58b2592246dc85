-- ===== src/ThreadPool/Safety.antt =====
-- The tasks, the counters and the waiting clients of a pool of src/thread_pool.c.
use thread_management_librar.Base.{
  ℕ, ◌+◌, ◌≤◌, ◌<◌, ◌≡◌, refl, Bool, true, false, List, [], ◌∷◌, ◌++◌, ltb, ◌⊎◌, inl, inr, arith,
  ap, ◌∙◌, size_mod, length,
}
use mathlib.Core.Path.{subst}
use thread_management_librar.Base.Threads.{
  how_many, how_many-none, how_many-le, find_one, how_many_mono,
}
use thread_management_librar.Scheduler.Store.{Task}
use thread_management_librar.ThreadPool.System.{
  finished, Worker, notifying, exited, comparing, bounding, asleep, woken, holds_wait_lock, Pool,
  broadcast, WorkerStep, Reach,
}
use thread_management_librar.ThreadPool.Lifecycle.{Phase, Reach-Life}
use thread_management_librar.ThreadPool.Counts.{
  is_counting, is_active, carries, count_of, count_of-append, Counted,
}
use thread_management_librar.ThreadPool.CountSteps.{Reach-Counted}
use thread_management_librar.ThreadPool.Waits.{is_notifying, Notifying, executed-le}
use thread_management_librar.ThreadPool.WaitSteps.{Reach-Waits}

-- No worker has a task, from its pop to the return of the task's function.
abbrev pub NoneCarried : ℕ → Pool → Type 0
NoneCarried n p = (q : Task → Bool) → how_many (carries q) n p.worker ≡ 0

-- Every accepted task has been executed exactly once, and none is queued.
pub record AllExecuted (p : Pool) : Type 0 where
  pub none_queued : p.fifo.tasks ≡ []
  pub same : (q : Task → Bool) → count_of q p.executed ≡ count_of q p.accepted

-- In every reachable state the tasks are taken in the order in which they were accepted, each once,
-- and each taken task has been executed once or is carried by exactly one worker: for every test,
-- as many tasks pass it among the accepted as among the executed, the carried and the queued.
pub tasks_accounted :
    {n m capacity : ℕ} {p : Pool}
    → n < size_mod
    → Reach n m capacity p
    → (p.accepted ≡ p.taken ++ p.fifo.tasks)
      × ((q : Task → Bool)
          → count_of q p.accepted
            ≡ count_of q p.executed + how_many (carries q) n p.worker + count_of q p.fifo.tasks)
tasks_accounted {p} few r =
    let h = Reach-Counted few r in
    (
      h.order,
      λ q. omega (arith, h.each q, ap (count_of q) h.order, count_of-append q p.taken p.fifo.tasks),
    )

-- In every reachable state `active_tasks` is the number of workers between the two updates that
-- surround a task, at most the number of workers; so its decrement never wraps around.
pub active_tasks_right :
    {n m capacity : ℕ} {p : Pool}
    → n < size_mod
    → Reach n m capacity p
    → (p.active_tasks ≡ how_many is_active n p.worker) × (p.active_tasks ≤ n)
active_tasks_right {n} {p} few r =
    let h = Reach-Counted few r in
    (h.active, omega (arith, h.active, how_many-le is_active n p.worker))

pub length-eq-zero : (ts : List Task) → length ts ≡ 0 → ts ≡ []
length-eq-zero [] e = refl
length-eq-zero (t ∷ ts) e = absurd (omega arith)

pub all_executed :
    {n m : ℕ} {p : Pool} → Counted n m p → p.fifo.tasks ≡ [] → NoneCarried n p → AllExecuted p
all_executed {p} h empty none_carried = record {
  none_queued = empty;
  same = λ q. omega (
    arith,
    h.each q,
    none_carried q,
    ap (count_of q) h.order,
    count_of-append q p.taken p.fifo.tasks,
    ap (count_of q) empty,
  );
}

-- When `thread_pool_destroy` of a pool with at least one worker has set the state to TERMINATED, the
-- queue has been drained: every task that was ever accepted has been executed exactly once, all
-- workers have left, and no task is active.
pub destroy_drains :
    {n m capacity : ℕ} {p : Pool}
    → 0 < n
    → n < size_mod
    → Reach n m capacity p
    → p.destroyer ≡ finished
    → AllExecuted p × ((i : ℕ) → i < n → p.worker i ≡ exited) × (p.active_tasks ≡ 0)
destroy_drains {n} {p} pos few r over =
    let life = Reach-Life r in
    let h = Reach-Counted few r in
    let (state, down, gone) = subst (Phase n p) over life.phase in
    let (_, empty) = life.drained 0 (gone 0 pos) in
    (
      all_executed h empty (λ q. none_passes (carries q) (λ w e. rw e) gone),
      gone,
      h.active ∙ none_passes is_active (λ w e. rw e) gone,
    )
  where
    none_passes :
        (test : Worker → Bool)
        → ((w : Worker) → w ≡ exited → test w ≡ false)
        → ((i : ℕ) → i < n → p.worker i ≡ exited)
        → how_many test n p.worker ≡ 0
    none_passes test fails gone =
        how_many-none test n p.worker (λ i lt. fails (p.worker i) (gone i lt))

-- Client `j` is at the test of `thread_pool_wait` and is about to return 0. If it loaded `submitted_tasks` first, no
-- task has been counted since.
pub data AtReturn (p : Pool) (j : ℕ) : Type 0 where
  completed_first :
      (c : ℕ) → p.client j ≡ comparing c → ltb c p.submitted_tasks ≡ false → AtReturn p j
  submitted_first :
      (s : ℕ)
      → p.client j ≡ bounding s
      → ltb p.completed_tasks s ≡ false
      → p.submitted_tasks ≡ s
      → AtReturn p j

AtReturn-le :
    {n m capacity : ℕ} {p : Pool}
    → n < size_mod
    → Reach n m capacity p
    → length p.accepted < size_mod
    → (j : ℕ) → AtReturn p j
    → p.submitted_tasks ≤ p.completed_tasks
AtReturn-le {p} few r small j (completed_first c e enough) =
    let (le, now) = (Reach-Waits few r small).loaded j c e in
    let reached : p.submitted_tasks ≤ c = ground arith in omega arith
AtReturn-le few r small j (submitted_first s e enough same) = ground arith

-- When `thread_pool_wait` finds `completed_tasks` not below `submitted_tasks` and returns 0 while no
-- other call stands between its push and its count, every task that was accepted so far has been
-- executed and counted, and none is queued; for fewer than 2 ^ 64 tasks. It may have loaded `completed_tasks` first,
-- or `submitted_tasks` first and no task was counted between the two loads.
pub wait_return_all_done :
    {n m capacity : ℕ} {p : Pool}
    → n < size_mod
    → Reach n m capacity p
    → length p.accepted < size_mod
    → (j : ℕ) → AtReturn p j
    → how_many is_counting m p.client ≡ 0
    → AllExecuted p × (p.completed_tasks ≡ length p.accepted)
wait_return_all_done {n} {m} {p} few r small j at_return quiet =
    let h = Reach-Counted few r in
    let all = executed-le h in
    let reached = AtReturn-le few r small j at_return in
    let total : p.completed_tasks ≡ length p.accepted =
      omega (arith, h.completed, h.settled, h.submitted, h.announced) in
    let none_carried : how_many (carries (λ _. true)) n p.worker ≡ 0 =
      omega (arith, h.completed, h.settled, h.submitted, h.announced) in
    let empty =
      length-eq-zero p.fifo.tasks
        (omega (arith, h.completed, h.settled, h.submitted, h.announced)) in
    (
      all_executed h empty (λ q. omega (
        arith,
        none_carried,
        how_many_mono (carries (λ _. true)) (carries q) (any q) n p.worker,
      )),
      total,
    )
  where
    any : (q : Task → Bool) (w : Worker) → carries q w ≡ true → carries (λ _. true) w ≡ true
    any q w e = ground arith

is_notifying-eq : (w : Worker) → is_notifying w ≡ true → w ≡ notifying
is_notifying-eq w found = ground arith

-- While a client sleeps in `thread_pool_wait` although no task is open, a worker is about to
-- broadcast; for fewer than 2 ^ 64 tasks.
pub waiter_has_notifier :
    {n m capacity : ℕ} {p : Pool}
    → n < size_mod
    → Reach n m capacity p
    → length p.accepted < size_mod
    → (j : ℕ) → p.client j ≡ asleep
    → p.submitted_tasks ≤ p.completed_tasks
    → (i : ℕ) × (i < n) × (p.worker i ≡ notifying)
waiter_has_notifier {n} {p} few r small j e all_done =
    let (i, lt, found) =
      find_one is_notifying n p.worker (coming ((Reach-Waits few r small).sleepers j e)) in
    (i, lt, is_notifying-eq (p.worker i) found)
  where
    coming : (p.completed_tasks < p.submitted_tasks) ⊎ Notifying n p → Notifying n p
    coming (inl open_task) = absurd (omega arith)
    coming (inr some_worker) = some_worker

-- No wake-up of `thread_pool_wait` is lost: if a client sleeps in it although no task is open, then a worker
-- is before its broadcast, and, as soon as no client holds the lock, a step of that worker is possible that
-- wakes the client; for fewer than 2 ^ 64 tasks.
pub waiter_is_woken :
    {n m capacity : ℕ} {p : Pool}
    → n < size_mod
    → Reach n m capacity p
    → length p.accepted < size_mod
    → (j : ℕ) → p.client j ≡ asleep
    → p.submitted_tasks ≤ p.completed_tasks
    → ((k : ℕ) → holds_wait_lock (p.client k) ≡ false)
    → (i : ℕ) × (i < n)
      × (p.worker i ≡ notifying)
      × (p' : Pool) × WorkerStep p i p'
      × (p'.client j ≡ woken)
waiter_is_woken few r small j e all_done free =
    let (i, lt, here) = waiter_has_notifier few r small j e all_done in
    (i, lt, here, _, broadcast here free, rw e)
