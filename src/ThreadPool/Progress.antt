-- ===== src/ThreadPool/Progress.antt =====
-- From the shutdown of the queue in `thread_pool_destroy` of src/thread_pool.c to its end.
use thread_management_librar.Base.{
  ℕ, zero, suc, ◌+◌, ◌-◌, ◌*◌, ◌≤◌, ◌<◌, ◌≡◌, refl, true, false, List, [], ◌∷◌, ◌==◌, ◌⊎◌, inl, inr,
  arith, Bool-cases, ap, length, size_mod,
}
use mathlib.Core.Path.{subst}
use thread_management_librar.Scheduler.Store.{Task}
use thread_management_librar.Scheduler.Fifo
use thread_management_librar.Scheduler.Fifo.{Fifo, took, closed}
use thread_management_librar.ThreadPool.System.{
  joining, finished, shutdown, is_terminated, Worker, at_pop, popped, starting, executing, returned,
  retired, notifying, exited, Client, holds_wait_lock, wake, Pool, pop_task, pop_closed, see_alive,
  raise_active, run_task, lower_active, raise_completed, broadcast, join, terminate, Step,
  WorkerStep, ClientStep, of_worker, of_destroyer, Reach, then_step,
}
use thread_management_librar.ThreadPool.Lifecycle.{Phase, Reach-Life}
use thread_management_librar.ThreadPool.Safety.{AllExecuted, destroy_drains}

-- A run from one state to another.
pub data Steps (n m : ℕ) : Pool → Pool → Type 0 where
  stay : {p : Pool} → Steps n m p p
  step_first : {p q r : Pool} → Step n m p q → Steps n m q r → Steps n m p r

-- Runs of the workers alone, and of client `j` alone.
pub data ByWorkers (n : ℕ) : Pool → Pool → Type 0 where
  none_moves : {p : Pool} → ByWorkers n p p
  worker_first :
      {p q r : Pool} (i : ℕ) → i < n → WorkerStep p i q → ByWorkers n q r → ByWorkers n p r

pub data ByClient (j : ℕ) : Pool → Pool → Type 0 where
  stands : {p : Pool} → ByClient j p p
  client_first : {p q r : Pool} → ClientStep p j q → ByClient j q r → ByClient j p r

pub Steps-Reach :
    {n m capacity : ℕ} {p p' : Pool} → Reach n m capacity p → Steps n m p p' → Reach n m capacity p'
Steps-Reach r stay = r
Steps-Reach r (step_first st steps) = Steps-Reach (then_step r st) steps

-- How many steps a worker is away from its exit, without the tasks in the queue.
abbrev rank : Worker → ℕ
rank exited = 0
rank at_pop = 1
rank notifying = 2
rank (retired t) = 3
rank (returned t) = 4
rank (executing t) = 5
rank (starting t) = 6
rank (popped t) = 7

rank_le : (w : Worker) → rank w ≤ 7
rank_le w = ground arith

abbrev left : ℕ → Pool → ℕ → ℕ
left n p k = 9 * length p.fifo.tasks + rank (p.worker k) + 10 * (n - k)

abbrev NoneHolds : Pool → Type 0
NoneHolds p = (j : ℕ) → holds_wait_lock (p.client j) ≡ false

wake-free : (c : Client) → holds_wait_lock c ≡ false → holds_wait_lock (wake c) ≡ false
wake-free c e = ground arith

-- One step on the way to the end.
abbrev Ahead : (n m : ℕ) → Pool → ℕ → Type 0
Ahead n m p k =
    (p' : Pool) × Step n m p p'
    × ((p'.destroyer ≡ finished)
        ⊎ ((k' : ℕ) × (p'.destroyer ≡ joining k') × NoneHolds p' × (left n p' k' < left n p k)))

module _ {n m : ℕ} {p : Pool} (k : ℕ) (lt : k < n) (joins : p.destroyer ≡ joining k)
    (free : NoneHolds p) (alive : p.state ≡ shutdown) (down : p.fifo.shutdown ≡ true) where
  -- The worker that is joined next takes a task, or leaves.
  ahead_pop : (ts : List Task) → p.fifo.tasks ≡ ts → p.worker k ≡ at_pop → Ahead n m p k
  unfolding Fifo.pop
  ahead_pop [] none_left w = (
    _,
    of_worker k lt (pop_closed {f = p.fifo} w (rw (none_left, down))),
    inr (k, joins, free, ground (arith, w)),
  )
  ahead_pop (t ∷ ts) some_left w = (
    _,
    of_worker k lt (pop_task {t = t} {f = record p.fifo { tasks = ts }} w (rw some_left)),
    inr (k, joins, free, ground (arith, w, ap length some_left)),
  )

  ahead_worker : (w : Worker) → p.worker k ≡ w → Ahead n m p k
  ahead_worker at_pop w = ahead_pop p.fifo.tasks refl w
  ahead_worker (popped t) w = (
    _,
    of_worker k lt (see_alive t w (ap is_terminated alive)),
    inr (k, joins, free, ground (arith, w)),
  )
  ahead_worker (starting t) w =
      (_, of_worker k lt (raise_active t w), inr (k, joins, free, ground (arith, w)))
  ahead_worker (executing t) w =
      (_, of_worker k lt (run_task t w), inr (k, joins, free, ground (arith, w)))
  ahead_worker (returned t) w =
      (_, of_worker k lt (lower_active t w), inr (k, joins, free, ground (arith, w)))
  ahead_worker (retired t) w =
      (_, of_worker k lt (raise_completed t w), inr (k, joins, free, ground (arith, w)))
  ahead_worker notifying w = (
    _,
    of_worker k lt (broadcast w free),
    inr (k, joins, λ j. wake-free (p.client j) (free j), ground (arith, w)),
  )
  ahead_worker exited w = (
    _,
    of_destroyer (join k joins lt w),
    inr (suc k, refl, free, omega (arith, ap rank w, rank_le (p.worker (suc k)))),
  )

ahead :
    {n m capacity : ℕ} {p : Pool} (k : ℕ)
    → Reach n m capacity p
    → p.destroyer ≡ joining k
    → NoneHolds p
    → Ahead n m p k
ahead {n} {m} {p} k r joins free =
    let (alive, down, le, gone) = subst (Phase n p) joins (Reach-Life r).phase in
    elim (Bool-cases (k == n)) [
      | inl all ↦ (_, of_destroyer (terminate k joins (ground arith)), inl refl)
      | inr more ↦ ahead_worker k (ground arith) joins free alive down (p.worker k) refl
    ]

run_to_end :
    {n m capacity : ℕ} (rounds : ℕ) {p : Pool} (k : ℕ)
    → Reach n m capacity p
    → p.destroyer ≡ joining k
    → NoneHolds p
    → left n p k < rounds
    → (p' : Pool) × Steps n m p p' × (p'.destroyer ≡ finished)
run_to_end zero k r joins free bound = absurd (omega arith)
run_to_end (suc rounds) k r joins free bound =
    let (q, st, after) = ahead k r joins free in
    elim after [
      | inl over ↦ (q, step_first st stay, over)
      | inr (k', joins', free', less) ↦
          let (p', run, over) = run_to_end rounds k' (then_step r st) joins' free' (omega arith) in
          (p', step_first st run, over)
    ]

-- `thread_pool_destroy` can always be finished: from every reachable state of a pool with at least one worker in
-- which it has shut the queue down, whatever is queued and whatever the workers do, and in which no client
-- holds the wait lock, there is a run to the state TERMINATED, and there the queue is drained, every task that was
-- ever accepted has been executed exactly once, and all workers have left.
pub destroy_can_finish :
    {n m capacity : ℕ} {p : Pool}
    → 0 < n
    → n < size_mod
    → Reach n m capacity p
    → (k : ℕ) → p.destroyer ≡ joining k
    → ((j : ℕ) → holds_wait_lock (p.client j) ≡ false)
    → (p' : Pool) × Steps n m p p'
      × (p'.destroyer ≡ finished)
      × AllExecuted p'
      × ((i : ℕ) → i < n → p'.worker i ≡ exited)
destroy_can_finish {n} {p} pos few r k joins free =
    let (p', steps, over) = run_to_end (suc (left n p k)) k r joins free (omega arith) in
    let (all, gone, _) = destroy_drains pos few (Steps-Reach r steps) over in
    (p', steps, over, all, gone)
