-- ===== src/ThreadPool/WaitReturns.antt =====
-- From a client that sleeps in `thread_pool_wait` of src/thread_pool.c to the return of its call.
use thread_management_librar.Base.{
  ℕ, suc, ◌≤◌, ◌<◌, ◌≡◌, Bool, true, false, inl, inr, arith, Bool-cases, ap, length, size_mod,
}
use thread_management_librar.Base.Threads.{assign, how_many, how_many-none}
use thread_management_librar.Base.Totals.{total, total-one}
use thread_management_librar.ThreadPool.System.{
  Worker, Client, waiting, comparing, asleep, woken, done, holds_wait_lock, Pool, relock,
  load_completed, return_zero, Reach,
}
use thread_management_librar.ThreadPool.Counts.{carries, is_uncounted}
use thread_management_librar.ThreadPool.CountSteps.{Reach-Counted}
use thread_management_librar.ThreadPool.Waits.{executed-le}
use thread_management_librar.ThreadPool.Safety.{
  AllExecuted, all_executed, length-eq-zero, waiter_has_notifier,
}
use thread_management_librar.ThreadPool.Progress.{ByWorkers, ByClient, stands, client_first}
use thread_management_librar.ThreadPool.Settling.{rank, NoneHolds, InWait, load, settle}

module _ (n m : ℕ) where
  -- No worker is in any of the places that a test finds.
  none_passes :
      (p : Pool) (test : Worker → Bool)
      → ((w : Worker) → test w ≡ true → 0 < rank w)
      → total rank n p.worker ≡ 0
      → how_many test n p.worker ≡ 0
  none_passes p test busy idle = how_many-none test n p.worker λ i lt.
      elim (Bool-cases (test (p.worker i))) [
        | inl found ↦
            absurd (omega (arith, busy (p.worker i) found, total-one rank n i p.worker lt, idle))
        | inr passed ↦ passed
      ]

  all_counted :
      {capacity : ℕ} {p : Pool}
      → n < size_mod
      → Reach n m capacity p
      → length p.accepted < size_mod
      → load n m p ≡ 0
      → p.submitted_tasks ≤ p.completed_tasks
  all_counted {p} few r small idle =
      let h = Reach-Counted few r in
      let no_rank : total rank n p.worker ≡ 0 = omega (arith, idle) in
      omega (
        arith,
        h.completed,
        h.settled,
        h.submitted,
        h.announced,
        executed-le h,
        idle,
        none_passes p is_uncounted (λ w e. ground arith) no_rank,
        none_passes p (carries (λ _. true)) (λ w e. ground arith) no_rank,
      )

  all_run :
      {capacity : ℕ} {p : Pool}
      → n < size_mod
      → Reach n m capacity p
      → load n m p ≡ 0
      → AllExecuted p
  all_run {p} few r idle =
      all_executed (Reach-Counted few r) (length-eq-zero p.fifo.tasks (omega (arith, idle)))
        (λ q. none_passes p (carries q) (λ w e. ground arith) (omega (arith, idle)))

  -- The client has been woken.
  awake :
      {capacity j : ℕ} {p : Pool}
      → n < size_mod
      → Reach n m capacity p
      → length p.accepted < size_mod
      → load n m p ≡ 0
      → InWait (p.client j)
      → p.client j ≡ woken
  awake {j} {p} few r small idle (inr e) = e
  awake {j} {p} few r small idle (inl e) =
      let (i, lt, at) = waiter_has_notifier few r small j e (all_counted few r small idle) in
      absurd (omega (arith, total-one rank n i p.worker lt, ap rank at, idle))

  assign-here : (f : ℕ → Client) (j : ℕ) (c : Client) → assign f j c j ≡ c
  assign-here f j c = ground arith

  -- The woken client takes the lock, compares the counters and returns.
  leave :
      {j : ℕ} {p : Pool}
      → p.client j ≡ woken
      → NoneHolds p
      → p.submitted_tasks ≤ p.completed_tasks
      → (p' : Pool) × ByClient j p p' × (p'.client j ≡ done)
  leave {j} {p} here free enough =
      let locked : Pool = record p { client = assign p.client j waiting } in
      let loaded : Pool = record locked {
        client = assign locked.client j (comparing p.completed_tasks);
      } in
      (
        record loaded { client = assign loaded.client j done },
        client_first (relock here free) (
            client_first (load_completed (assign-here p.client j waiting)) (
              client_first
                (return_zero p.completed_tasks
                  (assign-here locked.client j (comparing p.completed_tasks)) (ground arith))
                stands)),
        assign-here loaded.client j done,
      )

-- A call of `thread_pool_wait` that sleeps can always return: from every reachable state of a pool with at
-- least one worker in which a client sleeps in it and no client holds the wait lock, whatever is queued,
-- whatever the workers do and also while the pool is being destroyed, there is a run of the workers alone to a
-- state in which every accepted task has been executed exactly once, none is queued, and the client has been
-- woken; and from there the client's own steps lead to its return with 0; for fewer than 2 ^ 64 workers and
-- tasks.
pub wait_can_return :
    {n m capacity : ℕ} {p : Pool}
    → 0 < n
    → n < size_mod
    → Reach n m capacity p
    → length p.accepted < size_mod
    → (j : ℕ) → p.client j ≡ asleep
    → ((k : ℕ) → holds_wait_lock (p.client k) ≡ false)
    → (q p' : Pool) × ByWorkers n p q
      × AllExecuted q
      × (q.client j ≡ woken)
      × ByClient j q p'
      × (p'.client j ≡ done)
wait_can_return {n} {m} {p} some_worker few r small j e free =
    let s = settle n m (suc (load n m p)) j some_worker r free (inl e) (omega arith) in
    let still_small : length s.last.accepted < size_mod = omega (arith, small, ap length s.same) in
    let here = awake n m few s.reach still_small s.idle s.inside in
    let (p', steps, over) =
      leave n m here s.free (all_counted n m few s.reach still_small s.idle) in
    (s.last, p', s.run, all_run n m few s.reach s.idle, here, steps, over)
