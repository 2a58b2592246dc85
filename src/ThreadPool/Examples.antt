-- ===== src/ThreadPool/Examples.antt =====
-- Runs of small thread pools, of src/thread_pool.c.
use thread_management_librar.Base.{
  ℕ, ◌+◌, ◌≤◌, ◌<◌, ◌≡◌, refl, Bool, false, [], ◌∷◌, ◌++◌, arith, length, suc,
}
use thread_management_librar.Base.Threads.{how_many}
use thread_management_librar.Scheduler.Store.{Task}
use thread_management_librar.Scheduler.Fifo
use thread_management_librar.Scheduler.Fifo.{Fifo, accepted, took, closed}
use thread_management_librar.ThreadPool.System.{
  WorkerStep, ClientStep, notifying, counting, idle, exited, woken, done, holds_wait_lock, Pool,
  pop_task, pop_closed, see_alive, raise_active, run_task, lower_active, raise_completed, call_wait,
  load_completed, sleep, exchange, shut_queue, join, terminate, of_worker, of_client, of_destroyer,
  Reach, then_step, finished, shutdown, stopping, exchange_fails, created,
}
use thread_management_librar.ThreadPool.Counts.{is_active, carries, count_of}
use thread_management_librar.ThreadPool.Safety.{
  AllExecuted, completed_first, tasks_accounted, active_tasks_right, destroy_drains,
  wait_return_all_done, waiter_is_woken,
}
use thread_management_librar.ThreadPool.Progress.{
  Steps, ByWorkers, ByClient, destroy_can_finish, stay, step_first,
}
use thread_management_librar.ThreadPool.Once.{exchanges, releases, begun, over, destroyed_once}
use thread_management_librar.ThreadPool.WaitReturns.{wait_can_return}
use thread_management_librar.ThreadPool.EarlyReturn.{Run, wait_may_return_early}
use thread_management_librar.ThreadPool.Runs.{
  a_task, other_task, submitted, taken_out, completed, waited,
}

-- The pool is destroyed.
destroyed : Run 1 1 1
unfolding completed Fifo.pop
destroyed = record {
  last = _;
  reach =
      then_step
        (then_step
          (then_step
            (then_step (then_step completed.reach (of_destroyer (exchange refl)))
              (of_destroyer (shut_queue refl)))
            (of_worker 0 (omega arith) (pop_closed refl refl)))
          (of_destroyer (join 0 refl (omega arith) refl)))
        (of_destroyer (terminate 1 refl refl));
}

-- The client sleeps before the worker takes the task; the worker has counted it and will broadcast.
slept : Run 1 1 1
unfolding submitted Fifo.pop
slept = record {
  last = _;
  reach =
      then_step
        (then_step
          (then_step
            (then_step
              (then_step
                (then_step
                  (then_step
                    (then_step
                      (then_step submitted.reach
                        (of_client 0 (omega arith) (call_wait refl (λ j. ground arith))))
                      (of_client 0 (omega arith) (load_completed refl)))
                    (of_client 0 (omega arith) (sleep 0 refl refl)))
                  (of_worker 0 (omega arith) (pop_task refl refl)))
                (of_worker 0 (omega arith) (see_alive a_task refl refl)))
              (of_worker 0 (omega arith) (raise_active a_task refl)))
            (of_worker 0 (omega arith) (run_task a_task refl)))
          (of_worker 0 (omega arith) (lower_active a_task refl)))
        (of_worker 0 (omega arith) (raise_completed a_task refl));
}

destroy_drains_example :
    AllExecuted destroyed.last
    × ((i : ℕ) → i < 1 → destroyed.last.worker i ≡ exited)
    × (destroyed.last.active_tasks ≡ 0)
unfolding destroyed
destroy_drains_example = destroy_drains (omega arith) (omega arith) destroyed.reach refl

tasks_accounted_example :
    (taken_out.last.accepted ≡ taken_out.last.taken ++ taken_out.last.fifo.tasks)
    × ((q : Task → Bool)
        → count_of q taken_out.last.accepted
          ≡ count_of q taken_out.last.executed
            + how_many (carries q) 1 taken_out.last.worker
            + count_of q taken_out.last.fifo.tasks)
tasks_accounted_example = tasks_accounted (omega arith) taken_out.reach

active_tasks_right_example :
    (taken_out.last.active_tasks ≡ how_many is_active 1 taken_out.last.worker)
    × (taken_out.last.active_tasks ≤ 1)
active_tasks_right_example = active_tasks_right (omega arith) taken_out.reach

wait_return_all_done_example :
    AllExecuted waited.last × (waited.last.completed_tasks ≡ length waited.last.accepted)
unfolding waited how_many
wait_return_all_done_example =
    wait_return_all_done (omega arith) waited.reach (omega arith) 0 (completed_first 1 refl refl)
      refl

none_hold : (k : ℕ) → holds_wait_lock (slept.last.client k) ≡ false
unfolding slept
none_hold k = ground arith

waiter_is_woken_example :
    (i : ℕ) × (i < 1)
    × (slept.last.worker i ≡ notifying)
    × (p' : Pool) × WorkerStep slept.last i p'
    × (p'.client 0 ≡ woken)
unfolding slept
waiter_is_woken_example =
    waiter_is_woken (omega arith) slept.reach (omega arith) 0 refl (omega arith) none_hold

wait_can_return_example :
    (q p' : Pool) × ByWorkers 1 slept.last q
    × AllExecuted q
    × (q.client 0 ≡ woken)
    × ByClient 0 q p'
    × (p'.client 0 ≡ done)
unfolding slept
wait_can_return_example =
    wait_can_return (omega arith) (omega arith) slept.reach (omega arith) 0 refl none_hold

wait_may_return_early_example :
    (q s p : Pool) × Reach 4 2 8 q
    × (q.client 1 ≡ counting other_task)
    × (q.accepted ≡ a_task ∷ other_task ∷ [])
    × ClientStep q 1 s
    × (s.client 1 ≡ idle)
    × (s.submitted_tasks ≡ suc q.submitted_tasks)
    × ByClient 1 s p
    × (p.client 1 ≡ done)
    × (p.accepted ≡ q.accepted)
    × (p.executed ≡ a_task ∷ [])
    × (p.fifo.tasks ≡ other_task ∷ [])
wait_may_return_early_example = wait_may_return_early 3 7 a_task other_task

-- The pool is being destroyed while the task is still queued.
shutting : Run 1 1 1
unfolding submitted
shutting = record {
  last = _;
  reach =
      then_step (then_step submitted.reach (of_destroyer (exchange refl)))
        (of_destroyer (shut_queue refl));
}

none_waits : (j : ℕ) → holds_wait_lock (shutting.last.client j) ≡ false
unfolding shutting
none_waits j = ground arith

destroy_can_finish_example :
    (p' : Pool) × Steps 1 1 shutting.last p'
    × (p'.destroyer ≡ finished)
    × AllExecuted p'
    × ((i : ℕ) → i < 1 → p'.worker i ≡ exited)
unfolding shutting
destroy_can_finish_example =
    destroy_can_finish (omega arith) (omega arith) shutting.reach 0 refl none_waits

abbrev twice_called : Pool
twice_called = record (created 1) { state = shutdown; destroyer = stopping }

-- A first call begins to destroy the pool, and a second one returns.
two_calls : Steps 1 1 (created 1) twice_called
two_calls =
    step_first (of_destroyer (exchange refl)) (step_first (of_destroyer (exchange_fails refl)) stay)

destroyed_once_example :
    (exchanges two_calls ≡ begun twice_called.destroyer)
    × (releases two_calls ≡ over twice_called.destroyer)
    × (exchanges two_calls ≤ 1)
    × (releases two_calls ≤ exchanges two_calls)
destroyed_once_example = destroyed_once two_calls
