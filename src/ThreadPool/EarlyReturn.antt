-- ===== src/ThreadPool/EarlyReturn.antt =====
-- A run of src/thread_pool.c with two clients in `thread_pool_submit` and `thread_pool_wait`, where one
-- has pushed its task and not yet counted it.
use thread_management_librar.Base.{ℕ, suc, ◌≡◌, refl, false, List, [], ◌∷◌, arith}
use thread_management_librar.Scheduler.Store.{Task}
use thread_management_librar.Scheduler.Fifo
use thread_management_librar.Scheduler.Fifo.{Fifo, accepted, refused, took, closed}
use thread_management_librar.ThreadPool.System.{
  counting, idle, done, Pool, ClientStep, pop_task, see_alive, raise_active, run_task, lower_active,
  raise_completed, broadcast, call_submit, see_running, push_task, raise_submitted, call_wait,
  load_completed, return_zero, of_worker, of_client, Reach, begin, then_step,
}
use thread_management_librar.ThreadPool.Progress.{ByClient, stands, client_first}

-- A state, and how it is reached.
pub record Run (n m capacity : ℕ) : Type 0 where
  pub last : Pool
  pub reach : Reach n m capacity last

abbrev holding : ℕ → List Task → Fifo
holding capacity ts = record { tasks = ts; capacity = capacity; shutdown = false }

push_empty :
    (c : ℕ) (t : Task) → Fifo.push t (holding (suc c) []) ≡ (accepted, holding (suc c) (t ∷ []))
push_empty c t = Fifo.push_up t (holding (suc c) []) refl (ground arith)

module _ (k c : ℕ) (t u : Task) where
  -- Client 0 has pushed `t` and not yet counted it; worker 0 has run it and counted it as completed.
  ahead : Run (suc k) 2 (suc c)
  unfolding Fifo.pop
  ahead = record {
    last = _;
    reach =
        then_step
          (then_step
            (then_step
              (then_step
                (then_step
                  (then_step
                    (then_step
                      (then_step
                        (then_step
                          (then_step begin (of_client 0 (omega arith) (call_submit t refl)))
                          (of_client 0 (omega arith) (see_running t refl refl)))
                        (of_client 0 (omega arith) (push_task t refl (push_empty c t))))
                      (of_worker 0 (omega arith) (pop_task refl refl)))
                    (of_worker 0 (omega arith) (see_alive t refl refl)))
                  (of_worker 0 (omega arith) (raise_active t refl)))
                (of_worker 0 (omega arith) (run_task t refl)))
              (of_worker 0 (omega arith) (lower_active t refl)))
            (of_worker 0 (omega arith) (raise_completed t refl)))
          (of_worker 0 (omega arith) (broadcast refl (λ j. ground arith)));
  }

  -- Client 1 has pushed `u` and not yet counted it.
  pushed : Run (suc k) 2 (suc c)
  unfolding ahead
  pushed = record {
    last = _;
    reach =
        then_step
          (then_step (then_step ahead.reach (of_client 1 (omega arith) (call_submit u refl)))
            (of_client 1 (omega arith) (see_running u refl refl)))
          (of_client 1 (omega arith) (push_task u refl (push_empty c u)));
  }

-- For any number of workers, any capacity and any two tasks `t` and `u`, `thread_pool_wait` may return too early: a
-- pool with two clients can come to a state in which client 1 has pushed its task `u` and is about to count
-- it; from there client 1 alone moves on, counts `u` and calls `thread_pool_wait`, which returns 0 although
-- `u` still lies in the queue.
pub wait_may_return_early :
    (k c : ℕ) (t u : Task)
    → (q s p : Pool) × Reach (suc k) 2 (suc c) q
      × (q.client 1 ≡ counting u)
      × (q.accepted ≡ t ∷ u ∷ [])
      × ClientStep q 1 s
      × (s.client 1 ≡ idle)
      × (s.submitted_tasks ≡ suc q.submitted_tasks)
      × ByClient 1 s p
      × (p.client 1 ≡ done)
      × (p.accepted ≡ q.accepted)
      × (p.executed ≡ t ∷ [])
      × (p.fifo.tasks ≡ u ∷ [])
unfolding pushed
wait_may_return_early k c t u = (
  (pushed k c t u).last,
  _,
  _,
  (pushed k c t u).reach,
  refl,
  refl,
  raise_submitted u refl,
  refl,
  refl,
  client_first (call_wait refl (λ j. ground arith))
      (client_first (load_completed refl) (client_first (return_zero 1 refl refl) stands)),
  refl,
  refl,
  refl,
  refl,
)
