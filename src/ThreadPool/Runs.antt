-- ===== src/ThreadPool/Runs.antt =====
-- A run of a pool of src/thread_pool.c with one worker and one client.
use thread_management_librar.Base.{ℕ, ◌≡◌, refl, false, arith}
use thread_management_librar.Scheduler.Store.{Task, normal}
use thread_management_librar.Scheduler.Fifo
use thread_management_librar.Scheduler.Fifo.{Fifo, accepted, took, closed}
use thread_management_librar.ThreadPool.System.{
  holds_wait_lock, pop_task, see_alive, raise_active, run_task, lower_active, raise_completed,
  broadcast, call_submit, see_running, push_task, raise_submitted, call_wait, load_completed,
  of_worker, of_client, begin, then_step,
}
use thread_management_librar.ThreadPool.EarlyReturn.{Run}

abbrev pub a_task : Task
a_task = record { func = 64; arg = 8; priority = normal; submit_time = 5 }

abbrev pub other_task : Task
other_task = record { func = 80; arg = 0; priority = normal; submit_time = 6 }

-- One worker and one client with a queue of capacity 1: the client submits a task.
unfoldable pub submitted : Run 1 1 1
unfolding Fifo.push
submitted = record {
  last = _;
  reach =
      then_step
        (then_step
          (then_step (then_step begin (of_client 0 (omega arith) (call_submit a_task refl)))
            (of_client 0 (omega arith) (see_running a_task refl refl)))
          (of_client 0 (omega arith) (push_task a_task refl refl)))
        (of_client 0 (omega arith) (raise_submitted a_task refl));
}

-- The client does not hold the lock.
pub submitted_free : (j : ℕ) → holds_wait_lock (submitted.last.client j) ≡ false
unfolding submitted
submitted_free j = ground arith

-- The worker takes it.
unfoldable pub taken_out : Run 1 1 1
unfolding submitted Fifo.pop
taken_out = record {
  last = _;
  reach = then_step submitted.reach (of_worker 0 (omega arith) (pop_task refl refl));
}

-- The worker runs it and counts it.
unfoldable pub completed : Run 1 1 1
unfolding taken_out
completed = record {
  last = _;
  reach =
      then_step
        (then_step
          (then_step
            (then_step
              (then_step
                (then_step taken_out.reach (of_worker 0 (omega arith) (see_alive a_task refl refl)))
                (of_worker 0 (omega arith) (raise_active a_task refl)))
              (of_worker 0 (omega arith) (run_task a_task refl)))
            (of_worker 0 (omega arith) (lower_active a_task refl)))
          (of_worker 0 (omega arith) (raise_completed a_task refl)))
        (of_worker 0 (omega arith) (broadcast refl submitted_free));
}

pub completed_free : (j : ℕ) → holds_wait_lock (completed.last.client j) ≡ false
unfolding completed taken_out submitted
completed_free j = ground arith

-- The client waits, and compares the counters.
unfoldable pub waited : Run 1 1 1
unfolding completed
waited = record {
  last = _;
  reach =
      then_step
        (then_step completed.reach (of_client 0 (omega arith) (call_wait refl completed_free)))
        (of_client 0 (omega arith) (load_completed refl));
}
