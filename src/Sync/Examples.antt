-- ===== src/Sync/Examples.antt =====
-- Runs of small semaphores, and calls of src/sync.c.
use thread_management_librar.Base.{ℕ, ◌+◌, ◌≤◌, ◌<◌, ◌≡◌, refl, arith}
use thread_management_librar.Sync.Semaphore.{wait_loop, sync_sem_post}
use thread_management_librar.Sync.Counting.{
  idle, ready, System, Step, Reach, begin, then_step, one, call_wait, wait_sleep, post,
}
use thread_management_librar.Sync.CountingLaws.{semaphore_balance, semaphore_waiter_not_lost}

record Run (n value : ℕ) : Type 0 where
  last : System
  reach : Reach n value last

-- Of three threads on a semaphore without units, two sleep and the third posts.
one_posted : Run 3 0
unfolding wait_loop sync_sem_post
one_posted = record {
  last = _;
  reach =
      then_step
        (then_step
          (then_step
            (then_step (then_step begin (call_wait 0 (omega arith) refl))
              (wait_sleep 0 (omega arith) refl refl))
            (call_wait 1 (omega arith) refl))
          (wait_sleep 1 (omega arith) refl refl))
        (post 2 (omega arith) refl refl (one 0 (omega arith) refl));
}

semaphore_balance_example :
    (one_posted.last.sem.count + one_posted.last.acquired ≡ 0 + one_posted.last.posted)
    × (one_posted.last.acquired ≤ 0 + one_posted.last.posted)
unfolding one_posted
semaphore_balance_example = semaphore_balance one_posted.reach (omega arith)

semaphore_waiter_not_lost_example :
    (j : ℕ) × (j < 3)
    × (one_posted.last.pc j ≡ ready)
    × (s' : System) × Step 3 one_posted.last s'
    × (s'.pc j ≡ idle)
    × (s'.acquired ≡ 1)
    × (s'.sem.count + 1 ≡ 1)
unfolding one_posted sync_sem_post
semaphore_waiter_not_lost_example =
    semaphore_waiter_not_lost (omega arith) one_posted.reach 1 (omega arith) refl (omega arith)
