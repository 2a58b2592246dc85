-- ===== src/Scheduler/Monitor/Examples.antt =====
-- Runs of five threads on a queue of capacity 1, of src/scheduler.c.
use thread_management_librar.Base.{ℕ, ◌≤◌, ◌<◌, ◌≡◌, ◌≢◌, refl, ◌⊎◌, arith, [], ◌∷◌, ◌++◌, length}
use thread_management_librar.Scheduler.Store.{Task, normal, high}
use thread_management_librar.Scheduler.Fifo
use thread_management_librar.Scheduler.Fifo.{Fifo, accepted, full, took, empty}
use thread_management_librar.Scheduler.Monitor.{
  ready_push, asleep_push, ready_pop, asleep_pop, System, Step, Reach, begin, then_step, one,
  call_push, call_pop, push_in, push_sleep, pop_out, pop_sleep, shut, bounded,
}
use thread_management_librar.Scheduler.Monitor.Wakeups.{
  no_deadlock, none_asleep_after_shutdown, tasks_in_order, task_can_be_taken,
}

record Run (n capacity : ℕ) : Type 0 where
  last : System
  reach : Reach n capacity last

abbrev first_task : Task
first_task = record { func = 64; arg = 0; priority = normal; submit_time = 1 }

abbrev second_task : Task
second_task = record { func = 72; arg = 0; priority = high; submit_time = 2 }

abbrev third_task : Task
third_task = record { func = 80; arg = 0; priority = normal; submit_time = 3 }

-- Threads 0 and 1 sleep in a pop. Thread 2 pushes and wakes 0. Threads 3 and 4 find the queue full.
crowded : Run 5 1
unfolding Fifo.push Fifo.pop
crowded = record {
  last = _;
  reach =
      then_step
        (then_step
          (then_step
            (then_step
              (then_step
                (then_step
                  (then_step
                    (then_step
                      (then_step (then_step begin (call_pop 0 (omega arith) refl))
                        (pop_sleep 0 (omega arith) refl refl))
                      (call_pop 1 (omega arith) refl))
                    (pop_sleep 1 (omega arith) refl refl))
                  (call_push 2 first_task (omega arith) refl))
                (push_in 2 first_task (omega arith) refl refl (one 0 (omega arith) refl)))
              (call_push 3 second_task (omega arith) refl))
            (push_sleep 3 second_task (omega arith) refl refl))
          (call_push 4 third_task (omega arith) refl))
        (push_sleep 4 third_task (omega arith) refl refl);
}

-- Thread 0 takes the task and wakes 3.
eased : Run 5 1
unfolding crowded Fifo.pop
eased = record {
  last = _;
  reach =
      then_step crowded.reach
        (pop_out 0 (omega arith) refl refl (bounded (omega arith) (one 3 (omega arith) refl)));
}

closed_down : Run 5 1
unfolding crowded
closed_down = record { last = _; reach = then_step crowded.reach shut }

no_deadlock_example :
    (j : ℕ) × (j < 5)
    × ((crowded.last.pc j ≡ ready_pop) ⊎ ((u : Task) × (crowded.last.pc j ≡ ready_push u)))
unfolding crowded
no_deadlock_example =
    no_deadlock crowded.reach 1 3 second_task (omega arith) (omega arith) refl refl (omega arith)

none_asleep_after_shutdown_example :
    (closed_down.last.pc 3 ≢ asleep_pop) × ((t : Task) → closed_down.last.pc 3 ≢ asleep_push t)
unfolding closed_down
none_asleep_after_shutdown_example =
    none_asleep_after_shutdown closed_down.reach refl 3 (omega arith)

tasks_in_order_example :
    (crowded.last.pushed ≡ crowded.last.popped ++ crowded.last.fifo.tasks)
    × ((crowded.last.fifo.capacity ≡ 0)
        ⊎ (length crowded.last.fifo.tasks ≤ crowded.last.fifo.capacity))
tasks_in_order_example = tasks_in_order crowded.reach

task_can_be_taken_example :
    (s' : System) × Step 5 crowded.last s'
    × (s'.popped ≡ crowded.last.popped ++ first_task ∷ [])
    × (s'.fifo.tasks ≡ [])
unfolding crowded
task_can_be_taken_example = task_can_be_taken crowded.reach 1 first_task [] (omega arith) refl refl
