-- ===== src/Demos/Examples/Counters.antt =====
-- Runs of examples/hello_threads.c (example 2) and of the display of examples/visual_demo.c.
use thread_management_librar.Base.{ℕ, ◌+◌, ◌*◌, ◌≤◌, ◌<◌, ◌≡◌, ◌⊎◌, refl, arith}
use thread_management_librar.Base.Threads.{how_many}
use thread_management_librar.Demos.Counter
use thread_management_librar.Demos.Counter.{
  State, finished, enter_loop, leave_loop, lock_mutex, load_counter, store_counter, unlock_mutex,
}
use thread_management_librar.Demos.Counter.Exact.{shared_counter_exact}
use thread_management_librar.Demos.Visual
use thread_management_librar.Demos.Visual.{Display, announce, submit, take_worker, mark_busy}
use thread_management_librar.Demos.Visual.Counts.{is_open, is_finished, works_as}
use thread_management_librar.Demos.Visual.Shown.{display_right}

record CounterRun : Type 0 where
  last : State
  reach : Counter.Reach 2 1 last

-- Two tasks with one round each.
two_counted : CounterRun
two_counted = record {
  last = _;
  reach =
      Counter.then_step
        (Counter.then_step
          (Counter.then_step
            (Counter.then_step
              (Counter.then_step
                (Counter.then_step
                  (Counter.then_step
                    (Counter.then_step
                      (Counter.then_step
                        (Counter.then_step
                          (Counter.then_step
                            (Counter.then_step Counter.begin
                              (enter_loop 0 0 (omega arith) refl refl))
                            (enter_loop 1 0 (omega arith) refl refl))
                          (lock_mutex 1 0 (omega arith) refl (λ u lu. ground arith)))
                        (load_counter 1 0 (omega arith) refl))
                      (store_counter 1 0 0 (omega arith) refl))
                    (unlock_mutex 1 0 (omega arith) refl))
                  (leave_loop 1 1 (omega arith) refl refl))
                (lock_mutex 0 0 (omega arith) refl (λ u lu. ground arith)))
              (load_counter 0 0 (omega arith) refl))
            (store_counter 0 0 1 (omega arith) refl))
          (unlock_mutex 0 0 (omega arith) refl))
        (leave_loop 0 1 (omega arith) refl refl);
}

both_ended : (t : ℕ) → t < 2 → two_counted.last.pc t ≡ finished
unfolding two_counted
both_ended t lt = ground arith

shared_counter_exact_example : two_counted.last.shared_counter ≡ 2 * 1
shared_counter_exact_example = shared_counter_exact two_counted.reach (omega arith) both_ended

record DisplayRun : Type 0 where
  last : Display
  reach : Visual.Reach 4 2 last

-- One task of two has marked its worker.
one_marked : DisplayRun
one_marked = record {
  last = _;
  reach =
      Visual.then_task
        (Visual.then_task
          (Visual.then_submit (Visual.then_submit Visual.begin (announce 0 (omega arith) refl refl))
            (submit 0 (omega arith) refl refl))
          (take_worker 0 (omega arith) refl))
        (mark_busy 0 0 (omega arith) refl);
}

display_right_example :
    (one_marked.last.g_state.queue_size ≡ how_many is_open 2 one_marked.last.pc)
    × (one_marked.last.g_state.tasks_completed ≡ how_many is_finished 2 one_marked.last.pc)
    × (one_marked.last.g_state.queue_size + one_marked.last.g_state.tasks_completed ≤ 2)
    × ((one_marked.last.g_state.worker_states 0 ≡ 0)
        ⊎ (0 < how_many (works_as 0) 2 one_marked.last.pc))
display_right_example = display_right (omega arith) (omega arith) one_marked.reach 0
