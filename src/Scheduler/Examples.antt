-- ===== src/Scheduler/Examples.antt =====
-- Calls of src/scheduler.c on a queue of two tasks.
use thread_management_librar.Base.{
  ◌≡◌, refl, true, false, arith, ◌==◌, none, some, [], ◌∷◌, if◌then◌else◌,
}
use thread_management_librar.Scheduler.Store.{null, Task, Store, normal, high}
use thread_management_librar.Scheduler.Queue.{
  PushCall, PopCall, task_queue_destroy, task_queue_push, task_queue_pop,
}
use thread_management_librar.Scheduler.Chain.{Cells, IsQueue}
use thread_management_librar.Scheduler.Push.{Pushed, task_of, task_queue_push-Pushed}
use thread_management_librar.Scheduler.Pop.{Popped, pop_call, task_queue_pop-Popped}
use thread_management_librar.Scheduler.Lifecycle.{Destroyed, task_queue_destroy-Destroyed}

abbrev old_task : Task
old_task = record { func = 64; arg = 8; priority = normal; submit_time = 1 }

abbrev new_task : Task
new_task = record { func = 72; arg = 0; priority = high; submit_time = 2 }

abbrev two_cells : Cells
two_cells = (1000, old_task) ∷ (2000, new_task) ∷ []

abbrev two_queued : Store
two_queued = record {
  node = λ a.
      if a == 1000
      then some (record { task = old_task; next = 2000 })
      else if a == 2000
      then some (record { task = new_task; next = null })
      else none;
  queue = record {
    head = 1000;
    tail = 2000;
    count = 2;
    capacity = 3;
    lock = true;
    not_empty = true;
    not_full = true;
    shutdown = false;
  };
  signals = [];
}

two_queued-IsQueue : IsQueue two_queued two_cells
two_queued-IsQueue = record {
  chain = (omega arith, refl, refl, (omega arith, refl, refl, tt));
  head = refl;
  tail = refl;
  counted = refl;
  fits = omega arith;
}

task_queue_push-Pushed_example :
    (r : PushCall) × (s' : Store) × (task_queue_push 16 80 0 normal 3000 7 two_queued
      ≡ some (r, s'))
    × Pushed two_queued two_cells 3000 (task_of 80 0 normal 7) r s'
task_queue_push-Pushed_example =
    task_queue_push-Pushed two_queued two_cells 16 80 0 normal 3000 7 two_queued-IsQueue
      (omega arith) (omega arith) (omega arith) refl (omega arith)

task_queue_pop-Popped_example :
    (r : PopCall) × (s' : Store) × (task_queue_pop 16 24 32 two_queued ≡ some (r, s'))
    × Popped pop_call two_queued two_cells r s'
task_queue_pop-Popped_example =
    task_queue_pop-Popped two_queued two_cells 16 24 32 two_queued-IsQueue (omega arith)
      (omega arith) (omega arith)

task_queue_destroy-Destroyed_example :
    (s' : Store) × (task_queue_destroy 16 two_queued ≡ some (tt, s'))
    × Destroyed two_queued two_cells s'
task_queue_destroy-Destroyed_example =
    task_queue_destroy-Destroyed two_queued two_cells 16 two_queued-IsQueue (omega arith)
