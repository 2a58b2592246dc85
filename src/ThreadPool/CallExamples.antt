-- ===== src/ThreadPool/CallExamples.antt =====
-- Calls of src/thread_pool.c on a small pool.
use thread_management_librar.Base.{
  ◌∷◌, ◌==◌, ◌≡◌, refl, Bool, true, false, [], ltb, if◌then◌else◌, arith, null, none, some, Option,
}
use thread_management_librar.Base.Int.{pos, ℤ}
use thread_management_librar.Platform.{linux, platform_get_num_cores}
use thread_management_librar.Scheduler.Store.{normal, Store, Task}
use thread_management_librar.Scheduler.Chain.{IsQueue}
use thread_management_librar.Scheduler.Push.{task_of}
use thread_management_librar.ThreadPool.System.{running, Pool, created}
use thread_management_librar.ThreadPool.World.{
  World, Answers, choose_threads, choose_capacity, thread_pool_create, thread_pool_destroy,
  thread_pool_submit, on_queue, queue_at,
}
use thread_management_librar.ThreadPool.Release.{Clean}
use thread_management_librar.ThreadPool.Create.{Outcome}
use thread_management_librar.ThreadPool.CreateDestroy.{
  granted, thread_pool_create-Outcome, thread_pool_destroy-Clean,
}
use thread_management_librar.ThreadPool.Progress.{Steps}
use thread_management_librar.ThreadPool.Shown.{Shows, Submitted}
use thread_management_librar.ThreadPool.SubmitSteps.{thread_pool_submit-Steps}
use thread_management_librar.ThreadPool.CallSteps.{TookOut, task_queue_pop-Steps}
use thread_management_librar.Scheduler.Fifo.{Taken}
use thread_management_librar.Scheduler.Pop.{pop_call}
use thread_management_librar.Scheduler.Queue.{task_queue_pop}

abbrev store_with : Bool → Store
store_with live = record {
  node = λ _. none;
  queue = record {
    head = null;
    tail = null;
    count = 0;
    capacity = 8;
    lock = live;
    not_empty = live;
    not_full = live;
    shutdown = false;
  };
  signals = [];
}

-- Nothing is held.
abbrev before : World
before = record {
  pool_block = false;
  workers_block = false;
  wait_lock = false;
  wait_cond = false;
  threads = 0;
  num_threads = 0;
  queue_capacity = 0;
  state = running;
  active_tasks = 0;
  completed_tasks = 0;
  submitted_tasks = 0;
  store = store_with false;
}

-- A pool of two workers.
abbrev pool_of_two : World
pool_of_two = record {
  pool_block = true;
  workers_block = true;
  wait_lock = true;
  wait_cond = true;
  threads = 2;
  num_threads = 2;
  queue_capacity = 8;
  state = running;
  active_tasks = 0;
  completed_tasks = 0;
  submitted_tasks = 0;
  store = store_with true;
}

-- The third worker cannot be created.
abbrev two_threads_only : Answers
two_threads_only = record {
  pool_block = true;
  processors = linux (pos 4);
  ret_lock = 0;
  ret_empty = 0;
  ret_full = 0;
  ret_wait_lock = 0;
  ret_wait_cond = 0;
  workers_block = true;
  ret_create = λ i. if ltb i 2 then 0 else 11;
}

none_queued : (live : Bool) → IsQueue (store_with live) []
none_queued live = record {
  chain = tt;
  head = refl;
  tail = refl;
  counted = refl;
  fits = omega arith;
}

before-Clean : Clean before
before-Clean = record {
  pool_block = refl;
  workers_block = refl;
  wait_lock = refl;
  wait_cond = refl;
  threads = refl;
  objects = record { lock = refl; not_empty = refl; not_full = refl };
  queue = none_queued false;
}

-- Four workers are asked for, and the answers grant two: the creation is refused.
four_refused : granted 0 two_threads_only ≡ false
unfolding choose_threads platform_get_num_cores
four_refused = refl

thread_pool_create-Outcome_example :
    (r : Bool) × (w' : World) × (thread_pool_create 0 8 two_threads_only before ≡ some (r, w'))
    × Outcome
        (choose_threads 0 (platform_get_num_cores (linux (pos 4))))
        (choose_capacity 8)
        w'
        (granted 0 two_threads_only)
        r
thread_pool_create-Outcome_example =
    thread_pool_create-Outcome 0 8 two_threads_only before before-Clean

thread_pool_destroy-Clean_example :
    (w' : World) × (thread_pool_destroy 4096 pool_of_two ≡ some (true, w')) × Clean w'
thread_pool_destroy-Clean_example =
    thread_pool_destroy-Clean pool_of_two 4096 (omega arith) refl refl (none_queued true)

two-Shows : Shows pool_of_two (created 8)
two-Shows = record {
  cells = [];
  valid = none_queued true;
  fifo = refl;
  state = refl;
  active = refl;
  completed = refl;
  submitted = refl;
}

thread_pool_submit-Steps_example :
    (answer : Option ℤ) × (w' : World) × (p' : Pool) × (thread_pool_submit 4096 64 8 normal 512 5
        pool_of_two
      ≡ some (answer, w'))
    × Steps 2 1 (created 8) p'
    × Shows w' p'
    × Submitted 0 (task_of 64 8 normal 5) answer (created 8) p'
thread_pool_submit-Steps_example =
    thread_pool_submit-Steps 0 pool_of_two (created 8) 4096 64 8 normal 512 5 (omega arith) refl
      two-Shows (omega arith) (omega arith) (omega arith) refl (omega arith)

-- The same pool with a task in the queue.
abbrev queued_task : Task
queued_task = task_of 64 8 normal 5

abbrev store_of_one : Store
store_of_one = record {
  node = λ a. if a == 512 then some (record { task = queued_task; next = null }) else none;
  queue = record (store_with true).queue { head = 512; tail = 512; count = 1 };
  signals = [];
}

abbrev pool_of_one_task : World
pool_of_one_task = record pool_of_two { submitted_tasks = 1; store = store_of_one }

abbrev shown_task : Pool
shown_task = record (created 8) {
  fifo = record { tasks = queued_task ∷ []; capacity = 8; shutdown = false };
  submitted_tasks = 1;
}

task-Shows : Shows pool_of_one_task shown_task
task-Shows = record {
  cells = (512, queued_task) ∷ [];
  valid = record {
    chain = (omega arith, refl, refl, tt);
    head = refl;
    tail = refl;
    counted = refl;
    fits = omega arith;
  };
  fifo = refl;
  state = refl;
  active = refl;
  completed = refl;
  submitted = refl;
}

task_queue_pop-Steps_example :
    (x : Taken) × (w' : World) × (p' : Pool) × (on_queue
        (task_queue_pop queue_at 24 32)
        pool_of_one_task
      ≡ some (pop_call x, w'))
    × Steps 2 1 shown_task p'
    × Shows w' p'
    × TookOut 1 x shown_task p'
task_queue_pop-Steps_example =
    task_queue_pop-Steps 1 pool_of_one_task shown_task 24 32 (omega arith) refl task-Shows
      (omega arith) (omega arith)
