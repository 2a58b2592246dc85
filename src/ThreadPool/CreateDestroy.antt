-- ===== src/ThreadPool/CreateDestroy.antt =====
-- `thread_pool_create` and `thread_pool_destroy` of src/thread_pool.c as a whole.
use thread_management_librar.Base.{
  ℕ, ◌-◌, ◌≡◌, ◌≢◌, refl, Bool, true, false, some, [], ◌&&◌, if◌then◌else◌, Ptr, null, inl, inr,
  Bool-cases, if-true, if-false, ap, arith, sym, not_null,
}
use mathlib.Core.Path.{ap₂, subst}
use thread_management_librar.Platform.{platform_get_num_cores}
use thread_management_librar.Scheduler.Store.{Store, TaskQueue}
use thread_management_librar.Scheduler.Queue.{success, failure, task_queue_init}
use thread_management_librar.Scheduler.Lifecycle.{
  all_zero, task_queue_init-Initialised, task_queue_destroy-Destroyed, task_queue_shutdown_lem,
}
use thread_management_librar.Scheduler.Chain.{IsQueue}
use thread_management_librar.ThreadPool.System.{running, shutdown, terminated, is_running}
use thread_management_librar.ThreadPool.World.{
  World, ◌>>=◌, queue_at, Answers, choose_threads, choose_capacity, release_cond, release_lock,
  release_queue, release_pool, create_rest, thread_pool_create, thread_pool_destroy,
}
use thread_management_librar.ThreadPool.Release.{Clean, on_queue-some, join_workers-all}
use thread_management_librar.ThreadPool.Create.{
  Outcome, nothing_held, rest_granted, create_rest-Outcome,
}

-- Whether the system grants every request of a creation.
abbrev pub granted : ℕ → Answers → Bool
granted num_threads ans =
    ans.pool_block
    && all_zero ans.ret_lock ans.ret_empty ans.ret_full
    && rest_granted (choose_threads num_threads (platform_get_num_cores ans.processors)) ans

-- `thread_pool_create` once the queue is initialised.
create-goes_on :
    (num_threads queue_capacity : ℕ) (ans : Answers) (w : World) (s : Store)
    → ans.pool_block ≡ true
    → all_zero ans.ret_lock ans.ret_empty ans.ret_full ≡ true
    → let n = choose_threads num_threads (platform_get_num_cores ans.processors) in
      let capacity = choose_capacity queue_capacity in
      let queue_made = all_zero ans.ret_lock ans.ret_empty ans.ret_full in
      task_queue_init queue_at capacity ans.ret_lock ans.ret_empty ans.ret_full w.store
        ≡ some (if queue_made then success else failure, s)
      → (r : Bool) (w' : World)
      → create_rest n ans
          (record w { pool_block = true; num_threads = n; queue_capacity = capacity; store = s })
        ≡ some (r, w')
      → thread_pool_create num_threads queue_capacity ans w ≡ some (r, w')
unfolding thread_pool_create
create-goes_on num_threads queue_capacity ans w s block queue made r w' ran =
    let chosen : World = record w {
      pool_block = true;
      num_threads = choose_threads num_threads (platform_get_num_cores ans.processors);
      queue_capacity = choose_capacity queue_capacity;
    } in
    rw (block, on_queue-some _ chosen _ s made, if-true _ success failure queue, ◌>>=◌) ran

-- From a world where nothing is held, `thread_pool_create` always ends. If the system grants every
-- request it gives a pool that is ready for use: both blocks, both wait objects, the chosen number of
-- workers, zero counters and an empty queue of the chosen capacity. If any request fails it gives NULL
-- and nothing is held: no memory, no initialised object and no worker.
pub thread_pool_create-Outcome :
    (num_threads queue_capacity : ℕ) (ans : Answers) (w : World)
    → Clean w
    → (r : Bool) × (w' : World) × (thread_pool_create num_threads queue_capacity ans w
        ≡ some (r, w'))
      × Outcome
          (choose_threads num_threads (platform_get_num_cores ans.processors))
          (choose_capacity queue_capacity)
          w'
          (granted num_threads ans)
          r
unfolding thread_pool_create release_pool
thread_pool_create-Outcome num_threads queue_capacity ans w clean =
    elim (Bool-cases ans.pool_block) [
      | inr no_block ↦ (false, w, rw no_block, rw no_block (nothing_held clean))
      | inl block ↦
          let n : ℕ = choose_threads num_threads (platform_get_num_cores ans.processors) in
          let capacity : ℕ = choose_capacity queue_capacity in
          let chosen : World = record w {
            pool_block = true;
            num_threads = n;
            queue_capacity = capacity;
          } in
          let (s, made, init) =
            task_queue_init-Initialised w.store queue_at capacity ans.ret_lock ans.ret_empty
              ans.ret_full (omega arith) in
          let queued : World = record chosen { store = s } in
          elim (Bool-cases (all_zero ans.ret_lock ans.ret_empty ans.ret_full)) [
            | inr no_queue ↦ (
              false,
              record queued { pool_block = false },
              rw (
                block,
                on_queue-some _ chosen _ s made,
                if-false _ success failure no_queue,
                ◌>>=◌,
              ),
              rw (block, no_queue)
                  (nothing_held (record {
                    pool_block = refl;
                    workers_block = clean.workers_block;
                    wait_lock = clean.wait_lock;
                    wait_cond = clean.wait_cond;
                    threads = clean.threads;
                    objects = rw (sym no_queue) init.objects;
                    queue = init.valid;
                  })),
            )
            | inl queue ↦
                let (r, w', ran, out) = create_rest-Outcome n capacity ans queued (record {
                  pool_block = refl;
                  threads = clean.threads;
                  workers_block = clean.workers_block;
                  wait_lock = clean.wait_lock;
                  wait_cond = clean.wait_cond;
                  num_threads = refl;
                  objects = rw (sym queue) init.objects;
                  queue = init.valid;
                  bound = (init.bound, refl);
                  open_queue = init.up;
                }) in
                (
                  r,
                  w',
                  create-goes_on num_threads queue_capacity ans w s block queue made r w' ran,
                  subst (λ (b : Bool). Outcome n capacity w' b r)
                      (sym (ap₂ (λ (a b : Bool). a && b && rest_granted n ans) block queue)) out,
                )
          ]
    ]

-- `thread_pool_destroy` of a running pool whose queue is empty and whose workers are all there ends,
-- joins every worker and releases all that a creation takes: both blocks, the wait objects and the
-- objects of the queue.
pub thread_pool_destroy-Clean :
    (w : World) (pool : Ptr)
    → pool ≢ null
    → w.state ≡ running
    → w.threads ≡ w.num_threads
    → IsQueue w.store []
    → (w' : World) × (thread_pool_destroy pool w ≡ some (true, w')) × Clean w'
unfolding thread_pool_destroy release_cond release_lock release_queue release_pool
thread_pool_destroy-Clean w pool nq running_now all_there queue =
    let (s, shut, q, same, woke) =
      task_queue_shutdown_lem w.store [] queue_at queue (omega arith) in
    let (s', ran, d) = task_queue_destroy-Destroyed s [] queue_at q (omega arith) in
    let asked : World = record w { state = shutdown } in
    let joined : World = record asked { store = s; threads = w.threads - w.num_threads } in
    let freed : World = record joined {
      state = terminated;
      workers_block = false;
      wait_cond = false;
      wait_lock = false;
    } in
    let up : is_running w.state ≡ true = ap is_running running_now in
    (
      record freed { pool_block = false; store = s' },
      rw (
        not_null _ nq,
        up,
        on_queue-some _ asked _ s shut,
        join_workers-all w.num_threads (record asked { store = s })
            (ap (λ (x : TaskQueue). x.shutdown) same) q.counted (omega arith),
        on_queue-some _ freed _ s' ran,
        ◌>>=◌,
      ),
      record {
        pool_block = refl;
        workers_block = refl;
        wait_lock = refl;
        wait_cond = refl;
        threads = omega (arith, all_there);
        objects = d.objects;
        queue = d.valid;
      },
    )
