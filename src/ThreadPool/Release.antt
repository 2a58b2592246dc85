-- ===== src/ThreadPool/Release.antt =====
-- What the error paths of `thread_pool_create` and `thread_pool_destroy` of src/thread_pool.c give back.
use thread_management_librar.Base.{
  ℕ, zero, suc, ◌-◌, ◌≤◌, ◌<◌, ◌≡◌, ◌==◌, ◌&&◌, not, refl, true, false, Option, none, if-true, some,
  [], ap, arith, ◌∙◌,
}
use thread_management_librar.Scheduler.Store.{Store, TaskQueue, Cmd}
use thread_management_librar.Scheduler.Chain.{IsQueue}
use thread_management_librar.Scheduler.Lifecycle.{
  Objects, task_queue_destroy-Destroyed, task_queue_shutdown_lem,
}
use thread_management_librar.ThreadPool.System.{shutdown}
use thread_management_librar.ThreadPool.World.{
  World, ◌>>=◌, on_queue, queue_at, join_worker, join_workers, workers_leave, release_pool,
  release_queue, release_lock, release_cond, abort_spawn,
}

pub on_queue-some :
    {A : Type 0} (m : Cmd A) (w : World) (a : A) (s : Store)
    → m w.store ≡ some (a, s)
    → on_queue m w ≡ some (a, record w { store = s })
unfolding on_queue
on_queue-some m w a s e = rw (e, on_queue)

-- Where the queue is shut down and empty, and a worker is there, its join returns.
join_worker-some :
    (w : World)
    → w.store.queue.shutdown ≡ true
    → w.store.queue.count ≡ 0
    → 0 < w.threads
    → join_worker w ≡ some (tt, record w { threads = w.threads - 1 })
unfolding join_worker
join_worker-some w down empty there =
    let leave : workers_leave w ≡ true = ground arith in
    let here : (w.threads == 0) ≡ false = ground arith in
    if-true (workers_leave w && not (w.threads == 0)) _ _ (ground arith)

pub join_workers-all :
    (k : ℕ) (w : World)
    → w.store.queue.shutdown ≡ true
    → w.store.queue.count ≡ 0
    → k ≤ w.threads
    → join_workers k w ≡ some (tt, record w { threads = w.threads - k })
unfolding join_workers
join_workers-all zero w down empty enough =
    ap (λ (n : ℕ). some (tt, record w { threads = n })) (omega arith)
join_workers-all (suc k) w down empty enough =
    ap (λ (o : Option (Unit {0} × World)). elim o [ none ↦ none | some (_, x) ↦ join_workers k x ])
      (join_worker-some w down empty (omega arith))
    ∙ join_workers-all k (record w { threads = w.threads - 1 }) down empty (omega arith)
    ∙ ap (λ (n : ℕ). some (tt, record w { threads = n })) (omega arith)

-- No resource of a pool is held.
pub record Clean (w : World) : Type 0 where
  pub pool_block : w.pool_block ≡ false
  pub workers_block : w.workers_block ≡ false
  pub wait_lock : w.wait_lock ≡ false
  pub wait_cond : w.wait_cond ≡ false
  pub threads : w.threads ≡ 0
  pub objects : Objects w.store.queue false
  pub queue : IsQueue w.store []

-- The release paths, from a queue that holds no task.
module _ (w : World) (q : IsQueue w.store []) where
  pub release_queue-some :
      (s : Store) × (release_queue w ≡ some (false, record w { pool_block = false; store = s }))
      × Objects s.queue false
      × IsQueue s []
  unfolding release_queue release_pool
  release_queue-some =
      let (s, ran, d) = task_queue_destroy-Destroyed w.store [] queue_at q (omega arith) in
      (s, rw (on_queue-some _ w _ s ran, ◌>>=◌), d.objects, d.valid)

  pub release_lock-some :
      (s : Store) × (release_lock w
        ≡ some (false, record w { wait_lock = false; pool_block = false; store = s }))
      × Objects s.queue false
      × IsQueue s []
  unfolding release_lock release_queue release_pool
  release_lock-some =
      let (s, ran, d) = task_queue_destroy-Destroyed w.store [] queue_at q (omega arith) in
      (s, rw (on_queue-some _ (record w { wait_lock = false }) _ s ran, ◌>>=◌), d.objects, d.valid)

  pub release_cond-some :
      (s : Store) × (release_cond w
        ≡ some (
          false,
          record w { wait_cond = false; wait_lock = false; pool_block = false; store = s },
        ))
      × Objects s.queue false
      × IsQueue s []
  unfolding release_cond release_lock release_queue release_pool
  release_cond-some =
      let (s, ran, d) = task_queue_destroy-Destroyed w.store [] queue_at q (omega arith) in
      (
        s,
        rw (on_queue-some _ (record w { wait_cond = false; wait_lock = false }) _ s ran, ◌>>=◌),
        d.objects,
        d.valid,
      )

  -- With the number of the created workers, `abort_spawn` joins them all and releases everything.
  pub abort_spawn-Clean :
      (i : ℕ) → i ≡ w.threads → (w' : World) × (abort_spawn i w ≡ some (false, w')) × Clean w'
  unfolding abort_spawn release_cond release_lock release_queue release_pool
  abort_spawn-Clean i e =
      let (s, shut, q₁, same, woke) = task_queue_shutdown_lem w.store [] queue_at q (omega arith) in
      let (s', ran, d) = task_queue_destroy-Destroyed s [] queue_at q₁ (omega arith) in
      let before_release : World = record w {
        state = shutdown;
        store = s;
        threads = w.threads - i;
        workers_block = false;
        wait_cond = false;
        wait_lock = false;
      } in
      (
        record before_release { pool_block = false; store = s' },
        rw (
          on_queue-some _ (record w { state = shutdown }) _ s shut,
          join_workers-all i (record w { state = shutdown; store = s })
              (ap (λ (q : TaskQueue). q.shutdown) same) q₁.counted (omega arith),
          on_queue-some _ before_release _ s' ran,
          ◌>>=◌,
        ),
        record {
          pool_block = refl;
          workers_block = refl;
          wait_lock = refl;
          wait_cond = refl;
          threads = omega arith;
          objects = d.objects;
          queue = d.valid;
        },
      )
