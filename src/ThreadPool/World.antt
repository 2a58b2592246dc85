-- ===== src/ThreadPool/World.antt =====
-- What `thread_pool_create` and `thread_pool_destroy` of src/thread_pool.c work on, and the functions
-- themselves. Each resource of a pool is a flag, or a number of threads, so that a leak shows.
use thread_management_librar.Base.{
  ℕ, zero, suc, ◌+◌, ◌-◌, Bool, true, false, not, Option, none, some, ◌||◌, ◌&&◌, ◌==◌, ltb,
  if◌then◌else◌, Ptr, null, inc_size,
}
use thread_management_librar.Base.Int.{ℤ, pos, negsuc, ◌==ℤ◌}
use thread_management_librar.Platform.{Processors, platform_get_num_cores}
use thread_management_librar.Scheduler.Store.{Store, Cmd, Priority}
use thread_management_librar.Scheduler.Queue.{
  PushCall, push_returned, push_waits, task_queue_init, task_queue_destroy, task_queue_shutdown,
  task_queue_push, task_queue_size, push_loop,
}
use thread_management_librar.ThreadPool.System.{
  PoolState, running, shutdown, terminated, is_running,
}

abbrev pub default_queue_capacity : ℕ
default_queue_capacity = 1024

-- `thread_pool_t`, the queue apart. `pool_block` and `workers_block` say whether the two blocks of
-- memory are allocated, `wait_lock` and `wait_cond` whether these objects are initialised, and
-- `threads` how many workers were created and not yet joined.
pub record World : Type 0 where
  pub pool_block : Bool
  pub workers_block : Bool
  pub wait_lock : Bool
  pub wait_cond : Bool
  pub threads : ℕ
  pub num_threads : ℕ
  pub queue_capacity : ℕ
  pub state : PoolState
  pub active_tasks : ℕ
  pub completed_tasks : ℕ
  pub submitted_tasks : ℕ
  pub store : Store

abbrev pub Act : Type 0 → Type 0
Act A = World → Option (A × World)

abbrev pub pure : {A : Type 0} → A → Act A
pure a w = some (a, w)

infixl 5 ◌>>=◌ ◌>>◌
abbrev pub ◌>>=◌ : {A B : Type 0} → Act A → (A → Act B) → Act B
◌>>=◌ m k w = elim (m w) [ none ↦ none | some (a, w') ↦ k a w' ]

abbrev pub ◌>>◌ : {B : Type 0} → Act (Unit {0}) → Act B → Act B
m >> k = m >>= λ _. k

-- A change of the fields.
abbrev pub change : (World → World) → Act (Unit {0})
change f w = some (tt, f w)

-- A call on `&pool->queue`.
unfoldable pub on_queue : {A : Type 0} → Cmd A → Act A
on_queue m w = elim (m w.store) [ none ↦ none | some (a, s) ↦ some (a, record w { store = s }) ]

-- The address of the queue within the pool, which is not NULL.
abbrev pub queue_at : Ptr
queue_at = 16

-- What the system answers: `calloc` of the pool and of the workers, what the system says about processors, the
-- initialisations, and `pthread_create` of each worker.
pub record Answers : Type 0 where
  pub pool_block : Bool
  pub processors : Processors
  pub ret_lock : ℕ
  pub ret_empty : ℕ
  pub ret_full : ℕ
  pub ret_wait_lock : ℕ
  pub ret_wait_cond : ℕ
  pub workers_block : Bool
  pub ret_create : ℕ → ℕ

-- The number of workers, and the capacity of the queue.
unfoldable pub choose_threads : (num_threads cores : ℕ) → ℕ
choose_threads num_threads cores =
    if num_threads == 0 then (if cores == 0 then 4 else cores) else num_threads

unfoldable pub choose_capacity : ℕ → ℕ
choose_capacity queue_capacity =
    if queue_capacity == 0 then default_queue_capacity else queue_capacity

-- The loop of `pthread_create`: `left` more workers from number `i` on. It gives the number of the
-- worker that could not be created, if there is one.
unfoldable pub spawn_workers : (left i : ℕ) → (ℕ → ℕ) → Act (Option ℕ)
spawn_workers zero i ret = pure none
spawn_workers (suc k) i ret =
    if not (ret i == 0)
    then pure (some i)
    else do change (λ w. record w { threads = w.threads + 1 }); spawn_workers k (suc i) ret

-- Whether a worker that stands before its pop leaves: `task_queue_pop` then returns -1.
abbrev pub workers_leave : World → Bool
workers_leave w = w.store.queue.shutdown && w.store.queue.count == 0

-- `pthread_join` of a worker, which returns once the worker has left. `none` here also stands for a call that never
-- returns: the queue is not shut down, or there is no such worker; or that returns only after the workers have run
-- the tasks that are still queued, which System has, not this.
unfoldable pub join_worker : Act (Unit {0})
join_worker w =
    if workers_leave w && not (w.threads == 0)
    then some (tt, record w { threads = w.threads - 1 })
    else none

-- The loop of `pthread_join`.
unfoldable pub join_workers : ℕ → Act (Unit {0})
unfolding join_worker
join_workers zero = pure tt
join_workers (suc k) = join_worker >> join_workers k

-- The releases that the error paths of `thread_pool_create` share, each path from its own point on.
unfoldable pub release_pool : Act Bool
release_pool = do change (λ w. record w { pool_block = false }); pure false

unfoldable pub release_queue : Act Bool
unfolding release_pool
release_queue = do on_queue (task_queue_destroy queue_at); release_pool

unfoldable pub release_lock : Act Bool
unfolding release_queue
release_lock = do change (λ w. record w { wait_lock = false }); release_queue

unfoldable pub release_cond : Act Bool
unfolding release_lock
release_cond = do change (λ w. record w { wait_cond = false }); release_lock

-- The error path of `pthread_create`, with `i` workers to join.
unfoldable pub abort_spawn : ℕ → Act Bool
unfolding release_cond join_workers
abort_spawn i = do
  change (λ w. record w { state = shutdown })
  on_queue (task_queue_shutdown queue_at)
  join_workers i
  change (λ w. record w { workers_block = false })
  release_cond

unfoldable pub spawn_result : Option ℕ → Act Bool
unfolding abort_spawn
spawn_result none = pure true
spawn_result (some i) = abort_spawn i

unfoldable pub spawn_all : ℕ → (ℕ → ℕ) → Act Bool
unfolding spawn_workers spawn_result
spawn_all n ret = do failed ← spawn_workers n 0 ret; spawn_result failed

-- After the queue is there.
unfoldable pub create_rest : ℕ → Answers → Act Bool
unfolding release_queue release_lock release_cond spawn_all
create_rest n ans = if not (ans.ret_wait_lock == 0) then release_queue else do
  change (λ w. record w { wait_lock = true })
  if not (ans.ret_wait_cond == 0) then release_lock else do
    change (λ w. record w {
      wait_cond = true;
      state = running;
      active_tasks = 0;
      completed_tasks = 0;
      submitted_tasks = 0;
    })
    if not ans.workers_block
        then release_cond
        else do change (λ w. record w { workers_block = true }); spawn_all n ans.ret_create

-- True for a pool, false for NULL.
unfoldable pub thread_pool_create : (num_threads queue_capacity : ℕ) → Answers → Act Bool
unfolding create_rest release_pool choose_threads choose_capacity
thread_pool_create num_threads queue_capacity ans = if not ans.pool_block then pure false else do
  change (λ w. record w {
    pool_block = true;
    num_threads = choose_threads num_threads (platform_get_num_cores ans.processors);
    queue_capacity = choose_capacity queue_capacity;
  })
  ret ← on_queue (
      task_queue_init queue_at (choose_capacity queue_capacity) ans.ret_lock ans.ret_empty
        ans.ret_full)
  if not (ret ==ℤ pos 0)
      then release_pool
      else create_rest (choose_threads num_threads (platform_get_num_cores ans.processors)) ans

-- True if this call destroyed the pool, false if it returned at the exchange.
unfoldable pub thread_pool_destroy : Ptr → Act Bool
unfolding join_workers release_cond
thread_pool_destroy pool w =
    if pool == null
    then some (false, w)
    else if not (is_running w.state)
    then some (false, w)
    else (do
      change (λ w. record w { state = shutdown })
      on_queue (task_queue_shutdown queue_at)
      join_workers w.num_threads
      change (λ w. record w { state = terminated; workers_block = false })
      _ ← release_cond
      pure true)
        w

-- The codes of `thread_pool_submit`, apart from those of `task_queue_push`; `none` is a wait.
abbrev pub code_of : PushCall → Option ℤ
code_of (push_returned r) = some r
code_of (push_waits p) = none

abbrev is_success : Option ℤ → Bool
is_success none = false
is_success (some r) = r ==ℤ pos 0

-- What `thread_pool_submit` does with the result of the push.
unfoldable pub count_submitted : PushCall → Act (Option ℤ)
count_submitted call = do
  if is_success (code_of call)
      then change (λ w. record w { submitted_tasks = inc_size w.submitted_tasks })
      else pure tt
  pure (code_of call)

-- `thread_pool_submit`: -1 for NULL, -2 once the pool is not running, else what the push returns.
unfoldable pub thread_pool_submit :
    (pool func arg : Ptr) → Priority → (fresh : Ptr) (now : ℕ) → Act (Option ℤ)
unfolding count_submitted
thread_pool_submit pool func arg priority fresh now w =
    if pool == null || func == null
    then some (some (negsuc 0), w)
    else if not (is_running w.state)
    then some (some (negsuc 1), w)
    else (do
      call ← on_queue (task_queue_push queue_at func arg priority fresh now)
      count_submitted call)
        w

-- The same call when its push is woken with the node `n`.
unfoldable pub submit_woken : (n : Ptr) → Act (Option ℤ)
unfolding count_submitted
submit_woken n = do call ← on_queue (push_loop n); count_submitted call

-- How a piece of `thread_pool_wait` ends: by a return, or asleep on `wait_cond`.
pub data WaitCall : Type 0 where
  wait_returned : ℤ → WaitCall
  wait_sleeps : WaitCall

-- The `while` of `thread_pool_wait`, from the start of the function or from a wake-up, where no counter
-- changes between the two loads.
unfoldable pub wait_loop : World → WaitCall
wait_loop w = if ltb w.completed_tasks w.submitted_tasks then wait_sleeps else wait_returned (pos 0)

unfoldable pub thread_pool_wait : Ptr → World → WaitCall
unfolding wait_loop
thread_pool_wait pool w = if pool == null then wait_returned (negsuc 0) else wait_loop w

unfoldable pub thread_pool_pending : Ptr → Act ℕ
thread_pool_pending pool = if pool == null then pure 0 else on_queue (task_queue_size queue_at)

unfoldable pub thread_pool_active : Ptr → World → ℕ
thread_pool_active pool w = if pool == null then 0 else w.active_tasks

unfoldable pub thread_pool_completed : Ptr → World → ℕ
thread_pool_completed pool w = if pool == null then 0 else w.completed_tasks

unfoldable pub thread_pool_size : Ptr → World → ℕ
thread_pool_size pool w = if pool == null then 0 else w.num_threads
