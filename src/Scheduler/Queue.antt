-- ===== src/Scheduler/Queue.antt =====
-- The functions of src/scheduler.c. `pthread_mutex_lock` and `unlock` bracket what runs here as one
-- piece, and a call that reaches `pthread_cond_wait` ends its piece there: it gives the lock up and
-- says that it waits. When it is woken it goes on with `push_loop` or `pop_loop`.
use thread_management_librar.Base.{
  ℕ, zero, suc, Bool, true, false, not, ◌&&◌, ◌||◌, Option, none, some, ◌==◌, ltb, leb,
  if◌then◌else◌, inc_size, dec_size,
}
use thread_management_librar.Base.Int.{ℤ, pos, negsuc}
use thread_management_librar.Scheduler.Store.{
  Ptr, null, Priority, TaskQueue, signal_not_empty, signal_not_full, broadcast_not_empty,
  broadcast_not_full, Cmd, pure, ◌>>=◌, ◌>>◌, get_queue, put_queue, store, load, set_next, free,
  send,
}

abbrev pub success : ℤ
success = pos 0

-- -1
abbrev pub failure : ℤ
failure = negsuc 0

-- How a piece of `task_queue_push` ends: by a return, or asleep on `not_full` with its node.
pub data PushCall : Type 0 where
  push_returned : ℤ → PushCall
  push_waits : Ptr → PushCall

-- How a piece of `task_queue_pop` ends: by a return, with what it wrote to `*out_func` and `*out_arg`,
-- or asleep on `not_empty`.
pub data PopCall : Type 0 where
  pop_returned : ℤ → Option (Ptr × Ptr) → PopCall
  pop_waits : PopCall

-- After `memset`.
abbrev zeroed : TaskQueue
zeroed = record {
  head = null;
  tail = null;
  count = 0;
  capacity = 0;
  lock = false;
  not_empty = false;
  not_full = false;
  shutdown = false;
}

-- `pthread_mutex_init` and `pthread_mutex_destroy` of the lock, and so for the condition variables.
abbrev set_lock : Bool → Cmd (Unit {0})
set_lock live = do q ← get_queue; put_queue (record q { lock = live })

abbrev set_not_empty : Bool → Cmd (Unit {0})
set_not_empty live = do q ← get_queue; put_queue (record q { not_empty = live })

abbrev set_not_full : Bool → Cmd (Unit {0})
set_not_full live = do q ← get_queue; put_queue (record q { not_full = live })

-- `ret_lock`, `ret_empty` and `ret_full` are what the three initialisations return.
unfoldable pub task_queue_init : Ptr → ℕ → (ret_lock ret_empty ret_full : ℕ) → Cmd ℤ
task_queue_init queue capacity ret_lock ret_empty ret_full =
    if queue == null then pure failure else do
      put_queue (record zeroed { capacity = capacity; shutdown = false })
      if not (ret_lock == 0) then pure failure else do
        set_lock true
        if not (ret_empty == 0) then (do set_lock false; pure failure) else do
          set_not_empty true
          if not (ret_full == 0)
              then (do set_not_empty false; set_lock false; pure failure)
              else (do set_not_full true; pure success)

-- The loop that frees the nodes, on fuel.
unfoldable pub destroy_loop : ℕ → Ptr → Cmd (Unit {0})
destroy_loop zero p = λ s. none
destroy_loop (suc k) p = if p == null then pure tt else do n ← load p; free p; destroy_loop k n.next

unfoldable pub task_queue_destroy : Ptr → Cmd (Unit {0})
unfolding destroy_loop
task_queue_destroy queue = if queue == null then pure tt else do
  q ← get_queue
  destroy_loop (suc q.count) q.head
  q' ← get_queue
  put_queue (record q' { head = null; tail = null; count = 0 })
  set_not_full false
  set_not_empty false
  set_lock false

-- The test of the `while` in `task_queue_push`.
abbrev pub push_must_wait : TaskQueue → Bool
push_must_wait q = ltb 0 q.capacity && leb q.capacity q.count && not q.shutdown

-- The append at the tail.
unfoldable pub append_node : Ptr → Cmd (Unit {0})
append_node n = do
  q ← get_queue
  if q.tail == null then put_queue (record q { head = n }) else set_next q.tail n
  q' ← get_queue
  put_queue (record q' { tail = n; count = inc_size q'.count })

-- What follows the `while` of `task_queue_push`.
unfoldable pub push_finish : Ptr → Cmd PushCall
unfolding append_node
push_finish n = do
  q ← get_queue
  if q.shutdown
      then (do free n; pure (push_returned failure))
      else (do append_node n; send signal_not_empty; pure (push_returned success))

-- The `while` of `task_queue_push`, from the start of the function or from a wake-up.
unfoldable pub push_loop : Ptr → Cmd PushCall
unfolding push_finish
push_loop n = do q ← get_queue; if push_must_wait q then pure (push_waits n) else push_finish n

-- `fresh` is what `malloc` returns, and `now` the time.
unfoldable pub task_queue_push :
    (queue func arg : Ptr) → Priority → (fresh : Ptr) (now : ℕ) → Cmd PushCall
unfolding push_loop
task_queue_push queue func arg priority fresh now =
    if queue == null || func == null
    then pure (push_returned failure)
    else if fresh == null
    then pure (push_returned failure)
    else do
      store fresh (record {
        task = record { func = func; arg = arg; priority = priority; submit_time = now };
        next = null;
      })
      q ← get_queue
      if q.shutdown then (do free fresh; pure (push_returned failure)) else push_loop fresh

-- What `task_queue_pop` and `task_queue_try_pop` do with a queue that is not empty.
unfoldable pub take_head : Cmd PopCall
take_head = do
  q ← get_queue
  n ← load q.head
  put_queue (record q {
    head = n.next;
    tail = if n.next == null then null else q.tail;
    count = dec_size q.count;
  })
  if ltb 0 q.capacity then send signal_not_full else pure tt
  free q.head
  pure (pop_returned success (some (n.func, n.arg)))

-- The `while` of `task_queue_pop` and what follows it.
unfoldable pub pop_loop : Cmd PopCall
unfolding take_head
pop_loop = do
  q ← get_queue
  if q.count == 0 && not q.shutdown
      then pure pop_waits
      else if q.count == 0 && q.shutdown
      then pure (pop_returned failure none)
      else take_head

unfoldable pub task_queue_pop : (queue out_func out_arg : Ptr) → Cmd PopCall
unfolding pop_loop
task_queue_pop queue out_func out_arg =
    if queue == null || out_func == null || out_arg == null
    then pure (pop_returned failure none)
    else pop_loop

unfoldable pub task_queue_try_pop : (queue out_func out_arg : Ptr) → Cmd PopCall
unfolding take_head
task_queue_try_pop queue out_func out_arg =
    if queue == null || out_func == null || out_arg == null
    then pure (pop_returned failure none)
    else do q ← get_queue; if q.count == 0 then pure (pop_returned failure none) else take_head

unfoldable pub task_queue_size : Ptr → Cmd ℕ
task_queue_size queue = if queue == null then pure 0 else do q ← get_queue; pure q.count

unfoldable pub task_queue_shutdown : Ptr → Cmd (Unit {0})
task_queue_shutdown queue = if queue == null then pure tt else do
  q ← get_queue
  put_queue (record q { shutdown = true })
  send broadcast_not_empty
  send broadcast_not_full
