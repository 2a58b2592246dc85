-- ===== src/ThreadPool/CallSteps.antt =====
-- The pop of a worker and `thread_pool_wait` of src/thread_pool.c on the queue in memory, as steps of the
-- pool at work.
use thread_management_librar.Base.{
  ℕ, ◌<◌, ◌≡◌, ◌≢◌, refl, sym, ◌∙◌, false, some, List, [], ◌∷◌, ◌++◌, Ptr, null, Bool-cases, inl,
  inr, ap, arith, ltb, not_null,
}
use mathlib.Core.List.{append-nil}
use thread_management_librar.Base.Threads.{assign}
use thread_management_librar.Scheduler.Queue.{PopCall, task_queue_pop}
use thread_management_librar.Scheduler.Fifo
use thread_management_librar.Scheduler.Fifo.{Fifo, Taken, took, closed, empty}
use thread_management_librar.Scheduler.Store.{Cmd, Store, Task}
use thread_management_librar.Scheduler.Push.{view}
use thread_management_librar.Scheduler.Pop.{pop_call, Popped, task_queue_pop-Popped}
use thread_management_librar.ThreadPool.System.{
  Worker, at_pop, popped, exited, Client, idle, waiting, comparing, asleep, done, holds_wait_lock,
  Pool, pop_task, pop_closed, call_wait, load_completed, sleep, return_zero, of_worker, of_client,
}
use thread_management_librar.ThreadPool.World.{
  World, WaitCall, wait_returned, wait_sleeps, on_queue, queue_at, thread_pool_wait, wait_loop,
}
use thread_management_librar.ThreadPool.Release.{on_queue-some}
use thread_management_librar.ThreadPool.Progress.{Steps, stay, step_first}
use thread_management_librar.ThreadPool.Shown.{Shows}

-- Where a worker stands after its pop.
abbrev pub worker_after : Taken → Worker
worker_after (took t) = popped t
worker_after closed = exited
worker_after empty = at_pop

-- What it took.
abbrev pub taken_out : Taken → List Task
taken_out (took t) = t ∷ []
taken_out closed = []
taken_out empty = []

pub record TookOut (i : ℕ) (x : Taken) (p p' : Pool) : Type 0 where
  pub worker : (k : ℕ) → p'.worker k ≡ assign p.worker i (worker_after x) k
  pub client : p'.client ≡ p.client
  pub destroyer : p'.destroyer ≡ p.destroyer
  pub taken : p'.taken ≡ p.taken ++ taken_out x
  pub state : p'.state ≡ p.state
  pub active : p'.active_tasks ≡ p.active_tasks
  pub completed : p'.completed_tasks ≡ p.completed_tasks
  pub submitted : p'.submitted_tasks ≡ p.submitted_tasks

pop-Steps :
    {n m : ℕ} (i : ℕ) (p : Pool) (x : Taken) (f : Fifo)
    → i < n
    → p.worker i ≡ at_pop
    → Fifo.pop p.fifo ≡ (x, f)
    → (p' : Pool) × Steps n m p p' × (p'.fifo ≡ f) × TookOut i x p p'
pop-Steps i p (took t) f lt here e = (
  _,
  step_first (of_worker i lt (pop_task here e)) stay,
  refl,
  record {
    worker = λ k. refl;
    client = refl;
    destroyer = refl;
    taken = refl;
    state = refl;
    active = refl;
    completed = refl;
    submitted = refl;
  },
)
pop-Steps i p closed f lt here e = (
  _,
  step_first (of_worker i lt (pop_closed here e)) stay,
  refl,
  record {
    worker = λ k. refl;
    client = refl;
    destroyer = refl;
    taken = sym (append-nil p.taken);
    state = refl;
    active = refl;
    completed = refl;
    submitted = refl;
  },
)
pop-Steps i p empty f lt here e =
    let (_, _, same) = Fifo.pop-empty p.fifo f e in
    (
      p,
      stay,
      sym same,
      record {
        worker = λ k. ground (arith, here);
        client = refl;
        destroyer = refl;
        taken = sym (append-nil p.taken);
        state = refl;
        active = refl;
        completed = refl;
        submitted = refl;
      },
    )

-- A pop, from the call or from a wake-up.
pub Popped-Steps :
    {n m : ℕ} (i : ℕ) (w : World) (p : Pool) (call : Cmd PopCall) (r : PopCall) (s : Store)
    → i < n
    → p.worker i ≡ at_pop
    → (shows : Shows w p) → call w.store ≡ some (r, s)
    → Popped pop_call w.store shows.cells r s
    → (x : Taken) × (w' : World) × (p' : Pool) × (on_queue call w ≡ some (pop_call x, w'))
      × Steps n m p p'
      × Shows w' p'
      × TookOut i x p p'
Popped-Steps i w p call r s lt here shows ran popping =
    let x : Taken = (Fifo.pop (view w.store shows.cells)).0 in
    let (p', steps, same_fifo, out) = pop-Steps i p x _ lt here (ap Fifo.pop shows.fifo) in
    (
      x,
      record w { store = s },
      p',
      on_queue-some _ w _ s (ran ∙ ap (λ (c : PopCall). some (c, s)) popping.result),
      steps,
      record {
        cells = popping.after;
        valid = popping.valid;
        fifo = same_fifo ∙ sym popping.agrees;
        state = out.state ∙ shows.state;
        active = out.active ∙ shows.active;
        completed = out.completed ∙ shows.completed;
        submitted = out.submitted ∙ shows.submitted;
      },
      out,
    )

-- The pop of a worker on the queue in memory is a step of the worker, or no step where the queue is empty
-- and not shut down: let a state of a pool at work, with the worker before its pop, show what the memory
-- holds; `task_queue_pop` with outputs that are not NULL leaves a memory that is shown by the state after the
-- step, in which the worker carries the task that the call wrote to its outputs, has left, or still waits,
-- and no other thread has moved.
pub task_queue_pop-Steps :
    {n m : ℕ} (i : ℕ) (w : World) (p : Pool) (out_func out_arg : Ptr)
    → i < n
    → p.worker i ≡ at_pop
    → Shows w p
    → out_func ≢ null
    → out_arg ≢ null
    → (x : Taken) × (w' : World) × (p' : Pool) × (on_queue
          (task_queue_pop queue_at out_func out_arg)
          w
        ≡ some (pop_call x, w'))
      × Steps n m p p'
      × Shows w' p'
      × TookOut i x p p'
task_queue_pop-Steps i w p out_func out_arg lt here shows nf na =
    let (r, s, ran, popping) =
      task_queue_pop-Popped w.store shows.cells queue_at out_func out_arg shows.valid (omega arith)
        nf na in
    Popped-Steps i w p (task_queue_pop queue_at out_func out_arg) r s lt here shows ran popping

-- Where a client stands after `thread_pool_wait`.
abbrev pub waiter_after : WaitCall → Client
waiter_after (wait_returned r) = done
waiter_after wait_sleeps = asleep

-- Client `j` holds the lock and has loaded `completed_tasks`.
abbrev at_compare : ℕ → Pool → Pool
at_compare j p =
    let locked : Pool = record p { client = assign p.client j waiting } in
    record locked { client = assign locked.client j (comparing p.completed_tasks) }

to_compare :
    {n m : ℕ} (j : ℕ) {p q : Pool}
    → j < m
    → p.client j ≡ idle
    → ((k : ℕ) → holds_wait_lock (p.client k) ≡ false)
    → Steps n m (at_compare j p) q
    → Steps n m p q
to_compare j lt here free steps =
    step_first (of_client j lt (call_wait here free))
      (step_first (of_client j lt (load_completed (ground arith))) steps)

Shows-client :
    {w : World} {p : Pool} → Shows w p → (c : ℕ → Client) → Shows w (record p { client = c })
Shows-client shows c = record {
  cells = shows.cells;
  valid = shows.valid;
  fifo = shows.fifo;
  state = shows.state;
  active = shows.active;
  completed = shows.completed;
  submitted = shows.submitted;
}

-- `thread_pool_wait` of a pool, with the wait lock free and no counter changed between its two loads, is a
-- run of steps of the client that calls it: it ends where the call returns 0, or asleep where it sleeps,
-- and the memory is still shown.
pub thread_pool_wait-Steps :
    {n m : ℕ} (j : ℕ) (w : World) (p : Pool) (pool : Ptr)
    → j < m
    → p.client j ≡ idle
    → ((k : ℕ) → holds_wait_lock (p.client k) ≡ false)
    → Shows w p
    → pool ≢ null
    → (p' : Pool) × Steps n m p p'
      × Shows w p'
      × ((k : ℕ) → p'.client k ≡ assign p.client j (waiter_after (thread_pool_wait pool w)) k)
unfolding thread_pool_wait wait_loop
thread_pool_wait-Steps j w p pool lt here free shows np =
    let loaded : Pool = at_compare j p in
    elim (Bool-cases (ltb w.completed_tasks w.submitted_tasks)) [
      | inl less ↦ (
        record loaded { client = assign loaded.client j asleep },
        to_compare j lt here free (
            step_first
              (of_client j lt (
                sleep p.completed_tasks (ground arith)
                  (rw (shows.completed, shows.submitted) less)))
              stay),
        Shows-client shows _,
        λ k. rw (not_null _ np, less) (ground arith),
      )
      | inr enough ↦ (
        record loaded { client = assign loaded.client j done },
        to_compare j lt here free (
            step_first
              (of_client j lt (
                return_zero p.completed_tasks (ground arith)
                  (rw (shows.completed, shows.submitted) enough)))
              stay),
        Shows-client shows _,
        λ k. rw (not_null _ np, enough) (ground arith),
      )
    ]
