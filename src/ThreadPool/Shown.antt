-- ===== src/ThreadPool/Shown.antt =====
-- What the memory of a pool of src/thread_pool.c holds, as a state of the pool at work; and the push of a
-- client on both.
use thread_management_librar.Base.{
  ℕ, ◌<◌, ◌≡◌, refl, sym, ◌∙◌, Option, none, some, List, [], ◌∷◌, ◌++◌, if◌then◌else◌, Ptr, ap,
  arith,
}
use mathlib.Core.List.{append-nil}
use thread_management_librar.Base.Int.{ℤ, pos, ◌==ℤ◌}
use thread_management_librar.Base.Threads.{assign}
use thread_management_librar.Scheduler.Store.{Store, Task}
use thread_management_librar.Scheduler.Chain.{Cells, IsQueue}
use thread_management_librar.Scheduler.Fifo
use thread_management_librar.Scheduler.Fifo.{Fifo, Accept, accepted, refused, full}
use thread_management_librar.Scheduler.Push.{view, call_of, Pushed}
use thread_management_librar.ThreadPool.System.{
  created, Client, idle, pushing, Pool, push_task, push_refused, raise_submitted, of_client,
}
use thread_management_librar.ThreadPool.World.{World, code_of}
use thread_management_librar.ThreadPool.Create.{Ready}
use thread_management_librar.ThreadPool.Submit.{counted}
use thread_management_librar.ThreadPool.Progress.{Steps, stay, step_first}

-- The pool at work has the queue, the state and the counters that the memory holds.
pub record Shows (w : World) (p : Pool) : Type 0 where
  pub cells : Cells
  pub valid : IsQueue w.store cells
  pub fifo : p.fifo ≡ view w.store cells
  pub state : p.state ≡ w.state
  pub active : p.active_tasks ≡ w.active_tasks
  pub completed : p.completed_tasks ≡ w.completed_tasks
  pub submitted : p.submitted_tasks ≡ w.submitted_tasks

-- Where a client stands after a submit: back, or still in a push that waits.
abbrev pub client_after : Task → Option ℤ → Client
client_after t none = pushing t
client_after t (some r) = idle

-- What it adds to the tasks that the queue took in.
abbrev pub taken_in : Task → Option ℤ → List Task
taken_in t none = []
taken_in t (some r) = if r ==ℤ pos 0 then t ∷ [] else []

-- What a submit of client `j` with this answer does to a pool at work.
pub record Submitted (j : ℕ) (t : Task) (answer : Option ℤ) (p p' : Pool) : Type 0 where
  pub client : (k : ℕ) → p'.client k ≡ assign p.client j (client_after t answer) k
  pub worker : p'.worker ≡ p.worker
  pub destroyer : p'.destroyer ≡ p.destroyer
  pub accepted : p'.accepted ≡ p.accepted ++ taken_in t answer

-- The same with the queue's answer `a`, after which the queue is `f`, and the counters.
pub record Answered (j : ℕ) (t : Task) (a : Accept) (f : Fifo) (fresh : Ptr) (p p' : Pool)
    : Type 0 where
  pub done_by : Submitted j t (code_of (call_of a fresh)) p p'
  pub fifo : p'.fifo ≡ f
  pub state : p'.state ≡ p.state
  pub active : p'.active_tasks ≡ p.active_tasks
  pub completed : p'.completed_tasks ≡ p.completed_tasks
  pub submitted : p'.submitted_tasks ≡ counted a p.submitted_tasks

-- A push with each answer, and what follows.
pub push-Steps :
    {n m : ℕ} (j : ℕ) (p : Pool) (t : Task) (a : Accept) (f : Fifo) (fresh : Ptr)
    → j < m
    → p.client j ≡ pushing t
    → Fifo.push t p.fifo ≡ (a, f)
    → (p' : Pool) × Steps n m p p' × Answered j t a f fresh p p'
push-Steps j p t accepted f fresh lt here e = (
  _,
  step_first (of_client j lt (push_task t here e))
      (step_first (of_client j lt (raise_submitted t (ground arith))) stay),
  record {
    done_by = record {
      client = λ k. ground arith;
      worker = refl;
      destroyer = refl;
      accepted = refl;
    };
    fifo = refl;
    state = refl;
    active = refl;
    completed = refl;
    submitted = refl;
  },
)
push-Steps j p t refused f fresh lt here e = (
  _,
  step_first (of_client j lt (push_refused t here e)) stay,
  record {
    done_by = record {
      client = λ k. refl;
      worker = refl;
      destroyer = refl;
      accepted = sym (append-nil p.accepted);
    };
    fifo = refl;
    state = refl;
    active = refl;
    completed = refl;
    submitted = refl;
  },
)
push-Steps j p t full f fresh lt here e =
    let (_, _, same) = Fifo.push-full t p.fifo f e in
    (
      p,
      stay,
      record {
        done_by = record {
          client = λ k. ground (arith, here);
          worker = refl;
          destroyer = refl;
          accepted = sym (append-nil p.accepted);
        };
        fifo = sym same;
        state = refl;
        active = refl;
        completed = refl;
        submitted = refl;
      },
    )

-- The memory after a push is shown by the state after the steps.
pub Answered-Shows :
    {j : ℕ} {t : Task} {w : World} {p p' : Pool} {s : Store} {fresh : Ptr}
    → (shows : Shows w p)
    → let answer = (Fifo.push t (view w.store shows.cells)).0 in
      Pushed w.store shows.cells fresh t (call_of answer fresh) s
      → Answered j t answer (Fifo.push t (view w.store shows.cells)).1 fresh p p'
      → Shows (record w { store = s; submitted_tasks = counted answer w.submitted_tasks }) p'
Answered-Shows {t} {w} shows pushed answered = record {
  cells = pushed.after;
  valid = pushed.valid;
  fifo = answered.fifo ∙ sym pushed.agrees;
  state = answered.state ∙ shows.state;
  active = answered.active ∙ shows.active;
  completed = answered.completed ∙ shows.completed;
  submitted =
      answered.submitted ∙ ap (counted (Fifo.push t (view w.store shows.cells)).0) shows.submitted;
}

-- The pool that `thread_pool_create` returns is shown by the state in which the threads of a pool start.
pub Ready-Shows : {n capacity : ℕ} {w : World} → Ready n capacity w → Shows w (created capacity)
Ready-Shows ready = record {
  cells = [];
  valid = ready.queue;
  fifo = rw (ready.bound.0, ready.open_queue) refl;
  state = sym ready.state;
  active = sym ready.counters.0;
  completed = sym ready.counters.1;
  submitted = sym ready.counters.2;
}
