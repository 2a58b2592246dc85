-- ===== src/ThreadPool/System.antt =====
-- A thread pool of src/thread_pool.c at work: its `n` workers, the client threads that call
-- `thread_pool_submit` and `thread_pool_wait`, and the calls of `thread_pool_destroy`. Each access
-- to shared memory is one step. A push or pop of the queue is one step too, taken when it does not
-- have to wait.
use thread_management_librar.Base.{
  ℕ, ◌<◌, ◌≡◌, Bool, true, false, List, [], ◌∷◌, ◌++◌, ltb, inc_size, dec_size, suc,
}
use thread_management_librar.Base.Threads.{assign}
use thread_management_librar.Scheduler.Store.{Task}
use thread_management_librar.Scheduler.Fifo
use thread_management_librar.Scheduler.Fifo.{Fifo, accepted, refused, took, closed}

-- `pool_state_t`
pub data PoolState : Type 0 where
  running shutdown terminated : PoolState

abbrev pub is_running : PoolState → Bool
is_running running = true
is_running shutdown = false
is_running terminated = false

abbrev pub is_terminated : PoolState → Bool
is_terminated running = false
is_terminated shutdown = false
is_terminated terminated = true

-- Where a worker stands in `worker_thread`.
pub data Worker : Type 0 where
  at_pop : Worker  -- before `task_queue_pop`
  popped : Task → Worker  -- before it loads the state
  starting : Task → Worker  -- before it raises `active_tasks`
  executing : Task → Worker  -- in `func(task_arg)`
  returned : Task → Worker  -- before it lowers `active_tasks`
  retired : Task → Worker  -- before it raises `completed_tasks`
  notifying : Worker  -- before it takes `wait_lock` and broadcasts
  exited : Worker

-- Where a client stands in `thread_pool_submit` or `thread_pool_wait`.
pub data Client : Type 0 where
  idle : Client
  submitting : Task → Client  -- before it loads the state
  pushing : Task → Client  -- in `task_queue_push`
  counting : Task → Client  -- before it raises `submitted_tasks`
  waiting : Client  -- in `thread_pool_wait`, holding `wait_lock`, at the test of the loop
  comparing : ℕ → Client  -- holding `wait_lock`, with the value of `completed_tasks`
  bounding : ℕ → Client  -- holding `wait_lock`, with the value of `submitted_tasks`
  asleep : Client  -- in `pthread_cond_wait` on `wait_cond`
  woken : Client  -- woken, and waiting for `wait_lock`
  done : Client  -- `thread_pool_wait` has returned 0

-- Where the call of `thread_pool_destroy` stands that was the last to succeed in its exchange.
pub data Destroyer : Type 0 where
  absent : Destroyer  -- there is none
  stopping : Destroyer  -- the exchange has set the state to SHUTDOWN
  joining : ℕ → Destroyer  -- the queue is shut down, and the workers before this one are joined
  -- the state is TERMINATED, and nothing is freed yet: the frees that follow end the life of the pool, and the
  -- states here are those before them
  finished : Destroyer

abbrev pub holds_wait_lock : Client → Bool
holds_wait_lock waiting = true
holds_wait_lock (comparing c) = true
holds_wait_lock (bounding s) = true
holds_wait_lock _ = false

-- A broadcast on `wait_cond`.
abbrev pub wake : Client → Client
wake asleep = woken
wake idle = idle
wake (submitting t) = submitting t
wake (pushing t) = pushing t
wake (counting t) = counting t
wake waiting = waiting
wake (comparing c) = comparing c
wake (bounding s) = bounding s
wake woken = woken
wake done = done

pub record Pool : Type 0 where
  pub state : PoolState
  pub fifo : Fifo
  pub active_tasks : ℕ
  pub completed_tasks : ℕ
  pub submitted_tasks : ℕ
  pub worker : ℕ → Worker
  pub client : ℕ → Client
  pub destroyer : Destroyer
  -- the tasks that the queue took in, that workers took out, and whose function has returned
  pub accepted : List Task
  pub taken : List Task
  pub executed : List Task

-- One step of worker `i`.
pub data WorkerStep (p : Pool) (i : ℕ) : Pool → Type 0 where
  pop_task :
      {t : Task} {f : Fifo}
      → p.worker i ≡ at_pop
      → Fifo.pop p.fifo ≡ (took t, f)
      → WorkerStep p i
          (record p { fifo = f; worker = assign p.worker i (popped t); taken = p.taken ++ t ∷ [] })
  pop_closed :
      {f : Fifo}
      → p.worker i ≡ at_pop
      → Fifo.pop p.fifo ≡ (closed, f)
      → WorkerStep p i (record p { fifo = f; worker = assign p.worker i exited })
  see_terminated :
      (t : Task)
      → p.worker i ≡ popped t
      → is_terminated p.state ≡ true
      → WorkerStep p i (record p { worker = assign p.worker i exited })
  see_alive :
      (t : Task)
      → p.worker i ≡ popped t
      → is_terminated p.state ≡ false
      → WorkerStep p i (record p { worker = assign p.worker i (starting t) })
  raise_active :
      (t : Task)
      → p.worker i ≡ starting t
      → WorkerStep p i (record p {
        active_tasks = inc_size p.active_tasks;
        worker = assign p.worker i (executing t);
      })
  run_task :
      (t : Task)
      → p.worker i ≡ executing t
      → WorkerStep p i
          (record p { worker = assign p.worker i (returned t); executed = p.executed ++ t ∷ [] })
  lower_active :
      (t : Task)
      → p.worker i ≡ returned t
      → WorkerStep p i (record p {
        active_tasks = dec_size p.active_tasks;
        worker = assign p.worker i (retired t);
      })
  raise_completed :
      (t : Task)
      → p.worker i ≡ retired t
      → WorkerStep p i (record p {
        completed_tasks = inc_size p.completed_tasks;
        worker = assign p.worker i notifying;
      })
  -- the lock is free: no client is between its test and its sleep
  broadcast :
      p.worker i ≡ notifying
      → ((j : ℕ) → holds_wait_lock (p.client j) ≡ false)
      → WorkerStep p i
          (record p { worker = assign p.worker i at_pop; client = λ j. wake (p.client j) })

-- One step of client `j`. The C language leaves open which operand of `<` in `thread_pool_wait` is loaded
-- first: both orders are here.
pub data ClientStep (p : Pool) (j : ℕ) : Pool → Type 0 where
  call_submit :
      (t : Task)
      → p.client j ≡ idle
      → ClientStep p j (record p { client = assign p.client j (submitting t) })
  see_running :
      (t : Task)
      → p.client j ≡ submitting t
      → is_running p.state ≡ true
      → ClientStep p j (record p { client = assign p.client j (pushing t) })
  see_stopped :
      (t : Task)
      → p.client j ≡ submitting t
      → is_running p.state ≡ false
      → ClientStep p j (record p { client = assign p.client j idle })
  push_task :
      (t : Task) {f : Fifo}
      → p.client j ≡ pushing t
      → Fifo.push t p.fifo ≡ (accepted, f)
      → ClientStep p j (record p {
        fifo = f;
        client = assign p.client j (counting t);
        accepted = p.accepted ++ t ∷ [];
      })
  push_refused :
      (t : Task) {f : Fifo}
      → p.client j ≡ pushing t
      → Fifo.push t p.fifo ≡ (refused, f)
      → ClientStep p j (record p { fifo = f; client = assign p.client j idle })
  raise_submitted :
      (t : Task)
      → p.client j ≡ counting t
      → ClientStep p j (record p {
        submitted_tasks = inc_size p.submitted_tasks;
        client = assign p.client j idle;
      })
  call_wait :
      p.client j ≡ idle
      → ((k : ℕ) → holds_wait_lock (p.client k) ≡ false)
      → ClientStep p j (record p { client = assign p.client j waiting })
  load_completed :
      p.client j ≡ waiting
      → ClientStep p j (record p { client = assign p.client j (comparing p.completed_tasks) })
  -- `completed < submitted`: the wait gives the lock up
  sleep :
      (c : ℕ)
      → p.client j ≡ comparing c
      → ltb c p.submitted_tasks ≡ true
      → ClientStep p j (record p { client = assign p.client j asleep })
  return_zero :
      (c : ℕ)
      → p.client j ≡ comparing c
      → ltb c p.submitted_tasks ≡ false
      → ClientStep p j (record p { client = assign p.client j done })
  load_submitted :
      p.client j ≡ waiting
      → ClientStep p j (record p { client = assign p.client j (bounding p.submitted_tasks) })
  sleep_below :
      (s : ℕ)
      → p.client j ≡ bounding s
      → ltb p.completed_tasks s ≡ true
      → ClientStep p j (record p { client = assign p.client j asleep })
  return_reached :
      (s : ℕ)
      → p.client j ≡ bounding s
      → ltb p.completed_tasks s ≡ false
      → ClientStep p j (record p { client = assign p.client j done })
  wake_alone : p.client j ≡ asleep → ClientStep p j (record p { client = assign p.client j woken })
  relock :
      p.client j ≡ woken
      → ((k : ℕ) → holds_wait_lock (p.client k) ≡ false)
      → ClientStep p j (record p { client = assign p.client j waiting })
  leave_wait : p.client j ≡ done → ClientStep p j (record p { client = assign p.client j idle })

-- Client `j` has found `completed_tasks` not below `submitted_tasks` and is about to return 0, whichever of the two it
-- loaded first.
pub data ReturnsZero (p : Pool) (j : ℕ) : Type 0 where
  completed_passes :
      (c : ℕ) → p.client j ≡ comparing c → ltb c p.submitted_tasks ≡ false → ReturnsZero p j
  submitted_passes :
      (s : ℕ) → p.client j ≡ bounding s → ltb p.completed_tasks s ≡ false → ReturnsZero p j

-- One step of a call of `thread_pool_destroy`, with `n` workers to join.
pub data DestroyStep (n : ℕ) (p : Pool) : Pool → Type 0 where
  exchange :
      is_running p.state ≡ true
      → DestroyStep n p (record p { state = shutdown; destroyer = stopping })
  -- a call whose exchange fails returns at once
  exchange_fails : is_running p.state ≡ false → DestroyStep n p p
  shut_queue :
      p.destroyer ≡ stopping
      → DestroyStep n p
          (record p { fifo = record p.fifo { shutdown = true }; destroyer = joining 0 })
  join :
      (i : ℕ)
      → p.destroyer ≡ joining i
      → i < n
      → p.worker i ≡ exited
      → DestroyStep n p (record p { destroyer = joining (suc i) })
  terminate :
      (i : ℕ)
      → p.destroyer ≡ joining i
      → i ≡ n
      → DestroyStep n p (record p { state = terminated; destroyer = finished })

pub data Step (n m : ℕ) (p : Pool) : Pool → Type 0 where
  of_worker : (i : ℕ) {p' : Pool} → i < n → WorkerStep p i p' → Step n m p p'
  of_client : (j : ℕ) {p' : Pool} → j < m → ClientStep p j p' → Step n m p p'
  of_destroyer : {p' : Pool} → DestroyStep n p p' → Step n m p p'

-- After `thread_pool_create`.
abbrev pub created : ℕ → Pool
created capacity = record {
  state = running;
  fifo = record { tasks = []; capacity = capacity; shutdown = false };
  active_tasks = 0;
  completed_tasks = 0;
  submitted_tasks = 0;
  worker = λ _. at_pop;
  client = λ _. idle;
  destroyer = absent;
  accepted = [];
  taken = [];
  executed = [];
}

-- The states that `n` workers and `m` clients of a pool can come to.
pub data Reach (n m capacity : ℕ) : Pool → Type 0 where
  begin : Reach n m capacity (created capacity)
  then_step : {p p' : Pool} → Reach n m capacity p → Step n m p p' → Reach n m capacity p'
