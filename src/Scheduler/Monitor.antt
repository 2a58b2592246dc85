-- ===== src/Scheduler/Monitor.antt =====
-- The task queue of src/scheduler.c used by `n` threads at once. A piece of a call that holds the
-- lock is one step; `pthread_cond_wait` puts the thread to sleep, a signal wakes one sleeper of its
-- condition variable if there is one, a broadcast wakes all, and a sleeper may wake by itself.
pub mod Tally
pub mod Invariant
pub mod Wakeups
mod Examples
use thread_management_librar.Base.{
  ℕ, ◌<◌, ◌≡◌, Bool, true, false, List, [], ◌∷◌, ◌++◌, ◌==◌, if◌then◌else◌,
}
use thread_management_librar.Base.Threads.{assign}
use thread_management_librar.Scheduler.Store.{Task}
use thread_management_librar.Scheduler.Fifo
use thread_management_librar.Scheduler.Fifo.{Fifo, accepted, refused, full, took, closed, empty}

-- Where a thread stands in the calls on the queue.
pub data Pc : Type 0 where
  idle : Pc
  -- before the lock, in `task_queue_push` with its node, or woken from `not_full`
  ready_push : Task → Pc
  -- in `pthread_cond_wait` on `not_full`
  asleep_push : Task → Pc
  -- before the lock, in `task_queue_pop`, or woken from `not_empty`
  ready_pop : Pc
  -- in `pthread_cond_wait` on `not_empty`
  asleep_pop : Pc

abbrev pub is_ready_push : Pc → Bool
is_ready_push (ready_push t) = true
is_ready_push _ = false

abbrev pub is_asleep_push : Pc → Bool
is_asleep_push (asleep_push t) = true
is_asleep_push _ = false

abbrev pub is_ready_pop : Pc → Bool
is_ready_pop ready_pop = true
is_ready_pop _ = false

abbrev pub is_asleep_pop : Pc → Bool
is_asleep_pop asleep_pop = true
is_asleep_pop _ = false

-- A wake-up.
abbrev pub rouse : Pc → Pc
rouse (asleep_push t) = ready_push t
rouse asleep_pop = ready_pop
rouse idle = idle
rouse (ready_push t) = ready_push t
rouse ready_pop = ready_pop

-- `task_queue_try_pop` is called by an idle thread, and does not wait.
abbrev pub may_take : Pc → Bool
may_take idle = true
may_take ready_pop = true
may_take _ = false

-- `pthread_cond_signal`: one of those asleep on the condition variable, if there is any.
pub data Woken (n : ℕ) (asleep : Pc → Bool) (pc : ℕ → Pc) : (ℕ → Pc) → Type 0 where
  one : (j : ℕ) → j < n → asleep (pc j) ≡ true → Woken n asleep pc (assign pc j (rouse (pc j)))
  nobody : ((j : ℕ) → j < n → asleep (pc j) ≡ false) → Woken n asleep pc pc

-- `if (queue->capacity > 0) pthread_cond_signal(&queue->not_full)`
pub data Room (n capacity : ℕ) (pc : ℕ → Pc) : (ℕ → Pc) → Type 0 where
  bounded : {pc' : ℕ → Pc} → 0 < capacity → Woken n is_asleep_push pc pc' → Room n capacity pc pc'
  unbounded : capacity ≡ 0 → Room n capacity pc pc

pub record System : Type 0 where
  pub fifo : Fifo
  pub pc : ℕ → Pc
  pub pushed : List Task  -- the tasks that were accepted, in order
  pub popped : List Task  -- the tasks that were taken, in order

pub data Step (n : ℕ) (s : System) : System → Type 0 where
  call_push :
      (i : ℕ) (t : Task)
      → i < n
      → s.pc i ≡ idle
      → Step n s (record s { pc = assign s.pc i (ready_push t) })
  call_pop : (i : ℕ) → i < n → s.pc i ≡ idle → Step n s (record s { pc = assign s.pc i ready_pop })
  push_in :
      (i : ℕ) (t : Task) {f : Fifo} {pc' : ℕ → Pc}
      → i < n
      → s.pc i ≡ ready_push t
      → Fifo.push t s.fifo ≡ (accepted, f)
      → Woken n is_asleep_pop (assign s.pc i idle) pc'
      → Step n s (record s { fifo = f; pc = pc'; pushed = s.pushed ++ t ∷ [] })
  push_sleep :
      (i : ℕ) (t : Task) {f : Fifo}
      → i < n
      → s.pc i ≡ ready_push t
      → Fifo.push t s.fifo ≡ (full, f)
      → Step n s (record s { fifo = f; pc = assign s.pc i (asleep_push t) })
  push_refused :
      (i : ℕ) (t : Task) {f : Fifo}
      → i < n
      → s.pc i ≡ ready_push t
      → Fifo.push t s.fifo ≡ (refused, f)
      → Step n s (record s { fifo = f; pc = assign s.pc i idle })
  pop_out :
      (i : ℕ) {t : Task} {f : Fifo} {pc' : ℕ → Pc}
      → i < n
      → may_take (s.pc i) ≡ true
      → Fifo.pop s.fifo ≡ (took t, f)
      → Room n s.fifo.capacity (assign s.pc i idle) pc'
      → Step n s (record s { fifo = f; pc = pc'; popped = s.popped ++ t ∷ [] })
  pop_sleep :
      (i : ℕ) {f : Fifo}
      → i < n
      → s.pc i ≡ ready_pop
      → Fifo.pop s.fifo ≡ (empty, f)
      → Step n s (record s { fifo = f; pc = assign s.pc i asleep_pop })
  pop_closed :
      (i : ℕ) {f : Fifo}
      → i < n
      → s.pc i ≡ ready_pop
      → Fifo.pop s.fifo ≡ (closed, f)
      → Step n s (record s { fifo = f; pc = assign s.pc i idle })
  wake_up : (i : ℕ) → i < n → Step n s (record s { pc = assign s.pc i (rouse (s.pc i)) })
  shut : Step n s (record s { fifo = record s.fifo { shutdown = true }; pc = λ j. rouse (s.pc j) })

abbrev pub start : ℕ → System
start capacity = record {
  fifo = record { tasks = []; capacity = capacity; shutdown = false };
  pc = λ _. idle;
  pushed = [];
  popped = [];
}

pub data Reach (n capacity : ℕ) : System → Type 0 where
  begin : Reach n capacity (start capacity)
  then_step : {s s' : System} → Reach n capacity s → Step n s s' → Reach n capacity s'
