-- ===== src/Demos/Counter.antt =====
-- Example 2 of examples/hello_threads.c: `n` tasks that increment one counter under a mutex. The load
-- and the store of `shared_counter++` are two steps, and each task may stand anywhere between them.
pub mod Exact
pub mod Ends
use thread_management_librar.Base.{ℕ, suc, ◌+◌, ◌%◌, ◌<◌, ◌≡◌, Bool, true, false, ltb, uint_mod}
use thread_management_librar.Base.Threads.{assign}

-- Where a task stands in `increment_with_mutex`, in round `i` of its loop.
pub data Pc : Type 0 where
  at_test : (i : ℕ) → Pc  -- before `i < increments`
  locking : (i : ℕ) → Pc  -- in `sthread_mutex_lock`
  locked : (i : ℕ) → Pc  -- before the load of the counter
  loaded : (i value : ℕ) → Pc  -- before the store
  stored : (i : ℕ) → Pc  -- before `sthread_mutex_unlock`
  finished : Pc

-- It has the mutex.
abbrev pub holds_mutex : Pc → Bool
holds_mutex (at_test i) = false
holds_mutex (locking i) = false
holds_mutex (locked i) = true
holds_mutex (loaded i value) = true
holds_mutex (stored i) = true
holds_mutex finished = false

abbrev pub is_finished : Pc → Bool
is_finished finished = true
is_finished _ = false

pub record State : Type 0 where
  pub shared_counter : ℕ
  pub pc : ℕ → Pc

pub data Step (n increments : ℕ) (s : State) : State → Type 0 where
  enter_loop :
      (t i : ℕ)
      → t < n
      → s.pc t ≡ at_test i
      → ltb i increments ≡ true
      → Step n increments s (record s { pc = assign s.pc t (locking i) })
  leave_loop :
      (t i : ℕ)
      → t < n
      → s.pc t ≡ at_test i
      → ltb i increments ≡ false
      → Step n increments s (record s { pc = assign s.pc t finished })
  lock_mutex :
      (t i : ℕ)
      → t < n
      → s.pc t ≡ locking i
      → ((u : ℕ) → u < n → holds_mutex (s.pc u) ≡ false)
      → Step n increments s (record s { pc = assign s.pc t (locked i) })
  load_counter :
      (t i : ℕ)
      → t < n
      → s.pc t ≡ locked i
      → Step n increments s (record s { pc = assign s.pc t (loaded i s.shared_counter) })
  store_counter :
      (t i value : ℕ)
      → t < n
      → s.pc t ≡ loaded i value
      → Step n increments s
          (record { shared_counter = (value + 1) % uint_mod; pc = assign s.pc t (stored i) })
  unlock_mutex :
      (t i : ℕ)
      → t < n
      → s.pc t ≡ stored i
      → Step n increments s (record s { pc = assign s.pc t (at_test (i + 1)) })

-- `example_mutex` has reset the counter and submitted the tasks.
abbrev pub start : State
start = record { shared_counter = 0; pc = λ _. at_test 0 }

pub data Reach (n increments : ℕ) : State → Type 0 where
  begin : Reach n increments start
  then_step : {s s' : State} → Reach n increments s → Step n increments s s' → Reach n increments s'
