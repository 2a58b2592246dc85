-- ===== src/Sync/Counting.antt =====
-- A semaphore of src/sync.c used by `n` threads at once. `pthread_cond_wait` puts a thread to sleep,
-- a signal wakes one sleeper if there is one, and a sleeper may wake by itself.
use thread_management_librar.Base.{ℕ, suc, ◌<◌, ◌≡◌, Bool, true, false, Ptr}
use thread_management_librar.Base.Threads.{assign}
use thread_management_librar.Sync.Errors.{sthread_success, sthread_error_busy}
use thread_management_librar.Sync.Semaphore.{
  SyncSem, sem_returned, sem_waits, wait_loop, sync_sem_trywait, sync_sem_post,
}

-- Where a thread stands: outside, before the lock in `sync_sem_wait`, or asleep in it.
pub data Pc : Type 0 where
  idle ready asleep : Pc

abbrev pub is_ready : Pc → Bool
is_ready ready = true
is_ready _ = false

abbrev pub is_asleep : Pc → Bool
is_asleep asleep = true
is_asleep _ = false

abbrev pub rouse : Pc → Pc
rouse asleep = ready
rouse ready = ready
rouse idle = idle

-- `pthread_cond_signal`
pub data Woken (n : ℕ) (pc : ℕ → Pc) : (ℕ → Pc) → Type 0 where
  one : (j : ℕ) → j < n → pc j ≡ asleep → Woken n pc (assign pc j ready)
  nobody : ((j : ℕ) → j < n → is_asleep (pc j) ≡ false) → Woken n pc pc

pub record System : Type 0 where
  pub sem : SyncSem
  pub pc : ℕ → Pc
  pub acquired : ℕ  -- waits that succeeded
  pub posted : ℕ

-- The address of the semaphore.
abbrev pub sem_at : Ptr
sem_at = 16

pub data Step (n : ℕ) (s : System) : System → Type 0 where
  call_wait : (i : ℕ) → i < n → s.pc i ≡ idle → Step n s (record s { pc = assign s.pc i ready })
  wait_done :
      (i : ℕ) {x : SyncSem}
      → i < n
      → s.pc i ≡ ready
      → wait_loop s.sem ≡ (sem_returned sthread_success, x)
      → Step n s (record s { sem = x; pc = assign s.pc i idle; acquired = suc s.acquired })
  wait_sleep :
      (i : ℕ) {x : SyncSem}
      → i < n
      → s.pc i ≡ ready
      → wait_loop s.sem ≡ (sem_waits, x)
      → Step n s (record s { sem = x; pc = assign s.pc i asleep })
  try_done :
      (i : ℕ) {x : SyncSem}
      → i < n
      → s.pc i ≡ idle
      → sync_sem_trywait sem_at s.sem ≡ (sthread_success, x)
      → Step n s (record s { sem = x; acquired = suc s.acquired })
  try_busy :
      (i : ℕ) {x : SyncSem}
      → i < n
      → s.pc i ≡ idle
      → sync_sem_trywait sem_at s.sem ≡ (sthread_error_busy, x)
      → Step n s (record s { sem = x })
  post :
      (i : ℕ) {x : SyncSem} {pc' : ℕ → Pc}
      → i < n
      → s.pc i ≡ idle
      → sync_sem_post sem_at s.sem ≡ (sthread_success, true, x)
      → Woken n s.pc pc'
      → Step n s (record s { sem = x; pc = pc'; posted = suc s.posted })
  wake_up : (i : ℕ) → i < n → Step n s (record s { pc = assign s.pc i (rouse (s.pc i)) })

-- After `sync_sem_init` with the count `value`.
abbrev pub start : ℕ → System
start value = record {
  sem = record { lock = true; cond = true; count = value; max_count = value; initialized = true };
  pc = λ _. idle;
  acquired = 0;
  posted = 0;
}

pub data Reach (n value : ℕ) : System → Type 0 where
  begin : Reach n value (start value)
  then_step : {s s' : System} → Reach n value s → Step n s s' → Reach n value s'
