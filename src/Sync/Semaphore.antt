-- ===== src/Sync/Semaphore.antt =====
-- The semaphores of src/sync.c. A piece that holds the lock is one step; a wait on a count of 0 ends
-- its piece there and goes on with `wait_loop` when it is woken.
use thread_management_librar.Base.{
  ℕ, ◌+◌, ◌-◌, ◌%◌, ◌^◌, Bool, true, false, not, ◌||◌, ◌==◌, ltb, if◌then◌else◌, Ptr, null,
  uint_mod, Option, none, some,
}
use thread_management_librar.Base.Int.{ℤ, pos, negsuc}
use thread_management_librar.Sync.Errors.{
  Errno, is_ok, sthread_success, sthread_error_invalid, sthread_error_busy, map_pthread_error,
}

-- `sync_sem_t`. Of its lock and condition variable it keeps whether they are initialised.
pub record SyncSem : Type 0 where
  pub lock : Bool
  pub cond : Bool
  pub count : ℕ
  pub max_count : ℕ
  pub initialized : Bool

-- `x++` and `x--` on an `unsigned int`.
abbrev pub inc_uint : ℕ → ℕ
inc_uint n = (n + 1) % uint_mod

abbrev pub dec_uint : ℕ → ℕ
dec_uint n = (n + uint_mod - 1) % uint_mod

-- How a piece of `sync_sem_wait` ends: by a return, or asleep on `cond`.
pub data SemCall : Type 0 where
  sem_returned : ℤ → SemCall
  sem_waits : SemCall

unfoldable pub sync_sem_init : Ptr → (value : ℕ) (ret_lock ret_cond : Errno) → SyncSem → ℤ × SyncSem
sync_sem_init sem value ret_lock ret_cond s =
    if sem == null
    then (sthread_error_invalid, s)
    else if not (is_ok ret_lock)
    then (map_pthread_error ret_lock, s)
    else if not (is_ok ret_cond)
    then (map_pthread_error ret_cond, record s { lock = false })
    else (
      sthread_success,
      record { lock = true; cond = true; count = value; max_count = value; initialized = true },
    )

unfoldable pub sync_sem_destroy : Ptr → (ret_cond ret_lock : Errno) → SyncSem → ℤ × SyncSem
sync_sem_destroy sem ret_cond ret_lock s =
    if sem == null || not s.initialized
    then (sthread_error_invalid, s)
    else if not (is_ok ret_cond)
    then (map_pthread_error ret_cond, s)
    else (
      map_pthread_error ret_lock,
      if is_ok ret_lock
          then record s { cond = false; lock = false; initialized = false }
          else record s { cond = false },
    )

-- The `while` of `sync_sem_wait` and what follows it, from the call or from a wake-up.
unfoldable pub wait_loop : SyncSem → SemCall × SyncSem
wait_loop s =
    if s.count == 0
    then (sem_waits, s)
    else (sem_returned sthread_success, record s { count = dec_uint s.count })

unfoldable pub sync_sem_wait : Ptr → SyncSem → SemCall × SyncSem
unfolding wait_loop
sync_sem_wait sem s =
    if sem == null || not s.initialized
    then (sem_returned sthread_error_invalid, s)
    else wait_loop s

unfoldable pub sync_sem_trywait : Ptr → SyncSem → ℤ × SyncSem
sync_sem_trywait sem s =
    if sem == null || not s.initialized
    then (sthread_error_invalid, s)
    else if s.count == 0
    then (sthread_error_busy, s)
    else (sthread_success, record s { count = dec_uint s.count })

-- With it, whether it signalled `cond`.
unfoldable pub sync_sem_post : Ptr → SyncSem → ℤ × Bool × SyncSem
sync_sem_post sem s =
    if sem == null || not s.initialized
    then (sthread_error_invalid, false, s)
    else (sthread_success, true, record s { count = inc_uint s.count })

-- `(int)count`, with 32 bits.
abbrev pub to_int : ℕ → ℤ
to_int n = if ltb n (2 ^ 31) then pos n else negsuc (uint_mod - 1 - n)

-- With it, what it writes to `*value`.
unfoldable pub sync_sem_getvalue : (sem value : Ptr) → SyncSem → ℤ × Option ℤ
sync_sem_getvalue sem value s =
    if sem == null || not s.initialized || value == null
    then (sthread_error_invalid, none)
    else (sthread_success, some (to_int s.count))
