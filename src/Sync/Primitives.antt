-- ===== src/Sync/Primitives.antt =====
-- The mutex and condition variable functions of src/sync.c. What pthread answers is an argument.
use thread_management_librar.Base.{ℕ, Bool, true, false, not, ◌||◌, ◌==◌, if◌then◌else◌, Ptr, null}
use thread_management_librar.Base.Int.{ℤ}
use thread_management_librar.Platform.{Timespec, WallClock, platform_get_abstime}
use thread_management_librar.Sync.Errors.{Errno, is_ok, sthread_error_invalid, map_pthread_error}

-- `sync_mutex_t`. Of the pthread mutex it keeps whether it is initialised.
pub record SyncMutex : Type 0 where
  pub lock : Bool
  pub initialized : Bool

unfoldable pub sync_mutex_init : Ptr → Errno → SyncMutex → ℤ × SyncMutex
sync_mutex_init mutex ret m = if mutex == null then (sthread_error_invalid, m) else (
  map_pthread_error ret,
  if is_ok ret then record { lock = true; initialized = true } else m,
)

unfoldable pub sync_mutex_destroy : Ptr → Errno → SyncMutex → ℤ × SyncMutex
sync_mutex_destroy mutex ret m =
    if mutex == null || not m.initialized then (sthread_error_invalid, m) else (
      map_pthread_error ret,
      if is_ok ret then record { lock = false; initialized = false } else m,
    )

-- What the three calls on a mutex do, with what the pthread call returns.
abbrev on_mutex : Ptr → Errno → SyncMutex → ℤ
on_mutex mutex ret m =
    if mutex == null || not m.initialized then sthread_error_invalid else map_pthread_error ret

unfoldable pub sync_mutex_lock : Ptr → Errno → SyncMutex → ℤ
sync_mutex_lock mutex ret m = on_mutex mutex ret m

unfoldable pub sync_mutex_trylock : Ptr → Errno → SyncMutex → ℤ
sync_mutex_trylock mutex ret m = on_mutex mutex ret m

unfoldable pub sync_mutex_unlock : Ptr → Errno → SyncMutex → ℤ
sync_mutex_unlock mutex ret m = on_mutex mutex ret m

-- `sync_cond_t`
pub record SyncCond : Type 0 where
  pub cond : Bool
  pub initialized : Bool

unfoldable pub sync_cond_init : Ptr → Errno → SyncCond → ℤ × SyncCond
sync_cond_init cond ret c = if cond == null then (sthread_error_invalid, c) else (
  map_pthread_error ret,
  if is_ok ret then record { cond = true; initialized = true } else c,
)

unfoldable pub sync_cond_destroy : Ptr → Errno → SyncCond → ℤ × SyncCond
sync_cond_destroy cond ret c =
    if cond == null || not c.initialized then (sthread_error_invalid, c) else (
      map_pthread_error ret,
      if is_ok ret then record { cond = false; initialized = false } else c,
    )

unfoldable pub sync_cond_wait : (cond mutex : Ptr) → Errno → SyncCond → SyncMutex → ℤ
sync_cond_wait cond mutex ret c m =
    if cond == null || not c.initialized || mutex == null || not m.initialized
    then sthread_error_invalid
    else map_pthread_error ret

-- pthread's answer depends on the deadline.
unfoldable pub sync_cond_timedwait :
    (cond mutex : Ptr) (timeout_ms : ℕ) → WallClock → (Timespec → Errno) → SyncCond → SyncMutex → ℤ
sync_cond_timedwait cond mutex timeout_ms now ret c m =
    if cond == null || not c.initialized || mutex == null || not m.initialized
    then sthread_error_invalid
    else map_pthread_error (ret (platform_get_abstime now timeout_ms))

unfoldable pub sync_cond_signal : Ptr → Errno → SyncCond → ℤ
sync_cond_signal cond ret c =
    if cond == null || not c.initialized then sthread_error_invalid else map_pthread_error ret

unfoldable pub sync_cond_broadcast : Ptr → Errno → SyncCond → ℤ
sync_cond_broadcast cond ret c =
    if cond == null || not c.initialized then sthread_error_invalid else map_pthread_error ret
