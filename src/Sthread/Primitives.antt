-- ===== src/Sthread/Primitives.antt =====
-- The mutexes, condition variables and semaphores of src/sthread.c.
use thread_management_librar.Base.{
  ℕ, Bool, Option, none, some, ◌||◌, ◌==◌, if◌then◌else◌, Ptr, null,
}
use thread_management_librar.Base.Int.{ℤ}
use thread_management_librar.Platform.{Timespec, WallClock}
use thread_management_librar.Sync.Errors.{Errno, sthread_error_invalid}
use thread_management_librar.Sync.Primitives.{
  SyncMutex, sync_mutex_init, sync_mutex_destroy, sync_mutex_lock, sync_mutex_trylock,
  sync_mutex_unlock, SyncCond, sync_cond_init, sync_cond_destroy, sync_cond_wait,
  sync_cond_timedwait, sync_cond_signal, sync_cond_broadcast,
}
use thread_management_librar.Sync.Semaphore.{
  SyncSem, SemCall, sem_returned, sync_sem_init, sync_sem_destroy, sync_sem_wait, sync_sem_trywait,
  sync_sem_post, sync_sem_getvalue,
}
use thread_management_librar.Sthread.Objects.{
  Object, object_init, object_destroy, object_read, object_change,
}

-- The mutex, the block of `malloc` and its contents, and pthread's answer.
unfoldable pub sthread_mutex_init :
    (mutex fresh : Ptr) → SyncMutex → Errno → Object SyncMutex → ℤ × Object SyncMutex
unfolding object_init
sthread_mutex_init mutex fresh raw ret = object_init mutex fresh raw (sync_mutex_init fresh ret)

unfoldable pub sthread_mutex_destroy :
    Ptr → Errno → Object SyncMutex → Option (ℤ × Object SyncMutex)
unfolding object_destroy
sthread_mutex_destroy mutex ret o = object_destroy mutex (sync_mutex_destroy o.internal ret) o

unfoldable pub sthread_mutex_lock : Ptr → Errno → Object SyncMutex → Option ℤ
unfolding object_read
sthread_mutex_lock mutex ret o = object_read mutex (sync_mutex_lock o.internal ret) o

unfoldable pub sthread_mutex_trylock : Ptr → Errno → Object SyncMutex → Option ℤ
unfolding object_read
sthread_mutex_trylock mutex ret o = object_read mutex (sync_mutex_trylock o.internal ret) o

unfoldable pub sthread_mutex_unlock : Ptr → Errno → Object SyncMutex → Option ℤ
unfolding object_read
sthread_mutex_unlock mutex ret o = object_read mutex (sync_mutex_unlock o.internal ret) o

unfoldable pub sthread_cond_init :
    (cond fresh : Ptr) → SyncCond → Errno → Object SyncCond → ℤ × Object SyncCond
unfolding object_init
sthread_cond_init cond fresh raw ret = object_init cond fresh raw (sync_cond_init fresh ret)

unfoldable pub sthread_cond_destroy : Ptr → Errno → Object SyncCond → Option (ℤ × Object SyncCond)
unfolding object_destroy
sthread_cond_destroy cond ret o = object_destroy cond (sync_cond_destroy o.internal ret) o

-- The two internal objects of a wait.
abbrev both_internal :
    (cond mutex : Ptr) → (SyncCond → SyncMutex → ℤ) → Object SyncCond → Object SyncMutex → Option ℤ
both_internal cond mutex call c m =
    if cond == null || c.internal == null || mutex == null || m.internal == null
    then some sthread_error_invalid
    else (elim (c.cells c.internal) [
      | none ↦ none
      | some a ↦ elim (m.cells m.internal) [ none ↦ none | some b ↦ some (call a b) ]
    ])

unfoldable pub sthread_cond_wait :
    (cond mutex : Ptr) → Errno → Object SyncCond → Object SyncMutex → Option ℤ
sthread_cond_wait cond mutex ret c m =
    both_internal cond mutex (sync_cond_wait c.internal m.internal ret) c m

unfoldable pub sthread_cond_timedwait :
    (cond mutex : Ptr) (timeout_ms : ℕ)
    → WallClock
    → (Timespec → Errno)
    → Object SyncCond
    → Object SyncMutex
    → Option ℤ
sthread_cond_timedwait cond mutex timeout_ms now ret c m =
    both_internal cond mutex (sync_cond_timedwait c.internal m.internal timeout_ms now ret) c m

unfoldable pub sthread_cond_signal : Ptr → Errno → Object SyncCond → Option ℤ
unfolding object_read
sthread_cond_signal cond ret o = object_read cond (sync_cond_signal o.internal ret) o

unfoldable pub sthread_cond_broadcast : Ptr → Errno → Object SyncCond → Option ℤ
unfolding object_read
sthread_cond_broadcast cond ret o = object_read cond (sync_cond_broadcast o.internal ret) o

unfoldable pub sthread_sem_init :
    (sem fresh : Ptr)
    → SyncSem
    → (value : ℕ) (ret_lock ret_cond : Errno) → Object SyncSem
    → ℤ × Object SyncSem
unfolding object_init
sthread_sem_init sem fresh raw value ret_lock ret_cond =
    object_init sem fresh raw (sync_sem_init fresh value ret_lock ret_cond)

unfoldable pub sthread_sem_destroy :
    Ptr → (ret_cond ret_lock : Errno) → Object SyncSem → Option (ℤ × Object SyncSem)
unfolding object_destroy
sthread_sem_destroy sem ret_cond ret_lock o =
    object_destroy sem (sync_sem_destroy o.internal ret_cond ret_lock) o

unfoldable pub sthread_sem_wait : Ptr → Object SyncSem → Option (SemCall × Object SyncSem)
unfolding object_change
sthread_sem_wait sem o =
    object_change sem (sem_returned sthread_error_invalid) (sync_sem_wait o.internal) o

unfoldable pub sthread_sem_trywait : Ptr → Object SyncSem → Option (ℤ × Object SyncSem)
unfolding object_change
sthread_sem_trywait sem o = object_change sem sthread_error_invalid (sync_sem_trywait o.internal) o

-- Of a post, the code and the semaphore.
abbrev pub post_of : ℤ × Bool × SyncSem → ℤ × SyncSem
post_of (r, signalled, s) = (r, s)

unfoldable pub sthread_sem_post : Ptr → Object SyncSem → Option (ℤ × Object SyncSem)
unfolding object_change
sthread_sem_post sem o =
    object_change sem sthread_error_invalid (λ s. post_of (sync_sem_post o.internal s)) o

unfoldable pub sthread_sem_getvalue : (sem value : Ptr) → Object SyncSem → Option (ℤ × Option ℤ)
sthread_sem_getvalue sem value o =
    if sem == null || o.internal == null || value == null
    then some (sthread_error_invalid, none)
    else (elim (o.cells o.internal) [
      | none ↦ none
      | some s ↦ some (sync_sem_getvalue o.internal value s)
    ])
