-- ===== src/Sthread/Examples.antt =====
-- Calls of the functions of src/sthread.c.
use thread_management_librar.Base.{◌≡◌, refl, true, none, some, arith, ◌==◌, if◌then◌else◌}
use thread_management_librar.Sync.Errors.{
  no_error, ebusy, einval, sthread_success, sthread_error_invalid,
}
use thread_management_librar.Sync.Primitives.{
  SyncMutex, SyncCond, sync_mutex_destroy, sync_cond_destroy,
}
use thread_management_librar.Sync.PrimitiveLaws.{present}
use thread_management_librar.Base.Int.{pos}
use thread_management_librar.Sync.Semaphore.{SyncSem, sem_returned, sync_sem_destroy}
use thread_management_librar.Sthread.Primitives.{
  sthread_sem_wait, sthread_sem_trywait, sthread_sem_post, sthread_sem_getvalue,
  sthread_cond_destroy, sthread_cond_wait, sthread_cond_timedwait, sthread_cond_signal,
  sthread_cond_broadcast, sthread_sem_destroy, sthread_mutex_destroy, sthread_mutex_lock,
  sthread_mutex_trylock, sthread_mutex_unlock,
}
use thread_management_librar.Sthread.SemLaws.{
  HasUnits, wait_units, trywait_units, sthread_sem-HasUnits,
}
use thread_management_librar.Platform.{WallClock, linux}
use thread_management_librar.Sthread.Objects.{Object}
use thread_management_librar.Sthread.DestroyLaws.{Released, object_destroy-Released}

abbrev one_mutex : Object SyncMutex
one_mutex = record { internal = 512; cells = λ a. if a == 512 then some present else none }

abbrev cond_in : SyncCond
cond_in = record { cond = true; initialized = true }

abbrev one_cond : Object SyncCond
one_cond = record { internal = 640; cells = λ a. if a == 640 then some cond_in else none }

-- A semaphore with two units.
abbrev two_units : SyncSem
two_units = record { lock = true; cond = true; count = 2; max_count = 2; initialized = true }

abbrev one_sem : Object SyncSem
one_sem = record { internal = 512; cells = λ a. if a == 512 then some two_units else none }

one_sem-HasUnits : HasUnits 2 one_sem
one_sem-HasUnits = record { sem = _; placed = omega arith; here = refl; ready = refl; units = refl }

sthread_sem-HasUnits_example :
    ((o' : Object SyncSem) × (sthread_sem_wait 64 one_sem ≡ some ((wait_units 2).0, o'))
      × HasUnits (wait_units 2).1 o')
    × ((o' : Object SyncSem) × (sthread_sem_trywait 64 one_sem ≡ some ((trywait_units 2).0, o'))
        × HasUnits (trywait_units 2).1 o')
    × ((o' : Object SyncSem) × (sthread_sem_post 64 one_sem ≡ some (sthread_success, o'))
        × HasUnits 3 o')
    × (sthread_sem_getvalue 64 72 one_sem ≡ some (sthread_success, some (pos 2)))
sthread_sem-HasUnits_example =
    sthread_sem-HasUnits 64 72 2 one_sem (omega arith) (omega arith) (omega arith) one_sem-HasUnits

abbrev ten_seconds : WallClock
ten_seconds = linux (record { tv_sec = 10; tv_nsec = 0 })

-- pthread refuses the destruction of the mutex, which is in use.
object_destroy-Released_example :
    ((m' : Object SyncMutex) × (sthread_mutex_destroy 64 ebusy one_mutex
        ≡ some ((sync_mutex_destroy 512 ebusy present).0, m'))
      × Released one_mutex m'
      × (sthread_mutex_lock 64 einval m' ≡ some sthread_error_invalid)
      × (sthread_mutex_trylock 64 einval m' ≡ some sthread_error_invalid)
      × (sthread_mutex_unlock 64 einval m' ≡ some sthread_error_invalid)
      × (sthread_mutex_destroy 64 einval m' ≡ some (sthread_error_invalid, m'))
      × (sthread_cond_wait 72 64 einval one_cond m' ≡ some sthread_error_invalid)
      × (sthread_cond_timedwait 72 64 100 ten_seconds (λ _. no_error) one_cond m'
          ≡ some sthread_error_invalid))
    × ((c' : Object SyncCond) × (sthread_cond_destroy 72 ebusy one_cond
          ≡ some ((sync_cond_destroy 640 ebusy cond_in).0, c'))
        × Released one_cond c'
        × (sthread_cond_wait 72 64 einval c' one_mutex ≡ some sthread_error_invalid)
        × (sthread_cond_timedwait 72 64 100 ten_seconds (λ _. no_error) c' one_mutex
            ≡ some sthread_error_invalid)
        × (sthread_cond_destroy 72 einval c' ≡ some (sthread_error_invalid, c'))
        × (sthread_cond_signal 72 einval c' ≡ some sthread_error_invalid)
        × (sthread_cond_broadcast 72 einval c' ≡ some sthread_error_invalid))
    × ((s' : Object SyncSem) × (sthread_sem_destroy 80 no_error no_error one_sem
          ≡ some ((sync_sem_destroy 512 no_error no_error two_units).0, s'))
        × Released one_sem s'
        × (sthread_sem_destroy 80 no_error no_error s' ≡ some (sthread_error_invalid, s'))
        × (sthread_sem_wait 80 s' ≡ some (sem_returned sthread_error_invalid, s'))
        × (sthread_sem_trywait 80 s' ≡ some (sthread_error_invalid, s'))
        × (sthread_sem_post 80 s' ≡ some (sthread_error_invalid, s'))
        × (sthread_sem_getvalue 80 88 s' ≡ some (sthread_error_invalid, none)))
object_destroy-Released_example =
    object_destroy-Released 64 72 80 88 ebusy einval no_error no_error 100 ten_seconds
      (λ _. no_error) one_cond one_mutex one_cond one_sem present cond_in two_units (omega arith)
      (omega arith) (omega arith) (omega arith) (omega arith) (omega arith) refl refl refl
