-- ===== src/Sthread/ObjectLaws.antt =====
-- The internal objects of the mutexes of src/sthread.c, from their `malloc` to their `free`.
use thread_management_librar.Base.{
  ◌≡◌, ◌≢◌, refl, Bool, none, some, ◌&&◌, ◌==◌, if◌then◌else◌, Ptr, null, arith, Bool-cases, inl,
  inr, not_null,
}
use thread_management_librar.Base.Int.{◌==ℤ◌}
use thread_management_librar.Sync.Errors.{
  Errno, is_ok, map_pthread_error, sthread_success, sthread_error_invalid,
}
use thread_management_librar.Sync.Primitives.{SyncMutex, sync_mutex_init}
use thread_management_librar.Sync.PrimitiveLaws.{present, mutex_life}
use thread_management_librar.Sthread.Objects.{Object, write}
use thread_management_librar.Sthread.Primitives.{
  sthread_mutex_init, sthread_mutex_destroy, sthread_mutex_lock, sthread_mutex_trylock,
  sthread_mutex_unlock,
}

code_ok : (e : Errno) → (map_pthread_error e ==ℤ sthread_success) ≡ is_ok e
unfolding map_pthread_error
code_ok e = ground arith

-- What an object is after its initialisation was granted or refused.
pub record Started {A : Type 0} (ok : Bool) (fresh : Ptr) (made : A) (o o' : Object A)
    : Type 0 where
  pub internal : o'.internal ≡ (if ok then fresh else o.internal)
  pub cells : (a : Ptr) → o'.cells a ≡ (if ok && a == fresh then some made else o.cells a)

-- `sthread_mutex_init` returns what pthread answers. If it is granted, the mutex points to the new
-- internal object, which is initialised; else the block is freed again and the mutex is as before. No
-- other internal object changes.
pub sthread_mutex_init-Started :
    (mutex fresh : Ptr) (raw : SyncMutex) (ret : Errno) (o : Object SyncMutex)
    → mutex ≢ null
    → fresh ≢ null
    → o.cells fresh ≡ none
    → (o' : Object SyncMutex) × (sthread_mutex_init mutex fresh raw ret o
        ≡ (map_pthread_error ret, o'))
      × Started (is_ok ret) fresh present o o'
unfolding sthread_mutex_init sync_mutex_init
sthread_mutex_init-Started mutex fresh raw ret o nm nf unused = elim (Bool-cases (is_ok ret)) [
  | inl ok ↦ (
    record { internal = fresh; cells = write o.cells fresh (some present) },
    rw (not_null _ nm, not_null _ nf, code_ok, ok) (ground (arith, code_ok ret)),
    rw ok (record { internal = refl; cells = λ a. refl }),
  )
  | inr refused ↦ (
    record o { cells = write (write o.cells fresh (some raw)) fresh none },
    rw (not_null _ nm, not_null _ nf, code_ok, refused) refl,
    rw refused (record { internal = refl; cells = λ a. ground arith }),
  )
]

-- `sthread_mutex_destroy` of an initialised mutex returns what pthread answers, frees the internal
-- object and clears the pointer, also where pthread refuses because the mutex is in use. Then every
-- call on the mutex returns STHREAD_ERROR_INVALID and touches no freed memory.
pub sthread_mutex_destroy-frees :
    (mutex : Ptr) (ret ret' : Errno) (o : Object SyncMutex)
    → mutex ≢ null
    → o.internal ≢ null
    → o.cells o.internal ≡ some present
    → (o' : Object SyncMutex) × (sthread_mutex_destroy mutex ret o
        ≡ some (map_pthread_error ret, o'))
      × (o'.cells o.internal ≡ none)
      × ((a : Ptr) → a ≢ o.internal → o'.cells a ≡ o.cells a)
      × (sthread_mutex_destroy mutex ret' o' ≡ some (sthread_error_invalid, o'))
      × (sthread_mutex_lock mutex ret' o' ≡ some sthread_error_invalid)
      × (sthread_mutex_trylock mutex ret' o' ≡ some sthread_error_invalid)
      × (sthread_mutex_unlock mutex ret' o' ≡ some sthread_error_invalid)
unfolding sthread_mutex_destroy sthread_mutex_lock sthread_mutex_trylock sthread_mutex_unlock
sthread_mutex_destroy-frees mutex ret ret' o nm ni here = (
  record { internal = null; cells = write o.cells o.internal none },
  rw (not_null _ nm, not_null _ ni, here, (mutex_life o.internal ret ni).1) refl,
  ground arith,
  λ a other. ground arith,
  rw (not_null _ nm),
  rw (not_null _ nm),
  rw (not_null _ nm),
  rw (not_null _ nm),
)
