-- ===== src/Sync/PrimitiveLaws.antt =====
-- What the mutex, condition variable and semaphore functions of src/sync.c return, and how their
-- `initialized` flags follow the pthread objects.
use thread_management_librar.Base.{
  ℕ, ◌+◌, ◌<◌, ◌≡◌, ◌≢◌, refl, Bool, true, false, not, ◌||◌, inl, inr, arith, ◌==◌, if◌then◌else◌,
  Ptr, null, uint_mod, Bool-cases, not_null, ap, sym,
}
use thread_management_librar.Sync.Errors.{
  Errno, no_error, is_ok, map_pthread_error, sthread_success, sthread_error_invalid,
  sthread_error_busy, sthread_error_deadlock,
}
use thread_management_librar.Sync.Primitives.{
  SyncMutex, sync_mutex_init, sync_mutex_destroy, sync_mutex_lock, sync_mutex_trylock,
  sync_mutex_unlock,
}
use thread_management_librar.Sync.Semaphore.{
  SyncSem, sync_sem_init, sync_sem_destroy, sync_sem_trywait, sync_sem_post,
}

pub map_pthread_error-zero : (e : Errno) → map_pthread_error e ≡ sthread_success → is_ok e ≡ true
unfolding map_pthread_error
map_pthread_error-zero e h = ground arith

never_deadlock : (e : Errno) → map_pthread_error e ≢ sthread_error_deadlock
unfolding map_pthread_error
never_deadlock e h = ground arith

-- Whatever pthread answers, EDEADLK included, no call on a mutex returns STHREAD_ERROR_DEADLOCK.
pub deadlock_never_reported :
    (mutex : Ptr) (ret : Errno) (m : SyncMutex)
    → (sync_mutex_lock mutex ret m ≢ sthread_error_deadlock)
      × (sync_mutex_trylock mutex ret m ≢ sthread_error_deadlock)
      × (sync_mutex_unlock mutex ret m ≢ sthread_error_deadlock)
unfolding sync_mutex_lock sync_mutex_trylock sync_mutex_unlock
deadlock_never_reported mutex ret m = elim (Bool-cases (mutex == null || not m.initialized)) [
  | inl bad ↦ rw bad (invalid, invalid, invalid)
  | inr fine ↦ rw fine (never_deadlock ret, never_deadlock ret, never_deadlock ret)
]
  where
    invalid : sthread_error_invalid ≢ sthread_error_deadlock
    invalid e = ground arith

abbrev pub absent : SyncMutex
absent = record { lock = false; initialized = false }

abbrev pub present : SyncMutex
present = record { lock = true; initialized = true }

-- A mutex goes from absent to present exactly when pthread grants the initialisation, and back exactly
-- when pthread grants the destruction; while it is absent every other call returns
-- STHREAD_ERROR_INVALID whatever pthread would answer, and the destruction leaves it absent.
pub mutex_life :
    (mutex : Ptr) (ret : Errno)
    → mutex ≢ null
    → (sync_mutex_init mutex ret absent
        ≡ (map_pthread_error ret, if is_ok ret then present else absent))
      × (sync_mutex_destroy mutex ret present
          ≡ (map_pthread_error ret, if is_ok ret then absent else present))
      × (sync_mutex_destroy mutex ret absent ≡ (sthread_error_invalid, absent))
      × (sync_mutex_lock mutex ret absent ≡ sthread_error_invalid)
      × (sync_mutex_trylock mutex ret absent ≡ sthread_error_invalid)
      × (sync_mutex_unlock mutex ret absent ≡ sthread_error_invalid)
unfolding sync_mutex_init sync_mutex_destroy sync_mutex_lock sync_mutex_trylock sync_mutex_unlock
mutex_life mutex ret ne = rw (not_null _ ne) (refl, refl, refl, refl, refl, refl)

-- An initialised semaphore with `count` units.
abbrev pub with_units : (max_count count : ℕ) → SyncSem
with_units max_count count = record {
  lock = true;
  cond = true;
  count = count;
  max_count = max_count;
  initialized = true;
}

-- On an initialised semaphore below the largest count, a post adds one unit, signals and succeeds, and
-- `sync_sem_trywait` succeeds exactly then and takes the unit away again; with no unit it returns
-- STHREAD_ERROR_BUSY and changes nothing.
pub post_trywait_inverse :
    (sem : Ptr) (max_count count : ℕ)
    → sem ≢ null
    → count + 1 < uint_mod
    → (sync_sem_post sem (with_units max_count count)
        ≡ (sthread_success, true, with_units max_count (count + 1)))
      × (sync_sem_trywait sem (with_units max_count (count + 1))
          ≡ (sthread_success, with_units max_count count))
      × (sync_sem_trywait sem (with_units max_count 0)
          ≡ (sthread_error_busy, with_units max_count 0))
unfolding sync_sem_trywait sync_sem_post
post_trywait_inverse sem max_count count ne fits =
    let some_unit : (count + 1 == 0) ≡ false = ground arith in
    (
      rw (not_null _ ne)
          (ap (λ (n : ℕ). (sthread_success, true, with_units max_count n)) (omega arith)),
      rw (not_null _ ne, some_unit)
          (ap (λ (n : ℕ). (sthread_success, with_units max_count n)) (omega arith)),
      rw (not_null _ ne),
    )

-- Of a semaphore without a lock, `sync_sem_init` makes one with `value` units; where one of its two
-- initialisations fails it returns the error and leaves everything as it was. And where its lock cannot be destroyed, `sync_sem_destroy` returns an error and leaves
-- a semaphore that counts as initialised and whose condition variable is gone.
pub semaphore_init_destroy :
    (sem : Ptr) (value : ℕ) (ret ret' : Errno) (s : SyncSem)
    → sem ≢ null
    → s.lock ≡ false
    → is_ok ret ≡ false
    → (sync_sem_init sem value no_error no_error s ≡ (sthread_success, with_units value value))
      × (sync_sem_init sem value ret ret' s ≡ (map_pthread_error ret, s))
      × (sync_sem_init sem value no_error ret s ≡ (map_pthread_error ret, s))
      × (sync_sem_destroy sem no_error ret (with_units value value)
          ≡ (map_pthread_error ret, record (with_units value value) { cond = false }))
unfolding sync_sem_init sync_sem_destroy
semaphore_init_destroy sem value ret ret' s ne no_lock fails = (
  rw (not_null _ ne),
  rw (not_null _ ne, fails),
  rw (not_null _ ne, fails)
      (ap (λ (b : Bool). (map_pthread_error ret, record s { lock = b })) (sym no_lock)),
  rw (not_null _ ne, fails),
)
