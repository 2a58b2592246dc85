-- ===== src/Sthread/DestroyLaws.antt =====
-- The destructions of the mutexes, condition variables and semaphores of src/sthread.c.
use thread_management_librar.Platform.{Timespec, WallClock}
use thread_management_librar.Base.{
  ℕ, ◌==◌, Bool-cases, inl, inr, ◌≡◌, ◌≢◌, refl, none, some, Ptr, null, arith, not_null,
}
use thread_management_librar.Base.Int.{ℤ}
use thread_management_librar.Sync.Errors.{Errno, sthread_error_invalid}
use thread_management_librar.Sync.Primitives.{
  SyncMutex, SyncCond, sync_mutex_destroy, sync_cond_destroy,
}
use thread_management_librar.Sync.Semaphore.{SyncSem, sem_returned, sync_sem_destroy}
use thread_management_librar.Sthread.Objects.{
  Object, write, object_destroy, object_read, object_change,
}
use thread_management_librar.Sthread.Primitives.{
  sthread_mutex_destroy, sthread_mutex_lock, sthread_mutex_trylock, sthread_mutex_unlock,
  sthread_cond_destroy, sthread_cond_wait, sthread_cond_timedwait, sthread_cond_signal,
  sthread_cond_broadcast, sthread_sem_destroy, sthread_sem_wait, sthread_sem_trywait,
  sthread_sem_post, sthread_sem_getvalue,
}

-- The internal object of `o` is freed, once, and `o'` points to none.
pub record Released {A : Type 0} (o o' : Object A) : Type 0 where
  pub internal : o'.internal ≡ null
  pub freed : o'.cells o.internal ≡ none
  pub others : (a : Ptr) → a ≢ o.internal → o'.cells a ≡ o.cells a

-- What a destruction leaves.
abbrev after_destroy : {A : Type 0} → Object A → Object A
after_destroy o = record { internal = null; cells = write o.cells o.internal none }

after_destroy-Released : {A : Type 0} (o : Object A) → Released o (after_destroy o)
after_destroy-Released o = record {
  internal = refl;
  freed = ground arith;
  others = λ a other. ground arith;
}

object_destroy-some :
    {A : Type 0} (object : Ptr) (destroy : A → ℤ × A) (o : Object A) (a : A)
    → object ≢ null
    → o.internal ≢ null
    → o.cells o.internal ≡ some a
    → object_destroy object destroy o ≡ some ((destroy a).0, after_destroy o)
unfolding object_destroy
object_destroy-some object destroy o a nb ni here = rw (not_null _ nb, not_null _ ni, here) refl

-- A call on an object without an internal object.
module _ {A : Type 0} (object : Ptr) (o : Object A) (nb : object ≢ null)
    (gone : o.internal ≡ null) where
  read-gone : (call : A → ℤ) → object_read object call o ≡ some sthread_error_invalid
  unfolding object_read
  read-gone call = rw (not_null _ nb, gone) refl

  change-gone :
      {B : Type 0} (wrong : B) (call : A → B × A)
      → object_change object wrong call o ≡ some (wrong, o)
  unfolding object_change
  change-gone wrong call = rw (not_null _ nb, gone) refl

  destroy-gone :
      (destroy : A → ℤ × A) → object_destroy object destroy o ≡ some (sthread_error_invalid, o)
  unfolding object_destroy
  destroy-gone destroy = rw (not_null _ nb, gone) refl

-- A wait with a mutex without an internal object.
wait-gone :
    (cond mutex : Ptr) (ret : Errno) (c : Object SyncCond) (m : Object SyncMutex)
    → cond ≢ null
    → m.internal ≡ null
    → sthread_cond_wait cond mutex ret c m ≡ some sthread_error_invalid
unfolding sthread_cond_wait
wait-gone cond mutex ret c m nc gone = elim (Bool-cases (c.internal == null)) [
  | inl none_there ↦ rw (not_null _ nc, none_there) refl
  | inr there ↦ elim (Bool-cases (mutex == null)) [
    | inl no_mutex ↦ rw (not_null _ nc, there, no_mutex) refl
    | inr some_mutex ↦ rw (not_null _ nc, there, some_mutex, gone) refl
  ]
]

timedwait-gone :
    (cond mutex : Ptr) (timeout_ms : ℕ) (now : WallClock) (answer : Timespec → Errno)
    (c : Object SyncCond) (m : Object SyncMutex)
    → cond ≢ null
    → m.internal ≡ null
    → sthread_cond_timedwait cond mutex timeout_ms now answer c m ≡ some sthread_error_invalid
unfolding sthread_cond_timedwait
timedwait-gone cond mutex timeout_ms now answer c m nc gone =
    elim (Bool-cases (c.internal == null)) [
      | inl none_there ↦ rw (not_null _ nc, none_there) refl
      | inr there ↦ elim (Bool-cases (mutex == null)) [
        | inl no_mutex ↦ rw (not_null _ nc, there, no_mutex) refl
        | inr some_mutex ↦ rw (not_null _ nc, there, some_mutex, gone) refl
      ]
    ]

-- The three destructions free the internal object and clear the pointer, whatever pthread answers, also where it
-- refuses because the object is in use: each call on an initialised object returns the code of its
-- `sync_*_destroy`, frees the internal object once, and no other, and clears the pointer; then every further call
-- on that object but an initialisation, a second destruction and a wait with the destroyed mutex or condition
-- included, returns STHREAD_ERROR_INVALID, frees nothing and reads no freed memory.
pub object_destroy-Released :
    (mutex cond sem value : Ptr) (ret ret' ret_cond ret_lock : Errno) (timeout_ms : ℕ)
    (now : WallClock) (answer : Timespec → Errno) (other : Object SyncCond) (m : Object SyncMutex)
    (c : Object SyncCond) (s : Object SyncSem) (mutex_in : SyncMutex) (cond_in : SyncCond)
    (sem_in : SyncSem)
    → mutex ≢ null
    → cond ≢ null
    → sem ≢ null
    → m.internal ≢ null
    → c.internal ≢ null
    → s.internal ≢ null
    → m.cells m.internal ≡ some mutex_in
    → c.cells c.internal ≡ some cond_in
    → s.cells s.internal ≡ some sem_in
    → ((m' : Object SyncMutex) × (sthread_mutex_destroy mutex ret m
          ≡ some ((sync_mutex_destroy m.internal ret mutex_in).0, m'))
        × Released m m'
        × (sthread_mutex_lock mutex ret' m' ≡ some sthread_error_invalid)
        × (sthread_mutex_trylock mutex ret' m' ≡ some sthread_error_invalid)
        × (sthread_mutex_unlock mutex ret' m' ≡ some sthread_error_invalid)
        × (sthread_mutex_destroy mutex ret' m' ≡ some (sthread_error_invalid, m'))
        × (sthread_cond_wait cond mutex ret' other m' ≡ some sthread_error_invalid)
        × (sthread_cond_timedwait cond mutex timeout_ms now answer other m'
            ≡ some sthread_error_invalid))
      × ((c' : Object SyncCond) × (sthread_cond_destroy cond ret c
            ≡ some ((sync_cond_destroy c.internal ret cond_in).0, c'))
          × Released c c'
          × (sthread_cond_wait cond mutex ret' c' m ≡ some sthread_error_invalid)
          × (sthread_cond_timedwait cond mutex timeout_ms now answer c' m
              ≡ some sthread_error_invalid)
          × (sthread_cond_destroy cond ret' c' ≡ some (sthread_error_invalid, c'))
          × (sthread_cond_signal cond ret' c' ≡ some sthread_error_invalid)
          × (sthread_cond_broadcast cond ret' c' ≡ some sthread_error_invalid))
      × ((s' : Object SyncSem) × (sthread_sem_destroy sem ret_cond ret_lock s
            ≡ some ((sync_sem_destroy s.internal ret_cond ret_lock sem_in).0, s'))
          × Released s s'
          × (sthread_sem_destroy sem ret_cond ret_lock s' ≡ some (sthread_error_invalid, s'))
          × (sthread_sem_wait sem s' ≡ some (sem_returned sthread_error_invalid, s'))
          × (sthread_sem_trywait sem s' ≡ some (sthread_error_invalid, s'))
          × (sthread_sem_post sem s' ≡ some (sthread_error_invalid, s'))
          × (sthread_sem_getvalue sem value s' ≡ some (sthread_error_invalid, none)))
unfolding sthread_mutex_destroy sthread_mutex_lock sthread_mutex_trylock sthread_mutex_unlock
    sthread_cond_destroy sthread_cond_wait sthread_cond_timedwait sthread_cond_signal
    sthread_cond_broadcast sthread_sem_destroy sthread_sem_wait sthread_sem_trywait sthread_sem_post
    sthread_sem_getvalue
object_destroy-Released mutex cond sem value ret ret' ret_cond ret_lock timeout_ms now answer other
      m c s mutex_in cond_in sem_in nm nc ns im ic is_ am ac as_ =
    let m' = after_destroy m in
    let c' = after_destroy c in
    let s' = after_destroy s in
    (
      (
        m',
        object_destroy-some mutex (sync_mutex_destroy m.internal ret) m mutex_in nm im am,
        after_destroy-Released m,
        read-gone mutex m' nm refl _,
        read-gone mutex m' nm refl _,
        read-gone mutex m' nm refl _,
        destroy-gone mutex m' nm refl (sync_mutex_destroy null ret'),
        wait-gone cond mutex ret' other m' nc refl,
        timedwait-gone cond mutex timeout_ms now answer other m' nc refl,
      ),
      (
        c',
        object_destroy-some cond (sync_cond_destroy c.internal ret) c cond_in nc ic ac,
        after_destroy-Released c,
        rw (not_null _ nc) refl,
        rw (not_null _ nc) refl,
        destroy-gone cond c' nc refl (sync_cond_destroy null ret'),
        read-gone cond c' nc refl _,
        read-gone cond c' nc refl _,
      ),
      (
        s',
        object_destroy-some sem (sync_sem_destroy s.internal ret_cond ret_lock) s sem_in ns is_ as_,
        after_destroy-Released s,
        destroy-gone sem s' ns refl (sync_sem_destroy null ret_cond ret_lock),
        change-gone sem s' ns refl _ _,
        change-gone sem s' ns refl _ _,
        change-gone sem s' ns refl _ _,
        rw (not_null _ ns) refl,
      ),
    )
