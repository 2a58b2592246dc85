-- ===== src/Sthread/SemLaws.antt =====
-- The semaphore functions of src/sthread.c against a number of units.
use thread_management_librar.Base.{
  ℕ, zero, suc, ◌+◌, ◌^◌, ◌<◌, ◌≡◌, ◌≢◌, refl, ap, ◌∙◌, true, some, Ptr, null, arith, uint_mod,
  not_null,
}
use thread_management_librar.Base.Int.{ℤ, pos}
use thread_management_librar.Sync.Errors.{no_error, sthread_success, sthread_error_busy}
use thread_management_librar.Sync.Semaphore.{
  SyncSem, SemCall, sem_returned, sem_waits, wait_loop, dec_uint, inc_uint, sync_sem_init,
  sync_sem_wait, sync_sem_trywait, sync_sem_post, sync_sem_getvalue,
}
use thread_management_librar.Sthread.Objects.{Object, write, object_change}
use thread_management_librar.Sthread.Primitives.{
  sthread_sem_init, sthread_sem_wait, sthread_sem_trywait, sthread_sem_post, sthread_sem_getvalue,
  post_of,
}

-- An initialised semaphore object with `n` units.
pub record HasUnits (n : ℕ) (o : Object SyncSem) : Type 0 where
  pub sem : SyncSem
  pub placed : o.internal ≢ null
  pub here : o.cells o.internal ≡ some sem
  pub ready : sem.initialized ≡ true
  pub units : sem.count ≡ n

-- What each operation promises: its result, and the units after it.
abbrev pub wait_units : ℕ → SemCall × ℕ
wait_units zero = (sem_waits, 0)
wait_units (suc n) = (sem_returned sthread_success, n)

abbrev pub trywait_units : ℕ → ℤ × ℕ
trywait_units zero = (sthread_error_busy, 0)
trywait_units (suc n) = (sthread_success, n)

-- A call that changes an internal object that is there.
change_lem :
    {A B : Type 0} (object : Ptr) (wrong b : B) (call : A → B × A) (o : Object A) (a a' : A)
    → object ≢ null
    → o.internal ≢ null
    → o.cells o.internal ≡ some a
    → call a ≡ (b, a')
    → object_change object wrong call o
      ≡ some (b, record o { cells = write o.cells o.internal (some a') })
unfolding object_change
change_lem object wrong b call o a a' nb ni here e = rw (not_null _ nb, not_null _ ni, here, e) refl

-- The same on the internal object.
module _ (p : Ptr) (np : p ≢ null) (s : SyncSem) (ready : s.initialized ≡ true) where
  wait_on :
      (n : ℕ)
      → n < uint_mod
      → s.count ≡ n
      → sync_sem_wait p s ≡ ((wait_units n).0, record s { count = (wait_units n).1 })
  unfolding sync_sem_wait wait_loop
  wait_on zero small e = ground (arith, e)
  wait_on (suc n) small e =
      let less : dec_uint s.count ≡ n = omega arith in
      let run : sync_sem_wait p s
          ≡ (sem_returned sthread_success, record s { count = dec_uint s.count }) =
        ground (arith, e) in
      run ∙ ap (λ (c : ℕ). (sem_returned sthread_success, record s { count = c })) less

  trywait_on :
      (n : ℕ)
      → n < uint_mod
      → s.count ≡ n
      → sync_sem_trywait p s ≡ ((trywait_units n).0, record s { count = (trywait_units n).1 })
  unfolding sync_sem_trywait
  trywait_on zero small e = ground (arith, e)
  trywait_on (suc n) small e =
      let less : dec_uint s.count ≡ n = omega arith in
      let run : sync_sem_trywait p s ≡ (sthread_success, record s { count = dec_uint s.count }) =
        ground (arith, e) in
      run ∙ ap (λ (c : ℕ). (sthread_success, record s { count = c })) less

  post_on :
      (n : ℕ)
      → n + 1 < uint_mod
      → s.count ≡ n
      → sync_sem_post p s ≡ (sthread_success, true, record s { count = n + 1 })
  unfolding sync_sem_post
  post_on n small e =
      let more : inc_uint s.count ≡ n + 1 = omega arith in
      let run : sync_sem_post p s ≡ (sthread_success, true, record s { count = inc_uint s.count }) =
        ground arith in
      run ∙ ap (λ (c : ℕ). (sthread_success, true, record s { count = c })) more

  getvalue_on :
      (n : ℕ) (value : Ptr)
      → value ≢ null
      → n < 2 ^ 31
      → s.count ≡ n
      → sync_sem_getvalue p value s ≡ (sthread_success, some (pos n))
  unfolding sync_sem_getvalue
  getvalue_on n value nv small e = rw (not_null _ np, not_null _ nv, ready, e) (ground arith)

module _ {n : ℕ} {o : Object SyncSem} (h : HasUnits n o) where
  -- After a call that leaves `m` units.
  changed : ℕ → Object SyncSem
  changed m = record o { cells = write o.cells o.internal (some (record h.sem { count = m })) }

  changed-HasUnits : (m : ℕ) → HasUnits m (changed m)
  unfolding changed
  changed-HasUnits m = record {
    sem = record h.sem { count = m };
    placed = h.placed;
    here = ground arith;
    ready = h.ready;
    units = refl;
  }

-- The semaphore functions implement a number of units: on an object that was initialised and has `n` units,
-- sthread_sem_wait and sthread_sem_trywait take one unit if there is one, and else the first goes to sleep
-- and the second returns STHREAD_ERROR_BUSY; sthread_sem_post adds one; sthread_sem_getvalue tells how many
-- there are; each call leaves an initialised object with the units that result; for n + 1 below 2 ^ 31.
pub sthread_sem-HasUnits :
    (sem value : Ptr) (n : ℕ) (o : Object SyncSem)
    → sem ≢ null
    → value ≢ null
    → n + 1 < 2 ^ 31
    → HasUnits n o
    → ((o' : Object SyncSem) × (sthread_sem_wait sem o ≡ some ((wait_units n).0, o'))
        × HasUnits (wait_units n).1 o')
      × ((o' : Object SyncSem) × (sthread_sem_trywait sem o ≡ some ((trywait_units n).0, o'))
          × HasUnits (trywait_units n).1 o')
      × ((o' : Object SyncSem) × (sthread_sem_post sem o ≡ some (sthread_success, o'))
          × HasUnits (n + 1) o')
      × (sthread_sem_getvalue sem value o ≡ some (sthread_success, some (pos n)))
unfolding sthread_sem_wait sthread_sem_trywait sthread_sem_post sthread_sem_getvalue changed
sthread_sem-HasUnits sem value n o ns nv small h = (
  (
    changed h (wait_units n).1,
    change_lem sem _ _ (sync_sem_wait o.internal) o h.sem _ ns h.placed h.here
        (wait_on o.internal h.placed h.sem h.ready n (omega arith) h.units),
    changed-HasUnits h (wait_units n).1,
  ),
  (
    changed h (trywait_units n).1,
    change_lem sem _ _ (sync_sem_trywait o.internal) o h.sem _ ns h.placed h.here
        (trywait_on o.internal h.placed h.sem h.ready n (omega arith) h.units),
    changed-HasUnits h (trywait_units n).1,
  ),
  (
    changed h (n + 1),
    change_lem sem _ _ (λ s. post_of (sync_sem_post o.internal s)) o h.sem _ ns h.placed h.here
        (ap post_of (post_on o.internal h.placed h.sem h.ready n (omega arith) h.units)),
    changed-HasUnits h (n + 1),
  ),
  rw (not_null _ ns, not_null _ nv, not_null _ h.placed, h.here)
      (ap some (getvalue_on o.internal h.placed h.sem h.ready n value nv (omega arith) h.units)),
)

-- sthread_sem_init gives such an object with `value` units, if malloc and pthread grant what it asks for.
pub sthread_sem_init-HasUnits :
    (sem fresh : Ptr) (raw : SyncSem) (value : ℕ) (o : Object SyncSem)
    → sem ≢ null
    → fresh ≢ null
    → (o' : Object SyncSem) × (sthread_sem_init sem fresh raw value no_error no_error o
        ≡ (sthread_success, o'))
      × HasUnits value o'
unfolding sthread_sem_init sync_sem_init
sthread_sem_init-HasUnits sem fresh raw value o ns nf =
    let made : SyncSem = record {
      lock = true;
      cond = true;
      count = value;
      max_count = value;
      initialized = true;
    } in
    (
      record { internal = fresh; cells = write o.cells fresh (some made) },
      rw (not_null _ ns, not_null _ nf) refl,
      record { sem = made; placed = nf; here = ground arith; ready = refl; units = refl },
    )
