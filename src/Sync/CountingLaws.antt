-- ===== src/Sync/CountingLaws.antt =====
-- The count and the wake-ups of a semaphore of src/sync.c that several threads use.
use thread_management_librar.Base.{
  ℕ, suc, ◌+◌, ◌≤◌, ◌<◌, ◌≡◌, refl, true, ◌⊎◌, inl, inr, arith, uint_mod,
}
use thread_management_librar.Base.Threads.{
  assign, how_many, how_many-trade, how_many-none, how_many-pos, find_one,
}
use thread_management_librar.Sync.Errors.{sthread_success, sthread_error_busy}
use thread_management_librar.Sync.Semaphore.{
  SyncSem, sem_returned, sem_waits, dec_uint, inc_uint, wait_loop, sync_sem_trywait, sync_sem_post,
}
use thread_management_librar.Sync.Counting.{
  Pc, idle, ready, asleep, is_ready, is_asleep, rouse, Woken, one, nobody, System, sem_at, Step,
  call_wait, wait_done, wait_sleep, try_done, try_busy, post, wake_up, Reach, begin, then_step,
}

-- What each outcome tells of the count.
pub wait_loop-returned :
    (s x : SyncSem)
    → wait_loop s ≡ (sem_returned sthread_success, x)
    → (0 < s.count) × (x ≡ record s { count = dec_uint s.count })
unfolding wait_loop
wait_loop-returned s x e = ground arith

pub wait_loop-waits : (s x : SyncSem) → wait_loop s ≡ (sem_waits, x) → (s.count ≡ 0) × (x ≡ s)
unfolding wait_loop
wait_loop-waits s x e = ground arith

trywait-success :
    (s x : SyncSem)
    → sync_sem_trywait sem_at s ≡ (sthread_success, x)
    → (0 < s.count) × (x ≡ record s { count = dec_uint s.count })
unfolding sync_sem_trywait
trywait-success s x e = ground arith

trywait-busy : (s x : SyncSem) → sync_sem_trywait sem_at s ≡ (sthread_error_busy, x) → x ≡ s
unfolding sync_sem_trywait
trywait-busy s x e = ground arith

pub post-success :
    (s x : SyncSem)
    → sync_sem_post sem_at s ≡ (sthread_success, true, x)
    → x ≡ record s { count = inc_uint s.count }
unfolding sync_sem_post
post-success s x e = ground arith

record Counts (value count acquired posted readies asleeps : ℕ) : Type 0 where
  small : count < uint_mod
  balance : value + posted < uint_mod → count + acquired ≡ value + posted
  -- a thread sleeps only if an awake one is there for each unit
  covered : 0 < asleeps → count ≤ readies

abbrev Inv : (n value : ℕ) → System → Type 0
Inv n value s =
    Counts value s.sem.count s.acquired s.posted (how_many is_ready n s.pc)
      (how_many is_asleep n s.pc)

-- A change of the threads only.
Counts-mono :
    {v c a p r s : ℕ} (r' s' : ℕ) → Counts v c a p r s → r ≤ r' → s' ≤ s → Counts v c a p r' s'
Counts-mono r' s' h more fewer = record {
  small = h.small;
  balance = h.balance;
  covered = λ some_asleep. omega (arith, h.covered (omega arith));
}

Counts-take :
    {v c a p r s : ℕ} (r' : ℕ)
    → Counts v c a p r s
    → 0 < c
    → r ≤ r' + 1
    → Counts v (dec_uint c) (suc a) p r' s
Counts-take r' h pos left = record {
  small = omega arith;
  balance = λ fits. omega (arith, h.balance fits, h.small);
  covered = λ some_asleep. omega (arith, h.covered some_asleep, h.small);
}

-- A signal: nobody sleeps, or a sleeper gets ready.
Woken-counts :
    {n : ℕ} {pc pc' : ℕ → Pc}
    → Woken n pc pc'
    → ((how_many is_asleep n pc' ≡ 0) × (how_many is_ready n pc' ≡ how_many is_ready n pc))
      ⊎ ((how_many is_asleep n pc' + 1 ≡ how_many is_asleep n pc)
          × (how_many is_ready n pc' ≡ how_many is_ready n pc + 1))
Woken-counts {n} {pc} (one j lt e) = inr (
  omega (arith, how_many-trade is_asleep n j pc asleep ready lt e),
  omega (arith, how_many-trade is_ready n j pc asleep ready lt e),
)
Woken-counts {n} {pc} (nobody none_asleep) = inl (how_many-none is_asleep n pc none_asleep, refl)

Counts-post :
    {v c a p r s : ℕ} (r' s' : ℕ)
    → Counts v c a p r s
    → ((s' ≡ 0) × (r' ≡ r)) ⊎ ((s' + 1 ≡ s) × (r' ≡ r + 1))
    → Counts v (inc_uint c) a (suc p) r' s'
Counts-post r' s' h (inl (x, y)) = record {
  small = omega arith;
  balance = λ fits. omega (arith, h.balance (omega arith), h.small);
  covered = λ some_asleep. absurd (omega arith);
}
Counts-post r' s' h (inr (x, y)) = record {
  small = omega arith;
  balance = λ fits. omega (arith, h.balance (omega arith), h.small);
  covered = λ some_asleep. omega (arith, h.covered (omega arith), h.small);
}

-- A thread that wakes up is ready, and one that does not sleep stays as it was.
roused :
    (n i : ℕ) (pc : ℕ → Pc) (p : Pc)
    → i < n
    → pc i ≡ p
    → (how_many is_ready n pc ≤ how_many is_ready n (assign pc i (rouse p)))
      × (how_many is_asleep n (assign pc i (rouse p)) ≤ how_many is_asleep n pc)
roused n i pc p lt e = (
  ground (arith, how_many-trade is_ready n i pc p (rouse p) lt e),
  ground (arith, how_many-trade is_asleep n i pc p (rouse p) lt e),
)

Step-Inv : {n value : ℕ} {s s' : System} → Step n s s' → Inv n value s → Inv n value s'
Step-Inv {n} {s} (call_wait i lt e) h =
    Counts-mono _ _ h (omega (arith, how_many-trade is_ready n i s.pc idle ready lt e))
      (omega (arith, how_many-trade is_asleep n i s.pc idle ready lt e))
Step-Inv {n} {value} {s} (wait_done i {x} lt e ran) h =
    let (pos, same) = wait_loop-returned s.sem x ran in
    rw same (
      Counts-mono _ _
        (Counts-take (how_many is_ready n (assign s.pc i idle)) h pos
          (omega (arith, how_many-trade is_ready n i s.pc ready idle lt e)))
        (omega arith) (omega (arith, how_many-trade is_asleep n i s.pc ready idle lt e)))
Step-Inv {n} {s} (wait_sleep i {x} lt e ran) h =
    let (none_left, same) = wait_loop-waits s.sem x ran in
    rw same (record { small = h.small; balance = h.balance; covered = λ some_asleep. omega arith })
Step-Inv {n} {s} (try_done i {x} lt e ran) h =
    let (pos, same) = trywait-success s.sem x ran in
    rw same (Counts-take (how_many is_ready n s.pc) h pos (omega arith))
Step-Inv {n} {s} (try_busy i {x} lt e ran) h = rw (trywait-busy s.sem x ran) h
Step-Inv {n} {s} (post i {x} lt e ran woken) h =
    rw (post-success s.sem x ran) (Counts-post _ _ h (Woken-counts woken))
Step-Inv {n} {s} (wake_up i lt) h =
    let (more, fewer) = roused n i s.pc (s.pc i) lt refl in Counts-mono _ _ h more fewer

Reach-Inv : {n value : ℕ} {s : System} → value < uint_mod → Reach n value s → Inv n value s
Reach-Inv {n} small begin = record {
  small = small;
  balance = λ fits. omega arith;
  covered =
      λ some_asleep. absurd (omega (arith, how_many-none is_asleep n (λ _. idle) (λ i lt. refl)));
}
Reach-Inv small (then_step r st) = Step-Inv st (Reach-Inv small r)

-- In every reachable state, as long as the initial value and the posts together fit an `unsigned int`,
-- the count is the initial value plus the posts less the successful waits, so no more waits have
-- succeeded than there were units.
pub semaphore_balance :
    {n value : ℕ} {s : System}
    → Reach n value s
    → value + s.posted < uint_mod
    → (s.sem.count + s.acquired ≡ value + s.posted) × (s.acquired ≤ value + s.posted)
semaphore_balance r fits =
    let h = Reach-Inv (omega arith) r in let e = h.balance fits in (e, omega arith)

is_ready-eq : (p : Pc) → is_ready p ≡ true → p ≡ ready
is_ready-eq p e = ground arith

wait_loop-pos :
    (s : SyncSem)
    → 0 < s.count
    → wait_loop s ≡ (sem_returned sthread_success, record s { count = dec_uint s.count })
unfolding wait_loop
wait_loop-pos s pos = ground arith

-- No wake-up of a semaphore is lost: in every reachable state in which a thread sleeps in
-- `sync_sem_wait` while the count is positive, another thread is awake in its call of `sync_sem_wait`, before the lock,
-- and can at once take a unit and return success.
pub semaphore_waiter_not_lost :
    {n value : ℕ} {s : System}
    → value < uint_mod
    → Reach n value s
    → (i : ℕ) → i < n
    → s.pc i ≡ asleep
    → 0 < s.sem.count
    → (j : ℕ) × (j < n)
      × (s.pc j ≡ ready)
      × (s' : System) × Step n s s'
      × (s'.pc j ≡ idle)
      × (s'.acquired ≡ suc s.acquired)
      × (s'.sem.count + 1 ≡ s.sem.count)
semaphore_waiter_not_lost {n} {s} small r i lt e pos =
    let h = Reach-Inv small r in
    let asleep_too = how_many-pos is_asleep n i s.pc lt (rw e) in
    let (j, lt', found) = find_one is_ready n s.pc (omega (arith, h.covered asleep_too)) in
    let here = is_ready-eq (s.pc j) found in
    (
      j,
      lt',
      here,
      _,
      wait_done j lt' here (wait_loop-pos s.sem pos),
      ground arith,
      refl,
      omega (arith, h.small),
    )
