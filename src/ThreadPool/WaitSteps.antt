-- ===== src/ThreadPool/WaitSteps.antt =====
-- The steps of a pool of src/thread_pool.c, and what its waiting clients know.
use thread_management_librar.Base.{
  ℕ, ◌≤◌, ◌<◌, ◌≡◌, ◌≢◌, ◌⊎◌, refl, false, [], ◌∷◌, inl, inr, arith, ap, sym, ◌∙◌, size_mod, length,
  length-append,
}
use thread_management_librar.Base.Threads.{
  assign, assign-cases, how_many, how_many-trade, how_many-pos,
}
use thread_management_librar.ThreadPool.System.{
  at_pop, popped, starting, executing, returned, retired, notifying, Client, idle, submitting,
  pushing, counting, waiting, comparing, bounding, asleep, woken, done, wake, holds_wait_lock, Pool,
  WorkerStep, pop_task, pop_closed, see_terminated, see_alive, raise_active, run_task, lower_active,
  raise_completed, broadcast, ClientStep, call_submit, see_running, see_stopped, push_task,
  push_refused, raise_submitted, call_wait, load_completed, sleep, return_zero, load_submitted,
  sleep_below, return_reached, wake_alone, relock, leave_wait, DestroyStep, exchange,
  exchange_fails, shut_queue, join, terminate, of_worker, of_client, of_destroyer, Reach, begin,
  then_step,
}
use thread_management_librar.ThreadPool.Counts.{is_counting, is_uncounted, Counted}
use thread_management_librar.ThreadPool.CountSteps.{Reach-Counted}
use thread_management_librar.ThreadPool.Waits.{
  is_notifying, Notifying, Waits, executed-le, Waits-same, worker_same,
}

WorkerStep-Waits :
    {n m : ℕ} {p : Pool} (i : ℕ) {p' : Pool}
    → i < n
    → Counted n m p
    → length p.accepted < size_mod
    → WorkerStep p i p'
    → Waits n p
    → Waits n p'
WorkerStep-Waits i lt cs small (pop_task e q) h =
    worker_same h i lt at_pop _ _ e refl refl refl refl refl refl
WorkerStep-Waits i lt cs small (pop_closed e q) h =
    worker_same h i lt at_pop _ _ e refl refl refl refl refl refl
WorkerStep-Waits i lt cs small (see_terminated t e q) h =
    worker_same h i lt (popped t) _ _ e refl refl refl refl refl refl
WorkerStep-Waits i lt cs small (see_alive t e q) h =
    worker_same h i lt (popped t) _ _ e refl refl refl refl refl refl
WorkerStep-Waits i lt cs small (raise_active t e) h =
    worker_same h i lt (starting t) _ _ e refl refl refl refl refl refl
WorkerStep-Waits i lt cs small (run_task t e) h =
    worker_same h i lt (executing t) _ _ e refl refl refl refl refl refl
WorkerStep-Waits i lt cs small (lower_active t e) h =
    worker_same h i lt (returned t) _ _ e refl refl refl refl refl refl
WorkerStep-Waits {n} {p} i lt cs small (raise_completed t e) h =
    let coming = how_many-trade is_notifying n i p.worker (retired t) notifying lt e in
    let uncounted = how_many-pos is_uncounted n i p.worker lt (rw e) in
    record {
      loaded = λ j c eq.
          let (le, now) = h.loaded j c eq in
          (omega (arith, cs.completed, cs.settled, executed-le cs), inr (omega arith));
      bounded = h.bounded;
      sleepers = λ j eq. inr (omega arith);
    }
WorkerStep-Waits {p} i lt cs small (broadcast e free) h = record {
  loaded = λ j c eq. absurd (not_comparing (p.client j) c (free j) eq);
  bounded = λ j s eq. absurd (not_bounding (p.client j) s (free j) eq);
  sleepers = λ j eq. absurd (not_asleep (p.client j) eq);
}
  where
    not_comparing : (a : Client) (c : ℕ) → holds_wait_lock a ≡ false → wake a ≢ comparing c
    not_comparing a c free' eq = ground arith

    not_bounding : (a : Client) (s : ℕ) → holds_wait_lock a ≡ false → wake a ≢ bounding s
    not_bounding a s free' eq = ground arith

    not_asleep : (a : Client) → wake a ≢ asleep
    not_asleep a eq = ground arith

-- A client moves on, neither within a comparison nor to sleep.
client_same :
    {n : ℕ} (p p' : Pool) (j : ℕ) (c' : Client)
    → ((c : ℕ) → c' ≢ comparing c)
    → ((s : ℕ) → c' ≢ bounding s)
    → c' ≢ asleep
    → p'.client ≡ assign p.client j c'
    → p'.completed_tasks ≡ p.completed_tasks
    → p.submitted_tasks ≤ p'.submitted_tasks
    → p'.worker ≡ p.worker
    → Waits n p
    → Waits n p'
client_same {n} p p' j c' calm calm' awake moved a b w h =
    Waits-same p p' a b (ap (how_many is_notifying n) w)
      (λ k c eq.
        elim (assign-cases p.client j c' k (ap (λ (f : ℕ → Client). f k) (sym moved) ∙ eq)) [
          | inl here ↦ absurd (calm c here)
          | inr other ↦ other
        ])
      (λ k s eq.
        elim (assign-cases p.client j c' k (ap (λ (f : ℕ → Client). f k) (sym moved) ∙ eq)) [
          | inl here ↦ absurd (calm' s here)
          | inr other ↦ other
        ])
      (λ k eq. elim (assign-cases p.client j c' k (ap (λ (f : ℕ → Client). f k) (sym moved) ∙ eq)) [
        | inl here ↦ absurd (awake here)
        | inr other ↦ other
      ])
      h

-- A client goes to sleep.
to_sleep :
    {n : ℕ} {p : Pool}
    → Waits n p
    → (j : ℕ) → (p.completed_tasks < p.submitted_tasks) ⊎ Notifying n p
    → Waits n (record p { client = assign p.client j asleep })
to_sleep {p} h j reason = record {
  loaded = λ k c eq. elim (assign-cases p.client j asleep k eq) [
    | inl here ↦ absurd (ground arith)
    | inr other ↦ h.loaded k c other
  ];
  bounded = λ k s eq. elim (assign-cases p.client j asleep k eq) [
    | inl here ↦ absurd (ground arith)
    | inr other ↦ h.bounded k s other
  ];
  sleepers = λ k eq. elim (assign-cases p.client j asleep k eq) [
    | inl here ↦ reason
    | inr other ↦ h.sleepers k other
  ];
}

ClientStep-Waits :
    {n m : ℕ} {p : Pool} (j : ℕ) {p' : Pool}
    → j < m
    → Counted n m p
    → length p.accepted < size_mod
    → ClientStep p j p'
    → Waits n p
    → Waits n p'
ClientStep-Waits {p} j lt cs small (call_submit t e) h =
    client_same p _ j (submitting t) (λ c eq. cc) (λ s eq. cc) (λ eq. cc) refl refl (omega arith)
      refl h
ClientStep-Waits {p} j lt cs small (see_running t e q) h =
    client_same p _ j (pushing t) (λ c eq. cc) (λ s eq. cc) (λ eq. cc) refl refl (omega arith) refl
      h
ClientStep-Waits {p} j lt cs small (see_stopped t e q) h =
    client_same p _ j idle (λ c eq. cc) (λ s eq. cc) (λ eq. cc) refl refl (omega arith) refl h
ClientStep-Waits {p} j lt cs small (push_task t e q) h =
    client_same p _ j (counting t) (λ c eq. cc) (λ s eq. cc) (λ eq. cc) refl refl (omega arith) refl
      h
ClientStep-Waits {p} j lt cs small (push_refused t e q) h =
    client_same p _ j idle (λ c eq. cc) (λ s eq. cc) (λ eq. cc) refl refl (omega arith) refl h
ClientStep-Waits {p} j lt cs small (raise_submitted t e) h =
    let one_more = how_many-pos is_counting _ j p.client lt (rw e) in
    client_same p _ j idle (λ c eq. cc) (λ s eq. cc) (λ eq. cc) refl refl
      (omega (arith, cs.submitted, cs.announced)) refl h
ClientStep-Waits {p} j lt cs small (call_wait e q) h =
    client_same p _ j waiting (λ c eq. cc) (λ s eq. cc) (λ eq. cc) refl refl (omega arith) refl h
ClientStep-Waits {p} j lt cs small (load_completed e) h = record {
  loaded = λ k c eq. elim (assign-cases p.client j (comparing p.completed_tasks) k eq) [
    | inl here ↦ let same : p.completed_tasks ≡ c = ground arith in (omega arith, inl (sym same))
    | inr other ↦ h.loaded k c other
  ];
  bounded = λ k s eq. elim (assign-cases p.client j (comparing p.completed_tasks) k eq) [
    | inl here ↦ absurd (ground arith)
    | inr other ↦ h.bounded k s other
  ];
  sleepers = λ k eq. elim (assign-cases p.client j (comparing p.completed_tasks) k eq) [
    | inl here ↦ absurd (ground arith)
    | inr other ↦ h.sleepers k other
  ];
}
ClientStep-Waits {p} j lt cs small (sleep c e q) h =
    to_sleep h j
      (elim (h.loaded j c e).1 [ inl current ↦ inl (ground arith) | inr coming ↦ inr coming ])
ClientStep-Waits {p} j lt cs small (return_zero c e q) h =
    client_same p _ j done (λ c eq. cc) (λ s eq. cc) (λ eq. cc) refl refl (omega arith) refl h
ClientStep-Waits {p} j lt cs small (load_submitted e) h = record {
  loaded = λ k c eq. elim (assign-cases p.client j (bounding p.submitted_tasks) k eq) [
    | inl here ↦ absurd (ground arith)
    | inr other ↦ h.loaded k c other
  ];
  bounded = λ k s eq. elim (assign-cases p.client j (bounding p.submitted_tasks) k eq) [
    | inl here ↦ let same : p.submitted_tasks ≡ s = ground arith in omega arith
    | inr other ↦ h.bounded k s other
  ];
  sleepers = λ k eq. elim (assign-cases p.client j (bounding p.submitted_tasks) k eq) [
    | inl here ↦ absurd (ground arith)
    | inr other ↦ h.sleepers k other
  ];
}
ClientStep-Waits {p} j lt cs small (sleep_below s e q) h =
    let le = h.bounded j s e in to_sleep h j (inl (ground arith))
ClientStep-Waits {p} j lt cs small (return_reached s e q) h =
    client_same p _ j done (λ c eq. cc) (λ s eq. cc) (λ eq. cc) refl refl (omega arith) refl h
ClientStep-Waits {p} j lt cs small (wake_alone e) h =
    client_same p _ j woken (λ c eq. cc) (λ s eq. cc) (λ eq. cc) refl refl (omega arith) refl h
ClientStep-Waits {p} j lt cs small (relock e q) h =
    client_same p _ j waiting (λ c eq. cc) (λ s eq. cc) (λ eq. cc) refl refl (omega arith) refl h
ClientStep-Waits {p} j lt cs small (leave_wait e) h =
    client_same p _ j idle (λ c eq. cc) (λ s eq. cc) (λ eq. cc) refl refl (omega arith) refl h

DestroyStep-Waits : {n : ℕ} {p p' : Pool} → DestroyStep n p p' → Waits n p → Waits n p'
DestroyStep-Waits (exchange_fails r) h = h
DestroyStep-Waits (exchange r) h = record {
  loaded = h.loaded;
  bounded = h.bounded;
  sleepers = h.sleepers;
}
DestroyStep-Waits (shut_queue e) h = record {
  loaded = h.loaded;
  bounded = h.bounded;
  sleepers = h.sleepers;
}
DestroyStep-Waits (join i e lt gone) h = record {
  loaded = h.loaded;
  bounded = h.bounded;
  sleepers = h.sleepers;
}
DestroyStep-Waits (terminate i e eq) h = record {
  loaded = h.loaded;
  bounded = h.bounded;
  sleepers = h.sleepers;
}

lt_of_le : {a b c : ℕ} → a ≤ b → b < c → a < c
lt_of_le h k = omega arith

-- No step takes an accepted task back.
WorkerStep-grows :
    {p : Pool} {i : ℕ} {p' : Pool} → WorkerStep p i p' → length p.accepted ≤ length p'.accepted
WorkerStep-grows (pop_task e q) = omega arith
WorkerStep-grows _ = omega arith

ClientStep-grows :
    {p : Pool} {j : ℕ} {p' : Pool} → ClientStep p j p' → length p.accepted ≤ length p'.accepted
ClientStep-grows {p} (push_task t e q) = omega (arith, length-append p.accepted (t ∷ []))
ClientStep-grows _ = omega arith

DestroyStep-grows :
    {n : ℕ} {p p' : Pool} → DestroyStep n p p' → length p.accepted ≤ length p'.accepted
DestroyStep-grows (exchange r) = omega arith
DestroyStep-grows _ = omega arith

pub Reach-Waits :
    {n m capacity : ℕ} {p : Pool}
    → n < size_mod
    → Reach n m capacity p
    → length p.accepted < size_mod
    → Waits n p
Reach-Waits few begin small = record {
  loaded = λ j c eq. cc;
  bounded = λ j s eq. cc;
  sleepers = λ j eq. cc;
}
Reach-Waits few (then_step r (of_worker i lt st)) small =
    let before = lt_of_le (WorkerStep-grows st) small in
    WorkerStep-Waits i lt (Reach-Counted few r) before st (Reach-Waits few r before)
Reach-Waits few (then_step r (of_client j lt st)) small =
    let before = lt_of_le (ClientStep-grows st) small in
    ClientStep-Waits j lt (Reach-Counted few r) before st (Reach-Waits few r before)
Reach-Waits few (then_step r (of_destroyer st)) small =
    DestroyStep-Waits st (Reach-Waits few r (lt_of_le (DestroyStep-grows st) small))
