-- ===== src/ThreadPool/Lifecycle.antt =====
-- The states of a pool of src/thread_pool.c, and when its workers have left.
use thread_management_librar.Base.{
  ℕ, ◌≤◌, ◌<◌, ◌≡◌, ◌≢◌, refl, true, false, [], ◌==◌, ◌⊎◌, inl, inr, arith, Bool-cases, ap, sym,
  ◌∙◌,
}
use mathlib.Core.Path.{subst}
use thread_management_librar.Base.Threads.{assign}
use thread_management_librar.Scheduler.Store.{Task}
use thread_management_librar.Scheduler.Fifo
use thread_management_librar.Scheduler.Fifo.{Fifo, accepted, refused, took, closed}
use thread_management_librar.ThreadPool.System.{
  running, shutdown, terminated, is_running, is_terminated, Worker, popped, exited, Destroyer,
  absent, stopping, joining, finished, Pool, WorkerStep, pop_task, pop_closed, see_terminated,
  see_alive, raise_active, run_task, lower_active, raise_completed, broadcast, ClientStep,
  call_submit, see_running, see_stopped, push_task, push_refused, raise_submitted, call_wait,
  load_completed, sleep, return_zero, load_submitted, sleep_below, return_reached, wake_alone,
  relock, leave_wait, DestroyStep, exchange, exchange_fails, shut_queue, join, terminate, Step,
  of_worker, of_client, of_destroyer, Reach, begin, then_step,
}

-- How far the destruction has come, and what it has done by then.
abbrev pub Phase : ℕ → Pool → Destroyer → Type 0
Phase n p absent = p.state ≡ running
Phase n p stopping = p.state ≡ shutdown
Phase n p (joining i) =
    (p.state ≡ shutdown)
    × (p.fifo.shutdown ≡ true)
    × (i ≤ n)
    × ((k : ℕ) → k < i → p.worker k ≡ exited)
Phase n p finished =
    (p.state ≡ terminated) × (p.fifo.shutdown ≡ true) × ((k : ℕ) → k < n → p.worker k ≡ exited)

pub record Life (n : ℕ) (p : Pool) : Type 0 where
  pub phase : Phase n p p.destroyer
  -- a worker leaves only a queue that is shut down and empty
  pub drained : (k : ℕ) → p.worker k ≡ exited → (p.fifo.shutdown ≡ true) × (p.fifo.tasks ≡ [])

-- What a step of a worker or a client leaves for the destruction.
record Keeps (p p' : Pool) : Type 0 where
  state : p'.state ≡ p.state
  destroyer : p'.destroyer ≡ p.destroyer
  shut : p'.fifo.shutdown ≡ p.fifo.shutdown
  empty : p.fifo.shutdown ≡ true → p.fifo.tasks ≡ [] → p'.fifo.tasks ≡ []
  left : (k : ℕ) → p.worker k ≡ exited → p'.worker k ≡ exited
  leaves :
      (k : ℕ)
      → p'.worker k ≡ exited
      → (p.worker k ≡ exited) ⊎ ((p'.fifo.shutdown ≡ true) × (p'.fifo.tasks ≡ []))

Phase-Keeps : (n : ℕ) {p p' : Pool} (d : Destroyer) → Keeps p p' → Phase n p d → Phase n p' d
Phase-Keeps n absent k h = k.state ∙ h
Phase-Keeps n stopping k h = k.state ∙ h
Phase-Keeps n (joining i) k (a, b, c, e) = (k.state ∙ a, k.shut ∙ b, c, λ j lt. k.left j (e j lt))
Phase-Keeps n finished k (a, b, e) = (k.state ∙ a, k.shut ∙ b, λ j lt. k.left j (e j lt))

Life-Keeps : {n : ℕ} {p p' : Pool} → Keeps p p' → Life n p → Life n p'
Life-Keeps {n} {p} {p'} k h = record {
  phase = rw k.destroyer (Phase-Keeps n p.destroyer k h.phase);
  drained = λ j e. elim (k.leaves j e) [
    | inl before ↦ let (a, b) = h.drained j before in (k.shut ∙ a, k.empty a b)
    | inr now ↦ now
  ];
}

-- A move of worker `i` within its loop.
assign-Keeps :
    (p : Pool) (i : ℕ) (w : Worker) (p' : Pool)
    → p'.state ≡ p.state
    → p'.destroyer ≡ p.destroyer
    → p'.fifo.shutdown ≡ p.fifo.shutdown
    → (p.fifo.tasks ≡ [] → p'.fifo.tasks ≡ [])
    → p'.worker ≡ assign p.worker i w
    → p.worker i ≢ exited
    → w ≢ exited ⊎ ((p'.fifo.shutdown ≡ true) × (p'.fifo.tasks ≡ []))
    → Keeps p p'
assign-Keeps p i w p' a b c d e inside stays = record {
  state = a;
  destroyer = b;
  shut = c;
  empty = λ _ none_left. d none_left;
  left = λ k gone. ap (λ (f : ℕ → Worker). f k) e ∙ other k gone;
  leaves = λ k gone. new k (ap (λ (f : ℕ → Worker). f k) (sym e) ∙ gone);
}
  where
    other : (k : ℕ) → p.worker k ≡ exited → assign p.worker i w k ≡ exited
    other k gone = elim (Bool-cases (k == i)) [
      | inl same ↦ absurd (inside (ap p.worker (sym (eq k same)) ∙ gone))
      | inr differs ↦ rw differs gone
    ]
      where
        eq : (k : ℕ) → (k == i) ≡ true → k ≡ i
        eq k same = ground arith

    new :
        (k : ℕ)
        → assign p.worker i w k ≡ exited
        → (p.worker k ≡ exited) ⊎ ((p'.fifo.shutdown ≡ true) × (p'.fifo.tasks ≡ []))
    new k gone = elim (Bool-cases (k == i)) [
      | inl same ↦ elim stays [ inl ne ↦ absurd (ne (rw same at gone)) | inr now ↦ inr now ]
      | inr differs ↦ inl (rw differs at gone)
    ]

pop_left : (t : Task) (f g : Fifo) → Fifo.pop f ≡ (took t, g) → f.tasks ≡ [] → ⊥
pop_left t f g e none_left = let (rest, some_task, same) = Fifo.pop-took t f g e in cc

pop_shut : (t : Task) (f g : Fifo) → Fifo.pop f ≡ (took t, g) → g.shutdown ≡ f.shutdown
pop_shut t f g e = let (rest, some_task, same) = Fifo.pop-took t f g e in rw same

-- No worker of a terminated pool is in its loop.
pub terminated-exited :
    (n : ℕ) (p : Pool) (d : Destroyer) (i : ℕ)
    → Phase n p d
    → is_terminated p.state ≡ true
    → i < n
    → p.worker i ≡ exited
terminated-exited n p absent i h e lt = absurd (ground arith)
terminated-exited n p stopping i h e lt = absurd (ground arith)
terminated-exited n p (joining k) i h e lt = absurd (ground (arith, h.0))
terminated-exited n p finished i h e lt = h.2 i lt

WorkerStep-Keeps :
    (n : ℕ) {p : Pool} (i : ℕ) {p' : Pool} → i < n → Life n p → WorkerStep p i p' → Keeps p p'
WorkerStep-Keeps n {p} i lt h (pop_task {t} {f} e q) =
    assign-Keeps p i _ _ refl refl (pop_shut t _ f q) (λ z. absurd (pop_left t _ f q z)) refl
      (λ g. cc) (inl (λ g. cc))
WorkerStep-Keeps n {p} i lt h (pop_closed {f} e q) =
    let (none_left, down, same) = Fifo.pop-closed p.fifo f q in
    assign-Keeps p i _ _ refl refl (ap (λ (g : Fifo). g.shutdown) same)
      (λ z. ap (λ (g : Fifo). g.tasks) same ∙ z) refl (λ g. cc)
      (inr (ap (λ (g : Fifo). g.shutdown) same ∙ down, ap (λ (g : Fifo). g.tasks) same ∙ none_left))
WorkerStep-Keeps n {p} i lt h (see_terminated t e q) =
    let gone = terminated-exited n p p.destroyer i h.phase q lt in absurd (cc)
WorkerStep-Keeps n {p} i lt h (see_alive t e q) =
    assign-Keeps p i _ _ refl refl refl (λ z. z) refl (λ g. cc) (inl (λ g. cc))
WorkerStep-Keeps n {p} i lt h (raise_active t e) =
    assign-Keeps p i _ _ refl refl refl (λ z. z) refl (λ g. cc) (inl (λ g. cc))
WorkerStep-Keeps n {p} i lt h (run_task t e) =
    assign-Keeps p i _ _ refl refl refl (λ z. z) refl (λ g. cc) (inl (λ g. cc))
WorkerStep-Keeps n {p} i lt h (lower_active t e) =
    assign-Keeps p i _ _ refl refl refl (λ z. z) refl (λ g. cc) (inl (λ g. cc))
WorkerStep-Keeps n {p} i lt h (raise_completed t e) =
    assign-Keeps p i _ _ refl refl refl (λ z. z) refl (λ g. cc) (inl (λ g. cc))
WorkerStep-Keeps n {p} i lt h (broadcast e q) =
    assign-Keeps p i _ _ refl refl refl (λ z. z) refl (λ g. cc) (inl (λ g. cc))

-- A client changes nothing of this but the queue, and that only before its shutdown.
client_Keeps :
    (p p' : Pool)
    → p'.state ≡ p.state
    → p'.destroyer ≡ p.destroyer
    → p'.fifo.shutdown ≡ p.fifo.shutdown
    → (p.fifo.shutdown ≡ true → p'.fifo.tasks ≡ p.fifo.tasks)
    → p'.worker ≡ p.worker
    → Keeps p p'
client_Keeps p p' a b c d e = record {
  state = a;
  destroyer = b;
  shut = c;
  empty = λ down none_left. d down ∙ none_left;
  left = λ k gone. ap (λ (f : ℕ → Worker). f k) e ∙ gone;
  leaves = λ k gone. inl (ap (λ (f : ℕ → Worker). f k) (sym e) ∙ gone);
}

ClientStep-Keeps : {p : Pool} {j : ℕ} {p' : Pool} → ClientStep p j p' → Keeps p p'
ClientStep-Keeps {p} (push_task t {f} e q) =
    let (up, space, same) = Fifo.push-accepted t p.fifo f q in
    client_Keeps p _ refl refl (ap (λ (g : Fifo). g.shutdown) same) (λ down. cc) refl
ClientStep-Keeps {p} (push_refused t {f} e q) =
    let (down, same) = Fifo.push-refused t p.fifo f q in
    client_Keeps p _ refl refl (ap (λ (g : Fifo). g.shutdown) same)
      (λ _. ap (λ (g : Fifo). g.tasks) same) refl
ClientStep-Keeps {p} (call_submit t e) = client_Keeps p _ refl refl refl (λ _. refl) refl
ClientStep-Keeps {p} (see_running t e q) = client_Keeps p _ refl refl refl (λ _. refl) refl
ClientStep-Keeps {p} (see_stopped t e q) = client_Keeps p _ refl refl refl (λ _. refl) refl
ClientStep-Keeps {p} (raise_submitted t e) = client_Keeps p _ refl refl refl (λ _. refl) refl
ClientStep-Keeps {p} (call_wait e q) = client_Keeps p _ refl refl refl (λ _. refl) refl
ClientStep-Keeps {p} (load_completed e) = client_Keeps p _ refl refl refl (λ _. refl) refl
ClientStep-Keeps {p} (sleep c e q) = client_Keeps p _ refl refl refl (λ _. refl) refl
ClientStep-Keeps {p} (return_zero c e q) = client_Keeps p _ refl refl refl (λ _. refl) refl
ClientStep-Keeps {p} (load_submitted e) = client_Keeps p _ refl refl refl (λ _. refl) refl
ClientStep-Keeps {p} (sleep_below s e q) = client_Keeps p _ refl refl refl (λ _. refl) refl
ClientStep-Keeps {p} (return_reached s e q) = client_Keeps p _ refl refl refl (λ _. refl) refl
ClientStep-Keeps {p} (wake_alone e) = client_Keeps p _ refl refl refl (λ _. refl) refl
ClientStep-Keeps {p} (relock e q) = client_Keeps p _ refl refl refl (λ _. refl) refl
ClientStep-Keeps {p} (leave_wait e) = client_Keeps p _ refl refl refl (λ _. refl) refl

DestroyStep-Life : {n : ℕ} {p p' : Pool} → DestroyStep n p p' → Life n p → Life n p'
DestroyStep-Life (exchange_fails r) h = h
DestroyStep-Life (exchange r) h = record { phase = refl; drained = h.drained }
DestroyStep-Life {n} {p} (shut_queue e) h = record {
  phase = (subst (Phase n p) e h.phase, refl, omega arith, λ k lt. absurd (omega arith));
  drained = λ k gone. let (down, none_left) = h.drained k gone in (refl, none_left);
}
DestroyStep-Life {n} {p} (join i e lt gone) h =
    let (stopped, down, le, before) = subst (Phase n p) e h.phase in
    record {
      phase = (
        stopped,
        down,
        lt,
        λ k below. elim (Bool-cases (k == i)) [
          | inl same ↦ let eq : k ≡ i = ground arith in ap p.worker eq ∙ gone
          | inr differs ↦ before k (ground arith)
        ],
      );
      drained = h.drained;
    }
DestroyStep-Life {n} {p} (terminate i e eq) h =
    let (stopped, down, le, before) = subst (Phase n p) e h.phase in
    record { phase = (refl, down, λ k below. before k (omega arith)); drained = h.drained }

-- Only a call of `thread_pool_destroy` moves the destruction on.
pub WorkerStep-destroyer :
    {n : ℕ} {p p' : Pool} (i : ℕ)
    → i < n
    → Life n p
    → WorkerStep p i p'
    → p'.destroyer ≡ p.destroyer
WorkerStep-destroyer {n} i lt h st = (WorkerStep-Keeps n i lt h st).destroyer

pub ClientStep-destroyer : {p p' : Pool} {j : ℕ} → ClientStep p j p' → p'.destroyer ≡ p.destroyer
ClientStep-destroyer st = (ClientStep-Keeps st).destroyer

-- Every step keeps it.
pub Step-Life : {n m : ℕ} {p p' : Pool} → Step n m p p' → Life n p → Life n p'
Step-Life {n} (of_worker i lt st) h = Life-Keeps (WorkerStep-Keeps n i lt h st) h
Step-Life (of_client j lt st) h = Life-Keeps (ClientStep-Keeps st) h
Step-Life (of_destroyer st) h = DestroyStep-Life st h

pub Reach-Life : {n m capacity : ℕ} {p : Pool} → Reach n m capacity p → Life n p
Reach-Life begin = record { phase = refl; drained = λ k gone. cc }
Reach-Life (then_step r st) = Step-Life st (Reach-Life r)

-- In every reachable state, a worker that has popped a task finds the pool not terminated, so that it
-- never drops the task: the `break` of `worker_thread` behind the pop is dead code.
pub popped_not_terminated :
    {n m capacity : ℕ} {p : Pool}
    → Reach n m capacity p
    → (i : ℕ) (t : Task) → i < n
    → p.worker i ≡ popped t
    → is_terminated p.state ≡ false
popped_not_terminated {n} {p} r i t lt e = elim (Bool-cases (is_terminated p.state)) [
  | inl over ↦
      let gone = terminated-exited n p p.destroyer i (Reach-Life r).phase over lt in absurd (cc)
  | inr alive ↦ alive
]

-- A pool that is not running stays so.
pub Step-stopped :
    {n m : ℕ} {p p' : Pool}
    → Life n p
    → Step n m p p'
    → is_running p.state ≡ false
    → is_running p'.state ≡ false
Step-stopped {n} h (of_worker i lt st) down =
    ap is_running (WorkerStep-Keeps n i lt h st).state ∙ down
Step-stopped h (of_client j lt st) down = ap is_running (ClientStep-Keeps st).state ∙ down
Step-stopped h (of_destroyer (exchange r)) down = refl
Step-stopped h (of_destroyer (exchange_fails r)) down = r
Step-stopped h (of_destroyer (shut_queue e)) down = down
Step-stopped h (of_destroyer (join i e lt gone)) down = down
Step-stopped h (of_destroyer (terminate i e eq)) down = refl

-- A pool is running exactly as long as no call destroys it.
pub running-absent :
    (n : ℕ) (p : Pool) (d : Destroyer) → Phase n p d → is_running p.state ≡ true → d ≡ absent
running-absent n p absent h up = refl
running-absent n p stopping h up = absurd (ground arith)
running-absent n p (joining i) h up = absurd (ground (arith, h.0))
running-absent n p finished h up = absurd (ground (arith, h.0))

pub absent-running :
    {n : ℕ} {p : Pool} → Life n p → p.destroyer ≡ absent → is_running p.state ≡ true
absent-running {n} {p} h e = ap is_running (subst (Phase n p) e h.phase)
