-- ===== src/ThreadPool/CountSteps.antt =====
-- The steps of a pool of src/thread_pool.c, and its counts.
use thread_management_librar.Base.{
  ℕ, suc, ◌+◌, ◌<◌, ◌≡◌, refl, true, List, [], ◌∷◌, ◌++◌, arith, ap, sym, ◌∙◌, inc_size, size_mod,
  length-append,
}
use mathlib.Core.List.{append_assoc}
use thread_management_librar.Base.Threads.{
  assign, tick, how_many, how_many-trade, how_many-map, how_many-none,
}
use thread_management_librar.Scheduler.Store.{Task}
use thread_management_librar.Scheduler.Fifo
use thread_management_librar.Scheduler.Fifo.{Fifo, accepted, refused, took, closed}
use thread_management_librar.ThreadPool.System.{
  PoolState, Destroyer, shutdown, terminated, stopping, joining, finished, at_pop, popped, starting,
  notifying, exited, Client, idle, submitting, pushing, counting, waiting, comparing, bounding,
  asleep, woken, done, wake, Pool, WorkerStep, pop_task, pop_closed, see_terminated, see_alive,
  raise_active, run_task, lower_active, raise_completed, broadcast, ClientStep, call_submit,
  see_running, see_stopped, push_task, push_refused, raise_submitted, call_wait, load_completed,
  sleep, return_zero, load_submitted, sleep_below, return_reached, wake_alone, relock, leave_wait,
  DestroyStep, exchange, exchange_fails, shut_queue, join, terminate, Step, of_worker, of_client,
  of_destroyer, created, Reach, begin, then_step,
}
use thread_management_librar.ThreadPool.Lifecycle.{Life, Reach-Life, terminated-exited}
use thread_management_librar.ThreadPool.Counts.{
  is_counting, is_active, is_uncounted, carries, Counted, worker_pop_task, worker_move,
  worker_raise_active, worker_run_task, worker_lower_active, worker_raise_completed,
}

module _ {n m : ℕ} {p : Pool} (h : Counted n m p) where
  -- The counts see of the queue only its tasks.
  with_fifo : (f : Fifo) → f.tasks ≡ p.fifo.tasks → Counted n m (record p { fifo = f })
  with_fifo f same = record {
    order = h.order ∙ ap (λ (l : List Task). p.taken ++ l) (sym same);
    each = h.each;
    active = h.active;
    completions = h.completions;
    completed = h.completed;
    settled = h.settled;
    submissions = h.submissions;
    submitted = h.submitted;
    announced = h.announced;
  }

  -- They see nothing of the states of the pool and of its destruction.
  with_state : (s : PoolState) (d : Destroyer) → Counted n m (record p { state = s; destroyer = d })
  with_state s d = record {
    order = h.order;
    each = h.each;
    active = h.active;
    completions = h.completions;
    completed = h.completed;
    settled = h.settled;
    submissions = h.submissions;
    submitted = h.submitted;
    announced = h.announced;
  }

WorkerStep-Counted :
    {n m : ℕ} {p : Pool} (i : ℕ) {p' : Pool}
    → n < size_mod
    → i < n
    → Life n p
    → WorkerStep p i p'
    → Counted n m p
    → Counted n m p'
WorkerStep-Counted i few lt life (pop_task {t} {f} e q) h = worker_pop_task few h i lt t f e q
WorkerStep-Counted {n} {m} {p} i few lt life (pop_closed {f} e q) h =
    let (none_left, down, same) = Fifo.pop-closed p.fifo f q in
    let c = worker_move few h i lt at_pop exited e (λ r. refl) refl refl in
    with_fifo c f (ap (λ (g : Fifo). g.tasks) same)
WorkerStep-Counted {n} {m} {p} i few lt life (see_terminated t e q) h =
    let gone = terminated-exited n p p.destroyer i life.phase q lt in absurd (cc)
WorkerStep-Counted i few lt life (see_alive t e q) h =
    worker_move few h i lt (popped t) (starting t) e (λ r. refl) refl refl
WorkerStep-Counted i few lt life (raise_active t e) h = worker_raise_active few h i lt t e
WorkerStep-Counted i few lt life (run_task t e) h = worker_run_task few h i lt t e
WorkerStep-Counted i few lt life (lower_active t e) h = worker_lower_active few h i lt t e
WorkerStep-Counted i few lt life (raise_completed t e) h = worker_raise_completed few h i lt t e
WorkerStep-Counted {n} {m} {p} i few lt life (broadcast e q) h =
    let c = worker_move few h i lt notifying at_pop e (λ r. refl) refl refl in
    record {
      order = c.order;
      each = c.each;
      active = c.active;
      completions = c.completions;
      completed = c.completed;
      settled = c.settled;
      submissions = c.submissions;
      submitted = c.submitted;
      announced = omega (arith, c.announced, how_many-map is_counting m p.client wake same);
    }
  where
    same : (a : Client) → is_counting (wake a) ≡ is_counting a
    same a = ground arith

module _ {n m : ℕ} {p : Pool} (h : Counted n m p) (j : ℕ) (lt : j < m) where
  trade :
      (c c' : Client)
      → p.client j ≡ c
      → how_many is_counting m (assign p.client j c') + tick (is_counting c)
        ≡ how_many is_counting m p.client + tick (is_counting c')
  trade c c' e = how_many-trade is_counting m j p.client c c' lt e

  -- A move that queues nothing and counts nothing.
  client_move :
      (c c' : Client)
      → p.client j ≡ c
      → is_counting c' ≡ is_counting c
      → Counted n m (record p { client = assign p.client j c' })
  client_move c c' e same = record {
    order = h.order;
    each = h.each;
    active = h.active;
    completions = h.completions;
    completed = h.completed;
    settled = h.settled;
    submissions = h.submissions;
    submitted = h.submitted;
    announced = omega (arith, h.announced, trade c c' e, ap tick same);
  }

  client_push_task :
      (t : Task) (f : Fifo)
      → p.client j ≡ pushing t
      → Fifo.push t p.fifo ≡ (accepted, f)
      → Counted n m (record p {
        fifo = f;
        client = assign p.client j (counting t);
        accepted = p.accepted ++ t ∷ [];
      })
  client_push_task t f e q =
      let (up, space, same) = Fifo.push-accepted t p.fifo f q in
      record {
        order =
            ap (λ (l : List Task). l ++ t ∷ []) h.order
            ∙ append_assoc p.taken p.fifo.tasks (t ∷ [])
            ∙ ap (λ (g : Fifo). p.taken ++ g.tasks) (sym same);
        each = h.each;
        active = h.active;
        completions = h.completions;
        completed = h.completed;
        settled = h.settled;
        submissions = h.submissions;
        submitted = h.submitted;
        announced = omega (
          arith,
          h.announced,
          trade (pushing t) (counting t) e,
          length-append p.accepted (t ∷ []),
        );
      }

  client_raise_submitted :
      (t : Task)
      → p.client j ≡ counting t
      → Counted n m (record p {
        submitted_tasks = inc_size p.submitted_tasks;
        client = assign p.client j idle;
      })
  client_raise_submitted t e = record {
    order = h.order;
    each = h.each;
    active = h.active;
    completions = h.completions;
    completed = h.completed;
    settled = h.settled;
    submissions = h.submissions + 1;
    submitted = omega (arith, h.submitted);
    announced = omega (arith, h.announced, trade (counting t) idle e);
  }

ClientStep-Counted :
    {n m : ℕ} {p : Pool} (j : ℕ) {p' : Pool}
    → j < m
    → ClientStep p j p'
    → Counted n m p
    → Counted n m p'
ClientStep-Counted j lt (call_submit t e) h = client_move h j lt idle (submitting t) e refl
ClientStep-Counted j lt (see_running t e q) h = client_move h j lt (submitting t) (pushing t) e refl
ClientStep-Counted j lt (see_stopped t e q) h = client_move h j lt (submitting t) idle e refl
ClientStep-Counted j lt (push_task t {f} e q) h = client_push_task h j lt t f e q
ClientStep-Counted {p} j lt (push_refused t {f} e q) h =
    let (down, same) = Fifo.push-refused t p.fifo f q in
    let c = client_move h j lt (pushing t) idle e refl in
    with_fifo c f (ap (λ (g : Fifo). g.tasks) same)
ClientStep-Counted j lt (raise_submitted t e) h = client_raise_submitted h j lt t e
ClientStep-Counted j lt (call_wait e q) h = client_move h j lt idle waiting e refl
ClientStep-Counted {p} j lt (load_completed e) h =
    client_move h j lt waiting (comparing p.completed_tasks) e refl
ClientStep-Counted j lt (sleep c e q) h = client_move h j lt (comparing c) asleep e refl
ClientStep-Counted j lt (return_zero c e q) h = client_move h j lt (comparing c) done e refl
ClientStep-Counted {p} j lt (load_submitted e) h =
    client_move h j lt waiting (bounding p.submitted_tasks) e refl
ClientStep-Counted j lt (sleep_below s e q) h = client_move h j lt (bounding s) asleep e refl
ClientStep-Counted j lt (return_reached s e q) h = client_move h j lt (bounding s) done e refl
ClientStep-Counted j lt (wake_alone e) h = client_move h j lt asleep woken e refl
ClientStep-Counted j lt (relock e q) h = client_move h j lt woken waiting e refl
ClientStep-Counted j lt (leave_wait e) h = client_move h j lt done idle e refl

DestroyStep-Counted : {n m : ℕ} {p p' : Pool} → DestroyStep n p p' → Counted n m p → Counted n m p'
DestroyStep-Counted (exchange_fails r) h = h
DestroyStep-Counted (exchange r) h = with_state h shutdown stopping
DestroyStep-Counted {p} (shut_queue e) h =
    with_state (with_fifo h (record p.fifo { shutdown = true }) refl) p.state (joining 0)
DestroyStep-Counted {p} (join i e lt gone) h = with_state h p.state (joining (suc i))
DestroyStep-Counted (terminate i e eq) h = with_state h terminated finished

created-Counted : (n m capacity : ℕ) → Counted n m (created capacity)
created-Counted n m capacity = record {
  order = refl;
  each = λ r. omega (arith, how_many-none (carries r) n (λ _. at_pop) (λ i lt. refl));
  active = sym (how_many-none is_active n _ (λ i lt. refl));
  completions = 0;
  completed = refl;
  settled = omega (arith, how_many-none is_uncounted n (λ _. at_pop) (λ i lt. refl));
  submissions = 0;
  submitted = refl;
  announced = omega (arith, how_many-none is_counting m (λ _. idle) (λ i lt. refl));
}

pub Step-Counted :
    {n m : ℕ} {p p' : Pool}
    → n < size_mod
    → Life n p
    → Step n m p p'
    → Counted n m p
    → Counted n m p'
Step-Counted few life (of_worker i lt st) h = WorkerStep-Counted i few lt life st h
Step-Counted few life (of_client j lt st) h = ClientStep-Counted j lt st h
Step-Counted few life (of_destroyer st) h = DestroyStep-Counted st h

pub Reach-Counted :
    {n m capacity : ℕ} {p : Pool} → n < size_mod → Reach n m capacity p → Counted n m p
Reach-Counted {n} {m} {capacity} few begin = created-Counted n m capacity
Reach-Counted few (then_step r st) = Step-Counted few (Reach-Life r) st (Reach-Counted few r)
