-- ===== src/ThreadPool/Counts.antt =====
-- What becomes of the tasks of a pool of src/thread_pool.c, and what its three counters count.
use thread_management_librar.Base.{
  ℕ, ◌+◌, ◌%◌, ◌<◌, ◌≡◌, Bool, true, false, List, [], ◌∷◌, ◌++◌, arith, ap, sym, ◌∙◌, inc_size,
  dec_size, size_mod, length, length-append,
}
use mathlib.Core.List.{append_assoc}
use thread_management_librar.Base.Threads.{assign, tick, how_many, how_many-trade, how_many-le}
use thread_management_librar.Scheduler.Store.{Task}
use thread_management_librar.Scheduler.Fifo
use thread_management_librar.Scheduler.Fifo.{Fifo, accepted, refused, took, closed}
use thread_management_librar.ThreadPool.System.{
  Worker, at_pop, popped, starting, executing, returned, retired, notifying, Client, counting, Pool,
}

-- How many tasks of a list pass a test.
abbrev pub count_of : (Task → Bool) → List Task → ℕ
count_of q [] = 0
count_of q (t ∷ ts) = tick (q t) + count_of q ts

pub count_of-append :
    (q : Task → Bool) (ts us : List Task) → count_of q (ts ++ us) ≡ count_of q ts + count_of q us
count_of-append q [] us = omega arith
count_of-append q (t ∷ ts) us = omega (arith, count_of-append q ts us)

-- A worker between its pop and the return of the task's function, with a task that passes a test.
abbrev pub carries : (Task → Bool) → Worker → Bool
carries q (popped t) = q t
carries q (starting t) = q t
carries q (executing t) = q t
carries q _ = false

-- A worker that `active_tasks` counts.
abbrev pub is_active : Worker → Bool
is_active (executing t) = true
is_active (returned t) = true
is_active _ = false

-- A worker whose task is done, and not yet counted in `completed_tasks`.
abbrev pub is_uncounted : Worker → Bool
is_uncounted (returned t) = true
is_uncounted (retired t) = true
is_uncounted _ = false

-- A client whose task is queued, and not yet counted in `submitted_tasks`.
abbrev pub is_counting : Client → Bool
is_counting (counting t) = true
is_counting _ = false

pub record Counted (n m : ℕ) (p : Pool) : Type 0 where
  -- tasks are taken in the order in which they were accepted, each once
  pub order : p.accepted ≡ p.taken ++ p.fifo.tasks
  -- a task that was taken has been executed, or one worker carries it
  pub each :
      (q : Task → Bool)
      → count_of q p.taken ≡ count_of q p.executed + how_many (carries q) n p.worker
  pub active : p.active_tasks ≡ how_many is_active n p.worker
  pub completions : ℕ
  pub completed : p.completed_tasks ≡ completions % size_mod
  pub settled : completions + how_many is_uncounted n p.worker ≡ length p.executed
  pub submissions : ℕ
  pub submitted : p.submitted_tasks ≡ submissions % size_mod
  pub announced : submissions + how_many is_counting m p.client ≡ length p.accepted

module _ {n m : ℕ} (few : n < size_mod) {p : Pool} (h : Counted n m p) (i : ℕ) (lt : i < n) where
  trade :
      (test : Worker → Bool) (w w' : Worker)
      → p.worker i ≡ w
      → how_many test n (assign p.worker i w') + tick (test w)
        ≡ how_many test n p.worker + tick (test w')
  trade test w w' e = how_many-trade test n i p.worker w w' lt e

  pub worker_pop_task :
      (t : Task) (f : Fifo)
      → p.worker i ≡ at_pop
      → Fifo.pop p.fifo ≡ (took t, f)
      → Counted n m
          (record p { fifo = f; worker = assign p.worker i (popped t); taken = p.taken ++ t ∷ [] })
  worker_pop_task t f e q =
      let (rest, some_task, same) = Fifo.pop-took t p.fifo f q in
      record {
        order =
            h.order
            ∙ ap (λ (l : List Task). p.taken ++ l) some_task
            ∙ sym (append_assoc p.taken (t ∷ []) rest)
            ∙ ap (λ (g : Fifo). (p.taken ++ t ∷ []) ++ g.tasks) (sym same);
        each = λ r. omega (
          arith,
          h.each r,
          count_of-append r p.taken (t ∷ []),
          trade (carries r) at_pop (popped t) e,
        );
        active = omega (arith, h.active, trade is_active at_pop (popped t) e);
        completions = h.completions;
        completed = h.completed;
        settled = omega (arith, h.settled, trade is_uncounted at_pop (popped t) e);
        submissions = h.submissions;
        submitted = h.submitted;
        announced = h.announced;
      }

  -- A move that pops nothing and ends no task.
  pub worker_move :
      (w w' : Worker)
      → p.worker i ≡ w
      → ((r : Task → Bool) → carries r w' ≡ carries r w)
      → (is_active w' ≡ is_active w)
      → (is_uncounted w' ≡ is_uncounted w)
      → Counted n m (record p { worker = assign p.worker i w' })
  worker_move w w' e same act unc = record {
    order = h.order;
    each = λ r. omega (arith, h.each r, trade (carries r) w w' e, ap tick (same r));
    active = omega (arith, h.active, trade is_active w w' e, ap tick act);
    completions = h.completions;
    completed = h.completed;
    settled = omega (arith, h.settled, trade is_uncounted w w' e, ap tick unc);
    submissions = h.submissions;
    submitted = h.submitted;
    announced = h.announced;
  }

  pub worker_raise_active :
      (t : Task)
      → p.worker i ≡ starting t
      → Counted n m (record p {
        active_tasks = inc_size p.active_tasks;
        worker = assign p.worker i (executing t);
      })
  worker_raise_active t e = record {
    order = h.order;
    each = λ r. omega (arith, h.each r, trade (carries r) (starting t) (executing t) e);
    active = omega (
      arith,
      h.active,
      trade is_active (starting t) (executing t) e,
      how_many-le is_active n (assign p.worker i (executing t)),
    );
    completions = h.completions;
    completed = h.completed;
    settled = omega (arith, h.settled, trade is_uncounted (starting t) (executing t) e);
    submissions = h.submissions;
    submitted = h.submitted;
    announced = h.announced;
  }

  pub worker_run_task :
      (t : Task)
      → p.worker i ≡ executing t
      → Counted n m
          (record p { worker = assign p.worker i (returned t); executed = p.executed ++ t ∷ [] })
  worker_run_task t e = record {
    order = h.order;
    each = λ r. omega (
      arith,
      h.each r,
      trade (carries r) (executing t) (returned t) e,
      count_of-append r p.executed (t ∷ []),
    );
    active = omega (arith, h.active, trade is_active (executing t) (returned t) e);
    completions = h.completions;
    completed = h.completed;
    settled = omega (
      arith,
      h.settled,
      trade is_uncounted (executing t) (returned t) e,
      length-append p.executed (t ∷ []),
    );
    submissions = h.submissions;
    submitted = h.submitted;
    announced = h.announced;
  }

  pub worker_lower_active :
      (t : Task)
      → p.worker i ≡ returned t
      → Counted n m (record p {
        active_tasks = dec_size p.active_tasks;
        worker = assign p.worker i (retired t);
      })
  worker_lower_active t e = record {
    order = h.order;
    each = λ r. omega (arith, h.each r, trade (carries r) (returned t) (retired t) e);
    active = omega (
      arith,
      h.active,
      trade is_active (returned t) (retired t) e,
      how_many-le is_active n p.worker,
    );
    completions = h.completions;
    completed = h.completed;
    settled = omega (arith, h.settled, trade is_uncounted (returned t) (retired t) e);
    submissions = h.submissions;
    submitted = h.submitted;
    announced = h.announced;
  }

  pub worker_raise_completed :
      (t : Task)
      → p.worker i ≡ retired t
      → Counted n m (record p {
        completed_tasks = inc_size p.completed_tasks;
        worker = assign p.worker i notifying;
      })
  worker_raise_completed t e = record {
    order = h.order;
    each = λ r. omega (arith, h.each r, trade (carries r) (retired t) notifying e);
    active = omega (arith, h.active, trade is_active (retired t) notifying e);
    completions = h.completions + 1;
    completed = omega (arith, h.completed);
    settled = omega (arith, h.settled, trade is_uncounted (retired t) notifying e);
    submissions = h.submissions;
    submitted = h.submitted;
    announced = h.announced;
  }
