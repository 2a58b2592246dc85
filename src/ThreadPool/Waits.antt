-- ===== src/ThreadPool/Waits.antt =====
-- What clients in `thread_pool_wait` of src/thread_pool.c know, as long as fewer than 2 ^ 64 tasks were
-- submitted, so that no counter wraps around.
use thread_management_librar.Base.{
  ℕ, ◌+◌, ◌≤◌, ◌<◌, ◌≡◌, refl, Bool, true, false, List, [], ◌∷◌, ◌⊎◌, inl, inr, arith, ap, sym, ◌∙◌,
  length, length-append,
}
use thread_management_librar.Base.Threads.{assign, tick, how_many, how_many-trade}
use thread_management_librar.Scheduler.Store.{Task}
use thread_management_librar.ThreadPool.System.{
  Worker, notifying, Client, comparing, bounding, asleep, Pool,
}
use thread_management_librar.ThreadPool.Counts.{carries, count_of, Counted}

abbrev pub is_notifying : Worker → Bool
is_notifying notifying = true
is_notifying _ = false

-- Some worker has raised `completed_tasks` and has not yet broadcast.
abbrev pub Notifying : ℕ → Pool → Type 0
Notifying n p = 0 < how_many is_notifying n p.worker

pub record Waits (n : ℕ) (p : Pool) : Type 0 where
  -- a value that was loaded is current, or a broadcast is coming
  pub loaded :
      (j c : ℕ)
      → p.client j ≡ comparing c
      → (c ≤ p.completed_tasks) × ((c ≡ p.completed_tasks) ⊎ Notifying n p)
  pub bounded : (j s : ℕ) → p.client j ≡ bounding s → s ≤ p.submitted_tasks
  -- a client sleeps only while a task is not completed, or a broadcast is coming
  pub sleepers :
      (j : ℕ) → p.client j ≡ asleep → (p.completed_tasks < p.submitted_tasks) ⊎ Notifying n p

count_all : (ts : List Task) → count_of (λ _. true) ts ≡ length ts
count_all [] = refl
count_all (t ∷ ts) = omega (arith, count_all ts)

-- No more tasks are executed than were accepted.
pub executed-le :
    {n m : ℕ} {p : Pool}
    → Counted n m p
    → length p.executed + how_many (carries (λ _. true)) n p.worker + length p.fifo.tasks
      ≡ length p.accepted
executed-le {p} h = omega (
  arith,
  h.each (λ _. true),
  count_all p.taken,
  count_all p.executed,
  ap length h.order,
  length-append p.taken p.fifo.tasks,
)

-- A step that leaves the completed tasks, the broadcasts to come and the waiting clients as they are.
pub Waits-same :
    {n : ℕ} (p p' : Pool)
    → p'.completed_tasks ≡ p.completed_tasks
    → p.submitted_tasks ≤ p'.submitted_tasks
    → how_many is_notifying n p'.worker ≡ how_many is_notifying n p.worker
    → ((j c : ℕ) → p'.client j ≡ comparing c → p.client j ≡ comparing c)
    → ((j s : ℕ) → p'.client j ≡ bounding s → p.client j ≡ bounding s)
    → ((j : ℕ) → p'.client j ≡ asleep → p.client j ≡ asleep)
    → Waits n p
    → Waits n p'
Waits-same p p' a b c d b' e h = record {
  loaded = λ j k eq.
      let (le, now) = h.loaded j k (d j k eq) in
      (
        omega arith,
        elim now [ inl same ↦ inl (omega arith) | inr some_worker ↦ inr (omega arith) ],
      );
  bounded = λ j s eq. omega (arith, h.bounded j s (b' j s eq));
  sleepers = λ j eq. elim (h.sleepers j (e j eq)) [
    | inl open_task ↦ inl (omega arith)
    | inr some_worker ↦ inr (omega arith)
  ];
}

module _ {n : ℕ} {p : Pool} (h : Waits n p) (i : ℕ) (lt : i < n) where
  -- A worker moves on, and does not broadcast.
  pub worker_same :
      (w w' : Worker) (p' : Pool)
      → p.worker i ≡ w
      → is_notifying w ≡ false
      → is_notifying w' ≡ false
      → p'.worker ≡ assign p.worker i w'
      → p'.completed_tasks ≡ p.completed_tasks
      → p'.submitted_tasks ≡ p.submitted_tasks
      → p'.client ≡ p.client
      → Waits n p'
  worker_same w w' p' e calm calm' moved a b c =
      Waits-same p p' a (omega arith)
        (ap (how_many is_notifying n) moved
          ∙ omega (
            arith,
            how_many-trade is_notifying n i p.worker w w' lt e,
            ap tick calm,
            ap tick calm',
          ))
        (λ j k eq. ap (λ (f : ℕ → Client). f j) (sym c) ∙ eq)
        (λ j s eq. ap (λ (f : ℕ → Client). f j) (sym c) ∙ eq)
        (λ j eq. ap (λ (f : ℕ → Client). f j) (sym c) ∙ eq) h
