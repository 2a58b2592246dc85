-- ===== src/ThreadPool/Settling.antt =====
-- The workers of a pool of src/thread_pool.c run on until no task is queued or carried.
use thread_management_librar.Base.{
  ℕ, zero, suc, ◌+◌, ◌*◌, ◌<◌, ◌≡◌, refl, sym, ◌∙◌, false, List, [], ◌∷◌, ltb, ◌⊎◌, inl, inr, arith,
  Bool-cases, ap, length,
}
use thread_management_librar.Base.Totals.{total, total-trade, total-one, total-find}
use thread_management_librar.Scheduler.Store.{Task}
use thread_management_librar.Scheduler.Fifo
use thread_management_librar.Scheduler.Fifo.{Fifo, took}
use thread_management_librar.ThreadPool.System.{
  Worker, at_pop, popped, starting, executing, returned, retired, notifying, exited, Client, asleep,
  woken, holds_wait_lock, wake, Pool, pop_task, see_alive, raise_active, run_task, lower_active,
  raise_completed, broadcast, WorkerStep, of_worker, Reach, then_step,
}
use thread_management_librar.ThreadPool.Lifecycle.{Reach-Life, popped_not_terminated}
use thread_management_librar.ThreadPool.Progress.{ByWorkers, none_moves, worker_first}

-- How many steps a worker is away from its next pop.
abbrev pub rank : Worker → ℕ
rank exited = 0
rank at_pop = 0
rank notifying = 1
rank (retired t) = 2
rank (returned t) = 3
rank (executing t) = 4
rank (starting t) = 5
rank (popped t) = 6

abbrev pub NoneHolds : Pool → Type 0
NoneHolds p = (j : ℕ) → holds_wait_lock (p.client j) ≡ false

wake-free : (c : Client) → holds_wait_lock c ≡ false → holds_wait_lock (wake c) ≡ false
wake-free c e = ground arith

-- In the wait, without the lock.
abbrev pub InWait : Client → Type 0
InWait c = (c ≡ asleep) ⊎ (c ≡ woken)

InWait-wake : (c : Client) → InWait c → InWait (wake c)
InWait-wake c (inl e) = inr (ap wake e)
InWait-wake c (inr e) = inr (ap wake e)

module _ (n m : ℕ) where
  -- The steps of the workers until nothing is left to do.
  abbrev pub load : Pool → ℕ
  load p = 7 * length p.fifo.tasks + total rank n p.worker

  -- One of these steps, for a client `j` in the wait.
  record Nearer (j : ℕ) (p : Pool) : Type 0 where
    next : Pool
    step : (i : ℕ) × (i < n) × WorkerStep p i next
    less : load next < load p
    free : NoneHolds next
    inside : InWait (next.client j)
    same : next.accepted ≡ p.accepted

  module _ {capacity j : ℕ} {p : Pool} (r : Reach n m capacity p) (free : NoneHolds p)
      (inside : InWait (p.client j)) where
    worker-Nearer : (i : ℕ) → i < n → (w : Worker) → p.worker i ≡ w → 0 < rank w → Nearer j p
    worker-Nearer i lt (popped t) e busy = record {
      next = _;
      step = (i, lt, see_alive t e (popped_not_terminated r i t lt e));
      less = omega (arith, total-trade rank n i p.worker (popped t) (starting t) lt e);
      free = free;
      inside = inside;
      same = refl;
    }
    worker-Nearer i lt (starting t) e busy = record {
      next = _;
      step = (i, lt, raise_active t e);
      less = omega (arith, total-trade rank n i p.worker (starting t) (executing t) lt e);
      free = free;
      inside = inside;
      same = refl;
    }
    worker-Nearer i lt (executing t) e busy = record {
      next = _;
      step = (i, lt, run_task t e);
      less = omega (arith, total-trade rank n i p.worker (executing t) (returned t) lt e);
      free = free;
      inside = inside;
      same = refl;
    }
    worker-Nearer i lt (returned t) e busy = record {
      next = _;
      step = (i, lt, lower_active t e);
      less = omega (arith, total-trade rank n i p.worker (returned t) (retired t) lt e);
      free = free;
      inside = inside;
      same = refl;
    }
    worker-Nearer i lt (retired t) e busy = record {
      next = _;
      step = (i, lt, raise_completed t e);
      less = omega (arith, total-trade rank n i p.worker (retired t) notifying lt e);
      free = free;
      inside = inside;
      same = refl;
    }
    worker-Nearer i lt notifying e busy = record {
      next = _;
      step = (i, lt, broadcast e free);
      less = omega (arith, total-trade rank n i p.worker notifying at_pop lt e);
      free = λ k. wake-free (p.client k) (free k);
      inside = InWait-wake (p.client j) inside;
      same = refl;
    }
    worker-Nearer i lt at_pop e busy = absurd (omega arith)
    worker-Nearer i lt exited e busy = absurd (omega arith)

    -- With a task in the queue, worker 0 has not left.
    pop-Nearer :
        0 < n
        → (t : Task) (ts : List Task) → p.fifo.tasks ≡ t ∷ ts
        → (w : Worker) → p.worker 0 ≡ w
        → rank w ≡ 0
        → Nearer j p
    unfolding Fifo.pop
    pop-Nearer some_worker t ts some_left at_pop e idle = record {
      next = _;
      step = (0, some_worker, pop_task {t = t} {f = record p.fifo { tasks = ts }} e (rw some_left));
      less = omega (
        arith,
        total-trade rank n 0 p.worker at_pop (popped t) some_worker e,
        ap length some_left,
      );
      free = free;
      inside = inside;
      same = refl;
    }
    pop-Nearer some_worker t ts some_left exited e idle =
        let (_, empty) = (Reach-Life r).drained 0 e in
        absurd (omega (arith, ap length (sym some_left ∙ empty)))
    pop-Nearer some_worker t ts some_left (popped u) e idle = absurd (omega arith)
    pop-Nearer some_worker t ts some_left (starting u) e idle = absurd (omega arith)
    pop-Nearer some_worker t ts some_left (executing u) e idle = absurd (omega arith)
    pop-Nearer some_worker t ts some_left (returned u) e idle = absurd (omega arith)
    pop-Nearer some_worker t ts some_left (retired u) e idle = absurd (omega arith)
    pop-Nearer some_worker t ts some_left notifying e idle = absurd (omega arith)

    nearer : 0 < n → 0 < load p → Nearer j p
    nearer some_worker some_load = elim (Bool-cases (ltb 0 (total rank n p.worker))) [
      | inl busy ↦
          let (i, lt, here) = total-find rank n p.worker (ground arith) in
          worker-Nearer i lt (p.worker i) refl here
      | inr idle ↦
          let none_busy : total rank n p.worker ≡ 0 = ground arith in
          from_queue p.fifo.tasks refl none_busy
    ]
      where
        from_queue : (ts : List Task) → p.fifo.tasks ≡ ts → total rank n p.worker ≡ 0 → Nearer j p
        from_queue [] e none_busy = absurd (omega (arith, ap length e))
        from_queue (t ∷ ts) e none_busy =
            pop-Nearer some_worker t ts e (p.worker 0) refl
              (omega (arith, none_busy, total-one rank n 0 p.worker some_worker))

  -- Where nothing is left to do.
  pub record Settled (capacity j : ℕ) (p : Pool) : Type 0 where
    pub last : Pool
    pub reach : Reach n m capacity last
    pub run : ByWorkers n p last
    pub free : NoneHolds last
    pub inside : InWait (last.client j)
    pub idle : load last ≡ 0
    pub same : last.accepted ≡ p.accepted

  pub settle :
      {capacity : ℕ} (rounds j : ℕ) {p : Pool}
      → 0 < n
      → Reach n m capacity p
      → NoneHolds p
      → InWait (p.client j)
      → load p < rounds
      → Settled capacity j p
  settle zero j some_worker r free inside bound = absurd (omega arith)
  settle (suc rounds) j {p} some_worker r free inside bound = elim (Bool-cases (ltb 0 (load p))) [
    | inl some_load ↦
        let near = nearer r free inside some_worker (ground arith) in
        let less = near.less in
        let (i, lt, st) = near.step in
        let rest =
          settle rounds j some_worker (then_step r (of_worker i lt st)) near.free near.inside
            (omega arith) in
        record {
          last = rest.last;
          reach = rest.reach;
          run = worker_first i lt st rest.run;
          free = rest.free;
          inside = rest.inside;
          idle = rest.idle;
          same = rest.same ∙ near.same;
        }
    | inr no_load ↦ record {
      last = p;
      reach = r;
      run = none_moves;
      free = free;
      inside = inside;
      idle = ground arith;
      same = refl;
    }
  ]
