-- ===== src/Demos/Visual/Counts.antt =====
-- The counters of demo 1 of examples/visual_demo.c.
use thread_management_librar.Base.{
  ℕ, ◌+◌, ◌%◌, ◌^◌, ◌<◌, ◌≡◌, refl, ap, Bool, true, false, ◌==◌, Bool-cases, ◌⊎◌, inl, inr, arith,
}
use native.Mathlib.Nat.{mod-lt}
use thread_management_librar.Base.Threads.{assign, tick, how_many, how_many-trade, how_many-le}
use thread_management_librar.Demos.Visual.{
  inc_int, dec_int, Pc, not_submitted, announced, queued, assigned, marked, working, unmarked,
  finished, Display,
}

-- A task that `queue_size` counts.
abbrev pub is_open : Pc → Bool
is_open announced = true
is_open queued = true
is_open (assigned w) = true
is_open (marked w) = true
is_open _ = false

abbrev pub is_finished : Pc → Bool
is_finished finished = true
is_finished _ = false

-- It has marked worker `w` as busy, and not yet as idle.
abbrev pub works_as : (w : ℕ) → Pc → Bool
works_as w (marked v) = v == w
works_as w (working v) = v == w
works_as w _ = false

-- Its worker is one of the pool's.
abbrev pub InRange : (workers : ℕ) → Pc → Type 0
InRange workers (assigned w) = w < workers
InRange workers (marked w) = w < workers
InRange workers (working w) = w < workers
InRange workers _ = 0 < workers

module _ (workers n : ℕ) where
  pub record Counted (s : Display) : Type 0 where
    pub open_tasks : s.g_state.queue_size ≡ how_many is_open n s.pc
    pub completed : s.g_state.tasks_completed ≡ how_many is_finished n s.pc
    pub same_workers : s.g_state.num_workers ≡ workers
    pub in_range : (t : ℕ) → t < n → InRange workers (s.pc t)
    -- a worker that is marked as busy has a task
    pub busy : (w : ℕ) → (s.g_state.worker_states w ≡ 0) ⊎ (0 < how_many (works_as w) n s.pc)

  module _ (few : n < 2 ^ 31) {s : Display} (h : Counted s) (t : ℕ) (lt : t < n) where
    trade :
        (test : Pc → Bool) {p : Pc} (p' : Pc)
        → s.pc t ≡ p
        → how_many test n (assign s.pc t p') + tick (test p) ≡ how_many test n s.pc + tick (test p')
    trade test {p} p' e = how_many-trade test n t s.pc p p' lt e

    range_kept :
        (p' : Pc) → InRange workers p' → (u : ℕ) → u < n → InRange workers (assign s.pc t p' u)
    range_kept p' inside u lu = elim (Bool-cases (u == t)) [
      | inl e ↦ rw e inside
      | inr e ↦ rw e (h.in_range u lu)
    ]

    -- A move that marks no worker as idle keeps each busy worker's task.
    busy_kept :
        {p : Pc} (p' : Pc)
        → s.pc t ≡ p
        → ((w : ℕ) → works_as w p ≡ true → works_as w p' ≡ true)
        → (w : ℕ)
        → (s.g_state.worker_states w ≡ 0) ⊎ (0 < how_many (works_as w) n (assign s.pc t p'))
    busy_kept p' e keeps w = elim (h.busy w) [
      | inl idle ↦ inl idle
      | inr some_task ↦ inr (ground (arith, trade (works_as w) p' e, keeps w))
    ]

    -- A move that changes no part of the displayed state but possibly the number of the next worker.
    pub same_shown :
        {p : Pc} (p' : Pc) (next next_task : ℕ)
        → s.pc t ≡ p
        → is_open p' ≡ is_open p
        → is_finished p' ≡ is_finished p
        → InRange workers p'
        → ((w : ℕ) → works_as w p ≡ true → works_as w p' ≡ true)
        → Counted (record s {
          g_state = record s.g_state { worker_id_counter = next };
          next_task = next_task;
          pc = assign s.pc t p';
        })
    same_shown p' next next_task e opens ends inside keeps = record {
      open_tasks = omega (arith, h.open_tasks, trade is_open p' e, ap tick opens);
      completed = omega (arith, h.completed, trade is_finished p' e, ap tick ends);
      same_workers = h.same_workers;
      in_range = range_kept p' inside;
      busy = busy_kept p' e keeps;
    }

    pub some_worker : (p : Pc) → InRange workers p → 0 < workers
    some_worker p inside = ground arith

    pub announce-Counted :
        s.pc t ≡ not_submitted
        → Counted (record s {
          g_state = record s.g_state { queue_size = inc_int s.g_state.queue_size };
          pc = assign s.pc t announced;
        })
    announce-Counted e = record {
      open_tasks = omega (
        arith,
        h.open_tasks,
        trade is_open announced e,
        how_many-le is_open n (assign s.pc t announced),
      );
      completed = omega (arith, h.completed, trade is_finished announced e);
      same_workers = h.same_workers;
      in_range = range_kept announced (some_worker (s.pc t) (h.in_range t lt));
      busy = busy_kept announced e (λ w no. absurd (ground arith));
    }

    pub take_worker-Counted :
        s.pc t ≡ queued
        → Counted (record s {
          g_state = record s.g_state { worker_id_counter = inc_int s.g_state.worker_id_counter };
          pc = assign s.pc t (assigned (s.g_state.worker_id_counter % s.g_state.num_workers));
        })
    take_worker-Counted e =
        same_shown _ _ s.next_task e refl refl
          (rw h.same_workers
            (mod-lt s.g_state.worker_id_counter (some_worker (s.pc t) (h.in_range t lt))))
          (λ w no. absurd (ground arith))

    pub mark_busy-Counted :
        (w : ℕ)
        → s.pc t ≡ assigned w
        → Counted (record s {
          g_state = record s.g_state { worker_states = assign s.g_state.worker_states w 1 };
          pc = assign s.pc t (marked w);
        })
    mark_busy-Counted w e = record {
      open_tasks = omega (arith, h.open_tasks, trade is_open (marked w) e);
      completed = omega (arith, h.completed, trade is_finished (marked w) e);
      same_workers = h.same_workers;
      in_range = range_kept (marked w) (rw e at (h.in_range t lt));
      busy = λ v. elim (Bool-cases (v == w)) [
        | inl here ↦ inr (ground (arith, trade (works_as v) (marked w) e, here))
        | inr other ↦ rw other (busy_kept (marked w) e (λ u no. absurd (ground arith)) v)
      ];
    }

    pub lower_queue-Counted :
        (w : ℕ)
        → s.pc t ≡ marked w
        → Counted (record s {
          g_state = record s.g_state { queue_size = dec_int s.g_state.queue_size };
          pc = assign s.pc t (working w);
        })
    lower_queue-Counted w e = record {
      open_tasks =
          omega (arith, h.open_tasks, trade is_open (working w) e, how_many-le is_open n s.pc);
      completed = omega (arith, h.completed, trade is_finished (working w) e);
      same_workers = h.same_workers;
      in_range = range_kept (working w) (rw e at (h.in_range t lt));
      busy = busy_kept (working w) e (λ u same. same);
    }

    pub mark_idle-Counted :
        (w : ℕ)
        → s.pc t ≡ working w
        → Counted (record s {
          g_state = record s.g_state { worker_states = assign s.g_state.worker_states w 0 };
          pc = assign s.pc t unmarked;
        })
    mark_idle-Counted w e = record {
      open_tasks = omega (arith, h.open_tasks, trade is_open unmarked e);
      completed = omega (arith, h.completed, trade is_finished unmarked e);
      same_workers = h.same_workers;
      in_range = range_kept unmarked (some_worker (s.pc t) (h.in_range t lt));
      busy = λ v. elim (Bool-cases (v == w)) [
        | inl here ↦ inl (rw here refl)
        | inr other ↦ elim (h.busy v) [
          | inl idle ↦ inl (rw other idle)
          | inr some_task ↦ inr (ground (arith, trade (works_as v) unmarked e))
        ]
      ];
    }

    pub complete-Counted :
        s.pc t ≡ unmarked
        → Counted (record s {
          g_state = record s.g_state { tasks_completed = inc_int s.g_state.tasks_completed };
          pc = assign s.pc t finished;
        })
    complete-Counted e = record {
      open_tasks = omega (arith, h.open_tasks, trade is_open finished e);
      completed = omega (
        arith,
        h.completed,
        trade is_finished finished e,
        how_many-le is_finished n (assign s.pc t finished),
      );
      same_workers = h.same_workers;
      in_range = range_kept finished (some_worker (s.pc t) (h.in_range t lt));
      busy = busy_kept finished e (λ w no. absurd (ground arith));
    }
