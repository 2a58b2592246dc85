-- ===== src/Scheduler/Monitor/Invariant.antt =====
-- What holds in every reachable state of the threads at the task queue.
use thread_management_librar.Base.{
  ℕ, ◌+◌, ◌≤◌, ◌<◌, ◌≡◌, refl, true, false, ◌⊎◌, inl, inr, arith, List, [], ◌∷◌, ◌++◌, ap, sym, ◌∙◌,
  length, length-append,
}
use mathlib.Core.List.{append_assoc}
use thread_management_librar.Base.Threads.{how_many-none}
use thread_management_librar.Scheduler.Store.{Task}
use thread_management_librar.Scheduler.Fifo
use thread_management_librar.Scheduler.Fifo.{Fifo, accepted, refused, full, took, closed, empty}
use thread_management_librar.Scheduler.Monitor.{
  Pc, idle, ready_push, asleep_push, ready_pop, asleep_pop, rouse, is_asleep_push, may_take, System,
  Step, begin, then_step, Reach, Room, bounded, unbounded, call_push, call_pop, push_in, push_sleep,
  push_refused, pop_out, pop_sleep, pop_closed, wake_up, shut, start,
}
use thread_management_librar.Scheduler.Monitor.Tally.{
  Tally, tally, Traded, assign-Traded, PopRoused, Woken-PopRoused, Woken-PushRoused,
  rouse-asleep_pops, rouse-asleep_pushes,
}

pub record Holds (f : Fifo) (t : Tally) (pushed popped : List Task) : Type 0 where
  -- the bound of the queue
  pub bounded : 0 < f.capacity → length f.tasks ≤ f.capacity
  -- first in, first out: nothing is lost, doubled or overtaken
  pub history : pushed ≡ popped ++ f.tasks
  -- a consumer sleeps only if a ready one is there for each queued task
  pub consumers : f.shutdown ≡ false → 0 < t.asleep_pops → length f.tasks ≤ t.ready_pops
  -- a producer sleeps only if a ready one is there for each free place
  pub producers :
      f.shutdown ≡ false → 0 < t.asleep_pushes → f.capacity ≤ length f.tasks + t.ready_pushes
  -- after the shutdown nobody sleeps
  pub closed : f.shutdown ≡ true → (t.asleep_pops ≡ 0) × (t.asleep_pushes ≡ 0)

abbrev pub Inv : ℕ → System → Type 0
Inv n s = Holds s.fifo (tally n s.pc) s.pushed s.popped

-- A task is taken by a ready consumer or by an idle thread, and a sleeping producer is signalled if
-- the queue is bounded.
record Eased (capacity : ℕ) (a c : Tally) : Type 0 where
  asleep_pops : c.asleep_pops ≡ a.asleep_pops
  ready_pops : a.ready_pops ≤ c.ready_pops + 1
  pushes :
      ((c.asleep_pushes ≡ 0) × (a.asleep_pushes ≡ 0))
      ⊎ ((c.asleep_pushes + 1 ≡ a.asleep_pushes) × (c.ready_pushes ≡ a.ready_pushes + 1))
      ⊎ ((capacity ≡ 0) × (c.asleep_pushes ≡ a.asleep_pushes))

-- The taker on its own.
record Took (a b : Tally) : Type 0 where
  asleep_pops : b.asleep_pops ≡ a.asleep_pops
  ready_pops : a.ready_pops ≤ b.ready_pops + 1
  asleep_pushes : b.asleep_pushes ≡ a.asleep_pushes
  ready_pushes : b.ready_pushes ≡ a.ready_pushes

may_take-Took : (p : Pc) (a b : Tally) → may_take p ≡ true → Traded p idle a b → Took a b
may_take-Took idle a b may t =
    omega (arith, t.asleep_pops, t.ready_pops, t.asleep_pushes, t.ready_pushes)
may_take-Took ready_pop a b may t =
    omega (arith, t.asleep_pops, t.ready_pops, t.asleep_pushes, t.ready_pushes)
may_take-Took asleep_pop a b may t = cc
may_take-Took (ready_push u) a b may t = cc
may_take-Took (asleep_push u) a b may t = cc

Room-Eased :
    {n capacity : ℕ} {pc pc' : ℕ → Pc} (a : Tally)
    → Room n capacity pc pc'
    → Took a (tally n pc)
    → Eased capacity a (tally n pc')
Room-Eased a (bounded pos woken) left =
    let r = Woken-PushRoused woken in
    record {
      asleep_pops = omega arith;
      ready_pops = omega arith;
      pushes = elim r.pushes [
        | inl (x, y, z) ↦ inl (omega arith, omega arith)
        | inr (x, y) ↦ inr (inl (omega arith, omega arith))
      ];
    }
Room-Eased a (unbounded free) left = record {
  asleep_pops = left.asleep_pops;
  ready_pops = left.ready_pops;
  pushes = inr (inr (free, left.asleep_pushes));
}

module _ {f : Fifo} {a : Tally} {pushed popped : List Task} (h : Holds f a pushed popped) where
  -- More threads that are ready, and no more that sleep.
  Holds-mono :
      (b : Tally)
      → b.asleep_pops ≤ a.asleep_pops
      → a.ready_pops ≤ b.ready_pops
      → b.asleep_pushes ≤ a.asleep_pushes
      → a.ready_pushes ≤ b.ready_pushes
      → Holds f b pushed popped
  Holds-mono b p q r s = record {
    bounded = h.bounded;
    history = h.history;
    consumers = λ up some_asleep. omega (arith, h.consumers up (omega arith));
    producers = λ up some_asleep. omega (arith, h.producers up (omega arith));
    closed = λ down. let (x, y) = h.closed down in (omega arith, omega arith);
  }

  -- A ready producer finishes its push.
  Holds-push :
      (t : Task) (b c : Tally) {g : Fifo}
      → Fifo.push t f ≡ (accepted, g)
      → Traded (ready_push t) idle a b
      → PopRoused b c
      → Holds g c (pushed ++ t ∷ []) popped
  Holds-push t b c e trade roused =
      let (up, space, same) = Fifo.push-accepted t f _ e in
      rw same (record {
        bounded = λ pos. ground (arith, length-append f.tasks (t ∷ []));
        history =
            ap (λ (l : List Task). l ++ t ∷ []) h.history ∙ append_assoc popped f.tasks (t ∷ []);
        consumers = λ u some_asleep. elim roused.pops [
          | inl (x, y, z) ↦ absurd (omega arith)
          | inr (x, y) ↦ omega (arith, length-append f.tasks (t ∷ []), h.consumers up (omega arith))
        ];
        producers = λ u some_asleep.
            omega (arith, length-append f.tasks (t ∷ []), h.producers up (omega arith));
        closed = λ down. cc;
      })

  -- A ready producer finds the queue full.
  Holds-push_sleep :
      (t : Task) (b : Tally) {g : Fifo}
      → Fifo.push t f ≡ (full, g)
      → Traded (ready_push t) (asleep_push t) a b
      → Holds g b pushed popped
  Holds-push_sleep t b e trade =
      let (up, no_space, same) = Fifo.push-full t f _ e in
      rw same (record {
        bounded = h.bounded;
        history = h.history;
        consumers = λ u some_asleep. omega (arith, h.consumers up (omega arith));
        producers = λ u some_asleep. ground arith;
        closed = λ down. cc;
      })

  -- A task leaves the queue.
  Holds-pop :
      (t : Task) (c : Tally) {g : Fifo}
      → Fifo.pop f ≡ (took t, g)
      → Eased f.capacity a c
      → Holds g c pushed (popped ++ t ∷ [])
  Holds-pop t c e eased =
      let (rest, eq, same) = Fifo.pop-took t f _ e in
      let shorter = ap length eq in
      rw same (record {
        bounded = λ pos. omega (arith, shorter, h.bounded pos);
        history =
            h.history
            ∙ ap (λ (l : List Task). popped ++ l) eq
            ∙ sym (append_assoc popped (t ∷ []) rest);
        consumers = λ up some_asleep. omega (arith, shorter, h.consumers up (omega arith));
        producers = λ up some_asleep. elim eased.pushes [
          | inl zero ↦ absurd (omega arith)
          | inr (inl woken) ↦ omega (arith, shorter, h.producers up (omega arith))
          | inr (inr free) ↦ omega arith
        ];
        closed = λ down. let (x, y) = h.closed down in (omega arith, omega arith);
      })

  -- A consumer finds nothing.
  Holds-pop_sleep :
      (b : Tally) {g : Fifo}
      → Fifo.pop f ≡ (empty, g)
      → Traded ready_pop asleep_pop a b
      → Holds g b pushed popped
  Holds-pop_sleep b e trade =
      let (nothing, up, same) = Fifo.pop-empty f _ e in
      rw same (record {
        bounded = h.bounded;
        history = h.history;
        consumers = λ u some_asleep. omega (arith, ap length nothing);
        producers = λ u some_asleep. omega (arith, h.producers up (omega arith));
        closed = λ down. cc;
      })

  -- A thread leaves a queue that is shut down.
  Holds-leave :
      (p : Pc) (b : Tally) → f.shutdown ≡ true → Traded p idle a b → Holds f b pushed popped
  Holds-leave p b down trade = record {
    bounded = h.bounded;
    history = h.history;
    consumers = λ up. cc;
    producers = λ up. cc;
    closed = λ d. let (x, y) = h.closed down in (omega arith, omega arith);
  }

rouse_mono :
    (p : Pc) (a b : Tally)
    → Traded p (rouse p) a b
    → (b.asleep_pops ≤ a.asleep_pops)
      × (a.ready_pops ≤ b.ready_pops)
      × (b.asleep_pushes ≤ a.asleep_pushes)
      × (a.ready_pushes ≤ b.ready_pushes)
rouse_mono p a b t = ground arith

-- Every step keeps the invariant.
pub Step-Inv : {n : ℕ} {s s' : System} → Step n s s' → Inv n s → Inv n s'
Step-Inv {n} {s} (call_push i t lt e) h =
    let trade = rw e at (assign-Traded n i s.pc (ready_push t) lt) in
    Holds-mono h _ (omega arith) (omega arith) (omega arith) (omega arith)
Step-Inv {n} {s} (call_pop i lt e) h =
    let trade = rw e at (assign-Traded n i s.pc ready_pop lt) in
    Holds-mono h _ (omega arith) (omega arith) (omega arith) (omega arith)
Step-Inv {n} {s} (push_in i t lt e p w) h =
    Holds-push h t _ _ p (rw e at (assign-Traded n i s.pc idle lt)) (Woken-PopRoused w)
Step-Inv {n} {s} (push_sleep i t lt e p) h =
    Holds-push_sleep h t _ p (rw e at (assign-Traded n i s.pc (asleep_push t) lt))
Step-Inv {n} {s} (push_refused i t lt e p) h =
    let (down, same) = Fifo.push-refused t s.fifo _ p in
    rw same (Holds-leave h _ _ down (assign-Traded n i s.pc idle lt))
Step-Inv {n} {s} (pop_out i lt may p room) h =
    let trade = assign-Traded n i s.pc idle lt in
    Holds-pop h _ _ p (Room-Eased _ room (may_take-Took _ _ _ may trade))
Step-Inv {n} {s} (pop_sleep i lt e p) h =
    Holds-pop_sleep h _ p (rw e at (assign-Traded n i s.pc asleep_pop lt))
Step-Inv {n} {s} (pop_closed i lt e p) h =
    let (_, down, same) = Fifo.pop-closed s.fifo _ p in
    rw same (Holds-leave h _ _ down (assign-Traded n i s.pc idle lt))
Step-Inv {n} {s} (wake_up i lt) h =
    let (x, y, z, w) = rouse_mono (s.pc i) _ _ (assign-Traded n i s.pc _ lt) in
    Holds-mono h _ x y z w
Step-Inv {n} {s} shut h = record {
  bounded = h.bounded;
  history = h.history;
  consumers = λ up. cc;
  producers = λ up. cc;
  closed = λ _. (rouse-asleep_pops n s.pc, rouse-asleep_pushes n s.pc);
}

start-Inv : (n capacity : ℕ) → Inv n (start capacity)
start-Inv n capacity = record {
  bounded = λ pos. omega arith;
  history = refl;
  consumers = λ up some_asleep. omega arith;
  producers = λ up some_asleep.
      absurd (omega (arith, how_many-none is_asleep_push n (λ _. idle) (λ i lt. refl)));
  closed = λ down. cc;
}

pub Reach-Inv : {n capacity : ℕ} {s : System} → Reach n capacity s → Inv n s
Reach-Inv {n} {capacity} begin = start-Inv n capacity
Reach-Inv (then_step r st) = Step-Inv st (Reach-Inv r)
