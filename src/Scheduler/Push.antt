-- ===== src/Scheduler/Push.antt =====
-- `task_queue_push` of src/scheduler.c against the specification of the queue.
use thread_management_librar.Base.{
  ℕ, suc, ◌<◌, ◌≡◌, ◌≢◌, refl, true, false, inl, inr, ◌||◌, none, some, List, [], ◌∷◌, ◌++◌, ◌∙◌,
  arith, ◌==◌, length, size_mod, Bool-cases, if-true, if-false, ◌⊎◌,
}
use thread_management_librar.Scheduler.Store.{
  Ptr, null, Priority, Task, Store, Signal, ◌>>=◌, write, free, signal_not_empty,
}
use thread_management_librar.Scheduler.Commands.{free-some, not_null}
use thread_management_librar.Scheduler.Queue.{
  PushCall, push_returned, push_waits, success, failure, push_finish, push_must_wait, push_loop,
  task_queue_push,
}
use thread_management_librar.Scheduler.Chain.{
  Cells, has, tasks, IsQueue, Chain-write, not_has_of_none, tasks-append, length-tasks, write_other,
}
use thread_management_librar.Scheduler.Fifo
use thread_management_librar.Scheduler.Fifo.{Fifo, is_full, Accept, accepted, refused, full}
use thread_management_librar.Scheduler.Append.{append_node_lem}

-- What a queue in memory stands for.
abbrev pub view : Store → Cells → Fifo
view s cs = record { tasks = tasks cs; capacity = s.queue.capacity; shutdown = s.queue.shutdown }

abbrev pub call_of : Accept → Ptr → PushCall
call_of accepted p = push_returned success
call_of refused p = push_returned failure
call_of full p = push_waits p

abbrev pub sent : Accept → List Signal → List Signal
sent accepted l = signal_not_empty ∷ l
sent refused l = l
sent full l = l

-- The outcome of a piece of `task_queue_push` with the node `p` for the task `t`.
pub record Pushed (s : Store) (cs : Cells) (p : Ptr) (t : Task) (out : PushCall) (s' : Store)
    : Type 0 where
  pub after : Cells
  pub result : out ≡ call_of (Fifo.push t (view s cs)).0 p
  pub agrees : view s' after ≡ (Fifo.push t (view s cs)).1
  pub valid : IsQueue s' after
  pub woke : s'.signals ≡ sent (Fifo.push t (view s cs)).0 s.signals
  pub released : (Fifo.push t (view s cs)).0 ≡ refused → s'.node p ≡ none
  pub waiting :
      (Fifo.push t (view s cs)).0 ≡ full → s'.node p ≡ some (record { task = t; next = null })
  pub untouched : (a : Ptr) → has a cs ≡ false → a ≢ p → s'.node a ≡ s.node a

module _ {s : Store} {cs : Cells} (p : Ptr) (t : Task) (q : IsQueue s cs) (ne : p ≢ null)
    (at : s.node p ≡ some (record { task = t; next = null })) (out : has p cs ≡ false)
    (room : suc (length cs) < size_mod) where
  push_refused :
      s.queue.shutdown ≡ true
      → (s' : Store) × (free p s ≡ some (tt, s')) × Pushed s cs p t (push_returned failure) s'
  push_refused down =
      let e = Fifo.push_down t (view s cs) down in
      (
        record s { node = write s.node p none },
        free-some s p ne at,
        record {
          after = cs;
          result = rw e;
          agrees = rw e;
          valid = record {
            chain = Chain-write s.node p none cs out q.chain;
            head = q.head;
            tail = q.tail;
            counted = q.counted;
            fits = q.fits;
          };
          woke = rw e;
          released = ground arith;
          waiting = rw e (λ w. cc);
          untouched = ground arith;
        },
      )

  must_wait_down : s.queue.shutdown ≡ true → push_must_wait s.queue ≡ false
  must_wait_down down = ground arith

  must_wait_up :
      s.queue.shutdown ≡ false → is_full (view s cs) ≡ true → push_must_wait s.queue ≡ true
  must_wait_up up wait = ground (arith, q.counted, length-tasks cs)

  must_not_wait : is_full (view s cs) ≡ false → push_must_wait s.queue ≡ false
  must_not_wait space = ground (arith, q.counted, length-tasks cs)

  push_full :
      s.queue.shutdown ≡ false → is_full (view s cs) ≡ true → Pushed s cs p t (push_waits p) s
  push_full up wait =
      let e = Fifo.push_up_full t (view s cs) up wait in
      record {
        after = cs;
        result = rw e;
        agrees = rw e;
        valid = q;
        woke = rw e;
        released = rw e (λ w. cc);
        waiting = λ w. at;
        untouched = λ a o n. refl;
      }

  push_accepted :
      s.queue.shutdown ≡ false
      → is_full (view s cs) ≡ false
      → (s' : Store) × (push_finish p s ≡ some (push_returned success, s'))
        × Pushed s cs p t (push_returned success) s'
  unfolding push_finish
  push_accepted up space =
      let e = Fifo.push_up t (view s cs) up space in
      let (s', ran, done) = append_node_lem s cs p t q ne at out room in
      (
        record s' { signals = signal_not_empty ∷ s'.signals },
        rw (if-false _ _ _ up, ran, ◌>>=◌),
        record {
          after = cs ++ (p, t) ∷ [];
          result = rw e;
          agrees = rw (e, done.capacity, done.shutdown, tasks-append cs ((p, t) ∷ []));
          valid = record {
            chain = done.valid.chain;
            head = done.valid.head;
            tail = done.valid.tail;
            counted = done.valid.counted;
            fits = done.valid.fits;
          };
          woke = rw (e, done.signals);
          released = rw e (λ w. cc);
          waiting = rw e (λ w. cc);
          untouched = λ a o n. done.untouched a o;
        },
      )

  -- The loop of a push, from the call or from a wake-up.
  pub push_loop-Pushed :
      (r : PushCall) × (s' : Store) × (push_loop p s ≡ some (r, s')) × Pushed s cs p t r s'
  unfolding push_loop push_finish
  push_loop-Pushed = elim (Bool-cases s.queue.shutdown) [
    | inl down ↦
        let (s', ran, done) = push_refused down in
        (
          push_returned failure,
          s',
          rw (if-false _ _ _ (must_wait_down down), if-true _ _ _ down, ran, ◌>>=◌),
          done,
        )
    | inr up ↦ elim (Bool-cases (is_full (view s cs))) [
      | inl wait ↦ (push_waits p, s, rw (if-true _ _ _ (must_wait_up up wait)), push_full up wait)
      | inr space ↦
          let (s', ran, done) = push_accepted up space in
          (push_returned success, s', rw (if-false _ _ _ (must_not_wait space)) ran, done)
    ]
  ]

-- The node that `task_queue_push` makes.
abbrev pub task_of : (func arg : Ptr) → Priority → ℕ → Task
task_of func arg priority now = record {
  func = func;
  arg = arg;
  priority = priority;
  submit_time = now;
}

-- `task_queue_push` with valid arguments and a fresh node does what the bounded queue promises:
-- before the shutdown it appends the task, or keeps its node and waits while the queue is full; after
-- it, it returns -1 and frees the node. The queue in memory stays well formed, one waiting consumer
-- is signalled exactly if a task came in, and no other node changes.
pub task_queue_push-Pushed :
    (s : Store) (cs : Cells) (queue func arg : Ptr) (priority : Priority) (fresh : Ptr) (now : ℕ)
    → IsQueue s cs
    → queue ≢ null
    → func ≢ null
    → fresh ≢ null
    → s.node fresh ≡ none
    → suc (length cs) < size_mod
    → (r : PushCall) × (s' : Store) × (task_queue_push queue func arg priority fresh now s
        ≡ some (r, s'))
      × Pushed s cs fresh (task_of func arg priority now) r s'
unfolding task_queue_push
task_queue_push-Pushed s cs queue func arg priority fresh now q nq nf ne unused room =
    elim (Bool-cases s.queue.shutdown) [
      | inl down ↦
          let (s', ran, done) = push_refused fresh t q₁ ne got out room down in
          (
            push_returned failure,
            s',
            rw (given, if-false _ _ _ (not_null _ ne), if-true _ _ _ down, ran, ◌>>=◌),
            settle (push_returned failure) s' done,
          )
      | inr up ↦
          let (r, s', ran, done) = push_loop-Pushed fresh t q₁ ne got out room in
          (
            r,
            s',
            rw (given, if-false _ _ _ (not_null _ ne), if-false _ _ _ up) ran,
            settle r s' done,
          )
    ]
  where
    t : Task
    t = task_of func arg priority now

    s₁ : Store
    s₁ = record s { node = write s.node fresh (some (record { task = t; next = null })) }

    given : (queue == null || func == null) ≡ false
    given = rw (not_null _ nq, not_null _ nf)

    got : s₁.node fresh ≡ some (record { task = t; next = null })
    got = ground arith

    out : has fresh cs ≡ false
    out = not_has_of_none s.node cs fresh q.chain unused

    q₁ : IsQueue s₁ cs
    q₁ = record {
      chain = Chain-write s.node fresh _ cs out q.chain;
      head = q.head;
      tail = q.tail;
      counted = q.counted;
      fits = q.fits;
    }

    settle : (r : PushCall) (s' : Store) → Pushed s₁ cs fresh t r s' → Pushed s cs fresh t r s'
    settle r s' done = record {
      after = done.after;
      result = done.result;
      agrees = done.agrees;
      valid = done.valid;
      woke = done.woke;
      released = done.released;
      waiting = done.waiting;
      untouched = λ a o n. done.untouched a o n ∙ write_other s.node a fresh _ n;
    }

-- With a NULL queue or function, or when `malloc` fails, it returns -1 and changes nothing.
pub task_queue_push-invalid :
    (s : Store) (queue func arg : Ptr) (priority : Priority) (fresh : Ptr) (now : ℕ)
    → (queue ≡ null) ⊎ (func ≡ null) ⊎ (fresh ≡ null)
    → task_queue_push queue func arg priority fresh now s ≡ some (push_returned failure, s)
unfolding task_queue_push
task_queue_push-invalid s queue func arg priority fresh now bad =
    elim (Bool-cases (queue == null || func == null)) [
      | inl null_arg ↦ rw (if-true _ _ _ null_arg)
      | inr given ↦
          let exhausted : (fresh == null) ≡ true = ground arith in
          rw (if-false _ _ _ given, if-true _ _ _ exhausted)
    ]
