-- ===== src/Scheduler/Monitor/Wakeups.antt =====
-- The threads that sleep at the task queue of src/scheduler.c, and the order of its tasks.
use thread_management_librar.Base.{
  ℕ, ◌+◌, ◌≤◌, ◌<◌, ◌≡◌, ◌≢◌, refl, Bool, true, false, ◌⊎◌, inl, inr, arith, ltb, List, [], ◌∷◌,
  ◌++◌, ap, length, Bool-cases,
}
use thread_management_librar.Base.Threads.{assign, how_many, how_many-pos, find_one}
use thread_management_librar.Scheduler.Store.{Task}
use thread_management_librar.Scheduler.Fifo
use thread_management_librar.Scheduler.Fifo.{
  Taken, Accept, Fifo, is_full, accepted, refused, full, took, closed, empty,
}
use thread_management_librar.Scheduler.Monitor.{
  Pc, idle, ready_push, asleep_push, ready_pop, asleep_pop, is_ready_push, is_ready_pop,
  is_asleep_pop, is_asleep_push, rouse, System, Step, Reach, Woken, one, nobody, push_in, Room,
  bounded, unbounded, pop_out,
}
use thread_management_librar.Scheduler.Monitor.Tally.{tally}
use thread_management_librar.Scheduler.Monitor.Invariant.{Inv, Reach-Inv}

is_ready_pop-eq : (p : Pc) → is_ready_pop p ≡ true → p ≡ ready_pop
is_ready_pop-eq p e = ground arith

is_ready_push-eq : (p : Pc) → is_ready_push p ≡ true → (t : Task) × (p ≡ ready_push t)
is_ready_push-eq (ready_push t) e = (t, refl)
is_ready_push-eq idle e = cc
is_ready_push-eq ready_pop e = cc
is_ready_push-eq asleep_pop e = cc
is_ready_push-eq (asleep_push t) e = cc

-- While somebody sleeps the queue is not shut down.
not_shut :
    (n : ℕ) (s : System)
    → Inv n s
    → 0 < (tally n s.pc).asleep_pops + (tally n s.pc).asleep_pushes
    → s.fifo.shutdown ≡ false
not_shut n s h some_asleep = elim (Bool-cases s.fifo.shutdown) [
  | inl down ↦ let (x, y) = h.closed down in absurd (omega arith)
  | inr up ↦ up
]

length-pos : (l : List Task) → l ≢ [] → 0 < length l
length-pos [] ne = absurd (ne refl)
length-pos (t ∷ l) ne = omega arith

module _ {n capacity : ℕ} {s : System} (r : Reach n capacity s) where
  -- In every reachable state: while a consumer sleeps in `task_queue_pop` and the queue holds a
  -- task, another thread is awake in `task_queue_pop` and about to take the lock.
  pub consumer_not_lost :
      (i : ℕ)
      → i < n
      → s.pc i ≡ asleep_pop
      → s.fifo.tasks ≢ []
      → (j : ℕ) × (j < n) × (s.pc j ≡ ready_pop)
  consumer_not_lost i lt e some_task =
      let h = Reach-Inv r in
      let asleep = how_many-pos is_asleep_pop n i s.pc lt (rw e) in
      let enough = h.consumers (not_shut n s h (omega arith)) asleep in
      let (j, lt', ready) =
        find_one is_ready_pop n s.pc (omega (arith, length-pos s.fifo.tasks some_task)) in
      (j, lt', is_ready_pop-eq (s.pc j) ready)

  -- In every reachable state: while a producer sleeps in `task_queue_push` and the queue has room,
  -- another thread is awake in `task_queue_push` and about to take the lock.
  pub producer_not_lost :
      (i : ℕ) (t : Task)
      → i < n
      → s.pc i ≡ asleep_push t
      → length s.fifo.tasks < s.fifo.capacity
      → (j : ℕ) × (u : Task) × (j < n) × (s.pc j ≡ ready_push u)
  producer_not_lost i t lt e room =
      let h = Reach-Inv r in
      let asleep = how_many-pos is_asleep_push n i s.pc lt (rw e) in
      let enough = h.producers (not_shut n s h (omega arith)) asleep in
      let (j, lt', ready) = find_one is_ready_push n s.pc (omega arith) in
      let (u, e') = is_ready_push-eq (s.pc j) ready in (j, u, lt', e')

  -- In every reachable state: if a consumer and a producer sleep at once on a queue with a bound, a
  -- third thread is awake in a call and about to take the lock, so the sleepers do not deadlock.
  pub no_deadlock :
      (i k : ℕ) (t : Task)
      → i < n
      → k < n
      → s.pc i ≡ asleep_pop
      → s.pc k ≡ asleep_push t
      → 0 < s.fifo.capacity
      → (j : ℕ) × (j < n) × ((s.pc j ≡ ready_pop) ⊎ ((u : Task) × (s.pc j ≡ ready_push u)))
  no_deadlock i k t lt lt' e e' pos =
      elim (Bool-cases (ltb (length s.fifo.tasks) s.fifo.capacity)) [
        | inl room ↦
            let (j, u, below, ready) = producer_not_lost k t lt' e' (ground arith) in
            (j, below, inr (u, ready))
        | inr no_room ↦
            let (j, below, ready) =
              consumer_not_lost i lt e
                (λ none_left. absurd (ground (arith, ap length none_left))) in
            (j, below, inl ready)
      ]

  -- In every reachable state after the shutdown no thread sleeps in a push or a pop.
  pub none_asleep_after_shutdown :
      s.fifo.shutdown ≡ true
      → (i : ℕ) → i < n
      → (s.pc i ≢ asleep_pop) × ((t : Task) → s.pc i ≢ asleep_push t)
  none_asleep_after_shutdown down i lt =
      let (x, y) = (Reach-Inv r).closed down in
      (
        λ e. absurd (omega (arith, how_many-pos is_asleep_pop n i s.pc lt (rw e))),
        λ t e. absurd (omega (arith, how_many-pos is_asleep_push n i s.pc lt (rw e))),
      )

  -- In every reachable state the accepted tasks are, in order, those that were taken, followed by
  -- those that are queued, and a bounded queue is within its bound.
  pub tasks_in_order :
      (s.pushed ≡ s.popped ++ s.fifo.tasks)
      × ((s.fifo.capacity ≡ 0) ⊎ (length s.fifo.tasks ≤ s.fifo.capacity))
  tasks_in_order =
      let h = Reach-Inv r in
      (
        h.history,
        elim (Bool-cases (ltb 0 s.fifo.capacity)) [
          | inl pos ↦ inr (h.bounded (ground arith))
          | inr no_bound ↦ inl (ground arith)
        ],
      )

-- A signal can always be sent.
pub can_wake : (n : ℕ) (asleep : Pc → Bool) (pc : ℕ → Pc) → (pc' : ℕ → Pc) × Woken n asleep pc pc'
can_wake n asleep pc = elim (Bool-cases (ltb 0 (how_many asleep n pc))) [
  | inl some_asleep ↦
      let (j, lt, e) = find_one asleep n pc (ground arith) in
      (assign pc j (rouse (pc j)), one j lt e)
  | inr none_asleep ↦ (
    pc,
    nobody λ j lt. elim (Bool-cases (asleep (pc j))) [
      | inl e ↦ let pos = how_many-pos asleep n j pc lt e in absurd (ground arith)
      | inr e ↦ e
    ],
  )
]

can_ease : (n capacity : ℕ) (pc : ℕ → Pc) → (pc' : ℕ → Pc) × Room n capacity pc pc'
can_ease n capacity pc = elim (Bool-cases (ltb 0 capacity)) [
  | inl pos ↦ let (pc', w) = can_wake n is_asleep_push pc in (pc', bounded (ground arith) w)
  | inr free ↦ (pc, unbounded (ground arith))
]

head_taken :
    (ts : List Task) (t : Task) (f : Fifo) {rest : List Task}
    → ts ≡ t ∷ rest
    → Fifo.pop_from ts f ≡ (took t, record f { tasks = rest })
head_taken ts t f e = rw e

module _ {n capacity : ℕ} {s : System} (r : Reach n capacity s) where
  -- In every reachable state: while a consumer sleeps and the queue holds a task, a step is possible
  -- at once in which an awake consumer takes the oldest task.
  pub task_can_be_taken :
      (i : ℕ) (t : Task) (rest : List Task)
      → i < n
      → s.pc i ≡ asleep_pop
      → s.fifo.tasks ≡ t ∷ rest
      → (s' : System) × Step n s s' × (s'.popped ≡ s.popped ++ t ∷ []) × (s'.fifo.tasks ≡ rest)
  unfolding Fifo.pop
  task_can_be_taken i t rest lt e some_task =
      let (j, lt', ready) = consumer_not_lost r i lt e (λ none_left. cc) in
      let (pc', room) = can_ease n s.fifo.capacity (assign s.pc j idle) in
      (_, pop_out j lt' (rw ready) (head_taken s.fifo.tasks t s.fifo some_task) room, refl, refl)

  -- In every reachable state: while a producer sleeps and the queue has room, a step is possible at
  -- once in which an awake producer puts its task at the end of the queue.
  pub task_can_be_queued :
      (i : ℕ) (t : Task)
      → i < n
      → s.pc i ≡ asleep_push t
      → length s.fifo.tasks < s.fifo.capacity
      → (s' : System) × (u : Task) × Step n s s'
        × (s'.pushed ≡ s.pushed ++ u ∷ [])
        × (s'.fifo.tasks ≡ s.fifo.tasks ++ u ∷ [])
  task_can_be_queued i t lt e room =
      let h = Reach-Inv r in
      let asleep = how_many-pos is_asleep_push n i s.pc lt (rw e) in
      let up = not_shut n s h (omega arith) in
      let (j, u, lt', ready) = producer_not_lost r i t lt e room in
      let (pc', woken) = can_wake n is_asleep_pop (assign s.pc j idle) in
      let accept = Fifo.push_up u s.fifo up (ground arith) in
      (_, u, push_in j u lt' ready accept woken, refl, refl)
