-- ===== src/Scheduler/Pop.antt =====
-- `task_queue_pop` and `task_queue_try_pop` of src/scheduler.c against the specification.
use thread_management_librar.Base.{
  ℕ, ◌≡◌, ◌≢◌, refl, true, false, inl, inr, not, ◌&&◌, none, some, List, [], ◌∷◌, arith, ◌==◌, ltb,
  if◌then◌else◌, dec_size, Bool-cases, if-true, if-false, sym,
}
use thread_management_librar.Scheduler.Store.{
  Ptr, null, Task, TaskQueue, Store, ◌>>=◌, Signal, write, free, signal_not_full,
}
use thread_management_librar.Scheduler.Commands.{load-some, free-some, not_null}
use thread_management_librar.Scheduler.Queue.{
  PopCall, pop_returned, pop_waits, success, failure, take_head, pop_loop, task_queue_pop,
  task_queue_try_pop,
}
use thread_management_librar.Scheduler.Chain.{
  Cells, has, first, last, IsQueue, Chain-write, write_other,
}
use thread_management_librar.Scheduler.Fifo
use thread_management_librar.Scheduler.Fifo.{Fifo, Taken, took, closed, empty}
use thread_management_librar.Scheduler.Push.{view}

-- What `task_queue_pop` returns, and what `task_queue_try_pop` returns.
abbrev pub pop_call : Taken → PopCall
pop_call (took t) = pop_returned success (some (t.func, t.arg))
pop_call closed = pop_returned failure none
pop_call empty = pop_waits

abbrev pub try_call : Taken → PopCall
try_call (took t) = pop_returned success (some (t.func, t.arg))
try_call closed = pop_returned failure none
try_call empty = pop_returned failure none

-- A producer is signalled if a task was taken from a bounded queue.
abbrev pub made_room : Taken → ℕ → List Signal → List Signal
made_room (took t) capacity l = if ltb 0 capacity then signal_not_full ∷ l else l
made_room closed capacity l = l
made_room empty capacity l = l

pub record Popped (call : Taken → PopCall) (s : Store) (cs : Cells) (out : PopCall) (s' : Store)
    : Type 0 where
  pub after : Cells
  pub result : out ≡ call (Fifo.pop (view s cs)).0
  pub agrees : view s' after ≡ (Fifo.pop (view s cs)).1
  pub valid : IsQueue s' after
  pub woke : s'.signals ≡ made_room (Fifo.pop (view s cs)).0 s.queue.capacity s.signals
  pub released : (a : Ptr) → has a cs ≡ true → has a after ≡ false → s'.node a ≡ none
  pub untouched : (a : Ptr) → has a cs ≡ false → s'.node a ≡ s.node a

new_tail :
    (s : Store) (c : Ptr × Task) (cs : Cells)
    → IsQueue s (c ∷ cs)
    → (if first cs == null then null else s.queue.tail) ≡ last cs
new_tail s c [] q = refl
new_tail s c (d ∷ cs) q = rw (if-false _ _ _ (not_null _ q.chain.3.0)) q.tail

module _ (call : Taken → PopCall) {s : Store} (c : Ptr × Task) (cs : Cells) (q : IsQueue s (c ∷ cs))
    (taking : (t : Task) → call (took t) ≡ pop_returned success (some (t.func, t.arg))) where
  ne : s.queue.head ≢ null
  ne = rw q.head q.chain.0

  at : s.node s.queue.head ≡ some (record { task = c.1; next = first cs })
  at = rw q.head q.chain.1

  abbrev taken : TaskQueue
  taken = record s.queue {
    head = first cs;
    tail = if first cs == null then null else s.queue.tail;
    count = dec_size s.queue.count;
  }

  abbrev popped : Store
  popped = record {
    node = write s.node s.queue.head none;
    queue = taken;
    signals = made_room (took c.1) s.queue.capacity s.signals;
  }

  take_head-some : take_head s ≡ some (pop_returned success (some (c.1.func, c.1.arg)), popped)
  unfolding take_head
  take_head-some = elim (Bool-cases (ltb 0 s.queue.capacity)) [
    | inl bounded ↦ rw (
      load-some s _ ne at,
      if-true _ _ _ bounded,
      if-true _ _ _ bounded,
      free-some (record s { queue = taken; signals = signal_not_full ∷ s.signals }) _ ne at,
      ◌>>=◌,
    )
    | inr free ↦ rw (
      load-some s _ ne at,
      if-false _ _ _ free,
      if-false _ _ _ free,
      free-some (record s { queue = taken }) _ ne at,
      ◌>>=◌,
    )
  ]

  take_head-Popped : Popped call s (c ∷ cs) (pop_returned success (some (c.1.func, c.1.arg))) popped
  unfolding Fifo.pop
  take_head-Popped = record {
    after = cs;
    result = sym (taking c.1);
    agrees = refl;
    valid = record {
      chain = Chain-write s.node s.queue.head none cs (rw q.head q.chain.2) q.chain.3;
      head = refl;
      tail = new_tail s c cs q;
      counted = omega (arith, q.counted, q.fits);
      fits = omega (arith, q.fits);
    };
    woke = refl;
    released = λ a here gone. ground (arith, q.head);
    untouched = λ a o. write_other s.node a _ none (rw q.head (ground arith));
  }

-- A pop that finds the queue empty leaves everything as it is.
Popped-nil :
    (call : Taken → PopCall) (s : Store)
    → IsQueue s []
    → Popped call s [] (call (if s.queue.shutdown then closed else empty)) s
unfolding Fifo.pop
Popped-nil call s q = record {
  after = [];
  result = refl;
  agrees = refl;
  valid = q;
  woke = ground arith;
  released = λ a here gone. cc;
  untouched = λ a o. refl;
}

module _ (s : Store) (none_left : s.queue.count ≡ 0) where
  is_empty : (s.queue.count == 0) ≡ true
  is_empty = ground arith

  pop_loop-nil : pop_loop s ≡ some (pop_call (if s.queue.shutdown then closed else empty), s)
  unfolding pop_loop
  pop_loop-nil = elim (Bool-cases s.queue.shutdown) [
    | inl down ↦
        let stay : (s.queue.count == 0 && not s.queue.shutdown) ≡ false = ground arith in
        let leave : (s.queue.count == 0 && s.queue.shutdown) ≡ true = ground arith in
        rw (if-false _ _ _ stay, if-true _ _ _ leave, if-true _ _ _ down)
    | inr up ↦
        let stay : (s.queue.count == 0 && not s.queue.shutdown) ≡ true = ground arith in
        rw (if-true _ _ _ stay, if-false _ _ _ up)
  ]

  try_result : try_call (if s.queue.shutdown then closed else empty) ≡ pop_returned failure none
  try_result = ground arith

-- The loop of a pop, from the call or from a wake-up.
pub pop_loop-Popped :
    (s : Store) (cs : Cells)
    → IsQueue s cs
    → (r : PopCall) × (s' : Store) × (pop_loop s ≡ some (r, s')) × Popped pop_call s cs r s'
unfolding pop_loop
pop_loop-Popped s [] q = (
  pop_call (if s.queue.shutdown then closed else empty),
  s,
  pop_loop-nil s q.counted,
  Popped-nil pop_call s q,
)
pop_loop-Popped s (c ∷ cs) q =
    let busy : (s.queue.count == 0) ≡ false = ground (arith, q.counted) in
    (
      _,
      _,
      rw busy (take_head-some pop_call c cs q (λ t. refl)),
      take_head-Popped pop_call c cs q (λ t. refl),
    )

-- `task_queue_pop` with valid arguments does what the queue promises, also after the shutdown: it
-- takes the oldest task, writes it to the two outputs and frees its node; on an empty queue it waits,
-- or returns -1 once the queue is shut down. The queue stays well formed, a producer is signalled
-- exactly if a task left a bounded queue, and no other node changes.
pub task_queue_pop-Popped :
    (s : Store) (cs : Cells) (queue out_func out_arg : Ptr)
    → IsQueue s cs
    → queue ≢ null
    → out_func ≢ null
    → out_arg ≢ null
    → (r : PopCall) × (s' : Store) × (task_queue_pop queue out_func out_arg s ≡ some (r, s'))
      × Popped pop_call s cs r s'
unfolding task_queue_pop
task_queue_pop-Popped s cs queue out_func out_arg q nq nf na =
    let (r, s', ran, done) = pop_loop-Popped s cs q in
    (r, s', rw (not_null _ nq, not_null _ nf, not_null _ na) ran, done)

-- `task_queue_try_pop` does the same where a task is there, and returns -1 at once on an empty queue.
pub task_queue_try_pop-Popped :
    (s : Store) (cs : Cells) (queue out_func out_arg : Ptr)
    → IsQueue s cs
    → queue ≢ null
    → out_func ≢ null
    → out_arg ≢ null
    → (r : PopCall) × (s' : Store) × (task_queue_try_pop queue out_func out_arg s ≡ some (r, s'))
      × Popped try_call s cs r s'
unfolding task_queue_try_pop
task_queue_try_pop-Popped s [] queue out_func out_arg q nq nf na = (
  try_call (if s.queue.shutdown then closed else empty),
  s,
  rw (
    not_null _ nq,
    not_null _ nf,
    not_null _ na,
    if-true _ _ _ (is_empty s q.counted),
    try_result s q.counted,
  ),
  Popped-nil try_call s q,
)
task_queue_try_pop-Popped s (c ∷ cs) queue out_func out_arg q nq nf na =
    let busy : (s.queue.count == 0) ≡ false = ground (arith, q.counted) in
    (
      _,
      _,
      rw (not_null _ nq, not_null _ nf, not_null _ na, if-false _ _ _ busy)
          (take_head-some try_call c cs q (λ t. refl)),
      take_head-Popped try_call c cs q (λ t. refl),
    )
