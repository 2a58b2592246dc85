-- ===== src/Scheduler/Lifecycle.antt =====
-- `task_queue_init`, `task_queue_destroy`, `task_queue_size` and `task_queue_shutdown` of
-- src/scheduler.c.
use thread_management_librar.Base.{
  ℕ, zero, suc, ◌<◌, ◌≡◌, ◌≢◌, refl, Bool, true, false, inl, inr, ◌&&◌, Option, none, some, [], ◌∷◌,
  ◌∙◌, ap, arith, ◌==◌, if◌then◌else◌, length, Bool-cases, if-false,
}
use thread_management_librar.Scheduler.Store.{
  Ptr, null, TaskNode, TaskQueue, Store, ◌>>=◌, write, broadcast_not_full, broadcast_not_empty,
}
use thread_management_librar.Scheduler.Commands.{load-some, free-some, not_null}
use thread_management_librar.Scheduler.Queue.{
  success, failure, task_queue_init, destroy_loop, task_queue_destroy, task_queue_size,
  task_queue_shutdown,
}
use thread_management_librar.Scheduler.Chain.{Cells, has, first, Chain, IsQueue, Chain-write}

-- The three pthread objects of a queue are all initialised, or none is.
pub record Objects (q : TaskQueue) (live : Bool) : Type 0 where
  pub lock : q.lock ≡ live
  pub not_empty : q.not_empty ≡ live
  pub not_full : q.not_full ≡ live

pub record Initialised (s : Store) (capacity : ℕ) (done : Bool) (s' : Store) : Type 0 where
  pub valid : IsQueue s' []
  pub bound : s'.queue.capacity ≡ capacity
  pub up : s'.queue.shutdown ≡ false
  pub objects : Objects s'.queue done
  pub untouched : s'.node ≡ s.node

abbrev pub all_zero : (a b c : ℕ) → Bool
all_zero a b c = a == 0 && b == 0 && c == 0

abbrev init_queue : ℕ → Bool → TaskQueue
init_queue capacity live = record {
  head = null;
  tail = null;
  count = 0;
  capacity = capacity;
  lock = live;
  not_empty = live;
  not_full = live;
  shutdown = false;
}

-- `task_queue_init` makes an empty queue of the given capacity that is not shut down. It returns 0
-- exactly if the three initialisations do, and then the three objects are live; where one fails it
-- returns -1 and none is left behind.
pub task_queue_init-Initialised :
    (s : Store) (queue : Ptr) (capacity ret_lock ret_empty ret_full : ℕ)
    → queue ≢ null
    → let done = all_zero ret_lock ret_empty ret_full in
      (s' : Store) × (task_queue_init queue capacity ret_lock ret_empty ret_full s
        ≡ some (if done then success else failure, s'))
      × Initialised s capacity done s'
unfolding task_queue_init
task_queue_init-Initialised s queue capacity l e f nq = (
  record s { queue = init_queue capacity (all_zero l e f) },
  rw (if-false _ _ _ (not_null _ nq)) (elim (Bool-cases (l == 0)) [
    | inr no_lock ↦ rw no_lock
    | inl lock ↦ elim (Bool-cases (e == 0)) [
      | inr no_empty ↦ rw (lock, no_empty)
      | inl empty ↦ elim (Bool-cases (f == 0)) [
        | inr no_full ↦ rw (lock, empty, no_full)
        | inl full ↦ rw (lock, empty, full)
      ]
    ]
  ]),
  record {
    valid = record { chain = tt; head = refl; tail = refl; counted = refl; fits = omega arith };
    bound = refl;
    up = refl;
    objects = record { lock = refl; not_empty = refl; not_full = refl };
    untouched = refl;
  },
)

destroy_loop_lem :
    (k : ℕ) (s : Store) (cs : Cells)
    → Chain s.node cs
    → length cs < k
    → (h : Ptr → Option TaskNode) × (destroy_loop k (first cs) s ≡ some (tt, record s { node = h }))
      × ((a : Ptr) → h a ≡ (if has a cs then none else s.node a))
unfolding destroy_loop
destroy_loop_lem zero s cs c fuel = absurd (omega arith)
destroy_loop_lem (suc k) s [] c fuel = (s.node, refl, λ a. refl)
destroy_loop_lem (suc k) s ((p, t) ∷ cs) c fuel =
    let (h, ran, gone) =
      destroy_loop_lem k (record s { node = write s.node p none }) cs
        (Chain-write s.node p none cs c.2 c.3) (omega arith) in
    (
      h,
      rw (not_null _ c.0, load-some s p c.0 c.1, free-some s p c.0 c.1, ◌>>=◌) ran,
      λ a. ground (arith, gone a),
    )

pub record Destroyed (s : Store) (cs : Cells) (s' : Store) : Type 0 where
  pub valid : IsQueue s' []
  pub objects : Objects s'.queue false
  pub gone : (a : Ptr) → s'.node a ≡ (if has a cs then none else s.node a)

-- `task_queue_destroy` ends within its bound of `count + 1` rounds without a fault: it frees each
-- node of the queue once and no other, leaves the queue empty, and destroys the three objects.
pub task_queue_destroy-Destroyed :
    (s : Store) (cs : Cells) (queue : Ptr)
    → IsQueue s cs
    → queue ≢ null
    → (s' : Store) × (task_queue_destroy queue s ≡ some (tt, s')) × Destroyed s cs s'
unfolding task_queue_destroy
task_queue_destroy-Destroyed s cs queue q nq =
    let (h, ran, gone) =
      destroy_loop_lem (suc s.queue.count) s cs q.chain (omega (arith, q.counted)) in
    let ran' : destroy_loop (suc s.queue.count) s.queue.head s ≡ some (tt, record s { node = h }) =
      ap (λ (p : Ptr). destroy_loop (suc s.queue.count) p s) q.head ∙ ran in
    (
      record s {
        node = h;
        queue = record s.queue {
          head = null;
          tail = null;
          count = 0;
          not_full = false;
          not_empty = false;
          lock = false;
        };
      },
      rw (if-false _ _ _ (not_null _ nq), ran', ◌>>=◌),
      record {
        valid = record { chain = tt; head = refl; tail = refl; counted = refl; fits = omega arith };
        objects = record { lock = refl; not_empty = refl; not_full = refl };
        gone = gone;
      },
    )

-- `task_queue_size` is the number of queued tasks, and changes nothing.
pub task_queue_size-length :
    (s : Store) (cs : Cells) (queue : Ptr)
    → IsQueue s cs
    → queue ≢ null
    → task_queue_size queue s ≡ some (length cs, s)
unfolding task_queue_size
task_queue_size-length s cs queue q nq =
    rw (if-false _ _ _ (not_null _ nq)) (ap (λ (n : ℕ). some (n, s)) q.counted)

-- `task_queue_shutdown` keeps the queue and its nodes, sets the flag and wakes both kinds of waiters.
pub task_queue_shutdown_lem :
    (s : Store) (cs : Cells) (queue : Ptr)
    → IsQueue s cs
    → queue ≢ null
    → (s' : Store) × (task_queue_shutdown queue s ≡ some (tt, s'))
      × IsQueue s' cs
      × (s'.queue ≡ record s.queue { shutdown = true })
      × (s'.signals ≡ broadcast_not_full ∷ broadcast_not_empty ∷ s.signals)
unfolding task_queue_shutdown
task_queue_shutdown_lem s cs queue q nq = (
  record s {
    queue = record s.queue { shutdown = true };
    signals = broadcast_not_full ∷ broadcast_not_empty ∷ s.signals;
  },
  rw (if-false _ _ _ (not_null _ nq)),
  record { chain = q.chain; head = q.head; tail = q.tail; counted = q.counted; fits = q.fits },
  refl,
  refl,
)
