-- ===== src/Demos/Exchange.antt =====
-- A producer and a consumer over a buffer of 5 cells, as in examples/hello_threads.c (example 3) and
-- examples/visual_demo.c (demo 3): two semaphores, a mutex, and a buffer that differs between the two.
pub mod Counts
pub mod Delivery
pub mod Ends
use thread_management_librar.Base.{
  ℕ, suc, ◌+◌, ◌%◌, ◌<◌, ◌≡◌, Bool, true, false, ltb, List, [], ◌∷◌, ◌++◌, Option, none, some,
  uint_mod,
}
use thread_management_librar.Sync.Errors.{sthread_success}
use thread_management_librar.Sync.Semaphore.{
  SyncSem, sem_returned, sem_waits, wait_loop, sync_sem_post,
}
use thread_management_librar.Sync.Counting.{sem_at}

-- What the two do with the buffer while they hold the mutex; `none` where an index is out of bounds.
pub record Buffer (B : Type 0) : Type 0 where
  pub cleared : B
  pub produce : (item : ℕ) → B → Option B
  pub consume : B → Option (ℕ × B)

-- Where one of the two stands, in round `i` of its loop.
pub data Pc : Type 0 where
  at_test : (i : ℕ) → Pc  -- before `i < items`
  waiting : (i : ℕ) → Pc  -- in `sthread_sem_wait`, awake
  asleep : (i : ℕ) → Pc  -- in `sthread_sem_wait`, on the condition variable
  locking : (i : ℕ) → Pc  -- in `sthread_mutex_lock`
  inside : (i : ℕ) → Pc  -- with the mutex, before its change of the buffer
  unlocking : (i : ℕ) → Pc  -- before `sthread_mutex_unlock`
  posting : (i : ℕ) → Pc  -- in `sthread_sem_post`
  finished : Pc

abbrev pub holds_mutex : Pc → Bool
holds_mutex (at_test i) = false
holds_mutex (waiting i) = false
holds_mutex (asleep i) = false
holds_mutex (locking i) = false
holds_mutex (inside i) = true
holds_mutex (unlocking i) = true
holds_mutex (posting i) = false
holds_mutex finished = false

abbrev pub rouse : Pc → Pc
rouse (at_test i) = at_test i
rouse (waiting i) = waiting i
rouse (asleep i) = waiting i
rouse (locking i) = locking i
rouse (inside i) = inside i
rouse (unlocking i) = unlocking i
rouse (posting i) = posting i
rouse finished = finished

pub record System (B : Type 0) : Type 0 where
  pub buffer : B
  pub empty_slots : SyncSem
  pub full_slots : SyncSem
  pub producer : Pc
  pub consumer : Pc
  pub sum : ℕ  -- of the consumer
  pub received : List ℕ  -- the items that it took, in their order

module _ {B : Type 0} (cells : Buffer B) (items : ℕ) where
  pub data ProducerStep (s : System B) : System B → Type 0 where
    p_enter :
        (i : ℕ)
        → s.producer ≡ at_test i
        → ltb i items ≡ true
        → ProducerStep s (record s { producer = waiting i })
    p_leave :
        (i : ℕ)
        → s.producer ≡ at_test i
        → ltb i items ≡ false
        → ProducerStep s (record s { producer = finished })
    p_take :
        (i : ℕ) {x : SyncSem}
        → s.producer ≡ waiting i
        → wait_loop s.empty_slots ≡ (sem_returned sthread_success, x)
        → ProducerStep s (record s { producer = locking i; empty_slots = x })
    p_sleep :
        (i : ℕ) {x : SyncSem}
        → s.producer ≡ waiting i
        → wait_loop s.empty_slots ≡ (sem_waits, x)
        → ProducerStep s (record s { producer = asleep i; empty_slots = x })
    p_lock :
        (i : ℕ)
        → s.producer ≡ locking i
        → holds_mutex s.consumer ≡ false
        → ProducerStep s (record s { producer = inside i })
    p_produce :
        (i : ℕ) {b : B}
        → s.producer ≡ inside i
        → cells.produce (i + 1) s.buffer ≡ some b
        → ProducerStep s (record s { producer = unlocking i; buffer = b })
    p_unlock :
        (i : ℕ) → s.producer ≡ unlocking i → ProducerStep s (record s { producer = posting i })
    p_post :
        (i : ℕ) {x : SyncSem}
        → s.producer ≡ posting i
        → sync_sem_post sem_at s.full_slots ≡ (sthread_success, true, x)
        → ProducerStep s
            (record s { producer = at_test (i + 1); consumer = rouse s.consumer; full_slots = x })

  -- Its addition to its own `sum` goes with the step that takes the item.
  pub data ConsumerStep (s : System B) : System B → Type 0 where
    c_enter :
        (i : ℕ)
        → s.consumer ≡ at_test i
        → ltb i items ≡ true
        → ConsumerStep s (record s { consumer = waiting i })
    c_leave :
        (i : ℕ)
        → s.consumer ≡ at_test i
        → ltb i items ≡ false
        → ConsumerStep s (record s { consumer = finished })
    c_take :
        (i : ℕ) {x : SyncSem}
        → s.consumer ≡ waiting i
        → wait_loop s.full_slots ≡ (sem_returned sthread_success, x)
        → ConsumerStep s (record s { consumer = locking i; full_slots = x })
    c_sleep :
        (i : ℕ) {x : SyncSem}
        → s.consumer ≡ waiting i
        → wait_loop s.full_slots ≡ (sem_waits, x)
        → ConsumerStep s (record s { consumer = asleep i; full_slots = x })
    c_lock :
        (i : ℕ)
        → s.consumer ≡ locking i
        → holds_mutex s.producer ≡ false
        → ConsumerStep s (record s { consumer = inside i })
    c_consume :
        (i item : ℕ) {b : B}
        → s.consumer ≡ inside i
        → cells.consume s.buffer ≡ some (item, b)
        → ConsumerStep s (record s {
          consumer = unlocking i;
          buffer = b;
          sum = (s.sum + item) % uint_mod;
          received = s.received ++ item ∷ [];
        })
    c_unlock :
        (i : ℕ) → s.consumer ≡ unlocking i → ConsumerStep s (record s { consumer = posting i })
    c_post :
        (i : ℕ) {x : SyncSem}
        → s.consumer ≡ posting i
        → sync_sem_post sem_at s.empty_slots ≡ (sthread_success, true, x)
        → ConsumerStep s
            (record s { consumer = at_test (i + 1); producer = rouse s.producer; empty_slots = x })

  pub data Step (s : System B) : System B → Type 0 where
    of_producer : {s' : System B} → ProducerStep s s' → Step s s'
    of_consumer : {s' : System B} → ConsumerStep s s' → Step s s'

  -- After `sthread_sem_init(&empty_slots, 5)` and `sthread_sem_init(&full_slots, 0)`.
  abbrev pub start : System B
  start = record {
    buffer = cells.cleared;
    empty_slots = record { lock = true; cond = true; count = 5; max_count = 5; initialized = true };
    full_slots = record { lock = true; cond = true; count = 0; max_count = 0; initialized = true };
    producer = at_test 0;
    consumer = at_test 0;
    sum = 0;
    received = [];
  }

  -- A sleeper may also wake by itself.
  pub data Reach : System B → Type 0 where
    begin : Reach start
    then_step : {s s' : System B} → Reach s → Step s s' → Reach s'
    wake_producer : {s : System B} → Reach s → Reach (record s { producer = rouse s.producer })
    wake_consumer : {s : System B} → Reach s → Reach (record s { consumer = rouse s.consumer })
