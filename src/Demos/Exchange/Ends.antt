-- ===== src/Demos/Exchange/Ends.antt =====
-- The steps that the producer and the consumer still have before them.
use thread_management_librar.Base.{
  ℕ, suc, ◌+◌, ◌-◌, ◌*◌, ◌≤◌, ◌<◌, ◌≡◌, ◌==◌, refl, Bool, true, false, ◌&&◌, ltb, Bool-cases, inl,
  inr, ◌⊎◌, arith, if-true, if-false,
}
use thread_management_librar.Sync.Errors.{sthread_success}
use thread_management_librar.Sync.Semaphore.{
  SyncSem, dec_uint, inc_uint, sem_returned, sem_waits, wait_loop, sync_sem_post,
}
use thread_management_librar.Sync.Counting.{sem_at}
use thread_management_librar.Demos.Exchange.{
  Buffer, Pc, at_test, waiting, asleep, locking, inside, unlocking, posting, finished, holds_mutex,
  rouse, System, p_enter, p_leave, p_take, p_sleep, p_lock, p_produce, p_unlock, p_post, c_enter,
  c_leave, c_take, c_sleep, c_lock, c_consume, c_unlock, c_post, Step, of_producer, of_consumer,
  Reach,
}
use thread_management_librar.Demos.Exchange.Counts.{made, Counts, room_for, item_for}
use thread_management_librar.Demos.Exchange.Delivery.{Account, Inv, Reach-Inv}

wait_loop-goes :
    (s : SyncSem)
    → (s.count == 0) ≡ false
    → wait_loop s ≡ (sem_returned sthread_success, record s { count = dec_uint s.count })
unfolding wait_loop
wait_loop-goes s some_unit = if-false (s.count == 0) _ _ some_unit

wait_loop-sleeps : (s : SyncSem) → (s.count == 0) ≡ true → wait_loop s ≡ (sem_waits, s)
unfolding wait_loop
wait_loop-sleeps s empty = if-true (s.count == 0) _ _ empty

post-goes :
    (s : SyncSem)
    → s.initialized ≡ true
    → sync_sem_post sem_at s ≡ (sthread_success, true, record s { count = inc_uint s.count })
unfolding sync_sem_post
post-goes s ready = ground (arith, ready)

module _ {B : Type 0} (cells : Buffer B) (account : Account cells) (items : ℕ) where
  abbrev pub is_finished : Pc → Bool
  is_finished finished = true
  is_finished _ = false

  -- It waits for the other: for a post, or for the mutex.
  abbrev blocked : (own other : Pc) → Bool
  blocked (asleep i) other = true
  blocked (locking i) other = holds_mutex other
  blocked finished other = true
  blocked _ other = false

  -- One of the two is not blocked, unless both have ended.
  someone_goes :
      {e f k : ℕ} (p c : Pc)
      → Counts items e f k p c
      → (is_finished p && is_finished c) ≡ false
      → (blocked p c ≡ false) ⊎ (blocked c p ≡ false)
  someone_goes p c h some_work = elim (Bool-cases (blocked p c)) [
    | inl p_blocked ↦ elim (Bool-cases (blocked c p)) [
      | inl c_blocked ↦ absurd (ground arith)
      | inr c_goes ↦ inr c_goes
    ]
    | inr p_goes ↦ inl p_goes
  ]

  -- A bound on the steps that one of them has before it.
  abbrev pub steps_left : Pc → ℕ
  steps_left (at_test i) = 10 * (items - i) + 1
  steps_left (waiting i) = 10 * (items - i)
  steps_left (asleep i) = 10 * (items - i) - 1
  steps_left (locking i) = 10 * (items - i) - 2
  steps_left (inside i) = 10 * (items - i) - 3
  steps_left (unlocking i) = 10 * (items - i) - 4
  steps_left (posting i) = 10 * (items - i) - 5
  steps_left finished = 0

  abbrev pub work_left : System B → ℕ
  work_left s = steps_left s.producer + steps_left s.consumer

  rouse-steps : (q : Pc) → steps_left (rouse q) ≤ steps_left q + 1
  rouse-steps q = ground arith

  -- A step that leaves less to do.
  record Progress (s : System B) : Type 0 where
    next : System B
    step : Step cells items s next
    lowers : work_left next < work_left s

  module _ {s : System B} (h : Inv cells account items s) where
    Counts-at :
        {p c : Pc}
        → s.producer ≡ p
        → s.consumer ≡ c
        → Counts items s.empty_slots.count s.full_slots.count h.stock p c
    Counts-at ep ec = rw (ep, ec) at h.counts

    producer_goes : (p : Pc) → s.producer ≡ p → blocked p s.consumer ≡ false → Progress s
    producer_goes (at_test i) e free = elim (Bool-cases (ltb i items)) [
      | inl more ↦ record {
        next = _;
        step = of_producer (p_enter i e more);
        lowers = rw e (ground arith);
      }
      | inr over ↦ record {
        next = _;
        step = of_producer (p_leave i e over);
        lowers = rw e (ground arith);
      }
    ]
    producer_goes (waiting i) e free =
        let inside_loop : i < items = (Counts-at e refl).p_in in
        elim (Bool-cases (s.empty_slots.count == 0)) [
          | inl no_slot ↦ record {
            next = _;
            step = of_producer (p_sleep i e (wait_loop-sleeps s.empty_slots no_slot));
            lowers = rw e (omega arith);
          }
          | inr some_slot ↦ record {
            next = _;
            step = of_producer (p_take i e (wait_loop-goes s.empty_slots some_slot));
            lowers = rw e (omega arith);
          }
        ]
    producer_goes (asleep i) e free = absurd (ground arith)
    producer_goes (locking i) e free =
        let inside_loop : i < items = (Counts-at e refl).p_in in
        record { next = _; step = of_producer (p_lock i e free); lowers = rw e (omega arith) }
    producer_goes (inside i) e free =
        let inside_loop : i < items = (Counts-at e refl).p_in in
        let (_, produced, _) =
          account.produces s.received i h.stock s.buffer (rw e at h.told)
            (room_for items (Counts-at e refl)) in
        record {
          next = _;
          step = of_producer (p_produce i e produced);
          lowers = rw e (omega arith);
        }
    producer_goes (unlocking i) e free =
        let inside_loop : i < items = (Counts-at e refl).p_in in
        record { next = _; step = of_producer (p_unlock i e); lowers = rw e (omega arith) }
    producer_goes (posting i) e free =
        let inside_loop : i < items = (Counts-at e refl).p_in in
        record {
          next = _;
          step = of_producer (p_post i e (post-goes s.full_slots h.full_ready));
          lowers = rw e (omega (arith, rouse-steps s.consumer));
        }
    producer_goes finished e free = absurd (ground arith)

    consumer_goes : (c : Pc) → s.consumer ≡ c → blocked c s.producer ≡ false → Progress s
    consumer_goes (at_test i) e free = elim (Bool-cases (ltb i items)) [
      | inl more ↦ record {
        next = _;
        step = of_consumer (c_enter i e more);
        lowers = rw e (ground arith);
      }
      | inr over ↦ record {
        next = _;
        step = of_consumer (c_leave i e over);
        lowers = rw e (ground arith);
      }
    ]
    consumer_goes (waiting i) e free =
        let inside_loop : i < items = (Counts-at refl e).c_in in
        elim (Bool-cases (s.full_slots.count == 0)) [
          | inl no_item ↦ record {
            next = _;
            step = of_consumer (c_sleep i e (wait_loop-sleeps s.full_slots no_item));
            lowers = rw e (omega arith);
          }
          | inr some_item ↦ record {
            next = _;
            step = of_consumer (c_take i e (wait_loop-goes s.full_slots some_item));
            lowers = rw e (omega arith);
          }
        ]
    consumer_goes (asleep i) e free = absurd (ground arith)
    consumer_goes (locking i) e free =
        let inside_loop : i < items = (Counts-at refl e).c_in in
        record { next = _; step = of_consumer (c_lock i e free); lowers = rw e (omega arith) }
    consumer_goes (inside i) e free =
        let inside_loop : i < items = (Counts-at refl e).c_in in
        let some_stock : suc (h.stock - 1) ≡ h.stock =
          omega (arith, item_for items (Counts-at refl e)) in
        let (x, _, consumed, _) =
          account.consumes s.received (made items s.producer) (h.stock - 1) s.buffer
            (rw some_stock h.told) in
        record {
          next = _;
          step = of_consumer (c_consume i x e consumed);
          lowers = rw e (omega arith);
        }
    consumer_goes (unlocking i) e free =
        let inside_loop : i < items = (Counts-at refl e).c_in in
        record { next = _; step = of_consumer (c_unlock i e); lowers = rw e (omega arith) }
    consumer_goes (posting i) e free =
        let inside_loop : i < items = (Counts-at refl e).c_in in
        record {
          next = _;
          step = of_consumer (c_post i e (post-goes s.empty_slots h.empty_ready));
          lowers = rw e (omega (arith, rouse-steps s.producer));
        }
    consumer_goes finished e free = absurd (ground arith)

    some-Progress : (is_finished s.producer && is_finished s.consumer) ≡ false → Progress s
    some-Progress some_work = elim (someone_goes s.producer s.consumer h.counts some_work) [
      | inl p_goes ↦ producer_goes s.producer refl p_goes
      | inr c_goes ↦ consumer_goes s.consumer refl c_goes
    ]

  -- The producer and the consumer never block each other for good, and no index into the buffer is out of
  -- bounds: in every state that they can come to, while not both have ended, a step is possible that is
  -- not a spurious wake-up and that lowers a bound on their work, so that such steps lead to their end;
  -- for any buffer whose account of its items can be kept.
  pub exchange_goes_on :
      {s : System B}
      → Reach cells items s
      → (is_finished s.producer && is_finished s.consumer) ≡ false
      → (s' : System B) × Step cells items s s' × (work_left s' < work_left s)
  exchange_goes_on r some_work =
      let p = some-Progress (Reach-Inv cells account items r) some_work in
      (p.next, p.step, p.lowers)
