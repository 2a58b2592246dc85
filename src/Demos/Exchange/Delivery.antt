-- ===== src/Demos/Exchange/Delivery.antt =====
-- What the producer and the consumer do to the buffer, for any buffer that keeps an account of the items.
use thread_management_librar.Base.{
  ℕ, suc, ◌+◌, ◌-◌, ◌%◌, ◌<◌, ◌≡◌, refl, sym, ◌∙◌, true, List, [], ◌∷◌, ◌++◌, some, uint_mod, arith,
}
use mathlib.Core.Path.{subst}
use thread_management_librar.Base.Options.{some-injective}
use thread_management_librar.Sync.Semaphore.{SyncSem, dec_uint, inc_uint}
use thread_management_librar.Sync.CountingLaws.{wait_loop-returned, wait_loop-waits, post-success}
use thread_management_librar.Demos.Exchange.{
  Buffer, Pc, rouse, System, ProducerStep, p_enter, p_leave, p_take, p_sleep, p_lock, p_produce,
  p_unlock, p_post, ConsumerStep, c_enter, c_leave, c_take, c_sleep, c_lock, c_consume, c_unlock,
  c_post, of_producer, of_consumer, Reach, begin, then_step, wake_producer, wake_consumer,
}
use thread_management_librar.Demos.Exchange.Counts.{
  made, Counts, p_enter_lem, p_leave_lem, p_take_lem, p_sleep_lem, p_lock_lem, p_produce_lem,
  p_unlock_lem, p_post_lem, c_enter_lem, c_leave_lem, c_take_lem, c_sleep_lem, c_lock_lem,
  c_consume_lem, c_unlock_lem, c_post_lem, wake_p_lem, wake_c_lem, room_for, item_for, rouse-same,
}

abbrev pub list_sum : List ℕ → ℕ
list_sum [] = 0
list_sum (x ∷ xs) = x + list_sum xs

pub list_sum-append : (xs : List ℕ) (y : ℕ) → list_sum (xs ++ y ∷ []) ≡ list_sum xs + y
list_sum-append [] y = omega arith
list_sum-append (x ∷ xs) y = omega (arith, list_sum-append xs y)

-- What a buffer says of its contents after `produced` items were put in and `received` taken out, with
-- `stock` left.
pub record Account {B : Type 0} (cells : Buffer B) : Type 1 where
  pub Told : (received : List ℕ) (produced stock : ℕ) → B → Type 0
  pub begins : Told [] 0 0 cells.cleared
  pub produces :
      (received : List ℕ) (produced stock : ℕ) (b : B)
      → Told received produced stock b
      → stock < 5
      → (b' : B) × (cells.produce (produced + 1) b ≡ some b')
        × Told received (produced + 1) (suc stock) b'
  pub consumes :
      (received : List ℕ) (produced stock : ℕ) (b : B)
      → Told received produced (suc stock) b
      → (item : ℕ) × (b' : B) × (cells.consume b ≡ some (item, b'))
        × Told (received ++ item ∷ []) produced stock b'

module _ {B : Type 0} (cells : Buffer B) (account : Account cells) (items : ℕ) where
  pub record Inv (s : System B) : Type 0 where
    pub stock : ℕ
    pub counts : Counts items s.empty_slots.count s.full_slots.count stock s.producer s.consumer
    pub told : account.Told s.received (made items s.producer) stock s.buffer
    pub total : s.sum ≡ list_sum s.received % uint_mod
    pub empty_ready : s.empty_slots.initialized ≡ true
    pub full_ready : s.full_slots.initialized ≡ true

  module _ {s : System B} (h : Inv s) where
    -- What is known when the producer stands at `p`.
    producer-Counts :
        {p : Pc}
        → s.producer ≡ p
        → Counts items s.empty_slots.count s.full_slots.count h.stock p s.consumer
    producer-Counts e =
        subst (λ (p : Pc). Counts items s.empty_slots.count s.full_slots.count h.stock p s.consumer)
          e h.counts

    producer_told :
        {p : Pc} → s.producer ≡ p → account.Told s.received (made items p) h.stock s.buffer
    producer_told e =
        subst (λ (p : Pc). account.Told s.received (made items p) h.stock s.buffer) e h.told

    consumer-Counts :
        {c : Pc}
        → s.consumer ≡ c
        → Counts items s.empty_slots.count s.full_slots.count h.stock s.producer c
    consumer-Counts e =
        subst (λ (c : Pc). Counts items s.empty_slots.count s.full_slots.count h.stock s.producer c)
          e h.counts

    -- The producer gets to `p'` and nothing but a semaphore changes.
    producer_moves :
        {p p' c' : Pc} (x y : SyncSem)
        → s.producer ≡ p
        → made items p ≡ made items p'
        → Counts items x.count y.count h.stock p' c'
        → x.initialized ≡ true
        → y.initialized ≡ true
        → Inv (record s { producer = p'; consumer = c'; empty_slots = x; full_slots = y })
    producer_moves {p} {p'} x y e same counts ready_x ready_y = record {
      stock = h.stock;
      counts = counts;
      told = subst (λ (m : ℕ). account.Told s.received m h.stock s.buffer) same (producer_told e);
      total = h.total;
      empty_ready = ready_x;
      full_ready = ready_y;
    }

    ProducerStep-Inv : {s' : System B} → ProducerStep cells items s s' → Inv s'
    ProducerStep-Inv (p_enter i e t) =
        producer_moves s.empty_slots s.full_slots e refl (p_enter_lem items (producer-Counts e) t)
          h.empty_ready h.full_ready
    ProducerStep-Inv (p_leave i e t) =
        producer_moves s.empty_slots s.full_slots e (ground (arith, (producer-Counts e).p_in))
          (p_leave_lem items (producer-Counts e) t) h.empty_ready h.full_ready
    ProducerStep-Inv (p_take i {x} e w) =
        let (some_slot, same) = wait_loop-returned s.empty_slots x w in
        rw same (
          producer_moves (record s.empty_slots { count = dec_uint s.empty_slots.count })
            s.full_slots e refl (p_take_lem items (producer-Counts e) some_slot) h.empty_ready
            h.full_ready)
    ProducerStep-Inv (p_sleep i {x} e w) =
        let (none_left, same) = wait_loop-waits s.empty_slots x w in
        rw same (
          producer_moves s.empty_slots s.full_slots e refl
            (p_sleep_lem items (producer-Counts e) none_left) h.empty_ready h.full_ready)
    ProducerStep-Inv (p_lock i e free) =
        producer_moves s.empty_slots s.full_slots e refl (p_lock_lem items (producer-Counts e) free)
          h.empty_ready h.full_ready
    ProducerStep-Inv (p_produce i {b} e q) =
        let (b', produced, told) =
          account.produces s.received i h.stock s.buffer (producer_told e)
            (room_for items (producer-Counts e)) in
        record {
          stock = suc h.stock;
          counts = p_produce_lem items (producer-Counts e);
          told =
              subst (λ (y : B). account.Told s.received (i + 1) (suc h.stock) y)
                (some-injective b' b (sym produced ∙ q)) told;
          total = h.total;
          empty_ready = h.empty_ready;
          full_ready = h.full_ready;
        }
    ProducerStep-Inv (p_unlock i e) =
        producer_moves s.empty_slots s.full_slots e refl (p_unlock_lem items (producer-Counts e))
          h.empty_ready h.full_ready
    ProducerStep-Inv (p_post i {x} e w) = rw (post-success s.full_slots x w) (
        producer_moves s.empty_slots (record s.full_slots { count = inc_uint s.full_slots.count }) e
          refl (p_post_lem items (producer-Counts e)) h.empty_ready h.full_ready)

    -- The consumer moves and nothing but a semaphore changes; it may wake the producer.
    consumer_moves :
        {p' c' : Pc} (x y : SyncSem)
        → made items s.producer ≡ made items p'
        → Counts items x.count y.count h.stock p' c'
        → x.initialized ≡ true
        → y.initialized ≡ true
        → Inv (record s { producer = p'; consumer = c'; empty_slots = x; full_slots = y })
    consumer_moves x y same counts ready_x ready_y = record {
      stock = h.stock;
      counts = counts;
      told = subst (λ (m : ℕ). account.Told s.received m h.stock s.buffer) same h.told;
      total = h.total;
      empty_ready = ready_x;
      full_ready = ready_y;
    }

    -- The same where neither semaphore changes.
    consumer_goes :
        {c' : Pc}
        → Counts items s.empty_slots.count s.full_slots.count h.stock s.producer c'
        → Inv (record s { consumer = c' })
    consumer_goes counts =
        consumer_moves s.empty_slots s.full_slots refl counts h.empty_ready h.full_ready

    ConsumerStep-Inv : {s' : System B} → ConsumerStep cells items s s' → Inv s'
    ConsumerStep-Inv (c_enter i e t) = consumer_goes (c_enter_lem items (consumer-Counts e) t)
    ConsumerStep-Inv (c_leave i e t) = consumer_goes (c_leave_lem items (consumer-Counts e) t)
    ConsumerStep-Inv (c_take i {x} e w) =
        let (some_item, same) = wait_loop-returned s.full_slots x w in
        rw same (
          consumer_moves s.empty_slots (record s.full_slots { count = dec_uint s.full_slots.count })
            refl (c_take_lem items (consumer-Counts e) some_item) h.empty_ready h.full_ready)
    ConsumerStep-Inv (c_sleep i {x} e w) =
        let (none_left, same) = wait_loop-waits s.full_slots x w in
        rw same (consumer_goes (c_sleep_lem items (consumer-Counts e) none_left))
    ConsumerStep-Inv (c_lock i e free) = consumer_goes (c_lock_lem items (consumer-Counts e) free)
    ConsumerStep-Inv (c_consume i item {b} e q) =
        let some_stock : suc (h.stock - 1) ≡ h.stock =
          omega (arith, item_for items (consumer-Counts e)) in
        let (x, b', consumed, told) =
          account.consumes s.received (made items s.producer) (h.stock - 1) s.buffer
            (rw some_stock h.told) in
        let pair : ◌≡◌ {A = ℕ × B} (x, b') (item, b) =
          some-injective (x, b') (item, b) (sym consumed ∙ q) in
        record {
          stock = h.stock - 1;
          counts = c_consume_lem items (rw (← some_stock) at (consumer-Counts e));
          told =
              subst
                (λ (y : ℕ × B).
                  account.Told (s.received ++ y.0 ∷ []) (made items s.producer) (h.stock - 1) y.1)
                pair told;
          total = omega (arith, h.total, list_sum-append s.received item);
          empty_ready = h.empty_ready;
          full_ready = h.full_ready;
        }
    ConsumerStep-Inv (c_unlock i e) = consumer_goes (c_unlock_lem items (consumer-Counts e))
    ConsumerStep-Inv (c_post i {x} e w) =
        let (same, _, _) = rouse-same items s.producer in
        rw (post-success s.empty_slots x w) (
          consumer_moves (record s.empty_slots { count = inc_uint s.empty_slots.count })
            s.full_slots same (c_post_lem items (consumer-Counts e)) h.empty_ready h.full_ready)

    producer_woken : Inv (record s { producer = rouse s.producer })
    producer_woken =
        let (same, _, _) = rouse-same items s.producer in
        consumer_moves s.empty_slots s.full_slots same (wake_p_lem items h.counts) h.empty_ready
          h.full_ready

  pub Reach-Inv : {s : System B} → Reach cells items s → Inv s
  Reach-Inv begin = record {
    stock = 0;
    counts = ground arith;
    told = account.begins;
    total = refl;
    empty_ready = refl;
    full_ready = refl;
  }
  Reach-Inv (then_step r (of_producer step)) = ProducerStep-Inv (Reach-Inv r) step
  Reach-Inv (then_step r (of_consumer step)) = ConsumerStep-Inv (Reach-Inv r) step
  Reach-Inv (wake_producer r) = producer_woken (Reach-Inv r)
  Reach-Inv (wake_consumer r) = let h = Reach-Inv r in consumer_goes h (wake_c_lem items h.counts)
