-- ===== src/Demos/Examples/Exchanges.antt =====
-- Runs of the producer and the consumer of examples/hello_threads.c and examples/visual_demo.c.
use thread_management_librar.Base.{ℕ, ◌+◌, ◌≤◌, ◌<◌, ◌≡◌, refl, [], ◌∷◌, length}
use thread_management_librar.Sync.Semaphore.{wait_loop, sync_sem_post}
use thread_management_librar.Demos.Exchange.{
  Buffer, System, p_enter, p_take, p_lock, p_produce, p_unlock, p_post, c_enter, c_sleep, c_take,
  c_lock, c_consume, Step, of_producer, of_consumer, Reach, begin, then_step,
}
use thread_management_librar.Demos.Exchange.Counts.{made}
use thread_management_librar.Demos.Exchange.Ends.{exchange_goes_on, work_left}
use thread_management_librar.Demos.Ring.{
  Ring, ring, ring_account, numbers_to, put_item, take_item, items_in_order,
}

record Run {B : Type 0} (cells : Buffer B) (items : ℕ) : Type 0 where
  last : System B
  reach : Reach cells items last

-- The consumer sleeps before the producer has put its first item, and is woken by the post.
item_put : Run ring 2
unfolding wait_loop sync_sem_post put_item
item_put = record {
  last = _;
  reach =
      then_step
        (then_step
          (then_step
            (then_step
              (then_step
                (then_step
                  (then_step (then_step begin (of_consumer (c_enter 0 refl refl)))
                    (of_consumer (c_sleep 0 refl refl)))
                  (of_producer (p_enter 0 refl refl)))
                (of_producer (p_take 0 refl refl)))
              (of_producer (p_lock 0 refl refl)))
            (of_producer (p_produce 0 refl refl)))
          (of_producer (p_unlock 0 refl)))
        (of_producer (p_post 0 refl refl));
}

item_taken : Run ring 2
unfolding item_put wait_loop take_item
item_taken = record {
  last = _;
  reach =
      then_step
        (then_step (then_step item_put.reach (of_consumer (c_take 0 refl refl)))
          (of_consumer (c_lock 0 refl refl)))
        (of_consumer (c_consume 0 1 refl refl));
}

items_in_order_example :
    (item_taken.last.received ≡ numbers_to (length item_taken.last.received))
    × (length item_taken.last.received ≤ made 2 item_taken.last.producer)
    × (made 2 item_taken.last.producer ≤ length item_taken.last.received + 5)
items_in_order_example = items_in_order item_taken.reach

one_taken : item_taken.last.received ≡ 1 ∷ []
unfolding item_taken item_put
one_taken = refl

exchange_goes_on_example :
    (s' : System Ring) × Step ring 2 item_put.last s'
    × (work_left ring ring_account 2 s' < work_left ring ring_account 2 item_put.last)
unfolding item_put
exchange_goes_on_example = exchange_goes_on ring ring_account 2 item_put.reach refl
