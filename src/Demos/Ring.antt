-- ===== src/Demos/Ring.antt =====
-- The buffer of example 3 of examples/hello_threads.c: a ring of 5 cells with two indices.
use thread_management_librar.Base.{
  ℕ, zero, suc, ◌+◌, ◌*◌, ◌%◌, ◌^◌, ◌≤◌, ◌<◌, ◌≡◌, ◌==◌, ltb, refl, sym, ◌∙◌, ap, true, List, [],
  ◌∷◌, ◌++◌, Option, none, some, length, if◌then◌else◌, if-true, arith, Bool-cases, inl, inr,
  length-append,
}
use thread_management_librar.Base.Threads.{assign}
use thread_management_librar.Demos.Exchange.{
  Buffer, finished, System, ProducerStep, ConsumerStep, Reach,
}
use thread_management_librar.Demos.Exchange.Counts.{made}
use thread_management_librar.Demos.Exchange.Delivery.{Account, Reach-Inv, list_sum, list_sum-append}

pub record Ring : Type 0 where
  pub buffer : ℕ → ℕ
  pub buffer_in : ℕ
  pub buffer_out : ℕ

-- What `producer_task` does with the mutex, for the item `i + 1`.
unfoldable pub put_item : (item : ℕ) → Ring → Option Ring
put_item item r =
    if ltb r.buffer_in 5
    then some
        (record r { buffer = assign r.buffer r.buffer_in item; buffer_in = (r.buffer_in + 1) % 5 })
    else none

-- What `consumer_task` does with the mutex.
unfoldable pub take_item : Ring → Option (ℕ × Ring)
take_item r =
    if ltb r.buffer_out 5
    then some (r.buffer r.buffer_out, record r { buffer_out = (r.buffer_out + 1) % 5 })
    else none

abbrev pub ring : Buffer Ring
ring = record {
  cleared = record { buffer = λ _. 0; buffer_in = 0; buffer_out = 0 };
  produce = put_item;
  consume = take_item;
}

abbrev pub ProducerTask : (items : ℕ) → System Ring → System Ring → Type 0
ProducerTask items s = ProducerStep ring items s

abbrev pub ConsumerTask : (items : ℕ) → System Ring → System Ring → Type 0
ConsumerTask items s = ConsumerStep ring items s

-- The numbers 1 to `n`.
abbrev pub numbers_to : ℕ → List ℕ
numbers_to zero = []
numbers_to (suc n) = numbers_to n ++ (n + 1) ∷ []

-- The items from the first to the last that is in the ring are there, and those before it were taken.
pub record InRing (received : List ℕ) (produced stock : ℕ) (r : Ring) : Type 0 where
  pub in_order : received ≡ numbers_to (length received)
  pub flow : length received + stock ≡ produced
  pub room : stock ≤ 5
  pub in_at : r.buffer_in ≡ produced % 5
  pub out_at : r.buffer_out ≡ length received % 5
  pub cells_hold : (j : ℕ) → length received ≤ j → j < produced → r.buffer (j % 5) ≡ j + 1

pub put_item-some :
    (item : ℕ) (r : Ring)
    → ltb r.buffer_in 5 ≡ true
    → put_item item r
      ≡ some (record r {
        buffer = assign r.buffer r.buffer_in item;
        buffer_in = (r.buffer_in + 1) % 5;
      })
unfolding put_item
put_item-some item r inside = if-true (ltb r.buffer_in 5) _ _ inside

pub take_item-some :
    (r : Ring)
    → ltb r.buffer_out 5 ≡ true
    → take_item r ≡ some (r.buffer r.buffer_out, record r { buffer_out = (r.buffer_out + 1) % 5 })
unfolding take_item
take_item-some r inside = if-true (ltb r.buffer_out 5) _ _ inside

pub length-snoc : (xs : List ℕ) (x : ℕ) → length (xs ++ x ∷ []) ≡ suc (length xs)
length-snoc xs x = omega (arith, length-append xs (x ∷ []))

module _ (received : List ℕ) (p k : ℕ) (r : Ring) where
  abbrev pub after_put : Ring
  after_put = record r {
    buffer = assign r.buffer r.buffer_in (p + 1);
    buffer_in = (r.buffer_in + 1) % 5;
  }

  pub InRing-put : InRing received p k r → k < 5 → InRing received (p + 1) (suc k) after_put
  InRing-put h some_room = record {
    in_order = h.in_order;
    flow = omega (arith, h.flow);
    room = omega arith;
    in_at = omega (arith, h.in_at);
    out_at = h.out_at;
    cells_hold = λ j from below. elim (Bool-cases (j % 5 == r.buffer_in)) [
      | inl here ↦ ground (arith, h.in_at, h.flow)
      | inr other ↦ rw other (h.cells_hold j from (ground (arith, h.in_at, h.flow)))
    ];
  }

  abbrev pub after_take : Ring
  after_take = record r { buffer_out = (r.buffer_out + 1) % 5 }

  pub InRing-take :
      (item : ℕ)
      → item ≡ length received + 1
      → InRing received p (suc k) r
      → InRing (received ++ item ∷ []) p k after_take
  InRing-take item e h = record {
    in_order =
        ap (λ (l : List ℕ). l ++ item ∷ []) h.in_order
        ∙ ap (λ (x : ℕ). numbers_to (length received) ++ x ∷ []) e
        ∙ sym (ap numbers_to (length-snoc received item));
    flow = omega (arith, h.flow, length-snoc received item);
    room = omega (arith, h.room);
    in_at = h.in_at;
    out_at = omega (arith, h.out_at, length-snoc received item);
    cells_hold = λ j from below. h.cells_hold j (omega (arith, length-snoc received item)) below;
  }

pub empty_ring : InRing [] 0 0 ring.cleared
empty_ring = record {
  in_order = refl;
  flow = refl;
  room = omega arith;
  in_at = refl;
  out_at = refl;
  cells_hold = λ j from below. absurd (omega arith);
}

pub put_inside :
    {received : List ℕ} {p k : ℕ} {r : Ring} → InRing received p k r → ltb r.buffer_in 5 ≡ true
put_inside h = ground (arith, h.in_at)

pub take_inside :
    {received : List ℕ} {p k : ℕ} {r : Ring} → InRing received p k r → ltb r.buffer_out 5 ≡ true
take_inside h = ground (arith, h.out_at)

pub oldest :
    {received : List ℕ} {p k : ℕ} {r : Ring}
    → InRing received p (suc k) r
    → r.buffer r.buffer_out ≡ length received + 1
oldest {received} h =
    rw h.out_at (h.cells_hold (length received) (omega arith) (omega (arith, h.flow)))

-- The account of the ring.
abbrev pub ring_account : Account ring
ring_account = record {
  Told = InRing;
  begins = empty_ring;
  produces = λ received p k r h some_room.
      (_, put_item-some (p + 1) r (put_inside h), InRing-put received p k r h some_room);
  consumes = λ received p k r h. (
    _,
    _,
    take_item-some r (take_inside h),
    InRing-take received p k r (r.buffer r.buffer_out) (oldest h) h,
  );
}

numbers_to-sum : (n : ℕ) → 2 * list_sum (numbers_to n) ≡ n * (n + 1)
numbers_to-sum zero = refl
numbers_to-sum (suc n) = omega (arith, numbers_to-sum n, list_sum-append (numbers_to n) (n + 1))

-- The consumer of example_semaphore takes the items in the order in which the producer puts them into
-- the ring: in every state that the two can come to, what it has taken is 1, 2, 3 and so on, none lost
-- and none twice, and at most 5 items that were put are not taken yet.
pub items_in_order :
    {items : ℕ} {s : System Ring}
    → Reach ring items s
    → (s.received ≡ numbers_to (length s.received))
      × (length s.received ≤ made items s.producer)
      × (made items s.producer ≤ length s.received + 5)
items_in_order {items} r =
    let h = Reach-Inv ring ring_account items r in
    (h.told.in_order, omega (arith, h.told.flow), omega (arith, h.told.flow, h.told.room))

-- When the consumer of example_semaphore has ended, it has taken all items, in order, and its sum is
-- half of items * (items + 1); for a sum that an int can hold.
pub consumer_sum_right :
    {items : ℕ} {s : System Ring}
    → Reach ring items s
    → items * (items + 1) < 2 ^ 32
    → s.consumer ≡ finished
    → (s.received ≡ numbers_to items) × (2 * s.sum ≡ items * (items + 1))
consumer_sum_right {items} {s} r small over =
    let h = Reach-Inv ring ring_account items r in
    let all : length s.received ≡ items =
      omega (arith, h.told.flow, h.counts.flow, ap (made items) over) in
    let taken : s.received ≡ numbers_to items = h.told.in_order ∙ ap numbers_to all in
    (taken, omega (arith, h.total, ap list_sum taken, numbers_to-sum items))
