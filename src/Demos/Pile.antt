-- ===== src/Demos/Pile.antt =====
-- The buffer of demo 3 of examples/visual_demo.c: 5 cells and a count, taken from the end.
use thread_management_librar.Base.{
  ℕ, zero, suc, ◌+◌, ◌-◌, ◌*◌, ◌^◌, ◌≤◌, ◌<◌, ◌≡◌, ◌==◌, ltb, refl, ap, true, List, [], ◌∷◌, ◌++◌,
  Option, none, some, if◌then◌else◌, if-true, arith,
}
use thread_management_librar.Base.Threads.{assign}
use thread_management_librar.Base.Totals.{total, total-beyond}
use thread_management_librar.Demos.Exchange.{
  Buffer, Pc, finished, System, ProducerStep, ConsumerStep, Reach,
}
use thread_management_librar.Demos.Exchange.Counts.{Counts, made}
use thread_management_librar.Demos.Exchange.Delivery.{Account, Reach-Inv, list_sum, list_sum-append}

-- `BUFFER_SIZE`
abbrev pub buffer_size : ℕ
buffer_size = 5

pub record Pile : Type 0 where
  pub buffer : ℕ → ℕ
  pub buffer_count : ℕ

-- What `producer_visual` does with the mutex.
unfoldable pub add_item : (item : ℕ) → Pile → Option Pile
add_item item s =
    if ltb s.buffer_count buffer_size
    then some
        (record { buffer = assign s.buffer s.buffer_count item; buffer_count = s.buffer_count + 1 })
    else none

-- What `consumer_visual` does with the mutex; a count of 0 would give the index -1.
unfoldable pub remove_item : Pile → Option (ℕ × Pile)
remove_item s =
    if ltb 0 s.buffer_count
    then some (s.buffer (s.buffer_count - 1), record s { buffer_count = s.buffer_count - 1 })
    else none

abbrev pub pile : Buffer Pile
pile = record {
  cleared = record { buffer = λ _. 0; buffer_count = 0 };
  produce = add_item;
  consume = remove_item;
}

abbrev pub ProducerVisual : System Pile → System Pile → Type 0
ProducerVisual s = ProducerStep pile 10 s

abbrev pub ConsumerVisual : System Pile → System Pile → Type 0
ConsumerVisual s = ConsumerStep pile 10 s

-- `print_buffer`: what it prints for each cell.
pub data Cell : Type 0 where
  shown : ℕ → Cell
  blank : Cell

unfoldable pub print_buffer : Pile → (rounds i : ℕ) → List Cell
print_buffer s zero i = []
print_buffer s (suc rounds) i =
    (if ltb i s.buffer_count then shown (s.buffer i) else blank) ∷ print_buffer s rounds (i + 1)

-- The count is the number of items, and the items taken and in the pile add up to those produced.
pub record InPile (received : List ℕ) (produced stock : ℕ) (s : Pile) : Type 0 where
  pub count : s.buffer_count ≡ stock
  pub room : stock ≤ buffer_size
  pub balance :
      2 * list_sum received + 2 * total (λ x. x) stock s.buffer ≡ produced * (produced + 1)

pub add_item-some :
    (item : ℕ) (s : Pile)
    → ltb s.buffer_count buffer_size ≡ true
    → add_item item s
      ≡ some (record {
        buffer = assign s.buffer s.buffer_count item;
        buffer_count = s.buffer_count + 1;
      })
unfolding add_item
add_item-some item s inside = if-true (ltb s.buffer_count buffer_size) _ _ inside

pub remove_item-some :
    (s : Pile)
    → ltb 0 s.buffer_count ≡ true
    → remove_item s
      ≡ some (s.buffer (s.buffer_count - 1), record s { buffer_count = s.buffer_count - 1 })
unfolding remove_item
remove_item-some s some_item = if-true (ltb 0 s.buffer_count) _ _ some_item

pub InPile-put :
    (received : List ℕ) (p k : ℕ) (s : Pile)
    → InPile received p k s
    → k < 5
    → InPile received (p + 1) (suc k) (record {
      buffer = assign s.buffer s.buffer_count (p + 1);
      buffer_count = s.buffer_count + 1;
    })
unfolding total
InPile-put received p k s h some_room = record {
  count = omega (arith, h.count);
  room = omega arith;
  balance = rw h.count (
      let here : (k == k) ≡ true = ground arith in
      rw here (omega (arith, h.balance, total-beyond (λ x. x) k k s.buffer (p + 1) (omega arith))));
}

pub InPile-take :
    (received : List ℕ) (p k : ℕ) (s : Pile)
    → InPile received p (suc k) s
    → InPile
        (received ++ s.buffer (s.buffer_count - 1) ∷ [])
        p
        k
        (record s { buffer_count = s.buffer_count - 1 })
unfolding total
InPile-take received p k s h =
    let top : s.buffer_count - 1 ≡ k = omega (arith, h.count) in
    rw top (record {
      count = refl;
      room = omega (arith, h.room);
      balance = omega (arith, h.balance, list_sum-append received (s.buffer k));
    })

pub empty_pile : InPile [] 0 0 pile.cleared
unfolding total
empty_pile = record { count = refl; room = omega arith; balance = refl }

pub add_inside :
    {received : List ℕ} {p k : ℕ} {s : Pile}
    → InPile received p k s
    → k < 5
    → ltb s.buffer_count buffer_size ≡ true
add_inside h some_room = ground (arith, h.count)

pub remove_inside :
    {received : List ℕ} {p k : ℕ} {s : Pile}
    → InPile received p (suc k) s
    → ltb 0 s.buffer_count ≡ true
remove_inside h = ground (arith, h.count)

-- The account of the pile.
abbrev pub pile_account : Account pile
pile_account = record {
  Told = InPile;
  begins = empty_pile;
  produces = λ received p k s h some_room.
      (_, add_item-some (p + 1) s (add_inside h some_room), InPile-put received p k s h some_room);
  consumes = λ received p k s h.
      (_, _, remove_item-some s (remove_inside h), InPile-take received p k s h);
}

made-le : (items : ℕ) {e f k : ℕ} {p c : Pc} → Counts items e f k p c → made items p ≤ items
made-le items h = ground (arith, h)

-- In demo 3 `buffer_count` is, in every state that the two threads can come to, the number of items that
-- the producer has added and the consumer has not removed yet, and at most BUFFER_SIZE.
pub buffer_count_right :
    {items : ℕ} {s : System Pile}
    → Reach pile items s
    → (s.buffer.buffer_count ≤ buffer_size)
      × (made items s.consumer + s.buffer.buffer_count ≡ made items s.producer)
buffer_count_right {items} r =
    let h = Reach-Inv pile pile_account items r in
    (omega (arith, h.told.count, h.told.room), omega (arith, h.told.count, h.counts.flow))

-- When the consumer of demo 3 has ended, the pile is empty and the sum that it prints is half of
-- items * (items + 1), which is 55 for the 10 items of the program, in whatever order the last items were
-- taken from the pile; for a sum that an int can hold.
pub visual_sum_right :
    {items : ℕ} {s : System Pile}
    → Reach pile items s
    → items * (items + 1) < 2 ^ 32
    → s.consumer ≡ finished
    → (s.buffer.buffer_count ≡ 0) × (2 * s.sum ≡ items * (items + 1))
unfolding total
visual_sum_right {items} {s} r small over =
    let h = Reach-Inv pile pile_account items r in
    let none_left : h.stock ≡ 0 =
      omega (arith, h.counts.flow, ap (made items) over, made-le items h.counts) in
    let all : made items s.producer ≡ items =
      omega (arith, none_left, h.counts.flow, ap (made items) over) in
    (
      omega (arith, h.told.count, none_left),
      omega (arith, h.total, rw (none_left, all) at h.told.balance),
    )
