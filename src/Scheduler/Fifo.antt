-- ===== src/Scheduler/Fifo.antt =====
-- What the task queue of src/scheduler.c promises: a bounded first-in first-out list that can be
-- shut down.
use thread_management_librar.Base.{
  ℕ, ◌≡◌, Bool, true, false, ◌&&◌, List, [], ◌∷◌, ◌++◌, arith, ltb, leb, if◌then◌else◌, length,
}
use thread_management_librar.Scheduler.Store.{Task}

pub record Fifo : Type 0 where
  pub tasks : List Task
  pub capacity : ℕ
  pub shutdown : Bool

-- Capacity 0 means no bound.
abbrev pub is_full : Fifo → Bool
is_full f = ltb 0 f.capacity && leb f.capacity (length f.tasks)

pub data Accept : Type 0 where
  accepted refused full : Accept

-- A push is refused after the shutdown, waits for room, and else goes to the end.
unfoldable pub push : Task → Fifo → Accept × Fifo
push t f =
    if f.shutdown
    then (refused, f)
    else if is_full f
    then (full, f)
    else (accepted, record f { tasks = f.tasks ++ t ∷ [] })

pub data Taken : Type 0 where
  took : Task → Taken
  closed empty : Taken

abbrev pub pop_from : List Task → Fifo → Taken × Fifo
pop_from [] f = (if f.shutdown then closed else empty, f)
pop_from (t ∷ ts) f = (took t, record f { tasks = ts })

-- A pop takes the oldest task, also after the shutdown; an empty queue is waited for or closed.
unfoldable pub pop : Fifo → Taken × Fifo
pop f = pop_from f.tasks f

pub push_down : (t : Task) (f : Fifo) → f.shutdown ≡ true → push t f ≡ (refused, f)
unfolding push
push_down t f e = rw e

pub push_up_full :
    (t : Task) (f : Fifo) → f.shutdown ≡ false → is_full f ≡ true → push t f ≡ (full, f)
unfolding push
push_up_full t f e g = ground arith

pub push_up :
    (t : Task) (f : Fifo)
    → f.shutdown ≡ false
    → is_full f ≡ false
    → push t f ≡ (accepted, record f { tasks = f.tasks ++ t ∷ [] })
unfolding push
push_up t f e g = ground arith

-- Each outcome tells in which state it came.
pub push-accepted :
    (t : Task) (f g : Fifo)
    → push t f ≡ (accepted, g)
    → (f.shutdown ≡ false) × (is_full f ≡ false) × (g ≡ record f { tasks = f.tasks ++ t ∷ [] })
unfolding push
push-accepted t f g e = ground arith

pub push-full :
    (t : Task) (f g : Fifo)
    → push t f ≡ (full, g)
    → (f.shutdown ≡ false) × (is_full f ≡ true) × (g ≡ f)
unfolding push
push-full t f g e = ground arith

pub push-refused : (t : Task) (f g : Fifo) → push t f ≡ (refused, g) → (f.shutdown ≡ true) × (g ≡ f)
unfolding push
push-refused t f g e = ground arith

pop_from-took :
    (ts : List Task) (t : Task) (f g : Fifo)
    → pop_from ts f ≡ (took t, g)
    → (rest : List Task) × (ts ≡ t ∷ rest) × (g ≡ record f { tasks = rest })
pop_from-took [] t f g e = ground arith
pop_from-took (u ∷ ts) t f g e = (ts, ground arith, ground arith)

pub pop-took :
    (t : Task) (f g : Fifo)
    → pop f ≡ (took t, g)
    → (rest : List Task) × (f.tasks ≡ t ∷ rest) × (g ≡ record f { tasks = rest })
unfolding pop
pop-took t f g e = pop_from-took f.tasks t f g e

pop_from-empty :
    (ts : List Task) (f g : Fifo)
    → pop_from ts f ≡ (empty, g)
    → (ts ≡ []) × (f.shutdown ≡ false) × (g ≡ f)
pop_from-empty [] f g e = ground arith
pop_from-empty (t ∷ ts) f g e = ground arith

pub pop-empty : (f g : Fifo) → pop f ≡ (empty, g) → (f.tasks ≡ []) × (f.shutdown ≡ false) × (g ≡ f)
unfolding pop
pop-empty f g e = pop_from-empty f.tasks f g e

pop_from-closed :
    (ts : List Task) (f g : Fifo)
    → pop_from ts f ≡ (closed, g)
    → (ts ≡ []) × (f.shutdown ≡ true) × (g ≡ f)
pop_from-closed [] f g e = ground arith
pop_from-closed (t ∷ ts) f g e = ground arith

pub pop-closed : (f g : Fifo) → pop f ≡ (closed, g) → (f.tasks ≡ []) × (f.shutdown ≡ true) × (g ≡ f)
unfolding pop
pop-closed f g e = pop_from-closed f.tasks f g e
