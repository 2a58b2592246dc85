-- ===== src/Scheduler/Store.antt =====
-- The memory that src/scheduler.c works on: the task nodes, one `task_queue_t`, and the signals
-- that were sent on its condition variables. Commands over it fault on a bad pointer.
pub use thread_management_librar.Base.{Ptr, null}
use thread_management_librar.Base.{ℕ, Bool, Option, none, some, List, ◌∷◌, ◌==◌, if◌then◌else◌}

-- `task_priority_t`
pub data Priority : Type 0 where
  low normal high critical : Priority

-- `task_node_t`, the link apart. A function and its argument are addresses.
pub record Task : Type 0 where
  pub func : Ptr
  pub arg : Ptr
  pub priority : Priority
  pub submit_time : ℕ

pub record TaskNode : Type 0 where
  pub task : Task
  pub open task use *
  pub next : Ptr

-- `task_queue_t`. Of the lock and the two condition variables it keeps whether they are initialised.
pub record TaskQueue : Type 0 where
  pub head : Ptr
  pub tail : Ptr
  pub count : ℕ
  pub capacity : ℕ
  pub lock : Bool
  pub not_empty : Bool
  pub not_full : Bool
  pub shutdown : Bool

-- What a call sent to the threads that wait.
pub data Signal : Type 0 where
  signal_not_empty signal_not_full broadcast_not_empty broadcast_not_full : Signal

pub record Store : Type 0 where
  pub node : Ptr → Option TaskNode
  pub queue : TaskQueue
  pub signals : List Signal

-- `none` is a fault: a read or a `free` through a pointer that names no node.
abbrev pub Cmd : Type 0 → Type 0
Cmd A = Store → Option (A × Store)

abbrev pub pure : {A : Type 0} → A → Cmd A
pure a s = some (a, s)

infixl 5 ◌>>=◌ ◌>>◌
abbrev pub ◌>>=◌ : {A B : Type 0} → Cmd A → (A → Cmd B) → Cmd B
◌>>=◌ m k s = elim (m s) [ none ↦ none | some (a, s') ↦ k a s' ]

abbrev pub ◌>>◌ : {B : Type 0} → Cmd (Unit {0}) → Cmd B → Cmd B
m >> k = m >>= λ _. k

abbrev pub write : (Ptr → Option TaskNode) → Ptr → Option TaskNode → Ptr → Option TaskNode
write h p c a = if a == p then c else h a

-- `*queue`, and an assignment to it.
abbrev pub get_queue : Cmd TaskQueue
get_queue s = some (s.queue, s)

abbrev pub put_queue : TaskQueue → Cmd (Unit {0})
put_queue q s = some (tt, record s { queue = q })

-- The fields of a node that `malloc` returned.
abbrev pub store : Ptr → TaskNode → Cmd (Unit {0})
store p n s = some (tt, record s { node = write s.node p (some n) })

unfoldable pub load : Ptr → Cmd TaskNode
load p s = if p == null then none else elim (s.node p) [ none ↦ none | some n ↦ some (n, s) ]

-- `p->next = q`
unfoldable pub set_next : Ptr → Ptr → Cmd (Unit {0})
set_next p q = do n ← load p; store p (record n { next = q })

unfoldable pub free : Ptr → Cmd (Unit {0})
free p = do _ ← load p; λ s. some (tt, record s { node = write s.node p none })

-- `pthread_cond_signal` and `pthread_cond_broadcast`, the newest first.
abbrev pub send : Signal → Cmd (Unit {0})
send c s = some (tt, record s { signals = c ∷ s.signals })
