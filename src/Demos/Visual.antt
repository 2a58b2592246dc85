-- ===== src/Demos/Visual.antt =====
-- The task display of examples/visual_demo.c: the state that the tasks of demo 1 keep, and what is printed
-- of it. An `atomic_int` has 32 bits and wraps around.
pub mod Counts
pub mod Shown
pub mod Printing
pub mod Screen
pub mod Script
pub mod Timed
pub mod Program
pub mod Clean
pub mod Refresh
use thread_management_librar.Base.{
  ℕ, zero, suc, ◌+◌, ◌-◌, ◌*◌, ◌%◌, ◌/◌, ◌<◌, ◌≡◌, ◌==◌, Bool, true, false, ◌&&◌, ltb,
  if◌then◌else◌, List, [], ◌∷◌, uint_mod,
}
use thread_management_librar.Base.Threads.{assign}

-- `visual_state_t`, with `worker_id_counter`.
pub record VisualState : Type 0 where
  pub worker_states : ℕ → ℕ
  pub tasks_completed : ℕ
  pub tasks_total : ℕ
  pub queue_size : ℕ
  pub num_workers : ℕ
  pub worker_id_counter : ℕ

-- `atomic_fetch_add(&x, 1)` and `atomic_fetch_sub(&x, 1)`
abbrev pub inc_int : ℕ → ℕ
inc_int x = (x + 1) % uint_mod

abbrev pub dec_int : ℕ → ℕ
dec_int x = (x + uint_mod - 1) % uint_mod

-- Where a task of demo 1 stands; the main thread has it until it is queued.
pub data Pc : Type 0 where
  not_submitted : Pc
  announced : Pc  -- `queue_size` is raised, before `sthread_pool_submit`
  queued : Pc  -- in the pool, up to the start of `visual_task`
  assigned : (worker : ℕ) → Pc  -- before it marks its worker as busy
  marked : (worker : ℕ) → Pc  -- before it lowers `queue_size`
  working : (worker : ℕ) → Pc  -- in `sleep_ms`
  unmarked : Pc  -- its worker is marked as idle, before it raises `tasks_completed`
  finished : Pc

pub record Display : Type 0 where
  pub g_state : VisualState
  pub next_task : ℕ  -- `i` of the loop that submits
  pub pc : ℕ → Pc

-- After the initialisation in `demo_basic_pool`.
abbrev pub start : (workers tasks : ℕ) → Display
start workers tasks = record {
  g_state = record {
    worker_states = λ _. 0;
    tasks_completed = 0;
    tasks_total = tasks;
    queue_size = 0;
    num_workers = workers;
    worker_id_counter = 0;
  };
  next_task = 0;
  pc = λ _. not_submitted;
}

-- One step of the loop of `demo_basic_pool` that submits the `n` tasks.
pub data SubmitStep (n : ℕ) (s : Display) : Display → Type 0 where
  announce :
      (t : ℕ)
      → t < n
      → t ≡ s.next_task
      → s.pc t ≡ not_submitted
      → SubmitStep n s (record s {
        g_state = record s.g_state { queue_size = inc_int s.g_state.queue_size };
        pc = assign s.pc t announced;
      })
  submit :
      (t : ℕ)
      → t < n
      → t ≡ s.next_task
      → s.pc t ≡ announced
      → SubmitStep n s (record s { next_task = t + 1; pc = assign s.pc t queued })

-- One step of `visual_task`.
pub data TaskStep (n : ℕ) (s : Display) : Display → Type 0 where
  take_worker :
      (t : ℕ)
      → t < n
      → s.pc t ≡ queued
      → TaskStep n s (record s {
        g_state = record s.g_state { worker_id_counter = inc_int s.g_state.worker_id_counter };
        pc = assign s.pc t (assigned (s.g_state.worker_id_counter % s.g_state.num_workers));
      })
  mark_busy :
      (t w : ℕ)
      → t < n
      → s.pc t ≡ assigned w
      → TaskStep n s (record s {
        g_state = record s.g_state { worker_states = assign s.g_state.worker_states w 1 };
        pc = assign s.pc t (marked w);
      })
  lower_queue :
      (t w : ℕ)
      → t < n
      → s.pc t ≡ marked w
      → TaskStep n s (record s {
        g_state = record s.g_state { queue_size = dec_int s.g_state.queue_size };
        pc = assign s.pc t (working w);
      })
  mark_idle :
      (t w : ℕ)
      → t < n
      → s.pc t ≡ working w
      → TaskStep n s (record s {
        g_state = record s.g_state { worker_states = assign s.g_state.worker_states w 0 };
        pc = assign s.pc t unmarked;
      })
  complete :
      (t : ℕ)
      → t < n
      → s.pc t ≡ unmarked
      → TaskStep n s (record s {
        g_state = record s.g_state { tasks_completed = inc_int s.g_state.tasks_completed };
        pc = assign s.pc t finished;
      })

pub data Reach (workers n : ℕ) : Display → Type 0 where
  begin : Reach workers n (start workers n)
  then_submit : {s s' : Display} → Reach workers n s → SubmitStep n s s' → Reach workers n s'
  then_task : {s s' : Display} → Reach workers n s → TaskStep n s s' → Reach workers n s'

-- What is printed for a cell of a bar.
pub data Glyph : Type 0 where
  full : Glyph
  edge : Glyph
  dim : Glyph

-- The loop of `print_progress_bar`.
unfoldable pub bar_cells : (filled rounds i : ℕ) → List Glyph
bar_cells filled zero i = []
bar_cells filled (suc rounds) i =
    (if ltb i filled then full else if i == filled then edge else dim)
    ∷ bar_cells filled rounds (i + 1)

-- The cells and the percentage.
unfoldable pub print_progress_bar : (current total : ℕ) → List Glyph × ℕ
print_progress_bar current total =
    let width : ℕ = 40 in
    let filled = current * width / total in
    let percent = current * 100 / total in (bar_cells filled width 0, percent)

-- `VISUAL_QUEUE_SIZE`
abbrev pub visual_queue_size : ℕ
visual_queue_size = 20

-- The loop of `print_queue_visual`.
unfoldable pub queue_cells : (queue rounds i : ℕ) → List Glyph
queue_cells queue zero i = []
queue_cells queue (suc rounds) i =
    (if ltb i queue && ltb i visual_queue_size then full else dim)
    ∷ queue_cells queue rounds (i + 1)

unfoldable pub print_queue_visual : VisualState → List Glyph × ℕ
print_queue_visual s = (queue_cells s.queue_size visual_queue_size 0, s.queue_size)

-- Which workers `print_worker_status` prints as working.
unfoldable pub worker_status : VisualState → (rounds i : ℕ) → List Bool
worker_status s zero i = []
worker_status s (suc rounds) i = (s.worker_states i == 1) ∷ worker_status s rounds (i + 1)

unfoldable pub print_worker_status : VisualState → List Bool
print_worker_status s = worker_status s s.num_workers 0

-- The loop of `print_stats` that counts the working workers.
unfoldable pub active_workers : VisualState → (rounds i : ℕ) → ℕ
active_workers s zero i = 0
active_workers s (suc rounds) i =
    (if s.worker_states i == 1 then 1 else 0) + active_workers s rounds (i + 1)

-- The progress bar and the number of working workers.
unfoldable pub print_stats : VisualState → (List Glyph × ℕ) × ℕ
print_stats s =
    (print_progress_bar s.tasks_completed s.tasks_total, active_workers s s.num_workers 0)

-- `struct timespec` of `sleep_ms`: seconds and nanoseconds.
unfoldable pub sleep_ms : ℕ → ℕ × ℕ
sleep_ms ms = (ms / 1000, ms % 1000 * 1000000)
