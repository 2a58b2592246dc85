-- ===== src/Demos/Visual/Script.antt =====
-- The demos 1 to 3 of examples/visual_demo.c, as the actions of the main thread. `fflush` and what the
-- tasks and the threads print are left out.
use thread_management_librar.Base.{ℕ, ◌+◌, List, [], ◌∷◌, ◌++◌, ltb, if◌then◌else◌}
use thread_management_librar.Demos.Console.{
  int, printf, Text, pool_create, pool_submit, pool_wait, pool_destroy, thread_create, thread_join,
  mutex_init, mutex_destroy, sem_init, sem_destroy, Action, out, pause, call, each,
}
use thread_management_librar.Demos.Console.Colours.{
  reset, bold, yellow, cyan, bright_green, bright_yellow, bright_cyan, symbol_check,
}
use thread_management_librar.Demos.Visual.{VisualState, start}
use thread_management_librar.Demos.Visual.Screen.{
  section_text, worker_status_text, queue_text, stats_text,
}
use thread_management_librar.Demos.Pile.{buffer_size}

-- What a round of the monitor of demo 1 loads: `tasks_completed` at its test, then the state, each worker's
-- entry at its own time.
pub record Look : Type 0 where
  pub completed : ℕ
  pub state : VisualState

-- `empty_slots` and `full_slots`, and the two threads.
abbrev pub empty_slots : ℕ
empty_slots = 0

abbrev pub full_slots : ℕ
full_slots = 1

abbrev pub producer : ℕ
producer = 0

abbrev pub consumer : ℕ
consumer = 1

module _ {F : Type 0} where
  -- The text of one round.
  unfoldable pub refresh : VisualState → Text F
  unfolding worker_status_text queue_text stats_text
  refresh s = printf ("\u{1b}[4A" ∷ []) [] ∷ worker_status_text s ++ queue_text s ++ stats_text s

  -- The `while` of demo 1, over the rounds that it goes through.
  unfoldable pub monitor : List Look → List (Action F)
  unfolding refresh
  monitor [] = []
  monitor (look ∷ looks) =
      let rest = monitor looks in
      if ltb look.completed 20 then out (refresh look.state) ∷ pause 100 ∷ rest else []

  -- The block of each task, which `malloc` gives and `visual_task` frees, is left out.
  unfoldable pub demo_basic_pool : List Look → List (Action F)
  unfolding section_text worker_status_text queue_text monitor each
  demo_basic_pool looks =
      let s : VisualState = (start 4 20).g_state in
      out (
          section_text "DEMO 1: Thread Pool in Action"
          ++ printf ("  " ∷ bright_cyan ∷ "Creating thread pool with 4 workers...\n\n" ∷ reset ∷ [])
              []
            ∷ [])
        ∷ pause 500
        ∷ call (pool_create 4)
        ∷ out (
            printf
                ("  " ∷ bright_green ∷ symbol_check ∷ " Pool created successfully!\n\n" ∷ reset
                  ∷ [])
                []
              ∷ printf (bold ∷ "  Initial State:\n" ∷ reset ∷ []) []
              ∷ worker_status_text s
            ++ queue_text s
            ++ printf ("\n" ∷ []) [] ∷ [])
        ∷ pause 1000
        ∷ out (printf ("  " ∷ bright_yellow ∷ "Submitting 20 tasks...\n\n" ∷ reset ∷ []) [] ∷ [])
        ∷ each 20 0 (λ i.
          call pool_submit
          ∷ out (printf ("\r  Submitted task %2d... " ∷ []) (int (i + 1) ∷ []) ∷ [])
          ∷ pause 50
          ∷ [])
      ++ out (
          printf (bright_green ∷ symbol_check ∷ " Done!\n\n" ∷ reset ∷ []) []
          ∷ printf (bold ∷ "  Processing:\n" ∷ reset ∷ []) []
          ∷ [])
        ∷ monitor looks
      ++ out (
          printf ("\n  " ∷ bright_green ∷ symbol_check ∷ " All tasks completed!\n" ∷ reset ∷ []) []
          ∷ [])
        ∷ call pool_wait
        ∷ call pool_destroy
        ∷ []

  -- `mutex_counter` is what the last line loads.
  unfoldable pub demo_mutex : (mutex_counter : ℕ) → List (Action F)
  unfolding section_text each
  demo_mutex mutex_counter =
      out (
          section_text "DEMO 2: Mutex Synchronization"
          ++ printf
              ("  " ∷ bright_cyan ∷ "Demonstrating mutex protecting a critical section...\n\n"
                ∷ reset ∷ [])
              []
            ∷ [])
        ∷ pause 500
        ∷ call mutex_init
        ∷ out (
            printf ("  " ∷ bold ∷ "Legend:\n" ∷ reset ∷ []) []
            ∷ printf ("     " ∷ yellow ∷ "● Waiting" ∷ reset ∷ " = Thread waiting for lock\n" ∷ [])
                []
            ∷ printf
                ("     " ∷ bright_green ∷ "● Locked" ∷ reset ∷ "  = Thread in critical section\n"
                  ∷ [])
                []
            ∷ printf ("     " ∷ cyan ∷ "● Released" ∷ reset ∷ " = Thread released lock\n\n" ∷ []) []
            ∷ printf ("  " ∷ bold ∷ "Activity:\n" ∷ reset ∷ []) []
            ∷ [])
        ∷ each 3 0 (λ i. call (thread_create i) ∷ [])
      ++ each 3 0 (λ i. call (thread_join i) ∷ [])
      ++ call mutex_destroy
        ∷ out (
            printf
              ("\n  " ∷ bright_green ∷ symbol_check
                ∷ " Mutex demo complete! Counter = %d (expected 9)\n" ∷ reset ∷ [])
              (int mutex_counter ∷ [])
            ∷ [])
        ∷ []

  unfoldable pub demo_producer_consumer : List (Action F)
  unfolding section_text
  demo_producer_consumer =
      out (
        section_text "DEMO 3: Producer-Consumer Pattern"
        ++ printf
            ("  " ∷ bright_cyan ∷ "Demonstrating semaphore-based producer-consumer...\n\n" ∷ reset
              ∷ [])
            []
          ∷ [])
      ∷ pause 500
      ∷ call mutex_init
      ∷ call (sem_init empty_slots buffer_size)
      ∷ call (sem_init full_slots 0)
      ∷ out (
          printf ("  " ∷ bold ∷ "Bounded Buffer (size %d):\n\n" ∷ reset ∷ []) (int buffer_size ∷ [])
          ∷ [])
      ∷ call (thread_create producer)
      ∷ call (thread_create consumer)
      ∷ call (thread_join producer)
      ∷ call (thread_join consumer)
      ∷ call (sem_destroy empty_slots)
      ∷ call (sem_destroy full_slots)
      ∷ call mutex_destroy
      ∷ []
