-- ===== src/Demos/Visual/Timed.antt =====
-- The demos 4 and 5 of examples/visual_demo.c, as the actions of the main thread; the arithmetic of `double`
-- and the readings of the clock are parameters.
use Prim.Native.String.{String}
use thread_management_librar.Base.{
  ℕ, zero, suc, ◌+◌, ◌-◌, ◌%◌, ◌==◌, List, [], ◌∷◌, ◌++◌, ltb, if◌then◌else◌,
}
use thread_management_librar.Base.Int.{ℤ, pos, negsuc}
use thread_management_librar.Demos.Console.{
  int, real, str, Printed, printf, Text, pool_create, pool_submit, pool_wait, pool_destroy,
  thread_create, thread_join, block_alloc, block_free, Action, out, pause, call, each,
}
use thread_management_librar.Demos.Console.Colours.{
  reset, bold, red, yellow, bright_green, bright_yellow, bright_cyan, symbol_check,
}
use thread_management_librar.Demos.Visual.Screen.{section_text, progress_text}

-- What the program uses of `double`; `trunc` is the conversion to `int`.
pub record Real (F : Type 0) : Type 0 where
  pub of_int : ℕ → F
  pub sub : F → F → F
  pub mul : F → F → F
  pub div : F → F → F
  pub trunc : F → ℤ

-- The four readings of the clock in demo 4.
pub record Watch (F : Type 0) : Type 0 where
  pub pool_start : F
  pub pool_end : F
  pub naive_start : F
  pub naive_end : F

-- `n` times the same text.
abbrev pub printed : {F : Type 0} → ℕ → Printed F → Text F
printed zero x = []
printed (suc n) x = x ∷ printed n x

-- The bar of a row, for `bar_len` before its bound: the cells, and the blanks up to 30.
unfoldable pub scaling_bar : {F : Type 0} → ℤ → Text F
scaling_bar (pos n) =
    let bar_len = if ltb 30 n then 30 else n in
    printed bar_len (printf ("█" ∷ []) [])
    ++ printf (reset ∷ []) [] ∷ printed (30 - bar_len) (printf (" " ∷ []) [])
scaling_bar (negsuc n) = printf (reset ∷ []) [] ∷ printed (31 + n) (printf (" " ∷ []) [])

-- `thread_counts` and `colors`
abbrev pub scaling_threads : ℕ → ℕ
scaling_threads zero = 1
scaling_threads (suc zero) = 2
scaling_threads (suc (suc zero)) = 4
scaling_threads (suc (suc (suc _))) = 8

abbrev pub scaling_colors : ℕ → String
scaling_colors zero = red
scaling_colors (suc zero) = yellow
scaling_colors (suc (suc zero)) = bright_green
scaling_colors (suc (suc (suc _))) = bright_cyan

module _ {F : Type 0} (r : Real F) where
  -- One round of the two loops that submit tasks and create threads.
  unfoldable pub submit_round : (num_tasks i : ℕ) → List (Action F)
  unfolding progress_text
  submit_round num_tasks i =
      call pool_submit
      ∷ (if i % 50 == 0
          then out (
              progress_text "Thread Pool:" i num_tasks bright_green
              ++ printf ("\u{1b}[1A" ∷ []) [] ∷ [])
            ∷ []
          else [])

  unfoldable pub create_round : (naive_tasks i : ℕ) → List (Action F)
  unfolding progress_text
  create_round naive_tasks i =
      call (thread_create i)
      ∷ (if i % 10 == 0
          then out
              (progress_text "Naive:" i naive_tasks yellow ++ printf ("\u{1b}[1A" ∷ []) [] ∷ [])
            ∷ []
          else [])

  -- The table at the end.
  unfoldable pub results_text : (pool_rate naive_rate speedup : F) → Text F
  results_text pool_rate naive_rate speedup =
      printf ("  " ∷ bold ∷ "Results:\n" ∷ reset ∷ []) []
      ∷ printf ("  ┌────────────────────┬─────────────────┬─────────────────┐\n" ∷ []) []
      ∷ printf
          ("  │ " ∷ bold ∷ "Approach" ∷ reset ∷ "           │ " ∷ bold ∷ "Tasks/Second" ∷ reset
            ∷ "    │ " ∷ bold ∷ "Relative Speed" ∷ reset ∷ "  │\n" ∷ [])
          []
      ∷ printf ("  ├────────────────────┼─────────────────┼─────────────────┤\n" ∷ []) []
      ∷ printf
          ("  │ Thread Pool        │ " ∷ bright_green ∷ "%10.0f" ∷ reset ∷ "      │ " ∷ bright_green
            ∷ "%10.1fx" ∷ reset ∷ "      │\n" ∷ [])
          (real pool_rate ∷ real speedup ∷ [])
      ∷ printf
          ("  │ Naive (per-task)   │ " ∷ yellow ∷ "%10.0f" ∷ reset ∷ "      │ " ∷ yellow ∷ "%10.1fx"
            ∷ reset ∷ "      │\n" ∷ [])
          (real naive_rate ∷ real (r.of_int 1) ∷ [])
      ∷ printf ("  └────────────────────┴─────────────────┴─────────────────┘\n\n" ∷ []) []
      ∷ printf ("  " ∷ bright_green ∷ "🚀 Thread Pool is %.1fx faster!\n" ∷ reset ∷ [])
          (real speedup ∷ [])
      ∷ []

  unfoldable pub demo_performance : Watch F → List (Action F)
  unfolding section_text progress_text submit_round create_round results_text
  demo_performance w =
      let num_tasks : ℕ = 500 in
      let iterations : ℕ = 5000 in
      let naive_tasks : ℕ = 100 in
      let pool_time = r.sub w.pool_end w.pool_start in
      let naive_time = r.sub w.naive_end w.naive_start in
      let pool_rate = r.div (r.of_int num_tasks) (r.div pool_time (r.of_int 1000)) in
      let naive_rate = r.div (r.of_int naive_tasks) (r.div naive_time (r.of_int 1000)) in
      out (
          section_text "DEMO 4: Performance Comparison"
          ++ printf
              ("  " ∷ bright_cyan ∷ "Comparing Thread Pool vs Thread-per-Task approach...\n\n"
                ∷ reset ∷ [])
              []
            ∷ [])
        ∷ pause 500
        ∷ out (
            printf ("  " ∷ bold ∷ "Test Configuration:\n" ∷ reset ∷ []) []
            ∷ printf ("     • Number of tasks: %d\n" ∷ []) (int num_tasks ∷ [])
            ∷ printf ("     • Work per task:   %d iterations\n\n" ∷ []) (int iterations ∷ [])
            ∷ printf ("  " ∷ bright_yellow ∷ "Running Thread Pool (8 workers)...\n" ∷ reset ∷ []) []
            ∷ [])
        ∷ call (pool_create 8)
        ∷ each num_tasks 0 (submit_round num_tasks)
      ++ (call pool_wait
          ∷ out (progress_text "Thread Pool:" num_tasks num_tasks bright_green)
          ∷ call pool_destroy
          ∷ out (
              printf
                ("     " ∷ bright_green ∷ symbol_check ∷ " Completed in %.2f ms\n\n" ∷ reset ∷ [])
                (real pool_time ∷ [])
              ∷ printf
                  ("  " ∷ bright_yellow ∷ "Running Naive (1 thread per task, %d tasks)...\n" ∷ reset
                    ∷ [])
                  (int naive_tasks ∷ [])
              ∷ [])
          ∷ call block_alloc
          ∷ (each naive_tasks 0 (create_round naive_tasks)
              ++ (each naive_tasks 0 (λ i. call (thread_join i) ∷ [])
                  ++ (out (progress_text "Naive:" naive_tasks naive_tasks yellow)
                      ∷ call block_free
                      ∷ out (
                          printf
                            ("     " ∷ yellow ∷ symbol_check ∷ " Completed in %.2f ms\n\n" ∷ reset
                              ∷ [])
                            (real naive_time ∷ [])
                          ∷ results_text pool_rate naive_rate (r.div pool_rate naive_rate))
                      ∷ []))))

  -- One row of the chart.
  unfoldable pub chart_row : (times : ℕ → F) (t : ℕ) → Text F
  unfolding scaling_bar
  chart_row times t =
      let max_time = times 0 in
      printf ("  │     %d      │ %7.1f ms │ %s" ∷ [])
          (int (scaling_threads t) ∷ real (times t) ∷ str (scaling_colors t) ∷ [])
        ∷ scaling_bar (r.trunc (r.mul (r.of_int 30) (r.div max_time (times t))))
      ++ printf (" │\n" ∷ []) [] ∷ []

  -- The round of the test with pool `t`.
  unfoldable pub scaling_round : (times : ℕ → F) (t : ℕ) → List (Action F)
  scaling_round times t =
      out (printf ("  Testing %d thread(s)... " ∷ []) (int (scaling_threads t) ∷ []) ∷ [])
        ∷ call (pool_create (scaling_threads t))
        ∷ each 2000 0 (λ i. call pool_submit ∷ [])
      ++ call pool_wait
        ∷ call pool_destroy
        ∷ out (printf (bright_green ∷ "%.1f ms\n" ∷ reset ∷ []) (real (times t) ∷ []) ∷ [])
        ∷ []

  unfoldable pub demo_scaling : (starts ends : ℕ → F) → List (Action F)
  unfolding section_text scaling_round chart_row
  demo_scaling starts ends =
      let times : ℕ → F = λ t. r.sub (ends t) (starts t) in
      out (
          section_text "DEMO 5: Thread Scaling Analysis"
          ++ printf
              ("  " ∷ bright_cyan ∷ "Testing performance with different thread counts...\n\n"
                ∷ reset ∷ [])
              []
            ∷ [])
        ∷ pause 500
        ∷ out (printf ("  " ∷ bold ∷ "Running tests (2000 tasks each):\n\n" ∷ reset ∷ []) [] ∷ [])
        ∷ each 4 0 (scaling_round times)
      ++ out (
          printf ("\n  " ∷ bold ∷ "Scaling Chart:\n" ∷ reset ∷ []) []
            ∷ printf
                ("  ┌────────────┬────────────┬───────────────────────────────────────┐\n" ∷ []) []
            ∷ printf
                ("  │  Threads   │    Time    │  Performance Bar                      │\n" ∷ []) []
            ∷ printf
                ("  ├────────────┼────────────┼───────────────────────────────────────┤\n" ∷ []) []
            ∷ each 4 0 (chart_row times)
          ++ printf
              ("  └────────────┴────────────┴───────────────────────────────────────┘\n\n" ∷ []) []
            ∷ printf ("  " ∷ bold ∷ "Speedup relative to 1 thread:\n" ∷ reset ∷ []) []
            ∷ each 3 1 (λ t.
              printf ("     %d threads: " ∷ bright_green ∷ "%.2fx" ∷ reset ∷ " speedup\n" ∷ [])
                (int (scaling_threads t) ∷ real (r.div (times 0) (times t)) ∷ [])
              ∷ []))
        ∷ []
