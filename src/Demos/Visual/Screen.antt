-- ===== src/Demos/Visual/Screen.antt =====
-- What examples/visual_demo.c prints: the frames, the bars, and the state of the tasks of demo 1.
use Prim.Native.String.{String}
use thread_management_librar.Base.{ℕ, ◌+◌, Bool, true, false, List, [], ◌∷◌, ◌++◌, map}
use thread_management_librar.Demos.Console.{int, str, Printed, printf, Text}
use thread_management_librar.Demos.Console.Colours.{
  reset, bold, dim, white, bright_green, bright_yellow, bright_magenta, bright_cyan, bright_white,
}
use thread_management_librar.Demos.Visual.{
  VisualState, Glyph, full, edge, dim as dim_cell, print_progress_bar, print_queue_visual,
  print_worker_status, print_stats,
}
use thread_management_librar.Demos.Pile.{Pile, Cell, shown, blank, print_buffer, buffer_size}

module _ {F : Type 0} where
  unfoldable pub clear_screen_text : Text F
  clear_screen_text = printf ("\u{1b}[2J\u{1b}[H" ∷ []) [] ∷ []

  unfoldable pub banner_text : Text F
  banner_text =
      printf ("\n" ∷ []) []
      ∷ printf (bright_cyan ∷ []) []
      ∷ printf
          ("  ╔═══════════════════════════════════════════════════════════════════════╗\n" ∷ []) []
      ∷ printf
          ("  ║                                                                       ║\n" ∷ []) []
      ∷ printf
          ("  ║   " ∷ bright_yellow ∷ "███████╗████████╗██╗  ██╗██████╗ ███████╗ █████╗ ██████╗ "
            ∷ bright_cyan ∷ "        ║\n" ∷ [])
          []
      ∷ printf
          ("  ║   " ∷ bright_yellow ∷ "██╔════╝╚══██╔══╝██║  ██║██╔══██╗██╔════╝██╔══██╗██╔══██╗"
            ∷ bright_cyan ∷ "        ║\n" ∷ [])
          []
      ∷ printf
          ("  ║   " ∷ bright_yellow ∷ "███████╗   ██║   ███████║██████╔╝█████╗  ███████║██║  ██║"
            ∷ bright_cyan ∷ "        ║\n" ∷ [])
          []
      ∷ printf
          ("  ║   " ∷ bright_yellow ∷ "╚════██║   ██║   ██╔══██║██╔══██╗██╔══╝  ██╔══██║██║  ██║"
            ∷ bright_cyan ∷ "        ║\n" ∷ [])
          []
      ∷ printf
          ("  ║   " ∷ bright_yellow ∷ "███████║   ██║   ██║  ██║██║  ██║███████╗██║  ██║██████╔╝"
            ∷ bright_cyan ∷ "        ║\n" ∷ [])
          []
      ∷ printf
          ("  ║   " ∷ bright_yellow ∷ "╚══════╝   ╚═╝   ╚═╝  ╚═╝╚═╝  ╚═╝╚══════╝╚═╝  ╚═╝╚═════╝ "
            ∷ bright_cyan ∷ "        ║\n" ∷ [])
          []
      ∷ printf
          ("  ║                                                                       ║\n" ∷ []) []
      ∷ printf
          ("  ║          " ∷ white ∷ "🧵  Scalable Thread Management Library  🧵" ∷ bright_cyan
            ∷ "                ║\n" ∷ [])
          []
      ∷ printf
          ("  ║                                                                       ║\n" ∷ []) []
      ∷ printf
          ("  ╚═══════════════════════════════════════════════════════════════════════╝\n" ∷ []) []
      ∷ printf (reset ∷ "\n" ∷ []) []
      ∷ []

  unfoldable pub section_text : (title : String) → Text F
  section_text title =
      printf ("\n" ∷ []) []
      ∷ printf ("%s%s  ▓▓▓▓▓▓▓▓▓▓▓▓▓▓▓▓▓▓▓▓▓▓▓▓▓▓▓▓▓▓▓▓▓▓▓▓▓▓▓▓▓▓▓▓▓▓▓▓▓▓▓▓▓▓▓▓▓▓▓▓\n" ∷ [])
          (str bold ∷ str bright_magenta ∷ [])
      ∷ printf ("  ▓  %s%s%s%s\n" ∷ []) (str reset ∷ str bright_white ∷ str title ∷ str reset ∷ [])
      ∷ printf ("%s  ▓▓▓▓▓▓▓▓▓▓▓▓▓▓▓▓▓▓▓▓▓▓▓▓▓▓▓▓▓▓▓▓▓▓▓▓▓▓▓▓▓▓▓▓▓▓▓▓▓▓▓▓▓▓▓▓▓▓▓▓%s\n" ∷ [])
          (str bright_magenta ∷ str reset ∷ [])
      ∷ printf ("\n" ∷ []) []
      ∷ []

  -- A cell of the progress bar.
  unfoldable pub bar_text : (color : String) → Glyph → Printed F
  bar_text color full = printf ("█" ∷ []) []
  bar_text color edge = printf ("▓" ∷ []) []
  bar_text color dim_cell = printf (dim ∷ "░" ∷ reset ∷ "%s" ∷ []) (str color ∷ [])

  unfoldable pub progress_text : (label : String) (current total : ℕ) (color : String) → Text F
  unfolding print_progress_bar bar_text
  progress_text label current total color =
      let (bar, percent) = print_progress_bar current total in
      (printf ("  %s%-15s%s [" ∷ []) (str bold ∷ str label ∷ str reset ∷ [])
        ∷ printf ("%s" ∷ []) (str color ∷ [])
        ∷ [])
      ++ map (bar_text color) bar
      ++ printf (reset ∷ "] %s%3d%%%s\n" ∷ []) (str bold ∷ int percent ∷ str reset ∷ []) ∷ []

  -- Worker `i`, and those after it.
  unfoldable pub workers_text : (i : ℕ) → List Bool → Text F
  workers_text i [] = []
  workers_text i (true ∷ rest) =
      printf (bright_green ∷ "⚡Worker %d " ∷ reset ∷ []) (int i ∷ []) ∷ workers_text (i + 1) rest
  workers_text i (false ∷ rest) =
      printf (dim ∷ "○ Worker %d " ∷ reset ∷ []) (int i ∷ []) ∷ workers_text (i + 1) rest

  unfoldable pub worker_status_text : VisualState → Text F
  unfolding workers_text print_worker_status
  worker_status_text s =
      printf ("  " ∷ bold ∷ "Workers:" ∷ reset ∷ " " ∷ []) []
        ∷ workers_text 0 (print_worker_status s)
      ++ printf ("\n" ∷ []) [] ∷ []

  -- A cell of the queue.
  unfoldable pub queue_cell_text : Glyph → Printed F
  queue_cell_text full = printf (bright_yellow ∷ "■" ∷ reset ∷ []) []
  queue_cell_text edge = printf (dim ∷ "·" ∷ reset ∷ []) []
  queue_cell_text dim_cell = printf (dim ∷ "·" ∷ reset ∷ []) []

  unfoldable pub queue_text : VisualState → Text F
  unfolding queue_cell_text print_queue_visual
  queue_text s =
      let (cells, queue) = print_queue_visual s in
      printf ("  " ∷ bold ∷ "Queue:   " ∷ reset ∷ "[" ∷ []) [] ∷ map queue_cell_text cells
      ++ printf ("] %d tasks waiting\n" ∷ []) (int queue ∷ []) ∷ []

  unfoldable pub stats_text : VisualState → Text F
  unfolding progress_text print_stats
  stats_text s =
      let active = (print_stats s).1 in
      printf ("\n" ∷ []) [] ∷ progress_text "Progress:" s.tasks_completed s.tasks_total bright_green
      ++ printf ("\n" ∷ []) []
        ∷ printf ("  " ∷ bright_cyan ∷ "📊 Statistics:" ∷ reset ∷ "\n" ∷ []) []
        ∷ printf ("     • Tasks Completed: " ∷ bright_green ∷ "%d" ∷ reset ∷ " / %d\n" ∷ [])
            (int s.tasks_completed ∷ int s.tasks_total ∷ [])
        ∷ printf ("     • Workers Active:  " ∷ []) []
        ∷ printf (bright_yellow ∷ "%d" ∷ reset ∷ " / %d\n" ∷ [])
            (int active ∷ int s.num_workers ∷ [])
        ∷ []

  -- A cell of the buffer of demo 3.
  unfoldable pub cell_text : Cell → Printed F
  cell_text (shown item) = printf (bright_green ∷ " %2d " ∷ reset ∷ []) (int item ∷ [])
  cell_text blank = printf (dim ∷ " __ " ∷ reset ∷ []) []

  unfoldable pub buffer_text : Pile → Text F
  unfolding cell_text print_buffer
  buffer_text s =
      printf ("  Buffer: [" ∷ []) [] ∷ map cell_text (print_buffer s buffer_size 0)
      ++ printf ("]\n" ∷ []) [] ∷ []

  unfoldable pub menu_text : Text F
  menu_text =
      printf ("\n" ∷ []) []
      ∷ printf (bold ∷ "  Select a demo to run:\n\n" ∷ reset ∷ []) []
      ∷ printf ("     " ∷ bright_cyan ∷ "1" ∷ reset ∷ " │ Thread Pool Visualization\n" ∷ []) []
      ∷ printf ("     " ∷ bright_cyan ∷ "2" ∷ reset ∷ " │ Mutex Synchronization\n" ∷ []) []
      ∷ printf ("     " ∷ bright_cyan ∷ "3" ∷ reset ∷ " │ Producer-Consumer Pattern\n" ∷ []) []
      ∷ printf ("     " ∷ bright_cyan ∷ "4" ∷ reset ∷ " │ Performance Comparison\n" ∷ []) []
      ∷ printf ("     " ∷ bright_cyan ∷ "5" ∷ reset ∷ " │ Thread Scaling Analysis\n" ∷ []) []
      ∷ printf ("     " ∷ bright_cyan ∷ "A" ∷ reset ∷ " │ Run All Demos\n" ∷ []) []
      ∷ printf ("     " ∷ bright_cyan ∷ "Q" ∷ reset ∷ " │ Quit\n" ∷ []) []
      ∷ printf ("\n  Enter choice: " ∷ []) []
      ∷ []
