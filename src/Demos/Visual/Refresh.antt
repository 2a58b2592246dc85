-- ===== src/Demos/Visual/Refresh.antt =====
-- The lines that examples/visual_demo.c prints where it goes back up to print them again.
use Prim.Native.String.{String}
use thread_management_librar.Base.{ℕ, ◌+◌, ◌≡◌, refl, Bool, true, false, List, [], ◌∷◌, ◌++◌, arith}
use thread_management_librar.Demos.Console.{Text, printf}
use thread_management_librar.Demos.Console.Colours.{bright_green}
use thread_management_librar.Demos.Console.Lines.{feeds_of, lines, lines-append, lines-map}
use thread_management_librar.Demos.Visual.{VisualState, Glyph, full, edge, dim}
use thread_management_librar.Demos.Visual.Screen.{
  bar_text, progress_text, workers_text, worker_status_text, queue_cell_text, queue_text,
  stats_text,
}
use thread_management_librar.Demos.Visual.Script.{refresh}

module _ (F : Type 0) where
  bar_flat : (color : String) (g : Glyph) → feeds_of {F = F} (bar_text color g) ≡ 0
  unfolding bar_text
  bar_flat color full = refl
  bar_flat color edge = refl
  bar_flat color dim = refl

  queue_flat : (g : Glyph) → feeds_of {F = F} (queue_cell_text g) ≡ 0
  unfolding queue_cell_text
  queue_flat full = refl
  queue_flat edge = refl
  queue_flat dim = refl

  workers_flat : (i : ℕ) (busy : List Bool) → lines {F = F} (workers_text i busy) ≡ 0
  unfolding workers_text lines
  workers_flat i [] = refl
  workers_flat i (true ∷ rest) = omega (arith, workers_flat (i + 1) rest)
  workers_flat i (false ∷ rest) = omega (arith, workers_flat (i + 1) rest)

  -- A progress bar takes one line.
  progress_line :
      (label : String) (current total : ℕ) (color : String)
      → lines {F = F} (progress_text label current total color) ≡ 1
  unfolding progress_text lines
  progress_line label current total color =
      simp (lines-append, lines-map (bar_text color) (bar_flat color))

  status_line : (s : VisualState) → lines {F = F} (worker_status_text s) ≡ 1
  unfolding worker_status_text lines
  status_line s = simp (lines-append, workers_flat)

  queue_line : (s : VisualState) → lines {F = F} (queue_text s) ≡ 1
  unfolding queue_text lines
  queue_line s = simp (lines-append, lines-map queue_cell_text queue_flat)

  stats_lines : (s : VisualState) → lines {F = F} (stats_text s) ≡ 6
  unfolding stats_text lines
  stats_lines s = simp (lines-append, lines-map (bar_text bright_green) (bar_flat bright_green))

-- Each round of the monitor of demo 1 goes up 4 lines and then prints 8, whatever the state is, so that the
-- display moves down 4 lines in each round and never covers the one before.
pub refresh_moves_down :
    {F : Type 0} (s : VisualState)
    → (rest : Text F) × (refresh s ≡ printf ("\u{1b}[4A" ∷ []) [] ∷ rest) × (lines rest ≡ 8)
unfolding refresh
refresh_moves_down {F} s =
    let first : Text F = worker_status_text s ++ queue_text s in
    (
      first ++ stats_text s,
      refl,
      omega (
        arith,
        lines-append first (stats_text s),
        lines-append {F = F} (worker_status_text s) (queue_text s),
        status_line F s,
        queue_line F s,
        stats_lines F s,
      ),
    )
