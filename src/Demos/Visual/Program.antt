-- ===== src/Demos/Visual/Program.antt =====
-- `main` of examples/visual_demo.c with its menu, as the actions of the main thread.
use Prim.Native.String.{String}
use thread_management_librar.Base.{ℕ, List, [], ◌∷◌, ◌++◌, if◌then◌else◌, length}
use thread_management_librar.Platform.{Os, sthread_platform_name}
use thread_management_librar.Demos.Console.{int, str, printf, Text, Action, out, pause}
use thread_management_librar.Demos.Console.Colours.{reset, bold, red, bright_green}
use thread_management_librar.Demos.Menu.{
  Demo, demo_basic_pool, demo_mutex, demo_producer_consumer, demo_performance, demo_scaling, Choice,
  runs, quits, invalid, choose, is_space,
}
use thread_management_librar.Demos.Visual.Screen.{clear_screen_text, banner_text, menu_text}
use thread_management_librar.Demos.Visual.Script.{Look}
use thread_management_librar.Demos.Visual.Script
use thread_management_librar.Demos.Visual.Timed.{Real, Watch}
use thread_management_librar.Demos.Visual.Timed

-- What the demos of one choice read: the rounds of the monitor, the counter, and the clock.
pub record Seen (F : Type 0) : Type 0 where
  pub looks : List Look
  pub mutex_counter : ℕ
  pub watch : Watch F
  pub starts : ℕ → F
  pub ends : ℕ → F

-- The system and the library, as `main` prints them.
unfoldable pub system_text : {F : Type 0} (os : Os) (version : String) (cores : ℕ) → Text F
system_text os version cores =
    printf ("  " ∷ bold ∷ "System Information:\n" ∷ reset ∷ []) []
    ∷ printf ("     • Library Version: " ∷ bright_green ∷ "%s" ∷ reset ∷ "\n" ∷ [])
        (str version ∷ [])
    ∷ printf ("     • CPU Cores:       " ∷ bright_green ∷ "%zu" ∷ reset ∷ "\n" ∷ [])
        (int cores ∷ [])
    ∷ printf
        ("     • Platform:        " ∷ bright_green ∷ sthread_platform_name os ∷ reset ∷ "\n" ∷ [])
        []
    ∷ []

module _ {F : Type 0} (r : Real F) where
  unfoldable pub demo_actions : Demo → Seen F → List (Action F)
  unfolding Script.demo_basic_pool Script.demo_mutex Script.demo_producer_consumer
      Timed.demo_performance Timed.demo_scaling
  demo_actions demo_basic_pool s = Script.demo_basic_pool s.looks
  demo_actions demo_mutex s = Script.demo_mutex s.mutex_counter
  demo_actions demo_producer_consumer s = Script.demo_producer_consumer
  demo_actions demo_performance s = Timed.demo_performance r s.watch
  demo_actions demo_scaling s = Timed.demo_scaling r s.starts s.ends

  -- The demos of a choice, with the pauses between them.
  unfoldable pub run_demos : List Demo → Seen F → List (Action F)
  unfolding demo_actions
  run_demos [] s = []
  run_demos (d ∷ []) s = demo_actions d s
  run_demos (d ∷ e ∷ ds) s =
      let rest = run_demos (e ∷ ds) s in demo_actions d s ++ pause 1000 ∷ rest

  -- The `switch`, and the rest of the program, which begins with the menu.
  unfoldable pub take_choice : Choice → Seen F → (next : List (Action F)) → List (Action F)
  unfolding run_demos menu_text
  take_choice (runs demos) s next = run_demos demos s ++ out menu_text ∷ next
  take_choice quits s next =
      out (printf ("\n  " ∷ bright_green ∷ "Goodbye! 👋\n\n" ∷ reset ∷ []) [] ∷ []) ∷ []
  take_choice invalid s next =
      out (printf ("  " ∷ red ∷ "Invalid choice. Try again.\n" ∷ reset ∷ []) [] ∷ [])
      ∷ out menu_text
      ∷ next

  -- From a `scanf` on; `seen` is what is read after the choice that has so many characters behind it.
  unfoldable pub main_loop : (seen : ℕ → Seen F) → List ℕ → List (Action F)
  unfolding take_choice
  main_loop seen [] = []
  main_loop seen (c ∷ cs) =
      let rest = main_loop seen cs in
      if is_space c then rest else take_choice (choose c) (seen (length cs)) rest

  unfoldable pub main_actions :
      (os : Os) (version : String) (cores : ℕ) (seen : ℕ → Seen F) (input : List ℕ)
      → List (Action F)
  unfolding clear_screen_text banner_text system_text menu_text main_loop
  main_actions os version cores seen input =
      out (clear_screen_text ++ banner_text ++ system_text os version cores)
      ∷ out menu_text
      ∷ main_loop seen input
