-- ===== src/Demos/Menu.antt =====
-- The menu of examples/visual_demo.c.
use thread_management_librar.Base.{
  ℕ, ◌≡◌, ◌==◌, leb, refl, Bool, false, ◌&&◌, ◌||◌, if◌then◌else◌, List, [], ◌∷◌, ◌++◌,
}

pub data Demo : Type 0 where
  demo_basic_pool demo_mutex demo_producer_consumer demo_performance demo_scaling : Demo

-- What a choice does: it runs demos, ends the program, or is refused.
pub data Choice : Type 0 where
  runs : List Demo → Choice
  quits : Choice
  invalid : Choice

abbrev pub all_demos : List Demo
all_demos =
    demo_basic_pool ∷ demo_mutex ∷ demo_producer_consumer ∷ demo_performance ∷ demo_scaling ∷ []

-- The `switch` of `main`.
unfoldable pub choose : (choice : ℕ) → Choice
choose choice =
    if choice == b'1'
    then runs (demo_basic_pool ∷ [])
    else if choice == b'2'
    then runs (demo_mutex ∷ [])
    else if choice == b'3'
    then runs (demo_producer_consumer ∷ [])
    else if choice == b'4'
    then runs (demo_performance ∷ [])
    else if choice == b'5'
    then runs (demo_scaling ∷ [])
    else if choice == b'A' || choice == b'a'
    then runs all_demos
    else if choice == b'Q' || choice == b'q'
    then quits
    else invalid

-- White space, which `scanf(" %c", ...)` skips.
abbrev pub is_space : ℕ → Bool
is_space c = c == b' ' || (leb 9 c && leb c 13)

abbrev pub and_then : Choice → List Demo → List Demo
and_then (runs demos) rest = demos ++ rest
and_then quits rest = []
and_then invalid rest = rest

-- The loop of `main`: the demos that it runs for an input, whose end also ends it.
unfoldable pub main : List ℕ → List Demo
main [] = []
main (c ∷ cs) = let rest = main cs in if is_space c then rest else and_then (choose c) rest

-- What a program reads of its input: the text after a `q` or `Q` is not looked at.
pub main-stops :
    (before : List ℕ) (q : ℕ) (after : List ℕ)
    → choose q ≡ quits
    → is_space q ≡ false
    → main (before ++ q ∷ after) ≡ main (before ++ q ∷ [])
unfolding main
main-stops [] q after quit printed = rw (printed, quit) refl
main-stops (c ∷ cs) q after quit printed = rw (main-stops cs q after quit printed) refl

-- The input "1 q2": demo 1, and no more.
one_demo : main (b'1' ∷ b' ' ∷ b'q' ∷ b'2' ∷ []) ≡ demo_basic_pool ∷ []
unfolding main choose
one_demo = refl
