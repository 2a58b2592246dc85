-- ===== src/Demos/Visual/Clean.antt =====
-- What the main thread of examples/visual_demo.c holds of the library.
use thread_management_librar.Base.{
  ℕ, zero, suc, ◌≡◌, refl, ◌∙◌, List, [], ◌∷◌, ◌++◌, some, Bool-cases, inl, inr, ltb, arith, length,
  ap, true, sym, ◌==◌, ◌%◌, ◌+◌,
}
use mathlib.Core.List.{append_assoc, append-nil}
use Prim.Native.String.{String}
use thread_management_librar.Platform.{Os}
use thread_management_librar.Demos.Console.{Action, call, each, thread_join, pool_submit}
use thread_management_librar.Demos.Console.Held.{
  some_pool, Held, nothing_held, obey, carry_out, carry_on, carry_out-each,
}
use thread_management_librar.Demos.Menu.{
  Demo, demo_basic_pool, demo_mutex, demo_producer_consumer, demo_performance, demo_scaling, Choice,
  runs, quits, invalid, choose, is_space,
}
use thread_management_librar.Demos.Visual.Script.{Look, monitor}
use thread_management_librar.Demos.Visual.Script
use thread_management_librar.Demos.Visual.Timed.{
  Real, Watch, submit_round, create_round, scaling_round,
}
use thread_management_librar.Demos.Visual.Timed
use thread_management_librar.Demos.Visual.Program.{
  Seen, demo_actions, run_demos, take_choice, main_loop, main_actions,
}

-- The threads `first`, `first + 1`, and so on.
abbrev from_to : (first rounds : ℕ) → List ℕ
from_to first zero = []
from_to first (suc rounds) = first ∷ from_to (first + 1) rounds

abbrev with_pool : Held
with_pool = record nothing_held { pool = some_pool }

abbrev with_block : Held
with_block = record nothing_held { block = true }

module _ (F : Type 0) (r : Real F) where
  -- What one demo leaves.
  abbrev Clean : List (Action F) → Type 0
  Clean actions = carry_out actions nothing_held ≡ some nothing_held

  monitor-none : (looks : List Look) (h : Held) → carry_out (monitor {F = F} looks) h ≡ some h
  unfolding monitor carry_out
  monitor-none [] h = refl
  monitor-none (look ∷ looks) h = elim (Bool-cases (ltb look.completed 20)) [
    | inl more ↦ rw more (monitor-none looks h)
    | inr over ↦ rw over refl
  ]

  basic_pool-Clean : (looks : List Look) → Clean (Script.demo_basic_pool looks)
  unfolding Script.demo_basic_pool carry_out obey each
  basic_pool-Clean looks = carry_on {F = F} _ _ (monitor looks) (monitor-none looks with_pool) refl

  mutex-Clean : (n : ℕ) → Clean (Script.demo_mutex n)
  unfolding Script.demo_mutex carry_out obey each
  mutex-Clean n = refl

  exchange-Clean : Clean Script.demo_producer_consumer
  unfolding Script.demo_producer_consumer carry_out obey
  exchange-Clean = refl

  submit_round-keeps : (n i : ℕ) → carry_out (submit_round r n i) with_pool ≡ some with_pool
  unfolding submit_round carry_out obey
  submit_round-keeps n i = elim (Bool-cases (i % 50 == 0)) [
    | inl shown ↦ rw shown refl
    | inr quiet ↦ rw quiet refl
  ]

  create_round-adds :
      (n i : ℕ) (h : Held)
      → carry_out (create_round r n i) h ≡ some (record h { threads = h.threads ++ i ∷ [] })
  unfolding create_round carry_out obey
  create_round-adds n i h = elim (Bool-cases (i % 10 == 0)) [
    | inl shown ↦ rw shown refl
    | inr quiet ↦ rw quiet refl
  ]

  creates-add :
      (n rounds first : ℕ) (h : Held)
      → carry_out (each rounds first (create_round r n)) h
        ≡ some (record h { threads = h.threads ++ from_to first rounds })
  unfolding each carry_out
  creates-add n zero first h =
      ap (λ (l : List ℕ). some (record h { threads = l })) (sym (append-nil h.threads))
  creates-add n (suc rounds) first h =
      carry_on {F = F} _ _ (create_round r n first) (create_round-adds n first h)
        (creates-add n rounds (first + 1) (record h { threads = h.threads ++ first ∷ [] }))
      ∙ ap (λ (l : List ℕ). some (record h { threads = l }))
          (append_assoc h.threads (first ∷ []) (from_to (first + 1) rounds))

  join-drops :
      (i : ℕ) (l : List ℕ) (h : Held)
      → carry_out {F = F} (call (thread_join i) ∷ []) (record h { threads = i ∷ l })
        ≡ some (record h { threads = l })
  unfolding carry_out obey
  join-drops i l h = let same : (i == i) ≡ true = ground arith in rw (same, carry_out) refl

  joins-drop :
      (rounds first : ℕ) (h : Held)
      → carry_out
          (each {A = Action F} rounds first (λ i. call (thread_join i) ∷ []))
          (record h { threads = from_to first rounds })
        ≡ some (record h { threads = [] })
  unfolding each carry_out
  joins-drop zero first h = refl
  joins-drop (suc rounds) first h =
      carry_on (each {A = Action F} rounds (first + 1) (λ i. call (thread_join i) ∷ []))
        (record h { threads = from_to first (suc rounds) }) (call (thread_join first) ∷ [])
        (join-drops first (from_to (first + 1) rounds) h) (joins-drop rounds (first + 1) h)

  performance-Clean : (w : Watch F) → Clean (Timed.demo_performance r w)
  unfolding Timed.demo_performance carry_out obey
  performance-Clean w =
      carry_on {F = F} _ _ (each 500 0 (submit_round r 500))
        (carry_out-each 500 0 (submit_round r 500) with_pool (submit_round-keeps 500))
        (carry_on {F = F} _ _ (each 100 0 (create_round r 100)) (creates-add 100 100 0 with_block) (
          carry_on {F = F} _ _ (each {A = Action F} 100 0 (λ i. call (thread_join i) ∷ []))
            (joins-drop 100 0 with_block) refl))

  scaling_round-keeps : (times : ℕ → F) (t : ℕ) → Clean (scaling_round r times t)
  unfolding scaling_round carry_out obey
  scaling_round-keeps times t =
      carry_on {F = F} _ _ (each {A = Action F} 2000 0 (λ i. call pool_submit ∷ []))
        (carry_out-each 2000 0 (λ i. call pool_submit ∷ []) with_pool (λ i. refl)) refl

  scaling-Clean : (starts ends : ℕ → F) → Clean (Timed.demo_scaling r starts ends)
  unfolding Timed.demo_scaling carry_out obey
  scaling-Clean starts ends =
      let times : ℕ → F = λ t. r.sub (ends t) (starts t) in
      carry_on {F = F} _ _ (each 4 0 (scaling_round r times))
        (carry_out-each 4 0 (scaling_round r times) nothing_held (scaling_round-keeps times)) refl

  demo-Clean : (d : Demo) (s : Seen F) → Clean (demo_actions r d s)
  unfolding demo_actions
  demo-Clean demo_basic_pool s = basic_pool-Clean s.looks
  demo-Clean demo_mutex s = mutex-Clean s.mutex_counter
  demo-Clean demo_producer_consumer s = exchange-Clean
  demo-Clean demo_performance s = performance-Clean s.watch
  demo-Clean demo_scaling s = scaling-Clean s.starts s.ends

  demos-Clean : (ds : List Demo) (s : Seen F) → Clean (run_demos r ds s)
  unfolding run_demos carry_out
  demos-Clean [] s = refl
  demos-Clean (d ∷ []) s = demo-Clean d s
  demos-Clean (d ∷ e ∷ ds) s =
      carry_on {F = F} _ _ (demo_actions r d s) (demo-Clean d s) (demos-Clean (e ∷ ds) s)

  choice-Clean :
      (c : Choice) (s : Seen F) (next : List (Action F))
      → Clean next
      → Clean (take_choice r c s next)
  unfolding take_choice carry_out
  choice-Clean (runs demos) s next clean =
      carry_on {F = F} _ _ (run_demos r demos s) (demos-Clean demos s) clean
  choice-Clean quits s next clean = refl
  choice-Clean invalid s next clean = clean

  loop-Clean : (seen : ℕ → Seen F) (input : List ℕ) → Clean (main_loop r seen input)
  unfolding main_loop carry_out
  loop-Clean seen [] = refl
  loop-Clean seen (c ∷ cs) = elim (Bool-cases (is_space c)) [
    | inl space ↦ rw space (loop-Clean seen cs)
    | inr printed ↦ rw printed (choice-Clean (choose c) (seen (length cs)) _ (loop-Clean seen cs))
  ]

-- Whatever the input of the visual demo is, and whatever its demos read meanwhile, `main` uses the library in
-- order and gives everything back: no pool is used before it is created or after it was destroyed, or lost
-- before it was destroyed; every thread that is created is joined once; the mutex and the semaphores are
-- destroyed, and the array of threads is freed, only when no thread runs any more; and when `main` ends it
-- holds nothing; where every call of the library succeeds.
pub main_holds_nothing :
    {F : Type 0} (r : Real F) (os : Os) (version : String) (cores : ℕ) (seen : ℕ → Seen F)
    (input : List ℕ)
    → carry_out (main_actions r os version cores seen input) nothing_held ≡ some nothing_held
unfolding main_actions carry_out
main_holds_nothing {F} r os version cores seen input = loop-Clean F r seen input
