-- ===== src/Demos/Examples/Programs.antt =====
-- A run of the visual demo.
use thread_management_librar.Base.{ℕ, ◌+◌, ◌-◌, ◌*◌, ◌/◌, ◌≡◌, [], ◌∷◌, some}
use thread_management_librar.Base.Int.{pos}
use thread_management_librar.Platform.{linux}
use thread_management_librar.Demos.Visual.{start}
use thread_management_librar.Demos.Visual.Timed.{Real}
use thread_management_librar.Demos.Visual.Program.{Seen, main_actions}
use thread_management_librar.Demos.Visual.Clean.{main_holds_nothing}
use thread_management_librar.Demos.Console.Held.{nothing_held, carry_out}

-- Whole numbers in place of `double`.
abbrev whole : Real ℕ
whole = record { of_int = λ n. n; sub = ◌-◌; mul = ◌*◌; div = ◌/◌; trunc = pos }

-- The monitor looks once.
abbrev seen : ℕ → Seen ℕ
seen k = record {
  looks = record { completed = 7; state = (start 4 20).g_state } ∷ [];
  mutex_counter = 9;
  watch = record { pool_start = 10; pool_end = 40; naive_start = 50; naive_end = 90 };
  starts = λ t. t;
  ends = λ t. t + 20;
}

-- All demos, then `q`.
main_holds_nothing_example :
    carry_out (main_actions whole linux "1.0.0" 8 seen (b'A' ∷ b'\n' ∷ b'q' ∷ [])) nothing_held
    ≡ some nothing_held
main_holds_nothing_example =
    main_holds_nothing whole linux "1.0.0" 8 seen (b'A' ∷ b'\n' ∷ b'q' ∷ [])
