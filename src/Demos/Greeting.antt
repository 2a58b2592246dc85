-- ===== src/Demos/Greeting.antt =====
-- Example 1 of examples/hello_threads.c: tasks that greet and count themselves.
use thread_management_librar.Base.{
  ℕ, ◌*◌, ◌<◌, ◌≡◌, refl, List, [], ◌∷◌, length, size_mod, uint_mod, arith,
}
use thread_management_librar.Scheduler.Store.{Task}
use thread_management_librar.ThreadPool.System.{Pool, Reach, ReturnsZero}
use thread_management_librar.Demos.Tally.{atomic_fetch_add, run_all, sum_of, run_all-exact}
use thread_management_librar.Demos.Waiting.{sole_client_done, executed_length}

-- What `greet_task` does to `greeting_count`.
unfoldable pub greet_task : (greeting_count : ℕ) → ℕ
greet_task greeting_count = atomic_fetch_add uint_mod 1 greeting_count

-- The tasks add the same amount.
pub sum_of-const : (c : ℕ) (ts : List Task) → sum_of (λ _. c) ts ≡ length ts * c
sum_of-const c [] = omega arith
sum_of-const c (t ∷ ts) = omega (arith, sum_of-const c ts)

-- Each task that the pool of example_basic_pool accepted has greeted once when sthread_pool_wait finds
-- them completed and returns to the only client: greeting_count is the number of accepted tasks; for
-- fewer than 2 ^ 64 workers and 2 ^ 32 tasks.
pub greetings_counted :
    {workers capacity : ℕ} {p : Pool}
    → workers < size_mod
    → Reach workers 1 capacity p
    → length p.accepted < uint_mod
    → ReturnsZero p 0
    → run_all (λ _. greet_task) p.executed 0 ≡ length p.accepted
unfolding greet_task
greetings_counted {p} few r fewer returns =
    let same = executed_length (sole_client_done few r (omega arith) returns) in
    omega (
      arith,
      same,
      sum_of-const 1 p.executed,
      run_all-exact uint_mod (λ _. 1) (λ _. greet_task) (λ t x. refl) p.executed 0
          (omega (arith, same, sum_of-const 1 p.executed)),
    )
