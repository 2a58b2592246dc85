-- ===== src/Demos/Hello.antt =====
-- The four examples of examples/hello_threads.c and its `main`, as the actions of the main thread.
use Prim.Native.String.{String}
use thread_management_librar.Base.{
  ℕ, ◌*◌, ◌-◌, ◌==◌, Bool, true, false, List, [], ◌∷◌, ◌++◌, if◌then◌else◌, ◌≡◌, refl, some,
}
use thread_management_librar.Demos.Console.{
  int, str, printf, Action, out, call, each, pool_create, pool_refused, pool_submit, pool_wait,
  pool_destroy, mutex_init, mutex_destroy, sem_init, sem_destroy,
}
use thread_management_librar.Demos.Console.Held.{nothing_held, carry_out, carry_on}
use thread_management_librar.Demos.Sum.{expected}

-- What the program reads: whether each example gets a pool, what it prints of it, and the counters after the
-- waits.
pub record Read : Type 0 where
  pub got_pool : ℕ → Bool
  pub pool_size : ℕ
  pub greeting_count : ℕ
  pub shared_counter : ℕ
  pub result : ℕ

-- `sthread_pool_create`, with its answer.
abbrev pub create : {F : Type 0} → Bool → (num_threads : ℕ) → Action F
create true n = call (pool_create n)
create false n = call pool_refused

module _ {F : Type 0} where
  -- Only this example looks at the answer; if it is NULL, the example returns and has used no pool.
  unfoldable pub example_basic_pool : (got : Bool) (pool_size greeting_count : ℕ) → List (Action F)
  unfolding each
  example_basic_pool false pool_size greeting_count =
      out (printf ("\n=== Example 1: Basic Thread Pool ===\n\n" ∷ []) [] ∷ [])
      ∷ out (printf ("Failed to create pool\n" ∷ []) [] ∷ [])
      ∷ []
  example_basic_pool true pool_size greeting_count =
      out (printf ("\n=== Example 1: Basic Thread Pool ===\n\n" ∷ []) [] ∷ [])
      ∷ create true 4
      ∷ out (printf ("Created thread pool with %zu workers\n\n" ∷ []) (int pool_size ∷ []) ∷ [])
      ∷ (each 10 0 (λ i. call pool_submit ∷ [])
          ++ (call pool_wait
              ∷ out (printf ("\nAll %d greetings completed!\n" ∷ []) (int greeting_count ∷ []) ∷ [])
              ∷ call pool_destroy
              ∷ []))

  unfoldable pub example_mutex : (got : Bool) (shared_counter : ℕ) → List (Action F)
  unfolding each
  example_mutex got shared_counter =
      let increments : ℕ = 10000 in
      out (printf ("\n=== Example 2: Mutex Synchronization ===\n\n" ∷ []) [] ∷ [])
      ∷ call mutex_init
      ∷ create got 4
      ∷ (each 10 0 (λ i. call pool_submit ∷ [])
          ++ (call pool_wait
              ∷ call pool_destroy
              ∷ call mutex_destroy
              ∷ out (
                  printf ("Expected counter: %d\n" ∷ []) (int (10 * increments) ∷ [])
                  ∷ printf ("Actual counter:   %d\n" ∷ []) (int shared_counter ∷ [])
                  ∷ printf ("Result: %s\n" ∷ []) (
                      str
                        (if shared_counter == 10 * increments then "CORRECT" else "RACE CONDITION!")
                      ∷ [])
                  ∷ [])
              ∷ []))

  unfoldable pub example_semaphore : (got : Bool) → List (Action F)
  example_semaphore got =
      out (printf ("\n=== Example 3: Producer-Consumer with Semaphore ===\n\n" ∷ []) [] ∷ [])
      ∷ call (sem_init 0 5)
      ∷ call (sem_init 1 0)
      ∷ call mutex_init
      ∷ create got 2
      ∷ call pool_submit
      ∷ call pool_submit
      ∷ call pool_wait
      ∷ call pool_destroy
      ∷ call (sem_destroy 0)
      ∷ call (sem_destroy 1)
      ∷ call mutex_destroy
      ∷ out (printf ("Expected sum: 210\n" ∷ []) [] ∷ [])
      ∷ []

  unfoldable pub example_parallel_sum : (got : Bool) (actual : ℕ) → List (Action F)
  unfolding each expected
  example_parallel_sum got actual =
      let n : ℕ = 1000000 in
      let num_chunks : ℕ = 4 in
      out (printf ("\n=== Example 4: Parallel Sum Computation ===\n\n" ∷ []) [] ∷ [])
      ∷ create got 4
      ∷ (each num_chunks 0 (λ i. call pool_submit ∷ [])
          ++ (call pool_wait
              ∷ call pool_destroy
              ∷ out (
                  printf ("Computing sum of 0 to %d:\n" ∷ []) (int (n - 1) ∷ [])
                  ∷ printf ("Expected: %ld\n" ∷ []) (int (expected n) ∷ [])
                  ∷ printf ("Computed: %ld\n" ∷ []) (int actual ∷ [])
                  ∷ printf ("Result: %s\n" ∷ [])
                      (str (if actual == expected n then "CORRECT" else "ERROR") ∷ [])
                  ∷ [])
              ∷ []))

  unfoldable pub main_actions : (version : String) (cores : ℕ) → Read → List (Action F)
  unfolding example_basic_pool example_mutex example_semaphore example_parallel_sum
  main_actions version cores r =
      out (
        printf ("\n" ∷ []) []
        ∷ printf ("╔══════════════════════════════════════════════════════════════════╗\n" ∷ []) []
        ∷ printf ("║              STHREAD LIBRARY DEMONSTRATION                       ║\n" ∷ []) []
        ∷ printf ("╚══════════════════════════════════════════════════════════════════╝\n" ∷ []) []
        ∷ printf ("\nLibrary Version: %s\n" ∷ []) (str version ∷ [])
        ∷ printf ("CPU Cores: %zu\n" ∷ []) (int cores ∷ [])
        ∷ [])
      ∷ (example_basic_pool (r.got_pool 1) r.pool_size r.greeting_count
          ++ (example_mutex (r.got_pool 2) r.shared_counter
              ++ (example_semaphore (r.got_pool 3)
                  ++ (example_parallel_sum (r.got_pool 4) r.result
                      ++ out (printf ("\n=== All Examples Completed ===\n\n" ∷ []) [] ∷ []) ∷ []))))

module _ (F : Type 0) where
  basic_pool-Clean :
      (got : Bool) (size count : ℕ)
      → carry_out {F = F} (example_basic_pool got size count) nothing_held ≡ some nothing_held
  unfolding example_basic_pool carry_out
  basic_pool-Clean true size count = refl
  basic_pool-Clean false size count = refl

  mutex-Clean :
      (got : Bool) (counter : ℕ)
      → carry_out {F = F} (example_mutex got counter) nothing_held ≡ some nothing_held
  unfolding example_mutex carry_out
  mutex-Clean true counter = refl
  mutex-Clean false counter = refl

  semaphore-Clean :
      (got : Bool) → carry_out {F = F} (example_semaphore got) nothing_held ≡ some nothing_held
  unfolding example_semaphore carry_out
  semaphore-Clean true = refl
  semaphore-Clean false = refl

  sum-Clean :
      (got : Bool) (actual : ℕ)
      → carry_out {F = F} (example_parallel_sum got actual) nothing_held ≡ some nothing_held
  unfolding example_parallel_sum carry_out
  sum-Clean true actual = refl
  sum-Clean false actual = refl

-- Whichever of its four pools the program hello_threads gets, `main` gives back all that it took: each pool is
-- used between its creation and its destruction, and the mutex and the semaphores are destroyed after the
-- pool whose tasks use them; where all other calls of the library succeed. A call on the pool NULL, which the
-- last three examples go on with, does nothing.
pub hello_holds_nothing :
    (F : Type 0) (version : String) (cores : ℕ) (r : Read)
    → carry_out {F = F} (main_actions version cores r) nothing_held ≡ some nothing_held
unfolding main_actions carry_out
hello_holds_nothing F version cores r =
    let last : List (Action F) =
      out (printf ("\n=== All Examples Completed ===\n\n" ∷ []) [] ∷ []) ∷ [] in
    let four : List (Action F) = example_parallel_sum (r.got_pool 4) r.result ++ last in
    let three : List (Action F) = example_semaphore (r.got_pool 3) ++ four in
    let two : List (Action F) = example_mutex (r.got_pool 2) r.shared_counter ++ three in
    carry_on two nothing_held (example_basic_pool (r.got_pool 1) r.pool_size r.greeting_count)
      (basic_pool-Clean F (r.got_pool 1) r.pool_size r.greeting_count)
      (carry_on three nothing_held (example_mutex (r.got_pool 2) r.shared_counter)
        (mutex-Clean F (r.got_pool 2) r.shared_counter)
        (carry_on four nothing_held (example_semaphore (r.got_pool 3))
          (semaphore-Clean F (r.got_pool 3))
          (carry_on last nothing_held (example_parallel_sum (r.got_pool 4) r.result)
            (sum-Clean F (r.got_pool 4) r.result) refl)))
