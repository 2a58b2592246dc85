-- ===== src/Demos/Performance.antt =====
-- The work of demos 4 and 5 of examples/visual_demo.c.
use thread_management_librar.Base.{
  ℕ, ◌+◌, ◌-◌, ◌*◌, ◌%◌, ◌^◌, ◌≤◌, ◌<◌, ◌≡◌, refl, ap, ◌∙◌, length, size_mod, arith,
}
use thread_management_librar.Base.Loops.{for_loop}
use thread_management_librar.ThreadPool.System.{Pool, Reach, ReturnsZero}
use thread_management_librar.Demos.Sum.{long_mod, range_sum, range_sum-lem}
use thread_management_librar.Demos.Tally.{atomic_fetch_add, run_all, sum_of, run_all-exact}
use thread_management_librar.Demos.Waiting.{sole_client_done, executed_length}
use thread_management_librar.Demos.Greeting.{sum_of-const}

-- The loop of `perf_task`.
unfoldable pub perf_sum : (iterations : ℕ) → ℕ
perf_sum iterations = for_loop iterations 0 (λ i sum. (sum + i) % long_mod) 0

unfoldable pub perf_task : (iterations perf_counter : ℕ) → ℕ
perf_task iterations perf_counter = atomic_fetch_add long_mod (perf_sum iterations) perf_counter

-- `perf_thread_wrapper`, which a thread runs in place of a task.
unfoldable pub perf_thread_wrapper : (iterations perf_counter : ℕ) → ℕ
perf_thread_wrapper iterations perf_counter = perf_task iterations perf_counter

perf_sum_lem : (n : ℕ) → n ≤ 2 ^ 31 → 2 * perf_sum n + n ≡ n * n
unfolding perf_sum range_sum
perf_sum_lem n small =
    let whole : n - 0 ≡ n = omega arith in
    omega (arith, rw whole at (range_sum-lem 0 n (omega arith) small))

-- When the pool of demo 4 or 5 was waited for, perf_counter holds the work of all accepted tasks, each
-- counted once: twice the counter, and the iterations of all tasks added to it, is the number of tasks times
-- the square of `iterations`; for at most 2 ^ 31 iterations, work below 2 ^ 63, and fewer than 2 ^ 64
-- workers and tasks.
pub perf_counter_exact :
    {workers capacity : ℕ} {p : Pool}
    → workers < size_mod
    → Reach workers 1 capacity p
    → length p.accepted < size_mod
    → ReturnsZero p 0
    → (iterations : ℕ) → iterations ≤ 2 ^ 31
    → length p.accepted * (iterations * iterations) < 2 ^ 63
    → 2 * run_all (λ _. perf_task iterations) p.executed 0 + length p.accepted * iterations
      ≡ length p.accepted * (iterations * iterations)
unfolding perf_task
perf_counter_exact {p} few r fewer returns n small fits =
    let same = executed_length (sole_client_done few r fewer returns) in
    let each : length p.accepted * (2 * perf_sum n + n) ≡ length p.accepted * (n * n) =
      ap (λ (x : ℕ). length p.accepted * x) (perf_sum_lem n small) in
    let work : sum_of (λ _. perf_sum n) p.executed ≡ length p.accepted * perf_sum n =
      sum_of-const (perf_sum n) p.executed ∙ ap (λ (k : ℕ). k * perf_sum n) same in
    let exact =
      run_all-exact long_mod (λ _. perf_sum n) (λ _. perf_task n) (λ t x. refl) p.executed 0
        (omega (arith, work, each)) in
    omega (arith, exact, work, each)
