-- ===== src/Demos/Benchmark.antt =====
-- benchmarks/bench_throughput.c: the same work by the tasks of a pool and by a thread for each task.
pub mod Work
use thread_management_librar.Base.{
  ℕ, zero, suc, ◌+◌, ◌-◌, ◌%◌, ◌^◌, ◌<◌, ◌≡◌, Bool, true, false, not, List, [], ◌∷◌, ◌++◌, length,
  ltb, if◌then◌else◌,
}
use thread_management_librar.Base.Loops.{for_loop}
use thread_management_librar.Scheduler.Store.{Task}
use thread_management_librar.ThreadPool.System.{Pool, Reach, ReturnsZero}
use thread_management_librar.Demos.Sum.{long_mod}
use thread_management_librar.Demos.Tally.{atomic_fetch_add, run_all}

-- The loop of `simple_task`.
unfoldable pub loop_sum : (iterations : ℕ) → ℕ
unfolding for_loop
loop_sum iterations = for_loop iterations 0 (λ i sum. (sum + i) % long_mod) 0

unfoldable pub simple_task : (iterations total_work : ℕ) → ℕ
unfolding loop_sum atomic_fetch_add
simple_task iterations total_work = atomic_fetch_add long_mod (loop_sum iterations) total_work

-- How `benchmark_thread_pool` ends, and what it leaves in `total_work`: -1 if there is no pool, and else
-- the time until `sthread_pool_wait` found all of its tasks completed.
pub data PoolBenchmark (iterations workers total_work : ℕ)
    : (num_tasks : ℕ) (timed : Bool) (total_work' : ℕ) → Type 0 where
  no_pool : {num_tasks : ℕ} → PoolBenchmark iterations workers total_work num_tasks false total_work
  measured :
      {capacity : ℕ} {p : Pool} {num_tasks : ℕ}
      → Reach workers 1 capacity p
      → length p.accepted ≡ num_tasks
      → ReturnsZero p 0
      → PoolBenchmark iterations workers total_work num_tasks true
          (run_all (λ _. simple_task iterations) p.executed 0)

-- The process around `benchmark_naive`: the threads it has started and joined, the blocks of memory
-- in use, and the work done by the threads that were joined.
pub record Process : Type 0 where
  pub started : List ℕ
  pub joined : List ℕ
  pub blocks : ℕ
  pub total_work : ℕ

module _ (iterations : ℕ) where
  -- `pthread_join(threads[j], NULL)`: the thread has run `thread_wrapper` by then.
  unfoldable pub pthread_join : (j : ℕ) → Process → Process
  unfolding simple_task
  pthread_join j s = record s {
    joined = s.joined ++ j ∷ [];
    total_work = simple_task iterations s.total_work;
  }

  -- The loop that joins the first `count` threads.
  unfoldable pub join_all : (count : ℕ) → Process → Process
  unfolding for_loop pthread_join
  join_all count s = for_loop count 0 pthread_join s

  -- The rest of `benchmark_naive` from thread `i` on, with what `pthread_create` answers for it.
  unfoldable pub create_from : (creates : ℕ → Bool) (rounds i : ℕ) → Process → Bool × Process
  unfolding join_all
  create_from creates zero i s =
      let joined = join_all i s in (true, record joined { blocks = joined.blocks - 1 })
  create_from creates (suc rounds) i s =
      let rest = create_from creates rounds (i + 1) (record s { started = s.started ++ i ∷ [] }) in
      let given_up = join_all i s in
      if not (creates i) then (false, record given_up { blocks = given_up.blocks - 1 }) else rest

  -- Whether it returns a time, or -1.
  unfoldable pub benchmark_naive :
      (got_array : Bool) (creates : ℕ → Bool) (num_tasks : ℕ) → Process → Bool × Process
  unfolding create_from
  benchmark_naive got_array creates num_tasks s =
      if not got_array
      then (false, s)
      else create_from creates num_tasks 0 (record s { blocks = s.blocks + 1; total_work = 0 })
