-- ===== src/Demos/Examples/Pools.antt =====
-- Pools of one worker that run the tasks of examples/hello_threads.c and benchmarks/bench_throughput.c.
use thread_management_librar.Base.{ℕ, ◌≡◌, ◌==◌, refl, Bool, true, ◌&&◌, ltb, [], length, arith}
use thread_management_librar.Scheduler.Fifo
use thread_management_librar.ThreadPool.Runs.{submitted, taken_out, completed, waited}
use thread_management_librar.Demos.Partition.{range_start, range_end}
use thread_management_librar.Demos.Tally.{run_all}
use thread_management_librar.Demos.Sum.{
  RangeTask, sum_range, chunk, submitted_chunks, expected, parallel_sum_right,
}
use thread_management_librar.ThreadPool.System.{completed_passes}
use thread_management_librar.Demos.Benchmark.{
  simple_task, PoolBenchmark, measured, Process, benchmark_naive, create_from,
}
use thread_management_librar.Demos.Benchmark.Work.{
  work_after, benchmark_naive-joins, pool_work_equals_naive,
}

-- The sum of 0, 1 and 2 by one task.
abbrev three_numbers : RangeTask
three_numbers = record { start = 0; end = 3 }

parallel_sum_right_example :
    run_all (λ _. sum_range three_numbers) waited.last.executed 0 ≡ expected 3
unfolding waited completed taken_out submitted Fifo.push Fifo.pop submitted_chunks chunk range_start
    range_end
parallel_sum_right_example =
    parallel_sum_right (omega arith) waited.reach (omega arith) (completed_passes 1 refl refl)
      (λ _. three_numbers) 3 1 (omega arith) (omega arith) refl

three_by_formula : expected 3 ≡ 3
unfolding expected
three_by_formula = refl

abbrev fresh : Process
fresh = record { started = []; joined = []; blocks = 4; total_work = 9 }

-- The creation of the second of three threads fails.
abbrev one_thread : ℕ → Bool
one_thread i = ltb i 1

benchmark_naive-joins_example :
    let (timed, r) = benchmark_naive 5 true one_thread 3 fresh in
    (r.joined ≡ r.started)
    × (r.blocks ≡ 4)
    × ((true && length r.started == 3) ≡ timed)
    × (r.total_work ≡ work_after 5 (length r.started) 0)
benchmark_naive-joins_example = benchmark_naive-joins 5 true one_thread 3 fresh refl refl

one_task_measured : PoolBenchmark 5 1 9 1 true (run_all (λ _. simple_task 5) waited.last.executed 0)
unfolding waited completed taken_out submitted Fifo.push Fifo.pop
one_task_measured = measured waited.reach refl (completed_passes 1 refl refl)

pool_work_equals_naive_example :
    run_all (λ _. simple_task 5) waited.last.executed 0
    ≡ (benchmark_naive 5 true (λ _. true) 1 fresh).1.total_work
unfolding benchmark_naive create_from
pool_work_equals_naive_example =
    pool_work_equals_naive 5 9 1 _ (λ _. true) fresh (omega arith) (omega arith) refl refl
      one_task_measured refl
