-- ===== src/Demos/Benchmark/Work.antt =====
-- What the two ways of benchmarks/bench_throughput.c do and leave behind.
use thread_management_librar.Base.{
  ℕ, zero, suc, ◌+◌, ◌-◌, ◌<◌, ◌≡◌, ◌==◌, refl, sym, ◌∙◌, ap, Bool, true, false, not, ◌&&◌, List,
  [], ◌∷◌, ◌++◌, length, size_mod, Bool-cases, inl, inr, if◌then◌else◌, arith,
}
use thread_management_librar.Base.Loops.{for_loop}
use mathlib.Core.List.{append_assoc, append-nil}
use thread_management_librar.Scheduler.Store.{Task}
use thread_management_librar.Demos.Tally.{run_all}
use thread_management_librar.Demos.Waiting.{sole_client_done, executed_length}
use thread_management_librar.Demos.Benchmark.{
  simple_task, PoolBenchmark, measured, Process, pthread_join, join_all, create_from,
  benchmark_naive,
}

-- The numbers from `first` on.
abbrev pub numbers_from : (count first : ℕ) → List ℕ
numbers_from zero first = []
numbers_from (suc count) first = first ∷ numbers_from count (first + 1)

numbers_from-last :
    (count first last : ℕ)
    → first + count ≡ last
    → numbers_from count first ++ last ∷ [] ≡ numbers_from (suc count) first
numbers_from-last zero first last e =
    let e' : last ≡ first = omega arith in ap (λ (x : ℕ). x ∷ []) e'
numbers_from-last (suc count) first last e =
    ap (λ (l : List ℕ). first ∷ l) (numbers_from-last count (first + 1) last (omega arith))

numbers_from-next : (i : ℕ) → numbers_from i 0 ++ i ∷ [] ≡ numbers_from (i + 1) 0
numbers_from-next i =
    let e : suc i ≡ i + 1 = omega arith in
    numbers_from-last i 0 i (omega arith) ∙ ap (λ (n : ℕ). numbers_from n 0) e

-- `total_work` after some tasks.
abbrev pub work_after : (iterations count total_work : ℕ) → ℕ
work_after iterations zero w = w
work_after iterations (suc count) w = work_after iterations count (simple_task iterations w)

run_all-work :
    (iterations : ℕ) (ts : List Task) (w : ℕ)
    → run_all (λ _. simple_task iterations) ts w ≡ work_after iterations (length ts) w
unfolding run_all
run_all-work iterations [] w = refl
run_all-work iterations (t ∷ ts) w = run_all-work iterations ts (simple_task iterations w)

module _ (iterations : ℕ) where
  abbrev after_joins : (count first : ℕ) → Process → Process
  after_joins count first s = record s {
    joined = s.joined ++ numbers_from count first;
    total_work = work_after iterations count s.total_work;
  }

  joins_from :
      (count first : ℕ) (s : Process)
      → for_loop count first (pthread_join iterations) s ≡ after_joins count first s
  unfolding for_loop pthread_join
  joins_from zero first s = rw (append-nil s.joined) refl
  joins_from (suc count) first s =
      joins_from count (first + 1) (pthread_join iterations first s)
      ∙ ap
          (λ (l : List ℕ). record s {
            joined = l;
            total_work = work_after iterations count (simple_task iterations s.total_work);
          })
          (append_assoc s.joined (first ∷ []) (numbers_from count (first + 1)))

  join_all_lem : (count : ℕ) (s : Process) → join_all iterations count s ≡ after_joins count 0 s
  unfolding join_all
  join_all_lem count s = joins_from count 0 s

  -- All threads that were started are joined, and the array is freed.
  record Over (blocks total_work tasks : ℕ) (result : Bool × Process) : Type 0 where
    joined_all : result.1.joined ≡ result.1.started
    freed : result.1.blocks ≡ blocks - 1
    work : result.1.total_work ≡ work_after iterations (length result.1.started) total_work
    counted : (length result.1.started == tasks) ≡ result.0

  length-numbers_from : (count first : ℕ) → length (numbers_from count first) ≡ count
  length-numbers_from zero first = refl
  length-numbers_from (suc count) first = ap suc (length-numbers_from count (first + 1))

  -- Where the first `i` threads were started, and are joined.
  join_all-Over :
      (tasks i : ℕ) (ok : Bool) (s : Process)
      → s.started ≡ numbers_from i 0
      → s.joined ≡ []
      → (i == tasks) ≡ ok
      → Over s.blocks s.total_work tasks
          (ok, record (join_all iterations i s) { blocks = (join_all iterations i s).blocks - 1 })
  join_all-Over tasks i ok s st jo here = rw (join_all_lem i s) (record {
    joined_all = ap (λ (l : List ℕ). l ++ numbers_from i 0) jo ∙ sym st;
    freed = refl;
    work =
        ap (λ (n : ℕ). work_after iterations n s.total_work)
          (sym (ap length st ∙ length-numbers_from i 0));
    counted = ap (λ (n : ℕ). n == tasks) (ap length st ∙ length-numbers_from i 0) ∙ here;
  })

  create_from-Over :
      (creates : ℕ → Bool) (rounds i : ℕ) (s : Process)
      → s.started ≡ numbers_from i 0
      → s.joined ≡ []
      → Over s.blocks s.total_work (rounds + i) (create_from iterations creates rounds i s)
  unfolding create_from
  create_from-Over creates zero i s st jo = join_all-Over (0 + i) i true s st jo (ground arith)
  create_from-Over creates (suc rounds) i s st jo = elim (Bool-cases (not (creates i))) [
    | inl failed ↦ rw failed (join_all-Over (suc rounds + i) i false s st jo (ground arith))
    | inr fine ↦
        let next = record s { started = s.started ++ i ∷ [] } in
        let added : next.started ≡ numbers_from (i + 1) 0 =
          ap (λ (l : List ℕ). l ++ i ∷ []) st ∙ numbers_from-next i in
        let same : rounds + (i + 1) ≡ suc rounds + i = omega arith in
        rw (fine, ← same) (create_from-Over creates rounds (i + 1) next added jo)
  ]

  -- When `benchmark_naive` returns, on each of its paths, it has joined every thread that it started,
  -- each once and in the order of their creation, and the array of threads is freed; it reports a time
  -- exactly when it got the array and started one thread for each task; and `total_work` is what as many
  -- runs of simple_task as threads add up to from 0, or as before where it got no array.
  pub benchmark_naive-joins :
      (got_array : Bool) (creates : ℕ → Bool) (num_tasks : ℕ) (s : Process)
      → s.started ≡ []
      → s.joined ≡ []
      → let (timed, r) = benchmark_naive iterations got_array creates num_tasks s in
        (r.joined ≡ r.started)
        × (r.blocks ≡ s.blocks)
        × ((got_array && length r.started == num_tasks) ≡ timed)
        × (r.total_work
            ≡ work_after iterations (length r.started) (if got_array then 0 else s.total_work))
  unfolding benchmark_naive
  benchmark_naive-joins false creates num_tasks s st jo = (
    jo ∙ sym st,
    refl,
    refl,
    sym (ap (λ (l : List ℕ). work_after iterations (length l) s.total_work) st),
  )
  benchmark_naive-joins true creates num_tasks s st jo =
      let over =
        create_from-Over creates num_tasks 0 (record s { blocks = s.blocks + 1; total_work = 0 }) st
          jo in
      let one_less : s.blocks + 1 - 1 ≡ s.blocks = omega arith in
      let same : num_tasks + 0 ≡ num_tasks = omega arith in
      (over.joined_all, over.freed ∙ one_less, rw same at over.counted, over.work)

-- What the pool leaves.
pool_work :
    {iterations w num_tasks workers pool_total : ℕ}
    → num_tasks < size_mod
    → workers < size_mod
    → PoolBenchmark iterations workers w num_tasks true pool_total
    → pool_total ≡ work_after iterations num_tasks 0
pool_work {iterations} fewer few (measured {p} r accepted returns) =
    let all = sole_client_done few r (omega arith) returns in
    run_all-work iterations p.executed 0
    ∙ ap (λ (k : ℕ). work_after iterations k 0) (executed_length all ∙ accepted)

-- The pool does the same work as a thread for each task: when benchmark_thread_pool reports a time for
-- a pool that accepted all of its tasks, and benchmark_naive reports one for as many, both leave
-- the same total in `total_work`, whatever it was before and in whatever order the workers ran the tasks;
-- for fewer than 2 ^ 64 workers and tasks.
pub pool_work_equals_naive :
    (iterations total_work num_tasks pool_total : ℕ) (creates : ℕ → Bool) (s : Process)
    {workers : ℕ}
    → workers < size_mod
    → num_tasks < size_mod
    → s.started ≡ []
    → s.joined ≡ []
    → PoolBenchmark iterations workers total_work num_tasks true pool_total
    → (benchmark_naive iterations true creates num_tasks s).0 ≡ true
    → pool_total ≡ (benchmark_naive iterations true creates num_tasks s).1.total_work
pool_work_equals_naive iterations w num_tasks pool_total creates s few fewer st jo run timed =
    let (_, _, counted, work) = benchmark_naive-joins iterations true creates num_tasks s st jo in
    let n = length (benchmark_naive iterations true creates num_tasks s).1.started in
    let all : n ≡ num_tasks = ground (arith, counted, timed) in
    pool_work fewer few run ∙ ap (λ (k : ℕ). work_after iterations k 0) (sym all) ∙ sym work
