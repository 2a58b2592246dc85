-- ===== src/Demos/Sum.antt =====
-- Example 4 of examples/hello_threads.c: a sum over ranges by the tasks of a pool. A `long` has 64
-- bits and is not negative here.
use thread_management_librar.Base.{
  ℕ, zero, suc, ◌+◌, ◌-◌, ◌*◌, ◌/◌, ◌%◌, ◌^◌, ◌≤◌, ◌<◌, ◌≡◌, refl, List, [], ◌∷◌, ◌++◌, map, length,
  size_mod, arith, ap, sym, ◌∙◌,
}
use thread_management_librar.Base.Loops.{for_loop, for_loop-keeps}
use thread_management_librar.Scheduler.Store.{Task}
use thread_management_librar.ThreadPool.System.{Pool, Reach, ReturnsZero}
use thread_management_librar.Demos.Waiting.{sole_client_done}
use thread_management_librar.Demos.Partition.{
  range_start, range_end, range_start-zero, range_start-suc, range_end-last, start_le_end,
  range_end-le,
}
use thread_management_librar.Demos.Tally.{
  atomic_fetch_add, run_all, sum_of, sum_of-same, run_all-exact,
}
use native.Mathlib.Nat.{mul-le-mul}

abbrev pub long_mod : ℕ
long_mod = 2 ^ 64

-- `range_task_t` without the address of the result.
pub record RangeTask : Type 0 where
  pub start : ℕ
  pub end : ℕ

-- The loop of `sum_range`.
unfoldable pub range_sum : RangeTask → ℕ
unfolding for_loop
range_sum task = for_loop (task.end - task.start) task.start (λ i sum. (sum + i) % long_mod) 0

unfoldable pub sum_range : RangeTask → (result : ℕ) → ℕ
unfolding range_sum atomic_fetch_add
sum_range task result = atomic_fetch_add long_mod (range_sum task) result

-- `tasks[i]`
unfoldable pub chunk : (n num_chunks i : ℕ) → RangeTask
unfolding range_start range_end
chunk n num_chunks i = record { start = range_start n num_chunks i; end = range_end n num_chunks i }

-- The tasks that the loop has submitted after `rounds` rounds, in their order.
unfoldable pub submitted_chunks : (n num_chunks rounds : ℕ) → List RangeTask
unfolding chunk
submitted_chunks n num_chunks zero = []
submitted_chunks n num_chunks (suc rounds) =
    submitted_chunks n num_chunks rounds ++ chunk n num_chunks rounds ∷ []

-- `(long)n * (n - 1) / 2`
unfoldable pub expected : ℕ → ℕ
expected n = n * (n - 1) / 2

-- What the sum of a range is, without a division.
pub range_sum-lem :
    (a b : ℕ)
    → a ≤ b
    → b ≤ 2 ^ 31
    → 2 * range_sum (record { start = a; end = b }) + a * a + b ≡ b * b + a
unfolding range_sum
range_sum-lem a b le small =
    for_loop-keeps (λ i s. 2 * s + a * a + i ≡ i * i + a) (λ i s. (s + i) % long_mod) (b - a) a b 0
      (omega arith) (λ i s from below h. round i s below h) (omega arith)
  where
    round :
        (i s : ℕ)
        → i < b
        → 2 * s + a * a + i ≡ i * i + a
        → 2 * ((s + i) % long_mod) + a * a + (i + 1) ≡ (i + 1) * (i + 1) + a
    round i s below h =
        let i_small : i ≤ 2 ^ 31 = omega arith in
        let square : i * i ≤ 2 ^ 31 * 2 ^ 31 = mul-le-mul i_small i_small in
        let fits : (s + i) % long_mod ≡ s + i = omega arith in rw fits (omega arith)

pub chunk_sum : List RangeTask → ℕ
unfolding range_sum
chunk_sum [] = 0
chunk_sum (c ∷ cs) = range_sum c + chunk_sum cs

chunk_sum-append : (cs ds : List RangeTask) → chunk_sum (cs ++ ds) ≡ chunk_sum cs + chunk_sum ds
unfolding chunk_sum
chunk_sum-append [] ds = omega arith
chunk_sum-append (c ∷ cs) ds = omega (arith, chunk_sum-append cs ds)

times_pred : (n : ℕ) → n * (n - 1) + n ≡ n * n
times_pred zero = refl
times_pred (suc n) = let e : suc n - 1 ≡ n = omega arith in rw e (omega arith)

module _ (n k : ℕ) (small : n ≤ 2 ^ 31) where
  chunk_step :
      (m : ℕ)
      → m < k
      → 2 * chunk_sum (submitted_chunks n k m) + range_start n k m
        ≡ range_start n k m * range_start n k m
      → 2 * chunk_sum (submitted_chunks n k (suc m)) + range_end n k m
        ≡ range_end n k m * range_end n k m
  unfolding submitted_chunks chunk chunk_sum
  chunk_step m lt h = omega (
    arith,
    chunk_sum-append (submitted_chunks n k m) (chunk n k m ∷ []),
    range_sum-lem (range_start n k m) (range_end n k m) (start_le_end n k m lt)
        (let le : range_end n k m ≤ 2 ^ 31 = omega (arith, range_end-le n k m lt) in le),
    h,
  )

  chunks_before :
      (m : ℕ)
      → m < k
      → 2 * chunk_sum (submitted_chunks n k m) + range_start n k m
        ≡ range_start n k m * range_start n k m
  unfolding submitted_chunks chunk_sum
  chunks_before zero lt = rw (range_start-zero n k) (omega arith)
  chunks_before (suc m) lt =
      rw (range_start-suc n k m lt) (chunk_step m (omega arith) (chunks_before m (omega arith)))

  -- The ranges make up the numbers below `n`.
  pub chunks_all : 0 < k → chunk_sum (submitted_chunks n k k) ≡ expected n
  unfolding expected
  chunks_all some_chunk =
      let here : k ≡ suc (k - 1) = omega arith in
      let total = chunk_step (k - 1) (omega arith) (chunks_before (k - 1) (omega arith)) in
      let sum_all : 2 * chunk_sum (submitted_chunks n k k) + n ≡ n * n =
        rw (← here, range_end-last n k (k - 1) (sym here)) at total in
      omega (arith, times_pred n, sum_all)

  expected-small : expected n < long_mod
  unfolding expected
  expected-small =
      let below : n - 1 ≤ 2 ^ 31 = omega arith in
      let product : n * (n - 1) ≤ 2 ^ 31 * 2 ^ 31 = mul-le-mul small below in omega (arith, product)

sum_of-chunks :
    (job : Task → RangeTask) (ts : List Task)
    → sum_of (λ t. range_sum (job t)) ts ≡ chunk_sum (map job ts)
unfolding chunk_sum
sum_of-chunks job [] = refl
sum_of-chunks job (t ∷ ts) = omega (arith, sum_of-chunks job ts)

-- The parallel sum is right: let the tasks that a pool with one client accepted be those of the
-- `num_chunks` ranges that example_parallel_sum cuts 0 to n - 1 into, for n up to 2 ^ 31 and at least
-- one range. When sthread_pool_wait finds all of them completed and returns, the atomic additions of
-- the tasks, in whatever order the workers made them, have brought the result from 0 to
-- n * (n - 1) / 2 without a wrap-around; for fewer than 2 ^ 64 workers and tasks.
pub parallel_sum_right :
    {workers capacity : ℕ} {p : Pool}
    → workers < size_mod
    → Reach workers 1 capacity p
    → length p.accepted < size_mod
    → ReturnsZero p 0
    → (job : Task → RangeTask) (n num_chunks : ℕ) → 0 < num_chunks
    → n ≤ 2 ^ 31
    → map job p.accepted ≡ submitted_chunks n num_chunks num_chunks
    → run_all (λ t. sum_range (job t)) p.executed 0 ≡ expected n
unfolding sum_range
parallel_sum_right {p} few r fewer returns job n k some_chunk small jobs =
    let all = sole_client_done few r fewer returns in
    let g = λ (t : Task). range_sum (job t) in
    let total : sum_of g p.executed ≡ expected n =
      sum_of-same g p.executed p.accepted all.same
      ∙ sum_of-chunks job p.accepted
      ∙ ap chunk_sum jobs
      ∙ chunks_all n k small some_chunk in
    omega (
      arith,
      run_all-exact long_mod g (λ t. sum_range (job t)) (λ t x. refl) p.executed 0
          (omega (arith, total, expected-small n k small)),
      total,
    )
