-- ===== src/Demos/Waiting.antt =====
-- A program whose main thread alone submits tasks to a pool and then calls `sthread_pool_wait`.
use thread_management_librar.Base.{
  ℕ, ◌<◌, ◌≡◌, ◌≢◌, refl, true, false, List, [], ◌∷◌, length, size_mod, arith,
}
use thread_management_librar.Base.Threads.{how_many}
use thread_management_librar.Scheduler.Store.{Task}
use thread_management_librar.ThreadPool.System.{
  Client, bounding, holds_wait_lock, wake, Pool, WorkerStep, broadcast, ClientStep, load_submitted,
  ReturnsZero, completed_passes, submitted_passes, DestroyStep, exchange, of_worker, of_client,
  of_destroyer, Reach, begin, then_step,
}
use thread_management_librar.ThreadPool.Counts.{is_counting, count_of}
use thread_management_librar.ThreadPool.Safety.{
  AllExecuted, completed_first, submitted_first, wait_return_all_done,
}

-- The value of `submitted_tasks` that the main thread has loaded is current: only it submits.
abbrev Current : Pool → Type 0
Current p = (s : ℕ) → p.client 0 ≡ bounding s → p.submitted_tasks ≡ s

WorkerStep-Current : {p : Pool} {i : ℕ} {p' : Pool} → WorkerStep p i p' → Current p → Current p'
WorkerStep-Current {p} (broadcast e free) h s eq = absurd (not_bounding (p.client 0) (free 0) eq)
  where
    not_bounding : (a : Client) → holds_wait_lock a ≡ false → wake a ≢ bounding s
    not_bounding a free' eq' = ground arith
WorkerStep-Current _ h s eq = h s eq

ClientStep-Current : {p : Pool} {j : ℕ} {p' : Pool} → j ≡ 0 → ClientStep p j p' → Current p'
ClientStep-Current sole (load_submitted e) s eq = ground arith
ClientStep-Current sole _ s eq = absurd (ground arith)

DestroyStep-Current : {n : ℕ} {p p' : Pool} → DestroyStep n p p' → Current p → Current p'
DestroyStep-Current (exchange up) h s eq = h s eq
DestroyStep-Current _ h s eq = h s eq

Reach-Current : {n capacity : ℕ} {p : Pool} → Reach n 1 capacity p → Current p
Reach-Current begin = λ s eq. cc
Reach-Current (then_step r (of_worker i lt st)) = WorkerStep-Current st (Reach-Current r)
Reach-Current (then_step r (of_client j lt st)) = ClientStep-Current (omega arith) st
Reach-Current (then_step r (of_destroyer st)) = DestroyStep-Current st (Reach-Current r)

-- When the wait returns, no other call stands between its push and its count, nor was one between the two loads.
pub sole_client_done :
    {workers capacity : ℕ} {p : Pool}
    → workers < size_mod
    → Reach workers 1 capacity p
    → length p.accepted < size_mod
    → ReturnsZero p 0
    → AllExecuted p
unfolding how_many
sole_client_done {p} few r fewer (completed_passes c at_test enough) =
    let quiet : is_counting (p.client 0) ≡ false = rw at_test in
    (wait_return_all_done few r fewer 0 (completed_first c at_test enough)
      (ground (arith, quiet))).0
sole_client_done {p} few r fewer (submitted_passes s at_test enough) =
    let quiet : is_counting (p.client 0) ≡ false = rw at_test in
    (wait_return_all_done few r fewer 0
      (submitted_first s at_test enough (Reach-Current r s at_test)) (ground (arith, quiet))).0

length-count_of : (ts : List Task) → count_of (λ _. true) ts ≡ length ts
length-count_of [] = refl
length-count_of (t ∷ ts) = omega (arith, length-count_of ts)

-- As many were executed as were accepted.
pub executed_length : {p : Pool} → AllExecuted p → length p.executed ≡ length p.accepted
executed_length {p} all =
    omega (arith, all.same (λ _. true), length-count_of p.executed, length-count_of p.accepted)
