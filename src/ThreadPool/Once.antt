-- ===== src/ThreadPool/Once.antt =====
-- Several calls of `thread_pool_destroy` of src/thread_pool.c on one pool, until the pool is freed.
use thread_management_librar.Base.{ℕ, ◌+◌, ◌≤◌, ◌≡◌, ap, arith}
use thread_management_librar.ThreadPool.System.{
  finished, Destroyer, absent, stopping, joining, created, Pool, exchange, exchange_fails,
  shut_queue, join, terminate, Step, of_worker, of_client, of_destroyer, Reach, begin, then_step,
}
use thread_management_librar.ThreadPool.Lifecycle.{
  Reach-Life, running-absent, WorkerStep-destroyer, ClientStep-destroyer,
}
use thread_management_librar.ThreadPool.Progress.{Steps, stay, step_first}

-- How many exchanges succeed in a step, and how often it comes to the release of the pool.
abbrev begins : {n m : ℕ} {p p' : Pool} → Step n m p p' → ℕ
begins (of_worker i lt st) = 0
begins (of_client j lt st) = 0
begins (of_destroyer (exchange up)) = 1
begins (of_destroyer (exchange_fails down)) = 0
begins (of_destroyer (shut_queue e)) = 0
begins (of_destroyer (join i e lt gone)) = 0
begins (of_destroyer (terminate i e eq)) = 0

abbrev ends : {n m : ℕ} {p p' : Pool} → Step n m p p' → ℕ
ends (of_worker i lt st) = 0
ends (of_client j lt st) = 0
ends (of_destroyer (exchange up)) = 0
ends (of_destroyer (exchange_fails down)) = 0
ends (of_destroyer (shut_queue e)) = 0
ends (of_destroyer (join i e lt gone)) = 0
ends (of_destroyer (terminate i e eq)) = 1

abbrev pub exchanges : {n m : ℕ} {p p' : Pool} → Steps n m p p' → ℕ
exchanges stay = 0
exchanges (step_first st steps) = begins st + exchanges steps

abbrev pub releases : {n m : ℕ} {p p' : Pool} → Steps n m p p' → ℕ
releases stay = 0
releases (step_first st steps) = ends st + releases steps

-- How many calls have begun to destroy the pool, and how many have come to its release.
abbrev pub begun : Destroyer → ℕ
begun absent = 0
begun stopping = 1
begun (joining i) = 1
begun finished = 1

abbrev pub over : Destroyer → ℕ
over absent = 0
over stopping = 0
over (joining i) = 0
over finished = 1

-- What a step adds.
record Adds {n m : ℕ} {p p' : Pool} (st : Step n m p p') : Type 0 where
  begun_then : begun p'.destroyer ≡ begins st + begun p.destroyer
  over_then : over p'.destroyer ≡ ends st + over p.destroyer

Step-Adds : {n m capacity : ℕ} {p p' : Pool} → Reach n m capacity p → (st : Step n m p p') → Adds st
Step-Adds r (of_worker i lt st) =
    let same = WorkerStep-destroyer i lt (Reach-Life r) st in
    record { begun_then = omega (arith, ap begun same); over_then = omega (arith, ap over same) }
Step-Adds r (of_client j lt st) =
    let same = ClientStep-destroyer st in
    record { begun_then = omega (arith, ap begun same); over_then = omega (arith, ap over same) }
Step-Adds {n} {p} r (of_destroyer (exchange up)) =
    let e = running-absent n p p.destroyer (Reach-Life r).phase up in
    record { begun_then = rw e; over_then = rw e }
Step-Adds r (of_destroyer (exchange_fails down)) = record {
  begun_then = omega arith;
  over_then = omega arith;
}
Step-Adds r (of_destroyer (shut_queue e)) = record { begun_then = rw e; over_then = rw e }
Step-Adds r (of_destroyer (join i e lt gone)) = record { begun_then = rw e; over_then = rw e }
Step-Adds r (of_destroyer (terminate i e eq)) = record { begun_then = rw e; over_then = rw e }

Steps-Adds :
    {n m capacity : ℕ} {p p' : Pool}
    → Reach n m capacity p
    → (run : Steps n m p p')
    → (begun p'.destroyer ≡ exchanges run + begun p.destroyer)
      × (over p'.destroyer ≡ releases run + over p.destroyer)
Steps-Adds r stay = (omega arith, omega arith)
Steps-Adds r (step_first st run) =
    let (a, b) = Steps-Adds (then_step r st) run in
    let h = Step-Adds r st in (omega (arith, a, h.begun_then), omega (arith, b, h.over_then))

begun_le : (d : Destroyer) → (begun d ≤ 1) × (over d ≤ begun d)
begun_le d = ground arith

-- However many calls of `thread_pool_destroy` there are, in whatever order they and the workers and clients
-- move, until the pool is freed at most one of them destroys it: in a run from the creation of the pool at most one exchange
-- succeeds, and then none before and none after it; and the pool's release, which follows TERMINATED, is come
-- to at most once, and only by the call whose exchange succeeded.
pub destroyed_once :
    {n m capacity : ℕ} {p : Pool} (run : Steps n m (created capacity) p)
    → (exchanges run ≡ begun p.destroyer)
      × (releases run ≡ over p.destroyer)
      × (exchanges run ≤ 1)
      × (releases run ≤ exchanges run)
destroyed_once {capacity} {p} run =
    let (a, b) = Steps-Adds begin run in
    let (one, less) = begun_le p.destroyer in
    (omega (arith, a), omega (arith, b), omega (arith, a, one), omega (arith, a, b, less))
