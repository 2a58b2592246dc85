-- ===== src/ThreadPool/SubmitSteps.antt =====
-- `thread_pool_submit` of src/thread_pool.c on the queue in memory, as steps of a client of the pool at work.
use thread_management_librar.Base.{
  ℕ, suc, ◌<◌, ◌≡◌, ◌≢◌, refl, sym, ◌∙◌, true, Option, none, some, Ptr, null, Bool-cases, inl, inr,
  ap, arith, size_mod, length, not_null,
}
use mathlib.Core.List.{append-nil}
use thread_management_librar.Base.Int.{ℤ, negsuc}
use thread_management_librar.Base.Threads.{assign}
use thread_management_librar.Scheduler.Store.{Task, Priority}
use thread_management_librar.Scheduler.Chain.{length-tasks}
use thread_management_librar.Scheduler.Fifo
use thread_management_librar.Scheduler.Fifo.{Fifo, Accept, accepted, refused, full}
use thread_management_librar.Scheduler.Push.{task_of}
use thread_management_librar.ThreadPool.System.{
  PoolState, running, shutdown, terminated, is_running, idle, submitting, pushing, Pool,
  call_submit, see_running, see_stopped, of_client,
}
use thread_management_librar.ThreadPool.World.{World, thread_pool_submit}
use thread_management_librar.ThreadPool.Submit.{
  thread_pool_submit-Pushed, thread_pool_submit-rejected,
}
use thread_management_librar.ThreadPool.Progress.{Steps, stay, step_first}
use thread_management_librar.ThreadPool.Shown.{
  Shows, Submitted, Answered, push-Steps, Answered-Shows,
}

-- Client `j` stands before its push.
abbrev before_push : ℕ → Task → Pool → Pool
before_push j t p =
    let called : Pool = record p { client = assign p.client j (submitting t) } in
    record called { client = assign called.client j (pushing t) }

-- A whole submit that comes to its push.
submit-Steps :
    {n m : ℕ} (j : ℕ) (p : Pool) (t : Task) (a : Accept) (f : Fifo) (fresh : Ptr)
    → j < m
    → p.client j ≡ idle
    → is_running p.state ≡ true
    → Fifo.push t p.fifo ≡ (a, f)
    → (p' : Pool) × Steps n m p p' × Answered j t a f fresh p p'
submit-Steps j p t a f fresh lt here up e =
    let (p', steps, answered) = push-Steps j (before_push j t p) t a f fresh lt (ground arith) e in
    let after = answered.done_by in
    (
      p',
      step_first (of_client j lt (call_submit t here))
          (step_first (of_client j lt (see_running t (ground arith) up)) steps),
      record {
        done_by = record {
          client = λ k. after.client k ∙ ground arith;
          worker = after.worker;
          destroyer = after.destroyer;
          accepted = after.accepted;
        };
        fifo = answered.fifo;
        state = answered.state;
        active = answered.active;
        completed = answered.completed;
        submitted = answered.submitted;
      },
    )

is_running-here : (x : PoolState) → is_running x ≡ true → x ≡ running
is_running-here running e = refl
is_running-here shutdown e = absurd (ground arith)
is_running-here terminated e = absurd (ground arith)

-- `thread_pool_submit` on the queue in memory is a run of steps of the client that calls it: let a state of
-- a pool at work show what the memory holds, with the client in no call and fewer than 2 ^ 64 - 1 queued
-- tasks; for a pool and a function that are not NULL and a new node, the call ends, or waits in its push,
-- and there is a run to a state that shows what the memory then holds. There the client is back, or still
-- in its push if the call waits, every other thread is where it was, and the queue took the task in exactly if the answer is 0. This holds while the
-- pool runs and after it was shut down.
pub thread_pool_submit-Steps :
    {n m : ℕ} (j : ℕ) (w : World) (p : Pool) (pool func arg : Ptr) (priority : Priority)
    (fresh : Ptr) (now : ℕ)
    → j < m
    → p.client j ≡ idle
    → Shows w p
    → pool ≢ null
    → func ≢ null
    → fresh ≢ null
    → w.store.node fresh ≡ none
    → suc (length p.fifo.tasks) < size_mod
    → (answer : Option ℤ) × (w' : World) × (p' : Pool) × (thread_pool_submit pool func arg priority
          fresh now w
        ≡ some (answer, w'))
      × Steps n m p p'
      × Shows w' p'
      × Submitted j (task_of func arg priority now) answer p p'
thread_pool_submit-Steps j w p pool func arg priority fresh now lt here shows np nf ne unused room =
    let t = task_of func arg priority now in
    elim (Bool-cases (is_running w.state)) [
      | inl up ↦
          let (s, ran, pushed) =
            thread_pool_submit-Pushed w shows.cells pool func arg priority fresh now
              (is_running-here w.state up) shows.valid np nf ne unused
              (omega (
                arith,
                ap (λ (f : Fifo). length f.tasks) shows.fifo,
                length-tasks shows.cells,
                room,
              )) in
          let (p', steps, answered) =
            submit-Steps j p t _ _ fresh lt here (ap is_running shows.state ∙ up)
              (ap (Fifo.push t) shows.fifo) in
          (_, _, p', ran, steps, Answered-Shows shows pushed answered, answered.done_by)
      | inr down ↦ (
        some (negsuc 1),
        w,
        _,
        thread_pool_submit-rejected w pool func arg priority fresh now (inr (inr down))
            ∙ rw (not_null _ np, not_null _ nf),
        step_first (of_client j lt (call_submit t here)) (
            step_first
              (of_client j lt (see_stopped t (ground arith) (ap is_running shows.state ∙ down)))
              stay),
        record {
          cells = shows.cells;
          valid = shows.valid;
          fifo = shows.fifo;
          state = shows.state;
          active = shows.active;
          completed = shows.completed;
          submitted = shows.submitted;
        },
        record {
          client = λ k. ground arith;
          worker = refl;
          destroyer = refl;
          accepted = sym (append-nil p.accepted);
        },
      )
    ]
