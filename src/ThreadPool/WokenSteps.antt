-- ===== src/ThreadPool/WokenSteps.antt =====
-- A submit and a pop of src/thread_pool.c that slept and are woken, as steps of the pool at work.
use thread_management_librar.Base.{
  ℕ, suc, ◌<◌, ◌≡◌, ◌≢◌, ◌∙◌, false, Option, some, Ptr, null, ap, arith, size_mod, length,
}
use thread_management_librar.Scheduler.Store.{Task}
use thread_management_librar.Scheduler.Queue.{PushCall, push_loop, pop_loop}
use thread_management_librar.Scheduler.Chain.{has, length-tasks}
use thread_management_librar.Scheduler.Fifo
use thread_management_librar.Scheduler.Fifo.{Fifo, Accept, Taken}
use thread_management_librar.Scheduler.Push.{Pushed, view, call_of, push_loop-Pushed}
use thread_management_librar.ThreadPool.System.{pushing, Pool, at_pop}
use thread_management_librar.ThreadPool.World.{World, ◌>>=◌, code_of, submit_woken, on_queue}
use thread_management_librar.Scheduler.Pop.{pop_call, pop_loop-Popped}
use thread_management_librar.ThreadPool.CallSteps.{TookOut, Popped-Steps}
use thread_management_librar.ThreadPool.Release.{on_queue-some}
use thread_management_librar.ThreadPool.Submit.{counted, count_submitted_lem}
use thread_management_librar.ThreadPool.Progress.{Steps}
use thread_management_librar.ThreadPool.Shown.{Shows, Submitted, push-Steps, Answered-Shows}
use thread_management_librar.Base.Int.{ℤ}
use mathlib.Core.Path.{subst}

-- The rest of a `thread_pool_submit` whose push slept and is woken with its node is a run of steps of its
-- client: where the state shows what the memory holds and the node carries the client's task and is not in
-- the queue, the call ends, or sleeps again, as the client does, and the memory is shown again.
pub submit_woken-Steps :
    {n m : ℕ} (j : ℕ) (w : World) (p : Pool) (t : Task) (node : Ptr)
    → j < m
    → p.client j ≡ pushing t
    → (shows : Shows w p) → node ≢ null
    → w.store.node node ≡ some (record { task = t; next = null })
    → has node shows.cells ≡ false
    → suc (length p.fifo.tasks) < size_mod
    → (answer : Option ℤ) × (w' : World) × (p' : Pool) × (submit_woken node w ≡ some (answer, w'))
      × Steps n m p p'
      × Shows w' p'
      × Submitted j t answer p p'
unfolding submit_woken
submit_woken-Steps j w p t node lt here shows ne at out room =
    let fewer : suc (length shows.cells) < size_mod =
      omega (arith, ap (λ (f : Fifo). length f.tasks) shows.fifo, length-tasks shows.cells, room) in
    let (r, s, ran, done_push) = push_loop-Pushed node t shows.valid ne at out fewer in
    let answer : Accept = (Fifo.push t (view w.store shows.cells)).0 in
    let returned : push_loop node w.store ≡ some (call_of answer node, s) =
      ran ∙ ap (λ (x : PushCall). some (x, s)) done_push.result in
    let pushed : Pushed w.store shows.cells node t (call_of answer node) s =
      subst (λ (x : PushCall). Pushed w.store shows.cells node t x s) done_push.result done_push in
    let (p', steps, answered) = push-Steps j p t _ _ node lt here (ap (Fifo.push t) shows.fifo) in
    (
      code_of (call_of answer node),
      record w { store = s; submitted_tasks = counted answer w.submitted_tasks },
      p',
      rw (on_queue-some _ w _ s returned, ◌>>=◌)
          (count_submitted_lem answer node (record w { store = s })),
      steps,
      Answered-Shows shows pushed answered,
      answered.done_by,
    )

-- The same of a pop that slept: the loop of `task_queue_pop` from its wake-up on is a step of the worker, or
-- no step where it sleeps again, and the memory is shown again.
pub pop_loop-Steps :
    {n m : ℕ} (i : ℕ) (w : World) (p : Pool)
    → i < n
    → p.worker i ≡ at_pop
    → Shows w p
    → (x : Taken) × (w' : World) × (p' : Pool) × (on_queue pop_loop w ≡ some (pop_call x, w'))
      × Steps n m p p'
      × Shows w' p'
      × TookOut i x p p'
pop_loop-Steps i w p lt here shows =
    let (r, s, ran, popping) = pop_loop-Popped w.store shows.cells shows.valid in
    Popped-Steps i w p pop_loop r s lt here shows ran popping
