-- ===== src/Sthread/PoolLaws.antt =====
-- The codes of `sthread_pool_submit` and `sthread_pool_submit_priority` of src/sthread.c.
use thread_management_librar.Base.{
  ℕ, suc, ◌<◌, ◌≡◌, ◌≢◌, refl, false, Option, none, some, ◌||◌, ◌==◌, Ptr, null, arith, inr,
  not_null, if-false, ap, size_mod, length, ◌∙◌,
}
use thread_management_librar.Base.Int.{ℤ, negsuc}
use thread_management_librar.Scheduler.Store.{Store, Priority}
use thread_management_librar.Scheduler.Chain.{Cells, IsQueue}
use thread_management_librar.Scheduler.Fifo
use thread_management_librar.Scheduler.Fifo.{Accept, accepted, refused, full}
use thread_management_librar.Scheduler.Push.{Pushed, task_of, view, call_of}
use thread_management_librar.Sync.Errors.{
  sthread_success, sthread_error_shutdown, sthread_error_system,
}
use thread_management_librar.ThreadPool.System.{running, is_running}
use thread_management_librar.ThreadPool.World.{World, ◌>>=◌, code_of, thread_pool_submit}
use thread_management_librar.ThreadPool.Submit.{
  counted, thread_pool_submit-Pushed, thread_pool_submit-rejected,
}
use thread_management_librar.Sthread.Pools.{submit_code, sthread_pool_submit_priority}

-- What a caller sees of the queue's answer.
abbrev pub public_code : Accept → Option ℤ
public_code accepted = some sthread_success
public_code refused = some sthread_error_system
public_code full = none

submit_code-public : (a : Accept) (p : Ptr) → submit_code (code_of (call_of a p)) ≡ public_code a
submit_code-public accepted p = refl
submit_code-public refused p = refl
submit_code-public full p = refl

submit_priority-after :
    (w w' : World) (pool func arg : Ptr) (priority : Priority) (fresh : Ptr) (now : ℕ)
    (r : Option ℤ)
    → pool ≢ null
    → func ≢ null
    → thread_pool_submit pool func arg priority fresh now w ≡ some (r, w')
    → sthread_pool_submit_priority pool func arg priority fresh now w ≡ some (submit_code r, w')
unfolding sthread_pool_submit_priority
submit_priority-after w w' pool func arg priority fresh now r np nf ran =
    rw (not_null _ np, not_null _ nf, ran, ◌>>=◌)

-- On a running pool, a submit with any priority returns STHREAD_SUCCESS if the queue takes the task,
-- waits while the queue is full, and returns STHREAD_ERROR_SYSTEM, not STHREAD_ERROR_SHUTDOWN, if the
-- queue was shut down after the test of the state. The task goes to the end of the queue and is
-- counted exactly if it was taken, whatever the priority.
pub sthread_pool_submit_priority-Pushed :
    (w : World) (cs : Cells) (pool func arg : Ptr) (priority : Priority) (fresh : Ptr) (now : ℕ)
    → w.state ≡ running
    → IsQueue w.store cs
    → pool ≢ null
    → func ≢ null
    → fresh ≢ null
    → w.store.node fresh ≡ none
    → suc (length cs) < size_mod
    → let t = task_of func arg priority now in
      let answer = (Fifo.push t (view w.store cs)).0 in
      (s : Store) × (sthread_pool_submit_priority pool func arg priority fresh now w
        ≡ some (
          public_code answer,
          record w { store = s; submitted_tasks = counted answer w.submitted_tasks },
        ))
      × Pushed w.store cs fresh t (call_of answer fresh) s
sthread_pool_submit_priority-Pushed w cs pool func arg priority fresh now up q np nf ne unused
      room =
    let answer : Accept = (Fifo.push (task_of func arg priority now) (view w.store cs)).0 in
    let (s, ran, done) =
      thread_pool_submit-Pushed w cs pool func arg priority fresh now up q np nf ne unused room in
    let w' : World = record w { store = s; submitted_tasks = counted answer w.submitted_tasks } in
    (
      s,
      submit_priority-after w w' pool func arg priority fresh now _ np nf ran
          ∙ ap (λ (r : Option ℤ). some (r, w')) (submit_code-public answer fresh),
      done,
    )

-- On a pool that is not running, every submit with a pool and a function returns
-- STHREAD_ERROR_SHUTDOWN and changes nothing.
pub sthread_pool_submit_priority-stopped :
    (w : World) (pool func arg : Ptr) (priority : Priority) (fresh : Ptr) (now : ℕ)
    → is_running w.state ≡ false
    → pool ≢ null
    → func ≢ null
    → sthread_pool_submit_priority pool func arg priority fresh now w
      ≡ some (some sthread_error_shutdown, w)
sthread_pool_submit_priority-stopped w pool func arg priority fresh now down np nf =
    let given : (pool == null || func == null) ≡ false = ground arith in
    submit_priority-after w w pool func arg priority fresh now (some (negsuc 1)) np nf (
      thread_pool_submit-rejected w pool func arg priority fresh now (inr (inr down))
      ∙ ap (λ (r : ℤ). some (some r, w)) (if-false _ (negsuc 0) (negsuc 1) given))
