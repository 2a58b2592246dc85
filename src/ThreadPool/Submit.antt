-- ===== src/ThreadPool/Submit.antt =====
-- `thread_pool_submit` of src/thread_pool.c: which code it returns, and what it counts.
use thread_management_librar.Base.{
  ℕ, suc, ◌<◌, ◌≡◌, ◌≢◌, refl, true, false, none, some, ◌||◌, ◌==◌, if◌then◌else◌, Ptr, null, inl,
  inr, ◌⊎◌, Bool-cases, ap, arith, ◌∙◌, not_null, inc_size, size_mod, length,
}
use mathlib.Core.Path.{subst}
use thread_management_librar.Base.Int.{negsuc}
use thread_management_librar.Scheduler.Store.{Store, Priority}
use thread_management_librar.Scheduler.Queue.{PushCall, task_queue_push}
use thread_management_librar.Scheduler.Chain.{Cells, IsQueue}
use thread_management_librar.Scheduler.Fifo
use thread_management_librar.Scheduler.Fifo.{Accept, accepted, refused, full}
use thread_management_librar.Scheduler.Push.{Pushed, task_of, task_queue_push-Pushed, view, call_of}
use thread_management_librar.ThreadPool.System.{running, is_running}
use thread_management_librar.ThreadPool.World.{
  World, ◌>>=◌, queue_at, code_of, count_submitted, thread_pool_submit,
}
use thread_management_librar.ThreadPool.Release.{on_queue-some}

-- The counter of submitted tasks after the queue's answer.
abbrev pub counted : Accept → ℕ → ℕ
counted accepted n = inc_size n
counted refused n = n
counted full n = n

pub count_submitted_lem :
    (a : Accept) (p : Ptr) (w : World)
    → count_submitted (call_of a p) w
      ≡ some (code_of (call_of a p), record w { submitted_tasks = counted a w.submitted_tasks })
unfolding count_submitted
count_submitted_lem accepted p w = refl
count_submitted_lem refused p w = refl
count_submitted_lem full p w = refl

-- The run of a submit, from the run of its push.
submit-after :
    (w : World) (pool func arg : Ptr) (priority : Priority) (fresh : Ptr) (now : ℕ) (a : Accept)
    (s : Store)
    → is_running w.state ≡ true
    → pool ≢ null
    → func ≢ null
    → task_queue_push queue_at func arg priority fresh now w.store ≡ some (call_of a fresh, s)
    → thread_pool_submit pool func arg priority fresh now w
      ≡ some (
        code_of (call_of a fresh),
        record w { store = s; submitted_tasks = counted a w.submitted_tasks },
      )
unfolding thread_pool_submit
submit-after w pool func arg priority fresh now a s up np nf ran =
    rw (not_null _ np, not_null _ nf, up, on_queue-some _ w _ s ran, ◌>>=◌)
      (count_submitted_lem a fresh (record w { store = s }))

-- On a running pool, `thread_pool_submit` of a function returns the code of the push (or waits as the
-- push does), counts the task as submitted exactly if the queue took it, and leaves the queue as the
-- bounded queue promises, with the rest of the pool unchanged.
pub thread_pool_submit-Pushed :
    (w : World) (cs : Cells) (pool func arg : Ptr) (priority : Priority) (fresh : Ptr) (now : ℕ)
    → w.state ≡ running
    → IsQueue w.store cs
    → pool ≢ null
    → func ≢ null
    → fresh ≢ null
    → w.store.node fresh ≡ none
    → suc (length cs) < size_mod
    → let t = task_of func arg priority now in
      let answer = (Fifo.push t (view w.store cs)).0 in
      (s : Store) × (thread_pool_submit pool func arg priority fresh now w
        ≡ some (
          code_of (call_of answer fresh),
          record w { store = s; submitted_tasks = counted answer w.submitted_tasks },
        ))
      × Pushed w.store cs fresh t (call_of answer fresh) s
thread_pool_submit-Pushed w cs pool func arg priority fresh now up q np nf ne unused room =
    let t = task_of func arg priority now in
    let answer : Accept = (Fifo.push t (view w.store cs)).0 in
    let (r, s, ran, done) =
      task_queue_push-Pushed w.store cs queue_at func arg priority fresh now q (omega arith) nf ne
        unused room in
    let returned : task_queue_push queue_at func arg priority fresh now w.store
        ≡ some (call_of answer fresh, s) =
      ran ∙ ap (λ (x : PushCall). some (x, s)) done.result in
    (
      s,
      submit-after w pool func arg priority fresh now answer s (ap is_running up) np nf returned,
      subst (λ (x : PushCall). Pushed w.store cs fresh t x s) done.result done,
    )

-- Without a pool or a function it returns -1, and else on a pool that is not running -2; both leave
-- everything as it was.
pub thread_pool_submit-rejected :
    (w : World) (pool func arg : Ptr) (priority : Priority) (fresh : Ptr) (now : ℕ)
    → (pool ≡ null) ⊎ (func ≡ null) ⊎ (is_running w.state ≡ false)
    → thread_pool_submit pool func arg priority fresh now w
      ≡ some (some (if pool == null || func == null then negsuc 0 else negsuc 1), w)
unfolding thread_pool_submit
thread_pool_submit-rejected w pool func arg priority fresh now bad =
    elim (Bool-cases (pool == null || func == null)) [
      | inl bad_arg ↦ rw bad_arg
      | inr given ↦ let down : is_running w.state ≡ false = ground arith in rw (given, down)
    ]
