-- ===== src/ThreadPool/Create.antt =====
-- The part of `thread_pool_create` of src/thread_pool.c that follows the initialisation of the queue.
use thread_management_librar.Base.{
  ℕ, zero, suc, ◌+◌, ◌≡◌, refl, Bool, true, false, none, some, [], ◌&&◌, ◌==◌, if◌then◌else◌, inl,
  inr, Bool-cases, if-true, if-false, ap, arith, sym, ◌∙◌,
}
use native.Mathlib.Nat.{add-zero}
use mathlib.Core.Bool.{false≢true}
use mathlib.Core.Path.{ap₂, subst}
use thread_management_librar.Scheduler.Chain.{IsQueue}
use thread_management_librar.Scheduler.Lifecycle.{Objects}
use thread_management_librar.ThreadPool.System.{running}
use thread_management_librar.ThreadPool.World.{
  World, ◌>>=◌, Answers, spawn_workers, spawn_result, spawn_all, create_rest,
}
use thread_management_librar.ThreadPool.Release.{
  Clean, release_queue-some, release_lock-some, release_cond-some, abort_spawn-Clean,
}

-- Whether the system creates `left` workers from number `i` on.
abbrev pub all_created : (left i : ℕ) → (ℕ → ℕ) → Bool
all_created zero i ret = true
all_created (suc k) i ret = ret i == 0 && all_created k (suc i) ret

-- The workers that were created before the first failure.
abbrev created_before : (left i : ℕ) → (ℕ → ℕ) → ℕ
created_before zero i ret = 0
created_before (suc k) i ret = if ret i == 0 then suc (created_before k (suc i) ret) else 0

spawn_workers-some :
    (k i : ℕ) (ret : ℕ → ℕ) (w : World)
    → spawn_workers k i ret w
      ≡ some (
        if all_created k i ret then none else some (i + created_before k i ret),
        record w { threads = w.threads + created_before k i ret },
      )
unfolding spawn_workers
spawn_workers-some zero i ret w =
    ap (λ (n : ℕ). some (none, record w { threads = n })) (omega arith)
spawn_workers-some (suc k) i ret w = elim (Bool-cases (ret i == 0)) [
  | inr fails ↦ rw fails (simp add-zero)
  | inl fine ↦ rw fine (
      spawn_workers-some k (suc i) ret (record w { threads = w.threads + 1 })
      ∙ ap₂
          (λ (a b : ℕ).
            some (if all_created k (suc i) ret then none else some a, record w { threads = b }))
          (omega arith) (omega arith))
]

-- A pool that is ready for use.
pub record Ready (n capacity : ℕ) (w : World) : Type 0 where
  pub blocks : (w.pool_block ≡ true) × (w.workers_block ≡ true)
  pub waits : (w.wait_lock ≡ true) × (w.wait_cond ≡ true)
  pub threads : (w.threads ≡ n) × (w.num_threads ≡ n)
  pub state : w.state ≡ running
  pub counters : (w.active_tasks ≡ 0) × (w.completed_tasks ≡ 0) × (w.submitted_tasks ≡ 0)
  pub objects : Objects w.store.queue true
  pub queue : IsQueue w.store []
  pub bound : (w.store.queue.capacity ≡ capacity) × (w.queue_capacity ≡ capacity)
  pub open_queue : w.store.queue.shutdown ≡ false

-- The result of a creation: a pool if the system grants all, else NULL with nothing held.
pub data Outcome (n capacity : ℕ) (w : World) : (granted r : Bool) → Type 0 where
  pool_ready : Ready n capacity w → Outcome n capacity w true true
  nothing_held : Clean w → Outcome n capacity w false false

created_before-all :
    (k i : ℕ) (ret : ℕ → ℕ) → all_created k i ret ≡ true → created_before k i ret ≡ k
created_before-all zero i ret all = refl
created_before-all (suc k) i ret all = elim (Bool-cases (ret i == 0)) [
  | inr fails ↦ absurd (
      false≢true (
        sym (subst (λ (b : Bool). (b && all_created k (suc i) ret) ≡ false) (sym fails) refl)
        ∙ all))
  | inl fine ↦ rw fine (
      ap suc (
        created_before-all k (suc i) ret
          (subst (λ (b : Bool). (b && all_created k (suc i) ret) ≡ true) fine all)))
]

-- Either every worker is created, or those that were are joined and nothing is held.
spawn_all-Outcome :
    (n capacity : ℕ) (ret : ℕ → ℕ) (w : World)
    → IsQueue w.store []
    → w.threads ≡ 0
    → ((k : ℕ) → k ≡ n → Ready n capacity (record w { threads = k }))
    → (r : Bool) × (w' : World) × (spawn_all n ret w ≡ some (r, w'))
      × Outcome n capacity w' (all_created n 0 ret) r
unfolding spawn_all spawn_result
spawn_all-Outcome n capacity ret w q none_yet ready = elim (Bool-cases (all_created n 0 ret)) [
  | inl all ↦
      let grown : World = record w { threads = w.threads + created_before n 0 ret } in
      (
        true,
        grown,
        rw (spawn_workers-some n 0 ret w, if-true _ _ _ all, ◌>>=◌) refl,
        subst (λ (b : Bool). Outcome n capacity grown b true) (sym all)
            (pool_ready (
              ready (w.threads + created_before n 0 ret)
                (let e = created_before-all n 0 ret all in omega arith))),
      )
  | inr some_fail ↦
      let grown : World = record w { threads = w.threads + created_before n 0 ret } in
      let (w', ran, clean) = abort_spawn-Clean grown q (0 + created_before n 0 ret) (omega arith) in
      (
        false,
        w',
        rw (spawn_workers-some n 0 ret w, if-false _ _ _ some_fail, ◌>>=◌) ran,
        subst (λ (b : Bool). Outcome n capacity w' b false) (sym some_fail) (nothing_held clean),
      )
]

-- A pool whose queue is there, and whose other resources are not.
pub record Prepared (n capacity : ℕ) (w : World) : Type 0 where
  pub pool_block : w.pool_block ≡ true
  pub threads : w.threads ≡ 0
  pub workers_block : w.workers_block ≡ false
  pub wait_lock : w.wait_lock ≡ false
  pub wait_cond : w.wait_cond ≡ false
  pub num_threads : w.num_threads ≡ n
  pub objects : Objects w.store.queue true
  pub queue : IsQueue w.store []
  pub bound : (w.store.queue.capacity ≡ capacity) × (w.queue_capacity ≡ capacity)
  pub open_queue : w.store.queue.shutdown ≡ false

abbrev pub rest_granted : ℕ → Answers → Bool
rest_granted n ans =
    ans.ret_wait_lock == 0
    && ans.ret_wait_cond == 0
    && ans.workers_block
    && all_created n 0 ans.ret_create

-- What follows the queue: a pool, or everything released that was there by then.
pub create_rest-Outcome :
    (n capacity : ℕ) (ans : Answers) (w : World)
    → Prepared n capacity w
    → (r : Bool) × (w' : World) × (create_rest n ans w ≡ some (r, w'))
      × Outcome n capacity w' (rest_granted n ans) r
unfolding create_rest
create_rest-Outcome n capacity ans w p = elim (Bool-cases (ans.ret_wait_lock == 0)) [
  | inr no_lock ↦
      let (s, ran, objects, queue) = release_queue-some w p.queue in
      (
        false,
        record w { pool_block = false; store = s },
        rw no_lock ran,
        rw no_lock (
            nothing_held (record {
              pool_block = refl;
              workers_block = p.workers_block;
              wait_lock = p.wait_lock;
              wait_cond = p.wait_cond;
              threads = p.threads;
              objects = objects;
              queue = queue;
            })),
      )
  | inl lock ↦ elim (Bool-cases (ans.ret_wait_cond == 0)) [
    | inr no_cond ↦
        let locked : World = record w { wait_lock = true } in
        let (s, ran, objects, queue) = release_lock-some locked p.queue in
        (
          false,
          record locked { wait_lock = false; pool_block = false; store = s },
          rw (lock, no_cond) ran,
          rw (lock, no_cond)
              (nothing_held (record {
                pool_block = refl;
                workers_block = p.workers_block;
                wait_lock = refl;
                wait_cond = p.wait_cond;
                threads = p.threads;
                objects = objects;
                queue = queue;
              })),
        )
    | inl cond_there ↦
        let waiting : World = record w {
          wait_lock = true;
          wait_cond = true;
          state = running;
          active_tasks = 0;
          completed_tasks = 0;
          submitted_tasks = 0;
        } in
        elim (Bool-cases ans.workers_block) [
          | inr no_block ↦
              let (s, ran, objects, queue) = release_cond-some waiting p.queue in
              (
                false,
                record waiting {
                  wait_cond = false;
                  wait_lock = false;
                  pool_block = false;
                  store = s;
                },
                rw (lock, cond_there, no_block) ran,
                rw (lock, cond_there, no_block)
                    (nothing_held (record {
                      pool_block = refl;
                      workers_block = p.workers_block;
                      wait_lock = refl;
                      wait_cond = refl;
                      threads = p.threads;
                      objects = objects;
                      queue = queue;
                    })),
              )
          | inl block ↦
              let (r, w', ran, out) =
                spawn_all-Outcome n capacity ans.ret_create
                  (record waiting { workers_block = true }) p.queue p.threads
                  (λ k e. record {
                    blocks = (p.pool_block, refl);
                    waits = (refl, refl);
                    threads = (e, p.num_threads);
                    state = refl;
                    counters = (refl, refl, refl);
                    objects = p.objects;
                    queue = p.queue;
                    bound = p.bound;
                    open_queue = p.open_queue;
                  }) in
              (r, w', rw (lock, cond_there, block) ran, rw (lock, cond_there, block) out)
        ]
  ]
]
