-- ===== src/Demos/Visual/Shown.antt =====
-- What the display of demo 1 of examples/visual_demo.c shows, and when its loop ends.
use thread_management_librar.Base.{
  ℕ, ◌+◌, ◌^◌, ◌≤◌, ◌<◌, ◌≡◌, refl, sym, true, false, ltb, ◌⊎◌, inl, inr, arith,
}
use thread_management_librar.Base.Threads.{how_many, how_many-none, how_many_disjoint}
use thread_management_librar.Demos.Visual.{
  Pc, not_submitted, queued, Display, SubmitStep, announce, submit, TaskStep, take_worker,
  mark_busy, lower_queue, mark_idle, complete, Reach, begin, then_submit, then_task,
}
use thread_management_librar.Demos.Visual.Counts.{
  is_open, is_finished, works_as, Counted, same_shown, announce-Counted, take_worker-Counted,
  mark_busy-Counted, lower_queue-Counted, mark_idle-Counted, complete-Counted,
}

module _ {workers n : ℕ} (some_worker : 0 < workers) (few : n < 2 ^ 31) where
  Submit-Counted : {s s' : Display} → Counted workers n s → SubmitStep n s s' → Counted workers n s'
  Submit-Counted h (announce t lt at e) = announce-Counted workers n few h t lt e
  Submit-Counted {s} h (submit t lt at e) =
      same_shown workers n few h t lt queued s.g_state.worker_id_counter (t + 1) e refl refl
        some_worker (λ w no. absurd (ground arith))

  Task-Counted : {s s' : Display} → Counted workers n s → TaskStep n s s' → Counted workers n s'
  Task-Counted h (take_worker t lt e) = take_worker-Counted workers n few h t lt e
  Task-Counted h (mark_busy t w lt e) = mark_busy-Counted workers n few h t lt w e
  Task-Counted h (lower_queue t w lt e) = lower_queue-Counted workers n few h t lt w e
  Task-Counted h (mark_idle t w lt e) = mark_idle-Counted workers n few h t lt w e
  Task-Counted h (complete t lt e) = complete-Counted workers n few h t lt e

  Reach-Counted : {s : Display} → Reach workers n s → Counted workers n s
  Reach-Counted begin = record {
    open_tasks = sym (how_many-none is_open n (λ _. not_submitted) (λ i lt. refl));
    completed = sym (how_many-none is_finished n (λ _. not_submitted) (λ i lt. refl));
    same_workers = refl;
    in_range = λ t lt. some_worker;
    busy = λ w. inl refl;
  }
  Reach-Counted (then_submit r step) = Submit-Counted (Reach-Counted r) step
  Reach-Counted (then_task r step) = Task-Counted (Reach-Counted r) step

excludes : (p : Pc) → is_finished p ≡ true → is_open p ≡ false
excludes p e = ground arith

works_excludes : (w : ℕ) (p : Pc) → is_finished p ≡ true → works_as w p ≡ false
works_excludes w p e = ground arith

-- What demo 1 shows is right: in every state that the main thread and the tasks can come to, `queue_size`
-- is the number of tasks between its raising and its lowering, so that it never wraps around below 0, and
-- `tasks_completed` the number of tasks that have ended, at most all together; and a worker that is shown
-- as working has a task that works under its number; for fewer than 2 ^ 31 tasks and at least one worker.
pub display_right :
    {workers n : ℕ} {s : Display}
    → 0 < workers
    → n < 2 ^ 31
    → Reach workers n s
    → (w : ℕ)
    → (s.g_state.queue_size ≡ how_many is_open n s.pc)
      × (s.g_state.tasks_completed ≡ how_many is_finished n s.pc)
      × (s.g_state.queue_size + s.g_state.tasks_completed ≤ n)
      × ((s.g_state.worker_states w ≡ 0) ⊎ (0 < how_many (works_as w) n s.pc))
display_right {n} {s} some_worker few r w =
    let h = Reach-Counted some_worker few r in
    (
      h.open_tasks,
      h.completed,
      omega
          (arith, h.open_tasks, h.completed, how_many_disjoint is_finished is_open excludes n s.pc),
      h.busy w,
    )

-- When the loop of demo 1 that watches the tasks ends, no task is shown as waiting and no worker as
-- working; for fewer than 2 ^ 31 tasks and at least one worker.
pub watching_ends_right :
    {workers n : ℕ} {s : Display}
    → 0 < workers
    → n < 2 ^ 31
    → Reach workers n s
    → ltb s.g_state.tasks_completed n ≡ false
    → (s.g_state.queue_size ≡ 0) × ((w : ℕ) → s.g_state.worker_states w ≡ 0)
watching_ends_right {workers} {n} {s} some_worker few r over =
    let h = Reach-Counted some_worker few r in
    let all : n ≤ how_many is_finished n s.pc = ground (arith, h.completed) in
    (
      omega (arith, all, h.open_tasks, how_many_disjoint is_finished is_open excludes n s.pc),
      λ w. elim (h.busy w) [
        | inl idle ↦ idle
        | inr some_task ↦ absurd (
            omega (
              arith,
              all,
              some_task,
              how_many_disjoint is_finished (works_as w) (works_excludes w) n s.pc,
            ))
      ],
    )
