-- ===== src/Demos/Counter/Ends.antt =====
-- The steps that the tasks of example_mutex, in examples/hello_threads.c, still have before them.
use thread_management_librar.Base.{
  ℕ, suc, ◌+◌, ◌-◌, ◌*◌, ◌<◌, ◌≡◌, refl, true, false, ltb, arith, Bool-cases, inl, inr,
}
use thread_management_librar.Base.Threads.{how_many, how_many-pos, find_one}
use thread_management_librar.Base.Totals.{total, total-trade}
use thread_management_librar.Demos.Counter.{
  Pc, at_test, locking, locked, loaded, stored, finished, holds_mutex, is_finished, State, Step,
  enter_loop, leave_loop, lock_mutex, load_counter, store_counter, unlock_mutex, Reach,
}
use thread_management_librar.Demos.Counter.Exact.{Exact, Reach-Exact}

module _ (n increments : ℕ) where
  -- The steps that a task has before it.
  abbrev pub steps_left : Pc → ℕ
  steps_left (at_test i) = 5 * (increments - i) + 1
  steps_left (locking i) = 5 * (increments - i)
  steps_left (locked i) = 5 * (increments - i) - 1
  steps_left (loaded i value) = 5 * (increments - i) - 2
  steps_left (stored i) = 5 * (increments - i) - 3
  steps_left finished = 0

  abbrev pub work_left : State → ℕ
  work_left s = total steps_left n s.pc

  pub Step-lowers :
      {s s' : State}
      → Exact n increments s
      → Step n increments s s'
      → suc (work_left s') ≡ work_left s
  Step-lowers {s} h (enter_loop t i lt e inside) =
      ground (arith, total-trade steps_left n t s.pc (at_test i) (locking i) lt e)
  Step-lowers {s} h (leave_loop t i lt e over) =
      ground (arith, total-trade steps_left n t s.pc (at_test i) finished lt e)
  Step-lowers {s} h (lock_mutex t i lt e free) =
      let within : i < increments = rw e at (h.in_loop t lt) in
      omega (arith, total-trade steps_left n t s.pc (locking i) (locked i) lt e)
  Step-lowers {s} h (load_counter t i lt e) =
      let within : i < increments = rw e at (h.in_loop t lt) in
      omega (arith, total-trade steps_left n t s.pc (locked i) (loaded i s.shared_counter) lt e)
  Step-lowers {s} h (store_counter t i value lt e) =
      let (within, _) : (i < increments) × (value ≡ s.shared_counter) = rw e at (h.in_loop t lt) in
      omega (arith, total-trade steps_left n t s.pc (loaded i value) (stored i) lt e)
  Step-lowers {s} h (unlock_mutex t i lt e) =
      let within : i < increments = rw e at (h.in_loop t lt) in
      omega (arith, total-trade steps_left n t s.pc (stored i) (at_test (i + 1)) lt e)

  -- A thread that has the mutex can go on.
  holder_steps :
      (s : State) (t : ℕ)
      → t < n
      → (p : Pc) → s.pc t ≡ p
      → holds_mutex p ≡ true
      → (s' : State) × Step n increments s s'
  holder_steps s t lt (at_test i) e held = absurd (ground arith)
  holder_steps s t lt (locking i) e held = absurd (ground arith)
  holder_steps s t lt (locked i) e held = (_, load_counter t i lt e)
  holder_steps s t lt (loaded i value) e held = (_, store_counter t i value lt e)
  holder_steps s t lt (stored i) e held = (_, unlock_mutex t i lt e)
  holder_steps s t lt finished e held = absurd (ground arith)

  some-Step :
      (s : State) (t : ℕ)
      → t < n
      → (p : Pc) → s.pc t ≡ p
      → is_finished p ≡ false
      → (s' : State) × Step n increments s s'
  some-Step s t lt (at_test i) e open_task = elim (Bool-cases (ltb i increments)) [
    | inl inside ↦ (_, enter_loop t i lt e inside)
    | inr over ↦ (_, leave_loop t i lt e over)
  ]
  some-Step s t lt (locking i) e open_task =
      elim (Bool-cases (ltb 0 (how_many holds_mutex n s.pc))) [
        | inl held ↦
            let (u, lu, here) = find_one holds_mutex n s.pc (ground arith) in
            holder_steps s u lu (s.pc u) refl here
        | inr free ↦ (
          _,
          lock_mutex t i lt e (λ u lu. elim (Bool-cases (holds_mutex (s.pc u))) [
            | inl here ↦ absurd (ground (arith, how_many-pos holds_mutex n u s.pc lu here))
            | inr out ↦ out
          ]),
        )
      ]
  some-Step s t lt (locked i) e open_task = (_, load_counter t i lt e)
  some-Step s t lt (loaded i value) e open_task = (_, store_counter t i value lt e)
  some-Step s t lt (stored i) e open_task = (_, unlock_mutex t i lt e)
  some-Step s t lt finished e open_task = absurd (ground arith)

-- The tasks of example_mutex end: as long as one of them has not ended, a step of some task is possible,
-- and the number of steps that they still have before them, which is 5 * increments + 1 for each task at
-- the start, is smaller by one after it.
pub example_mutex_ends :
    {n increments : ℕ} {s : State}
    → Reach n increments s
    → (t : ℕ) → t < n
    → is_finished (s.pc t) ≡ false
    → (s' : State) × Step n increments s s'
      × (suc (work_left n increments s') ≡ work_left n increments s)
example_mutex_ends {n} {increments} {s} r t lt open_task =
    let (s', step) = some-Step n increments s t lt (s.pc t) refl open_task in
    (s', step, Step-lowers n increments (Reach-Exact n increments r) step)
