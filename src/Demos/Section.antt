-- ===== src/Demos/Section.antt =====
-- Demo 2 of examples/visual_demo.c: threads that enter a critical section under a mutex and show who is
-- in it.
pub mod Shown
use thread_management_librar.Base.{
  ℕ, ◌+◌, ◌%◌, ◌<◌, ◌≡◌, Bool, true, false, ltb, uint_mod, Option, none, some,
}
use thread_management_librar.Base.Threads.{assign}

-- Where a thread stands in `mutex_visual_thread`, in round `i` of its loop.
pub data Pc : Type 0 where
  at_test : (i : ℕ) → Pc
  locking : (i : ℕ) → Pc  -- in `sthread_mutex_lock`
  locked : (i : ℕ) → Pc  -- before it shows its number
  shown : (i : ℕ) → Pc  -- before it raises the counter
  raised : (i : ℕ) → Pc  -- in `sleep_ms`, before it withdraws its number
  hidden : (i : ℕ) → Pc  -- before `sthread_mutex_unlock`
  finished : Pc

abbrev pub holds_mutex : Pc → Bool
holds_mutex (at_test i) = false
holds_mutex (locking i) = false
holds_mutex (locked i) = true
holds_mutex (shown i) = true
holds_mutex (raised i) = true
holds_mutex (hidden i) = true
holds_mutex finished = false

-- Its number is shown.
abbrev pub is_shown : Pc → Bool
is_shown (shown i) = true
is_shown (raised i) = true
is_shown _ = false

pub record Section : Type 0 where
  pub critical_section_holder : Option ℕ  -- `none` for -1
  pub mutex_counter : ℕ
  pub pc : ℕ → Pc

-- `ids[t]`
abbrev pub id_of : ℕ → ℕ
id_of t = t + 1

-- One step of thread `t`, of `n` threads with `rounds` rounds each.
pub data Step (n rounds : ℕ) (s : Section) : Section → Type 0 where
  enter_loop :
      (t i : ℕ)
      → t < n
      → s.pc t ≡ at_test i
      → ltb i rounds ≡ true
      → Step n rounds s (record s { pc = assign s.pc t (locking i) })
  leave_loop :
      (t i : ℕ)
      → t < n
      → s.pc t ≡ at_test i
      → ltb i rounds ≡ false
      → Step n rounds s (record s { pc = assign s.pc t finished })
  lock_mutex :
      (t i : ℕ)
      → t < n
      → s.pc t ≡ locking i
      → ((u : ℕ) → u < n → holds_mutex (s.pc u) ≡ false)
      → Step n rounds s (record s { pc = assign s.pc t (locked i) })
  show_holder :
      (t i : ℕ)
      → t < n
      → s.pc t ≡ locked i
      → Step n rounds s
          (record s { critical_section_holder = some (id_of t); pc = assign s.pc t (shown i) })
  raise_counter :
      (t i : ℕ)
      → t < n
      → s.pc t ≡ shown i
      → Step n rounds s (record s {
        mutex_counter = (s.mutex_counter + 1) % uint_mod;
        pc = assign s.pc t (raised i);
      })
  hide_holder :
      (t i : ℕ)
      → t < n
      → s.pc t ≡ raised i
      → Step n rounds s (record s { critical_section_holder = none; pc = assign s.pc t (hidden i) })
  unlock_mutex :
      (t i : ℕ)
      → t < n
      → s.pc t ≡ hidden i
      → Step n rounds s (record s { pc = assign s.pc t (at_test (i + 1)) })

abbrev pub start : Section
start = record { critical_section_holder = none; mutex_counter = 0; pc = λ _. at_test 0 }

pub data Reach (n rounds : ℕ) : Section → Type 0 where
  begin : Reach n rounds start
  then_step : {s s' : Section} → Reach n rounds s → Step n rounds s s' → Reach n rounds s'
