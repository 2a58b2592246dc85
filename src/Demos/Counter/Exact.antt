-- ===== src/Demos/Counter/Exact.antt =====
-- What the counter of examples/hello_threads.c comes to.
use thread_management_librar.Base.{
  ℕ, ◌+◌, ◌*◌, ◌%◌, ◌^◌, ◌≤◌, ◌<◌, ◌≡◌, refl, true, false, ◌==◌, uint_mod, arith, Bool-cases, inl,
  inr,
}
use thread_management_librar.Base.Threads.{assign}
use thread_management_librar.Base.Alone.{Alone, Alone-assign}
use thread_management_librar.Base.Totals.{total, total-trade, total-const}
use thread_management_librar.Demos.Counter.{
  Pc, at_test, locking, locked, loaded, stored, finished, holds_mutex, State, Step, enter_loop,
  leave_loop, lock_mutex, load_counter, store_counter, unlock_mutex, Reach, begin, then_step,
}

module _ (n increments : ℕ) where
  -- The increments that a task has stored.
  abbrev pub rounds_done : Pc → ℕ
  rounds_done (at_test i) = i
  rounds_done (locking i) = i
  rounds_done (locked i) = i
  rounds_done (loaded i value) = i
  rounds_done (stored i) = i + 1
  rounds_done finished = increments

  -- The round is one of the loop's, and what was loaded is still the counter.
  abbrev pub InLoop : (counter : ℕ) → Pc → Type 0
  InLoop counter (at_test i) = i ≤ increments
  InLoop counter (locking i) = i < increments
  InLoop counter (locked i) = i < increments
  InLoop counter (loaded i value) = (i < increments) × (value ≡ counter)
  InLoop counter (stored i) = i < increments
  InLoop counter finished = increments ≤ increments

  pub record Exact (s : State) : Type 0 where
    pub counted : s.shared_counter ≡ total rounds_done n s.pc % uint_mod
    pub in_loop : (t : ℕ) → t < n → InLoop s.shared_counter (s.pc t)
    pub alone : Alone holds_mutex n s.pc

  module _ {s : State} (h : Exact s) (t : ℕ) (lt : t < n) {p : Pc} (here : s.pc t ≡ p)
      (p' : Pc) where
    -- A move that stores nothing.
    moved :
        (rounds_done p' ≡ rounds_done p)
        → InLoop s.shared_counter p'
        → (holds_mutex p' ≡ true → (u : ℕ) → u < n → holds_mutex (s.pc u) ≡ true → t ≡ u)
        → Exact (record s { pc = assign s.pc t p' })
    moved same inside free = record {
      counted = omega (arith, h.counted, total-trade rounds_done n t s.pc p p' lt here, same);
      in_loop = λ u lu. elim (Bool-cases (u == t)) [
        | inl e ↦ rw e inside
        | inr e ↦ rw e (h.in_loop u lu)
      ];
      alone = Alone-assign holds_mutex n s.pc t p' h.alone free;
    }

  -- What a thread without the mutex has to do with the counter.
  InLoop-any : (c c' : ℕ) (q : Pc) → holds_mutex q ≡ false → InLoop c q → InLoop c' q
  InLoop-any c c' (at_test i) out h = h
  InLoop-any c c' (locking i) out h = h
  InLoop-any c c' (locked i) out h = h
  InLoop-any c c' (loaded i value) out h = absurd (ground arith)
  InLoop-any c c' (stored i) out h = h
  InLoop-any c c' finished out h = h

  Step-Exact : {s s' : State} → Exact s → Step n increments s s' → Exact s'
  Step-Exact {s} h (enter_loop t i lt e inside) =
      moved h t lt e (locking i) refl (ground arith) (λ no. absurd (ground arith))
  Step-Exact {s} h (leave_loop t i lt e over) =
      let within : i ≤ increments = rw e at (h.in_loop t lt) in
      moved h t lt e finished (ground arith) (omega arith) (λ no. absurd (ground arith))
  Step-Exact {s} h (lock_mutex t i lt e free) =
      let within : i < increments = rw e at (h.in_loop t lt) in
      moved h t lt e (locked i) refl within (λ _ u lu held. absurd (ground (arith, free u lu)))
  Step-Exact {s} h (load_counter t i lt e) =
      let within : i < increments = rw e at (h.in_loop t lt) in
      moved h t lt e (loaded i s.shared_counter) refl (within, refl)
        (λ _ u lu held. h.alone t u lt lu (rw e refl) held)
  Step-Exact {s} h (unlock_mutex t i lt e) =
      let within : i < increments = rw e at (h.in_loop t lt) in
      moved h t lt e (at_test (i + 1)) refl (omega arith) (λ no. absurd (ground arith))
  Step-Exact {s} h (store_counter t i value lt e) =
      let (within, current) : (i < increments) × (value ≡ s.shared_counter) =
        rw e at (h.in_loop t lt) in
      let held : holds_mutex (s.pc t) ≡ true = rw e refl in
      record {
        counted =
            omega
              (arith, h.counted, total-trade rounds_done n t s.pc (loaded i value) (stored i) lt e);
        in_loop = λ u lu. elim (Bool-cases (u == t)) [
          | inl same ↦ rw same within
          | inr other ↦ rw other (
              InLoop-any s.shared_counter _ (s.pc u)
                (elim (Bool-cases (holds_mutex (s.pc u))) [
                  | inl too ↦ let same = h.alone t u lt lu held too in absurd (ground (arith, same))
                  | inr out ↦ out
                ])
                (h.in_loop u lu))
        ];
        alone =
            Alone-assign holds_mutex n s.pc t (stored i) h.alone
              (λ _ u lu too. h.alone t u lt lu held too);
      }

  pub Reach-Exact : {s : State} → Reach n increments s → Exact s
  Reach-Exact begin = record {
    counted = omega (arith, total-const rounds_done n 0 (λ _. at_test 0) (λ i lt. refl));
    in_loop = λ t lt. omega arith;
    alone = λ t u lt lu held _. absurd (ground arith);
  }
  Reach-Exact (then_step r step) = Step-Exact (Reach-Exact r) step

-- The tasks of example_mutex exclude each other: in every state that `n` of them can come to, at most
-- one stands between the lock and the unlock, and no other than that one has loaded the counter; what it
-- has loaded is still the counter's value.
pub increments_exclusive :
    {n increments : ℕ} {s : State}
    → Reach n increments s
    → (t u i value : ℕ) → t < n
    → u < n
    → s.pc t ≡ loaded i value
    → holds_mutex (s.pc u) ≡ true
    → (u ≡ t) × (value ≡ s.shared_counter)
increments_exclusive {n} {increments} {s} r t u i value lt lu e held =
    let h = Reach-Exact n increments r in
    let (_, current) : (i < increments) × (value ≡ s.shared_counter) = rw e at (h.in_loop t lt) in
    (h.alone u t lu lt held (rw e refl), current)

-- The counter of example_mutex is exact: when all of `n` tasks of `increments` rounds have ended,
-- however their steps were interleaved, `shared_counter` is n * increments; for a product below 2 ^ 31.
pub shared_counter_exact :
    {n increments : ℕ} {s : State}
    → Reach n increments s
    → n * increments < 2 ^ 31
    → ((t : ℕ) → t < n → s.pc t ≡ finished)
    → s.shared_counter ≡ n * increments
shared_counter_exact {n} {increments} {s} r small over = omega (
  arith,
  (Reach-Exact n increments r).counted,
  total-const (rounds_done n increments) n increments s.pc (λ i lt. rw (over i lt) refl),
)
