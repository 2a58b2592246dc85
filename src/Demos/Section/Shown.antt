-- ===== src/Demos/Section/Shown.antt =====
-- Who is in the critical section of demo 2 of examples/visual_demo.c.
use thread_management_librar.Base.{
  ℕ, ◌+◌, ◌*◌, ◌%◌, ◌^◌, ◌≤◌, ◌<◌, ◌≡◌, refl, sym, ◌∙◌, Bool, true, false, ◌==◌, uint_mod, arith,
  Bool-cases, inl, inr, ap, Option, none, some,
}
use thread_management_librar.Base.Threads.{assign}
use thread_management_librar.Base.Alone.{Alone, Alone-assign}
use thread_management_librar.Base.Totals.{total, total-trade, total-const}
use thread_management_librar.Demos.Section.{
  Pc, at_test, locking, locked, shown, raised, hidden, finished, holds_mutex, is_shown, Section,
  id_of, Step, enter_loop, leave_loop, lock_mutex, show_holder, raise_counter, hide_holder,
  unlock_mutex, Reach, begin, then_step,
}

module _ (n rounds : ℕ) where
  abbrev pub rounds_done : Pc → ℕ
  rounds_done (at_test i) = i
  rounds_done (locking i) = i
  rounds_done (locked i) = i
  rounds_done (shown i) = i
  rounds_done (raised i) = i + 1
  rounds_done (hidden i) = i + 1
  rounds_done finished = rounds

  -- The round is one of the loop's.
  abbrev pub InLoop : Pc → Type 0
  InLoop (at_test i) = i ≤ rounds
  InLoop (locking i) = i < rounds
  InLoop (locked i) = i < rounds
  InLoop (shown i) = i < rounds
  InLoop (raised i) = i < rounds
  InLoop (hidden i) = i < rounds
  InLoop finished = rounds ≤ rounds

  -- The holder is the thread whose number is shown, or there is none.
  pub data Holder (f : ℕ → Pc) : Option ℕ → Type 0 where
    nobody : ((t : ℕ) → t < n → is_shown (f t) ≡ false) → Holder f none
    somebody : (t : ℕ) → t < n → is_shown (f t) ≡ true → Holder f (some (id_of t))

  pub record Right (s : Section) : Type 0 where
    pub counted : s.mutex_counter ≡ total rounds_done n s.pc % uint_mod
    pub in_loop : (t : ℕ) → t < n → InLoop (s.pc t)
    pub alone : Alone holds_mutex n s.pc
    pub holder : Holder s.pc s.critical_section_holder

  shown-holds : (p : Pc) → is_shown p ≡ true → holds_mutex p ≡ true
  shown-holds p e = ground arith

  module _ {s : Section} (h : Right s) (t : ℕ) (lt : t < n) where
    InLoop-moved : (p' : Pc) → InLoop p' → (u : ℕ) → u < n → InLoop (assign s.pc t p' u)
    InLoop-moved p' inside u lu = elim (Bool-cases (u == t)) [
      | inl e ↦ rw e inside
      | inr e ↦ rw e (h.in_loop u lu)
    ]

    -- A move of a thread whose number is shown as before.
    Holder-moved :
        {o : Option ℕ} (p' : Pc)
        → is_shown p' ≡ is_shown (s.pc t)
        → Holder s.pc o
        → Holder (assign s.pc t p') o
    Holder-moved p' same (nobody free) = nobody λ u lu. elim (Bool-cases (u == t)) [
      | inl e ↦ rw e (same ∙ free t lt)
      | inr e ↦ rw e (free u lu)
    ]
    Holder-moved p' same (somebody u lu there) = somebody u lu (elim (Bool-cases (u == t)) [
      | inl e ↦ let eu : u ≡ t = ground arith in rw e (same ∙ rw eu at there)
      | inr e ↦ rw e there
    ])

    -- While `t` has the mutex, no other thread's number is shown.
    others_hidden :
        (p' : Pc)
        → holds_mutex (s.pc t) ≡ true
        → is_shown p' ≡ false
        → (u : ℕ) → u < n
        → is_shown (assign s.pc t p' u) ≡ false
    others_hidden p' held out u lu = elim (Bool-cases (u == t)) [
      | inl e ↦ rw e out
      | inr e ↦ rw e (elim (Bool-cases (is_shown (s.pc u))) [
        | inl there ↦
            let same = h.alone t u lt lu held (shown-holds (s.pc u) there) in
            absurd (ground (arith, same))
        | inr away ↦ away
      ])
    ]

    -- A move that changes neither the counter nor the holder.
    Right-moved :
        {p : Pc} (p' : Pc)
        → s.pc t ≡ p
        → rounds_done p' ≡ rounds_done p
        → is_shown p' ≡ is_shown p
        → InLoop p'
        → (holds_mutex p' ≡ true → (u : ℕ) → u < n → holds_mutex (s.pc u) ≡ true → t ≡ u)
        → Right (record s { pc = assign s.pc t p' })
    Right-moved {p} p' e same shows inside free = record {
      counted = omega (arith, h.counted, total-trade rounds_done n t s.pc p p' lt e, same);
      in_loop = InLoop-moved p' inside;
      alone = Alone-assign holds_mutex n s.pc t p' h.alone free;
      holder = Holder-moved p' (shows ∙ ap is_shown (sym e)) h.holder;
    }

    -- The mutex stays with `t`.
    keeps :
        holds_mutex (s.pc t) ≡ true
        → (b : Bool) → b ≡ true
        → (u : ℕ) → u < n
        → holds_mutex (s.pc u) ≡ true
        → t ≡ u
    keeps held b _ u lu too = h.alone t u lt lu held too

  Step-Right : {s s' : Section} → Right s → Step n rounds s s' → Right s'
  Step-Right {s} h (enter_loop t i lt e inside) =
      Right-moved h t lt (locking i) e refl refl (ground arith) (λ no. absurd (ground arith))
  Step-Right {s} h (leave_loop t i lt e over) =
      let within : i ≤ rounds = rw e at (h.in_loop t lt) in
      Right-moved h t lt finished e (ground arith) refl (omega arith) (λ no. absurd (ground arith))
  Step-Right {s} h (lock_mutex t i lt e free) =
      Right-moved h t lt (locked i) e refl refl (rw e at (h.in_loop t lt))
        (λ _ u lu held. absurd (ground (arith, free u lu)))
  Step-Right {s} h (unlock_mutex t i lt e) =
      let within : i < rounds = rw e at (h.in_loop t lt) in
      Right-moved h t lt (at_test (i + 1)) e refl refl (omega arith) (λ no. absurd (ground arith))
  Step-Right {s} h (show_holder t i lt e) =
      let within : i < rounds = rw e at (h.in_loop t lt) in
      record {
        counted =
            omega (arith, h.counted, total-trade rounds_done n t s.pc (locked i) (shown i) lt e);
        in_loop = InLoop-moved h t lt (shown i) within;
        alone = Alone-assign holds_mutex n s.pc t (shown i) h.alone (keeps h t lt (rw e refl) true);
        holder = somebody t lt (ground arith);
      }
  Step-Right {s} h (raise_counter t i lt e) =
      let within : i < rounds = rw e at (h.in_loop t lt) in
      record {
        counted =
            omega (arith, h.counted, total-trade rounds_done n t s.pc (shown i) (raised i) lt e);
        in_loop = InLoop-moved h t lt (raised i) within;
        alone =
            Alone-assign holds_mutex n s.pc t (raised i) h.alone (keeps h t lt (rw e refl) true);
        holder = Holder-moved h t lt (raised i) (rw e refl) h.holder;
      }
  Step-Right {s} h (hide_holder t i lt e) =
      let within : i < rounds = rw e at (h.in_loop t lt) in
      record {
        counted =
            omega (arith, h.counted, total-trade rounds_done n t s.pc (raised i) (hidden i) lt e);
        in_loop = InLoop-moved h t lt (hidden i) within;
        alone =
            Alone-assign holds_mutex n s.pc t (hidden i) h.alone (keeps h t lt (rw e refl) true);
        holder = nobody (others_hidden h t lt (hidden i) (rw e refl) refl);
      }

  pub Reach-Right : {s : Section} → Reach n rounds s → Right s
  Reach-Right begin = record {
    counted = omega (arith, total-const rounds_done n 0 (λ _. at_test 0) (λ i lt. refl));
    in_loop = λ t lt. omega arith;
    alone = λ t u lt lu no _. absurd (ground arith);
    holder = nobody (λ t lt. refl);
  }
  Reach-Right (then_step r step) = Step-Right (Reach-Right r) step

-- The display of demo 2 is right: in every state that the threads can come to, while a thread stands
-- between its two writes to critical_section_holder, it shows that thread's number, and no other thread
-- has the mutex.
pub holder_right :
    {n rounds : ℕ} {s : Section}
    → Reach n rounds s
    → (t u : ℕ) → t < n
    → u < n
    → is_shown (s.pc t) ≡ true
    → holds_mutex (s.pc u) ≡ true
    → (s.critical_section_holder ≡ some (id_of t)) × (u ≡ t)
holder_right {n} {rounds} {s} r t u lt lu here held =
    let h = Reach-Right n rounds r in
    (shown_as h h.holder, h.alone u t lu lt held (shown-holds n rounds (s.pc t) here))
  where
    shown_as : {o : Option ℕ} → Right n rounds s → Holder n rounds s.pc o → o ≡ some (id_of t)
    shown_as h (nobody free) = absurd (ground (arith, free t lt))
    shown_as h (somebody v lv there) =
        ap (λ (x : ℕ). some (id_of x))
          (h.alone v t lv lt (shown-holds n rounds (s.pc v) there)
            (shown-holds n rounds (s.pc t) here))

-- When all threads of demo 2 have ended, nobody is shown as the holder and mutex_counter is the number of
-- rounds of all of them together; for fewer than 2 ^ 31 rounds.
pub mutex_counter_right :
    {n rounds : ℕ} {s : Section}
    → Reach n rounds s
    → n * rounds < 2 ^ 31
    → ((t : ℕ) → t < n → s.pc t ≡ finished)
    → (s.mutex_counter ≡ n * rounds) × (s.critical_section_holder ≡ none)
mutex_counter_right {n} {rounds} {s} r small over =
    let h = Reach-Right n rounds r in
    (
      omega (
        arith,
        h.counted,
        total-const (rounds_done n rounds) n rounds s.pc (λ i lt. rw (over i lt) refl),
      ),
      nobody_left h.holder,
    )
  where
    nobody_left : {o : Option ℕ} → Holder n rounds s.pc o → o ≡ none
    nobody_left (nobody free) = refl
    nobody_left (somebody t lt there) = absurd (ground (arith, over t lt))
