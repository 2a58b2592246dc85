-- ===== src/Scheduler/Monitor/Tally.antt =====
-- How many of the threads at the task queue are ready or asleep, and how each kind of move changes
-- these numbers.
use thread_management_librar.Base.{ℕ, ◌+◌, ◌<◌, ◌≡◌, refl, true, false, ◌⊎◌, inl, inr, arith}
use thread_management_librar.Base.Threads.{assign, tick, how_many, how_many-assign, how_many-none}
use thread_management_librar.Scheduler.Monitor.{
  Pc, idle, ready_push, asleep_push, ready_pop, asleep_pop, is_ready_push, is_asleep_push,
  is_ready_pop, is_asleep_pop, rouse, Woken, one, nobody,
}

pub record Tally : Type 0 where
  pub ready_pushes : ℕ
  pub asleep_pushes : ℕ
  pub ready_pops : ℕ
  pub asleep_pops : ℕ

abbrev pub tally : ℕ → (ℕ → Pc) → Tally
tally n pc = record {
  ready_pushes = how_many is_ready_push n pc;
  asleep_pushes = how_many is_asleep_push n pc;
  ready_pops = how_many is_ready_pop n pc;
  asleep_pops = how_many is_asleep_pop n pc;
}

-- One thread goes from `p` to `p'`.
pub record Traded (p p' : Pc) (a b : Tally) : Type 0 where
  pub ready_pushes :
      b.ready_pushes + tick (is_ready_push p) ≡ a.ready_pushes + tick (is_ready_push p')
  pub asleep_pushes :
      b.asleep_pushes + tick (is_asleep_push p) ≡ a.asleep_pushes + tick (is_asleep_push p')
  pub ready_pops : b.ready_pops + tick (is_ready_pop p) ≡ a.ready_pops + tick (is_ready_pop p')
  pub asleep_pops : b.asleep_pops + tick (is_asleep_pop p) ≡ a.asleep_pops + tick (is_asleep_pop p')

pub assign-Traded :
    (n i : ℕ) (pc : ℕ → Pc) (p' : Pc)
    → i < n
    → Traded (pc i) p' (tally n pc) (tally n (assign pc i p'))
assign-Traded n i pc p' lt = record {
  ready_pushes = how_many-assign is_ready_push n i pc p' lt;
  asleep_pushes = how_many-assign is_asleep_push n i pc p' lt;
  ready_pops = how_many-assign is_ready_pop n i pc p' lt;
  asleep_pops = how_many-assign is_asleep_pop n i pc p' lt;
}

-- A signal on `not_empty`: nobody sleeps there, or one sleeper gets ready.
pub record PopRoused (a b : Tally) : Type 0 where
  pub ready_pushes : b.ready_pushes ≡ a.ready_pushes
  pub asleep_pushes : b.asleep_pushes ≡ a.asleep_pushes
  pub pops :
      ((a.asleep_pops ≡ 0) × (b.asleep_pops ≡ 0) × (b.ready_pops ≡ a.ready_pops))
      ⊎ ((b.asleep_pops + 1 ≡ a.asleep_pops) × (b.ready_pops ≡ a.ready_pops + 1))

-- A signal on `not_full`.
pub record PushRoused (a b : Tally) : Type 0 where
  pub ready_pops : b.ready_pops ≡ a.ready_pops
  pub asleep_pops : b.asleep_pops ≡ a.asleep_pops
  pub pushes :
      ((a.asleep_pushes ≡ 0) × (b.asleep_pushes ≡ 0) × (b.ready_pushes ≡ a.ready_pushes))
      ⊎ ((b.asleep_pushes + 1 ≡ a.asleep_pushes) × (b.ready_pushes ≡ a.ready_pushes + 1))

rouse-PopRoused :
    (p : Pc) (a b : Tally) → is_asleep_pop p ≡ true → Traded p (rouse p) a b → PopRoused a b
rouse-PopRoused idle a b e t = cc
rouse-PopRoused (ready_push u) a b e t = cc
rouse-PopRoused (asleep_push u) a b e t = cc
rouse-PopRoused ready_pop a b e t = cc
rouse-PopRoused asleep_pop a b e t = record {
  ready_pushes = omega (arith, t.ready_pushes);
  asleep_pushes = omega (arith, t.asleep_pushes);
  pops = inr (omega (arith, t.asleep_pops), omega (arith, t.ready_pops));
}

rouse-PushRoused :
    (p : Pc) (a b : Tally) → is_asleep_push p ≡ true → Traded p (rouse p) a b → PushRoused a b
rouse-PushRoused idle a b e t = cc
rouse-PushRoused (ready_push u) a b e t = cc
rouse-PushRoused asleep_pop a b e t = cc
rouse-PushRoused ready_pop a b e t = cc
rouse-PushRoused (asleep_push u) a b e t = record {
  ready_pops = omega (arith, t.ready_pops);
  asleep_pops = omega (arith, t.asleep_pops);
  pushes = inr (omega (arith, t.asleep_pushes), omega (arith, t.ready_pushes));
}

pub Woken-PopRoused :
    {n : ℕ} {pc pc' : ℕ → Pc} → Woken n is_asleep_pop pc pc' → PopRoused (tally n pc) (tally n pc')
Woken-PopRoused {n} {pc} (one j lt e) = rouse-PopRoused (pc j) _ _ e (assign-Traded n j pc _ lt)
Woken-PopRoused {n} {pc} (nobody none) =
    let zero = how_many-none is_asleep_pop n pc none in
    record { ready_pushes = refl; asleep_pushes = refl; pops = inl (zero, zero, refl) }

pub Woken-PushRoused :
    {n : ℕ} {pc pc' : ℕ → Pc}
    → Woken n is_asleep_push pc pc'
    → PushRoused (tally n pc) (tally n pc')
Woken-PushRoused {n} {pc} (one j lt e) = rouse-PushRoused (pc j) _ _ e (assign-Traded n j pc _ lt)
Woken-PushRoused {n} {pc} (nobody none) =
    let zero = how_many-none is_asleep_push n pc none in
    record { ready_pops = refl; asleep_pops = refl; pushes = inl (zero, zero, refl) }

-- After a broadcast nobody sleeps.
pub rouse-asleep_pops : (n : ℕ) (pc : ℕ → Pc) → (tally n (λ j. rouse (pc j))).asleep_pops ≡ 0
rouse-asleep_pops n pc = how_many-none is_asleep_pop n _ (λ i lt. awake (pc i))
  where
    awake : (p : Pc) → is_asleep_pop (rouse p) ≡ false
    awake p = ground arith

pub rouse-asleep_pushes : (n : ℕ) (pc : ℕ → Pc) → (tally n (λ j. rouse (pc j))).asleep_pushes ≡ 0
rouse-asleep_pushes n pc = how_many-none is_asleep_push n _ (λ i lt. awake (pc i))
  where
    awake : (p : Pc) → is_asleep_push (rouse p) ≡ false
    awake p = ground arith
