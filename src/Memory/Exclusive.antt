-- ===== src/Memory/Exclusive.antt =====
-- Which thread has which object of a shared pool of src/memory.c.
use thread_management_librar.Base.{
  ℕ, ◌+◌, ◌≤◌, ◌<◌, ◌≡◌, ◌≢◌, refl, sym, ◌∙◌, ap, ◌==◌, some, List, [], ◌∷◌, Ptr, null, length,
  arith, Bool-cases, inl, inr,
}
use mathlib.Core.Path.{subst}
use thread_management_librar.Base.Options.{some-injective}
use thread_management_librar.Base.Threads.{assign}
use thread_management_librar.Base.Totals.{total, total-assign, total-const, total-one, total-two}
use thread_management_librar.Memory.Pool.{
  Pools, memory_pool_alloc, memory_pool_free, memory_pool_allocated, memory_pool_available,
}
use thread_management_librar.Memory.PoolState.{
  count, remove, IsObject, Holds, memory_pool_alloc-cons, memory_pool_alloc-nil,
  memory_pool_free-live, count-remove, length-remove, counters_right,
}
use thread_management_librar.Memory.Clients.{
  Sharing, Step, alloc_object, alloc_nothing, free_object, Reach, begin, then_step,
}

-- A call that returns NULL leaves the pool as it was.
nothing-same :
    {pool : Ptr} (s x : Pools) (free live : List Ptr)
    → pool ≢ null
    → Holds s free live
    → memory_pool_alloc pool s ≡ some (null, x)
    → s ≡ x
nothing-same {pool} s x [] live ne h e =
    let pair : ◌≡◌ {A = Ptr × Pools} (null, s) (null, x) =
      some-injective (null, s) (null, x) (sym (memory_pool_alloc-nil pool s live h) ∙ e) in
    ap (λ (y : Ptr × Pools). y.1) pair
nothing-same {pool} s x (b ∷ free) live ne h e =
    let (y, run, _, _) = memory_pool_alloc-cons pool s b free live ne h in
    let pair : ◌≡◌ {A = Ptr × Pools} (b, y) (null, x) =
      some-injective (b, y) (null, x) (sym run ∙ e) in
    absurd (h.chain.0 (ap (λ (z : Ptr × Pools). z.0) pair))

module _ (n : ℕ) (pool : Ptr) where
  -- The objects in use are those that the threads have.
  pub record Shared (s : Sharing) : Type 0 where
    pub free : List Ptr
    pub live : List Ptr
    pub holds : Holds s.pools free live
    pub owned : (a : Ptr) → count a live ≡ total (count a) n s.held
    pub number : length live ≡ total length n s.held

  -- A call that hands out `a`.
  alloc-Shared :
      (s : Sharing) {a : Ptr} {x : Pools} (t : ℕ) (free live : List Ptr)
      → pool ≢ null
      → Holds s.pools free live
      → ((b : Ptr) → count b live ≡ total (count b) n s.held)
      → length live ≡ total length n s.held
      → t < n
      → memory_pool_alloc pool s.pools ≡ some (a, x)
      → a ≢ null
      → Shared (record { pools = x; held = assign s.held t (a ∷ s.held t) })
  alloc-Shared s {a} {x} t [] live ne h owned number lt e nn =
      let pair : ◌≡◌ {A = Ptr × Pools} (null, s.pools) (a, x) =
        some-injective (null, s.pools) (a, x)
          (sym (memory_pool_alloc-nil pool s.pools live h) ∙ e) in
      absurd (nn (sym (ap (λ (y : Ptr × Pools). y.0) pair)))
  alloc-Shared s {a} {x} t (b ∷ free) live ne h owned number lt e nn =
      let (y, run, h', _) = memory_pool_alloc-cons pool s.pools b free live ne h in
      let pair : ◌≡◌ {A = Ptr × Pools} (b, y) (a, x) = some-injective (b, y) (a, x) (sym run ∙ e) in
      subst
        (λ (z : Ptr × Pools).
          Shared (record { pools = z.1; held = assign s.held t (z.0 ∷ s.held t) }))
        pair
        (record {
          free = free;
          live = b ∷ live;
          holds = h';
          owned = λ c. omega (arith, owned c, total-assign (count c) n t s.held (b ∷ s.held t) lt);
          number = omega (arith, number, total-assign length n t s.held (b ∷ s.held t) lt);
        })

  live_of :
      {s : Sharing} (h : Shared s) (t : ℕ) (a : Ptr)
      → t < n
      → 0 < count a (s.held t)
      → 0 < count a h.live
  live_of {s} h t a lt got = omega (arith, h.owned a, total-assign (count a) n t s.held [] lt)

  Step-Shared : {s s' : Sharing} → pool ≢ null → Shared s → Step n pool s s' → Shared s'
  Step-Shared {s} ne h (alloc_object t lt e nn) =
      alloc-Shared s t h.free h.live ne h.holds h.owned h.number lt e nn
  Step-Shared {s} ne h (alloc_nothing t {x} lt e) =
      let same = nothing-same s.pools x h.free h.live ne h.holds e in
      subst (λ (z : Pools). Shared (record s { pools = z })) same h
  Step-Shared {s} ne h (free_object t a {x} lt got e) =
      let (y, run, h') =
        memory_pool_free-live pool s.pools a h.free h.live ne h.holds (live_of h t a lt got) in
      let same = some-injective y x (sym run ∙ e) in
      subst
        (λ (z : Pools). Shared (record { pools = z; held = assign s.held t (remove a (s.held t)) }))
        same
        (record {
          free = a ∷ h.free;
          live = remove a h.live;
          holds = h';
          owned = λ c. omega (
            arith,
            h.owned c,
            total-assign (count c) n t s.held (remove a (s.held t)) lt,
            count-remove a h.live (live_of h t a lt got) c,
            count-remove a (s.held t) got c,
          );
          number = omega (
            arith,
            h.number,
            total-assign length n t s.held (remove a (s.held t)) lt,
            length-remove a h.live (live_of h t a lt got),
            length-remove a (s.held t) got,
          );
        })

  Reach-Shared :
      {first : Pools} {free : List Ptr} {s : Sharing}
      → pool ≢ null
      → Holds first free []
      → Reach n pool first s
      → Shared s
  Reach-Shared {free} ne h begin = record {
    free = free;
    live = [];
    holds = h;
    owned = λ a. sym (total-zero (count a) refl);
    number = sym (total-zero length refl);
  }
    where
      total-zero : (w : List Ptr → ℕ) → w [] ≡ 0 → total w n (λ _. []) ≡ 0
      total-zero w e = omega (arith, total-const w n 0 (λ _. []) (λ i lt. e))
  Reach-Shared ne h (then_step r step) = Step-Shared ne (Reach-Shared ne h r) step

-- No object is given out twice: let `n` threads share a pool whose objects are all free at first, as after
-- memory_pool_create, and let each give back only what it got. In every state that their calls can come to,
-- in any order, an object that a thread has is one of the pool's objects, the thread has it once, and no
-- other thread has it.
pub objects_exclusive :
    {n : ℕ} {pool : Ptr} {first : Pools} {free : List Ptr} {s : Sharing}
    → pool ≢ null
    → Holds first free []
    → Reach n pool first s
    → (t u : ℕ) (a : Ptr) → t < n
    → u < n
    → 0 < count a (s.held t)
    → 0 < count a (s.held u)
    → (t ≡ u) × (count a (s.held t) ≡ 1) × IsObject s.pools.pool a
objects_exclusive {n} {pool} {s} ne start r t u a lt lu got too =
    let h = Reach-Shared n pool ne start r in
    let most : total (count a) n s.held ≤ 1 = omega (arith, h.holds.once a, h.owned a) in
    (
      elim (Bool-cases (t == u)) [
        | inl same ↦ ground arith
        | inr apart ↦
            absurd (omega (arith, most, total-two (count a) n t u s.held [] refl lt lu apart))
      ],
      omega (arith, most, total-one (count a) n t s.held lt),
      h.holds.objects a (omega (arith, live_of n pool h t a lt got)),
    )

-- The calls of such threads never fault: in every state that they can come to, memory_pool_alloc returns,
-- memory_pool_free of an object that a thread has returns, and memory_pool_allocated is the number of
-- objects that all threads together have, which memory_pool_available completes to the number of objects.
pub shared_calls_right :
    {n : ℕ} {pool : Ptr} {first : Pools} {free : List Ptr} {s : Sharing}
    → pool ≢ null
    → Holds first free []
    → Reach n pool first s
    → (t : ℕ) (a : Ptr) → t < n
    → 0 < count a (s.held t)
    → ((r : Ptr × Pools) × (memory_pool_alloc pool s.pools ≡ some r))
      × ((x : Pools) × (memory_pool_free pool a s.pools ≡ some x))
      × (memory_pool_allocated pool s.pools ≡ total length n s.held)
      × (memory_pool_allocated pool s.pools + memory_pool_available pool s.pools
          ≡ s.pools.pool.total_count)
shared_calls_right {n} {pool} {s} ne start r t a lt got =
    let h = Reach-Shared n pool ne start r in
    let (x, freed, _) =
      memory_pool_free-live pool s.pools a h.free h.live ne h.holds (live_of n pool h t a lt got) in
    let (used, left) = counters_right pool s.pools h.free h.live ne h.holds in
    (
      alloc_returns h.free h.live h.holds,
      (x, freed),
      omega (arith, used, h.number),
      omega (arith, used, left, h.holds.all),
    )
  where
    alloc_returns :
        (free live : List Ptr)
        → Holds s.pools free live
        → (r : Ptr × Pools) × (memory_pool_alloc pool s.pools ≡ some r)
    alloc_returns [] live h = (_, memory_pool_alloc-nil pool s.pools live h)
    alloc_returns (b ∷ free) live h =
        let (_, run, _, _) = memory_pool_alloc-cons pool s.pools b free live ne h in (_, run)
