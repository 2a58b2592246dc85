-- ===== src/Memory/Clients.antt =====
-- `n` threads that share one object pool of src/memory.c. Each call runs under the lock of the pool, so it
-- is one step.
use thread_management_librar.Base.{ℕ, ◌<◌, ◌≡◌, ◌≢◌, some, List, [], ◌∷◌, Ptr, null}
use thread_management_librar.Base.Threads.{assign}
use thread_management_librar.Memory.Pool.{Pools, memory_pool_alloc, memory_pool_free}
use thread_management_librar.Memory.PoolState.{count, remove}

pub record Sharing : Type 0 where
  pub pools : Pools
  pub held : ℕ → List Ptr  -- the objects that each thread got and has not given back

-- One call of thread `t`; a thread gives back only what it got.
pub data Step (n : ℕ) (pool : Ptr) (s : Sharing) : Sharing → Type 0 where
  alloc_object :
      (t : ℕ) {a : Ptr} {x : Pools}
      → t < n
      → memory_pool_alloc pool s.pools ≡ some (a, x)
      → a ≢ null
      → Step n pool s (record { pools = x; held = assign s.held t (a ∷ s.held t) })
  alloc_nothing :
      (t : ℕ) {x : Pools}
      → t < n
      → memory_pool_alloc pool s.pools ≡ some (null, x)
      → Step n pool s (record s { pools = x })
  free_object :
      (t : ℕ) (a : Ptr) {x : Pools}
      → t < n
      → 0 < count a (s.held t)
      → memory_pool_free pool a s.pools ≡ some x
      → Step n pool s (record { pools = x; held = assign s.held t (remove a (s.held t)) })

-- What they can come to after `memory_pool_create` has given the pool.
pub data Reach (n : ℕ) (pool : Ptr) (first : Pools) : Sharing → Type 0 where
  begin : Reach n pool first (record { pools = first; held = λ _. [] })
  then_step : {s s' : Sharing} → Reach n pool first s → Step n pool s s' → Reach n pool first s'
