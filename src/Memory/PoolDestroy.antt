-- ===== src/Memory/PoolDestroy.antt =====
-- The blocks of a pool of src/memory.c where `memory_pool_create` gives up, and after
-- `memory_pool_destroy`.
use thread_management_librar.Base.{
  ℕ, ◌+◌, ◌*◌, ◌≤◌, ◌<◌, ◌≡◌, ◌≢◌, refl, true, false, Option, none, some, List, ◌∷◌, ◌==◌, ◌⊎◌, inl,
  inr, Bool-cases, ap, not, ◌||◌, Ptr, null, not_null, size_mod, arith, ==_refl, if-false, if-true,
}
use thread_management_librar.Memory.Pool.{
  Block, Heap, MemoryPool, Answers, Pools, round_object, free_block, free_then, memory_pool_create,
  memory_pool_destroy,
}
use thread_management_librar.Memory.PoolCreate.{Granted, memory_pool_create-Holds}

free_then_head :
    {A : Type 0} (p n : ℕ) (word : Ptr → Option Ptr) (bs : List Block) (k : Heap → Option A)
    → free_then p (record { word = word; blocks = record { start = p; size = n } ∷ bs }) k
      ≡ k (record { word = word; blocks = bs })
unfolding free_then
free_then_head p n word bs k =
    let here : free_block p (record { start = p; size = n } ∷ bs) ≡ some bs =
      if-true (p == p) _ _ (==_refl p) in
    ap {A = Option (List Block)}
      (λ o. elim o [ none ↦ none | some rest ↦ k (record { word = word; blocks = rest }) ]) here

-- For an object size or a count of 0, or where the system refuses a block or the lock,
-- `memory_pool_create` returns NULL and gives back every block that it took.
pub memory_pool_create-fails :
    (object_size n : ℕ) (ans : Answers) (h : Heap)
    → (object_size ≡ 0) ⊎ (n ≡ 0) ⊎ (ans.pool ≡ null) ⊎ (ans.memory ≡ null) ⊎ (ans.mutex_ret ≢ 0)
    → memory_pool_create object_size n ans h ≡ some (none, h)
unfolding memory_pool_create
memory_pool_create-fails object_size n ans h bad = elim (Bool-cases (object_size == 0 || n == 0)) [
  | inl zero_arg ↦ rw (if-true _ _ _ zero_arg)
  | inr given ↦ elim (Bool-cases (ans.pool == null)) [
    | inl no_pool ↦ rw (if-false _ _ _ given, if-true _ _ _ no_pool)
    | inr pool ↦ elim (Bool-cases (ans.memory == null)) [
      | inl no_memory ↦
          rw (if-false _ _ _ given, if-false _ _ _ pool, if-true _ _ _ no_memory, free_then_head)
      | inr memory ↦
          let no_lock : not (ans.mutex_ret == 0) ≡ true = ground arith in
          rw (
            if-false _ _ _ given,
            if-false _ _ _ pool,
            if-false _ _ _ memory,
            if-true _ _ _ no_lock,
            free_then_head,
            free_then_head,
          )
    ]
  ]
]

destroy_blocks :
    (p : MemoryPool) (h : Heap) (pool m k l : ℕ) (bs : List Block)
    → pool ≢ null
    → p.memory ≡ m
    → h.blocks ≡ record { start = m; size = k } ∷ record { start = pool; size = l } ∷ bs
    → memory_pool_destroy pool (record { pool = p; heap = h })
      ≡ some (record { pool = record p { lock = false }; heap = record h { blocks = bs } })
unfolding memory_pool_destroy
destroy_blocks p h pool m k l bs ne at taken =
    rw (not_null _ ne, at, taken, free_then_head, free_then_head)

-- A pool that `memory_pool_create` made is given back whole by `memory_pool_destroy`: both blocks are
-- freed, once each, and the blocks from before are left; for a size of all objects that fits a `size_t`.
pub memory_pool_create_destroy :
    (object_size n : ℕ) (ans : Answers) (h : Heap)
    → object_size ≢ 0
    → n ≢ 0
    → Granted ans
    → object_size + 8 ≤ size_mod
    → n < size_mod
    → round_object object_size * n < size_mod
    → (p : MemoryPool) × (h' : Heap) × (s : Pools) × (memory_pool_create object_size n ans h
        ≡ some (some p, h'))
      × (memory_pool_destroy ans.pool (record { pool = p; heap = h' }) ≡ some s)
      × (s.heap.blocks ≡ h.blocks)
memory_pool_create_destroy object_size n ans h some_size some_count g fits few whole =
    let (p, h', free, ran, holds, total, wanted, taken, at) =
      memory_pool_create-Holds object_size n ans h some_size some_count g fits few whole in
    (p, h', _, ran, destroy_blocks p h' ans.pool ans.memory _ _ h.blocks g.pool at taken, refl)
