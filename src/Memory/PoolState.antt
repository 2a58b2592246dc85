-- ===== src/Memory/PoolState.antt =====
-- Which objects of a pool of src/memory.c are free and which are in use, and how `memory_pool_alloc`
-- and `memory_pool_free` move them.
use thread_management_librar.Base.{
  ℕ, suc, ◌+◌, ◌*◌, ◌≤◌, ◌<◌, ◌≡◌, ◌≢◌, refl, true, false, Option, some, List, [], ◌∷◌, ◌==◌,
  if◌then◌else◌, Ptr, null, not_null, size_mod, inc_size, dec_size, length, arith, if-false,
  if-true, Bool-cases, inl, inr,
}
use thread_management_librar.Memory.Pool.{
  in_block, link, MemoryPool, Pools, memory_pool_alloc, memory_pool_free, memory_pool_allocated,
  memory_pool_available,
}

abbrev pub count : Ptr → List Ptr → ℕ
count a [] = 0
count a (b ∷ bs) = (if a == b then 1 else 0) + count a bs

abbrev pub first : List Ptr → Ptr
first [] = null
first (a ∷ ps) = a

-- Each free object holds the address of the next, the last one NULL.
abbrev pub FreeChain : (Ptr → Option Ptr) → List Ptr → Type 0
FreeChain word [] = Unit
FreeChain word (a ∷ ps) = (a ≢ null) × (word a ≡ some (first ps)) × FreeChain word ps

-- An object of the pool, by its number.
abbrev pub IsObject : MemoryPool → Ptr → Type 0
IsObject p a = (i : ℕ) × (i < p.total_count) × (a ≡ p.memory + i * p.object_size)

-- The free objects, in the order in which they will be handed out, and those in use.
pub record Holds (s : Pools) (free live : List Ptr) : Type 0 where
  pub chain : FreeChain s.heap.word free
  pub head : s.pool.free_list ≡ first free
  -- no object stands twice, neither in one list nor in both
  pub once : (a : Ptr) → count a free + count a live ≤ 1
  pub objects : (a : Ptr) → 0 < count a free + count a live → IsObject s.pool a
  pub all : length free + length live ≡ s.pool.total_count
  pub counted : s.pool.allocated_count ≡ length live
  pub fits : s.pool.total_count < size_mod
  pub placed : s.pool.memory ≢ null
  pub inside : (a : Ptr) → IsObject s.pool a → in_block a s.heap.blocks ≡ true

pub FreeChain-link :
    (word : Ptr → Option Ptr) (p q : Ptr) (ps : List Ptr)
    → count p ps ≡ 0
    → FreeChain word ps
    → FreeChain (link word p q) ps
FreeChain-link word p q [] out c = tt
FreeChain-link word p q (a ∷ ps) out c =
    (c.0, ground arith, FreeChain-link word p q ps (ground arith) c.2)

-- `memory_pool_alloc` with a free object returns the first one, which then is in use; it changes no
-- other object and no word of memory.
pub memory_pool_alloc-cons :
    (pool : Ptr) (s : Pools) (a : Ptr) (free live : List Ptr)
    → pool ≢ null
    → Holds s (a ∷ free) live
    → (s' : Pools) × (memory_pool_alloc pool s ≡ some (a, s'))
      × Holds s' free (a ∷ live)
      × (s'.heap ≡ s.heap)
unfolding memory_pool_alloc
memory_pool_alloc-cons pool s a free live ne h = (
  record s {
    pool = record s.pool {
      free_list = first free;
      allocated_count = inc_size s.pool.allocated_count;
    };
  },
  run,
  record {
    chain = h.chain.2;
    head = refl;
    once = λ b. omega (arith, h.once b);
    objects = λ b pos. h.objects b (omega arith);
    all = omega (arith, h.all);
    counted = omega (arith, h.counted, h.all, h.fits);
    fits = h.fits;
    placed = h.placed;
    inside = h.inside;
  },
  refl,
)
  where
    some_left : (s.pool.free_list == null) ≡ false
    some_left = not_null _ (rw h.head h.chain.0)

    at : s.heap.word s.pool.free_list ≡ some (first free)
    at = rw h.head h.chain.1

    run :
        memory_pool_alloc pool s
        ≡ some (
          a,
          record s {
            pool = record s.pool {
              free_list = first free;
              allocated_count = inc_size s.pool.allocated_count;
            };
          },
        )
    run = rw (not_null _ ne, if-false _ _ _ some_left, at, h.head)

-- With no free object it returns NULL and changes nothing.
pub memory_pool_alloc-nil :
    (pool : Ptr) (s : Pools) (live : List Ptr)
    → Holds s [] live
    → memory_pool_alloc pool s ≡ some (null, s)
unfolding memory_pool_alloc
memory_pool_alloc-nil pool s live h =
    let gone : (s.pool.free_list == null) ≡ true = ground (arith, h.head) in
    rw (if-true _ _ _ gone) (ground arith)

memory_pool_free-split :
    (pool : Ptr) (s : Pools) (a : Ptr) (free live rest : List Ptr)
    → pool ≢ null
    → a ≢ null
    → Holds s free live
    → ((b : Ptr) → count b live ≡ (if b == a then 1 else 0) + count b rest)
    → length live ≡ suc (length rest)
    → (s' : Pools) × (memory_pool_free pool a s ≡ some s') × Holds s' (a ∷ free) rest
unfolding memory_pool_free
memory_pool_free-split pool s a free live rest ne nn h split shorter = (
  record {
    pool = record s.pool { free_list = a; allocated_count = dec_size s.pool.allocated_count };
    heap = record s.heap { word = link s.heap.word a s.pool.free_list };
  },
  rw (not_null _ ne, not_null _ nn, mine),
  record {
    chain = (nn, ground (arith, h.head), FreeChain-link _ a _ free not_free h.chain);
    head = refl;
    once = λ b. omega (arith, h.once b, split b);
    objects = λ b pos. h.objects b (omega (arith, split b));
    all = omega (arith, h.all);
    counted = omega (arith, h.counted, h.all, h.fits);
    fits = h.fits;
    placed = h.placed;
    inside = h.inside;
  },
)
  where
    used : count a live ≡ 1 + count a rest
    used = ground (arith, split a)

    not_free : count a free ≡ 0
    not_free = omega (arith, h.once a, used)

    mine : in_block a s.heap.blocks ≡ true
    mine = h.inside a (h.objects a (omega (arith, used)))

abbrev pub remove : Ptr → List Ptr → List Ptr
remove a [] = []
remove a (b ∷ bs) = if a == b then bs else b ∷ remove a bs

pub count-remove :
    (a : Ptr) (bs : List Ptr)
    → 0 < count a bs
    → (b : Ptr) → count b bs ≡ (if b == a then 1 else 0) + count b (remove a bs)
count-remove a [] pos b = absurd (omega arith)
count-remove a (c ∷ bs) pos b = elim (Bool-cases (a == c)) [
  | inl here ↦ ground arith
  | inr there ↦ ground (arith, count-remove a bs (ground arith) b)
]

pub length-remove :
    (a : Ptr) (bs : List Ptr) → 0 < count a bs → length bs ≡ suc (length (remove a bs))
length-remove a [] pos = absurd (omega arith)
length-remove a (c ∷ bs) pos = elim (Bool-cases (a == c)) [
  | inl here ↦ ground arith
  | inr there ↦ ground (arith, length-remove a bs (ground arith))
]

-- `memory_pool_free` of an object in use makes it the first of the free ones, so that the next
-- `memory_pool_alloc` returns it; every other object stays free or in use as it was.
pub memory_pool_free-live :
    (pool : Ptr) (s : Pools) (a : Ptr) (free live : List Ptr)
    → pool ≢ null
    → Holds s free live
    → 0 < count a live
    → (s' : Pools) × (memory_pool_free pool a s ≡ some s') × Holds s' (a ∷ free) (remove a live)
memory_pool_free-live pool s a free live ne h used =
    let (i, lt, e) = h.objects a (omega arith) in
    memory_pool_free-split pool s a free live (remove a live) ne (omega (arith, h.placed)) h
      (count-remove a live used) (length-remove a live used)

-- The two counters tell how many objects are in use and how many are free.
pub counters_right :
    (pool : Ptr) (s : Pools) (free live : List Ptr)
    → pool ≢ null
    → Holds s free live
    → (memory_pool_allocated pool s ≡ length live) × (memory_pool_available pool s ≡ length free)
unfolding memory_pool_allocated memory_pool_available
counters_right pool s free live ne h =
    (rw (not_null _ ne) h.counted, rw (not_null _ ne) (omega (arith, h.counted, h.all, h.fits)))
