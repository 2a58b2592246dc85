-- ===== src/Memory/Pool.antt =====
-- The object pool of src/memory.c, over the blocks that `malloc` gave out and the words in them.
use thread_management_librar.Base.{
  ℕ, zero, suc, ◌+◌, ◌-◌, ◌*◌, ◌%◌, Bool, true, false, not, Option, none, some, List, [], ◌∷◌, ◌||◌,
  ◌&&◌, ◌==◌, ltb, leb, if◌then◌else◌, Ptr, null, align_up, size_mod, inc_size, dec_size,
}

-- A block of `malloc`.
pub record Block : Type 0 where
  pub start : Ptr
  pub size : ℕ

pub record Heap : Type 0 where
  pub word : Ptr → Option Ptr  -- the links that are stored in the blocks
  pub blocks : List Block

-- `sizeof(pool_node_t)` and `sizeof(void*)`
abbrev pub pointer_size : ℕ
pointer_size = 8

-- The word at `p` lies in one block.
abbrev pub in_block : Ptr → List Block → Bool
in_block p [] = false
in_block p (b ∷ bs) = (leb b.start p && leb (p + pointer_size) (b.start + b.size)) || in_block p bs

abbrev pub link : (Ptr → Option Ptr) → Ptr → Ptr → Ptr → Option Ptr
link word p q a = if a == p then some q else word a

-- `node->next = q`; a write outside the blocks is a fault.
unfoldable pub write_next : Ptr → Ptr → Heap → Option Heap
write_next p q h = if in_block p h.blocks then some (record h { word = link h.word p q }) else none

-- `free` of a block; no block at this address is a fault.
abbrev pub free_block : Ptr → List Block → Option (List Block)
free_block p [] = none
free_block p (b ∷ bs) =
    if b.start == p
    then some bs
    else elim (free_block p bs) [ none ↦ none | some rest ↦ some (b ∷ rest) ]

-- `struct memory_pool`
pub record MemoryPool : Type 0 where
  pub memory : Ptr
  pub memory_size : ℕ
  pub object_size : ℕ
  pub total_count : ℕ
  pub free_list : Ptr
  pub allocated_count : ℕ
  pub lock : Bool  -- whether it is initialised

-- What the system answers to `memory_pool_create`: the two `malloc`s (NULL if memory is exhausted),
-- the size of the structure, and `pthread_mutex_init`.
pub record Answers : Type 0 where
  pub pool : Ptr
  pub pool_size : ℕ
  pub memory : Ptr
  pub mutex_ret : ℕ

-- The loop that strings the objects together: `rounds` left, at `ptr`.
unfoldable pub build_free_list :
    (rounds : ℕ) (object_size ptr free_list : ℕ) → Heap → Option (Ptr × Heap)
build_free_list zero object_size ptr free_list h = some (free_list, h)
build_free_list (suc k) object_size ptr free_list h = elim (write_next ptr free_list h) [
  | none ↦ none
  | some h' ↦ build_free_list k object_size (ptr + object_size) ptr h'
]

-- The size that an object takes in the pool.
unfoldable pub round_object : ℕ → ℕ
round_object object_size =
    align_up (if ltb object_size pointer_size then pointer_size else object_size) pointer_size

-- `free(p)`, and what follows.
unfoldable pub free_then : {A : Type 0} → Ptr → Heap → (Heap → Option A) → Option A
free_then p h k = elim (free_block p h.blocks) [
  | none ↦ none
  | some rest ↦ k (record h { blocks = rest })
]

-- `some (none, h)` is the result NULL, `none` a fault.
unfoldable pub memory_pool_create :
    (object_size initial_count : ℕ) → Answers → Heap → Option (Option MemoryPool × Heap)
unfolding round_object build_free_list
memory_pool_create object_size initial_count ans h =
    let size = round_object object_size in
    let memory_size = size * initial_count % size_mod in
    let h₁ = record h { blocks = record { start = ans.pool; size = ans.pool_size } ∷ h.blocks } in
    let h₂ = record h₁ { blocks = record { start = ans.memory; size = memory_size } ∷ h₁.blocks } in
    if object_size == 0 || initial_count == 0
    then some (none, h)
    else if ans.pool == null
    then some (none, h)
    else if ans.memory == null
    then free_then ans.pool h₁ (λ h'. some (none, h'))
    else if not (ans.mutex_ret == 0)
    then free_then ans.memory h₂ (λ h'. free_then ans.pool h' (λ h''. some (none, h'')))
    else (elim (build_free_list initial_count size ans.memory null h₂) [
      | none ↦ none
      | some (free_list, h₃) ↦ some (
        some (record {
          memory = ans.memory;
          memory_size = memory_size;
          object_size = size;
          total_count = initial_count;
          free_list = free_list;
          allocated_count = 0;
          lock = true;
        }),
        h₃,
      )
    ])

-- What the other functions work on: `*pool` and the heap.
pub record Pools : Type 0 where
  pub pool : MemoryPool
  pub heap : Heap

unfoldable pub memory_pool_destroy : Ptr → Pools → Option Pools
memory_pool_destroy pool s =
    if pool == null
    then some s
    else free_then s.pool.memory s.heap λ h.
      free_then pool h λ h'. some (record { pool = record s.pool { lock = false }; heap = h' })

unfoldable pub memory_pool_alloc : Ptr → Pools → Option (Ptr × Pools)
memory_pool_alloc pool s =
    if pool == null
    then some (null, s)
    else if s.pool.free_list == null
    then some (null, s)
    else (elim (s.heap.word s.pool.free_list) [
      | none ↦ none
      | some next ↦ some (
        s.pool.free_list,
        record s {
          pool = record s.pool {
            free_list = next;
            allocated_count = inc_size s.pool.allocated_count;
          };
        },
      )
    ])

unfoldable pub memory_pool_free : (pool ptr : Ptr) → Pools → Option Pools
unfolding write_next
memory_pool_free pool ptr s =
    if pool == null || ptr == null then some s else (elim (write_next ptr s.pool.free_list s.heap) [
      | none ↦ none
      | some h ↦ some (record {
        pool = record s.pool { free_list = ptr; allocated_count = dec_size s.pool.allocated_count };
        heap = h;
      })
    ])

unfoldable pub memory_pool_allocated : Ptr → Pools → ℕ
memory_pool_allocated pool s = if pool == null then 0 else s.pool.allocated_count

-- `total_count - allocated_count` on `size_t`.
unfoldable pub memory_pool_available : Ptr → Pools → ℕ
memory_pool_available pool s =
    if pool == null then 0 else (s.pool.total_count + size_mod - s.pool.allocated_count) % size_mod
