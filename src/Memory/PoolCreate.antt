-- ===== src/Memory/PoolCreate.antt =====
-- `memory_pool_create` of src/memory.c: the free list that it builds, and the size of its objects.
use thread_management_librar.Base.{
  ℕ, suc, ◌+◌, ◌*◌, ◌%◌, ◌/◌, ◌≤◌, ◌<◌, ◌≡◌, ◌≢◌, refl, true, false, Option, none, some, List, [],
  ◌∷◌, ◌||◌, ◌&&◌, ◌==◌, ltb, leb, Ptr, null, not_null, size_mod, arith, if-false, if-true,
  Bool-cases, ap, ◌∙◌, inl, inr, align_up,
}
use native.Mathlib.Nat.{zero-add}
use thread_management_librar.Base.Bits.{Ceiling, align_up-Ceiling}
use thread_management_librar.Memory.Pool.{
  Heap, in_block, pointer_size, MemoryPool, Answers, build_free_list, round_object,
  memory_pool_create,
}
use thread_management_librar.Memory.PoolState.{first, Holds}
use thread_management_librar.Memory.FreeList.{Built, build-Built, build-fault, times_mono, scaled}

-- An object takes at least the wanted size and a pointer's, fits a `size_t`, and is a multiple of 8.
pub round_object-bounds :
    (object_size : ℕ)
    → object_size + 8 ≤ size_mod
    → (object_size ≤ round_object object_size)
      × (8 ≤ round_object object_size)
      × (round_object object_size < size_mod)
      × ((n : ℕ) × (round_object object_size ≡ 8 * n))
unfolding round_object
round_object-bounds object_size fits = elim (Bool-cases (ltb object_size pointer_size)) [
  | inl small ↦
      let c : Ceiling 3 8 (align_up 8 8) = align_up-Ceiling 3 8 (omega arith) (omega arith) in
      rw (if-true _ _ _ small)
        (ground (arith, c.above, c.near), c.above, omega (arith, c.near), (c.part, c.multiple))
  | inr big ↦
      let c : Ceiling 3 object_size (align_up object_size 8) =
        align_up-Ceiling 3 object_size (omega arith) (omega arith) in
      rw (if-false _ _ _ big)
        (c.above, ground (arith, c.above), omega (arith, c.near), (c.part, c.multiple))
]

-- What the system gave for a pool that can be built: both blocks and a lock.
pub record Granted (ans : Answers) : Type 0 where
  pub pool : ans.pool ≢ null
  pub memory : ans.memory ≢ null
  pub mutex : ans.mutex_ret ≡ 0

nonzero : (a b : ℕ) → a ≢ 0 → b ≢ 0 → (a == 0 || b == 0) ≡ false
nonzero a b na nb = ground arith

whole_part : (a b : ℕ) → 0 < b → (a / b * b ≤ a) × (a < a / b * b + b)
whole_part a b pos = grind arith

-- What a product that wraps leaves holds fewer objects than were asked for.
too_few :
    (size n q : ℕ)
    → size < size_mod
    → size_mod ≤ size * n
    → q * size ≤ size * n % size_mod
    → suc q < n
too_few size n q small wraps part = elim (Bool-cases (ltb (suc q) n)) [
  | inl fewer ↦ ground arith
  | inr enough ↦
      let more : n * size ≤ suc q * size = times_mono n (suc q) size (ground arith) in
      absurd (omega arith)
]

module _ (object_size n : ℕ) (ans : Answers) (h : Heap) (some_size : object_size ≢ 0)
    (some_count : n ≢ 0) (g : Granted ans) where
  abbrev pub size : ℕ
  size = round_object object_size

  -- The heap in which the loop runs.
  abbrev pub allocated : Heap
  allocated = record h {
    blocks =
        record { start = ans.memory; size = size * n % size_mod }
        ∷ record { start = ans.pool; size = ans.pool_size }
        ∷ h.blocks;
  }

  create_loop :
      (r : Option (Ptr × Heap))
      → build_free_list n size ans.memory null allocated ≡ r
      → memory_pool_create object_size n ans h ≡ (elim r [
        | none ↦ none
        | some (free_list, h') ↦ some (
          some (record {
            memory = ans.memory;
            memory_size = size * n % size_mod;
            object_size = size;
            total_count = n;
            free_list = free_list;
            allocated_count = 0;
            lock = true;
          }),
          h',
        )
      ])
  unfolding memory_pool_create
  create_loop r e = rw (
    nonzero object_size n some_size some_count,
    not_null _ g.pool,
    not_null _ g.memory,
    g.mutex,
    e,
  )

  -- `memory_pool_create` builds a pool of `n` objects, all free and each at least of the wanted size,
  -- in the block of memory that the system gave it next to the pool itself, wherever the size of all objects together fits a `size_t` and the system grants the blocks.
  pub memory_pool_create-Holds :
      object_size + 8 ≤ size_mod
      → n < size_mod
      → size * n < size_mod
      → (p : MemoryPool) × (h' : Heap) × (free : List Ptr) × (memory_pool_create object_size n ans h
          ≡ some (some p, h'))
        × Holds (record { pool = p; heap = h' }) free []
        × (p.total_count ≡ n)
        × (object_size ≤ p.object_size)
        × (h'.blocks ≡ allocated.blocks)
        × (p.memory ≡ ans.memory)
  memory_pool_create-Holds fits few whole =
      let (wanted, word_size, near, part) = round_object-bounds object_size fits in
      let (h', free, ran, built, same) =
        build-Built n ans.memory size 0 allocated [] g.memory (omega arith) start
          (λ i lt. at_place i (rw zero-add at lt) word_size) in
      (
        record {
          memory = ans.memory;
          memory_size = size * n % size_mod;
          object_size = size;
          total_count = n;
          free_list = first free;
          allocated_count = 0;
          lock = true;
        },
        h',
        free,
        create_loop (some (first free, h')) (rw base_zero at ran),
        record {
          chain = built.chain;
          head = refl;
          once = λ a. omega (arith, built.once a);
          objects = λ a pos. rw zero-add at (built.objects a (omega arith));
          all = omega (arith, built.all);
          counted = refl;
          fits = few;
          placed = g.memory;
          inside = λ a (i, lt, e).
              ap (in_block a) same
              ∙ ap (λ (x : Ptr). in_block x allocated.blocks) e
              ∙ at_place i lt word_size;
        },
        refl,
        wanted,
        same,
        refl,
      )
    where
      base_zero : ans.memory + 0 * size ≡ ans.memory
      base_zero = omega arith

      start : Built ans.memory size 0 h.word []
      start = record {
        chain = tt;
        once = λ a. omega arith;
        objects = λ a pos. absurd (omega arith);
        all = refl;
      }

      at_place :
          (i : ℕ) → i < n → 8 ≤ size → in_block (ans.memory + i * size) allocated.blocks ≡ true
      at_place i lt big =
          let enough = scaled i n size lt in
          let exact : size * n % size_mod ≡ n * size = omega arith in
          let here : (leb ans.memory (ans.memory + i * size)
                && leb (ans.memory + i * size + pointer_size) (ans.memory + size * n % size_mod))
              ≡ true =
            ground arith in
          rw here

  -- If the size of all objects together wraps around a `size_t`, the block of the objects is too small, and the loop
  -- of `memory_pool_create` writes behind it: a fault, where `malloc` grants both blocks of the pool, no other block is
  -- allocated, and the block of the objects lies above that of the pool.
  pub memory_pool_create-overflow :
      object_size + 8 ≤ size_mod
      → size_mod ≤ size * n
      → h.blocks ≡ []
      → ans.pool + ans.pool_size ≤ ans.memory
      → memory_pool_create object_size n ans h ≡ none
  memory_pool_create-overflow fits wraps alone below =
      let (wanted, word_size, near, part) = round_object-bounds object_size fits in
      let q = size * n % size_mod / size in
      let (under, over) = whole_part (size * n % size_mod) size (omega arith) in
      let fault =
        build-fault (suc q) n ans.memory size 0 null allocated (too_few size n q near wraps under)
          (outside q over) in
      create_loop none (rw base_zero at fault)
    where
      base_zero : ans.memory + 0 * size ≡ ans.memory
      base_zero = omega arith

      outside :
          (q : ℕ)
          → size * n % size_mod < q * size + size
          → in_block (ans.memory + (0 + suc q) * size) allocated.blocks ≡ false
      outside q over =
          let behind : leb (ans.memory + (0 + suc q) * size + pointer_size)
                (ans.memory + size * n % size_mod)
              ≡ false =
            ground arith in
          let past : leb (ans.memory + (0 + suc q) * size + pointer_size) (ans.pool + ans.pool_size)
              ≡ false =
            ground arith in
          rw (behind, past, alone) (ground arith)
