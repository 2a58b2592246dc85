-- ===== src/Memory/Examples.antt =====
-- Calls of src/memory.c on a pool of two objects and on one stack.
use thread_management_librar.Base.{
  ◌+◌, ◌≤◌, ◌<◌, ◌≡◌, refl, true, inl, inr, arith, ◌==◌, none, some, List, [], ◌∷◌, if◌then◌else◌,
  Ptr, null, ◌^◌, Bool-cases, align_up,
}
use thread_management_librar.Base.Int.{pos}
use thread_management_librar.Platform.{Region}
use thread_management_librar.Memory.Stack.{
  StackAlloc, Stacks, clamp_size, cleared, stack_alloc_create,
}
use thread_management_librar.Memory.StackLaws.{IsStack, stack_alloc_create-IsStack}
use thread_management_librar.Memory.Pool.{
  Heap, MemoryPool, Answers, Pools, round_object, memory_pool_create, memory_pool_destroy,
  memory_pool_alloc,
}
use thread_management_librar.Memory.PoolState.{Holds}
use mathlib.Core.Quot
use thread_management_librar.Memory.Unordered.{Objects, Given, GivenBack, memory_pool-Objects}
use thread_management_librar.Memory.PoolDestroy.{memory_pool_create_destroy}
use thread_management_librar.Memory.PoolCreate.{
  Granted, memory_pool_create-Holds, memory_pool_create-overflow,
}

-- Two objects of 16 bytes at 4096: the second is free, the first is in use.
abbrev half_used : Pools
half_used = record {
  pool = record {
    memory = 4096;
    memory_size = 32;
    object_size = 16;
    total_count = 2;
    free_list = 4112;
    allocated_count = 1;
    lock = true;
  };
  heap = record {
    word = λ a. if a == 4112 then some null else none;
    blocks = record { start = 4096; size = 32 } ∷ [];
  };
}

half_used-Holds : Holds half_used (4112 ∷ []) (4096 ∷ [])
half_used-Holds = record {
  chain = (omega arith, refl, tt);
  head = refl;
  once = λ a. ground arith;
  objects = λ a pos. elim (Bool-cases (a == 4112)) [
    | inl second ↦ (1, omega arith, ground arith)
    | inr other ↦ (0, omega arith, ground arith)
  ];
  all = refl;
  counted = refl;
  fits = omega arith;
  placed = omega arith;
  inside = λ a (i, lt, e). ground arith;
}

abbrev one_object : Ptr → Objects
one_object a = Quot.mk (a ∷ [])

memory_pool-Objects_example :
    ((b : Ptr) × (s' : Pools) × (memory_pool_alloc 512 half_used ≡ some (b, s'))
      × Given half_used (one_object 4112) (one_object 4096) b s')
    × GivenBack 512 4096 half_used (one_object 4112) (one_object 4096)
memory_pool-Objects_example =
    memory_pool-Objects 512 4096 half_used (one_object 4112) (one_object 4096) (omega arith)
      (record {
        free_list = 4112 ∷ [];
        live_list = 4096 ∷ [];
        holds = half_used-Holds;
        free_same = refl;
        live_same = refl;
      })

abbrev no_blocks : Heap
no_blocks = record { word = λ a. none; blocks = [] }

-- `malloc` gives 512 and 4096.
abbrev given : Answers
given = record { pool = 512; pool_size = 104; memory = 4096; mutex_ret = 0 }

given-Granted : Granted given
given-Granted = record { pool = omega arith; memory = omega arith; mutex = refl }

memory_pool_create-Holds_example :
    (p : MemoryPool) × (h' : Heap) × (free : List Ptr) × (memory_pool_create 12 3 given no_blocks
      ≡ some (some p, h'))
    × Holds (record { pool = p; heap = h' }) free []
    × (p.total_count ≡ 3)
    × (12 ≤ p.object_size)
    × (h'.blocks ≡ record { start = 4096; size = 48 } ∷ record { start = 512; size = 104 } ∷ [])
    × (p.memory ≡ 4096)
unfolding round_object align_up
memory_pool_create-Holds_example =
    memory_pool_create-Holds 12 3 given no_blocks (omega arith) (omega arith) given-Granted
      (omega arith) (omega arith) (omega arith)

memory_pool_create_destroy_example :
    (p : MemoryPool) × (h' : Heap) × (s : Pools) × (memory_pool_create 12 3 given no_blocks
      ≡ some (some p, h'))
    × (memory_pool_destroy 512 (record { pool = p; heap = h' }) ≡ some s)
    × (s.heap.blocks ≡ [])
unfolding round_object align_up
memory_pool_create_destroy_example =
    memory_pool_create_destroy 12 3 given no_blocks (omega arith) (omega arith) given-Granted
      (omega arith) (omega arith) (omega arith)

-- 2 ^ 60 objects of 16 bytes wrap around to a block of size 0.
memory_pool_create-overflow_example :
    memory_pool_create 16 1152921504606846976 given no_blocks ≡ none
unfolding round_object align_up
memory_pool_create-overflow_example =
    memory_pool_create-overflow 16 1152921504606846976 given no_blocks (omega arith) (omega arith)
      given-Granted (omega arith) (omega arith) refl (omega arith)

abbrev a_region : Region
a_region = record { start = 65536; size = 12288; closed = 4096 }

abbrev a_stack : StackAlloc
a_stack = record {
  base = 65536;
  stack_top = 77824;
  stack_size = 8192;
  total_size = 12288;
  has_guard = true;
}

a_stack-IsStack : IsStack 4096 a_stack a_region
a_stack-IsStack = record {
  base = refl;
  whole = refl;
  guard = (refl, refl);
  top = omega arith;
  usable = omega arith;
  pages = (2, omega arith);
  least = omega arith;
}

abbrev no_stacks : Stacks
no_stacks = record { alloc = cleared; regions = [] }

stack_alloc_create-IsStack_example :
    (a : StackAlloc) × (r : Region) × (stack_alloc_create 64 5000
        (2 ^ 12)
        (record { mapped = some 65536; protect_ret = pos 0 })
        no_stacks
      ≡ some (pos 0, record { alloc = a; regions = r ∷ [] }))
    × IsStack (2 ^ 12) a r
    × (r.start ≡ 65536)
    × (clamp_size 5000 ≤ a.stack_size)
    × (a.stack_size < clamp_size 5000 + 2 ^ 12)
stack_alloc_create-IsStack_example =
    stack_alloc_create-IsStack 64 5000 12 65536 no_stacks (omega arith) (omega arith)
