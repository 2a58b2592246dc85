-- ===== src/Memory/ClientExamples.antt =====
-- Threads that share a pool of two objects, of src/memory.c.
use thread_management_librar.Base.{
  ℕ, ◌≡◌, refl, true, ◌==◌, none, some, [], ◌∷◌, if◌then◌else◌, null, inl, inr, Bool-cases, arith,
}
use thread_management_librar.Memory.Pool.{Pools, memory_pool_alloc}
use thread_management_librar.Memory.PoolState.{count, IsObject, Holds}
use thread_management_librar.Memory.Clients.{Sharing, alloc_object, Reach, begin, then_step}
use thread_management_librar.Memory.Exclusive.{objects_exclusive}

-- Two objects of 16 bytes at 4096, both free.
abbrev all_free : Pools
all_free = record {
  pool = record {
    memory = 4096;
    memory_size = 32;
    object_size = 16;
    total_count = 2;
    free_list = 4112;
    allocated_count = 0;
    lock = true;
  };
  heap = record {
    word = λ a. if a == 4112 then some 4096 else if a == 4096 then some null else none;
    blocks = record { start = 4096; size = 32 } ∷ [];
  };
}

all_free-Holds : Holds all_free (4112 ∷ 4096 ∷ []) []
all_free-Holds = record {
  chain = (omega arith, refl, (omega arith, refl, tt));
  head = refl;
  once = λ a. ground arith;
  objects = λ a pos. elim (Bool-cases (a == 4112)) [
    | inl second ↦ (1, omega arith, ground arith)
    | inr other ↦ (0, omega arith, ground arith)
  ];
  all = refl;
  counted = refl;
  fits = omega arith;
  placed = omega arith;
  inside = λ a (i, lt, e). ground arith;
}

record SharingRun : Type 0 where
  last : Sharing
  reach : Reach 2 512 all_free last

-- Each thread gets an object.
both_served : SharingRun
unfolding memory_pool_alloc
both_served = record {
  last = _;
  reach =
      then_step (then_step begin (alloc_object 0 (omega arith) refl (omega arith)))
        (alloc_object 1 (omega arith) refl (omega arith));
}

objects_exclusive_example :
    (◌≡◌ {A = ℕ} 1 1)
    × (count 4096 (both_served.last.held 1) ≡ 1)
    × IsObject both_served.last.pools.pool 4096
unfolding both_served
objects_exclusive_example =
    objects_exclusive (omega arith) all_free-Holds both_served.reach 1 1 4096 (omega arith)
      (omega arith) (omega arith) (omega arith)
