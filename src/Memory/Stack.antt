-- ===== src/Memory/Stack.antt =====
-- The stack allocator of src/memory.c, over the mappings of the process.
use thread_management_librar.Base.{
  ℕ, ◌+◌, ◌-◌, Bool, true, false, Option, none, some, List, ◌||◌, ◌==◌, ltb, if◌then◌else◌, Ptr,
  null, align_up,
}
use thread_management_librar.Base.Int.{ℤ, pos, negsuc}
use thread_management_librar.Platform.{
  Region, Mapping, platform_alloc_with_guard, platform_free_with_guard,
}

abbrev pub stack_default_size : ℕ
stack_default_size = 65536

abbrev pub stack_min_size : ℕ
stack_min_size = 4096

abbrev pub stack_max_size : ℕ
stack_max_size = 8388608

-- `stack_alloc_t`
pub record StackAlloc : Type 0 where
  pub base : Ptr
  pub stack_top : Ptr
  pub stack_size : ℕ
  pub total_size : ℕ
  pub has_guard : Bool

-- After `memset`.
abbrev pub cleared : StackAlloc
cleared = record {
  base = null;
  stack_top = null;
  stack_size = 0;
  total_size = 0;
  has_guard = false;
}

-- What a call works on: `*alloc` and the mappings of the process.
pub record Stacks : Type 0 where
  pub alloc : StackAlloc
  pub regions : List Region

-- The default for 0, else the size within its limits.
unfoldable pub clamp_size : ℕ → ℕ
clamp_size size =
    if size == 0
    then stack_default_size
    else if ltb size stack_min_size
    then stack_min_size
    else if ltb stack_max_size size
    then stack_max_size
    else size

-- `alloc` is the argument, NULL or not. `none` is a fault.
unfoldable pub stack_alloc_create :
    Ptr → ℕ → (page_size : ℕ) → Mapping → Stacks → Option (ℤ × Stacks)
unfolding clamp_size
stack_alloc_create alloc size page_size m s =
    if alloc == null
    then some (negsuc 0, s)
    else let size' = align_up (clamp_size size) page_size in
      elim (platform_alloc_with_guard size' page_size m s.regions) [
        | none ↦ none
        | some (none, regions) ↦ some (negsuc 0, record { alloc = cleared; regions = regions })
        | some (some g, regions) ↦ some (
          pos 0,
          record {
            alloc = record {
              base = g.stack - page_size;
              stack_top = g.stack + size';
              stack_size = size';
              total_size = g.total_size;
              has_guard = true;
            };
            regions = regions;
          },
        )
      ]

unfoldable pub stack_alloc_destroy : Ptr → (page_size : ℕ) → Stacks → Option Stacks
stack_alloc_destroy alloc page_size s =
    if alloc == null || s.alloc.base == null
    then some s
    else (elim (platform_free_with_guard (s.alloc.base + page_size) s.alloc.total_size page_size
        s.regions) [
          | none ↦ none
          | some regions ↦ some (record { alloc = cleared; regions = regions })
        ])
