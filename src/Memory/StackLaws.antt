-- ===== src/Memory/StackLaws.antt =====
-- What a stack of src/memory.c is, from `stack_alloc_create` to `stack_alloc_destroy`.
use thread_management_librar.Base.{
  ℕ, ◌+◌, ◌-◌, ◌*◌, ◌≤◌, ◌<◌, ◌%◌, ◌^◌, ◌≡◌, ◌≢◌, refl, Bool, true, false, Option, none, some, List,
  [], ◌∷◌, ◌++◌, ◌⊎◌, inl, inr, ◌||◌, ◌==◌, Ptr, null, not_null, align_up, size_mod, arith,
  if-false, if-true, ◌&&◌, sym,
}
use thread_management_librar.Base.Bits.{Ceiling, align_up-Ceiling, pow_mono}
use thread_management_librar.Base.Int.{ℤ, pos, negsuc, ◌==ℤ◌}
use thread_management_librar.Platform.{
  Region, Mapping, munmap, platform_alloc_with_guard, platform_free_with_guard,
}
use thread_management_librar.Memory.Stack.{
  StackAlloc, Stacks, clamp_size, stack_alloc_create, stack_alloc_destroy, cleared, stack_min_size,
  stack_max_size,
}

pub clamp_size-bounds :
    (size : ℕ) → (stack_min_size ≤ clamp_size size) × (clamp_size size ≤ stack_max_size)
unfolding clamp_size
clamp_size-bounds size = ground arith

-- A mapping of `a` with a closed first page, for the stack that `*alloc` describes.
pub record IsStack (page_size : ℕ) (a : StackAlloc) (r : Region) : Type 0 where
  pub base : a.base ≡ r.start
  pub whole : a.total_size ≡ r.size
  pub guard : (a.has_guard ≡ true) × (r.closed ≡ page_size)
  -- the usable part starts behind the guard page and ends with the mapping
  pub top : a.stack_top ≡ r.start + r.size
  pub usable : r.size ≡ a.stack_size + page_size
  -- whole pages, as many as the wanted size takes
  pub pages : (n : ℕ) × (a.stack_size ≡ page_size * n)
  pub least : stack_min_size ≤ a.stack_size

-- For a page size that is a power of two up to 4 MiB, where the mapping succeeds,
-- `stack_alloc_create` returns 0 and describes a mapping with a guard page: the stack is the wanted
-- size within its limits, rounded up to whole pages by less than a page.
pub stack_alloc_create-IsStack :
    (alloc size k mem : ℕ) (s : Stacks)
    → alloc ≢ null
    → k ≤ 22
    → (a : StackAlloc) × (r : Region) × (stack_alloc_create alloc size
          (2 ^ k)
          (record { mapped = some mem; protect_ret = pos 0 })
          s
        ≡ some (pos 0, record { alloc = a; regions = r ∷ s.regions }))
      × IsStack (2 ^ k) a r
      × (r.start ≡ mem)
      × (clamp_size size ≤ a.stack_size)
      × (a.stack_size < clamp_size size + 2 ^ k)
unfolding stack_alloc_create platform_alloc_with_guard
stack_alloc_create-IsStack alloc size k mem s ne le = (
  record {
    base = mem + 2 ^ k - 2 ^ k;
    stack_top = mem + 2 ^ k + wanted;
    stack_size = wanted;
    total_size = (wanted + 2 ^ k) % size_mod;
    has_guard = true;
  },
  record { start = mem; size = (wanted + 2 ^ k) % size_mod; closed = 2 ^ k },
  rw (if-false _ _ _ (not_null _ ne)),
  record {
    base = omega arith;
    whole = refl;
    guard = (refl, refl);
    top = omega (arith, small);
    usable = small;
    pages = (up.part, up.multiple);
    least = omega (arith, up.above, limits.0);
  },
  refl,
  up.above,
  up.near,
)
  where
    wanted : ℕ
    wanted = align_up (clamp_size size) (2 ^ k)

    page : 2 ^ k ≤ 2 ^ 22
    page = pow_mono k 22 le

    limits : (stack_min_size ≤ clamp_size size) × (clamp_size size ≤ stack_max_size)
    limits = clamp_size-bounds size

    up : Ceiling k (clamp_size size) wanted
    up = align_up-Ceiling k (clamp_size size) (omega arith) (omega (arith, page, limits.1))

    small : (wanted + 2 ^ k) % size_mod ≡ wanted + 2 ^ k
    small = omega (arith, page, limits.1, up.near)

alloc_with_guard_fails :
    (mapped : Option Ptr) (ret : ℤ) (size page_size : ℕ) (rs : List Region)
    → (mapped ≡ none) ⊎ ((ret ==ℤ pos 0) ≡ false)
    → platform_alloc_with_guard size page_size (record { mapped = mapped; protect_ret = ret }) rs
      ≡ some (none, rs)
unfolding platform_alloc_with_guard
alloc_with_guard_fails none ret size page_size rs bad = refl
alloc_with_guard_fails (some mem) ret size page_size rs (inl e) = cc
alloc_with_guard_fails (some mem) ret size page_size rs (inr no_guard) =
    let here : (mem == mem && (size + page_size) % size_mod == (size + page_size) % size_mod)
        ≡ true =
      ground arith in
    rw (no_guard, if-true _ _ _ here)

-- Where `mmap` fails, or `mprotect` does, it returns -1, clears `*alloc` and leaves no mapping behind.
pub stack_alloc_create-fails :
    (alloc size page_size : ℕ) (m : Mapping) (s : Stacks)
    → alloc ≢ null
    → (m.mapped ≡ none) ⊎ ((m.protect_ret ==ℤ pos 0) ≡ false)
    → stack_alloc_create alloc size page_size m s
      ≡ some (negsuc 0, record { alloc = cleared; regions = s.regions })
unfolding stack_alloc_create
stack_alloc_create-fails alloc size page_size m s ne bad =
    let failed =
      alloc_with_guard_fails m.mapped m.protect_ret (align_up (clamp_size size) page_size) page_size
        s.regions bad in
    rw (if-false _ _ _ (not_null _ ne), failed)

-- `r` starts where no mapping of the list does.
abbrev pub starts_at : Ptr → List Region → Bool
starts_at p [] = false
starts_at p (r ∷ rs) = (r.start == p) || starts_at p rs

munmap-append :
    (p n : ℕ) (rs ss : List Region) (r : Region)
    → r.start ≡ p
    → r.size ≡ n
    → starts_at p rs ≡ false
    → munmap p n (rs ++ r ∷ ss) ≡ some (rs ++ ss)
munmap-append p n [] ss r e f out = ground arith
munmap-append p n (q ∷ rs) ss r e f out =
    let ih = munmap-append p n rs ss r e f (ground arith) in
    let other : (q.start == p && q.size == n) ≡ false = ground arith in
    rw (if-false _ _ _ other, ih)

-- `stack_alloc_destroy` unmaps exactly the mapping of the stack, guard page included, and clears the
-- description, so a second call does nothing.
pub stack_alloc_destroy-unmaps :
    (alloc page_size : ℕ) (a : StackAlloc) (r : Region) (rs ss : List Region)
    → alloc ≢ null
    → r.start ≢ null
    → IsStack page_size a r
    → starts_at r.start rs ≡ false
    → (stack_alloc_destroy alloc page_size (record { alloc = a; regions = rs ++ r ∷ ss })
        ≡ some (record { alloc = cleared; regions = rs ++ ss }))
      × (stack_alloc_destroy alloc page_size (record { alloc = cleared; regions = rs ++ ss })
          ≡ some (record { alloc = cleared; regions = rs ++ ss }))
unfolding stack_alloc_destroy platform_free_with_guard
stack_alloc_destroy-unmaps alloc page_size a r rs ss ne live is out = (
  rw (
    if-false _ _ _ some_base,
    if-false _ _ _ some_stack,
    munmap-append (a.base + page_size - page_size) a.total_size rs ss r (sym here) (sym is.whole)
        (rw here out),
  ),
  rw (not_null _ ne),
)
  where
    some_base : (alloc == null || a.base == null) ≡ false
    some_base = ground (arith, is.base)

    some_stack : (a.base + page_size == null) ≡ false
    some_stack = ground (arith, is.base)

    here : a.base + page_size - page_size ≡ r.start
    here = omega (arith, is.base)
