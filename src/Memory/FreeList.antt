-- ===== src/Memory/FreeList.antt =====
-- The loop of `memory_pool_create` in src/memory.c that strings the objects of a pool together.
use thread_management_librar.Base.{
  ℕ, zero, suc, ◌+◌, ◌*◌, ◌≤◌, ◌<◌, ◌≡◌, ◌≢◌, refl, true, false, Option, none, some, List, ◌∷◌,
  ◌==◌, ltb, if◌then◌else◌, Ptr, null, length, arith, if-true, Bool-cases, ap, inl, inr,
}
use native.Mathlib.Nat.{add-zero, add-suc, suc-add}
use thread_management_librar.Memory.Pool.{Heap, in_block, link, write_next, build_free_list}
use thread_management_librar.Memory.PoolState.{count, first, FreeChain, FreeChain-link}

-- The objects `0` to `n - 1` of a block at `base`, strung together.
pub record Built (base size n : ℕ) (word : Ptr → Option Ptr) (free : List Ptr) : Type 0 where
  pub chain : FreeChain word free
  pub once : (a : Ptr) → count a free ≤ 1
  pub objects : (a : Ptr) → 0 < count a free → (i : ℕ) × (i < n) × (a ≡ base + i * size)
  pub all : length free ≡ n

pub times_mono : (a b c : ℕ) → a ≤ b → a * c ≤ b * c
times_mono a b c h = grind arith

pub scaled : (i n size : ℕ) → i < n → i * size + size ≤ n * size
scaled i n size h = grind arith

Built-suc :
    (base size n : ℕ) (word : Ptr → Option Ptr) (free : List Ptr)
    → base ≢ null
    → 0 < size
    → Built base size n word free
    → Built base size (suc n) (link word (base + n * size) (first free)) ((base + n * size) ∷ free)
Built-suc base size n word free placed pos b = record {
  chain = (omega arith, ground arith, FreeChain-link word _ _ free new b.chain);
  once = λ a. elim (Bool-cases (a == base + n * size)) [
    | inl here ↦ ground (arith, new, ap (λ (x : Ptr). count x free) (same a here))
    | inr other ↦ ground (arith, b.once a)
  ];
  objects = λ a some_where. elim (Bool-cases (a == base + n * size)) [
    | inl here ↦ (n, omega arith, same a here)
    | inr other ↦ let (i, lt, e) = b.objects a (ground arith) in (i, omega arith, e)
  ];
  all = omega (arith, b.all);
}
  where
    same : (a : Ptr) → (a == base + n * size) ≡ true → a ≡ base + n * size
    same a here = ground arith

    new : count (base + n * size) free ≡ 0
    new = elim (Bool-cases (ltb 0 (count (base + n * size) free))) [
      | inl some_where ↦
          let (i, lt, e) = b.objects (base + n * size) (ground arith) in
          absurd (omega (arith, scaled i n size lt))
      | inr nowhere ↦ ground arith
    ]

pub next_object : (base n size : ℕ) → base + n * size + size ≡ base + suc n * size
next_object base n size = omega arith

-- One round, as a test.
build_step :
    (k size ptr l : ℕ) (h : Heap)
    → build_free_list (suc k) size ptr l h ≡ (
        if in_block ptr h.blocks
        then build_free_list k size (ptr + size) ptr (record h { word = link h.word ptr l })
        else none)
unfolding build_free_list write_next
build_step k size ptr l h = ground arith

pub build-Built :
    (k base size n : ℕ) (h : Heap) (free : List Ptr)
    → base ≢ null
    → 0 < size
    → Built base size n h.word free
    → ((i : ℕ) → i < n + k → in_block (base + i * size) h.blocks ≡ true)
    → (h' : Heap) × (free' : List Ptr) × (build_free_list k size (base + n * size) (first free) h
        ≡ some (first free', h'))
      × Built base size (n + k) h'.word free'
      × (h'.blocks ≡ h.blocks)
unfolding build_free_list
build-Built zero base size n h free placed pos b room = (h, free, refl, rw add-zero b, refl)
build-Built (suc k) base size n h free placed pos b room =
    let step = record h { word = link h.word (base + n * size) (first free) } in
    let (h', free', ran, b', same) =
      build-Built k base size (suc n) step ((base + n * size) ∷ free) placed pos
        (Built-suc base size n h.word free placed pos b) (λ i lt. room i (omega arith)) in
    (
      h',
      free',
      rw (build_step, if-true _ _ _ (room n (omega arith)), next_object base n size) ran,
      rw (add-suc, ← suc-add) b',
      same,
    )

-- A round whose write lies outside the blocks stops the loop with a fault.
pub build-fault :
    (m k base size n l : ℕ) (h : Heap)
    → m < k
    → in_block (base + (n + m) * size) h.blocks ≡ false
    → build_free_list k size (base + n * size) l h ≡ none
build-fault m zero base size n l h lt out = absurd (omega arith)
build-fault zero (suc k) base size n l h lt out =
    let here : in_block (base + n * size) h.blocks ≡ false = rw add-zero at out in
    rw (build_step, here)
build-fault (suc m) (suc k) base size n l h lt out =
    elim (Bool-cases (in_block (base + n * size) h.blocks)) [
      | inr fault ↦ rw (build_step, fault)
      | inl fine ↦
          rw (build_step, fine, next_object base n size)
            (build-fault m k base size (suc n) _
              (record h { word = link h.word (base + n * size) l }) (omega arith)
              (rw (suc-add, ← add-suc) out))
    ]
