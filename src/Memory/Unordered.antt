-- ===== src/Memory/Unordered.antt =====
-- The object pool of src/memory.c without the order of its free objects.
use thread_management_librar.Base.{
  ℕ, ◌<◌, ◌≡◌, ◌≢◌, refl, sym, ◌∙◌, ap, some, List, [], ◌∷◌, Ptr, null, arith, ◌==◌, Bool-cases,
  inl, inr,
}
use mathlib.Core.Quot
use mathlib.Core.Quot.{Quot, Quot-set}
use thread_management_librar.Memory.Pool.{Pools, memory_pool_alloc, memory_pool_free}
use thread_management_librar.Memory.PoolState.{
  count, remove, Holds, memory_pool_alloc-cons, memory_pool_alloc-nil, memory_pool_free-live,
  count-remove,
}

abbrev pub SameObjects : List Ptr → List Ptr → Type 0
SameObjects xs ys = (a : Ptr) → count a xs ≡ count a ys

-- Objects, each as often as it is there, in no order.
abbrev pub Objects : Type 0
Objects = Quot SameObjects

abbrev pub nothing : Objects
nothing = Quot.mk []

unfoldable pub times : Ptr → Objects → ℕ
times a = Quot.lift (hlevel) (count a) λ xs ys same. same a

cons_same : (a : Ptr) (xs ys : List Ptr) → SameObjects xs ys → SameObjects (a ∷ xs) (a ∷ ys)
cons_same a xs ys same b = ground (arith, same b)

pub put : Ptr → Objects → Objects
put a =
    Quot.lift Quot-set (λ xs. Quot.mk (a ∷ xs)) λ xs ys same. Quot.sound (cons_same a xs ys same)

-- The order in which objects come does not matter.
pub put_comm : (a b : Ptr) (x : Objects) → put a (put b x) ≡ put b (put a x)
unfolding put
put_comm a b = Quot.ind (λ _. hlevel Quot-set) λ xs. Quot.sound λ c. omega arith

-- A pool with the objects `free` to give out and the objects `live` in use.
pub record HoldsObjects (s : Pools) (free live : Objects) : Type 0 where
  pub free_list : List Ptr
  pub live_list : List Ptr
  pub holds : Holds s free_list live_list
  pub free_same : Quot.mk free_list ≡ free
  pub live_same : Quot.mk live_list ≡ live

put-mk : (a : Ptr) (xs : List Ptr) {x : Objects} → Quot.mk xs ≡ x → Quot.mk (a ∷ xs) ≡ put a x
unfolding put
put-mk a xs e = ap (put a) e

times-mk : (a : Ptr) (xs : List Ptr) {x : Objects} → Quot.mk xs ≡ x → times a x ≡ count a xs
unfolding times
times-mk a xs e = ap (times a) (sym e)

-- What `memory_pool_alloc` does: NULL where nothing is free, or one of the free objects.
pub data Given (s : Pools) (free live : Objects) : Ptr → Pools → Type 0 where
  none_free : free ≡ nothing → Given s free live null s
  object_given :
      {a : Ptr} {s' : Pools} (rest : Objects)
      → a ≢ null
      → free ≡ put a rest
      → HoldsObjects s' rest (put a live)
      → Given s free live a s'

alloc-Given :
    (pool : Ptr) (s : Pools) (xs ys : List Ptr) {free live : Objects}
    → pool ≢ null
    → Holds s xs ys
    → Quot.mk xs ≡ free
    → Quot.mk ys ≡ live
    → (a : Ptr) × (s' : Pools) × (memory_pool_alloc pool s ≡ some (a, s')) × Given s free live a s'
alloc-Given pool s [] ys ne h ef el =
    (null, s, memory_pool_alloc-nil pool s ys h, none_free (sym ef))
alloc-Given pool s (a ∷ xs) ys ne h ef el =
    let (s', run, after, _) = memory_pool_alloc-cons pool s a xs ys ne h in
    (
      a,
      s',
      run,
      object_given (Quot.mk xs) h.chain.0 (sym ef ∙ put-mk a xs refl) (record {
        free_list = xs;
        live_list = a ∷ ys;
        holds = after;
        free_same = refl;
        live_same = put-mk a ys el;
      }),
    )

-- What `memory_pool_free` does: an object in use is given back and is free again; nothing is said of another pointer.
pub data GivenBack (pool a : Ptr) (s : Pools) (free live : Objects) : Type 0 where
  not_in_use : times a live ≡ 0 → GivenBack pool a s free live
  given_back :
      {s' : Pools} (rest : Objects)
      → live ≡ put a rest
      → memory_pool_free pool a s ≡ some s'
      → HoldsObjects s' (put a free) rest
      → GivenBack pool a s free live

free-GivenBack :
    (pool a : Ptr) (s : Pools) {free live : Objects}
    → pool ≢ null
    → 0 < times a live
    → HoldsObjects s free live
    → GivenBack pool a s free live
free-GivenBack pool a s ne used h =
    let here : 0 < count a h.live_list = omega (arith, times-mk a h.live_list h.live_same) in
    let (s', run, after) = memory_pool_free-live pool s a h.free_list h.live_list ne h.holds here in
    let left = remove a h.live_list in
    given_back (Quot.mk left)
      (sym h.live_same ∙ Quot.sound (count-remove a h.live_list here) ∙ put-mk a left refl) run
      (record {
        free_list = a ∷ h.free_list;
        live_list = left;
        holds = after;
        free_same = put-mk a h.free_list h.free_same;
        live_same = refl;
      })

-- The object pool implements two collections of objects without an order, those that are free and those in
-- use, also when one of them is empty: on a pool that is not NULL, memory_pool_alloc returns one of the free objects, which
-- then is in use, or returns NULL and changes nothing if there is none; and memory_pool_free of any pointer that
-- is in use makes that object free again.
pub memory_pool-Objects :
    (pool a : Ptr) (s : Pools) (free live : Objects)
    → pool ≢ null
    → HoldsObjects s free live
    → ((b : Ptr) × (s' : Pools) × (memory_pool_alloc pool s ≡ some (b, s'))
        × Given s free live b s')
      × GivenBack pool a s free live
memory_pool-Objects pool a s free live ne h = (
  alloc-Given pool s h.free_list h.live_list ne h.holds h.free_same h.live_same,
  elim (Bool-cases (times a live == 0)) [
    | inl unused ↦ not_in_use (ground arith)
    | inr used ↦ free-GivenBack pool a s ne (ground arith) h
  ],
)

-- Two objects that are given back in either order leave the same pool, up to the order in which its objects
-- are given out.
pub memory_pool_free_comm :
    (pool a b : Ptr) (s : Pools) (free live : Objects)
    → pool ≢ null
    → a ≢ b
    → 0 < times a live
    → 0 < times b live
    → HoldsObjects s free live
    → (rest : Objects) × (s₁ s₂ t₁ t₂ : Pools) × (memory_pool_free pool a s ≡ some s₁)
      × (memory_pool_free pool b s₁ ≡ some s₂)
      × (memory_pool_free pool b s ≡ some t₁)
      × (memory_pool_free pool a t₁ ≡ some t₂)
      × HoldsObjects s₂ (put a (put b free)) rest
      × HoldsObjects t₂ (put a (put b free)) rest
memory_pool_free_comm pool a b s free live ne other used_a used_b h =
    let xs = h.free_list in
    let ys = h.live_list in
    let here_a : 0 < count a ys = omega (arith, times-mk a ys h.live_same) in
    let here_b : 0 < count b ys = omega (arith, times-mk b ys h.live_same) in
    let still_b : 0 < count b (remove a ys) = ground (arith, count-remove a ys here_a b) in
    let still_a : 0 < count a (remove b ys) = ground (arith, count-remove b ys here_b a) in
    let (s₁, run_a, holds_a) = memory_pool_free-live pool s a xs ys ne h.holds here_a in
    let (s₂, run_ab, holds_ab) =
      memory_pool_free-live pool s₁ b (a ∷ xs) (remove a ys) ne holds_a still_b in
    let (t₁, run_b, holds_b) = memory_pool_free-live pool s b xs ys ne h.holds here_b in
    let (t₂, run_ba, holds_ba) =
      memory_pool_free-live pool t₁ a (b ∷ xs) (remove b ys) ne holds_b still_a in
    let both : Quot.mk (b ∷ a ∷ xs) ≡ put b (put a free) =
      put-mk b (a ∷ xs) (put-mk a xs h.free_same) in
    let same_left : SameObjects (remove b (remove a ys)) (remove a (remove b ys)) = λ c. omega (
      arith,
      count-remove a ys here_a c,
      count-remove b (remove a ys) still_b c,
      count-remove b ys here_b c,
      count-remove a (remove b ys) still_a c,
    ) in
    (
      Quot.mk (remove b (remove a ys)),
      s₁,
      s₂,
      t₁,
      t₂,
      run_a,
      run_ab,
      run_b,
      run_ba,
      record {
        free_list = _;
        live_list = _;
        holds = holds_ab;
        free_same = both ∙ put_comm b a free;
        live_same = refl;
      },
      record {
        free_list = _;
        live_list = _;
        holds = holds_ba;
        free_same = put-mk a (b ∷ xs) (put-mk b xs h.free_same);
        live_same = sym (Quot.sound same_left);
      },
    )
