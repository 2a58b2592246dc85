-- ===== src/Base/Threads.antt =====
-- Threads by number: a value for each, an assignment to one, and how many of the first `n` pass a
-- test.
use Prim.Native.Nat.{ℕ, zero, suc, ◌+◌, ◌≤◌, ◌<◌}
use mathlib.Core.Path.{◌≡◌, refl}
use mathlib.Core.Logic.{◌⊎◌, inl, inr}
use mathlib.Core.Bool.{Bool, true, false}
use native.Mathlib.Omega.{arith}
use thread_management_librar.Base.Tests.{◌==◌, ltb, if◌then◌else◌, Bool-cases}

abbrev pub assign {ℓ} : {A : Type ℓ} → (ℕ → A) → ℕ → A → ℕ → A
assign f i a j = if j == i then a else f j

-- What stands at `k` after an assignment.
pub assign-cases {ℓ} :
    {A : Type ℓ} (f : ℕ → A) (i : ℕ) (a : A) (k : ℕ) {b : A}
    → assign f i a k ≡ b
    → (a ≡ b) ⊎ (f k ≡ b)
assign-cases f i a k e = elim (Bool-cases (k == i)) [
  | inl here ↦ inl (rw here at e)
  | inr other ↦ inr (rw other at e)
]

abbrev pub tick : Bool → ℕ
tick b = if b then 1 else 0

module _ {ℓ} {A : Type ℓ} (test : A → Bool) where
  unfoldable pub how_many : ℕ → (ℕ → A) → ℕ
  how_many zero f = 0
  how_many (suc n) f = how_many n f + tick (test (f n))

  how_many-beyond : (n i : ℕ) (f : ℕ → A) (a : A) → n ≤ i → how_many n (assign f i a) ≡ how_many n f
  unfolding how_many
  how_many-beyond zero i f a h = refl
  how_many-beyond (suc n) i f a h = ground (arith, how_many-beyond n i f a)

  -- An assignment trades the old value's count for the new one's.
  pub how_many-assign :
      (n i : ℕ) (f : ℕ → A) (a : A)
      → i < n
      → how_many n (assign f i a) + tick (test (f i)) ≡ how_many n f + tick (test a)
  unfolding how_many
  how_many-assign zero i f a h = absurd (omega arith)
  how_many-assign (suc n) i f a h = elim (Bool-cases (ltb i n)) [
    | inl below ↦ ground (arith, how_many-assign n i f a)
    | inr last ↦ ground (arith, how_many-beyond n i f a)
  ]

  pub how_many-le : (n : ℕ) (f : ℕ → A) → how_many n f ≤ n
  unfolding how_many
  how_many-le zero f = omega arith
  how_many-le (suc n) f = ground (arith, how_many-le n f)

  pub how_many-none :
      (n : ℕ) (f : ℕ → A) → ((i : ℕ) → i < n → test (f i) ≡ false) → how_many n f ≡ 0
  unfolding how_many
  how_many-none zero f h = refl
  how_many-none (suc n) f h =
      ground (arith, how_many-none n f (λ i lt. h i (omega arith)), h n (omega arith))

  pub how_many-pos : (n i : ℕ) (f : ℕ → A) → i < n → test (f i) ≡ true → 0 < how_many n f
  unfolding how_many
  how_many-pos zero i f h e = absurd (omega arith)
  how_many-pos (suc n) i f h e = elim (Bool-cases (ltb i n)) [
    | inl below ↦ ground (arith, how_many-pos n i f)
    | inr last ↦ let same : i ≡ n = ground arith in ground arith
  ]

  -- A positive count has a thread that passes the test.
  pub find_one : (n : ℕ) (f : ℕ → A) → 0 < how_many n f → (i : ℕ) × (i < n) × (test (f i) ≡ true)
  unfolding how_many
  find_one zero f h = absurd (omega arith)
  find_one (suc n) f h = elim (Bool-cases (test (f n))) [
    | inl here ↦ (n, omega arith, here)
    | inr not_here ↦ let (i, lt, e) = find_one n f (ground arith) in (i, omega arith, e)
  ]

  -- `how_many-assign` where the old value is known by an equation.
  pub how_many-trade :
      (n i : ℕ) (f : ℕ → A) (a b : A)
      → i < n
      → f i ≡ a
      → how_many n (assign f i b) + tick (test a) ≡ how_many n f + tick (test b)
  how_many-trade n i f a b lt e = rw e at (how_many-assign n i f b lt)

  pub how_many-map :
      (n : ℕ) (f : ℕ → A) (g : A → A)
      → ((a : A) → test (g a) ≡ test a)
      → how_many n (λ i. g (f i)) ≡ how_many n f
  unfolding how_many
  how_many-map zero f g same = refl
  how_many-map (suc n) f g same = rw (how_many-map n f g same, same (f n))

-- A weaker test is passed by more.
pub how_many_mono {ℓ} :
    {A : Type ℓ} (weak strong : A → Bool)
    → ((a : A) → strong a ≡ true → weak a ≡ true)
    → (n : ℕ) (f : ℕ → A) → how_many strong n f ≤ how_many weak n f
unfolding how_many
how_many_mono weak strong implies zero f = omega arith
how_many_mono weak strong implies (suc n) f =
    ground (arith, how_many_mono weak strong implies n f, implies (f n))

-- Two tests that exclude each other are passed by no more than there are.
pub how_many_disjoint {ℓ} :
    {A : Type ℓ} (p q : A → Bool)
    → ((a : A) → p a ≡ true → q a ≡ false)
    → (n : ℕ) (f : ℕ → A) → how_many p n f + how_many q n f ≤ n
unfolding how_many
how_many_disjoint p q excludes zero f = omega arith
how_many_disjoint p q excludes (suc n) f =
    ground (arith, how_many_disjoint p q excludes n f, excludes (f n))
