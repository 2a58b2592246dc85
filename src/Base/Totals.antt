-- ===== src/Base/Totals.antt =====
-- The sum of a weight over the first `n` threads.
use Prim.Native.Nat.{ℕ, zero, suc, ◌+◌, ◌*◌, ◌≤◌, ◌<◌}
use mathlib.Core.Path.{◌≡◌, refl}
use mathlib.Core.Logic.{inl, inr}
use mathlib.Core.Bool.{false}
use native.Mathlib.Omega.{arith}
use thread_management_librar.Base.Tests.{◌==◌, ltb, Bool-cases}
use thread_management_librar.Base.Threads.{assign}

module _ {ℓ} {A : Type ℓ} (weight : A → ℕ) where
  unfoldable pub total : ℕ → (ℕ → A) → ℕ
  total zero f = 0
  total (suc n) f = total n f + weight (f n)

  pub total-beyond : (n i : ℕ) (f : ℕ → A) (a : A) → n ≤ i → total n (assign f i a) ≡ total n f
  unfolding total
  total-beyond zero i f a h = refl
  total-beyond (suc n) i f a h = ground (arith, total-beyond n i f a)

  -- An assignment trades the old value's weight for the new one's.
  pub total-assign :
      (n i : ℕ) (f : ℕ → A) (a : A)
      → i < n
      → total n (assign f i a) + weight (f i) ≡ total n f + weight a
  unfolding total
  total-assign zero i f a h = absurd (omega arith)
  total-assign (suc n) i f a h = elim (Bool-cases (ltb i n)) [
    | inl below ↦ ground (arith, total-assign n i f a)
    | inr last ↦ ground (arith, total-beyond n i f a)
  ]

  -- `total-assign` where the old value is known by an equation.
  pub total-trade :
      (n i : ℕ) (f : ℕ → A) (a b : A)
      → i < n
      → f i ≡ a
      → total n (assign f i b) + weight a ≡ total n f + weight b
  total-trade n i f a b lt e = rw e at (total-assign n i f b lt)

  pub total-const : (n c : ℕ) (f : ℕ → A) → ((i : ℕ) → i < n → weight (f i) ≡ c) → total n f ≡ n * c
  unfolding total
  total-const zero c f h = omega arith
  total-const (suc n) c f h =
      omega (arith, total-const n c f (λ i lt. h i (omega arith)), h n (omega arith))

  pub total-one : (n i : ℕ) (f : ℕ → A) → i < n → weight (f i) ≤ total n f
  unfolding total
  total-one zero i f lt = absurd (omega arith)
  total-one (suc n) i f lt = elim (Bool-cases (ltb i n)) [
    | inl below ↦ ground (arith, total-one n i f)
    | inr last ↦ let same : i ≡ n = ground arith in ground arith
  ]

  -- Two different threads weigh no more than all together.
  pub total-two :
      (n i j : ℕ) (f : ℕ → A) (nothing : A)
      → weight nothing ≡ 0
      → i < n
      → j < n
      → (i == j) ≡ false
      → weight (f i) + weight (f j) ≤ total n f
  total-two n i j f nothing empty li lj apart =
      let rest : weight (assign f j nothing i) ≤ total n (assign f j nothing) =
        total-one n i (assign f j nothing) li in
      omega (arith, rw apart at rest, total-assign n j f nothing lj, empty)

  -- A positive sum has a thread that weighs something.
  pub total-find : (n : ℕ) (f : ℕ → A) → 0 < total n f → (i : ℕ) × (i < n) × (0 < weight (f i))
  unfolding total
  total-find zero f h = absurd (omega arith)
  total-find (suc n) f h = elim (Bool-cases (ltb 0 (weight (f n)))) [
    | inl here ↦ (n, omega arith, ground arith)
    | inr not_here ↦ let (i, lt, e) = total-find n f (ground arith) in (i, omega arith, e)
  ]
