-- ===== src/Base/Alone.antt =====
-- At most one of `n` threads passes a test.
use Prim.Native.Nat.{ℕ, ◌<◌}
use mathlib.Core.Path.{◌≡◌}
use mathlib.Core.Logic.{inl, inr}
use mathlib.Core.Bool.{Bool, true}
use native.Mathlib.Omega.{arith}
use thread_management_librar.Base.Tests.{◌==◌, Bool-cases}
use thread_management_librar.Base.Threads.{assign}

abbrev pub Alone {ℓ} : {A : Type ℓ} → (A → Bool) → ℕ → (ℕ → A) → Type 0
Alone test n f = (t u : ℕ) → t < n → u < n → test (f t) ≡ true → test (f u) ≡ true → t ≡ u

-- After an assignment, where the new value passes only if no other did.
pub Alone-assign {ℓ} :
    {A : Type ℓ} (test : A → Bool) (n : ℕ) (f : ℕ → A) (i : ℕ) (a : A)
    → Alone test n f
    → (test a ≡ true → (u : ℕ) → u < n → test (f u) ≡ true → i ≡ u)
    → Alone test n (assign f i a)
Alone-assign test n f i a h free t u lt lu ht hu = elim (Bool-cases (t == i)) [
  | inl et ↦ elim (Bool-cases (u == i)) [
    | inl eu ↦ ground arith
    | inr nu ↦ let same = free (rw et at ht) u lu (rw nu at hu) in ground (arith, same)
  ]
  | inr nt ↦ elim (Bool-cases (u == i)) [
    | inl eu ↦ let same = free (rw eu at hu) t lt (rw nt at ht) in ground (arith, same)
    | inr nu ↦ h t u lt lu (rw nt at ht) (rw nu at hu)
  ]
]
