-- ===== src/Base/Loops.antt =====
-- Counted loops.
use Prim.Native.Nat.{ℕ, zero, suc, ◌+◌, ◌≤◌, ◌<◌}
use mathlib.Core.Path.{◌≡◌}
use native.Mathlib.Omega.{arith}
use mathlib.Core.Path.{subst}

-- `for (k = first; k < first + rounds; k++) s = body(k, s);`
unfoldable pub for_loop {ℓ} : {S : Type ℓ} → (rounds first : ℕ) → (ℕ → S → S) → S → S
for_loop zero first body s = s
for_loop (suc rounds) first body s = for_loop rounds (first + 1) body (body first s)

-- What holds at the start and is kept by each round holds at the end.
pub for_loop-keeps {ℓ κ} :
    {S : Type ℓ} (P : ℕ → S → Type κ) (body : ℕ → S → S) (rounds first last : ℕ) (s : S)
    → first + rounds ≡ last
    → ((k : ℕ) (x : S) → first ≤ k → k < last → P k x → P (k + 1) (body k x))
    → P first s
    → P last (for_loop rounds first body s)
unfolding for_loop
for_loop-keeps P body zero first last s e keep start =
    subst (λ (k : ℕ). P k s) (let e' : first ≡ last = omega arith in e') start
for_loop-keeps P body (suc rounds) first last s e keep start =
    for_loop-keeps P body rounds (first + 1) last (body first s) (omega arith)
      (λ k x from below h. keep k x (omega arith) below h)
      (keep first s (omega arith) (omega arith) start)
