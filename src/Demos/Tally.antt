-- ===== src/Demos/Tally.antt =====
-- Tasks that add to a shared atomic counter, as those of examples/ and benchmarks/ do: each execution
-- is one atomic addition.
use thread_management_librar.Base.{
  ℕ, zero, suc, ◌+◌, ◌%◌, ◌≤◌, ◌<◌, ◌≡◌, refl, sym, ◌∙◌, Bool, List, [], ◌∷◌, ltb, if◌then◌else◌,
  arith,
}
use thread_management_librar.Scheduler.Store.{Task}
use thread_management_librar.ThreadPool.Counts.{count_of}

-- On a counter that wraps around at `modulus`.
unfoldable pub atomic_fetch_add : (modulus amount counter : ℕ) → ℕ
atomic_fetch_add modulus amount counter = (counter + amount) % modulus

-- The shared state after the functions of the tasks of a list have run.
unfoldable pub run_all {ℓ} : {S : Type ℓ} → (Task → S → S) → List Task → S → S
run_all effect [] s = s
run_all effect (t ∷ ts) s = run_all effect ts (effect t s)

abbrev pub sum_of : (Task → ℕ) → List Task → ℕ
sum_of g [] = 0
sum_of g (t ∷ ts) = g t + sum_of g ts

-- The counter does not wrap around: it holds the sum.
pub run_all-exact :
    (modulus : ℕ) (amount : Task → ℕ) (effect : Task → ℕ → ℕ)
    → ((t : Task) (c : ℕ) → effect t c ≡ atomic_fetch_add modulus (amount t) c)
    → (ts : List Task) (counter : ℕ) → counter + sum_of amount ts < modulus
    → run_all effect ts counter ≡ counter + sum_of amount ts
unfolding run_all atomic_fetch_add
run_all-exact modulus amount effect adds [] counter fits = omega arith
run_all-exact modulus amount effect adds (t ∷ ts) counter fits =
    let here : (counter + amount t) % modulus ≡ counter + amount t = grind arith in
    rw (adds t counter, here)
      (omega
        (arith, run_all-exact modulus amount effect adds ts (counter + amount t) (omega arith)))

-- The smaller of the value and a cap.
abbrev capped : (cap : ℕ) → ℕ → ℕ
capped cap a = if ltb a cap then a else cap

capped-none : (g : Task → ℕ) (ts : List Task) → sum_of (λ t. capped 0 (g t)) ts ≡ 0
capped-none g [] = refl
capped-none g (t ∷ ts) = ground (arith, capped-none g ts)

capped-suc :
    (g : Task → ℕ) (cap : ℕ) (ts : List Task)
    → sum_of (λ t. capped (suc cap) (g t)) ts
      ≡ sum_of (λ t. capped cap (g t)) ts + count_of (λ t. ltb cap (g t)) ts
capped-suc g cap [] = refl
capped-suc g cap (t ∷ ts) = ground (arith, capped-suc g cap ts)

capped-all :
    (g : Task → ℕ) (cap : ℕ) (ts : List Task)
    → sum_of g ts ≤ cap
    → sum_of (λ t. capped cap (g t)) ts ≡ sum_of g ts
capped-all g cap [] h = refl
capped-all g cap (t ∷ ts) h = ground (arith, capped-all g cap ts)

module _ (g : Task → ℕ) (ts us : List Task)
    (same : (q : Task → Bool) → count_of q ts ≡ count_of q us) where
  capped-same : (cap : ℕ) → sum_of (λ t. capped cap (g t)) ts ≡ sum_of (λ t. capped cap (g t)) us
  capped-same zero = capped-none g ts ∙ sym (capped-none g us)
  capped-same (suc cap) =
      omega (
        arith,
        capped-suc g cap ts,
        capped-suc g cap us,
        capped-same cap,
        same (λ t. ltb cap (g t)),
      )

  -- Lists with the same tasks, each as often, have the same sum.
  pub sum_of-same : sum_of g ts ≡ sum_of g us
  sum_of-same =
      let cap = sum_of g ts + sum_of g us in
      sym (capped-all g cap ts (omega arith)) ∙ capped-same cap ∙ capped-all g cap us (omega arith)
