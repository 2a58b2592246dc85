-- ===== src/Demos/Partition.antt =====
-- How examples/hello_threads.c and examples/matrix_multiply.c cut `n` items into `k` ranges.
use thread_management_librar.Base.{
  ℕ, zero, suc, ◌+◌, ◌-◌, ◌*◌, ◌/◌, ◌≤◌, ◌<◌, ◌≡◌, ◌==◌, ltb, Bool-cases, if◌then◌else◌, if-true,
  if-false, inl, inr, arith,
}
use native.Mathlib.Nat.{div-mul-le_self, mul-le-mul_right}

-- `i * chunk_size`
unfoldable pub range_start : (n k i : ℕ) → ℕ
range_start n k i = i * (n / k)

-- `(i == num_chunks - 1) ? n : (i + 1) * chunk_size`
unfoldable pub range_end : (n k i : ℕ) → ℕ
range_end n k i = if i == k - 1 then n else (i + 1) * (n / k)

pub range_start-zero : (n k : ℕ) → range_start n k 0 ≡ 0
unfolding range_start
range_start-zero n k = omega arith

pub range_start-suc : (n k i : ℕ) → suc i < k → range_start n k (suc i) ≡ range_end n k i
unfolding range_start range_end
range_start-suc n k i h = grind arith

pub range_end-last : (n k i : ℕ) → suc i ≡ k → range_end n k i ≡ n
unfolding range_end
range_end-last n k i h = ground arith

below_all : (n k i : ℕ) → i < k → i * (n / k) ≤ n
below_all n k i h =
    omega
      (arith, div-mul-le_self n k, mul-le-mul_right (n / k) (let le : i ≤ k = omega arith in le))

start_le_n : (n k i : ℕ) → i < k → range_start n k i ≤ n
unfolding range_start
start_le_n n k i h = below_all n k i h

pub start_le_end : (n k i : ℕ) → i < k → range_start n k i ≤ range_end n k i
unfolding range_start range_end
start_le_end n k i h = elim (Bool-cases (i == k - 1)) [
  | inl last ↦ rw (if-true _ n ((i + 1) * (n / k)) last) (below_all n k i h)
  | inr inner ↦ rw (if-false _ n ((i + 1) * (n / k)) inner) (omega arith)
]

-- The range of `a`, from range `i` downwards.
range_of :
    (n k a i : ℕ)
    → i < k
    → a < range_end n k i
    → (j : ℕ) × (j < k) × (range_start n k j ≤ a) × (a < range_end n k j)
range_of n k a zero h lt = (0, h, omega (arith, range_start-zero n k), lt)
range_of n k a (suc i) h lt = elim (Bool-cases (ltb a (range_start n k (suc i)))) [
  | inl before ↦ range_of n k a i (omega arith) (ground (arith, range_start-suc n k i))
  | inr here ↦ (suc i, h, ground arith, lt)
]

pub find_range :
    (n k a : ℕ)
    → 0 < k
    → a < n
    → (i : ℕ) × (i < k) × (range_start n k i ≤ a) × (a < range_end n k i)
find_range n k a some_range within =
    range_of n k a (k - 1) (omega arith) (omega (arith, range_end-last n k (k - 1)))

-- No range goes beyond the items.
pub range_end-le : (n k i : ℕ) → i < k → range_end n k i ≤ n
range_end-le n k i h = elim (Bool-cases (ltb (i + 1) k)) [
  | inl inner ↦
      omega (arith, range_start-suc n k i (ground arith), start_le_n n k (suc i) (ground arith))
  | inr last ↦ omega (arith, range_end-last n k i (ground arith))
]
