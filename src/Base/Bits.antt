-- ===== src/Base/Bits.antt =====
-- Masks that clear low bits: `x & ~(a - 1)` rounds down to a multiple of `a`, for a power of two.
use Prim.Native.Nat.{
  ℕ, zero, suc, ◌+◌, ◌*◌, ◌-◌, ◌/◌, ◌%◌, ◌^◌, ◌≤◌, ◌<◌, min, bit_and, digits, bit_and-bitwise,
}
use mathlib.Core.Path.{◌≡◌, refl, ap, ◌∙◌, sym}
use native.Mathlib.Omega.{arith}
use native.Mathlib.Nat.{pow-suc, zero-add, suc-add}
use thread_management_librar.Base.Tests.{size_mod}
use thread_management_librar.Base.Pointers.{align_up}

-- The native operation is the digit recursion; more rounds than digits change nothing.
abbrev rounds : ℕ → ℕ → ℕ → ℕ
rounds n a b = digits (λ b. zero) min n a b

rounds_enough : (n m a b : ℕ) → a ≤ n → a ≤ m → rounds n a b ≡ rounds m a b
rounds_enough zero zero a b p q = refl
rounds_enough zero (suc m) zero b p q = refl
rounds_enough zero (suc m) (suc a) b p q = absurd (omega arith)
rounds_enough (suc n) zero zero b p q = refl
rounds_enough (suc n) zero (suc a) b p q = absurd (omega arith)
rounds_enough (suc n) (suc m) zero b p q = refl
rounds_enough (suc n) (suc m) (suc a) b p q =
    omega (arith, rounds_enough n m (suc a / 2) (b / 2) (omega arith) (omega arith))

zero-bit_and : (b : ℕ) → bit_and 0 b ≡ 0
zero-bit_and b = bit_and-bitwise 0 b

-- One binary digit at a time.
bit_and_digit : (a b : ℕ) → bit_and a b ≡ bit_and (a / 2) (b / 2) * 2 + min (a % 2) (b % 2)
bit_and_digit zero b = omega (arith, zero-bit_and b, zero-bit_and (b / 2))
bit_and_digit (suc a) b = omega (
  arith,
  bit_and-bitwise (suc a) b,
  bit_and-bitwise (suc a / 2) (b / 2),
  rounds_enough a (suc a / 2) (suc a / 2) (b / 2) (omega arith) (omega arith),
)

bit_and_even : (a m : ℕ) → bit_and a (2 * m) ≡ 2 * bit_and (a / 2) m
bit_and_even a m =
    let half : 2 * m / 2 ≡ m = omega arith in
    omega (arith, bit_and_digit a (2 * m), ap (bit_and (a / 2)) half)

bit_and_odd : (a m : ℕ) → bit_and a (2 * m + 1) ≡ 2 * bit_and (a / 2) m + a % 2
bit_and_odd a m =
    let half : (2 * m + 1) / 2 ≡ m = omega arith in
    omega (arith, bit_and_digit a (2 * m + 1), ap (bit_and (a / 2)) half)

pow_two : (j : ℕ) → 2 ^ suc j ≡ 2 * 2 ^ j
pow_two j = omega (arith, pow-suc 2 j)

pub pow_pos : (j : ℕ) → 0 < 2 ^ j
pow_pos zero = omega arith
pow_pos (suc j) = omega (arith, pow_two j, pow_pos j)

pow_add : (k j : ℕ) → 2 ^ (k + j) ≡ 2 ^ k * 2 ^ j
pow_add zero j = omega (arith, ap (λ (n : ℕ). 2 ^ n) (zero-add j))
pow_add (suc k) j = omega (
  arith,
  ap (λ (n : ℕ). 2 ^ n) (suc-add k j),
  pow_two (k + j),
  pow_two k,
  ap (λ (n : ℕ). n * 2 ^ j) (pow_two k),
  ap (λ (n : ℕ). 2 * n) (pow_add k j),
)

-- A mask of `j` ones keeps a number of `j` bits.
bit_and_ones : (j a : ℕ) → a < 2 ^ j → bit_and a (2 ^ j - 1) ≡ a
bit_and_ones zero zero h = refl
bit_and_ones zero (suc a) h = absurd (omega arith)
bit_and_ones (suc j) a h =
    let double = pow_two j in
    let less_one : 2 ^ suc j - 1 ≡ 2 * (2 ^ j - 1) + 1 = omega (arith, pow_pos j) in
    rw less_one (omega (arith, bit_and_odd a (2 ^ j - 1), bit_and_ones j (a / 2) (omega arith)))

-- `y` is `x` with what is above the last multiple of `2 ^ k` taken away.
pub record Floor (k x y : ℕ) : Type 0 where
  pub part : ℕ
  pub multiple : y ≡ 2 ^ k * part
  pub below : y ≤ x
  pub near : x < y + 2 ^ k

bit_and-Floor : (k j x : ℕ) → x < 2 ^ (k + j) → Floor k x (bit_and x (2 ^ k * (2 ^ j - 1)))
bit_and-Floor zero j x h =
    let mask : 2 ^ 0 * (2 ^ j - 1) ≡ 2 ^ j - 1 = omega arith in
    let all = bit_and_ones j x (rw zero-add at h) in
    rw (mask, all)
      (record { part = x; multiple = omega arith; below = omega arith; near = omega arith })
bit_and-Floor (suc k) j x h =
    let mask : 2 ^ suc k * (2 ^ j - 1) ≡ 2 * (2 ^ k * (2 ^ j - 1)) =
      omega (arith, ap (λ (n : ℕ). n * (2 ^ j - 1)) (pow_two k)) in
    let f =
      bit_and-Floor k j (x / 2)
        (omega (arith, ap (λ (n : ℕ). 2 ^ n) (suc-add k j), pow_two (k + j))) in
    rw (mask, bit_and_even x (2 ^ k * (2 ^ j - 1)))
      (record {
        part = f.part;
        multiple = omega (arith, f.multiple, pow_two k, ap (λ (n : ℕ). n * f.part) (pow_two k));
        below = omega (arith, f.below);
        near = omega (arith, f.near, pow_two k);
      })

sum_back : (k : ℕ) → k ≤ 64 → k + (64 - k) ≡ 64
sum_back k le = omega arith

split_word : (k : ℕ) → k ≤ 64 → size_mod ≡ 2 ^ k * 2 ^ (64 - k)
split_word k le = ap (λ (n : ℕ). 2 ^ n) (sym (sum_back k le)) ∙ pow_add k (64 - k)

times_pred : (a b : ℕ) → 0 < b → a * (b - 1) + a ≡ a * b
times_pred a zero h = absurd (omega arith)
times_pred a (suc b) h =
    let e : suc b - 1 ≡ b = omega arith in omega (arith, ap (λ (n : ℕ). a * n) e)

-- `align_up` is the least multiple of `2 ^ k` that is not below `x`, unless the sum wraps.
pub record Ceiling (k x y : ℕ) : Type 0 where
  pub part : ℕ
  pub multiple : y ≡ 2 ^ k * part
  pub above : x ≤ y
  pub near : y < x + 2 ^ k

pub align_up-Ceiling : (k x : ℕ) → k ≤ 64 → x + 2 ^ k ≤ size_mod → Ceiling k x (align_up x (2 ^ k))
unfolding align_up
align_up-Ceiling k x le fits =
    let mask : size_mod - 1 - (2 ^ k - 1) ≡ 2 ^ k * (2 ^ (64 - k) - 1) =
      omega
        (arith, pow_pos k, split_word k le, times_pred (2 ^ k) (2 ^ (64 - k)) (pow_pos (64 - k))) in
    let small : (x + 2 ^ k - 1) % size_mod ≡ x + 2 ^ k - 1 = omega (arith, pow_pos k) in
    let f =
      bit_and-Floor k (64 - k) (x + 2 ^ k - 1)
        (omega (arith, pow_pos k, ap (λ (n : ℕ). 2 ^ n) (sum_back k le))) in
    rw (mask, small)
      (record {
        part = f.part;
        multiple = f.multiple;
        above = omega (arith, f.near, pow_pos k);
        near = omega (arith, f.below, pow_pos k);
      })

pub pow_mono : (k j : ℕ) → k ≤ j → 2 ^ k ≤ 2 ^ j
pow_mono zero j h = omega (arith, pow_pos j)
pow_mono (suc k) zero h = absurd (omega arith)
pow_mono (suc k) (suc j) h = omega (arith, pow_two k, pow_two j, pow_mono k j (omega arith))
