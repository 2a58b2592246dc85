-- ===== src/Base/Pointers.antt =====
-- Addresses, and NULL.
use Prim.Native.Nat.{ℕ, ◌+◌, ◌-◌, ◌%◌, bit_and}
use mathlib.Core.Path.{◌≡◌}
use mathlib.Core.Logic.{◌≢◌}
use mathlib.Core.Bool.{false}
use native.Mathlib.Omega.{arith}
use thread_management_librar.Base.Tests.{◌==◌, size_mod}

abbrev pub Ptr : Type 0
Ptr = ℕ

abbrev pub null : Ptr
null = 0

pub not_null : (p : Ptr) → p ≢ null → (p == null) ≡ false
not_null p ne = ground arith

-- `(x + a - 1) & ~(a - 1)` on a `size_t`.
unfoldable pub align_up : (x a : ℕ) → ℕ
align_up x a = bit_and ((x + a - 1) % size_mod) (size_mod - 1 - (a - 1))
