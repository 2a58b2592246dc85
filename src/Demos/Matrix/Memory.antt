-- ===== src/Demos/Matrix/Memory.antt =====
-- The memory of `main` in examples/matrix_multiply.c.
use thread_management_librar.Base.{
  ℕ, ◌+◌, ◌*◌, ◌≡◌, refl, Bool, true, false, ◌&&◌, if◌then◌else◌, Option, none, some, arith,
  Bool-cases, inl, inr,
}
use Prim.Native.String.{String}
use thread_management_librar.Demos.Visual.Timed.{Real}
use thread_management_librar.Demos.Matrix.{Double, Matrix, matrix_create, matrix_destroy}
use thread_management_librar.Demos.Matrix.Program.{Measured, is_some, matrix_size, main}

-- Whether the matrix with this number was created.
abbrev pub has_matrix : {F : Type 0} → Measured F → ℕ → Bool
has_matrix m k = m.got_struct k && m.got_data k

abbrev pub one_if : Bool → ℕ
one_if true = 1
one_if false = 0

module _ {F : Type 0} (d : Double F) where
  create-live :
      (rows cols live : ℕ) (got_struct got_data : Bool)
      → ((matrix_create d rows cols got_struct got_data live).1
          ≡ live + 2 * one_if (got_struct && got_data))
        × (is_some (matrix_create d rows cols got_struct got_data live).0
            ≡ (got_struct && got_data))
  unfolding matrix_create
  create-live rows cols live true true = (omega arith, refl)
  create-live rows cols live true false = (omega arith, refl)
  create-live rows cols live false b = (omega arith, refl)

  destroys-live :
      (a b c e : Option (Matrix F)) (live : ℕ)
      → (is_some a && is_some b && is_some c && is_some e) ≡ true
      → live ≡ 8
      → matrix_destroy e (matrix_destroy c (matrix_destroy b (matrix_destroy a live))) ≡ 0
  unfolding matrix_destroy
  destroys-live none b c e live all full = absurd (ground (arith, all))
  destroys-live (some a) none c e live all full = absurd (ground (arith, all))
  destroys-live (some a) (some b) none e live all full = absurd (ground (arith, all))
  destroys-live (some a) (some b) (some c) none live all full = absurd (ground (arith, all))
  destroys-live (some a) (some b) (some c) (some e) live all full = omega (arith, full)

all_four :
    (a b c e : Bool) → (a && b && c && e) ≡ true → one_if a + one_if b + one_if c + one_if e ≡ 4
all_four a b c e all = ground (arith, all)

-- `main` returns 0 exactly if it gets all four matrices, and then has freed all its memory; else it returns 1
-- and leaves the two blocks of each matrix that it did get.
pub main_memory :
    {F : Type 0} (d : Double F) (r : Real F) (cores : ℕ) (version : String) (m : Measured F)
    → let all = has_matrix m 0 && has_matrix m 1 && has_matrix m 2 && has_matrix m 3 in
      let got =
        one_if (has_matrix m 0)
        + one_if (has_matrix m 1)
        + one_if (has_matrix m 2)
        + one_if (has_matrix m 3) in
      ((main d r cores version m).status ≡ (if all then 0 else 1))
      × ((main d r cores version m).live ≡ (if all then 0 else 2 * got))
unfolding main
main_memory d r cores version m =
    let (l₁, s₁) = create-live d matrix_size matrix_size 0 (m.got_struct 0) (m.got_data 0) in
    let x₁ = matrix_create d matrix_size matrix_size (m.got_struct 0) (m.got_data 0) 0 in
    let (l₂, s₂) = create-live d matrix_size matrix_size x₁.1 (m.got_struct 1) (m.got_data 1) in
    let x₂ = matrix_create d matrix_size matrix_size (m.got_struct 1) (m.got_data 1) x₁.1 in
    let (l₃, s₃) = create-live d matrix_size matrix_size x₂.1 (m.got_struct 2) (m.got_data 2) in
    let x₃ = matrix_create d matrix_size matrix_size (m.got_struct 2) (m.got_data 2) x₂.1 in
    let (l₄, s₄) = create-live d matrix_size matrix_size x₃.1 (m.got_struct 3) (m.got_data 3) in
    let x₄ = matrix_create d matrix_size matrix_size (m.got_struct 3) (m.got_data 3) x₃.1 in
    let total : x₄.1
        ≡ 2
          * (one_if (has_matrix m 0)
              + one_if (has_matrix m 1)
              + one_if (has_matrix m 2)
              + one_if (has_matrix m 3)) =
      omega (arith, l₁, l₂, l₃, l₄) in
    elim (Bool-cases (has_matrix m 0 && has_matrix m 1 && has_matrix m 2 && has_matrix m 3)) [
      | inl all ↦
          let there : (is_some x₁.0 && is_some x₂.0 && is_some x₃.0 && is_some x₄.0) ≡ true =
            rw (s₁, s₂, s₃, s₄) all in
          let four =
            all_four (has_matrix m 0) (has_matrix m 1) (has_matrix m 2) (has_matrix m 3) all in
          rw (there, all)
            (refl, destroys-live d x₁.0 x₂.0 x₃.0 x₄.0 x₄.1 there (omega (arith, total, four)))
      | inr some_fail ↦
          let missing : (is_some x₁.0 && is_some x₂.0 && is_some x₃.0 && is_some x₄.0) ≡ false =
            rw (s₁, s₂, s₃, s₄) some_fail in
          rw (missing, some_fail) (refl, total)
    ]
