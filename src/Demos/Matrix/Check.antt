-- ===== src/Demos/Matrix/Check.antt =====
-- The loop of `main` in examples/matrix_multiply.c over the numbers of threads.
use thread_management_librar.Base.{
  ℕ, ◌*◌, ◌^◌, ◌<◌, ◌≡◌, refl, ap, map, Bool, true, false, List, [], ◌∷◌, arith, All,
}
use thread_management_librar.Demos.Matrix.{
  Double, Matrix, Multiplied, matrix_multiply_sequential, matrix_equals,
}
use thread_management_librar.Demos.Matrix.Results.{check_accepts_parallel}

-- A result after `calloc` or `memset`.
abbrev pub zero_result : {F : Type 0} → Double F → (rows cols : ℕ) → Matrix F
zero_result d rows cols = record {
  cells = λ _. d.zero_f;
  rows = rows;
  cols = cols;
  left_block = false;
}

-- `thread_counts`
abbrev pub thread_counts : List ℕ
thread_counts = 1 ∷ 2 ∷ 4 ∷ 8 ∷ []

module _ {F : Type 0} (d : Double F) (A B : Matrix F) where
  -- The rounds of the loop, each with a pool, and what matrix_equals says in each.
  pub data Checks : List ℕ → List Bool → Type 0 where
    no_more : Checks [] []
    one_more :
        {k : ℕ} {ks : List ℕ} {X : Matrix F} {answers : List Bool}
        → Multiplied d A B k (zero_result d A.rows B.cols) true X
        → Checks ks answers
        → Checks (k ∷ ks) (
            matrix_equals d (matrix_multiply_sequential d A B (zero_result d A.rows B.cols)) X
            ∷ answers)

module _ {F : Type 0} (d : Double F) (A B : Matrix F) (near : (a : F) → d.differ a a ≡ false)
    (small : A.rows * B.cols < 2 ^ 31) where
  -- All rounds of a loop over positive numbers accept.
  Checks-accept :
      {ks : List ℕ} {answers : List Bool}
      → Checks d A B ks answers
      → All (λ k. 0 < k) ks
      → answers ≡ map (λ _. true) ks
  Checks-accept no_more positive = refl
  Checks-accept (one_more {k} {ks} {X} {answers} product rest) (some_thread, positive) =
      let accepts =
        check_accepts_parallel d A B (zero_result d A.rows B.cols) k near some_thread refl small
          product in
      rw accepts (ap (λ (l : List Bool). true ∷ l) (Checks-accept rest positive))

-- The line of main that says that all parallel results are verified is true: if a pool was created in each
-- of the four rounds, for 1, 2, 4 and 8 threads, matrix_equals returns 1 in each; for fewer than 2 ^ 31
-- cells, if no value differs from itself by more than epsilon.
pub main_verifies :
    {F : Type 0} (d : Double F) (A B : Matrix F) {answers : List Bool}
    → ((a : F) → d.differ a a ≡ false)
    → A.rows * B.cols < 2 ^ 31
    → Checks d A B thread_counts answers
    → answers ≡ true ∷ true ∷ true ∷ true ∷ []
main_verifies d A B near small checks = Checks-accept d A B near small checks (omega arith)
