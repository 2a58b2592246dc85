-- ===== src/Demos/Examples/Products.antt =====
-- A product of examples/matrix_multiply.c over natural numbers: two rows, two tasks.
use thread_management_librar.Base.{ℕ, ◌+◌, ◌*◌, ◌<◌, ◌≡◌, refl, true, false, ◌==◌, not, arith}
use thread_management_librar.Base.Loops.{for_loop}
use thread_management_librar.Demos.Partition.{range_start, range_end}
use thread_management_librar.Demos.Matrix.{
  Double, Matrix, matrix_get, matrix_set, dot, matrix_multiply_sequential, split_rows, Run,
  finished, write_cell, next_row, end_task, Reach, begin, then_step, Multiplied, all_done,
}
use thread_management_librar.Demos.Matrix.Results.{parallel_equals_sequential}

abbrev naturals : Double ℕ
naturals = record {
  zero_f = 0;
  add = λ a b. a + b;
  mul = λ a b. a * b;
  differ = λ a b. not (a == b);
}

abbrev two_rows : Matrix ℕ
two_rows = record { cells = λ i. i + 3; rows = 2; cols = 1; left_block = false }

abbrev one_cell : Matrix ℕ
one_cell = record { cells = λ _. 5; rows = 1; cols = 1; left_block = false }

abbrev cleared : Matrix ℕ
cleared = record { cells = λ _. 0; rows = 2; cols = 1; left_block = false }

-- The second task writes first.
record Product : Type 0 where
  last : Run ℕ
  reach : Reach naturals two_rows one_cell 2 cleared last

both_rows : Product
unfolding split_rows range_start range_end
both_rows = record {
  last = _;
  reach =
      then_step
        (then_step
          (then_step
            (then_step
              (then_step (then_step begin (write_cell 1 1 0 (omega arith) refl refl refl))
                (write_cell 0 0 0 (omega arith) refl refl refl))
              (next_row 0 0 1 (omega arith) refl refl refl))
            (end_task 0 1 0 (omega arith) refl refl))
          (next_row 1 1 1 (omega arith) refl refl refl))
        (end_task 1 2 0 (omega arith) refl refl);
}

both_over : (t : ℕ) → t < 2 → both_rows.last.place t ≡ finished
unfolding both_rows
both_over t lt = ground arith

product_done : Multiplied naturals two_rows one_cell 2 cleared true both_rows.last.C
product_done = all_done both_rows.reach both_over

parallel_equals_sequential_example :
    ((x : ℕ)
      → both_rows.last.C.cells x
        ≡ (matrix_multiply_sequential naturals two_rows one_cell cleared).cells x)
    × (both_rows.last.C.rows ≡ (matrix_multiply_sequential naturals two_rows one_cell cleared).rows)
    × (both_rows.last.C.cols ≡ (matrix_multiply_sequential naturals two_rows one_cell cleared).cols)
parallel_equals_sequential_example =
    parallel_equals_sequential naturals two_rows one_cell cleared 2 (omega arith) refl (omega arith)
      product_done

-- What is in the memory of the result.
second_entry : both_rows.last.C.cells 1 ≡ 20
unfolding both_rows matrix_set dot for_loop matrix_get
second_entry = refl
