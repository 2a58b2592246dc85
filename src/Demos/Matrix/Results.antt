-- ===== src/Demos/Matrix/Results.antt =====
-- The products of examples/matrix_multiply.c by one thread and by several.
use thread_management_librar.Base.{
  ℕ, zero, suc, ◌+◌, ◌-◌, ◌*◌, ◌^◌, ◌≤◌, ◌<◌, ◌≡◌, refl, sym, ◌∙◌, true, false, ◌==◌, ltb,
  Bool-cases, inl, inr, arith, ==_refl,
}
use mathlib.Core.Path.{subst}
use thread_management_librar.Base.Threads.{assign}
use thread_management_librar.Demos.Partition.{find_range, range_end-le}
use thread_management_librar.Demos.Matrix.{
  Double, Matrix, cell_index, split_rows, matrix_multiply_sequential, compute_rows, Run, Place,
  finished, Step, write_cell, next_row, end_task, Reach, begin, then_step, matrix_equals,
  equal_from, Multiplied, all_done,
}
use thread_management_librar.Demos.Matrix.Cells.{cell_index-exact, cell_at}
use thread_management_librar.Demos.Matrix.Product.{
  Good, Right, Good-start, Good-row, Good-end, Good-write, Good-advance, compute_rows-Good,
}

module _ {F : Type 0} (d : Double F) (A B C : Matrix F) (shape : C.cols ≡ B.cols)
    (small : A.rows * B.cols < 2 ^ 31) where
  sequential-Good : Good d A B C 0 A.rows finished (matrix_multiply_sequential d A B C)
  unfolding matrix_multiply_sequential compute_rows
  sequential-Good =
      let all_rows : A.rows - 0 ≡ A.rows = omega arith in
      rw all_rows at (
        compute_rows-Good d A B C small 0 A.rows (omega arith) (omega arith)
          (Good-start d A B C 0 A.rows shape))

  module _ (k : ℕ) where
    abbrev start_of : ℕ → ℕ
    start_of t = (split_rows A B k t).start_row

    abbrev end_of : ℕ → ℕ
    end_of t = (split_rows A B k t).end_row

    abbrev AllGood : Run F → Type 0
    AllGood s = (t : ℕ) → t < k → Good d A B C (start_of t) (end_of t) (s.place t) s.C

    end_of-le : (t : ℕ) → t < k → end_of t ≤ A.rows
    unfolding split_rows
    end_of-le t lt = range_end-le A.rows k t lt

    -- A step of task `t` to the place `p`.
    one_moved :
        (s : Run F) (X : Matrix F) (t : ℕ) (p : Place)
        → ((u : ℕ) → u < k → Good d A B C (start_of u) (end_of u) (s.place u) X)
        → Good d A B C (start_of t) (end_of t) p X
        → AllGood (record { C = X; place = assign s.place t p })
    one_moved s X t p others mine u lt = elim (Bool-cases (u == t)) [
      | inl same ↦
          let e : t ≡ u = ground arith in
          rw same (subst (λ (v : ℕ). Good d A B C (start_of v) (end_of v) p X) e mine)
      | inr other ↦ rw other (others u lt)
    ]

    Step-Good : {s s' : Run F} → AllGood s → Step d A B k s s' → AllGood s'
    Step-Good {s} h (write_cell t i j lt e inside within) =
        let ri : i < A.rows = ground (arith, end_of-le t) in
        let cj : j < B.cols = ground arith in
        one_moved s _ t _ (λ u ltu. Good-write d A B C small ri cj (h u ltu))
          (Good-advance d A B C small ri cj
            (subst (λ (p : Place). Good d A B C (start_of t) (end_of t) p s.C) e (h t lt)))
    Step-Good {s} h (next_row t i j lt e inside ended) = one_moved s _ t _ h (
        Good-row d A B C ended
          (subst (λ (p : Place). Good d A B C (start_of t) (end_of t) p s.C) e (h t lt)))
    Step-Good {s} h (end_task t i j lt e ended) = one_moved s _ t _ h (
        Good-end d A B C ended
          (subst (λ (p : Place). Good d A B C (start_of t) (end_of t) p s.C) e (h t lt)))

    Reach-Good : {s : Run F} → Reach d A B k C s → AllGood s
    Reach-Good begin = λ t lt. Good-start d A B C (start_of t) (end_of t) shape
    Reach-Good (then_step r step) = Step-Good (Reach-Good r) step

    -- A cell of the result, when all tasks have ended.
    entry-Right :
        {s : Run F}
        → 0 < k
        → AllGood s
        → ((t : ℕ) → t < k → s.place t ≡ finished)
        → (row col : ℕ) → row < A.rows
        → col < B.cols
        → Right d A B C s.C row col
    unfolding split_rows
    entry-Right {s} some_task h over row col r c =
        let (t, lt, from, below) = find_range A.rows k row some_task r in
        (subst (λ (p : Place). Good d A B C (start_of t) (end_of t) p s.C) (over t lt)
            (h t lt)).right
          row col r c (ground arith)

  -- Two results with the right entries have the same memory.
  same_cells :
      (X Y : Matrix F)
      → ((row col : ℕ) → row < A.rows → col < B.cols → Right d A B C X row col)
      → ((row col : ℕ) → row < A.rows → col < B.cols → Right d A B C Y row col)
      → ((x : ℕ) → A.rows * B.cols ≤ x → X.cells x ≡ Y.cells x)
      → (x : ℕ) → X.cells x ≡ Y.cells x
  same_cells X Y right_x right_y outside x = elim (Bool-cases (ltb x (A.rows * B.cols))) [
    | inl within ↦
        let (row, col, r, c, e) = cell_at A.rows B.cols x (ground arith) in
        let here : x ≡ cell_index B.cols row col =
          omega (arith, cell_index-exact A.rows B.cols row col small r c) in
        rw here (right_x row col r c ∙ sym (right_y row col r c))
    | inr beyond ↦ outside x (ground arith)
  ]

-- The parallel product is the sequential one: when the pool was created and all tasks have ended,
-- however their steps were interleaved, the result matrix has the shape, and its memory the contents,
-- that matrix_multiply_sequential leaves; for at least one thread, a result with the columns of B,
-- and fewer than 2 ^ 31 cells.
pub parallel_equals_sequential :
    {F : Type 0} (d : Double F) (A B C : Matrix F) {X : Matrix F} (num_threads : ℕ)
    → 0 < num_threads
    → C.cols ≡ B.cols
    → A.rows * B.cols < 2 ^ 31
    → Multiplied d A B num_threads C true X
    → ((x : ℕ) → X.cells x ≡ (matrix_multiply_sequential d A B C).cells x)
      × (X.rows ≡ (matrix_multiply_sequential d A B C).rows)
      × (X.cols ≡ (matrix_multiply_sequential d A B C).cols)
parallel_equals_sequential d A B C {X} k some_task shape small done =
    let (s, r, over, e) = run_of done in
    let h = Reach-Good d A B C shape small k r in
    let g = sequential-Good d A B C shape small in
    let first = h 0 some_task in
    rw (← e) (
      same_cells d A B C shape small s.C (matrix_multiply_sequential d A B C)
          (entry-Right d A B C shape small k some_task h over)
          (λ row col below c. g.right row col below c (ground arith))
          (λ x beyond. first.outside x beyond ∙ sym (g.outside x beyond)),
      first.height ∙ sym g.height,
      first.shape ∙ sym g.shape,
    )
  where
    run_of :
        Multiplied d A B k C true X
        → (s : Run _) × Reach d A B k C s × ((t : ℕ) → t < k → s.place t ≡ finished) × (s.C ≡ X)
    run_of (all_done {s} r over) = (s, r, over, refl)

-- No task writes outside the block of the result: in every state that the tasks come to, for a result with the rows of
-- A and the columns of B, and fewer than 2 ^ 31 cells.
tasks_stay_inside :
    {F : Type 0} (d : Double F) (A B C : Matrix F) (num_threads : ℕ) {s : Run F}
    → 0 < num_threads
    → C.rows ≡ A.rows
    → C.cols ≡ B.cols
    → A.rows * B.cols < 2 ^ 31
    → C.left_block ≡ false
    → Reach d A B num_threads C s
    → s.C.left_block ≡ false
tasks_stay_inside d A B C k some_task height shape small fine r =
    (Reach-Good d A B C shape small k r 0 some_task).inside height ∙ fine

equal_from-same :
    {F : Type 0} (d : Double F) (X Y : Matrix F)
    → ((a : F) → d.differ a a ≡ false)
    → ((x : ℕ) → Y.cells x ≡ X.cells x)
    → (rounds i : ℕ) → equal_from d X Y rounds i ≡ true
unfolding equal_from
equal_from-same d X Y near same zero i = refl
equal_from-same d X Y near same (suc rounds) i =
    rw (same i, near (X.cells i)) (equal_from-same d X Y near same rounds (i + 1))

-- The check of main accepts the parallel result: matrix_equals returns 1 for the sequential and the
-- parallel product, whatever was in the memory of the result before, if no value differs from itself
-- by more than epsilon (as fabs(a - a) > epsilon is false also for infinities and NaN); for at least
-- one thread, a result with the columns of B, and fewer than 2 ^ 31 cells.
pub check_accepts_parallel :
    {F : Type 0} (d : Double F) (A B C : Matrix F) {X : Matrix F} (num_threads : ℕ)
    → ((a : F) → d.differ a a ≡ false)
    → 0 < num_threads
    → C.cols ≡ B.cols
    → A.rows * B.cols < 2 ^ 31
    → Multiplied d A B num_threads C true X
    → matrix_equals d (matrix_multiply_sequential d A B C) X ≡ true
unfolding matrix_equals
check_accepts_parallel d A B C {X} k near some_task shape small done =
    let (cells, rows, cols) = parallel_equals_sequential d A B C k some_task shape small done in
    let S = matrix_multiply_sequential d A B C in
    rw (rows, cols, ==_refl S.rows, ==_refl S.cols)
      (equal_from-same d S X near cells (S.rows * S.cols) 0)
