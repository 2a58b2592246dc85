-- ===== src/Demos/Matrix.antt =====
-- The matrices of examples/matrix_multiply.c and their product, by one thread and by the tasks of a
-- pool. The arithmetic of `double` is a parameter. An index is an `int`: its 32 bits are written out.
pub mod Cells
pub mod Product
pub mod Results
pub mod Check
pub mod Program
pub mod Memory
use thread_management_librar.Base.{
  ℕ, zero, suc, ◌+◌, ◌-◌, ◌*◌, ◌%◌, ◌<◌, ◌≡◌, Bool, true, false, not, ◌||◌, ◌==◌, ltb,
  if◌then◌else◌, Option, none, some, uint_mod,
}
use thread_management_librar.Base.Threads.{assign}
use thread_management_librar.Base.Loops.{for_loop}
use thread_management_librar.Demos.Partition.{range_start, range_end}

-- What the program uses of `double`.
pub record Double (F : Type 0) : Type 0 where
  pub zero_f : F
  pub add : F → F → F
  pub mul : F → F → F
  pub differ : F → F → Bool  -- `fabs(a - b) > epsilon`

-- `matrix_t`; `cells` is the block behind `data`, and `left_block` says whether a write has missed its `rows * cols` cells.
pub record Matrix (F : Type 0) : Type 0 where
  pub cells : ℕ → F
  pub rows : ℕ
  pub cols : ℕ
  pub left_block : Bool

-- `row * m->cols + col`
abbrev pub cell_index : (cols row col : ℕ) → ℕ
cell_index cols row col = (row * cols + col) % uint_mod

-- `row_task_t` without the result matrix, which the tasks share.
pub record RowTask (F : Type 0) : Type 0 where
  pub A : Matrix F
  pub B : Matrix F
  pub start_row : ℕ
  pub end_row : ℕ

module _ {F : Type 0} where
  unfoldable pub matrix_get : Matrix F → (row col : ℕ) → F
  matrix_get m row col = m.cells (cell_index m.cols row col)

  unfoldable pub matrix_set : Matrix F → (row col : ℕ) → F → Matrix F
  matrix_set m row col val = record m {
    cells = assign m.cells (cell_index m.cols row col) val;
    left_block = m.left_block || not (ltb (cell_index m.cols row col) (m.rows * m.cols));
  }

  -- The matrix, if both allocations succeed, and the number of blocks in use.
  unfoldable pub matrix_create :
      Double F → (rows cols : ℕ) (got_struct got_data : Bool) (live : ℕ) → Option (Matrix F) × ℕ
  matrix_create d rows cols got_struct got_data live =
      if not got_struct then (none, live) else if not got_data then (none, live + 1 - 1) else (
        some (record { cells = λ _. d.zero_f; rows = rows; cols = cols; left_block = false }),
        live + 1 + 1,
      )

  unfoldable pub matrix_destroy : Option (Matrix F) → (live : ℕ) → ℕ
  matrix_destroy none live = live
  matrix_destroy (some m) live = live - 1 - 1

  -- With `rand()` by the number of the call.
  unfoldable pub matrix_randomize : (tenth : ℕ → F) (rand : ℕ → ℕ) → Matrix F → Matrix F
  unfolding for_loop
  matrix_randomize tenth rand m =
      for_loop (m.rows * m.cols) 0
        (λ i x. record x { cells = assign x.cells i (tenth (rand i % 100)) }) m

  module _ (d : Double F) where
    -- The sum of the loop over `k`.
    unfoldable pub dot : (A B : Matrix F) (i j : ℕ) → F
    unfolding for_loop matrix_get
    dot A B i j =
        for_loop A.cols 0 (λ k sum. d.add sum (d.mul (matrix_get A i k) (matrix_get B k j)))
          d.zero_f

    -- The loop over `j`.
    unfoldable pub compute_row : (A B : Matrix F) (i : ℕ) → Matrix F → Matrix F
    unfolding for_loop matrix_set dot
    compute_row A B i C = for_loop B.cols 0 (λ j x. matrix_set x i j (dot A B i j)) C

    unfoldable pub compute_rows : RowTask F → Matrix F → Matrix F
    unfolding for_loop compute_row
    compute_rows task C =
        for_loop (task.end_row - task.start_row) task.start_row (compute_row task.A task.B) C

    unfoldable pub matrix_multiply_sequential : (A B C : Matrix F) → Matrix F
    unfolding for_loop compute_row
    matrix_multiply_sequential A B C = for_loop A.rows 0 (compute_row A B) C

    -- The loop from cell `i` on, for `rounds` more cells.
    unfoldable pub equal_from : (A B : Matrix F) (rounds i : ℕ) → Bool
    equal_from A B zero i = true
    equal_from A B (suc rounds) i =
        let rest = equal_from A B rounds (i + 1) in
        if d.differ (A.cells i) (B.cells i) then false else rest

    unfoldable pub matrix_equals : (A B : Matrix F) → Bool
    unfolding equal_from
    matrix_equals A B =
        if not (A.rows == B.rows) || not (A.cols == B.cols)
        then false
        else equal_from A B (A.rows * A.cols) 0

-- The task that `matrix_multiply_parallel` submits in round `t` of its loop.
unfoldable pub split_rows : {F : Type 0} → (A B : Matrix F) (num_threads t : ℕ) → RowTask F
unfolding range_start range_end
split_rows A B num_threads t = record {
  A = A;
  B = B;
  start_row = range_start A.rows num_threads t;
  end_row = range_end A.rows num_threads t;
}

-- Where a task stands in `compute_rows`: before the tests of its two loops, or at its end.
pub data Place : Type 0 where
  at_cell : (i j : ℕ) → Place
  finished : Place

pub record Run (F : Type 0) : Type 0 where
  pub C : Matrix F
  pub place : ℕ → Place

module _ {F : Type 0} (d : Double F) (A B : Matrix F) (num_threads : ℕ) where
  -- One step of a task, the others standing still.
  pub data Step (s : Run F) : Run F → Type 0 where
    write_cell :
        (t i j : ℕ)
        → t < num_threads
        → s.place t ≡ at_cell i j
        → ltb i (split_rows A B num_threads t).end_row ≡ true
        → ltb j B.cols ≡ true
        → Step s (record {
          C = matrix_set s.C i j (dot d A B i j);
          place = assign s.place t (at_cell i (j + 1));
        })
    next_row :
        (t i j : ℕ)
        → t < num_threads
        → s.place t ≡ at_cell i j
        → ltb i (split_rows A B num_threads t).end_row ≡ true
        → ltb j B.cols ≡ false
        → Step s (record s { place = assign s.place t (at_cell (i + 1) 0) })
    end_task :
        (t i j : ℕ)
        → t < num_threads
        → s.place t ≡ at_cell i j
        → ltb i (split_rows A B num_threads t).end_row ≡ false
        → Step s (record s { place = assign s.place t finished })

  -- When the tasks are submitted.
  abbrev pub submitted : Matrix F → Run F
  submitted C = record { C = C; place = λ t. at_cell (split_rows A B num_threads t).start_row 0 }

  pub data Reach (C : Matrix F) : Run F → Type 0 where
    begin : Reach C (submitted C)
    then_step : {s s' : Run F} → Reach C s → Step s s' → Reach C s'

  -- How `matrix_multiply_parallel` ends, and what it leaves in the result.
  pub data Multiplied (C : Matrix F) : (created : Bool) → Matrix F → Type 0 where
    no_pool : Multiplied C false C
    all_done :
        {s : Run F}
        → Reach C s
        → ((t : ℕ) → t < num_threads → s.place t ≡ finished)
        → Multiplied C true s.C
