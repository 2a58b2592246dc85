-- ===== src/Demos/Matrix/Product.antt =====
-- What a task of examples/matrix_multiply.c has written when it stands at a place.
use thread_management_librar.Base.{
  ℕ, ◌+◌, ◌-◌, ◌*◌, ◌^◌, ◌≤◌, ◌<◌, ◌≡◌, refl, ◌∙◌, Bool, true, false, ◌&&◌, ◌||◌, ◌==◌, ltb, leb,
  Bool-cases, inl, inr, arith,
}
use mathlib.Core.Bool.{or-false}
use thread_management_librar.Base.Loops.{for_loop-keeps}
use thread_management_librar.Demos.Matrix.{
  Double, Matrix, cell_index, matrix_set, dot, compute_row, compute_rows, Place, at_cell, finished,
}
use thread_management_librar.Demos.Matrix.Cells.{cell_below, cell_index-exact, cell_index-injective}

-- A task that starts at row `first` and ends before row `last` has written the cell.
abbrev pub passed : (first last : ℕ) → Place → (row col : ℕ) → Bool
passed first last (at_cell i j) row col = leb first row && (ltb row i || (row == i && ltb col j))
passed first last finished row col = leb first row && ltb row last

module _ {F : Type 0} (d : Double F) (A B C₀ : Matrix F) where
  -- The cell holds the entry of the product.
  abbrev pub Right : Matrix F → (row col : ℕ) → Type 0
  Right C row col = C.cells (cell_index B.cols row col) ≡ dot d A B row col

  pub record Good (first last : ℕ) (p : Place) (C : Matrix F) : Type 0 where
    pub shape : C.cols ≡ B.cols
    pub height : C.rows ≡ C₀.rows
    pub inside : C₀.rows ≡ A.rows → C.left_block ≡ C₀.left_block
    pub right :
        (row col : ℕ)
        → row < A.rows
        → col < B.cols
        → passed first last p row col ≡ true
        → Right C row col
    pub outside : (x : ℕ) → A.rows * B.cols ≤ x → C.cells x ≡ C₀.cells x

  pub Good-start : (first last : ℕ) → C₀.cols ≡ B.cols → Good first last (at_cell first 0) C₀
  Good-start first last shape = record {
    shape = shape;
    height = refl;
    inside = λ same. refl;
    right = λ row col r c done. absurd (ground arith);
    outside = λ x h. refl;
  }

  pub Good-row :
      {first last i j : ℕ} {C : Matrix F}
      → ltb j B.cols ≡ false
      → Good first last (at_cell i j) C
      → Good first last (at_cell (i + 1) 0) C
  Good-row {i} ended h = record {
    shape = h.shape;
    height = h.height;
    inside = h.inside;
    right = λ row col r c done. h.right row col r c (ground arith);
    outside = h.outside;
  }

  pub Good-end :
      {first last i j : ℕ} {C : Matrix F}
      → ltb i last ≡ false
      → Good first last (at_cell i j) C
      → Good first last finished C
  Good-end ended h = record {
    shape = h.shape;
    height = h.height;
    inside = h.inside;
    right = λ row col r c done. h.right row col r c (ground arith);
    outside = h.outside;
  }

  module _ (small : A.rows * B.cols < 2 ^ 31) {i j : ℕ} (ri : i < A.rows) (cj : j < B.cols) where
    -- After the write of a cell, by whichever task.
    abbrev pub written : Matrix F → Matrix F
    written C = matrix_set C i j (dot d A B i j)

    written-there : (C : Matrix F) → C.cols ≡ B.cols → Right (written C) i j
    unfolding matrix_set
    written-there C shape = rw shape (ground arith)

    written-other :
        (C : Matrix F) (x : ℕ)
        → C.cols ≡ B.cols
        → (x == cell_index B.cols i j) ≡ false
        → (written C).cells x ≡ C.cells x
    unfolding matrix_set
    written-other C x shape other = rw (shape, other)

    written-keeps :
        (C : Matrix F) (row col : ℕ)
        → C.cols ≡ B.cols
        → row < A.rows
        → col < B.cols
        → Right C row col
        → Right (written C) row col
    written-keeps C row col shape r c h =
        elim (Bool-cases (cell_index B.cols row col == cell_index B.cols i j)) [
          | inl same ↦
              let (er, ec) =
                cell_index-injective A.rows B.cols row col i j small r c ri cj (ground arith) in
              rw (er, ec) (written-there C shape)
          | inr other ↦ written-other C _ shape other ∙ h
        ]

    -- The write stays inside a block of as many rows as A.
    written-inside :
        (C : Matrix F) → C.cols ≡ B.cols → C.rows ≡ A.rows → (written C).left_block ≡ C.left_block
    unfolding matrix_set
    written-inside C shape height =
        let below : ltb (cell_index C.cols i j) (C.rows * C.cols) ≡ true =
          rw (shape, height)
            (ground (
              arith,
              cell_index-exact A.rows B.cols i j small ri cj,
              cell_below A.rows B.cols i j ri cj,
            )) in
        rw below (or-false C.left_block)

    pub Good-write :
        {first last : ℕ} {p : Place} {C : Matrix F}
        → Good first last p C
        → Good first last p (written C)
    unfolding matrix_set
    Good-write {C} h = record {
      shape = h.shape;
      height = h.height;
      inside = λ same. written-inside C h.shape (h.height ∙ same) ∙ h.inside same;
      right = λ row col r c done. written-keeps C row col h.shape r c (h.right row col r c done);
      outside = λ x beyond.
          written-other C x h.shape (
            ground (
              arith,
              cell_index-exact A.rows B.cols i j small ri cj,
              cell_below A.rows B.cols i j ri cj,
            ))
          ∙ h.outside x beyond;
    }

    -- The task that writes has then passed the cell.
    pub Good-advance :
        {first last : ℕ} {C : Matrix F}
        → Good first last (at_cell i j) C
        → Good first last (at_cell i (j + 1)) (written C)
    unfolding matrix_set
    Good-advance {first} {last} {C} h =
        let g = Good-write h in
        record {
          shape = g.shape;
          height = g.height;
          inside = g.inside;
          right = λ row col r c done. elim (Bool-cases (passed first last (at_cell i j) row col)) [
            | inl before ↦ g.right row col r c before
            | inr now ↦
                let er : row ≡ i = ground arith in
                let ec : col ≡ j = ground arith in rw (er, ec) (written-there C h.shape)
          ];
          outside = g.outside;
        }

  module _ (small : A.rows * B.cols < 2 ^ 31) where
    compute_row-Good :
        {first last i : ℕ} {C : Matrix F}
        → i < A.rows
        → Good first last (at_cell i 0) C
        → Good first last (at_cell (i + 1) 0) (compute_row d A B i C)
    unfolding compute_row
    compute_row-Good {first} {last} {i} {C} ri h = Good-row (ground arith) (
        for_loop-keeps (λ j x. Good first last (at_cell i j) x)
          (λ j x. matrix_set x i j (dot d A B i j)) B.cols 0 B.cols C (omega arith)
          (λ j x _ cj g. Good-advance small ri cj g) h)

    pub compute_rows-Good :
        {C : Matrix F} (first last : ℕ)
        → first ≤ last
        → last ≤ A.rows
        → Good first last (at_cell first 0) C
        → Good first last finished
            (compute_rows d (record { A = A; B = B; start_row = first; end_row = last }) C)
    unfolding compute_rows
    compute_rows-Good {C} first last le within h = Good-end {i = last} {j = 0} (ground arith) (
        for_loop-keeps (λ i x. Good first last (at_cell i 0) x) (compute_row d A B) (last - first)
          first last C (omega arith) (λ i x _ lt g. compute_row-Good (omega arith) g) h)
