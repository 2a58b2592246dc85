-- ===== src/Demos/Matrix/Cells.antt =====
-- The indices of examples/matrix_multiply.c.
use thread_management_librar.Base.{ℕ, ◌+◌, ◌*◌, ◌%◌, ◌^◌, ◌/◌, ◌≤◌, ◌<◌, ◌≡◌, ap, arith}
use native.Mathlib.Nat.{
  mul-le-mul_right, mod-lt, div-add-mod', mul-add-div_right, mul-add-mod_self_right, div-eq_of_lt,
  mod-eq_of_lt,
}
use thread_management_librar.Demos.Matrix.{cell_index}

-- A cell of the matrix has an index below the number of cells.
pub cell_below : (rows cols row col : ℕ) → row < rows → col < cols → row * cols + col < rows * cols
cell_below rows cols row col r c =
    omega (arith, mul-le-mul_right cols (let le : row + 1 ≤ rows = omega arith in le))

-- No index overflows.
pub cell_index-exact :
    (rows cols row col : ℕ)
    → rows * cols < 2 ^ 31
    → row < rows
    → col < cols
    → cell_index cols row col ≡ row * cols + col
cell_index-exact rows cols row col small r c = omega (arith, cell_below rows cols row col r c)

-- Different cells have different indices.
pub cell_index-injective :
    (rows cols row col row' col' : ℕ)
    → rows * cols < 2 ^ 31
    → row < rows
    → col < cols
    → row' < rows
    → col' < cols
    → cell_index cols row col ≡ cell_index cols row' col'
    → (row ≡ row') × (col ≡ col')
cell_index-injective rows cols row col row' col' small r c r' c' e =
    let plain : row * cols + col ≡ row' * cols + col' = omega (
      arith,
      cell_index-exact rows cols row col small r c,
      cell_index-exact rows cols row' col' small r' c',
    ) in
    let some_col : 0 < cols = omega arith in
    (
      omega (
        arith,
        ap (λ (x : ℕ). x / cols) plain,
        mul-add-div_right some_col row col,
        mul-add-div_right some_col row' col',
        div-eq_of_lt c,
        div-eq_of_lt c',
      ),
      omega (
        arith,
        ap (λ (x : ℕ). x % cols) plain,
        mul-add-mod_self_right row cols col,
        mul-add-mod_self_right row' cols col',
        mod-eq_of_lt c,
        mod-eq_of_lt c',
      ),
    )

-- Each index below the number of cells is a cell's.
pub cell_at :
    (rows cols x : ℕ)
    → x < rows * cols
    → (row : ℕ) × (col : ℕ) × (row < rows) × (col < cols) × (x ≡ row * cols + col)
cell_at rows cols x within =
    (x / cols, x % cols, below, mod-lt x some_col, omega (arith, div-add-mod' x cols))
  where
    some_col : 0 < cols
    some_col = grind arith

    below : x / cols < rows
    below = grind (arith, div-add-mod' x cols, mul-le-mul_right cols)
