-- ===== src/Demos/Visual/Printing.antt =====
-- The bars that examples/visual_demo.c prints, and its pauses.
use thread_management_librar.Base.{
  ℕ, zero, suc, ◌+◌, ◌-◌, ◌*◌, ◌/◌, ◌^◌, ◌≤◌, ◌<◌, ◌≡◌, ◌==◌, refl, ap, ltb, if◌then◌else◌, List,
  [], ◌∷◌, ◌++◌, arith, Bool-cases, inl, inr,
}
use thread_management_librar.Demos.Visual.{
  Glyph, full, edge, dim, bar_cells, print_progress_bar, sleep_ms,
}
use native.Mathlib.Nat.{div-lt_iff_lt-mul, mul-le-mul_right, mul-div_cancel_left}

abbrev pub repeat : ℕ → Glyph → List Glyph
repeat zero g = []
repeat (suc n) g = g ∷ repeat n g

-- Behind the edge.
bar_cells-dim : (filled rounds i : ℕ) → filled < i → bar_cells filled rounds i ≡ repeat rounds dim
unfolding bar_cells
bar_cells-dim filled zero i h = refl
bar_cells-dim filled (suc rounds) i h =
    ground (arith, bar_cells-dim filled rounds (i + 1) (omega arith))

bar_cells_lem :
    (left rest filled rounds i : ℕ)
    → filled ≡ i + left
    → rounds ≡ left + suc rest
    → bar_cells filled rounds i ≡ repeat left full ++ edge ∷ repeat rest dim
unfolding bar_cells
bar_cells_lem left rest filled zero i e r = absurd (omega arith)
bar_cells_lem zero rest filled (suc rounds) i e r =
    let same : rounds ≡ rest = omega arith in
    ground
      (arith, bar_cells-dim filled rounds (i + 1) (omega arith), ap (λ (k : ℕ). repeat k dim) same)
bar_cells_lem (suc left) rest filled (suc rounds) i e r =
    ground (arith, bar_cells_lem left rest filled rounds (i + 1) (omega arith) (omega arith))

bar_cells-full :
    (filled rounds i : ℕ) → i + rounds ≤ filled → bar_cells filled rounds i ≡ repeat rounds full
unfolding bar_cells
bar_cells-full filled zero i h = refl
bar_cells-full filled (suc rounds) i h =
    ground (arith, bar_cells-full filled rounds (i + 1) (omega arith))

part_less :
    (current total parts : ℕ)
    → 0 < total
    → current < total
    → 0 < parts
    → current * parts / total < parts
part_less current total parts some_total less some_part =
    let (_, back) = div-lt_iff_lt-mul {x = current * parts} {y = parts} some_total in
    back (omega (arith, mul-le-mul_right parts (let le : current + 1 ≤ total = omega arith in le)))

part_all : (current total parts : ℕ) → 0 < total → current ≡ total → current * parts / total ≡ parts
part_all current total parts some_total same = rw same (mul-div_cancel_left parts some_total)

-- The progress bar is right: for `current` up to a positive `total`, the bar of 40 cells has
-- current * 40 / total full cells, then, if `current` is less than `total`, the edge and dim cells up to
-- its end; and it shows 100% exactly if all is done.
pub print_progress_bar-right :
    (current total : ℕ)
    → 0 < total
    → current ≤ total
    → let (bar, percent) = print_progress_bar current total in
      let filled = current * 40 / total in
      (bar ≡ (
        if ltb current total
        then repeat filled full ++ edge ∷ repeat (39 - filled) dim
        else repeat 40 full))
      × (percent ≤ 100)
      × ((percent == 100) ≡ (current == total))
unfolding print_progress_bar
print_progress_bar-right current total some_total within = elim (Bool-cases (ltb current total)) [
  | inl less ↦
      let filled_less : current * 40 / total < 40 =
        part_less current total 40 some_total (ground arith) (omega arith) in
      let percent_less : current * 100 / total < 100 =
        part_less current total 100 some_total (ground arith) (omega arith) in
      (
        rw less (
            bar_cells_lem (current * 40 / total) (39 - current * 40 / total) (current * 40 / total)
              40 0 (omega arith) (omega arith)),
        omega arith,
        ground (arith, less),
      )
  | inr done ↦
      let same : current ≡ total = ground arith in
      let filled_all : current * 40 / total ≡ 40 = part_all current total 40 some_total same in
      let percent_all : current * 100 / total ≡ 100 = part_all current total 100 some_total same in
      (
        rw done (bar_cells-full (current * 40 / total) 40 0 (omega arith)),
        omega arith,
        ground (arith, same),
      )
]

-- Each pause of sleep_ms has a number of nanoseconds that nanosleep takes, and lasts for its milliseconds.
pub sleep_ms-exact :
    (ms : ℕ)
    → let (tv_sec, tv_nsec) = sleep_ms ms in
      (tv_nsec < 10 ^ 9) × (tv_sec * 10 ^ 9 + tv_nsec ≡ ms * 10 ^ 6)
unfolding sleep_ms
sleep_ms-exact ms = (omega arith, omega arith)
