-- ===== src/Demos/Console/Lines.antt =====
-- How many lines a text of examples/ goes down. No argument of a `printf` there has a line feed.
use Prim.Native.Char.{code}
use Prim.Native.String.{String}
use thread_management_librar.Base.{
  ℕ, ◌+◌, ◌≡◌, refl, List, [], ◌∷◌, ◌++◌, map, ◌==◌, if◌then◌else◌, arith,
}
use thread_management_librar.Demos.Console.{Printed, printf, Text}

-- The line feeds of a literal.
abbrev pub feeds : String → ℕ
feeds String.[] = 0
feeds (String.◌∷◌ c s) = (if code c == b'\n' then 1 else 0) + feeds s

abbrev pub feeds_all : List String → ℕ
feeds_all [] = 0
feeds_all (s ∷ ss) = feeds s + feeds_all ss

module _ {F : Type 0} where
  abbrev pub feeds_of : Printed F → ℕ
  feeds_of (printf format args) = feeds_all format

  unfoldable pub lines : Text F → ℕ
  lines [] = 0
  lines (x ∷ xs) = feeds_of x + lines xs

  pub lines-append : (xs ys : Text F) → lines (xs ++ ys) ≡ lines xs + lines ys
  unfolding lines
  lines-append [] ys = omega arith
  lines-append (x ∷ xs) ys = omega (arith, lines-append xs ys)

  -- A row of cells without line feeds.
  pub lines-map :
      {A : Type 0} (f : A → Printed F)
      → ((a : A) → feeds_of (f a) ≡ 0)
      → (xs : List A) → lines (map f xs) ≡ 0
  unfolding lines
  lines-map f flat [] = refl
  lines-map f flat (a ∷ xs) = omega (arith, flat a, lines-map f flat xs)
