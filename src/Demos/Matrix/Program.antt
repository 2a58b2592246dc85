-- ===== src/Demos/Matrix/Program.antt =====
-- `main` of examples/matrix_multiply.c: its four matrices, what it prints and the status that it returns. The
-- readings of the clock and the arithmetic of `double` are parameters.
use Prim.Native.String.{String}
use thread_management_librar.Base.{
  ℕ, ◌*◌, ◌^◌, Bool, true, false, ◌&&◌, List, [], ◌∷◌, ◌++◌, if◌then◌else◌, Option, none, some,
}
use thread_management_librar.Demos.Console.{int, real, str, printf, Text, each}
use thread_management_librar.Demos.Visual.Timed.{Real}
use thread_management_librar.Demos.Matrix.{Double, matrix_create, matrix_destroy}
use thread_management_librar.Demos.Matrix.Check.{thread_counts}

-- `MATRIX_SIZE`
abbrev pub matrix_size : ℕ
matrix_size = 512

-- What `main` reads: the answers of the two allocations of each matrix, the clock before and after the
-- sequential product and the product with each number of threads, what matrix_equals says of the latter, and
-- the first row of C_seq.
pub record Measured (F : Type 0) : Type 0 where
  pub got_struct : ℕ → Bool
  pub got_data : ℕ → Bool
  pub seq_start : F
  pub seq_end : F
  pub par_start : ℕ → F
  pub par_end : ℕ → F
  pub equals : ℕ → Bool
  pub C_seq_row : ℕ → F

-- The status, the blocks of memory in use at the end, and the text.
pub record Ended (F : Type 0) : Type 0 where
  pub status : ℕ
  pub live : ℕ
  pub text : Text F

abbrev pub is_some : {A : Type 0} → Option A → Bool
is_some none = false
is_some (some a) = true

module _ {F : Type 0} (d : Double F) (r : Real F) where
  -- The row of one number of threads, and the line below it where matrix_equals says 0.
  unfoldable pub round_text : Measured F → (num_threads : ℕ) → Text F
  round_text m num_threads =
      let seq_time = r.sub m.seq_end m.seq_start in
      let par_time = r.sub (m.par_end num_threads) (m.par_start num_threads) in
      let speedup = r.div seq_time par_time in
      let efficiency = r.mul (r.div speedup (r.of_int num_threads)) (r.of_int 100) in
      printf ("│ %10d   │ %8.3f s   │ %8.2fx    │ %8.1f%%   │\n" ∷ [])
        (int num_threads ∷ real par_time ∷ real speedup ∷ real efficiency ∷ [])
      ∷ (if m.equals num_threads
          then []
          else printf ("│            │  *** VERIFICATION FAILED ***           │\n" ∷ []) [] ∷ [])

  unfoldable pub rounds_text : Measured F → List ℕ → Text F
  unfolding round_text
  rounds_text m [] = []
  rounds_text m (k ∷ ks) = round_text m k ++ rounds_text m ks

  -- The text before the matrices are created.
  unfoldable pub configuration_text : (cores : ℕ) (version : String) → Text F
  configuration_text cores version =
      printf ("\n" ∷ []) []
      ∷ printf ("╔══════════════════════════════════════════════════════════════════╗\n" ∷ []) []
      ∷ printf ("║            PARALLEL MATRIX MULTIPLICATION DEMO                   ║\n" ∷ []) []
      ∷ printf ("╚══════════════════════════════════════════════════════════════════╝\n\n" ∷ []) []
      ∷ printf ("Configuration:\n" ∷ []) []
      ∷ printf ("  Matrix Size: %d × %d\n" ∷ []) (int matrix_size ∷ int matrix_size ∷ [])
      ∷ printf ("  CPU Cores:   %zu\n" ∷ []) (int cores ∷ [])
      ∷ printf ("  Library:     sthread v%s\n" ∷ []) (str version ∷ [])
      ∷ printf ("\n" ∷ []) []
      ∷ printf ("Creating matrices...\n" ∷ []) []
      ∷ []

  -- The text of a run whose matrices are there.
  unfoldable pub run_text : Measured F → Text F
  unfolding rounds_text each
  run_text m =
      let seq_time = r.sub m.seq_end m.seq_start in
      (printf ("Initializing with random values...\n\n" ∷ []) []
        ∷ printf ("═══════════════════════════════════════════════════════════════════\n" ∷ []) []
        ∷ printf ("Sequential Multiplication\n" ∷ []) []
        ∷ printf ("═══════════════════════════════════════════════════════════════════\n\n" ∷ []) []
        ∷ printf ("Time: %.3f seconds\n\n" ∷ []) (real seq_time ∷ [])
        ∷ printf ("═══════════════════════════════════════════════════════════════════\n" ∷ []) []
        ∷ printf ("Parallel Multiplication\n" ∷ []) []
        ∷ printf ("═══════════════════════════════════════════════════════════════════\n\n" ∷ []) []
        ∷ printf ("┌──────────────┬──────────────┬──────────────┬──────────────┐\n" ∷ []) []
        ∷ printf ("│   Threads    │     Time     │   Speedup    │  Efficiency  │\n" ∷ []) []
        ∷ printf ("├──────────────┼──────────────┼──────────────┼──────────────┤\n" ∷ []) []
        ∷ [])
      ++ (rounds_text m thread_counts
          ++ (printf ("└──────────────┴──────────────┴──────────────┴──────────────┘\n\n" ∷ []) []
              ∷ printf
                  ("═══════════════════════════════════════════════════════════════════\n" ∷ []) []
              ∷ printf ("Results\n" ∷ []) []
              ∷ printf
                  ("═══════════════════════════════════════════════════════════════════\n\n" ∷ [])
                  []
              ∷ printf ("✓ All parallel results verified against sequential result\n" ∷ []) []
              ∷ printf ("\nSample values from C[0][0..4]:\n  " ∷ []) []
              ∷ (each 5 0 (λ j. printf ("%.2f " ∷ []) (real (m.C_seq_row j) ∷ []) ∷ [])
                  ++ (printf ("\n" ∷ []) []
                      ∷ printf ("\nPerformance: %.2f GFLOPS (sequential baseline)\n" ∷ []) (
                          real (
                            r.div (r.div (r.of_int (2 * matrix_size ^ 3)) seq_time)
                              (r.of_int (10 ^ 9)))
                          ∷ [])
                      ∷ printf ("\n=== Demo Complete ===\n\n" ∷ []) []
                      ∷ []))))

  unfoldable pub main : (cores : ℕ) (version : String) → Measured F → Ended F
  unfolding matrix_create matrix_destroy configuration_text run_text
  main cores version m =
      let (A, live₁) = matrix_create d matrix_size matrix_size (m.got_struct 0) (m.got_data 0) 0 in
      let (B, live₂) =
        matrix_create d matrix_size matrix_size (m.got_struct 1) (m.got_data 1) live₁ in
      let (C_seq, live₃) =
        matrix_create d matrix_size matrix_size (m.got_struct 2) (m.got_data 2) live₂ in
      let (C_par, live₄) =
        matrix_create d matrix_size matrix_size (m.got_struct 3) (m.got_data 3) live₃ in
      if is_some A && is_some B && is_some C_seq && is_some C_par
      then record {
        status = 0;
        live =
            matrix_destroy C_par (matrix_destroy C_seq (matrix_destroy B (matrix_destroy A live₄)));
        text = configuration_text cores version ++ run_text m;
      }
      else record {
        status = 1;
        live = live₄;
        text =
            configuration_text cores version
            ++ printf ("Failed to allocate matrices\n" ∷ []) [] ∷ [];
      }
