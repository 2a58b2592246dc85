-- ===== src/Demos/Console.antt =====
-- What the main thread of a program under examples/ does, in its order: what it prints, its pauses, and its
-- calls of the library, whose results these programs do not look at.
pub mod Colours
pub mod Held
pub mod Lines
use thread_management_librar.Base.{ℕ, zero, suc, ◌+◌, List, [], ◌++◌}
use Prim.Native.String.{String}

-- An argument of `printf`; `F` stands for `double`.
pub data Arg (F : Type 0) : Type 0 where
  int : ℕ → Arg F
  real : F → Arg F
  str : String → Arg F

-- A call of `printf`: its format, as the adjacent literals of the source, and its arguments.
pub data Printed (F : Type 0) : Type 0 where
  printf : List String → List (Arg F) → Printed F

abbrev pub Text : Type 0 → Type 0
Text F = List (Printed F)

-- A thread, or a semaphore, is named by a number.
pub data Call : Type 0 where
  pool_create : (num_threads : ℕ) → Call
  pool_refused : Call  -- a creation that returned NULL
  pool_submit pool_wait pool_destroy : Call
  thread_create thread_join : (thread : ℕ) → Call
  mutex_init mutex_destroy : Call
  sem_init : (sem value : ℕ) → Call
  sem_destroy : (sem : ℕ) → Call
  block_alloc block_free : Call  -- `malloc` and `free` of an array of threads

pub data Action (F : Type 0) : Type 0 where
  out : Text F → Action F
  pause : (ms : ℕ) → Action F
  call : Call → Action F

-- What a loop does, round by round.
unfoldable pub each {ℓ} : {A : Type ℓ} → (rounds first : ℕ) → (ℕ → List A) → List A
each zero first body = []
each (suc rounds) first body = body first ++ each rounds (first + 1) body
