-- ===== src/Demos/Console/Held.antt =====
-- What the actions of a program under examples/ hold of the library, where every call succeeds; a call that
-- is out of order is a fault.
use thread_management_librar.Base.{
  ℕ, zero, suc, ◌+◌, ◌≡◌, refl, ◌∙◌, Bool, true, false, List, [], ◌∷◌, ◌++◌, Option, none, some,
  ◌==◌, ◌&&◌, if◌then◌else◌, arith,
}
use thread_management_librar.Demos.Console.{
  Call, pool_create, pool_refused, pool_submit, pool_wait, pool_destroy, thread_create, thread_join,
  mutex_init, mutex_destroy, sem_init, sem_destroy, block_alloc, block_free, Action, out, pause,
  call, each,
}

-- The pointer of the program to its pool: it is not there, NULL, or a pool.
pub data PoolPointer : Type 0 where
  no_pool null_pool some_pool : PoolPointer

abbrev pub is_absent : PoolPointer → Bool
is_absent no_pool = true
is_absent null_pool = false
is_absent some_pool = false

-- A pool, the threads that run, the mutex, the semaphores, and the array of threads.
pub record Held : Type 0 where
  pub pool : PoolPointer
  pub threads : List ℕ
  pub mutex : Bool
  pub sems : List ℕ
  pub block : Bool

abbrev pub nothing_held : Held
nothing_held = record { pool = no_pool; threads = []; mutex = false; sems = []; block = false }

abbrev pub is_none : List ℕ → Bool
is_none [] = true
is_none (a ∷ rest) = false

-- A thread is joined when those created before it are, and a semaphore is destroyed like that.
abbrev pub drop_first : ℕ → List ℕ → Option (List ℕ)
drop_first a [] = none
drop_first a (b ∷ bs) = if a == b then some bs else none

-- A pool is used only while it is there, and no pool is lost; a thread is joined once; the mutex and the
-- semaphores are destroyed, and the array freed, only when no thread runs and no pool is there. A call on
-- the pool NULL does nothing.
abbrev unused : Held → Bool
unused h = is_none h.threads && is_absent h.pool

unfoldable pub obey : Call → Held → Option Held
obey (pool_create n) h = if is_absent h.pool then some (record h { pool = some_pool }) else none
obey pool_refused h = if is_absent h.pool then some (record h { pool = null_pool }) else none
obey pool_submit h = if is_absent h.pool then none else some h
obey pool_wait h = if is_absent h.pool then none else some h
obey pool_destroy h = if is_absent h.pool then none else some (record h { pool = no_pool })
obey (thread_create t) h = some (record h { threads = h.threads ++ t ∷ [] })
obey (thread_join t) h = elim (drop_first t h.threads) [
  | none ↦ none
  | some rest ↦ some (record h { threads = rest })
]
obey mutex_init h = if h.mutex then none else some (record h { mutex = true })
obey mutex_destroy h = if h.mutex && unused h then some (record h { mutex = false }) else none
obey (sem_init s n) h = some (record h { sems = h.sems ++ s ∷ [] })
obey (sem_destroy s) h =
    if unused h
    then (elim (drop_first s h.sems) [ none ↦ none | some rest ↦ some (record h { sems = rest }) ])
    else none
obey block_alloc h = if h.block then none else some (record h { block = true })
obey block_free h = if h.block && unused h then some (record h { block = false }) else none

module _ {F : Type 0} where
  -- The actions one after the other.
  unfoldable pub carry_out : List (Action F) → Held → Option Held
  unfolding obey
  carry_out [] h = some h
  carry_out (out text ∷ rest) h = carry_out rest h
  carry_out (pause ms ∷ rest) h = carry_out rest h
  carry_out (call c ∷ rest) h = elim (obey c h) [ none ↦ none | some h' ↦ carry_out rest h' ]

  pub carry_out-append :
      (xs ys : List (Action F)) (h h' : Held)
      → carry_out xs h ≡ some h'
      → carry_out (xs ++ ys) h ≡ carry_out ys h'
  unfolding carry_out
  carry_out-append [] ys h h' e = ground (arith, e)
  carry_out-append (out text ∷ xs) ys h h' e = carry_out-append xs ys h h' e
  carry_out-append (pause ms ∷ xs) ys h h' e = carry_out-append xs ys h h' e
  carry_out-append (call c ∷ xs) ys h h' e = after (obey c h) (λ x. carry_out-append xs ys x h') e
    where
      after :
          (o : Option Held)
          → ((x : Held) → carry_out xs x ≡ some h' → carry_out (xs ++ ys) x ≡ carry_out ys h')
          → (elim o [ none ↦ none | some x ↦ carry_out xs x ]) ≡ some h'
          → (elim o [ none ↦ none | some x ↦ carry_out (xs ++ ys) x ]) ≡ carry_out ys h'
      after none rest e = absurd (ground (arith, e))
      after (some x) rest e = rest x e

  pub carry_on :
      (ys : List (Action F)) (h : Held) (xs : List (Action F)) {h' : Held} {o : Option Held}
      → carry_out xs h ≡ some h'
      → carry_out ys h' ≡ o
      → carry_out (xs ++ ys) h ≡ o
  carry_on ys h xs {h'} e rest = carry_out-append xs ys h h' e ∙ rest

  -- A loop whose rounds change nothing of it.
  pub carry_out-each :
      (rounds first : ℕ) (body : ℕ → List (Action F)) (h : Held)
      → ((i : ℕ) → carry_out (body i) h ≡ some h)
      → carry_out (each rounds first body) h ≡ some h
  unfolding each carry_out
  carry_out-each zero first body h keeps = refl
  carry_out-each (suc rounds) first body h keeps =
      carry_out-append (body first) (each rounds (first + 1) body) h h (keeps first)
      ∙ carry_out-each rounds (first + 1) body h keeps
