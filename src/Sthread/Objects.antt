-- ===== src/Sthread/Objects.antt =====
-- What the mutex, condition variable and semaphore functions of src/sthread.c have in common: an
-- object that holds a pointer to a `malloc`ed internal object. A call through a pointer to no
-- internal object, and its `free`, is a fault.
use thread_management_librar.Base.{not, Option, none, some, ◌||◌, ◌==◌, if◌then◌else◌, Ptr, null}
use thread_management_librar.Base.Int.{ℤ, ◌==ℤ◌}
use thread_management_librar.Sync.Errors.{
  sthread_success, sthread_error_nomem, sthread_error_invalid,
}

abbrev pub Cells : Type 0 → Type 0
Cells A = Ptr → Option A

abbrev pub write : {A : Type 0} → Cells A → Ptr → Option A → Cells A
write cells p c a = if a == p then c else cells a

-- The object, and the internal objects that are allocated.
pub record Object (A : Type 0) : Type 0 where
  pub internal : Ptr
  pub cells : Cells A

-- `fresh` is what `malloc` returns, and `raw` what the block holds.
unfoldable pub object_init :
    {A : Type 0} → (object fresh : Ptr) → A → (A → ℤ × A) → Object A → ℤ × Object A
object_init object fresh raw init o =
    if object == null
    then (sthread_error_invalid, o)
    else if fresh == null
    then (sthread_error_nomem, o)
    else if not ((init raw).0 ==ℤ sthread_success)
    then (
      (init raw).0,
      record o { cells = write (write o.cells fresh (some (init raw).1)) fresh none },
    )
    else (
      sthread_success,
      record { internal = fresh; cells = write o.cells fresh (some (init raw).1) },
    )

unfoldable pub object_destroy : {A : Type 0} → Ptr → (A → ℤ × A) → Object A → Option (ℤ × Object A)
object_destroy object destroy o =
    if object == null || o.internal == null
    then some (sthread_error_invalid, o)
    else (elim (o.cells o.internal) [
      | none ↦ none
      | some a ↦
          some ((destroy a).0, record { internal = null; cells = write o.cells o.internal none })
    ])

-- A call that reads the internal object.
unfoldable pub object_read : {A : Type 0} → Ptr → (A → ℤ) → Object A → Option ℤ
object_read object call o =
    if object == null || o.internal == null
    then some sthread_error_invalid
    else (elim (o.cells o.internal) [ none ↦ none | some a ↦ some (call a) ])

-- A call that changes it. `wrong` is what the call returns for an object that is not initialised.
unfoldable pub object_change :
    {A B : Type 0} → Ptr → (wrong : B) → (A → B × A) → Object A → Option (B × Object A)
object_change object wrong call o =
    if object == null || o.internal == null then some (wrong, o) else (elim (o.cells o.internal) [
      | none ↦ none
      | some a ↦ some ((call a).0, record o { cells = write o.cells o.internal (some (call a).1) })
    ])
