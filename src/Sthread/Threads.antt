-- ===== src/Sthread/Threads.antt =====
-- The thread functions of src/sthread.c, and its texts. A `sthread_t` is the address of a `malloc`ed
-- handle; a read of no handle, and its `free`, is a fault.
use thread_management_librar.Base.{
  ℕ, Bool, true, false, not, Option, none, some, ◌||◌, ◌==◌, if◌then◌else◌, Ptr, null,
}
use thread_management_librar.Base.Int.{ℤ, ◌==ℤ◌}
use Prim.Native.String.{String}
use thread_management_librar.Sync.Errors.{
  Errno, is_ok, sthread_success, sthread_error_nomem, sthread_error_invalid, sthread_error_busy,
  sthread_error_timeout, sthread_error_deadlock, sthread_error_shutdown, sthread_error_system,
}
use thread_management_librar.Sthread.Objects.{Cells, write}

-- `struct sthread_handle`, with the number of the thread.
pub record Handle : Type 0 where
  pub thread : ℕ
  pub detached : Bool

-- `*thread`, and the handles that are allocated.
pub record Handles : Type 0 where
  pub out : Ptr
  pub cells : Cells Handle

-- `fresh` is what `malloc` returns, `id` the new thread and `ret` what `pthread_create` returns.
unfoldable pub sthread_create : (thread func fresh : Ptr) (id : ℕ) → Errno → Handles → ℤ × Handles
sthread_create thread func fresh id ret h =
    let made = write h.cells fresh (some (record { thread = id; detached = false })) in
    if thread == null || func == null
    then (sthread_error_invalid, h)
    else if fresh == null
    then (sthread_error_nomem, h)
    else if not (is_ok ret)
    then (sthread_error_system, record h { cells = write made fresh none })
    else (sthread_success, record { out = fresh; cells = made })

-- `ret` is what `pthread_join` returns.
unfoldable pub sthread_join : Ptr → Errno → Cells Handle → Option (ℤ × Cells Handle)
sthread_join thread ret cells =
    if thread == null then some (sthread_error_invalid, cells) else (elim (cells thread) [
      | none ↦ none
      | some handle ↦
          if handle.detached
          then some (sthread_error_invalid, cells)
          else some
              (if is_ok ret then sthread_success else sthread_error_system, write cells thread none)
    ])

unfoldable pub sthread_detach : Ptr → Errno → Cells Handle → Option (ℤ × Cells Handle)
sthread_detach thread ret cells =
    if thread == null then some (sthread_error_invalid, cells) else (elim (cells thread) [
      | none ↦ none
      | some handle ↦
          if is_ok ret
          then some (
            sthread_success,
            write (write cells thread (some (record handle { detached = true }))) thread none,
          )
          else some (sthread_error_system, cells)
    ])

-- `self` is what `pthread_self` returns.
unfoldable pub sthread_self : (fresh : Ptr) (self : ℕ) → Cells Handle → Ptr × Cells Handle
sthread_self fresh self cells =
    if fresh == null
    then (null, cells)
    else (fresh, write cells fresh (some (record { thread = self; detached = false })))

unfoldable pub sthread_strerror : ℤ → String
sthread_strerror error =
    if error ==ℤ sthread_success
    then "Success"
    else if error ==ℤ sthread_error_nomem
    then "Out of memory"
    else if error ==ℤ sthread_error_invalid
    then "Invalid argument"
    else if error ==ℤ sthread_error_busy
    then "Resource busy"
    else if error ==ℤ sthread_error_timeout
    then "Operation timed out"
    else if error ==ℤ sthread_error_deadlock
    then "Potential deadlock detected"
    else if error ==ℤ sthread_error_shutdown
    then "Pool is shutting down"
    else if error ==ℤ sthread_error_system
    then "System call failed"
    else "Unknown error"

-- `STHREAD_VERSION_STRING`
abbrev pub sthread_version_string : String
sthread_version_string = "1.0.0"

unfoldable pub sthread_version : String
sthread_version = sthread_version_string
