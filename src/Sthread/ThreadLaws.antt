-- ===== src/Sthread/ThreadLaws.antt =====
-- The handles of the thread functions of src/sthread.c.
use thread_management_librar.Base.{
  ℕ, ◌≡◌, ◌≢◌, true, false, none, some, if◌then◌else◌, Ptr, null, arith, not_null,
}
use thread_management_librar.Sync.Errors.{
  Errno, no_error, is_ok, sthread_success, sthread_error_system,
}
use thread_management_librar.Sthread.Objects.{Cells, write}
use thread_management_librar.Sthread.Threads.{
  Handle, Handles, sthread_create, sthread_join, sthread_detach,
}

-- `sthread_create` with valid arguments and memory returns 0 with a new handle, or, if pthread
-- refuses, STHREAD_ERROR_SYSTEM with the handle freed; a join of the new handle, whatever pthread
-- answers, frees it, so that exactly the handles from before are left.
pub create_join :
    (thread func fresh : Ptr) (id : ℕ) (ret ret' : Errno) (h : Handles)
    → thread ≢ null
    → func ≢ null
    → fresh ≢ null
    → h.cells fresh ≡ none
    → is_ok ret ≡ false
    → (h₀ h₁ : Handles) × (cells : Cells Handle) × (sthread_create thread func fresh id ret h
        ≡ (sthread_error_system, h₀))
      × ((a : Ptr) → h₀.cells a ≡ h.cells a)
      × (sthread_create thread func fresh id no_error h ≡ (sthread_success, h₁))
      × (sthread_join h₁.out ret' h₁.cells
          ≡ some (if is_ok ret' then sthread_success else sthread_error_system, cells))
      × ((a : Ptr) → cells a ≡ h.cells a)
unfolding sthread_create sthread_join
create_join thread func fresh id ret ret' h nt nf nn unused fails = (
  record h { cells = write made fresh none },
  record { out = fresh; cells = made },
  write made fresh none,
  rw (not_null _ nt, not_null _ nf, not_null _ nn, fails),
  λ a. ground arith,
  rw (not_null _ nt, not_null _ nf, not_null _ nn),
  rw (not_null _ nn, at),
  λ a. ground arith,
)
  where
    made : Cells Handle
    made = write h.cells fresh (some (record { thread = id; detached = false }))

    at : made fresh ≡ some (record { thread = id; detached = false })
    at = ground arith

-- After a successful `sthread_detach` the handle is freed, so a `sthread_join` of it reads freed memory
-- and cannot come to its test of `detached`: a fault.
pub detach_then_join_faults :
    (thread : Ptr) (handle : Handle) (cells : Cells Handle) (ret : Errno)
    → thread ≢ null
    → cells thread ≡ some handle
    → (cells' : Cells Handle) × (sthread_detach thread no_error cells
        ≡ some (sthread_success, cells'))
      × (sthread_join thread ret cells' ≡ none)
unfolding sthread_detach sthread_join
detach_then_join_faults thread handle cells ret nt here = (
  write (write cells thread (some (record handle { detached = true }))) thread none,
  rw (not_null _ nt, here),
  rw (not_null _ nt, gone),
)
  where
    gone :
        write (write cells thread (some (record handle { detached = true }))) thread none thread
        ≡ none
    gone = ground arith
