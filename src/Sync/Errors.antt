-- ===== src/Sync/Errors.antt =====
-- The error codes of include/sthread.h, and `map_pthread_error` of src/sync.c.
use thread_management_librar.Base.{ℕ, Bool, true, false}
use thread_management_librar.Base.Int.{ℤ, pos, negsuc}

-- What a pthread function returns.
pub data Errno : Type 0 where
  no_error enomem einval ebusy etimedout edeadlk eperm eagain : Errno
  other_error : ℕ → Errno

abbrev pub is_ok : Errno → Bool
is_ok no_error = true
is_ok _ = false

-- `sthread_error_t`; `negsuc n` is -(n + 1).
abbrev pub sthread_success : ℤ
sthread_success = pos 0

abbrev pub sthread_error_nomem : ℤ
sthread_error_nomem = negsuc 0

abbrev pub sthread_error_invalid : ℤ
sthread_error_invalid = negsuc 1

abbrev pub sthread_error_busy : ℤ
sthread_error_busy = negsuc 2

abbrev pub sthread_error_timeout : ℤ
sthread_error_timeout = negsuc 3

abbrev pub sthread_error_deadlock : ℤ
sthread_error_deadlock = negsuc 4

abbrev pub sthread_error_shutdown : ℤ
sthread_error_shutdown = negsuc 5

abbrev pub sthread_error_system : ℤ
sthread_error_system = negsuc 6

unfoldable pub map_pthread_error : Errno → ℤ
map_pthread_error no_error = sthread_success
map_pthread_error enomem = sthread_error_nomem
map_pthread_error einval = sthread_error_invalid
map_pthread_error ebusy = sthread_error_busy
map_pthread_error etimedout = sthread_error_timeout
map_pthread_error edeadlk = sthread_error_system
map_pthread_error eperm = sthread_error_system
map_pthread_error eagain = sthread_error_system
map_pthread_error (other_error n) = sthread_error_system
