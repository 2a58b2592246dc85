-- ===== src/Platform/Time.antt =====
-- The clocks and the processor count of src/platform.h.
use thread_management_librar.Base.{ℕ, ◌+◌, ◌*◌, ◌<◌, ◌≡◌, arith, size_mod}
use thread_management_librar.Base.Int.{pos}
use thread_management_librar.Platform.{
  WallClock, macos, linux, platform_get_abstime, platform_get_num_cores,
}

-- A wall clock whose fraction is less than a second.
abbrev pub IsNormal : WallClock → Type 0
IsNormal (macos sec usec) = usec < 1_000_000
IsNormal (linux ts) = ts.tv_nsec < 1_000_000_000

-- The time in nanoseconds.
abbrev pub nanoseconds : WallClock → ℕ
nanoseconds (macos sec usec) = sec * 1_000_000_000 + usec * 1000
nanoseconds (linux ts) = ts.tv_sec * 1_000_000_000 + ts.tv_nsec

-- On both systems the deadline is the clock's time plus the timeout, exactly, and its nanoseconds
-- stay below a second, as `pthread_cond_timedwait` wants them.
pub platform_get_abstime-exact :
    (now : WallClock) (timeout_ms : ℕ)
    → IsNormal now
    → let ts = platform_get_abstime now timeout_ms in
      (ts.tv_nsec < 1_000_000_000)
      × (ts.tv_sec * 1_000_000_000 + ts.tv_nsec ≡ nanoseconds now + timeout_ms * 1_000_000)
unfolding platform_get_abstime
platform_get_abstime-exact (macos sec usec) timeout_ms h = ground arith
platform_get_abstime-exact (linux ts) timeout_ms h = ground arith

-- On Linux the processor count is never 0.
pub linux_cores_pos : (n : ℕ) → n < size_mod → 0 < platform_get_num_cores (linux (pos n))
unfolding platform_get_num_cores
linux_cores_pos n h = ground arith
