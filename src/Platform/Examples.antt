-- ===== src/Platform/Examples.antt =====
-- A deadline of src/platform.h.
use thread_management_librar.Base.{◌+◌, ◌*◌, ◌<◌, ◌≡◌, arith}
use thread_management_librar.Platform.{WallClock, linux, platform_get_abstime}
use thread_management_librar.Platform.Time.{nanoseconds, platform_get_abstime-exact}

-- 10.9 seconds, and 1250 milliseconds more.
platform_get_abstime-exact_example :
    let now : WallClock = linux (record { tv_sec = 10; tv_nsec = 900_000_000 }) in
    let ts = platform_get_abstime now 1250 in
    (ts.tv_nsec < 1_000_000_000)
    × (ts.tv_sec * 1_000_000_000 + ts.tv_nsec ≡ nanoseconds now + 1250 * 1_000_000)
platform_get_abstime-exact_example =
    platform_get_abstime-exact (linux (record { tv_sec = 10; tv_nsec = 900_000_000 })) 1250
      (omega arith)
