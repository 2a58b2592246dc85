-- ===== src/Platform.antt =====
-- src/platform.h: the operating system behind a few functions. What the system answers is an
-- argument of them.
pub mod Time
mod Examples
use Prim.Native.String.{String}
use thread_management_librar.Base.{
  ℕ, ◌+◌, ◌-◌, ◌*◌, ◌/◌, ◌%◌, ◌≡◌, Bool, true, false, Option, none, some, List, [], ◌∷◌, ◌&&◌, ◌==◌,
  ltb, leb, if◌then◌else◌, size_mod, uint_mod, Ptr, null,
}
use thread_management_librar.Base.Int.{ℤ, pos, negsuc, ◌==ℤ◌}

-- The systems that the library is built for.
pub data Os : Type 0 where
  macos linux : Os

-- `STHREAD_PLATFORM_NAME`
abbrev pub sthread_platform_name : Os → String
sthread_platform_name macos = "macOS"
sthread_platform_name linux = "Linux"

unfoldable pub platform_get_name : Os → String
platform_get_name os = sthread_platform_name os

unfoldable pub platform_init : ℤ
platform_init = pos 0

-- What the system says about processors: `sysctlbyname` on macOS, with its return value and the
-- count that it wrote, and `sysconf` on Linux.
pub data Processors : Type 0 where
  macos : (ret count : ℤ) → Processors
  linux : (cores : ℤ) → Processors

-- A conversion to `size_t`.
abbrev pub to_size : ℤ → ℕ
to_size (pos n) = n % size_mod
to_size (negsuc n) = (size_mod - 1 - n % size_mod) % size_mod

abbrev pub is_positive : ℤ → Bool
is_positive (pos n) = ltb 0 n
is_positive (negsuc n) = false

-- With what `sysconf(_SC_PAGESIZE)` returns.
unfoldable pub platform_get_page_size : ℤ → ℕ
platform_get_page_size page_size = to_size page_size

unfoldable pub platform_get_num_cores : Processors → ℕ
platform_get_num_cores (macos ret count) = if ret ==ℤ pos 0 then to_size count else 1
platform_get_num_cores (linux cores) = if is_positive cores then to_size cores else 1

pub record Timespec : Type 0 where
  pub tv_sec : ℕ
  pub tv_nsec : ℕ

-- The monotonic clock: ticks with a time base on macOS, seconds and nanoseconds on Linux.
pub data Clock : Type 0 where
  macos : (ticks numer denom : ℕ) → Clock
  linux : Timespec → Clock

unfoldable pub platform_get_time_ns : Clock → ℕ
platform_get_time_ns (macos ticks numer denom) = ticks * numer % size_mod / denom
platform_get_time_ns (linux ts) = (ts.tv_sec * 1_000_000_000 % size_mod + ts.tv_nsec) % size_mod

-- The wall clock: `gettimeofday` with microseconds on macOS, `clock_gettime` on Linux.
pub data WallClock : Type 0 where
  macos : (tv_sec tv_usec : ℕ) → WallClock
  linux : Timespec → WallClock

-- The carry of the nanoseconds, the same on both systems.
abbrev pub carry : Timespec → Timespec
carry ts =
    if leb 1_000_000_000 ts.tv_nsec
    then record { tv_sec = ts.tv_sec + 1; tv_nsec = ts.tv_nsec - 1_000_000_000 }
    else ts

unfoldable pub platform_get_abstime : WallClock → (timeout_ms : ℕ) → Timespec
platform_get_abstime (macos tv_sec tv_usec) timeout_ms = carry (record {
  tv_sec = tv_sec + timeout_ms / 1000;
  tv_nsec = tv_usec * 1000 + timeout_ms % 1000 * 1_000_000 % uint_mod;
})
platform_get_abstime (linux ts) timeout_ms = carry (record {
  tv_sec = ts.tv_sec + timeout_ms / 1000;
  tv_nsec = ts.tv_nsec + timeout_ms % 1000 * 1_000_000 % uint_mod;
})

-- A mapping made by `mmap`, and how many of its first bytes `mprotect` has closed.
pub record Region : Type 0 where
  pub start : Ptr
  pub size : ℕ
  pub closed : ℕ

-- `munmap` of a whole mapping; no mapping at this place of this size is a fault.
abbrev pub munmap : Ptr → ℕ → List Region → Option (List Region)
munmap p n [] = none
munmap p n (r ∷ rs) =
    if r.start == p && r.size == n
    then some rs
    else elim (munmap p n rs) [ none ↦ none | some rest ↦ some (r ∷ rest) ]

-- What `mmap` and `mprotect` answer; `none` is MAP_FAILED.
pub record Mapping : Type 0 where
  pub mapped : Option Ptr
  pub protect_ret : ℤ

pub record Guarded : Type 0 where
  pub stack : Ptr
  pub total_size : ℕ

-- `platform_alloc_with_guard`: NULL, or the address behind the guard page and the total size.
unfoldable pub platform_alloc_with_guard :
    (size page_size : ℕ) → Mapping → List Region → Option (Option Guarded × List Region)
platform_alloc_with_guard size page_size m regions =
    let total_size = (size + page_size) % size_mod in
    elim m.mapped [
      | none ↦ some (none, regions)
      | some mem ↦
          if m.protect_ret ==ℤ pos 0
          then some (
            some (record { stack = mem + page_size; total_size = total_size }),
            record { start = mem; size = total_size; closed = page_size } ∷ regions,
          )
          else (elim (munmap mem total_size
              (record { start = mem; size = total_size; closed = 0 } ∷ regions)) [
                | none ↦ none
                | some rest ↦ some (none, rest)
              ])
    ]

unfoldable pub platform_free_with_guard :
    (ptr total_size page_size : ℕ) → List Region → Option (List Region)
platform_free_with_guard ptr total_size page_size regions =
    if ptr == null then some regions else munmap (ptr - page_size) total_size regions
