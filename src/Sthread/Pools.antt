-- ===== src/Sthread/Pools.antt =====
-- The pool functions of src/sthread.c.
use thread_management_librar.Base.{
  ℕ, Bool, false, Option, none, some, ◌||◌, ◌==◌, if◌then◌else◌, Ptr, null,
}
use thread_management_librar.Base.Int.{ℤ, pos, negsuc, ◌==ℤ◌}
use thread_management_librar.Platform.{Processors, platform_get_num_cores}
use thread_management_librar.Scheduler.Store.{Priority, normal}
use thread_management_librar.Sync.Errors.{
  sthread_success, sthread_error_invalid, sthread_error_shutdown, sthread_error_system,
}
use thread_management_librar.ThreadPool.World.{
  World, Act, pure, ◌>>=◌, Answers, thread_pool_create, thread_pool_destroy, thread_pool_submit,
  WaitCall, wait_returned, wait_sleeps, thread_pool_wait, thread_pool_pending, thread_pool_active,
  thread_pool_size,
}

-- `sthread_pool_config_t`
pub record Config : Type 0 where
  pub num_threads : ℕ
  pub queue_capacity : ℕ
  pub stack_size : ℕ
  pub enable_priorities : Bool

unfoldable pub sthread_pool_create : (num_threads : ℕ) → Answers → Act Bool
sthread_pool_create num_threads ans = thread_pool_create num_threads 0 ans

-- `none` is NULL.
unfoldable pub sthread_pool_create_with_config : Option Config → Answers → Act Bool
sthread_pool_create_with_config none ans = pure false
sthread_pool_create_with_config (some config) ans =
    thread_pool_create config.num_threads config.queue_capacity ans

unfoldable pub sthread_pool_destroy : Ptr → Act ℤ
sthread_pool_destroy pool =
    if pool == null
    then pure sthread_error_invalid
    else (do _ ← thread_pool_destroy pool; pure sthread_success)

-- The code for what `thread_pool_submit` returns; `none` is a wait.
abbrev pub submit_code : Option ℤ → Option ℤ
submit_code none = none
submit_code (some ret) =
    if ret ==ℤ negsuc 1
    then some sthread_error_shutdown
    else if ret ==ℤ pos 0
    then some sthread_success
    else some sthread_error_system

unfoldable pub sthread_pool_submit : (pool func arg : Ptr) (fresh : Ptr) (now : ℕ) → Act (Option ℤ)
sthread_pool_submit pool func arg fresh now =
    if pool == null || func == null
    then pure (some sthread_error_invalid)
    else (do ret ← thread_pool_submit pool func arg normal fresh now; pure (submit_code ret))

unfoldable pub sthread_pool_submit_priority :
    (pool func arg : Ptr) → Priority → (fresh : Ptr) (now : ℕ) → Act (Option ℤ)
sthread_pool_submit_priority pool func arg priority fresh now =
    if pool == null || func == null
    then pure (some sthread_error_invalid)
    else (do ret ← thread_pool_submit pool func arg priority fresh now; pure (submit_code ret))

abbrev wait_code : WaitCall → Option ℤ
wait_code wait_sleeps = none
wait_code (wait_returned ret) =
    if ret ==ℤ pos 0 then some sthread_success else some sthread_error_system

-- `none` is a wait.
unfoldable pub sthread_pool_wait : Ptr → World → Option ℤ
sthread_pool_wait pool w =
    if pool == null then some sthread_error_invalid else wait_code (thread_pool_wait pool w)

unfoldable pub sthread_pool_pending : Ptr → Act ℕ
sthread_pool_pending pool = thread_pool_pending pool

unfoldable pub sthread_pool_active : Ptr → World → ℕ
sthread_pool_active pool = thread_pool_active pool

unfoldable pub sthread_pool_size : Ptr → World → ℕ
sthread_pool_size pool = thread_pool_size pool

unfoldable pub sthread_get_num_cores : Processors → ℕ
sthread_get_num_cores answer = platform_get_num_cores answer
