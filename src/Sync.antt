-- ===== src/Sync.antt =====
-- src/sync.c and src/sync.h: mutexes, condition variables and semaphores over pthread.
pub mod Errors
pub mod Primitives
pub mod Semaphore
pub mod Counting
pub mod CountingLaws
pub mod PrimitiveLaws
mod Examples
